-- ===== src/Tests/Dialogue.antt =====
-- crates/bridge-core/src/command.rs, profile.rs, pending.rs and store.rs
use alice_llm_bridge.Base.{
  pos, ◌++◌, ◌+◌, ltb, true, false, if◌then◌else◌, ◌≡◌, ◌≢◌, refl, none, some, [], ◌∷◌, All, arith,
}
use alice_llm_bridge.Base.Text.{Text, codes, text_eq, is_whitespace}
use alice_llm_bridge.Profile.{Profile, ok, roster_new, get_profile, default_profile}
use alice_llm_bridge.Profile.Roster.{roster_new-default_profile}
use alice_llm_bridge.Command.{
  introduce, forget, set_window, enter_mode, command, ask, split_whitespace, join, normalize, parse,
}
use alice_llm_bridge.Command.Normal.{IsWord, normalize-IsWord}
use alice_llm_bridge.Command.Ask.{IsBlank, IsUnicode, parse_asks, parse_same_command}
use alice_llm_bridge.PendingAnswers.{
  thinking_ttl, Poll, still_thinking, answer, mark_thinking, complete, clear, poll,
}
use alice_llm_bridge.PendingAnswers.Trace.{mark_thinking-poll}
use alice_llm_bridge.Conversation.{
  ExchangeRecord, Inner, no_rows, push_row, record_exchange, recent_messages, summary, unsummarized,
  clear_profile, usage_since,
}
use alice_llm_bridge.Conversation.History.{
  question, answer_of, recent_messages-record_exchange, clear_profile-forgets,
}
use alice_llm_bridge.Tests.Fixtures.{lower, russian, dima, family, tales, parsing}

commands :
    (parse russian (codes "Я - папа!") family (tales ∷ []) ≡ command (introduce (codes "дима")))
    × (parse russian (codes "забудь всё") family (tales ∷ []) ≡ command forget)
    × (parse russian (codes "помни последние 12 реплик") family (tales ∷ [])
        ≡ command (set_window 12))
    × (parse russian (codes "расскажи сказку про кота") family (tales ∷ [])
        ≡ command (enter_mode (codes "сказка")))
    × (parse russian (codes " подумай крепко, почему? ") family (tales ∷ [])
        ≡ ask (codes "почему") true)
    × (parse russian (codes " Почему? ") family (tales ∷ []) ≡ ask (codes "Почему?") false)
unfolding parsing
commands = (refl, refl, refl, refl, refl, refl)

normalize-IsWord_example :
    (normalize russian (codes "забудь, всё!")
      ≡ join (split_whitespace (normalize russian (codes "забудь, всё!"))))
    × All (IsWord russian) (split_whitespace (normalize russian (codes "забудь, всё!")))
normalize-IsWord_example = normalize-IsWord russian (codes "забудь, всё!")

lower-IsBlank : (s : Text) → IsBlank s → IsBlank (lower s)
unfolding is_whitespace
lower-IsBlank [] h = tt
lower-IsBlank (c ∷ s) h = (ground arith, lower-IsBlank s h.1)

russian-IsUnicode : IsUnicode russian
russian-IsUnicode = record { blank_lower = lower-IsBlank }

asks : parse russian (codes " Почему? ") family [] ≡ ask (codes "Почему?") false
unfolding parsing
asks = refl

asked_words : (codes "Почему?" ≢ []) × (normalize russian (codes " Почему? ") ≢ [])
asked_words =
    parse_asks russian (codes " Почему? ") (codes "Почему?") false family [] russian-IsUnicode asks

same_words : normalize russian (codes "забудь, всё!") ≡ normalize russian (codes "забудь  все")
unfolding parsing
same_words = refl

forgets : parse russian (codes "забудь, всё!") family [] ≡ command forget
unfolding parsing
forgets = refl

parse_same_command_example : parse russian (codes "забудь  все") family [] ≡ command forget
parse_same_command_example =
    parse_same_command russian (codes "забудь, всё!") (codes "забудь  все") forget family []
      same_words forgets

made : roster_new (dima ∷ []) (codes "дима") ≡ ok family
unfolding roster_new text_eq
made = refl

has_default :
    (p : Profile) × (default_profile family ≡ some p)
    × (get_profile family (codes "дима") ≡ some p)
    × (p.name ≡ codes "дима")
has_default = roster_new-default_profile (dima ∷ []) (codes "дима") family made

mark_thinking-poll_example :
    let marked = mark_thinking 1000 (codes "u") [] in
    let given = poll 5000 (codes "u") (complete (codes "u") (codes "да") marked) in
    let early = poll 5000 (codes "u") marked in
    (given.0 ≡ answer (codes "да"))
    × ((poll 6000 (codes "u") given.1).0 ≡ Poll.none)
    × (early.0 ≡ (if ltb (1000 + thinking_ttl) 5000 then Poll.none else still_thinking))
    × ((poll 6000 (codes "u") (complete (codes "u") (codes "да") early.1)).0
        ≡ (if ltb (1000 + thinking_ttl) 5000 then Poll.none else answer (codes "да")))
    × ((poll 6000 (codes "u") (complete (codes "u") (codes "да") (clear (codes "u") marked))).0
        ≡ Poll.none)
    × ((other : Text)
        → other ≢ codes "u"
        → (poll 5000 other (complete (codes "u") (codes "да") marked)).0 ≡ (poll 5000 other []).0)
mark_thinking-poll_example =
    mark_thinking-poll (codes "u") (codes "да") 1000 5000 6000 [] (omega arith)

abbrev chat : ExchangeRecord
chat = record {
  profile = codes "дима";
  user_text = codes "Почему?";
  assistant_text = codes "Потому.";
  model = codes "fast";
  prompt_tokens = 10;
  completion_tokens = 20;
  cost_micros = pos 5;
}

abbrev history : Inner
history = record_exchange 100 chat (record_exchange 50 chat no_rows)

one_more :
    (recent_messages (codes "дима") 3 (record_exchange 150 chat history)
      ≡ recent_messages (codes "дима") 1 history ++ question chat ∷ answer_of chat ∷ [])
    × ((other : Text)
        → other ≢ codes "дима"
        → recent_messages other 1 (record_exchange 150 chat history)
          ≡ recent_messages other 1 history)
one_more = recent_messages-record_exchange 150 1 chat history

cleared_history :
    (recent_messages (codes "дима") 6 (clear_profile (codes "дима") history) ≡ [])
    × (summary (codes "дима") (clear_profile (codes "дима") history) ≡ none)
    × (unsummarized (codes "дима") 2 (clear_profile (codes "дима") history) ≡ [])
    × ((other : Text)
        → other ≢ codes "дима"
        → (recent_messages other 6 (clear_profile (codes "дима") history)
            ≡ recent_messages other 6 history)
          × (summary other (clear_profile (codes "дима") history) ≡ summary other history))
cleared_history = clear_profile-forgets (codes "дима") 6 2 history

spent : usage_since 100 history ≡ some (record { requests = 1; cost_micros = pos 5 })
unfolding record_exchange push_row usage_since
spent = refl
