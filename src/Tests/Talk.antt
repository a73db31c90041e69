-- ===== src/Tests/Talk.antt =====
-- crates/bridge-core/src/engine.rs, over the store in memory and a model that echoes the question.
use alice_llm_bridge.Base.{ℕ, ◌+◌, pos, ◌≡◌, ◌≢◌, refl, none, some, [], ◌∷◌, arith}
use alice_llm_bridge.Base.Text.{codes, text_eq}
use alice_llm_bridge.Base.Dict.{get, insert, remove, text_key}
use alice_llm_bridge.Profile.{NaiveDate, get_profile}
use alice_llm_bridge.PendingAnswers.{thinking, ready}
use alice_llm_bridge.Conversation.{no_rows}
use alice_llm_bridge.Llm
use alice_llm_bridge.Llm.{Role, chat_message, ChatRequest}
use alice_llm_bridge.Dialogue.{
  Floats, Calendar, ModelTier, ModelPreset, DialogueState, Engine, dropped, asking, world_of,
  memory_store,
}
use alice_llm_bridge.Dialogue.Phrases.{phrase_still_thinking}
use alice_llm_bridge.Dialogue.Handle.{W, says, handle}
use alice_llm_bridge.Dialogue.Background.{T, send}
use alice_llm_bridge.Dialogue.Asked.{Asked}
use alice_llm_bridge.Dialogue.Deferred.{send-handle}
use alice_llm_bridge.Dialogue.Known.{IsSound, handle-IsSound}
use alice_llm_bridge.Tests.Fixtures.{russian, dima, family, tales}

-- whole numbers in the place of floats
abbrev pub whole : Floats
whole = record {
  F = ℕ;
  of_u32 = λ n. n;
  tenths = λ n. n;
  add = λ a b. a + b;
  mul = λ a b. a;
  round = λ a. pos a;
  format_usd = λ c. codes "0.00";
}

abbrev first_day : NaiveDate
first_day = record { year = 1970; month = 1; day = 1 }

abbrev pub one_day : Calendar
one_day = record {
  date_of = λ now offset. first_day;
  day_start = λ now offset. 0;
  month_start = λ now offset. 0;
  years_since = λ a b. none;
  print_date = λ d. codes "1970-01-01";
}

abbrev echo : ModelPreset ℕ ℕ
echo = record {
  chat = λ r p. (
    Llm.ok (record {
      text = codes "Да.";
      usage = record { prompt_tokens = 1; completion_tokens = 1 };
    }),
    p,
  );
  model = codes "echo";
  max_tokens = 100;
  temperature = 7;
  input_price_per_mtok = 1;
  output_price_per_mtok = 1;
}

abbrev pub engine : Engine ℕ ℕ
engine = record {
  roster = family;
  modes = tales ∷ [];
  models = record { fast = echo; smart = echo };
  config = record { context_window = 4; utc_offset_hours = pos 3 };
  unicode = russian;
  calendar = one_day;
}

abbrev talk : DialogueState
talk = record {
  active_profile = codes "дима";
  mode = none;
  model_tier = ModelTier.fast;
  window_override = none;
}

abbrev pub fresh : W whole memory_store engine
fresh = world_of talk no_rows 0

known : get_profile family (codes "дима") ≡ some dima
unfolding get_profile text_eq
known = refl

handle-IsSound_example :
    IsSound family
      (tales ∷ [])
      (handle whole memory_store engine 5000
        (codes "u")
        (codes "помни последние 100 реплик")
        fresh).1.dialogue
handle-IsSound_example =
    handle-IsSound whole memory_store engine 5000 (codes "u") (codes "помни последние 100 реплик")
      fresh (record { member = (dima, known); mode_known = tt; window = tt })

abbrev late_task : T whole memory_store engine
late_task = record {
  key = codes "u";
  profile = codes "дима";
  question = codes "Почему?";
  preset = echo;
  messages = [];
  phase = asking;
  receiver = dropped;
}

abbrev marked : W whole memory_store engine
marked = record fresh { pending = (codes "u", thinking 1000) ∷ [] }

has_mark : get (codes "u") marked.pending ≡ some (thinking 1000)
unfolding get text_eq
has_mark = refl

other_user : codes "v" ≢ codes "u"
other_user e = ground arith

send-handle_example :
    let cleared = remove (codes "u") (insert (codes "u") (ready (codes "Да.")) marked.pending) in
    (handle whole memory_store engine 60000 (codes "u") (codes "Ну что там?") marked
      ≡ (says phrase_still_thinking, marked))
    × (handle whole memory_store engine 300000
          (codes "u")
          (codes "Ну что там?")
          (send whole memory_store engine late_task (codes "Да.") marked).1
        ≡ (says (codes "Да."), record marked { pending = cleared }))
    × (get (codes "u") cleared ≡ none)
    × (get (codes "v") cleared ≡ get (codes "v") marked.pending)
send-handle_example =
    send-handle whole memory_store engine late_task (codes "Да.") (codes "Ну что там?") marked 1000
      60000 300000 (codes "v") refl has_mark (omega arith) other_user
