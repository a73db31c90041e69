-- ===== src/Dialogue/Summaries.antt =====
-- crates/bridge-core/src/engine.rs: `maybe_summarize`, which `generate` spawns, an await at a time.
use alice_llm_bridge.Base.{
  ℕ, ltb, ℤ, pos, negsuc, if◌then◌else◌, Option, none, List, [], ◌∷◌, ◌++◌, map, concat, length,
}
use alice_llm_bridge.Base.Text.{Text, codes}
use alice_llm_bridge.Conversation.{MessageRole, user, assistant, StoredMessage, Summary}
use alice_llm_bridge.Llm
use alice_llm_bridge.Llm.{Role, ChatMessage, chat_message, ChatRequest, ChatCompletion, ChatResult}
use alice_llm_bridge.Dialogue.{StoreResult, ok, err, ConversationStore, Floats, Engine}
use alice_llm_bridge.Dialogue.Handle.{W, stored, or_default, window_of, content_of, or_else}
use alice_llm_bridge.Dialogue.Background.{outside}

abbrev pub speaker : MessageRole → Text
speaker user = codes "Пользователь"
speaker assistant = codes "Ассистент"

abbrev pub transcript_line : ℤ × StoredMessage → Text
transcript_line (id, m) = speaker m.role ++ (codes ": " ++ (m.content ++ b'\n' ∷ []))

abbrev pub instruction : Text → Text → Text
instruction previous transcript =
    codes
      "Сожми диалог в краткое резюме из трёх-пяти предложений. Сохрани важные факты о собеседнике и темы разговора.\nТекущее резюме: "
    ++ (previous ++ (codes "\nНовые реплики:\n" ++ transcript))

-- `max` of the ids, or 0
abbrev pub int_max : ℤ → ℤ → ℤ
int_max (pos a) (pos b) = if ltb a b then pos b else pos a
int_max (pos a) (negsuc b) = pos a
int_max (negsuc a) (pos b) = pos b
int_max (negsuc a) (negsuc b) = if ltb b a then negsuc b else negsuc a

abbrev pub max_of : ℤ → List ℤ → ℤ
max_of m [] = m
max_of m (n ∷ ns) = max_of (int_max m n) ns

abbrev pub last_id : List (ℤ × StoredMessage) → ℤ
last_id [] = pos 0
last_id ((id, _) ∷ rest) = max_of id (map (λ (r : ℤ × StoredMessage). r.0) rest)

-- The awaits of `maybe_summarize`, with what it has by then.
pub data Progress : Type 0 where
  loading : Progress
  reading : (pending : List (ℤ × StoredMessage)) → Progress
  compressing : (pending : List (ℤ × StoredMessage)) (previous : Text) → Progress
  storing : Summary → Progress
  done : Progress

module _ (fl : Floats) (store : ConversationStore) {P : Type 0} (engine : Engine fl.F P) where
  abbrev pub keep_last : W fl store engine → ℕ
  keep_last w = window_of fl store engine w.dialogue

  abbrev pub summary_request : Text → List (ℤ × StoredMessage) → ChatRequest fl.F
  summary_request previous pending = record {
    model = engine.models.fast.model;
    messages =
        chat_message Role.system (instruction previous (concat (map transcript_line pending))) ∷ [];
    max_tokens = 250;
    temperature = fl.tenths 3;
  }

  -- `if pending.len() < keep_last`
  abbrev pub on_unsummarized :
      ℕ → StoreResult (List (ℤ × StoredMessage)) × W fl store engine → Progress × W fl store engine
  on_unsummarized keep (err log, w) = (done, w)
  on_unsummarized keep (ok pending, w) =
      if ltb (length pending) keep then (done, w) else (reading pending, w)

  -- `.ok().flatten().map(|s| s.content).unwrap_or_default()`
  abbrev pub on_previous :
      List (ℤ × StoredMessage) → Option Summary × W fl store engine → Progress × W fl store engine
  on_previous pending (previous, w) = (compressing pending (or_else [] (content_of previous)), w)

  abbrev pub on_compressed :
      List (ℤ × StoredMessage)
      → ChatResult ChatCompletion × W fl store engine
      → Progress × W fl store engine
  on_compressed pending (Llm.err e, w) = (done, w)
  on_compressed pending (Llm.ok completion, w) =
      (storing (record { content = completion.text; covers_until_message_id = last_id pending }), w)

  abbrev pub on_stored : StoreResult (Unit {0}) × W fl store engine → Progress × W fl store engine
  on_stored (_, w) = (done, w)

  -- One await of `maybe_summarize`.
  unfoldable pub summarize : Text → Progress → W fl store engine → Progress × W fl store engine
  summarize profile loading w =
      on_unsummarized (keep_last w)
        (stored fl store engine w (store.unsummarized profile (keep_last w) w.store))
  summarize profile (reading pending) w =
      on_previous pending
        (or_default fl store engine none (stored fl store engine w (store.summary profile w.store)))
  summarize profile (compressing pending previous) w = on_compressed pending (
      outside fl store engine w
        (engine.models.fast.chat (summary_request previous pending) w.outside))
  summarize profile (storing s) w =
      on_stored (stored fl store engine w (store.upsert_summary profile s w.store))
  summarize profile done w = (done, w)
