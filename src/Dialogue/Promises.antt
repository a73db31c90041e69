-- ===== src/Dialogue/Promises.antt =====
-- What a `ConversationStore` promises its client: an ordered history of messages, and a summary of
-- each profile.
use alice_llm_bridge.Base.{
  ℕ, ℤ, pos, false, ◌^◌, ◌≤◌, leb, ◌≡◌, Bool, not, ◌&&◌, if◌then◌else◌, Option, none, some, List,
  [], ◌∷◌, ◌++◌, map, ◌⊎◌,
}
use alice_llm_bridge.Base.Text.{Text, text_eq}
use alice_llm_bridge.Conversation.{
  user, assistant, StoredMessage, ExchangeRecord, Row, Summary, UsageStats, message, filter,
  covers_until, is_newer, count, fits_i64,
}
use alice_llm_bridge.Conversation.Ordered.{Between, last, front}
use alice_llm_bridge.Dialogue.{StoreResult, ok, err, ConversationStore}

-- The messages in the order of their ids, and the summaries.
pub record History : Type 0 where
  pub rows : List Row
  pub summary : Text → Option Summary

abbrev pub own : Text → Row → Bool
own profile r = text_eq r.profile profile

-- the messages of a profile that its summary does not cover
abbrev pub newer : Text → History → List Row
newer profile h =
    filter (λ r. own profile r && is_newer (covers_until (h.summary profile)) r.id) h.rows

-- the two rows of an exchange
abbrev pub question_row : ℕ → ExchangeRecord → ℕ → Row
question_row now e id = record {
  id = id;
  profile = e.profile;
  role = user;
  content = e.user_text;
  cost_micros = pos 0;
  created_at = now;
}

abbrev pub answer_row : ℕ → ExchangeRecord → ℕ → Row
answer_row now e id = record {
  id = id;
  profile = e.profile;
  role = assistant;
  content = e.assistant_text;
  cost_micros = e.cost_micros;
  created_at = now;
}

abbrev pub numbered : Row → ℤ × StoredMessage
numbered r = (pos r.id, message r)

-- the answers since an instant, and what all rows since then cost
abbrev pub usage : ℕ → History → UsageStats
usage since h =
    count (filter (λ r. leb since r.created_at) h.rows)
      (record { requests = 0; cost_micros = pos 0 })

-- The history after each call that succeeds, with its result.
pub data Recorded (now : ℕ) (e : ExchangeRecord) (h : History) (h' : History) : Type 0 where
  appended :
      (id id' : ℕ)
      → h'.rows ≡ h.rows ++ question_row now e id ∷ answer_row now e id' ∷ []
      → h'.summary ≡ h.summary
      → Recorded now e h h'

pub record Summarized (profile : Text) (s : Summary) (h h' : History) : Type 0 where
  pub rows : h'.rows ≡ h.rows
  pub summary : (p : Text) → h'.summary p ≡ (if text_eq profile p then some s else h.summary p)

pub record Cleared (profile : Text) (h h' : History) : Type 0 where
  pub rows : h'.rows ≡ filter (λ r. not (own profile r)) h.rows
  pub summary : (p : Text) → h'.summary p ≡ (if text_eq profile p then none else h.summary p)

-- A call succeeds, or fails for a reason and leaves the history.
pub data Outcome {A : Type 0} (P : A → History → Type 0) (Reason : Type 0) (h : History)
    : StoreResult A → History → Type 0 where
  succeeded : {a : A} {h' : History} → P a h' → Outcome P Reason h (ok a) h'
  failed : {log : Text} {h' : History} → Reason → h' ≡ h → Outcome P Reason h (err log) h'

-- the result of a call that reads
abbrev pub Reads : {A : Type 0} → A → History → A → History → Type 0
Reads answer h a h' = (a ≡ answer) × (h' ≡ h)

-- The state of a store as its client sees it. `IsDown` says that calls may fail at present.
pub record Memory (S : Type 0) : Type 1 where
  pub view : S → History
  pub IsValid : S → Type 0
  pub IsDown : S → Type 0
  pub newest : S → ℕ

module _ (store : ConversationStore) (m : Memory store.State) where
  -- a call keeps the state valid, and has an outcome
  abbrev pub Calls :
      {A : Type 0}
      → (A → History → Type 0)
      → Type 0
      → store.State
      → StoreResult A × store.State
      → Type 0
  Calls P Reason s x = m.IsValid x.1 × Outcome P Reason (m.view s) x.0 (m.view x.1)

  pub record KeepsHistory : Type 0 where
    pub ordered : (s : store.State) → m.IsValid s → Between 0 (m.view s).rows (m.newest s)
    pub record_exchange :
        (s : store.State) (now : ℕ) (e : ExchangeRecord)
        → m.IsValid s
        → Calls
            (λ _ h'. Recorded now e (m.view s) h')
            (m.IsDown s)
            s
            (store.record_exchange now e s)
    pub recent_messages :
        (s : store.State) (profile : Text) (limit : ℕ)
        → m.IsValid s
        → Calls
            (Reads (map message (last limit (filter (own profile) (m.view s).rows))) (m.view s))
            (m.IsDown s ⊎ (2 ^ 63 ≤ limit))
            s
            (store.recent_messages profile limit s)
    pub summary :
        (s : store.State) (profile : Text)
        → m.IsValid s
        → Calls
            (Reads ((m.view s).summary profile) (m.view s))
            (m.IsDown s)
            s
            (store.summary profile s)
    pub upsert_summary :
        (s : store.State) (profile : Text) (summary : Summary)
        → m.IsValid s
        → Calls
            (λ _ h'. Summarized profile summary (m.view s) h')
            (m.IsDown s)
            s
            (store.upsert_summary profile summary s)
    pub unsummarized :
        (s : store.State) (profile : Text) (keep : ℕ)
        → m.IsValid s
        → Calls
            (Reads (map numbered (front keep (newer profile (m.view s)))) (m.view s))
            (m.IsDown s)
            s
            (store.unsummarized profile keep s)
    pub clear_profile :
        (s : store.State) (profile : Text)
        → m.IsValid s
        → Calls
            (λ _ h'. Cleared profile (m.view s) h')
            (m.IsDown s)
            s
            (store.clear_profile profile s)
    pub usage_since :
        (s : store.State) (since : ℕ)
        → m.IsValid s
        → Calls
            (Reads (usage since (m.view s)) (m.view s))
            (m.IsDown s ⊎ (fits_i64 (usage since (m.view s)).cost_micros ≡ false))
            s
            (store.usage_since since s)
