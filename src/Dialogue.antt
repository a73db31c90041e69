-- ===== src/Dialogue.antt =====
-- crates/bridge-core/src/engine.rs, model.rs and phrases.rs: the dialogue engine of single users, its
-- parts and its state. What it does with an utterance stands in a child.
pub mod Phrases
pub mod Asked
pub mod Prompt
pub mod Handle
pub mod Promises
pub mod InMemory
pub mod Background
pub mod Deferred
pub mod Known
pub mod Summaries
pub mod Covering
pub mod Interleaved
pub mod Summarized
use alice_llm_bridge.Base.{
  ℕ, ◌+◌, ltb, ℤ, pos, Bool, true, false, if◌then◌else◌, Option, none, some, List, [], ◌∷◌, ◌++◌,
  map,
}
use alice_llm_bridge.Base.Text.{Text, codes}
use alice_llm_bridge.Profile.{NaiveDate, Profile, FamilyRoster, Mode, default_profile}
use alice_llm_bridge.Command.{Unicode}
use alice_llm_bridge.PendingAnswers.{Answers, no_answers}
use alice_llm_bridge.Conversation
use alice_llm_bridge.Conversation.{
  MessageRole, user, assistant, StoredMessage, ExchangeRecord, Summary, UsageStats, Inner,
}
use alice_llm_bridge.Llm.{
  Role, ChatMessage, chat_message, ChatRequest, TokenUsage, ChatCompletion, ChatResult,
}

pub data StoreResult (A : Type 0) : Type 0 where
  ok : A → StoreResult A
  err : (log : Text) → StoreResult A

-- The trait `ConversationStore`; `now` is the clock at the call.
pub record ConversationStore : Type 1 where
  pub State : Type 0
  pub record_exchange : (now : ℕ) → ExchangeRecord → State → StoreResult (Unit {0}) × State
  pub recent_messages : Text → ℕ → State → StoreResult (List StoredMessage) × State
  pub summary : Text → State → StoreResult (Option Summary) × State
  pub upsert_summary : Text → Summary → State → StoreResult (Unit {0}) × State
  pub unsummarized : Text → ℕ → State → StoreResult (List (ℤ × StoredMessage)) × State
  pub clear_profile : Text → State → StoreResult (Unit {0}) × State
  pub usage_since : ℕ → State → StoreResult UsageStats × State

abbrev pub signed : ℕ × StoredMessage → ℤ × StoredMessage
signed (id, m) = (pos id, m)

-- a panic is told as an error: in both there is no answer, and the store is as before
abbrev pub unless_panics : {A : Type 0} → Option A → StoreResult A
unless_panics none = err (codes "attempt to add with overflow")
unless_panics (some a) = ok a

-- `impl ConversationStore for MemoryStore`
abbrev pub memory_store : ConversationStore
memory_store = record {
  State = Inner;
  record_exchange = λ now e s. (ok tt, Conversation.record_exchange now e s);
  recent_messages = λ profile limit s. (ok (Conversation.recent_messages profile limit s), s);
  summary = λ profile s. (ok (Conversation.summary profile s), s);
  upsert_summary = λ profile m s. (ok tt, Conversation.upsert_summary profile m s);
  unsummarized = λ profile keep s. (ok (map signed (Conversation.unsummarized profile keep s)), s);
  clear_profile = λ profile s. (ok tt, Conversation.clear_profile profile s);
  usage_since = λ since s. (unless_panics (Conversation.usage_since since s), s);
}

pub data ModelTier : Type 0 where
  fast smart : ModelTier

-- Floats, which `temperature` and the prices are, and how sums of money are printed
-- (`{:.2}` of the dollars).
pub record Floats : Type 1 where
  pub F : Type 0
  pub of_u32 : ℕ → F
  pub tenths : ℕ → F
  pub add : F → F → F
  pub mul : F → F → F
  pub round : F → ℤ
  pub format_usd : (cost_micros : ℤ) → Text

-- The clock's dates: `Utc::now()` with an offset in hours, and the instants of a day's and of a
-- month's first midnight.
pub record Calendar : Type 0 where
  pub date_of : (now : ℕ) → (utc_offset_hours : ℤ) → NaiveDate
  pub day_start : (now : ℕ) → (utc_offset_hours : ℤ) → ℕ
  pub month_start : (now : ℕ) → (utc_offset_hours : ℤ) → ℕ
  pub years_since : NaiveDate → NaiveDate → Option ℕ
  pub print_date : NaiveDate → Text

-- `ModelPreset`; `chat` is its provider's, over the state `P` of all that is outside.
pub record ModelPreset (F P : Type 0) : Type 0 where
  pub chat : ChatRequest F → P → ChatResult ChatCompletion × P
  pub model : Text
  pub max_tokens : ℕ
  pub temperature : F
  pub input_price_per_mtok : F
  pub output_price_per_mtok : F

pub record ModelRegistry (F P : Type 0) : Type 0 where
  pub fast : ModelPreset F P
  pub smart : ModelPreset F P

abbrev pub preset_of : {F P : Type 0} → ModelRegistry F P → ModelTier → ModelPreset F P
preset_of registry ModelTier.fast = registry.fast
preset_of registry ModelTier.smart = registry.smart

module _ (fl : Floats) {P : Type 0} where
  unfoldable pub cost_micros : TokenUsage → ModelPreset fl.F P → ℤ
  cost_micros usage preset = fl.round (
      fl.add (fl.mul (fl.of_u32 usage.prompt_tokens) preset.input_price_per_mtok)
        (fl.mul (fl.of_u32 usage.completion_tokens) preset.output_price_per_mtok))

-- `reply_budget` is not there: when it runs out is an event.
pub record EngineConfig : Type 0 where
  pub context_window : ℕ
  pub utc_offset_hours : ℤ

pub record DialogueState : Type 0 where
  pub active_profile : Text
  pub mode : Option Text
  pub model_tier : ModelTier
  pub window_override : Option ℕ

-- What stays the same in `EngineInner`.
pub record Engine (F P : Type 0) : Type 0 where
  pub roster : FamilyRoster
  pub modes : List Mode
  pub models : ModelRegistry F P
  pub config : EngineConfig
  pub unicode : Unicode
  pub calendar : Calendar

-- `Engine::new`; `none` is a roster without its default member
abbrev pub state_of : Option Profile → Option DialogueState
state_of none = none
state_of (some p) = some (record {
  active_profile = p.name;
  mode = none;
  model_tier = ModelTier.fast;
  window_override = none;
})

unfoldable pub initial_state : FamilyRoster → Option DialogueState
initial_state roster = state_of (default_profile roster)

-- The receiver of a reply: a request waits with it, has met its deadline but not dropped it yet, or
-- is gone.
pub data Receiver : Type 0 where
  waiting expired dropped : Receiver

-- The await points of the spawned block, and of `generate` in it.
pub data Phase : Type 0 where
  asking : Phase
  recording : ChatCompletion → Phase
  finished : (reply : Text) → Phase

pub record Task (F P : Type 0) : Type 0 where
  pub key : Text
  pub profile : Text
  pub question : Text
  pub preset : ModelPreset F P
  pub messages : List ChatMessage
  pub phase : Phase
  pub receiver : Receiver

-- All that changes: the state behind the mutex, the deferred answers, the store, what is outside,
-- the spawned replies, and the profiles whose summaries are due.
pub record World (S F P : Type 0) : Type 0 where
  pub dialogue : DialogueState
  pub pending : Answers
  pub store : S
  pub outside : P
  pub tasks : List (Task F P)
  pub summaries_due : List Text

-- the world of a new engine
abbrev pub world_of : {S F P : Type 0} → DialogueState → S → P → World S F P
world_of dialogue store outside = record {
  dialogue = dialogue;
  pending = no_answers;
  store = store;
  outside = outside;
  tasks = [];
  summaries_due = [];
}
