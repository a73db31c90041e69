-- ===== src/PendingAnswers.antt =====
-- crates/bridge-core/src/pending.rs: answers that missed the deadline of the webhook, in memory. A
-- clock in milliseconds stands for `Instant`.
pub mod Trace
use alice_llm_bridge.Base.{
  ℕ, ◌-◌, ltb, Bool, true, false, if◌then◌else◌, Option, some, List, [], ◌∷◌,
}
use alice_llm_bridge.Base.Text.{Text}
use alice_llm_bridge.Base.Dict.{get, insert, remove, text_key}

abbrev pub thinking_ttl : ℕ
thinking_ttl = 120000

pub data PendingState : Type 0 where
  thinking : (since : ℕ) → PendingState
  ready : Text → PendingState

pub data Poll : Type 0 where
  none still_thinking : Poll
  answer : Text → Poll

abbrev pub Answers : Type 0
Answers = List (Text × PendingState)

-- `PendingAnswers::new`
abbrev pub no_answers : Answers
no_answers = []

unfoldable pub mark_thinking : ℕ → Text → Answers → Answers
mark_thinking now key inner = insert key (thinking now) inner

abbrev pub complete_entry : Text → Text → Answers → Option PendingState → Answers
complete_entry key text inner Option.none = inner
complete_entry key text inner (some _) = insert key (ready text) inner

-- `complete`: a key that was cleared stays cleared
unfoldable pub complete : Text → Text → Answers → Answers
complete key text inner = complete_entry key text inner (get key inner)

unfoldable pub clear : Text → Answers → Answers
clear key inner = remove key inner

abbrev pub poll_entry : ℕ → Text → Answers → Option PendingState → Poll × Answers
poll_entry now key inner Option.none = (Poll.none, inner)
poll_entry now key inner (some (ready text)) = (answer text, remove key inner)
poll_entry now key inner (some (thinking since)) =
    if ltb thinking_ttl (now - since)
    then (Poll.none, remove key inner)
    else (still_thinking, inner)

-- `poll`: a ready answer is taken out, a mark that is too old is dropped
unfoldable pub poll : ℕ → Text → Answers → Poll × Answers
poll now key inner = poll_entry now key inner (get key inner)
