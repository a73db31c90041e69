-- ===== src/Codex/Turn.antt =====
-- crates/codex-runtime/src/client.rs: the notifications of a turn, one iteration of `collect_turn`.
use alice_llm_bridge.Base.{Bool, if◌then◌else◌, Option, none, some, ◌++◌, is_empty}
use alice_llm_bridge.Base.Text.{Text, codes, text_eq}
use alice_llm_bridge.Json.{Value, str_at}
use alice_llm_bridge.Codex.{
  protocol, CodexResult, ok, err, at_param, agent_message_delta, item_completed, turn_completed,
  require_turn, require_completed_turn, observe_homey_tool,
}

-- What a turn has said, and whether a mutation was left unverified.
pub record Collected : Type 0 where
  pub assistant_text : Text
  pub unverified : Bool

-- The rest of an iteration of `collect_turn`: the next one, or the end.
pub data Iteration : Type 0 where
  again : Collected → Iteration
  finish : CodexResult Text → Iteration

unfoldable pub unconfirmed : Text
unconfirmed = codes "Не получилось подтвердить изменение устройства."

abbrev pub turn_result : Collected → CodexResult Text
turn_result t =
    if t.unverified
    then ok unconfirmed
    else if is_empty t.assistant_text
    then err (protocol (codes "completed turn has no assistant text"))
    else ok t.assistant_text

abbrev pub or_finish : CodexResult Collected → Iteration
or_finish (ok t) = again t
or_finish (err e) = finish (err e)

abbrev pub then_ {ℓ} : {A : Type ℓ} → CodexResult (Unit {0}) → CodexResult A → CodexResult A
then_ (ok _) r = r
then_ (err e) r = err e

-- the three kinds of notification that a turn is made of
unfoldable pub on_delta : Text → Text → Value → Collected → CodexResult Collected
on_delta thread_id turn_id message t =
    then_ (require_turn message thread_id turn_id) (elim (str_at (at_param "delta") message) [
      | none ↦ err (protocol (codes "agent delta has no text"))
      | some delta ↦ ok (record t { assistant_text = t.assistant_text ++ delta })
    ])

unfoldable pub on_item : Text → Text → Option Text → Value → Collected → CodexResult Collected
on_item thread_id turn_id connector message t =
    elim (observe_homey_tool message thread_id turn_id connector t.unverified) [
      | err e ↦ err e
      | ok unverified ↦ ok (record t { unverified = unverified })
    ]

unfoldable pub on_completed : Text → Text → Value → Collected → CodexResult Text
on_completed thread_id turn_id message t =
    then_ (require_completed_turn message thread_id turn_id) (turn_result t)

-- `match method`
unfoldable pub on_method :
    (thread_id turn_id : Text) → Option Text → Value → Text → Collected → Iteration
unfolding on_delta on_item on_completed
on_method thread_id turn_id connector message method t =
    if text_eq agent_message_delta method
    then or_finish (on_delta thread_id turn_id message t)
    else if text_eq item_completed method
    then or_finish (on_item thread_id turn_id connector message t)
    else if text_eq turn_completed method
    then finish (on_completed thread_id turn_id message t)
    else again t
