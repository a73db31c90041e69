-- ===== src/Codex.antt =====
-- crates/codex-runtime/src/client.rs, protocol.rs and error.rs: the JSON-RPC client of the Codex
-- app-server. Here are its errors, its constants and its tests on a message.
pub mod Turn
pub mod Client
pub mod Guarded
pub mod Passed
pub mod Handled
pub mod Observed
pub mod Answered
pub mod Finished
pub mod Response
pub mod Transport
pub mod Frames
pub mod Params
use alice_llm_bridge.Base.{
  ℕ, ◌+◌, ◌%◌, ◌^◌, ◌==◌, ◌≡◌, ℤ, pos, negsuc, Bool, true, false, not, ◌&&◌, ◌||◌, if◌then◌else◌,
  Option, none, some, List, [], ◌∷◌, ◌++◌, is_empty, String,
}
use alice_llm_bridge.Base.Text.{Text, codes, text_eq}
use alice_llm_bridge.Json.{
  Value, bool, integer, string, object, get, and_then, pointer, as_str, as_u64, as_i64, str_at,
  bool_at, is_some, json,
}

pub data CodexRuntimeError : Type 0 where
  invalid_config : Text → CodexRuntimeError
  transport end_of_stream invalid_message message_too_large : CodexRuntimeError
  server : ℤ → CodexRuntimeError
  protocol : Text → CodexRuntimeError
  forbidden_request : CodexRuntimeError

pub data CodexResult {ℓ} (A : Type ℓ) : Type ℓ where
  ok : A → CodexResult A
  err : CodexRuntimeError → CodexResult A

-- `ok_or`, and `unwrap_or` of an option
abbrev pub ok_or {ℓ} : {A : Type ℓ} → Option A → CodexRuntimeError → CodexResult A
ok_or none e = err e
ok_or (some a) e = ok a

abbrev pub unwrap_or {ℓ} : {A : Type ℓ} → A → Option A → A
unwrap_or default none = default
unwrap_or default (some a) = a

-- `Option<&str> == Some(text)` and `Option<&str> == Option<&str>`
abbrev pub is_text : Text → Option Text → Bool
is_text expected none = false
is_text expected (some t) = text_eq expected t

abbrev pub same_text : Option Text → Option Text → Bool
same_text none none = true
same_text (some s) found = is_text s found
same_text none (some _) = false

-- the keys of a message, and the places that are read in it
abbrev pub key_id : Text
key_id = codes "id"

abbrev pub key_method : Text
key_method = codes "method"

abbrev pub key_params : Text
key_params = codes "params"

abbrev pub key_result : Text
key_result = codes "result"

abbrev pub key_error : Text
key_error = codes "error"

-- `"/params/threadId"` and its like
unfoldable pub at_param : String → List Text
at_param key = key_params ∷ codes key ∷ []

unfoldable pub at_item : String → List Text
at_item key = key_params ∷ codes "item" ∷ codes key ∷ []

unfoldable pub at_turn : String → List Text
at_turn key = key_params ∷ codes "turn" ∷ codes key ∷ []

unfoldable pub at_verified : List Text
at_verified =
    key_params ∷ codes "item" ∷ key_result ∷ codes "structuredContent" ∷ codes "verified" ∷ []

unfoldable pub agent_message_delta : Text
agent_message_delta = codes "item/agentMessage/delta"

unfoldable pub item_completed : Text
item_completed = codes "item/completed"

unfoldable pub turn_completed : Text
turn_completed = codes "turn/completed"

-- the requests of the server that are declined
unfoldable pub is_approval : Text → Bool
is_approval method =
    text_eq (codes "item/commandExecution/requestApproval") method
    || text_eq (codes "item/fileChange/requestApproval") method

unfoldable pub require_turn : Value → (thread_id turn_id : Text) → CodexResult (Unit {0})
require_turn message thread_id turn_id =
    if not (is_text thread_id (str_at (at_param "threadId") message))
      || not (is_text turn_id (str_at (at_param "turnId") message))
    then err (protocol (codes "notification belongs to another thread or turn"))
    else ok tt

unfoldable pub require_completed_turn : Value → (thread_id turn_id : Text) → CodexResult (Unit {0})
require_completed_turn message thread_id turn_id =
    if not (is_text thread_id (str_at (at_param "threadId") message))
      || not (is_text turn_id (str_at (at_turn "id") message))
      || not (is_text (codes "completed") (str_at (at_turn "status") message))
    then err (protocol (codes "turn completed with mismatched identity or status"))
    else ok tt

-- `completed` and `verified` of `observe_homey_tool`
abbrev pub is_verified : Value → Bool
is_verified message =
    is_text (codes "completed") (str_at (at_item "status") message)
    && unwrap_or false (bool_at at_verified message)

-- `match tool`: whether a mutation was left unverified, by now
unfoldable pub on_tool : Value → Bool → Text → CodexResult Bool
on_tool message unverified tool =
    if text_eq (codes "list_attention_items") tool || text_eq (codes "get_device_state") tool
    then ok unverified
    else if text_eq (codes "set_device_capability") tool
    then ok (if is_verified message then unverified else true)
    else err forbidden_request

-- The flag `unverified_mutation` goes in and comes out.
unfoldable pub observe_homey_tool :
    Value → (thread_id turn_id : Text) → Option Text → Bool → CodexResult Bool
unfolding require_turn on_tool
observe_homey_tool message thread_id turn_id homey_connector unverified =
    elim (require_turn message thread_id turn_id) [
      | err e ↦ err e
      | ok _ ↦
          if not (is_text (codes "mcpToolCall") (str_at (at_item "type") message))
          then ok unverified
          else if not (same_text (str_at (at_item "server") message) homey_connector)
          then err forbidden_request
          else elim (str_at (at_item "tool") message) [
            | none ↦ err (protocol (codes "MCP item has no tool name"))
            | some tool ↦ on_tool message unverified tool
          ]
    ]
