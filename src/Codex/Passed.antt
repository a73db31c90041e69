-- ===== src/Codex/Passed.antt =====
-- The messages of a turn, as `collect_turn` of crates/codex-runtime/src/client.rs reads them: what it
-- goes on behind, what ends it, and what each adds to the answer.
use alice_llm_bridge.Base.{
  ◌≡◌, ◌⊎◌, Bool, true, false, not, ◌&&◌, ◌||◌, if◌then◌else◌, Option, none, some, List, [], ◌∷◌,
  ◌++◌,
}
use alice_llm_bridge.Base.Text.{Text, codes, text_eq}
use alice_llm_bridge.Json.{Value, get, is_some, and_then, as_str, str_at}
use alice_llm_bridge.Codex.{
  is_text, unwrap_or, key_id, key_method, at_param, at_item, at_turn, agent_message_delta,
  item_completed, turn_completed, is_approval, is_verified,
}
use alice_llm_bridge.Codex.Turn.{Collected}

abbrev pub method_of : Value → Option Text
method_of message = and_then as_str (get key_method message)

-- `tool` is one of the three.
abbrev pub IsAllowedTool : Text → Type 0
IsAllowedTool tool =
    (tool ≡ codes "list_attention_items")
    ⊎ (tool ≡ codes "get_device_state")
    ⊎ (tool ≡ codes "set_device_capability")

-- What a message adds to the answer, and whether it leaves a mutation unverified.
unfoldable pub delta_of : Value → Text
delta_of message = elim (method_of message) [
  | none ↦ []
  | some method ↦
      if text_eq agent_message_delta method
      then unwrap_or [] (str_at (at_param "delta") message)
      else []
]

abbrev pub calls_tool : Text → Value → Bool
calls_tool tool message =
    is_text (codes "mcpToolCall") (str_at (at_item "type") message)
    && is_text tool (str_at (at_item "tool") message)

unfoldable pub leaves_unverified : Value → Bool
leaves_unverified message = elim (method_of message) [
  | none ↦ false
  | some method ↦
      text_eq item_completed method
      && calls_tool (codes "set_device_capability") message
      && not (is_verified message)
]

module _ (thread_id turn_id : Text) (connector : Option Text) where
  pub record IsOfTurn (message : Value) : Type 0 where
    pub thread : str_at (at_param "threadId") message ≡ some thread_id
    pub turn : str_at (at_param "turnId") message ≡ some turn_id

  -- A message that a turn goes on behind: a request (it has an `id`) for an approval, which is
  -- declined; a piece of the answer; an item that is no call of a tool or an allowed one; another notification.
  pub data Passed (message : Value) : Type 0 where
    approval :
        {method : Text}
        → is_some (get key_id message) ≡ true
        → method_of message ≡ some method
        → is_approval method ≡ true
        → Passed message
    delta :
        {d : Text}
        → is_some (get key_id message) ≡ false
        → method_of message ≡ some agent_message_delta
        → IsOfTurn message
        → str_at (at_param "delta") message ≡ some d
        → Passed message
    item :
        is_some (get key_id message) ≡ false
        → method_of message ≡ some item_completed
        → IsOfTurn message
        → is_text (codes "mcpToolCall") (str_at (at_item "type") message) ≡ false
        → Passed message
    tool_call :
        {tool : Text}
        → is_some (get key_id message) ≡ false
        → method_of message ≡ some item_completed
        → IsOfTurn message
        → str_at (at_item "server") message ≡ connector
        → str_at (at_item "tool") message ≡ some tool
        → IsAllowedTool tool
        → Passed message
    other :
        {method : Text}
        → is_some (get key_id message) ≡ false
        → method_of message ≡ some method
        → text_eq agent_message_delta method ≡ false
        → text_eq item_completed method ≡ false
        → text_eq turn_completed method ≡ false
        → Passed message

  pub record Completes (message : Value) : Type 0 where
    pub is_no_request : is_some (get key_id message) ≡ false
    pub method : method_of message ≡ some turn_completed
    pub thread : str_at (at_param "threadId") message ≡ some thread_id
    pub turn : str_at (at_turn "id") message ≡ some turn_id
    pub status : str_at (at_turn "status") message ≡ some (codes "completed")

-- what a turn has collected behind a message
abbrev pub absorb : Collected → Value → Collected
absorb t message = record {
  assistant_text = t.assistant_text ++ delta_of message;
  unverified = t.unverified || leaves_unverified message;
}

abbrev pub absorb_all : Collected → List Value → Collected
absorb_all t [] = t
absorb_all t (message ∷ messages) = absorb_all (absorb t message) messages
