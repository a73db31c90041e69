-- ===== src/CodexRuntime/Server.antt =====
-- crates/codex-runtime/src/lib.rs: `CodexRuntime` as the runtime of the household engine. Each call
-- opens a connection of its own. What the server does on it is a parameter.
use alice_llm_bridge.Base.{List, ◌++◌}
use alice_llm_bridge.Base.Text.{Text, codes}
use alice_llm_bridge.Base.Decimal.{to_string}
use alice_llm_bridge.Json.{Value}
use alice_llm_bridge.Codex.{
  CodexRuntimeError, invalid_config, transport, end_of_stream, invalid_message, message_too_large,
  server, protocol, forbidden_request, CodexResult, ok, err,
}
use alice_llm_bridge.Codex.Client.{M, Writer, JsonRpcClient, connected}
use alice_llm_bridge.Household
use alice_llm_bridge.Household.{HouseContext, HouseRuntime}
use alice_llm_bridge.CodexRuntime.{PathBuf, CodexRuntime, start_thread_with, turn_with}

-- `UnixStream::connect`, and then the handshake of the WebSocket
pub data Connection : Type 0 where
  unavailable : Connection
  no_handshake : Connection
  open_ : List (CodexResult Value) → Writer → Connection

-- The app-server: what it will send on a connection is settled when it is opened, and it takes note
-- of what the bridge wrote, the last message first.
pub record AppServer : Type 1 where
  pub State : Type 0
  pub connect : PathBuf → State → Connection × State
  pub take_note : List Value → State → State

-- `Display` of `CodexRuntimeError`
unfoldable pub error_to_string : CodexRuntimeError → Text
error_to_string (invalid_config why) = codes "invalid Codex runtime configuration: " ++ why
error_to_string transport = codes "Codex app-server transport failed"
error_to_string end_of_stream = codes "Codex app-server closed the connection"
error_to_string invalid_message = codes "Codex app-server sent invalid JSONL"
error_to_string message_too_large = codes "Codex app-server line exceeds the safety limit"
error_to_string (server code) = codes "Codex app-server returned JSON-RPC error " ++ to_string code
error_to_string (protocol why) = codes "Codex app-server protocol violation: " ++ why
error_to_string forbidden_request = codes "Codex app-server requested a forbidden operation"

unfoldable pub map_house_error : CodexResult Text → Household.Result Text
unfolding error_to_string
map_house_error (ok text) = Household.ok text
map_house_error (err e) = Household.err (error_to_string e)

module _ (app : AppServer) where
  abbrev pub closed :
      CodexResult Text × JsonRpcClient → app.State → Household.Result Text × app.State
  closed (r, c) s = (map_house_error r, app.take_note c.written s)

  abbrev pub on_connection :
      (Writer → M Text) → Connection × app.State → Household.Result Text × app.State
  on_connection call (unavailable, s) = (Household.err (codes "Codex app-server is unavailable"), s)
  on_connection call (no_handshake, s) = (map_house_error (err transport), s)
  on_connection call (open_ incoming writer, s) = closed (call writer (connected incoming)) s

  -- the body that both methods share
  unfoldable pub over_connection :
      PathBuf → (Writer → M Text) → app.State → Household.Result Text × app.State
  unfolding map_house_error connected
  over_connection socket_path call s = on_connection call (app.connect socket_path s)

  -- `impl HouseRuntime for CodexRuntime`
  abbrev pub codex_runtime : (version : Text) → CodexRuntime → HouseRuntime
  codex_runtime version runtime = record {
    State = app.State;
    start_thread = λ house instructions.
        over_connection runtime.config.socket_path
          (λ writer. start_thread_with version writer runtime house instructions);
    turn = λ house thread_id utterance.
        over_connection runtime.config.socket_path
          (λ writer. turn_with version writer runtime house thread_id utterance);
  }
