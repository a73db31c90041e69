-- ===== src/Tests/Codex.antt =====
-- crates/codex-runtime: a turn against a server that asks for an approval and streams its answer.
use alice_llm_bridge.Base.{◌↔◌, ◌≡◌, refl, ℕ, pos, true, false, none, some, List, [], ◌∷◌, All}
use alice_llm_bridge.Base.Text.{
  Text, codes, text_eq, is_ascii_alphanumeric, is_ascii_digit, starts_with, strip_prefix,
}
use alice_llm_bridge.Base.Decimal.{decimal, digits_of, to_string}
use alice_llm_bridge.Json.{Value, bool, integer, string, json, pointer}
use alice_llm_bridge.Codex.{
  at_param, at_turn, is_approval, item_completed, require_completed_turn, require_turn, err,
  CodexResult, ok, key_id, key_method, key_params, key_result, agent_message_delta, turn_completed,
}
use alice_llm_bridge.Codex.Client.{
  ◌>>=◌, response_of, notify, await_response, collect_incoming, collect_queued, decline,
  handle_server_request, notification, on_message, request_message, write_message, JsonRpcClient,
  Writer, connected, request, collect_turn,
}
use alice_llm_bridge.Codex.Turn.{on_completed, on_delta, on_method}
use alice_llm_bridge.Codex.Params.{turn_start, turn_start_params}
use alice_llm_bridge.Codex.Response.{IsResponse, request-IsResponse}
use alice_llm_bridge.Codex.Finished.{collect_turn_iff}
use alice_llm_bridge.Codex.Answered.{IsAnswer}
use alice_llm_bridge.Codex.Transport.{text, ping, close, Received, message, SerdeJson, read_message}
use alice_llm_bridge.Codex.Frames.{Comes, read_message_iff}
use alice_llm_bridge.Household.{HouseContext}
use alice_llm_bridge.CodexRuntime.{
  homey_connector, validate_permission_result, at_profile, at_sandbox, required_string,
  at_thread_id, at_turn_id, initialize, validate_homey_connector, start_thread_with, CodexRuntime,
  turn_with, permissions_of,
}
use alice_llm_bridge.CodexRuntime.Isolated.{
  TurnMessage, turn_with-TurnMessage, StartMessage, start_thread_with-StartMessage,
}
use alice_llm_bridge.CodexRuntime.Profile.{
  IsAnsweredTurn, turn_with-IsAnsweredTurn, permissions_of-injective,
}

abbrev pub runtime : CodexRuntime
runtime = record {
  config = record {
    socket_path = codes "/run/codex.sock";
    cwd_root = codes "/srv/houses";
    permission_profile_prefix = codes "house-";
    homey_enabled = true;
  };
}

abbrev pub house : HouseContext
house = record {
  id = pos 7;
  name = codes "Дача";
  codex_thread_id = some (codes "t1");
  homey_connector_id = codes "homey-7";
}

abbrev pub writer : Writer
writer before v = ok tt

writer_accepts : (before : List Value) (v : Value) → writer before v ≡ ok tt
writer_accepts before v = refl

-- the same house in another row
abbrev second_house : HouseContext
second_house = record house { name = codes "Дом" }

abbrev message_of : CodexResult Value → Value
message_of (ok m) = m
message_of (err e) = json []

abbrev response : ℕ → Value → CodexResult Value
response id result = ok (json ((key_id, integer (pos id)) ∷ (key_result, result) ∷ []))

abbrev resumed : Value
resumed = json (
    (codes "thread", json ((key_id, string (codes "t1")) ∷ []))
    ∷ (codes "activePermissionProfile", json ((key_id, string (codes "house-7")) ∷ []))
    ∷ (
      codes "sandbox",
      json ((codes "type", string (codes "readOnly")) ∷ (codes "networkAccess", bool false) ∷ []),
    )
    ∷ [])

abbrev notice : Text → List (Text × Value) → CodexResult Value
notice method params = ok (json ((key_method, string method) ∷ (key_params, json params) ∷ []))

abbrev delta : Text → CodexResult Value
delta piece = notice agent_message_delta (
    (codes "threadId", string (codes "t1"))
    ∷ (codes "turnId", string (codes "u1"))
    ∷ (codes "delta", string piece)
    ∷ [])

abbrev approval : CodexResult Value
approval = ok (
    json (
      (key_id, integer (pos 90))
      ∷ (key_method, string (codes "item/fileChange/requestApproval"))
      ∷ []))

abbrev completed : CodexResult Value
completed = notice turn_completed (
    (codes "threadId", string (codes "t1"))
    ∷ (
      codes "turn",
      json ((key_id, string (codes "u1")) ∷ (codes "status", string (codes "completed")) ∷ []),
    )
    ∷ [])

-- The first piece comes before the answer to `turn/start` and waits in the queue.
abbrev pub incoming : List (CodexResult Value)
incoming =
    response 1 (json [])
    ∷ response 2 resumed
    ∷ delta (codes "Три ")
    ∷ response 3 (json ((codes "turn", json ((key_id, string (codes "u1")) ∷ [])) ∷ []))
    ∷ approval
    ∷ delta (codes "окна.")
    ∷ completed
    ∷ []

abbrev pub version : Text
version = codes "0.1.0"

abbrev turn : CodexResult Text × JsonRpcClient
turn =
    turn_with version writer runtime house (codes "t1") (codes "Что с окнами?") (connected incoming)

turn_is_answered : turn.0 ≡ ok (codes "Три окна.")
unfolding turn_with connected ◌>>=◌ homey_connector is_ascii_alphanumeric is_ascii_digit request
    text_eq response_of notify validate_permission_result pointer at_profile permissions_of
    to_string at_sandbox required_string at_thread_id at_turn_id collect_turn decimal digits_of
    starts_with strip_prefix await_response collect_incoming collect_queued decline
    handle_server_request notification on_message request_message write_message on_completed
    on_delta on_method agent_message_delta at_param at_turn is_approval item_completed
    require_completed_turn require_turn turn_completed initialize validate_homey_connector
turn_is_answered = refl

turn_with-IsAnsweredTurn_example :
    IsAnsweredTurn version writer runtime house
      (codes "t1")
      (codes "Что с окнами?")
      (connected incoming)
      (codes "Три окна.")
turn_with-IsAnsweredTurn_example =
    turn_with-IsAnsweredTurn version writer runtime house (codes "t1") (codes "Что с окнами?")
      (connected incoming) turn_is_answered

turn_with-TurnMessage_example :
    All (TurnMessage version runtime house (codes "t1") (codes "Что с окнами?")) turn.1.written
turn_with-TurnMessage_example =
    turn_with-TurnMessage version runtime house writer incoming (codes "t1") (codes "Что с окнами?")

starts_in_house :
    All
      (StartMessage version runtime house (codes "Отвечай коротко."))
      (start_thread_with version writer runtime house
        (codes "Отвечай коротко.")
        (connected incoming)).1.written
starts_in_house =
    start_thread_with-StartMessage version runtime house writer incoming (codes "Отвечай коротко.")

-- The client while it waits for the third answer.
abbrev waiting : JsonRpcClient
waiting = record {
  next_id = 3;
  notifications = [];
  incoming = delta (codes "Три ") ∷ approval ∷ response 3 (json []) ∷ completed ∷ [];
  written = [];
}

abbrev answered : CodexResult Value × JsonRpcClient
answered = request writer turn_start (turn_start_params (codes "t1") (codes "Да")) waiting

call_is_answered : answered.0 ≡ ok (json [])
unfolding ◌>>=◌ request text_eq response_of await_response decline handle_server_request
    request_message write_message agent_message_delta is_approval
call_is_answered = refl

request-IsResponse_example : IsResponse 3 [] answered.1 waiting.incoming (json [])
request-IsResponse_example =
    request-IsResponse writer turn_start (turn_start_params (codes "t1") (codes "Да")) waiting
      call_is_answered

-- A turn of which the first piece is queued.
abbrev collecting : JsonRpcClient
collecting = record waiting {
  notifications = message_of (delta (codes "Три ")) ∷ [];
  incoming = approval ∷ delta (codes "окна.") ∷ completed ∷ [];
}

collect_turn_iff_example :
    ((collect_turn writer (codes "t1") (codes "u1") (some (codes "homey-7")) collecting).0
      ≡ ok (codes "Три окна."))
    ↔ IsAnswer
        (codes "t1")
        (codes "u1")
        (some (codes "homey-7"))
        collecting.notifications
        collecting.incoming
        (codes "Три окна.")
collect_turn_iff_example =
    collect_turn_iff writer (codes "t1") (codes "u1") (some (codes "homey-7")) collecting
      (codes "Три окна.") writer_accepts

same_house : house.id ≡ second_house.id
unfolding permissions_of
same_house = permissions_of-injective runtime house second_house refl refl refl

abbrev reads : SerdeJson
reads = record { from_str = λ s. some (string s); to_string = λ _. none }

-- A ping that is answered, and a text.
abbrev stream : List Received
stream = message (ping []) ∷ message (text (codes "{}")) ∷ message close ∷ []

read_message_iff_example :
    (read_message reads (λ _. true) stream ≡ (ok (string (codes "{}")), message close ∷ []))
    ↔ Comes reads (λ _. true) (string (codes "{}")) (message close ∷ []) stream
read_message_iff_example =
    read_message_iff reads (λ _. true) stream (message close ∷ []) (string (codes "{}"))
