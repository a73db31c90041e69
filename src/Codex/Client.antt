-- ===== src/Codex/Client.antt =====
-- crates/codex-runtime/src/client.rs: `JsonRpcClient`. A run is given by what `read_message` returns,
-- one result after the other, and by what `write_message` returns for each message.
use alice_llm_bridge.Base.{
  ℕ, ◌+◌, ◌%◌, ◌^◌, ◌==◌, pos, negsuc, Bool, false, not, ◌&&◌, if◌then◌else◌, Option, none, some,
  List, [], ◌∷◌, ◌++◌,
}
use alice_llm_bridge.Base.Text.{Text, codes}
use alice_llm_bridge.Json.{
  Value, integer, string, get, and_then, as_str, as_u64, as_i64, is_some, json,
}
use alice_llm_bridge.Codex.{
  CodexRuntimeError, end_of_stream, server, protocol, forbidden_request, CodexResult, ok, err,
  ok_or, unwrap_or, key_id, key_method, key_params, key_result, key_error, is_approval,
}
use alice_llm_bridge.Codex.Turn.{Collected, Iteration, again, finish, on_method}

-- `incoming` is what `read_message` will return; behind its last result the stream has ended.
-- `written` is what was given to `write_message`, the last one first.
pub record JsonRpcClient : Type 0 where
  pub next_id : ℕ
  pub notifications : List Value
  pub incoming : List (CodexResult Value)
  pub written : List Value

-- `jsonl` and `unix_websocket`
unfoldable pub connected : List (CodexResult Value) → JsonRpcClient
connected incoming = record { next_id = 1; notifications = []; incoming = incoming; written = [] }

-- a method of the client
abbrev pub M {ℓ} : Type ℓ → Type ℓ
M A = JsonRpcClient → CodexResult A × JsonRpcClient

abbrev pub pure {ℓ} : {A : Type ℓ} → A → M A
pure a c = (ok a, c)

abbrev pub lift {ℓ} : {A : Type ℓ} → CodexResult A → M A
lift r c = (r, c)

abbrev pub chain {ℓ κ} :
    {A : Type ℓ} {B : Type κ}
    → CodexResult A × JsonRpcClient
    → (A → M B)
    → CodexResult B × JsonRpcClient
chain (ok a, c) f = f a c
chain (err e, c) f = (err e, c)

infixl 5 ◌>>=◌ ◌>>◌
unfoldable pub ◌>>=◌ {ℓ κ} : {A : Type ℓ} {B : Type κ} → M A → (A → M B) → M B
◌>>=◌ m f c = chain (m c) f

abbrev pub ◌>>◌ {ℓ} : {B : Type ℓ} → M (Unit {0}) → M B → M B
m >> k = m >>= λ _. k

-- What `write_message` returns for a message, behind the messages given to it before.
abbrev pub Writer : Type 0
Writer = List Value → Value → CodexResult (Unit {0})

-- `json!({"id": id, "result": {"decision": "decline"}})` and the error that forbids a method
unfoldable pub decline : Value → Value
decline id =
    json
      ((key_id, id) ∷ (key_result, json ((codes "decision", string (codes "decline")) ∷ [])) ∷ [])

unfoldable pub method_not_allowed : Value → Value
method_not_allowed id = json (
    (key_id, id)
    ∷ (
      key_error,
      json (
          (codes "code", integer (negsuc 32600))
          ∷ (codes "message", string (codes "method not allowed"))
          ∷ []),
    )
    ∷ [])

unfoldable pub request_message : ℕ → Text → Value → Value
request_message id method params =
    json ((key_id, integer (pos id)) ∷ (key_method, string method) ∷ (key_params, params) ∷ [])

unfoldable pub notification : Text → Option Value → Value
notification method none = json ((key_method, string method) ∷ [])
notification method (some params) = json ((key_method, string method) ∷ (key_params, params) ∷ [])

-- the answer to a request, or why it is none: the end of the loop of `request`
abbrev pub server_error : Value → CodexRuntimeError
server_error error = server (unwrap_or (negsuc 0) (and_then as_i64 (get (codes "code") error)))

abbrev pub has_id : ℕ → Option ℕ → Bool
has_id id none = false
has_id id (some n) = n == id

unfoldable pub response_of : ℕ → Value → CodexResult Value
response_of id message =
    if not (has_id id (and_then as_u64 (get key_id message)))
    then err (protocol (codes "response id does not match the request"))
    else elim (get key_error message) [
      | some error ↦ err (server_error error)
      | none ↦ ok_or (get key_result message) (protocol (codes "response has no result"))
    ]

module _ (writer : Writer) where
  unfoldable pub write_message : Value → M (Unit {0})
  write_message message c = (writer c.written message, record c { written = message ∷ c.written })

  unfoldable pub notify : Text → Option Value → M (Unit {0})
  unfolding write_message
  notify method params = write_message (notification method params)

  abbrev pub answer_request : Value → Text → M (Unit {0})
  answer_request id method =
      if is_approval method
      then write_message (decline id)
      else do write_message (method_not_allowed id); lift (err forbidden_request)

  unfoldable pub handle_server_request : Value → M (Unit {0})
  unfolding write_message
  handle_server_request message = do
    id ← lift (ok_or (get key_id message) (protocol (codes "server request has no id")))
    method ← lift (
        ok_or (and_then as_str (get key_method message))
          (protocol (codes "server request has no method")))
    answer_request id method

  -- the loop of `request`, over what is still to be read
  abbrev pub on_response : ℕ → Value → M Value → M Value
  on_response id message read_on c =
      if is_some (get key_method message)
      then (if is_some (get key_id message)
          then (handle_server_request message >> read_on) c
          else read_on (record c { notifications = c.notifications ++ message ∷ [] }))
      else (response_of id message, c)

  unfoldable pub await_response : ℕ → List (CodexResult Value) → M Value
  await_response id [] c = (err end_of_stream, record c { incoming = [] })
  await_response id (err e ∷ rest) c = (err e, record c { incoming = rest })
  await_response id (ok message ∷ rest) c =
      on_response id message (await_response id rest) (record c { incoming = rest })

  abbrev pub await_ : ℕ → M Value
  await_ id c = await_response id c.incoming c

  -- `next_id` is a `u64`.
  unfoldable pub request : Text → Value → M Value
  unfolding write_message await_response handle_server_request
  request method params c =
      (write_message (request_message c.next_id method params) >> await_ c.next_id)
        (record c { next_id = (c.next_id + 1) % 2 ^ 64 })

  module _ (thread_id turn_id : Text) (connector : Option Text) where
    abbrev pub on_progress : Iteration → (Collected → M Text) → M Text
    on_progress (again t) read_on c = read_on t c
    on_progress (finish r) read_on c = (r, c)

    -- one iteration of `collect_turn`
    unfoldable pub on_message : Value → Collected → (Collected → M Text) → M Text
    on_message message t read_on c =
        if is_some (get key_method message) && is_some (get key_id message)
        then (handle_server_request message >> read_on t) c
        else elim (and_then as_str (get key_method message)) [
          | none ↦ (err (protocol (codes "unexpected response while waiting for turn")), c)
          | some method ↦
              on_progress (on_method thread_id turn_id connector message method t) read_on c
        ]

    unfoldable pub collect_incoming : List (CodexResult Value) → Collected → M Text
    unfolding on_message
    collect_incoming [] t c = (err end_of_stream, record c { incoming = [] })
    collect_incoming (err e ∷ rest) t c = (err e, record c { incoming = rest })
    collect_incoming (ok message ∷ rest) t c =
        on_message message t (collect_incoming rest) (record c { incoming = rest })

    -- The queue is read first.
    unfoldable pub collect_queued : List Value → Collected → M Text
    unfolding on_message collect_incoming
    collect_queued [] t c = collect_incoming c.incoming t c
    collect_queued (message ∷ queue) t c =
        on_message message t (collect_queued queue) (record c { notifications = queue })

    unfoldable pub collect_turn : M Text
    unfolding collect_queued
    collect_turn c =
        collect_queued c.notifications (record { assistant_text = []; unverified = false }) c
