-- ===== src/Codex/Response.antt =====
-- What the answer to a call says of the messages that came before it.
use alice_llm_bridge.Base.{
  ℕ, ◌+◌, ◌%◌, ◌^◌, ◌≡◌, refl, sym, ap, ◌⊎◌, inl, inr, true, false, if◌then◌else◌, none, some, List,
  [], ◌∷◌, ◌++◌, map, append_assoc, append-nil, All, arith, Bool-cases,
}
use alice_llm_bridge.Base.Text.{Text}
use alice_llm_bridge.Json.{Value, as_u64, get, is_some, and_then}
use alice_llm_bridge.Codex.{
  CodexResult, ok, err, key_error, key_result, key_id, key_method, is_approval,
}
use alice_llm_bridge.Codex.Client.{
  await_response, response_of, request, JsonRpcClient, M, ◌>>=◌, Writer, handle_server_request,
  request_message, await_, write_message,
}
use alice_llm_bridge.Codex.Passed.{method_of}
use alice_llm_bridge.Codex.Handled.{handle-approval, notifications-handle, chain-ok, chain-eq}

-- A message that is no answer: a request for an approval, or a notification.
abbrev pub IsSkipped : Value → Type 0
IsSkipped message =
    (is_some (get key_method message) ≡ true)
    × ((is_some (get key_id message) ≡ false)
        ⊎ ((method : Text) × (method_of message ≡ some method) × (is_approval method ≡ true)))

-- the notifications among the messages
abbrev pub notifications_of : List Value → List Value
notifications_of [] = []
notifications_of (message ∷ messages) =
    if is_some (get key_id message)
    then notifications_of messages
    else message ∷ notifications_of messages

-- The answer `value` to the call `id`: the queue before, the client behind it, and what it read.
pub record IsResponse (id : ℕ) (queue : List Value) (after : JsonRpcClient)
    (incoming : List (CodexResult Value)) (value : Value) : Type 0 where
  pub skipped : List Value
  pub response : Value
  pub read : incoming ≡ map ok skipped ++ ok response ∷ after.incoming
  pub are_skipped : All IsSkipped skipped
  pub is_response : is_some (get key_method response) ≡ false
  pub answers : and_then as_u64 (get key_id response) ≡ some id
  pub no_error : get key_error response ≡ none
  pub result : get key_result response ≡ some value
  pub queued : after.notifications ≡ queue ++ notifications_of skipped

response_of-ok :
    (id : ℕ) (message : Value) {value : Value}
    → response_of id message ≡ ok value
    → (and_then as_u64 (get key_id message) ≡ some id)
      × (get key_error message ≡ none)
      × (get key_result message ≡ some value)
unfolding response_of
response_of-ok id message h = ground arith

-- A skipped message stands before those that are skipped later.
skip-IsResponse :
    (id : ℕ) (message : Value) (queue queue' : List Value) (after : JsonRpcClient)
    (rest : List (CodexResult Value)) (value : Value)
    → IsSkipped message
    → queue' ≡ queue ++ notifications_of (message ∷ [])
    → IsResponse id queue' after rest value
    → IsResponse id queue after (ok message ∷ rest) value
skip-IsResponse id message queue queue' after rest value s e r = record {
  skipped = message ∷ r.skipped;
  response = r.response;
  read = ap (λ l. ok message ∷ l) r.read;
  are_skipped = (s, r.are_skipped);
  is_response = r.is_response;
  answers = r.answers;
  no_error = r.no_error;
  result = r.result;
  queued =
      ground
        (arith, append_assoc queue (notifications_of (message ∷ [])) (notifications_of r.skipped));
}

module _ (writer : Writer) where
  await_response-IsResponse :
      (id : ℕ) (incoming : List (CodexResult Value)) (c : JsonRpcClient) {value : Value}
      → (await_response writer id incoming c).0 ≡ ok value
      → IsResponse id c.notifications (await_response writer id incoming c).1 incoming value
  unfolding await_response ◌>>=◌
  await_response-IsResponse id [] c h = cc
  await_response-IsResponse id (err e ∷ rest) c h = cc
  await_response-IsResponse id (ok message ∷ rest) c {value} h =
      let here : JsonRpcClient = record c { incoming = rest } in
      elim (Bool-cases (is_some (get key_method message))) [
        | inr e ↦
            let (a, n, v) = response_of-ok id message (rw e at h) in
            rw e (record {
              skipped = [];
              response = message;
              read = refl;
              are_skipped = tt;
              is_response = e;
              answers = a;
              no_error = n;
              result = v;
              queued = sym (append-nil c.notifications);
            })
        | inl e ↦ elim (Bool-cases (is_some (get key_id message))) [
          | inr e' ↦
              let next : JsonRpcClient = record here {
                notifications = c.notifications ++ message ∷ [];
              } in
              rw (e, e')
                (skip-IsResponse id message c.notifications next.notifications
                  (await_response writer id rest next).1 rest value (e, inl e') (rw e' refl)
                  (await_response-IsResponse id rest next (rw (e, e') at h)))
          | inl e' ↦
              let again : M Value = await_response writer id rest in
              let handled : CodexResult (Unit {0}) × JsonRpcClient =
                handle_server_request writer message here in
              let (x, o, r) = chain-ok handled (λ _. again) (rw (e, e') at h) in
              rw (e, e', chain-eq handled (λ _. again) o)
                (skip-IsResponse id message c.notifications handled.1.notifications
                  (again handled.1).1 rest value (e, inr (handle-approval writer message here o))
                  (rw (e', notifications-handle writer message here)
                    (sym (append-nil c.notifications)))
                  (await_response-IsResponse id rest handled.1 r))
        ]
      ]

-- A call that succeeds has read an answer with its own id, no error and the result it returns. All
-- that came before were requests for an approval and notifications; the notifications, and only
-- they, were added to the queue in their order, and what is left of the stream stands behind the
-- answer.
pub request-IsResponse :
    (writer : Writer) (method : Text) (params : Value) (c : JsonRpcClient) {value : Value}
    → (request writer method params c).0 ≡ ok value
    → IsResponse c.next_id c.notifications (request writer method params c).1 c.incoming value
unfolding request ◌>>=◌ write_message
request-IsResponse writer method params c h =
    let message = request_message c.next_id method params in
    let next : JsonRpcClient = record c { next_id = (c.next_id + 1) % 2 ^ 64 } in
    let sent : CodexResult (Unit {0}) × JsonRpcClient = write_message writer message next in
    let (x, o, r) = chain-ok sent (λ _. await_ writer c.next_id) h in
    rw (chain-eq sent (λ _. await_ writer c.next_id) o)
      (await_response-IsResponse writer c.next_id c.incoming sent.1 r)
