-- ===== src/Codex/Guarded.antt =====
-- What the client writes on a connection: its own calls, refusals, and nothing else.
use alice_llm_bridge.Base.{
  ◌≡◌, refl, ℕ, ◌+◌, ◌%◌, ◌^◌, ◌&&◌, Bool-cases, Option-cases, inl, inr, Option, List, [], ◌∷◌, All,
}
use alice_llm_bridge.Base.Text.{Text}
use alice_llm_bridge.Json.{Value, get, is_some, and_then, as_str}
use alice_llm_bridge.Codex.{
  CodexResult, ok, err, key_id, key_method, is_approval, forbidden_request,
}
use alice_llm_bridge.Codex.Turn.{Collected, Iteration, again, finish, on_method}
use alice_llm_bridge.Codex.Client.{
  JsonRpcClient, M, chain, ◌>>=◌, lift, Writer, decline, method_not_allowed, request_message,
  notification, write_message, notify, answer_request, handle_server_request, on_response,
  await_response, await_, request, on_progress, on_message, collect_incoming, collect_queued,
  collect_turn,
}

-- `P` holds of all that is written, if it did before.
module _ (P : Value → Type 0) where
  abbrev pub Keeps : {A : Type 0} → M A → Type 0
  Keeps m = (c : JsonRpcClient) → All P c.written → All P (m c).1.written

  chain-Keeps :
      {A B : Type 0} (x : CodexResult A × JsonRpcClient) (f : A → M B)
      → All P x.1.written
      → ((a : A) → Keeps (f a))
      → All P (chain x f).1.written
  chain-Keeps (ok a, c) f h k = k a c h
  chain-Keeps (err e, c) f h k = h

  pub bind-Keeps :
      {A B : Type 0} (m : M A) (f : A → M B) → Keeps m → ((a : A) → Keeps (f a)) → Keeps (m >>= f)
  unfolding ◌>>=◌
  bind-Keeps m f h k c w = chain-Keeps (m c) f (h c w) k

  -- A value that was computed without the connection comes with its equation.
  pub bind_lift-Keeps :
      {A B : Type 0} (r : CodexResult A) (f : A → M B)
      → ((a : A) → r ≡ ok a → Keeps (f a))
      → Keeps (lift r >>= f)
  unfolding ◌>>=◌
  bind_lift-Keeps (ok a) f k c w = k a refl c w
  bind_lift-Keeps (err e) f k c w = w

module _ (writer : Writer) (P : Value → Type 0) (declined : (id : Value) → P (decline id))
    (denied : (id : Value) → P (method_not_allowed id)) where
  pub write-Keeps : (message : Value) → P message → Keeps P (write_message writer message)
  unfolding write_message
  write-Keeps message p c w = (p, w)

  answer-Keeps : (id : Value) (method : Text) → Keeps P (answer_request writer id method)
  answer-Keeps id method c w = elim (Bool-cases (is_approval method)) [
    | inl e ↦ rw e (write-Keeps (decline id) (declined id) c w)
    | inr e ↦ rw e (
        bind-Keeps P (write_message writer (method_not_allowed id))
          (λ _. lift (err forbidden_request)) (write-Keeps (method_not_allowed id) (denied id))
          (λ _ c' w'. w') c w)
  ]

  pub handle-Keeps : (message : Value) → Keeps P (handle_server_request writer message)
  unfolding handle_server_request
  handle-Keeps message =
      bind_lift-Keeps P _ _ (λ id _. bind_lift-Keeps P _ _ (λ method _. answer-Keeps id method))

  response-Keeps :
      (id : ℕ) (message : Value) (read_on : M Value)
      → Keeps P read_on
      → Keeps P (on_response writer id message read_on)
  response-Keeps id message read_on k c w = elim (Bool-cases (is_some (get key_method message))) [
    | inl e ↦ rw e (elim (Bool-cases (is_some (get key_id message))) [
      | inl e' ↦ rw e' (
          bind-Keeps P (handle_server_request writer message) (λ _. read_on) (handle-Keeps message)
            (λ _. k) c w)
      | inr e' ↦ rw e' (k _ w)
    ])
    | inr e ↦ rw e w
  ]

  await-Keeps :
      (id : ℕ) (incoming : List (CodexResult Value)) → Keeps P (await_response writer id incoming)
  unfolding await_response
  await-Keeps id [] c w = w
  await-Keeps id (err e ∷ rest) c w = w
  await-Keeps id (ok message ∷ rest) c w =
      response-Keeps id message (await_response writer id rest) (await-Keeps id rest)
        (record c { incoming = rest }) w

  pub request-Keeps :
      (method : Text) (params : Value)
      → ((id : ℕ) → P (request_message id method params))
      → Keeps P (request writer method params)
  unfolding request
  request-Keeps method params p c w =
      bind-Keeps P (write_message writer (request_message c.next_id method params))
        (λ _. await_ writer c.next_id) (write-Keeps _ (p c.next_id))
        (λ _ c' w'. await-Keeps c.next_id c'.incoming c' w')
        (record c { next_id = (c.next_id + 1) % 2 ^ 64 }) w

  pub notify-Keeps :
      (method : Text) (params : Option Value)
      → P (notification method params)
      → Keeps P (notify writer method params)
  unfolding notify
  notify-Keeps method params p = write-Keeps (notification method params) p

  module _ (thread_id turn_id : Text) (connector : Option Text) where
    progress-Keeps :
        (p : Iteration) (read_on : Collected → M Text)
        → ((t : Collected) → Keeps P (read_on t))
        → Keeps P (on_progress writer thread_id turn_id connector p read_on)
    progress-Keeps (again t) read_on k c w = k t c w
    progress-Keeps (finish r) read_on k c w = w

    message-Keeps :
        (message : Value) (t : Collected) (read_on : Collected → M Text)
        → ((u : Collected) → Keeps P (read_on u))
        → Keeps P (on_message writer thread_id turn_id connector message t read_on)
    unfolding on_message
    message-Keeps message t read_on k c w =
        elim (Bool-cases (is_some (get key_method message) && is_some (get key_id message))) [
          | inl e ↦ rw e (
              bind-Keeps P (handle_server_request writer message) (λ _. read_on t)
                (handle-Keeps message) (λ _. k t) c w)
          | inr e ↦ rw e (elim (Option-cases (and_then as_str (get key_method message))) [
            | inl e' ↦ rw e' w
            | inr (method, e') ↦ rw e' (
                progress-Keeps (on_method thread_id turn_id connector message method t) read_on k c
                  w)
          ])
        ]

    incoming-Keeps :
        (incoming : List (CodexResult Value)) (t : Collected)
        → Keeps P (collect_incoming writer thread_id turn_id connector incoming t)
    unfolding collect_incoming
    incoming-Keeps [] t c w = w
    incoming-Keeps (err e ∷ rest) t c w = w
    incoming-Keeps (ok message ∷ rest) t c w =
        message-Keeps message t (collect_incoming writer thread_id turn_id connector rest)
          (λ u. incoming-Keeps rest u) (record c { incoming = rest }) w

    queued-Keeps :
        (queue : List Value) (t : Collected)
        → Keeps P (collect_queued writer thread_id turn_id connector queue t)
    unfolding collect_queued
    queued-Keeps [] t c w = incoming-Keeps c.incoming t c w
    queued-Keeps (message ∷ queue) t c w =
        message-Keeps message t (collect_queued writer thread_id turn_id connector queue)
          (λ u. queued-Keeps queue u) (record c { notifications = queue }) w

    pub collect-Keeps : Keeps P (collect_turn writer thread_id turn_id connector)
    unfolding collect_turn
    collect-Keeps c w = queued-Keeps c.notifications _ c w
