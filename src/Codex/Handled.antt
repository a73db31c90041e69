-- ===== src/Codex/Handled.antt =====
-- A request of the server that the client handles well: what it was, and what is left as it was.
use alice_llm_bridge.Base.{◌≡◌, refl, inl, inr, true, some, arith, Bool-cases, Option-cases}
use alice_llm_bridge.Base.Text.{Text}
use alice_llm_bridge.Json.{Value, get}
use alice_llm_bridge.Codex.{CodexResult, ok, err, key_id, is_approval}
use alice_llm_bridge.Codex.Client.{
  JsonRpcClient, M, chain, ◌>>=◌, lift, Writer, handle_server_request, method_not_allowed,
  write_message,
}
use alice_llm_bridge.Codex.Passed.{method_of}
use alice_llm_bridge.Codex.Observed.{CodexResult-cases}

pub chain-ok :
    {A B : Type 0} (x : CodexResult A × JsonRpcClient) (f : A → M B) {b : B}
    → (chain x f).0 ≡ ok b
    → (a : A) × (x.0 ≡ ok a) × ((f a x.1).0 ≡ ok b)
chain-ok (ok a, c) f h = (a, refl, h)
chain-ok (err e, c) f h = cc

pub chain-eq :
    {A B : Type 0} (x : CodexResult A × JsonRpcClient) (f : A → M B) {a : A}
    → x.0 ≡ ok a
    → chain x f ≡ f a x.1
chain-eq (ok b, c) f e = ground arith
chain-eq (err e', c) f e = cc

-- What a good end of a chain says of its first step, handed to the rest of a proof.
pub after_bind :
    {A B Z : Type 0} (m : M A) (f : A → M B) (c : JsonRpcClient) {b : B}
    → ((m >>= f) c).0 ≡ ok b
    → ((a : A) → (m c).0 ≡ ok a → (f a (m c).1).0 ≡ ok b → Z)
    → Z
unfolding ◌>>=◌
after_bind m f c h k = let (a, e, r) = chain-ok (m c) f h in k a e r

pub after_lift :
    {A B Z : Type 0} (r : CodexResult A) (f : A → M B) (c : JsonRpcClient) {b : B}
    → ((lift r >>= f) c).0 ≡ ok b
    → ((a : A) → r ≡ ok a → (f a c).0 ≡ ok b → Z)
    → Z
unfolding ◌>>=◌
after_lift (ok a) f c h k = k a refl h
after_lift (err e) f c h k = cc

module _ (writer : Writer) where
  -- A request of the server that does not end the turn is one for an approval.
  pub handle-approval :
      (message : Value) (c : JsonRpcClient) {x : Unit {0}}
      → (handle_server_request writer message c).0 ≡ ok x
      → (method : Text) × (method_of message ≡ some method) × (is_approval method ≡ true)
  unfolding handle_server_request ◌>>=◌ write_message
  handle-approval message c h = elim (Option-cases (get key_id message)) [
    | inl e ↦ ground arith
    | inr (id, e) ↦ elim (Option-cases (method_of message)) [
      | inl e' ↦ ground arith
      | inr (method, e') ↦ elim (Bool-cases (is_approval method)) [
        | inl a ↦ (method, e', a)
        | inr n ↦ elim (CodexResult-cases (writer c.written (method_not_allowed id))) [
          | inl (y, w) ↦ ground arith
          | inr (y, w) ↦ ground arith
        ]
      ]
    ]
  ]

  -- Handling a request takes nothing from the stream.
  pub incoming-handle :
      (message : Value) (c : JsonRpcClient)
      → (handle_server_request writer message c).1.incoming ≡ c.incoming
  unfolding handle_server_request ◌>>=◌ write_message
  incoming-handle message c = elim (Option-cases (get key_id message)) [
    | inl e ↦ ground arith
    | inr (id, e) ↦ elim (Option-cases (method_of message)) [
      | inl e' ↦ ground arith
      | inr (method, e') ↦ elim (Bool-cases (is_approval method)) [
        | inl a ↦ ground arith
        | inr n ↦ elim (CodexResult-cases (writer c.written (method_not_allowed id))) [
          | inl (y, w) ↦ ground arith
          | inr (y, w) ↦ ground arith
        ]
      ]
    ]
  ]

  -- Handling a request leaves the queue as it is.
  pub notifications-handle :
      (message : Value) (c : JsonRpcClient)
      → (handle_server_request writer message c).1.notifications ≡ c.notifications
  unfolding handle_server_request ◌>>=◌ write_message
  notifications-handle message c = elim (Option-cases (get key_id message)) [
    | inl e ↦ ground arith
    | inr (id, e) ↦ elim (Option-cases (method_of message)) [
      | inl e' ↦ ground arith
      | inr (method, e') ↦ elim (Bool-cases (is_approval method)) [
        | inl a ↦ ground arith
        | inr n ↦ elim (CodexResult-cases (writer c.written (method_not_allowed id))) [
          | inl (y, w) ↦ ground arith
          | inr (y, w) ↦ ground arith
        ]
      ]
    ]
  ]
