-- ===== src/Codex/Frames.antt =====
-- Reading a WebSocket: which message is read, and what is passed over before it.
use alice_llm_bridge.Base.{
  ◌≡◌, ◌↔◌, ◌≤◌, ap, subst, ℕ, Bool, true, some, List, [], ◌∷◌, length, arith, Bool-cases, inl, inr,
}
use alice_llm_bridge.Base.Text.{Text}
use alice_llm_bridge.Base.Utf8.{as_bytes}
use alice_llm_bridge.Json.{Value}
use alice_llm_bridge.Codex.{ok}
use alice_llm_bridge.Codex.Transport.{
  text, binary, frame, ping, pong, close, Received, message, fault, SerdeJson, read_text,
  read_message,
}

module _ (serde : SerdeJson) (pong_sent : List ℕ → Bool) where
  -- Behind pongs and pings that were answered comes a text of 1 MiB at most that is this JSON.
  pub data Comes (v : Value) (rest : List Received) : List Received → Type 0 where
    comes :
        (line : Text)
        → length (as_bytes line) ≤ 1048576
        → serde.from_str line ≡ some v
        → Comes v rest (message (text line) ∷ rest)
    behind_ping :
        {payload : List ℕ} {stream : List Received}
        → pong_sent payload ≡ true
        → Comes v rest stream
        → Comes v rest (message (ping payload) ∷ stream)
    behind_pong :
        {payload : List ℕ} {stream : List Received}
        → Comes v rest stream
        → Comes v rest (message (pong payload) ∷ stream)

  text-ok :
      (line : Text) (v : Value)
      → (read_text serde line ≡ ok v)
        ↔ ((length (as_bytes line) ≤ 1048576) × (serde.from_str line ≡ some v))
  unfolding read_text
  text-ok line v = ground arith

  reads-Comes :
      (stream rest : List Received) (v : Value)
      → read_message serde pong_sent stream ≡ (ok v, rest)
      → Comes v rest stream
  unfolding read_message
  reads-Comes [] rest v e = absurd (ground (arith, ap (λ x. x.0) e))
  reads-Comes (fault ∷ more) rest v e = absurd (ground (arith, ap (λ x. x.0) e))
  reads-Comes (message (text line) ∷ more) rest v e =
      let (short, parses) = (text-ok line v).0 (ap (λ x. x.0) e) in
      subst (λ r. Comes v r (message (text line) ∷ more)) (ap (λ x. x.1) e)
        (comes line short parses)
  reads-Comes (message (ping payload) ∷ more) rest v e = elim (Bool-cases (pong_sent payload)) [
    | inl sent ↦ behind_ping sent (reads-Comes more rest v (rw sent at e))
    | inr failed ↦ absurd (ground (arith, ap (λ x. x.0) (rw failed at e)))
  ]
  reads-Comes (message (pong payload) ∷ more) rest v e = behind_pong (reads-Comes more rest v e)
  reads-Comes (message close ∷ more) rest v e = absurd (ground (arith, ap (λ x. x.0) e))
  reads-Comes (message (binary b) ∷ more) rest v e = absurd (ground (arith, ap (λ x. x.0) e))
  reads-Comes (message (frame b) ∷ more) rest v e = absurd (ground (arith, ap (λ x. x.0) e))

  Comes-reads :
      (v : Value) (rest stream : List Received)
      → Comes v rest stream
      → read_message serde pong_sent stream ≡ (ok v, rest)
  unfolding read_message
  Comes-reads v rest _ (comes line short parses) =
      ap (λ r. (r, rest)) ((text-ok line v).1 (short, parses))
  Comes-reads v rest (_ ∷ more) (behind_ping sent h) = rw sent (Comes-reads v rest more h)
  Comes-reads v rest (_ ∷ more) (behind_pong h) = Comes-reads v rest more h

-- A message is read from a WebSocket exactly when, behind pongs and pings that were each answered, a
-- text of 1 MiB at most comes that serde_json reads as it; what comes behind that text is left.
pub read_message_iff :
    (serde : SerdeJson) (pong_sent : List ℕ → Bool) (stream rest : List Received) (v : Value)
    → (read_message serde pong_sent stream ≡ (ok v, rest)) ↔ Comes serde pong_sent v rest stream
read_message_iff serde pong_sent stream rest v =
    (reads-Comes serde pong_sent stream rest v, Comes-reads serde pong_sent v rest stream)
