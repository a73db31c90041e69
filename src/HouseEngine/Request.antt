-- ===== src/HouseEngine/Request.antt =====
-- Actions of a request that may answer it early: `return` in the source of `respond`.
use alice_llm_bridge.Base.Text.{Text}

pub data HouseholdReply : Type 0 where
  say : Text → HouseholdReply
  refuse : HouseholdReply
  pairing : Text → HouseholdReply
  busy : HouseholdReply
  internal_error : HouseholdReply

-- an early answer, or a value to go on with
pub data Flow {ℓ} (A : Type ℓ) : Type ℓ where
  reply : HouseholdReply → Flow A
  next : A → Flow A

abbrev pub M {ℓ} : Type 0 → Type ℓ → Type ℓ
M W A = W → Flow A × W

module _ {W : Type 0} where
  abbrev pub pure {ℓ} : {A : Type ℓ} → A → M W A
  pure a w = (next a, w)

  abbrev pub answer {ℓ} : {A : Type ℓ} → HouseholdReply → M W A
  answer r w = (reply r, w)

  abbrev pub chain {ℓ κ} : {A : Type ℓ} {B : Type κ} → Flow A × W → (A → M W B) → Flow B × W
  chain (reply r, w) f = (reply r, w)
  chain (next a, w) f = f a w

  infixl 5 ◌>>=◌ ◌>>◌
  abbrev pub ◌>>=◌ {ℓ κ} : {A : Type ℓ} {B : Type κ} → M W A → (A → M W B) → M W B
  ◌>>=◌ m f w = chain (m w) f

  abbrev pub ◌>>◌ {ℓ} : {B : Type ℓ} → M W (Unit {0}) → M W B → M W B
  m >> k = m >>= λ _. k

  -- `return e.await`
  abbrev pub return_ {ℓ} : {B : Type ℓ} → M W HouseholdReply → M W B
  return_ m = m >>= answer
