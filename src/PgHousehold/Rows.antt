-- ===== src/PgHousehold/Rows.antt =====
-- Rows of tables, and the form of a code that is spoken.
use alice_llm_bridge.Base.{
  ℕ, ℤ, int_eq_iff, ◌+◌, ◌%◌, Bool, true, ◌≡◌, ◌≢◌, refl, ap, subst, some, List, [], ◌∷◌, find,
  arith, Bool-cases, inl, inr,
}
use mathlib.Core.List.{Memᴰ}
use mathlib.Core.List.Memᴰ
use alice_llm_bridge.Base.Text.{Text, text_eq, text_eq_iff, is_ascii_digit}
use alice_llm_bridge.Base.Utf8.{as_bytes, encode_char}
use alice_llm_bridge.Base.Dict.{Slot, get, insert, remove, slot_eq, slot_key, int_key, text_key}
use alice_llm_bridge.PgHousehold.{six_digits}
use alice_llm_bridge.PgHousehold.Tables.{
  MemberRow, Database, member_key, memberships_in, member_enabled, house_enabled,
}
use alice_llm_bridge.PgHousehold.Approve.{is_code}

digit_bytes : (x : ℕ) → encode_char (b'0' + x % 10) ≡ (b'0' + x % 10) ∷ []
unfolding encode_char
digit_bytes x = ground arith

digit_is_digit : (x : ℕ) → is_ascii_digit (b'0' + x % 10) ≡ true
unfolding is_ascii_digit
digit_is_digit x = ground arith

-- a spoken code has the form that the owner's command asks for
pub six_digits-is_code : (n : ℕ) → is_code (six_digits n) ≡ true
unfolding is_code as_bytes
six_digits-is_code n = simp (digit_bytes, digit_is_digit)

pub Memᴰ-find :
    {A : Type 0} (p : A → Bool) (xs : List A) (x : A)
    → Memᴰ x xs
    → p x ≡ true
    → (y : A) × (find p xs ≡ some y)
Memᴰ-find p [] x m h = elim m [ ]
Memᴰ-find p (z ∷ zs) x (Memᴰ.head e) h = (z, rw (subst (λ t. p t ≡ true) e h) refl)
Memᴰ-find p (z ∷ zs) x (Memᴰ.tail m) h = elim (Bool-cases (p z)) [
  | inl first ↦ (z, rw first refl)
  | inr later ↦ let (y, e) = Memᴰ-find p zs x m h in (y, rw later e)
]

-- a row with the key of a removed one is gone
not-Memᴰ-remove :
    {V : Type 0} (k : Text) (m : List (Text × V)) (row : Text × V)
    → row.0 ≡ k
    → Memᴰ row (remove k m)
    → ⊥
unfolding remove
not-Memᴰ-remove k [] row e h = elim h [ ]
not-Memᴰ-remove k ((j, v) ∷ m) row e h = elim (Bool-cases (text_eq j k)) [
  | inl same ↦ not-Memᴰ-remove k m row e (rw same at h)
  | inr other ↦
      let stays : Memᴰ row ((j, v) ∷ remove k m) = rw other at h in
      elim (Memᴰ.cases_cons stays) [
        | inl q ↦ absurd (ground (arith, ap (λ t. t.0) q, text_eq_iff j k))
        | inr later ↦ not-Memᴰ-remove k m row e later
      ]
]

pub Memᴰ-insert :
    {V : Type 0} (k : Text) (v : V) (m : List (Text × V)) (row : Text × V)
    → row.0 ≡ k
    → Memᴰ row (insert k v m)
    → row ≡ (k, v)
unfolding insert
Memᴰ-insert k v m row e (Memᴰ.head q) = q
Memᴰ-insert k v m row e (Memᴰ.tail h) = absurd (not-Memᴰ-remove k m row e h)

-- The one house of an account is the house of each of its enabled memberships.
pub only_house-member :
    (db : Database) (user : Text) (house_id : ℤ) (rows : List (Slot × MemberRow))
    → member_enabled (get (member_key house_id user) rows) ≡ true
    → house_enabled (get house_id db.houses) ≡ true
    → (memberships_in db user rows ≢ [])
      × ((h : ℤ) → memberships_in db user rows ≡ h ∷ [] → h ≡ house_id)
unfolding memberships_in get
only_house-member db user house_id [] m h = absurd (ground arith)
only_house-member db user house_id ((key, row) ∷ rows) m h =
    elim (Bool-cases (slot_eq key (member_key house_id user))) [
      | inl same ↦
          ground (arith, int_eq_iff key.house_id house_id, text_eq_iff key.application_id user)
      | inr other ↦
          let ih = only_house-member db user house_id rows (rw other at m) h in
          ground (arith, ih.0, ih.1)
    ]
