-- ===== src/Profile/Roster.antt =====
-- The default member of a roster.
use alice_llm_bridge.Base.{
  ℕ, suc, Bool, true, ◌≡◌, refl, some, List, [], ◌∷◌, find, arith, Bool-cases, Option-cases, inl,
  inr,
}
use alice_llm_bridge.Base.Text.{Text, text_eq, text_eq_iff}
use alice_llm_bridge.Profile.{
  Profile, FamilyRoster, ok, position, nth, roster_new, get_profile, default_profile,
}

position-find {ℓ} :
    {A : Type ℓ} (p : A → Bool) (xs : List A) (n : ℕ)
    → position p xs ≡ some n
    → (x : A) × (nth xs n ≡ some x) × (find p xs ≡ some x) × (p x ≡ true)
position-find p [] n e = absurd (cc)
position-find p (x ∷ xs) n e = elim (Bool-cases (p x)) [
  | inl first ↦ let zeroth : 0 ≡ n = ground arith in (x, rw (← zeroth) refl, rw first refl, first)
  | inr later ↦ elim (Option-cases (position p xs)) [
    | inl q ↦ absurd (ground arith)
    | inr (m, q) ↦
        let next : suc m ≡ n = ground arith in
        let (y, at, found, passes) = position-find p xs m q in
        (y, rw (← next) at, rw later found, passes)
  ]
]

-- A roster that was made has a default member: `default_profile` never goes out of range, the
-- member has the configured name, and looking that name up gives the same member.
pub roster_new-default_profile :
    (profiles : List Profile) (name : Text) (roster : FamilyRoster)
    → roster_new profiles name ≡ ok roster
    → (p : Profile) × (default_profile roster ≡ some p)
      × (get_profile roster name ≡ some p)
      × (p.name ≡ name)
unfolding roster_new default_profile get_profile
roster_new-default_profile profiles name roster e =
    elim (Option-cases (position (λ p. text_eq p.name name) profiles)) [
      | inl q ↦ absurd (ground arith)
      | inr (n, q) ↦
          let made : record { profiles = profiles; default_index = n } ≡ roster = ground arith in
          let (p, at, found, named) = position-find _ profiles n q in
          rw (← made) (p, at, found, (text_eq_iff p.name name).0 named)
    ]
