-- ===== src/Command/Known.antt =====
-- A command names only members of the family and modes that there are.
use alice_llm_bridge.Base.{
  ◌≡◌, refl, Bool, true, false, if◌then◌else◌, Option, none, some, List, [], ◌∷◌, find, any, All,
  is_empty, subst, Bool-cases, Option-cases, inl, inr, arith,
}
use alice_llm_bridge.Base.Text.{Text, text_eq, text_eq_refl, strip_prefix, trim}
use alice_llm_bridge.Profile.{Profile, FamilyRoster, Mode, get_profile, find_by_alias}
use alice_llm_bridge.Command.{
  Unicode, introduce, forget, set_window, use_smart_model, use_fast_model, usage_stats, who_am_i,
  enter_mode, exit_mode, help, Parsed, command, ask, find_map, introductions, thinking_phrases,
  introduced_by, introduced, phrase, window, model, triggers, entered, thought, think, answers,
  first_or, parse, normalize,
}

abbrev pub IsMode : List Mode → Text → Type 0
IsMode modes name = (m : Mode) × (find (λ k. text_eq k.name name) modes ≡ some m)

abbrev pub IsMember : FamilyRoster → Text → Type 0
IsMember roster name = (p : Profile) × (get_profile roster name ≡ some p)

module _ (roster : FamilyRoster) (modes : List Mode) where
  abbrev pub IsKnown : Parsed → Type 0
  IsKnown (command (introduce name)) = IsMember roster name
  IsKnown (command (enter_mode name)) = IsMode modes name
  IsKnown (command forget) = Unit {0}
  IsKnown (command (set_window _)) = Unit {0}
  IsKnown (command use_smart_model) = Unit {0}
  IsKnown (command use_fast_model) = Unit {0}
  IsKnown (command usage_stats) = Unit {0}
  IsKnown (command who_am_i) = Unit {0}
  IsKnown (command exit_mode) = Unit {0}
  IsKnown (command help) = Unit {0}
  IsKnown (ask _ _) = Unit {0}

  abbrev pub IsKnownIfAny : Option Parsed → Type 0
  IsKnownIfAny none = Unit {0}
  IsKnownIfAny (some p) = IsKnown p

  if-IsKnownIfAny :
      (b : Bool) (x y : Option Parsed)
      → IsKnownIfAny x
      → IsKnownIfAny y
      → IsKnownIfAny (if b then x else y)
  if-IsKnownIfAny true x y h k = h
  if-IsKnownIfAny false x y h k = k

  first_or-IsKnown :
      (u : Unicode) (default : Parsed) (found : List (Option Parsed))
      → IsKnown default
      → All IsKnownIfAny found
      → IsKnown (first_or u default found)
  first_or-IsKnown u default [] d h = d
  first_or-IsKnown u default (none ∷ rest) d h = first_or-IsKnown u default rest d h.1
  first_or-IsKnown u default (some p ∷ rest) d h = h.0

  find_map-IsKnownIfAny :
      {A : Type 0} (f : A → Option Parsed) (xs : List A)
      → All (λ x. IsKnownIfAny (f x)) xs
      → IsKnownIfAny (find_map f xs)
  find_map-IsKnownIfAny f [] h = tt
  find_map-IsKnownIfAny f (x ∷ xs) h = elim (Option-cases (f x)) [
    | inl e ↦ rw (e, find_map) (find_map-IsKnownIfAny f xs h.1)
    | inr (p, e) ↦ rw (e, find_map) (subst IsKnownIfAny e h.0)
  ]

-- A result that names neither a member nor a mode.
is_plain : Option Parsed → Bool
is_plain (some (command (introduce _))) = false
is_plain (some (command (enter_mode _))) = false
is_plain _ = true

plain-IsKnownIfAny :
    (roster : FamilyRoster) (modes : List Mode) (o : Option Parsed)
    → is_plain o ≡ true
    → IsKnownIfAny roster modes o
unfolding is_plain
plain-IsKnownIfAny roster modes none h = tt
plain-IsKnownIfAny roster modes (some (ask _ _)) h = tt
plain-IsKnownIfAny roster modes (some (command forget)) h = tt
plain-IsKnownIfAny roster modes (some (command (set_window _))) h = tt
plain-IsKnownIfAny roster modes (some (command use_smart_model)) h = tt
plain-IsKnownIfAny roster modes (some (command use_fast_model)) h = tt
plain-IsKnownIfAny roster modes (some (command usage_stats)) h = tt
plain-IsKnownIfAny roster modes (some (command who_am_i)) h = tt
plain-IsKnownIfAny roster modes (some (command exit_mode)) h = tt
plain-IsKnownIfAny roster modes (some (command help)) h = tt
plain-IsKnownIfAny roster modes (some (command (introduce _))) h = absurd (cc)
plain-IsKnownIfAny roster modes (some (command (enter_mode _))) h = absurd (cc)

All-of : {A : Type 0} (P : A → Type 0) (xs : List A) → ((x : A) → P x) → All P xs
All-of P [] h = tt
All-of P (x ∷ xs) h = (h x, All-of P xs h)

All-mono :
    {A : Type 0} (P Q : A → Type 0) (xs : List A) → ((x : A) → P x → Q x) → All P xs → All Q xs
All-mono P Q [] h a = tt
All-mono P Q (x ∷ xs) h a = (h x a.0, All-mono P Q xs h a.1)

-- What a search finds, another search whose test it passes finds or something before it.
find-find :
    {A : Type 0} (p q : A → Bool) (xs : List A) (x : A)
    → find p xs ≡ some x
    → q x ≡ true
    → (y : A) × (find q xs ≡ some y)
find-find p q [] x e t = absurd (cc)
find-find p q (z ∷ xs) x e t = elim (Bool-cases (q z)) [
  | inl h ↦ (z, rw h refl)
  | inr n ↦ elim (Bool-cases (p z)) [
    | inl h ↦ absurd (ground arith)
    | inr m ↦ let (y, f) = find-find p q xs x (rw m at e) t in (y, rw n f)
  ]
]

modes-IsMode : (modes : List Mode) → All (λ m. IsMode modes m.name) modes
modes-IsMode [] = tt
modes-IsMode (mode ∷ modes) = (
  (mode, rw (text_eq_refl mode.name) refl),
  All-mono (λ m. IsMode modes m.name) (λ m. IsMode (mode ∷ modes) m.name) modes
      (λ m found. elim (Bool-cases (text_eq mode.name m.name)) [
        | inl h ↦ (mode, rw h refl)
        | inr n ↦ (found.0, rw n found.1)
      ])
      (modes-IsMode modes),
)

module _ (u : Unicode) (roster : FamilyRoster) (modes : List Mode) where
  introduced_by-IsKnownIfAny :
      (rest : Option Text) → IsKnownIfAny roster modes (introduced_by u roster rest)
  introduced_by-IsKnownIfAny none = tt
  introduced_by-IsKnownIfAny (some rest) =
      elim (Option-cases (find_by_alias u.to_lowercase roster rest)) [
        | inl e ↦
            plain-IsKnownIfAny roster modes (introduced_by u roster (some rest))
              (unfold is_plain in ground arith)
        | inr (p, e) ↦
            let made : some (command (introduce p.name)) ≡ introduced_by u roster (some rest) =
              ground arith in
            subst (IsKnownIfAny roster modes) made (
              unfold find_by_alias get_profile in
              find-find _ (λ q. text_eq q.name p.name) roster.profiles p e (text_eq_refl p.name))
      ]

  thought-IsKnownIfAny :
      (utterance : Text) (rest : Option Text) → IsKnownIfAny roster modes (thought u utterance rest)
  thought-IsKnownIfAny utterance none = tt
  thought-IsKnownIfAny utterance (some rest) = tt

  phrase-IsKnownIfAny : (norm : Text) → IsKnownIfAny roster modes (phrase u norm)
  unfolding phrase is_plain
  phrase-IsKnownIfAny norm = plain-IsKnownIfAny roster modes (phrase u norm) (ground arith)

  model-IsKnownIfAny : (norm : Text) → IsKnownIfAny roster modes (model u norm)
  unfolding model is_plain
  model-IsKnownIfAny norm = plain-IsKnownIfAny roster modes (model u norm) (ground arith)

  window-IsKnownIfAny : (norm : Text) → IsKnownIfAny roster modes (window u norm)
  unfolding window is_plain
  window-IsKnownIfAny norm = plain-IsKnownIfAny roster modes (window u norm) (ground arith)

  answers-IsKnownIfAny :
      (utterance norm : Text)
      → All (IsKnownIfAny roster modes) (answers u utterance roster modes norm)
  unfolding introduced entered think
  answers-IsKnownIfAny utterance norm =
      let by_name =
        find_map-IsKnownIfAny roster modes
          (λ prefix. introduced_by u roster (strip_prefix prefix norm)) introductions
          (All-of _ introductions
            (λ prefix. introduced_by-IsKnownIfAny (strip_prefix prefix norm))) in
      let by_mode =
        find_map-IsKnownIfAny roster modes
          (λ m.
            if any (triggers u norm) m.triggers then some (command (enter_mode m.name)) else none)
          modes
          (All-mono (λ m. IsMode modes m.name) _ modes
            (λ m found.
              if-IsKnownIfAny roster modes (any (triggers u norm) m.triggers)
                (some (command (enter_mode m.name))) none found tt)
            (modes-IsMode modes)) in
      let by_thought =
        find_map-IsKnownIfAny roster modes
          (λ prefix. thought u utterance (strip_prefix prefix norm)) thinking_phrases
          (All-of _ thinking_phrases
            (λ prefix. thought-IsKnownIfAny utterance (strip_prefix prefix norm))) in
      (
        by_name,
        (
          phrase-IsKnownIfAny norm,
          (window-IsKnownIfAny norm, (model-IsKnownIfAny norm, (by_mode, (by_thought, tt)))),
        ),
      )

  pub parse-IsKnown : (utterance : Text) → IsKnown roster modes (parse u utterance roster modes)
  unfolding parse
  parse-IsKnown utterance = elim (Bool-cases (is_empty (normalize u utterance))) [
    | inl e ↦ rw e tt
    | inr n ↦ rw n (
        first_or-IsKnown roster modes u (ask (trim utterance) false)
          (answers u utterance roster modes (normalize u utterance)) tt
          (answers-IsKnownIfAny utterance (normalize u utterance)))
  ]
