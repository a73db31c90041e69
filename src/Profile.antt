-- ===== src/Profile.antt =====
-- crates/bridge-core/src/profile.rs and mode.rs: the members of a family and the modes of a dialogue.
pub mod Roster
use alice_llm_bridge.Base.{
  ℕ, zero, suc, Bool, true, false, ◌||◌, if◌then◌else◌, Option, none, some, List, [], ◌∷◌, any,
  find,
}
use alice_llm_bridge.Base.Text.{Text, text_eq, trim}

pub data ProfileRole : Type 0 where
  adult child : ProfileRole

-- year, month and day
pub record NaiveDate : Type 0 where
  pub year : ℕ
  pub month : ℕ
  pub day : ℕ

pub record Profile : Type 0 where
  pub name : Text
  pub aliases : List Text
  pub birthday : Option NaiveDate
  pub role : ProfileRole
  pub persona : Text

-- `Profile::age_on`; `today.years_since(birthday)` is the calendar's
abbrev pub age_on : (NaiveDate → NaiveDate → Option ℕ) → Profile → NaiveDate → Option ℕ
age_on years_since p today = elim p.birthday [
  | none ↦ none
  | some birthday ↦ years_since today birthday
]

pub record FamilyRoster : Type 0 where
  pub profiles : List Profile
  pub default_index : ℕ

pub record Mode : Type 0 where
  pub name : Text
  pub triggers : List Text
  pub prompt : Text

pub data CoreError : Type 0 where
  unknown_profile : Text → CoreError

pub data CoreResult (A : Type 0) : Type 0 where
  ok : A → CoreResult A
  err : CoreError → CoreResult A

-- `iter().position(p)`
abbrev pub position {ℓ} : {A : Type ℓ} → (A → Bool) → List A → Option ℕ
position p [] = none
position p (x ∷ xs) =
    if p x then some 0 else elim (position p xs) [ none ↦ none | some n ↦ some (suc n) ]

abbrev pub with_default : List Profile → Text → Option ℕ → CoreResult FamilyRoster
with_default profiles default_profile none = err (unknown_profile default_profile)
with_default profiles default_profile (some index) =
    ok (record { profiles = profiles; default_index = index })

-- `FamilyRoster::new`
unfoldable pub roster_new : List Profile → Text → CoreResult FamilyRoster
roster_new profiles default_profile =
    with_default profiles default_profile (position (λ p. text_eq p.name default_profile) profiles)

-- `FamilyRoster::get`
unfoldable pub get_profile : FamilyRoster → Text → Option Profile
get_profile roster name = find (λ p. text_eq p.name name) roster.profiles

-- `FamilyRoster::find_by_alias`; lower case is Unicode's
unfoldable pub find_by_alias : (Text → Text) → FamilyRoster → Text → Option Profile
find_by_alias to_lowercase roster spoken =
    find
      (λ p.
        text_eq (to_lowercase p.name) (trim spoken) || any (λ a. text_eq a (trim spoken)) p.aliases)
      roster.profiles

-- an item of a list by its index; `none` is the panic of an index out of range
abbrev pub nth {ℓ} : {A : Type ℓ} → List A → ℕ → Option A
nth [] n = none
nth (x ∷ xs) zero = some x
nth (x ∷ xs) (suc n) = nth xs n

-- `FamilyRoster::default_profile`
unfoldable pub default_profile : FamilyRoster → Option Profile
default_profile roster = nth roster.profiles roster.default_index
