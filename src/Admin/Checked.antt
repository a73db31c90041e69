-- ===== src/Admin/Checked.antt =====
-- What the administration tool has checked before it touches the database.
use alice_llm_bridge.Base.{
  ℤ, is_positive, Bool, true, false, not, ◌||◌, ◌*◌, ◌==◌, ◌≡◌, ◌≢◌, ◌⊎◌, Option, none, some, List,
  [], ◌∷◌, all, any, is_empty, length, arith, Bool-cases, Option-cases, inl, inr, subst,
  if◌then◌else◌,
}
use alice_llm_bridge.Base.Text.{Text, codes, text_eq, text_eq_iff, is_ascii_digit}
use alice_llm_bridge.Base.Utf8.{as_bytes}
use alice_llm_bridge.Base.Dict.{get, insert, get-insert, text_key}
use alice_llm_bridge.Json.{is_some}
use alice_llm_bridge.Codex
use alice_llm_bridge.CodexRuntime.{validate_homey_connector}
use alice_llm_bridge.Admin.{
  AdminCommand, create_house, add_member, approve_pairing, disable_member, disable_surface,
  AdminResult, ok, err, bind, Flags, parse_pairs, parse_flags, required, parse_i64, if_positive,
  positive_id, valid_homey_connector, house_id, parse_create, parse_add, parse_approve,
  parse_disable_member, parse_disable_surface, parse_action, parse_command, is_role, is_action,
  name_flag, homey_connector_flag, role_flag, user_id_flag, code_flag, application_id_flag,
  house_flag,
}

-- The arguments of a command: none is empty, the id of a house is positive, and a connector is one
-- that the runtime of a house accepts.
abbrev pub IsAdmissible : AdminCommand → Type 0
IsAdmissible (create_house name connector) =
    (name ≢ []) × (validate_homey_connector connector ≡ Codex.ok tt)
IsAdmissible (add_member id user role) =
    (is_positive id ≡ true) × (user ≢ []) × ((role ≡ codes "owner") ⊎ (role ≡ codes "member"))
IsAdmissible (approve_pairing id code) =
    (is_positive id ≡ true) × (length (as_bytes code) ≡ 6) × (all is_ascii_digit code ≡ true)
IsAdmissible (disable_member id user) = (is_positive id ≡ true) × (user ≢ [])
IsAdmissible (disable_surface application_id) = application_id ≢ []

-- A result that is good if there is one.
abbrev Good : {A : Type 0} → (A → Type 0) → AdminResult A → Type 0
Good P (ok a) = P a
Good P (err e) = Unit

Good-bind :
    {A B : Type 0} (P : A → Type 0) (Q : B → Type 0) (r : AdminResult A) (k : A → AdminResult B)
    → Good P r
    → ((a : A) → P a → Good Q (k a))
    → Good Q (bind r k)
Good-bind P Q (ok a) k p good = good a p
Good-bind P Q (err e) k p good = tt

-- No flag has an empty value.
record Filled (flags : Flags) : Type 0 where
  at : (k v : Text) → get k flags ≡ some v → v ≢ []

Filled-insert :
    (n v : Text) (flags : Flags) → is_empty v ≡ false → Filled flags → Filled (insert n v flags)
Filled-insert n v flags full filled = record {
  at = λ k u e. elim (Bool-cases (text_eq n k)) [
    | inl same ↦
        let here : v ≡ u = ground (arith, get-insert n k v flags) in
        rw (← here) (λ empty. ground (arith, empty))
    | inr other ↦ filled.at k u (ground (arith, get-insert n k v flags))
  ];
}

parse_pairs-Filled :
    (expected arguments : List Text) (parsed : Flags)
    → Filled parsed
    → Good Filled (parse_pairs expected arguments parsed)
unfolding parse_pairs
parse_pairs-Filled expected [] parsed filled = filled
parse_pairs-Filled expected (name ∷ []) parsed filled = filled
parse_pairs-Filled expected (name ∷ value ∷ arguments) parsed filled =
    elim (Bool-cases
      (not (any (λ n. text_eq n name) expected) || is_empty value || is_some (get name parsed))) [
        | inl bad ↦ rw bad tt
        | inr fine ↦ rw fine (
            parse_pairs-Filled expected arguments (insert name value parsed)
              (Filled-insert name value parsed (ground arith) filled))
      ]

parse_flags-Filled : (arguments expected : List Text) → Good Filled (parse_flags arguments expected)
unfolding parse_flags get
parse_flags-Filled arguments expected =
    elim (Bool-cases (not (length arguments == length expected * 2))) [
      | inl bad ↦ rw bad tt
      | inr fine ↦
          rw fine (parse_pairs-Filled expected arguments [] (record { at = λ k v e. absurd (cc) }))
    ]

Good-required : (flags : Flags) (n : Text) → Filled flags → Good (λ v. v ≢ []) (required flags n)
unfolding required
Good-required flags n filled = elim (Option-cases (get n flags)) [
  | inl missing ↦ rw missing tt
  | inr (v, found) ↦ rw found (filled.at n v found)
]

Good-if_positive : (id : Option ℤ) → Good (λ n. is_positive n ≡ true) (if_positive id)
Good-if_positive none = tt
Good-if_positive (some n) = elim (Bool-cases (is_positive n)) [
  | inl above ↦ rw above above
  | inr below ↦ rw below tt
]

module _ (flags : Flags) (filled : Filled flags) where
  Good-house_id : Good (λ n. is_positive n ≡ true) (house_id flags)
  unfolding positive_id
  Good-house_id =
      Good-bind (λ v. v ≢ []) (λ n. is_positive n ≡ true) (required flags house_flag) positive_id
        (Good-required flags house_flag filled) (λ v _. Good-if_positive (parse_i64 v))

  connector-accepted :
      (connector : Text)
      → valid_homey_connector connector ≡ true
      → validate_homey_connector connector ≡ Codex.ok tt
  unfolding valid_homey_connector validate_homey_connector
  connector-accepted connector e = ground arith

  Good-parse_create : Good IsAdmissible (parse_create flags)
  Good-parse_create =
      Good-bind (λ v. v ≢ []) IsAdmissible (required flags homey_connector_flag) _
        (Good-required flags homey_connector_flag filled)
        (λ connector _. elim (Bool-cases (valid_homey_connector connector)) [
          | inr bad ↦ rw bad tt
          | inl fine ↦ rw fine (
              Good-bind (λ v. v ≢ []) IsAdmissible (required flags name_flag) _
                (Good-required flags name_flag filled)
                (λ n named. (named, connector-accepted connector fine)))
        ])

  role-of : (r : Text) → is_role r ≡ true → (r ≡ codes "owner") ⊎ (r ≡ codes "member")
  role-of r e = ground (arith, text_eq_iff r (codes "owner"), text_eq_iff r (codes "member"))

  Good-parse_add : Good IsAdmissible (parse_add flags)
  Good-parse_add =
      Good-bind (λ v. v ≢ []) IsAdmissible (required flags role_flag) _
        (Good-required flags role_flag filled)
        (λ r _. elim (Bool-cases (is_role r)) [
          | inr bad ↦ rw bad tt
          | inl fine ↦ rw fine (
              Good-bind (λ n. is_positive n ≡ true) IsAdmissible (house_id flags) _ Good-house_id
                (λ id known.
                  Good-bind (λ v. v ≢ []) IsAdmissible (required flags user_id_flag) _
                    (Good-required flags user_id_flag filled)
                    (λ user named. (known, named, role-of r fine))))
        ])

  Good-parse_approve : Good IsAdmissible (parse_approve flags)
  Good-parse_approve =
      Good-bind (λ v. v ≢ []) IsAdmissible (required flags code_flag) _
        (Good-required flags code_flag filled)
        (λ c _. elim (Bool-cases (not (length (as_bytes c) == 6) || not (all is_ascii_digit c))) [
          | inl bad ↦ rw bad tt
          | inr fine ↦ rw fine (
              Good-bind (λ n. is_positive n ≡ true) IsAdmissible (house_id flags) _ Good-house_id
                (λ id known. (known, ground arith, ground arith)))
        ])

  Good-parse_disable_member : Good IsAdmissible (parse_disable_member flags)
  Good-parse_disable_member =
      Good-bind (λ n. is_positive n ≡ true) IsAdmissible (house_id flags) _ Good-house_id
        (λ id known.
          Good-bind (λ v. v ≢ []) IsAdmissible (required flags user_id_flag) _
            (Good-required flags user_id_flag filled) (λ user named. (known, named)))

  Good-parse_disable_surface : Good IsAdmissible (parse_disable_surface flags)
  Good-parse_disable_surface =
      Good-bind (λ v. v ≢ []) IsAdmissible (required flags application_id_flag) _
        (Good-required flags application_id_flag filled) (λ id named. named)

-- A result that is admissible, if there is one.
record Accepted (r : AdminResult AdminCommand) : Type 0 where
  good : Good IsAdmissible r

after-flags :
    (arguments expected : List Text) (k : Flags → AdminResult AdminCommand)
    → ((flags : Flags) → Filled flags → Good IsAdmissible (k flags))
    → Accepted (bind (parse_flags arguments expected) k)
after-flags arguments expected k good = record {
  good =
      Good-bind Filled IsAdmissible (parse_flags arguments expected) k
        (parse_flags-Filled arguments expected) good;
}

if-Accepted :
    (b : Bool) (x y : AdminResult AdminCommand)
    → Accepted x
    → Accepted y
    → Accepted (if b then x else y)
if-Accepted true x y p q = p
if-Accepted false x y p q = q

parse_action-Accepted :
    (namespace action : Text) (arguments : List Text)
    → Accepted (parse_action namespace action arguments)
unfolding parse_action
parse_action-Accepted namespace action arguments =
    if-Accepted (is_action namespace action (codes "house") (codes "create")) _ _
      (after-flags arguments (name_flag ∷ homey_connector_flag ∷ []) parse_create Good-parse_create)
      (if-Accepted (is_action namespace action (codes "member") (codes "add")) _ _
        (after-flags arguments (house_flag ∷ user_id_flag ∷ role_flag ∷ []) parse_add
          Good-parse_add)
        (if-Accepted (is_action namespace action (codes "pairing") (codes "approve")) _ _
          (after-flags arguments (house_flag ∷ code_flag ∷ []) parse_approve Good-parse_approve)
          (if-Accepted (is_action namespace action (codes "member") (codes "disable")) _ _
            (after-flags arguments (house_flag ∷ user_id_flag ∷ []) parse_disable_member
              Good-parse_disable_member)
            (if-Accepted (is_action namespace action (codes "surface") (codes "disable")) _ _
              (after-flags arguments (application_id_flag ∷ []) parse_disable_surface
                Good-parse_disable_surface)
              (record { good = tt })))))

parse_command-Accepted : (arguments : List Text) → Accepted (parse_command arguments)
unfolding parse_command
parse_command-Accepted [] = record { good = tt }
parse_command-Accepted (namespace ∷ []) = record { good = tt }
parse_command-Accepted (namespace ∷ action ∷ flags) = parse_action-Accepted namespace action flags

Good-ok :
    (r : AdminResult AdminCommand) (c : AdminCommand)
    → Good IsAdmissible r
    → r ≡ ok c
    → IsAdmissible c
Good-ok (ok b) c p e = let same : b ≡ c = ground arith in subst IsAdmissible same p
Good-ok (err why) c p e = absurd (ground arith)

-- A command that the arguments name is admissible: the id of its house is positive, a code has six
-- digits, a role is one of the two, no other argument is empty, and the runtime of a house accepts
-- its connector.
pub parse_command-IsAdmissible :
    (arguments : List Text) (command : AdminCommand)
    → parse_command arguments ≡ ok command
    → IsAdmissible command
parse_command-IsAdmissible arguments command =
    Good-ok (parse_command arguments) command (parse_command-Accepted arguments).good
