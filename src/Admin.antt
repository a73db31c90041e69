-- ===== src/Admin.antt =====
-- crates/bridge-server/src/bin/bridge-admin.rs: the command line of the administration tool.
pub mod Checked
pub mod Execute
pub mod Disabled
use alice_llm_bridge.Base.{
  ℕ, zero, suc, ◌+◌, ◌*◌, ◌-◌, ◌^◌, ◌==◌, ltb, ℤ, pos, negsuc, is_positive, Bool, true, false, not,
  ◌&&◌, ◌||◌, if◌then◌else◌, Option, none, some, List, [], ◌∷◌, all, any, is_empty, length,
}
use alice_llm_bridge.Base.Text.{
  Text, codes, text_eq, is_ascii_digit, is_ascii_alphanumeric, starts_with,
}
use alice_llm_bridge.Base.Utf8.{as_bytes}
use alice_llm_bridge.Base.Dict.{get, insert, text_key}
use alice_llm_bridge.Json.{is_some}
use alice_llm_bridge.CodexRuntime.{is_connector_char}

pub data AdminCommand : Type 0 where
  create_house : (name homey_connector : Text) → AdminCommand
  add_member : (house_id : ℤ) (user_id role : Text) → AdminCommand
  approve_pairing : (house_id : ℤ) (code : Text) → AdminCommand
  disable_member : (house_id : ℤ) (user_id : Text) → AdminCommand
  disable_surface : (application_id : Text) → AdminCommand

pub data AdminError : Type 0 where
  invalid_arguments invalid_environment database pairing_not_found : AdminError

pub data AdminResult (A : Type 0) : Type 0 where
  ok : A → AdminResult A
  err : AdminError → AdminResult A

-- `?`
abbrev pub bind : {A B : Type 0} → AdminResult A → (A → AdminResult B) → AdminResult B
bind (ok a) k = k a
bind (err e) k = err e

abbrev pub Flags : Type 0
Flags = List (Text × Text)

-- the loop of `parse_flags` over the pairs
unfoldable pub parse_pairs : List Text → List Text → Flags → AdminResult Flags
parse_pairs expected [] parsed = ok parsed
parse_pairs expected (name ∷ []) parsed = ok parsed
parse_pairs expected (name ∷ value ∷ arguments) parsed =
    let rest = parse_pairs expected arguments (insert name value parsed) in
    if not (any (λ n. text_eq n name) expected) || is_empty value || is_some (get name parsed)
    then err invalid_arguments
    else rest

unfoldable pub parse_flags : List Text → List Text → AdminResult Flags
unfolding parse_pairs
parse_flags arguments expected =
    if not (length arguments == length expected * 2)
    then err invalid_arguments
    else parse_pairs expected arguments []

abbrev pub ok_or_invalid : {A : Type 0} → Option A → AdminResult A
ok_or_invalid none = err invalid_arguments
ok_or_invalid (some a) = ok a

unfoldable pub required : Flags → Text → AdminResult Text
required flags name = ok_or_invalid (get name flags)

abbrev pub digit_below : ℕ → Option ℕ → ℕ → Option ℕ
digit_below bound none d = none
digit_below bound (some n) d = if ltb (n * 10 + d) bound then some (n * 10 + d) else none

abbrev pub digits_below : ℕ → Text → Option ℕ → Option ℕ
digits_below bound [] n = n
digits_below bound (c ∷ s) n =
    if is_ascii_digit c then digits_below bound s (digit_below bound n (c - b'0')) else none

abbrev pub magnitude : ℕ → Text → Option ℕ
magnitude bound [] = none
magnitude bound (c ∷ s) = digits_below bound (c ∷ s) (some 0)

abbrev pub positive : Option ℕ → Option ℤ
positive none = none
positive (some n) = some (pos n)

abbrev pub negative : Option ℕ → Option ℤ
negative none = none
negative (some zero) = some (pos 0)
negative (some (suc n)) = some (negsuc n)

-- `parse::<i64>().ok()`
unfoldable pub parse_i64 : Text → Option ℤ
parse_i64 [] = none
parse_i64 (c ∷ s) =
    if c == b'+'
    then positive (magnitude (2 ^ 63) s)
    else if c == b'-'
    then negative (magnitude (2 ^ 63 + 1) s)
    else positive (magnitude (2 ^ 63) (c ∷ s))

abbrev pub if_positive : Option ℤ → AdminResult ℤ
if_positive none = err invalid_arguments
if_positive (some value) = if is_positive value then ok value else err invalid_arguments

unfoldable pub positive_id : Text → AdminResult ℤ
positive_id value = if_positive (parse_i64 value)

unfoldable pub valid_homey_connector : Text → Bool
valid_homey_connector connector =
    starts_with (codes "homey-") connector && all is_connector_char connector

abbrev pub house_flag : Text
house_flag = codes "--house"

abbrev pub user_id_flag : Text
user_id_flag = codes "--user-id"

abbrev pub name_flag : Text
name_flag = codes "--name"

abbrev pub homey_connector_flag : Text
homey_connector_flag = codes "--homey-connector"

abbrev pub role_flag : Text
role_flag = codes "--role"

abbrev pub code_flag : Text
code_flag = codes "--code"

abbrev pub application_id_flag : Text
application_id_flag = codes "--application-id"

abbrev pub house_id : Flags → AdminResult ℤ
house_id flags = bind (required flags house_flag) positive_id

abbrev pub parse_create : Flags → AdminResult AdminCommand
parse_create flags = bind (required flags homey_connector_flag) (λ connector.
    if not (valid_homey_connector connector)
    then err invalid_arguments
    else bind (required flags name_flag) (λ n. ok (create_house n connector)))

abbrev pub is_role : Text → Bool
is_role r = text_eq r (codes "owner") || text_eq r (codes "member")

abbrev pub parse_add : Flags → AdminResult AdminCommand
parse_add flags = bind (required flags role_flag) (λ r.
    if not (is_role r)
    then err invalid_arguments
    else bind (house_id flags)
        (λ id. bind (required flags user_id_flag) (λ user. ok (add_member id user r))))

abbrev pub parse_approve : Flags → AdminResult AdminCommand
parse_approve flags = bind (required flags code_flag) (λ c.
    if not (length (as_bytes c) == 6) || not (all is_ascii_digit c)
    then err invalid_arguments
    else bind (house_id flags) (λ id. ok (approve_pairing id c)))

abbrev pub parse_disable_member : Flags → AdminResult AdminCommand
parse_disable_member flags =
    bind (house_id flags)
      (λ id. bind (required flags user_id_flag) (λ user. ok (disable_member id user)))

abbrev pub parse_disable_surface : Flags → AdminResult AdminCommand
parse_disable_surface flags =
    bind (required flags application_id_flag) (λ id. ok (disable_surface id))

-- a pattern `(namespace, action)`
abbrev pub is_action : (namespace action name verb : Text) → Bool
is_action namespace action name verb = text_eq namespace name && text_eq action verb

-- the match on the namespace and the action
unfoldable pub parse_action : Text → Text → List Text → AdminResult AdminCommand
unfolding parse_flags required positive_id valid_homey_connector
parse_action namespace action flags =
    if is_action namespace action (codes "house") (codes "create")
    then bind (parse_flags flags (name_flag ∷ homey_connector_flag ∷ [])) parse_create
    else if is_action namespace action (codes "member") (codes "add")
    then bind (parse_flags flags (house_flag ∷ user_id_flag ∷ role_flag ∷ [])) parse_add
    else if is_action namespace action (codes "pairing") (codes "approve")
    then bind (parse_flags flags (house_flag ∷ code_flag ∷ [])) parse_approve
    else if is_action namespace action (codes "member") (codes "disable")
    then bind (parse_flags flags (house_flag ∷ user_id_flag ∷ [])) parse_disable_member
    else if is_action namespace action (codes "surface") (codes "disable")
    then bind (parse_flags flags (application_id_flag ∷ [])) parse_disable_surface
    else err invalid_arguments

unfoldable pub parse_command : List Text → AdminResult AdminCommand
unfolding parse_action
parse_command [] = err invalid_arguments
parse_command (namespace ∷ []) = err invalid_arguments
parse_command (namespace ∷ action ∷ flags) = parse_action namespace action flags
