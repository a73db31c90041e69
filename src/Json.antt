-- ===== src/Json.antt =====
-- JSON values, as `serde_json::Value` documents them, and the calls that crates/codex-runtime makes.
use alice_llm_bridge.Base.{
  ℕ, ◌^◌, ltb, ℤ, pos, negsuc, Bool, true, false, if◌then◌else◌, Option, none, some, List, [], ◌∷◌,
}
use alice_llm_bridge.Base.Text.{Text, text_eq}

mutual
  -- A number that is no integer keeps its digits: nothing computes with it.
  pub data Value : Type 0 where
    null : Value
    bool : Bool → Value
    integer : ℤ → Value
    decimal : Text → Value
    string : Text → Value
    array : Items → Value
    object : Fields → Value

  pub data Items : Type 0 where
    nil : Items
    item : Value → Items → Items

  pub data Fields : Type 0 where
    end : Fields
    field : Text → Value → Fields → Fields

abbrev pub get_field : Text → Fields → Option Value
get_field key end = none
get_field key (field k v fields) = if text_eq k key then some v else get_field key fields

-- `value.get(key)`
abbrev pub get : Text → Value → Option Value
get key (object fields) = get_field key fields
get key _ = none

abbrev pub and_then {ℓ κ} : {A : Type ℓ} {B : Type κ} → (A → Option B) → Option A → Option B
and_then f none = none
and_then f (some a) = f a

-- `value.pointer("/a/b/c")`, by its keys, none of which is an index of an array
unfoldable pub pointer : List Text → Value → Option Value
pointer [] v = some v
pointer (key ∷ keys) v = and_then (pointer keys) (get key v)

abbrev pub as_str : Value → Option Text
as_str (string s) = some s
as_str _ = none

abbrev pub as_bool : Value → Option Bool
as_bool (bool b) = some b
as_bool _ = none

abbrev pub as_u64 : Value → Option ℕ
as_u64 (integer (pos n)) = if ltb n (2 ^ 64) then some n else none
as_u64 _ = none

abbrev pub as_i64 : Value → Option ℤ
as_i64 (integer (pos n)) = if ltb n (2 ^ 63) then some (pos n) else none
as_i64 (integer (negsuc n)) = if ltb n (2 ^ 63) then some (negsuc n) else none
as_i64 _ = none

-- `.and_then(Value::as_str)` behind a pointer
abbrev pub str_at : List Text → Value → Option Text
str_at keys v = and_then as_str (pointer keys v)

abbrev pub bool_at : List Text → Value → Option Bool
bool_at keys v = and_then as_bool (pointer keys v)

abbrev pub is_some {ℓ} : {A : Type ℓ} → Option A → Bool
is_some none = false
is_some (some _) = true

-- `json!({ … })`
abbrev pub fields_of : List (Text × Value) → Fields
fields_of [] = end
fields_of ((k, v) ∷ rest) = field k v (fields_of rest)

abbrev pub json : List (Text × Value) → Value
json fields = object (fields_of fields)
