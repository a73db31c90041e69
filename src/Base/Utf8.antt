-- ===== src/Base/Utf8.antt =====
-- UTF-8: `str::as_bytes` and `String::from_utf8`.
use Prim.Native.Nat.{ℕ, zero, suc, ◌+◌, ◌-◌, ◌*◌, ◌/◌, ◌%◌}
use mathlib.Core.Path.{◌≡◌, refl}
use mathlib.Core.Bool.{Bool, true, ◌&&◌, ◌||◌}
use mathlib.Core.Option.{Option, none, some}
use mathlib.Core.List.{List, [], ◌∷◌, ◌++◌}
use native.Mathlib.Omega.{arith}
use alice_llm_bridge.Base.Tests.{leb, ltb, if◌then◌else◌}
use alice_llm_bridge.Base.Lists.{All}
use alice_llm_bridge.Base.Text.{Text}

-- `char`: a code point that is no surrogate
unfoldable pub is_char : ℕ → Bool
is_char c = ltb c 0xd800 || leb 0xe000 c && ltb c 0x110000

abbrev pub IsText : Text → Type 0
IsText s = All (λ c. is_char c ≡ true) s

unfoldable pub encode_char : ℕ → List ℕ
encode_char c =
    if ltb c 0x80
    then c ∷ []
    else if ltb c 0x800
    then (0xc0 + c / 64) ∷ (0x80 + c % 64) ∷ []
    else if ltb c 0x10000
    then (0xe0 + c / 4096) ∷ (0x80 + c / 64 % 64) ∷ (0x80 + c % 64) ∷ []
    else (0xf0 + c / 262144) ∷ (0x80 + c / 4096 % 64) ∷ (0x80 + c / 64 % 64) ∷ (0x80 + c % 64) ∷ []

unfoldable pub as_bytes : Text → List ℕ
unfolding encode_char
as_bytes [] = []
as_bytes (c ∷ s) = encode_char c ++ as_bytes s

-- Between two bytes: how many continuation bytes are due, the bits so far, and the least code point
-- that may take so many bytes.
pub record Decoder : Type 0 where
  pub due : ℕ
  pub bits : ℕ
  pub least : ℕ

abbrev pub start : Decoder
start = record { due = 0; bits = 0; least = 0 }

-- what a byte gives: a fault, a character, or another state
pub data Decoded : Type 0 where
  fault : Decoded
  char : ℕ → Decoded
  more : Decoder → Decoded

abbrev lead_byte : ℕ → Decoded
lead_byte b =
    if ltb b 0x80
    then char b
    else if leb 0xc2 b && leb b 0xdf
    then more (record { due = 1; bits = b - 0xc0; least = 0x80 })
    else if leb 0xe0 b && leb b 0xef
    then more (record { due = 2; bits = b - 0xe0; least = 0x800 })
    else if leb 0xf0 b && leb b 0xf4
    then more (record { due = 3; bits = b - 0xf0; least = 0x10000 })
    else fault

abbrev last_byte : ℕ → ℕ → Decoded
last_byte bits least = if leb least bits && is_char bits then char bits else fault

abbrev next_byte : ℕ → ℕ → ℕ → ℕ → Decoded
next_byte zero bits least b = lead_byte b
next_byte (suc zero) bits least b =
    if leb 0x80 b && leb b 0xbf then last_byte (bits * 64 + (b - 0x80)) least else fault
next_byte (suc (suc due)) bits least b =
    if leb 0x80 b && leb b 0xbf
    then more (record { due = suc due; bits = bits * 64 + (b - 0x80); least = least })
    else fault

abbrev push : ℕ → Option Text → Option Text
push c none = none
push c (some s) = some (c ∷ s)

abbrev at_end : ℕ → Option Text
at_end zero = some []
at_end (suc due) = none

unfoldable pub decode : Decoder → List ℕ → Option Text
decode d [] = at_end d.due
decode d (b ∷ bytes) = elim (next_byte d.due d.bits d.least b) [
  | fault ↦ none
  | char c ↦ push c (decode start bytes)
  | more e ↦ decode e bytes
]

-- `String::from_utf8(bytes).ok()`
unfoldable pub from_utf8 : List ℕ → Option Text
unfolding decode is_char
from_utf8 bytes = decode start bytes

decode-encode_char :
    (c : ℕ) (bytes : List ℕ)
    → is_char c ≡ true
    → decode start (encode_char c ++ bytes) ≡ push c (decode start bytes)
unfolding decode encode_char is_char
decode-encode_char c bytes h = ground arith

-- Reading back the bytes of a text gives the text.
pub from_utf8-as_bytes : (s : Text) → IsText s → from_utf8 (as_bytes s) ≡ some s
unfolding from_utf8 as_bytes
from_utf8-as_bytes [] h = refl
from_utf8-as_bytes (c ∷ s) h =
    rw (decode-encode_char c (as_bytes s) h.0, from_utf8-as_bytes s h.1) refl
