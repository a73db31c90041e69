-- ===== src/Reply.antt =====
-- crates/bridge-core/src/reply.rs: long answers are cut into spoken pieces, and what the user says
-- to the question whether to go on is classified. The proofs stand in the modules below.
pub mod Cut
pub mod Chunks
pub mod Shaper
pub mod Decision
pub mod Valid
use alice_llm_bridge.Base.{
  ℕ, zero, suc, ◌+◌, ◌-◌, ltb, if◌then◌else◌, Bool, true, false, not, ◌&&◌, ◌||◌, Option, none,
  some, List, [], ◌∷◌, ◌++◌, length, take, drop, concat, is_empty, any, ◌==◌,
}
use alice_llm_bridge.Base.Text.{
  Text, codes, is_whitespace, starts_with, trim, trim_end_matches, one_of,
}

-- CONTINUATION_SUFFIX
unfoldable pub continuation_suffix : Text
continuation_suffix = codes " Продолжать?"

-- `str::rfind` of a text pattern that is not empty; `i` is the position of the text's head.
unfoldable pub rfind : Text → ℕ → Text → Option ℕ
rfind pat i [] = none
rfind pat i (c ∷ s) = elim (rfind pat (suc i) s) [
  | some j ↦ some j
  | none ↦ if starts_with pat (c ∷ s) then some i else none
]

-- `char_indices().rev().find(p)`: the last position and character that satisfy `p`.
unfoldable pub rfind_char : (ℕ → ℕ → Bool) → ℕ → Text → Option ℕ
rfind_char p i [] = none
rfind_char p i (c ∷ s) = elim (rfind_char p (suc i) s) [
  | some j ↦ some j
  | none ↦ if p i c then some i else none
]

unfoldable pub paragraph_break : Text
paragraph_break = 10 ∷ 10 ∷ []

-- `".!?…".contains(character)`
unfoldable pub ends_sentence : ℕ → Bool
ends_sentence c = any (λ d. c == d) (codes ".!?…")

-- the position behind a sentence's end, or that of a whitespace which is not the first character
abbrev pub word_split : Text → Option ℕ
word_split prefix = rfind_char (λ i c. ltb 0 i && is_whitespace c) 0 prefix

abbrev pub sentence_split : Text → Option ℕ
sentence_split prefix = elim (rfind_char (λ i c. ends_sentence c) 0 prefix) [
  | some index ↦ some (index + 1)
  | none ↦ word_split prefix
]

unfoldable pub preferred_split : Text → Option ℕ
preferred_split prefix = elim (rfind paragraph_break 0 prefix) [
  | some index ↦ let end = index + 2 in if ltb 0 end then some end else sentence_split prefix
  | none ↦ sentence_split prefix
]

-- where the loop of `split_into_chunks` cuts a text that is longer than `limit`
unfoldable pub split_at : ℕ → Text → ℕ
split_at limit text = elim (preferred_split (take limit text)) [ some index ↦ index | none ↦ limit ]

abbrev pub last_chunk : Text → List Text → List Text
last_chunk text chunks =
    if not (is_empty text) || is_empty chunks then chunks ++ text ∷ [] else chunks

-- `while text.chars().count() > limit`, on fuel. Each round takes a character at least, so the
-- length of the text is enough fuel for a limit that is not 0.
unfoldable pub split_loop : ℕ → ℕ → Text → List Text → List Text
split_loop zero limit text chunks = chunks
split_loop (suc fuel) limit text chunks =
    let at = split_at limit text in
    let rest = split_loop fuel limit (drop at text) (chunks ++ take at text ∷ []) in
    if ltb limit (length text) then rest else last_chunk text chunks

unfoldable pub split_into_chunks : Text → ℕ → List Text
unfolding split_loop
split_into_chunks text limit = split_loop (suc (length text)) limit text []

pub record ShapedReply : Type 0 where
  pub spoken : Text
  pub remaining : List Text

pub record ReplyShaper : Type 0 where
  pub limit : ℕ

-- `ReplyShaper::new`; `none` is the panic of its assertion
unfoldable pub shaper_new : ℕ → Option ReplyShaper
shaper_new limit =
    if ltb (length continuation_suffix) limit then some (record { limit = limit }) else none

-- the first chunk is spoken with the question, unless it is the only one
abbrev pub shape_chunks : List Text → ShapedReply
shape_chunks [] = record { spoken = []; remaining = [] }
shape_chunks (first ∷ []) = record { spoken = first; remaining = [] }
shape_chunks (first ∷ next ∷ rest) = record {
  spoken = first ++ continuation_suffix;
  remaining = next ∷ rest;
}

-- `ReplyShaper::split`
unfoldable pub split : ReplyShaper → Text → ShapedReply
split shaper text =
    shape_chunks (split_into_chunks text (shaper.limit - length continuation_suffix))

pub data ContinuationDecision : Type 0 where
  continue stop empty : ContinuationDecision

-- `character.is_whitespace() || ".!?,;:…".contains(character)`
unfoldable pub ends_utterance : ℕ → Bool
ends_utterance c = is_whitespace c || any (λ d. c == d) (codes ".!?,;:…")

unfoldable pub refusals : List Text
refusals =
    codes "нет"
    ∷ codes "не надо"
    ∷ codes "не продолжай"
    ∷ codes "хватит"
    ∷ codes "стоп"
    ∷ codes "отмена"
    ∷ []

-- `ContinuationDecision::from_utterance`; `to_lowercase` is Unicode's mapping
unfoldable pub from_utterance : (to_lowercase : Text → Text) → Text → ContinuationDecision
from_utterance to_lowercase text =
    let normalized = to_lowercase (trim_end_matches ends_utterance (trim text)) in
    if is_empty normalized then empty else if one_of refusals normalized then stop else continue
