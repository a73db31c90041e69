-- ===== src/Reply/Decision.antt =====
-- `ContinuationDecision::from_utterance`: what of the utterance decides.
use alice_llm_bridge.Base.{
  ℕ, ◌≡◌, refl, Bool, true, false, [], ◌∷◌, ◌++◌, arith, All, is_empty, append_assoc, if◌then◌else◌,
  Bool-cases, inl, inr,
}
use alice_llm_bridge.Base.Text.{
  Text, is_whitespace, trim, trim_start_matches, trim_end_matches, trim_step, one_of,
}
use alice_llm_bridge.Reply.{continue, stop, empty, ends_utterance, refusals, from_utterance}

module _ (p : ℕ → Bool) where
  abbrev pub AllOf : Text → Type 0
  AllOf s = All (λ c. p c ≡ true) s

  pub trim_end_of_all : (s : Text) → AllOf s → trim_end_matches p s ≡ []
  unfolding trim_end_matches
  trim_end_of_all [] h = refl
  trim_end_of_all (c ∷ s) h = ground (arith, trim_end_of_all s h.1)

  pub trim_end-append :
      (s : Text) (c : ℕ) (t : Text)
      → p c ≡ false
      → trim_end_matches p (s ++ c ∷ t) ≡ s ++ c ∷ trim_end_matches p t
  unfolding trim_end_matches
  trim_end-append [] c t h = stays (trim_end_matches p t)
    where
      stays : (r : Text) → trim_step p c r ≡ c ∷ r
      stays [] = rw h
      stays (d ∷ r) = refl
  trim_end-append (d ∷ []) c t h = rw (trim_end-append [] c t h)
  trim_end-append (d ∷ e ∷ s) c t h = rw (trim_end-append (e ∷ s) c t h)

  pub trim_start_of_all :
      (s t : Text) → AllOf s → trim_start_matches p (s ++ t) ≡ trim_start_matches p t
  unfolding trim_start_matches
  trim_start_of_all [] t h = refl
  trim_start_of_all (c ∷ s) t h = ground (arith, trim_start_of_all s t h.1)

  -- No character at the head that is trimmed.
  abbrev pub StartsPlain : Text → Type 0
  StartsPlain [] = Unit
  StartsPlain (c ∷ s) = p c ≡ false

  pub trim_start_of_plain : (s : Text) → StartsPlain s → trim_start_matches p s ≡ s
  unfolding trim_start_matches
  trim_start_of_plain [] h = refl
  trim_start_of_plain (c ∷ s) h = rw h

All-trim_end : (p q : ℕ → Bool) (s : Text) → AllOf q s → AllOf q (trim_end_matches p s)
unfolding trim_end_matches
All-trim_end p q [] h = tt
All-trim_end p q (c ∷ s) h = keeps (trim_end_matches p s) (All-trim_end p q s h.1)
  where
    keeps : (r : Text) → AllOf q r → AllOf q (trim_step p c r)
    keeps [] k = ground arith
    keeps (d ∷ r) k = (h.0, k)

All-trim_start : (p q : ℕ → Bool) (s : Text) → AllOf q s → AllOf q (trim_start_matches p s)
unfolding trim_start_matches
All-trim_start p q [] h = tt
All-trim_start p q (c ∷ s) h = elim (Bool-cases (p c)) [
  | inl e ↦ rw e (All-trim_start p q s h.1)
  | inr e ↦ rw e h
]

StartsPlain-append :
    (init : Text) (last : ℕ) (t : Text)
    → StartsPlain is_whitespace (init ++ last ∷ [])
    → StartsPlain is_whitespace (init ++ last ∷ t)
StartsPlain-append [] last t h = h
StartsPlain-append (c ∷ s) last t h = h

whitespace-ends_utterance : (c : ℕ) → ends_utterance c ≡ false → is_whitespace c ≡ false
unfolding ends_utterance
whitespace-ends_utterance c h = ground arith

-- Spaces in front, and spaces and punctuation behind, are removed and nothing else: what is left,
-- `core`, begins with no space and ends with the character `last`, which is none of those.
module _ (lead init tail : Text) (last : ℕ) where
  trim_utterance :
      AllOf is_whitespace lead
      → StartsPlain is_whitespace (init ++ last ∷ [])
      → ends_utterance last ≡ false
      → AllOf ends_utterance tail
      → trim_end_matches ends_utterance (trim (lead ++ init ++ last ∷ tail)) ≡ init ++ last ∷ []
  unfolding trim
  trim_utterance l i e t =
      let rest = trim_end_matches is_whitespace tail in
      simp (
        trim_end-append is_whitespace (lead ++ init) last tail (whitespace-ends_utterance last e),
        append_assoc lead init (last ∷ rest),
        trim_start_of_all is_whitespace lead (init ++ last ∷ rest) l,
        trim_start_of_plain is_whitespace _ (StartsPlain-append init last rest i),
        trim_end-append ends_utterance init last rest e,
        trim_end_of_all ends_utterance rest (All-trim_end is_whitespace ends_utterance tail t),
      )

  -- Only the core of an utterance decides, whatever spaces stand before it and whatever spaces and
  -- punctuation behind: with a lowercase form that is not empty, a refusal stops and all else goes on.
  pub from_utterance-core :
      (to_lowercase : Text → Text)
      → AllOf is_whitespace lead
      → StartsPlain is_whitespace (init ++ last ∷ [])
      → ends_utterance last ≡ false
      → AllOf ends_utterance tail
      → is_empty (to_lowercase (init ++ last ∷ [])) ≡ false
      → from_utterance to_lowercase (lead ++ init ++ last ∷ tail)
        ≡ (if one_of refusals (to_lowercase (init ++ last ∷ [])) then stop else continue)
  unfolding from_utterance
  from_utterance-core lower l i e t n = rw (trim_utterance l i e t, n)

-- An utterance of spaces and punctuation alone is no answer, whatever the lowercase mapping does
-- to other texts.
pub from_utterance-blank :
    (to_lowercase : Text → Text) (text : Text)
    → to_lowercase [] ≡ []
    → AllOf ends_utterance text
    → from_utterance to_lowercase text ≡ empty
unfolding from_utterance trim
from_utterance-blank lower text e h = simp (
  trim_end_of_all ends_utterance
      (trim_start_matches is_whitespace (trim_end_matches is_whitespace text))
      (All-trim_start is_whitespace ends_utterance _
        (All-trim_end is_whitespace ends_utterance text h)),
  e,
)
