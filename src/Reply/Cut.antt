-- ===== src/Reply/Cut.antt =====
-- Where a text is cut: the last paragraph break, else the last sentence's end, else a whitespace.
use alice_llm_bridge.Base.{
  ℕ, zero, suc, ◌+◌, ◌≤◌, ◌<◌, ltb, ◌≡◌, refl, Bool, true, false, ◌&&◌, Option, none, some, [], ◌∷◌,
  length, take, drop, arith, inl, inr, Option-cases, length-take, lt→ltb,
}
use native.Mathlib.Nat.{zero-add}
use alice_llm_bridge.Base.Text.{Text, is_whitespace, starts_with, strip_prefix}
use alice_llm_bridge.Reply.{
  rfind, rfind_char, paragraph_break, word_split, sentence_split, preferred_split, split_at,
  ends_sentence,
}

pub rfind_char_range :
    (p : ℕ → ℕ → Bool) (i : ℕ) (s : Text) (j : ℕ)
    → rfind_char p i s ≡ some j
    → (i ≤ j) × (j < i + length s)
unfolding rfind_char
rfind_char_range p i [] j h = ground arith
rfind_char_range p i (c ∷ s) j h = ground (arith, rfind_char_range p (suc i) s j)

starts_with-length : (p s : Text) → starts_with p s ≡ true → length p ≤ length s
unfolding starts_with strip_prefix
starts_with-length [] s h = omega arith
starts_with-length (p ∷ ps) [] h = ground arith
starts_with-length (p ∷ ps) (c ∷ s) h = ground (arith, starts_with-length ps s)

rfind_range :
    (pat : Text) (i : ℕ) (s : Text) (j : ℕ)
    → rfind pat i s ≡ some j
    → (i ≤ j) × (j + length pat ≤ i + length s)
unfolding rfind
rfind_range pat i [] j h = ground arith
rfind_range pat i (c ∷ s) j h =
    ground (arith, rfind_range pat (suc i) s j, starts_with-length pat (c ∷ s))

-- the test of the character at the head, at position `i`
abbrev pub at_head : (ℕ → ℕ → Bool) → ℕ → Text → Bool
at_head p i [] = false
at_head p i (c ∷ s) = p i c

-- `test` holds of the rest of the text from position `k`, and of no later rest.
pub record IsLast (test : ℕ → Text → Bool) (s : Text) (k : ℕ) : Type 0 where
  pub here : test k (drop k s) ≡ true
  pub later : (n : ℕ) → k < n → test n (drop n s) ≡ false

abbrev pub Nowhere : (ℕ → Text → Bool) → Text → Type 0
Nowhere test s = (n : ℕ) → test n (drop n s) ≡ false

rfind_char_none :
    (p : ℕ → ℕ → Bool) (i : ℕ) (s : Text) (n : ℕ)
    → rfind_char p i s ≡ none
    → at_head p (i + n) (drop n s) ≡ false
unfolding rfind_char
rfind_char_none p i [] zero h = refl
rfind_char_none p i [] (suc n) h = refl
rfind_char_none p i (c ∷ s) zero h = ground arith
rfind_char_none p i (c ∷ s) (suc n) h = ground (arith, rfind_char_none p (suc i) s n)

rfind_char_later :
    (p : ℕ → ℕ → Bool) (i : ℕ) (s : Text) (m n : ℕ)
    → rfind_char p i s ≡ some (i + m)
    → m < n
    → at_head p (i + n) (drop n s) ≡ false
unfolding rfind_char
rfind_char_later p i [] m n h lt = ground arith
rfind_char_later p i (c ∷ s) m zero h lt = absurd (omega arith)
rfind_char_later p i (c ∷ s) zero (suc n) h lt =
    ground (arith, rfind_char_none p (suc i) s n, rfind_char_range p (suc i) s i)
rfind_char_later p i (c ∷ s) (suc m) (suc n) h lt = ground (arith, rfind_char_later p (suc i) s m n)

rfind_char_here :
    (p : ℕ → ℕ → Bool) (i : ℕ) (s : Text) (m : ℕ)
    → rfind_char p i s ≡ some (i + m)
    → at_head p (i + m) (drop m s) ≡ true
unfolding rfind_char
rfind_char_here p i [] m h = ground arith
rfind_char_here p i (c ∷ s) zero h = ground (arith, rfind_char_range p (suc i) s i)
rfind_char_here p i (c ∷ s) (suc m) h = ground (arith, rfind_char_here p (suc i) s m)

abbrev pub begins : Text → ℕ → Text → Bool
begins pat n s = starts_with pat s

rfind_none :
    (p : ℕ) (ps : Text) (i : ℕ) (s : Text) (n : ℕ)
    → rfind (p ∷ ps) i s ≡ none
    → starts_with (p ∷ ps) (drop n s) ≡ false
unfolding rfind starts_with strip_prefix
rfind_none p ps i [] zero h = refl
rfind_none p ps i [] (suc n) h = refl
rfind_none p ps i (c ∷ s) zero h = ground arith
rfind_none p ps i (c ∷ s) (suc n) h = ground (arith, rfind_none p ps (suc i) s n)

rfind_later :
    (p : ℕ) (ps : Text) (i : ℕ) (s : Text) (m n : ℕ)
    → rfind (p ∷ ps) i s ≡ some (i + m)
    → m < n
    → starts_with (p ∷ ps) (drop n s) ≡ false
unfolding rfind
rfind_later p ps i [] m n h lt = ground arith
rfind_later p ps i (c ∷ s) m zero h lt = absurd (omega arith)
rfind_later p ps i (c ∷ s) zero (suc n) h lt =
    ground (arith, rfind_none p ps (suc i) s n, rfind_range (p ∷ ps) (suc i) s i)
rfind_later p ps i (c ∷ s) (suc m) (suc n) h lt = ground (arith, rfind_later p ps (suc i) s m n)

rfind_here :
    (p : ℕ) (ps : Text) (i : ℕ) (s : Text) (m : ℕ)
    → rfind (p ∷ ps) i s ≡ some (i + m)
    → starts_with (p ∷ ps) (drop m s) ≡ true
unfolding rfind
rfind_here p ps i [] m h = ground arith
rfind_here p ps i (c ∷ s) zero h = ground (arith, rfind_range (p ∷ ps) (suc i) s i)
rfind_here p ps i (c ∷ s) (suc m) h = ground (arith, rfind_here p ps (suc i) s m)

abbrev is_word_split : ℕ → ℕ → Bool
is_word_split i c = ltb 0 i && is_whitespace c

abbrev is_sentence_end : ℕ → ℕ → Bool
is_sentence_end i c = ends_sentence c

word_split_range :
    (prefix : Text) (k : ℕ) → word_split prefix ≡ some k → (0 < k) × (k < length prefix)
word_split_range prefix k h =
    let (low, high) = rfind_char_range is_word_split 0 prefix k h in
    (positive k prefix (rfind_char_here is_word_split 0 prefix k (rw zero-add h)), omega arith)
  where
    positive : (k : ℕ) (s : Text) → at_head is_word_split (0 + k) (drop k s) ≡ true → 0 < k
    positive zero s e = ground arith
    positive (suc k) s e = omega arith

sentence_split_range :
    (prefix : Text) (k : ℕ) → sentence_split prefix ≡ some k → (0 < k) × (k ≤ length prefix)
sentence_split_range prefix k h = elim (Option-cases (rfind_char is_sentence_end 0 prefix)) [
  | inl e ↦ let w = word_split_range prefix k (rw (e, sentence_split) at h) in (w.0, omega arith)
  | inr (j, e) ↦ let r = rfind_char_range is_sentence_end 0 prefix j e in ground arith
]

-- A split takes a character at least and stays in the prefix.
pub preferred_split_range :
    (prefix : Text) (k : ℕ) → preferred_split prefix ≡ some k → (0 < k) × (k ≤ length prefix)
unfolding preferred_split paragraph_break
preferred_split_range prefix k h = elim (Option-cases (rfind paragraph_break 0 prefix)) [
  | inl e ↦ sentence_split_range prefix k (rw (e, preferred_split) at h)
  | inr (j, e) ↦ let r = rfind_range paragraph_break 0 prefix j e in ground arith
]

pub split_at_range :
    (limit : ℕ) (text : Text)
    → 0 < limit
    → limit < length text
    → (0 < split_at limit text) × (split_at limit text ≤ limit)
unfolding split_at
split_at_range limit text pos long =
    ground
      (arith, preferred_split_range (take limit text) (split_at limit text), length-take limit text)

-- The order of preference, stated by positions: a split stands behind the last paragraph break;
-- without one, behind the last sentence's end; without either, before the last whitespace that is
-- not the first character.
pub data IsPreferred (s : Text) : Option ℕ → Type 0 where
  paragraph : (k : ℕ) → IsLast (begins paragraph_break) s k → IsPreferred s (some (k + 2))
  sentence :
      (k : ℕ)
      → Nowhere (begins paragraph_break) s
      → IsLast (at_head is_sentence_end) s k
      → IsPreferred s (some (k + 1))
  word :
      (k : ℕ)
      → Nowhere (begins paragraph_break) s
      → Nowhere (at_head is_sentence_end) s
      → IsLast (at_head is_word_split) s k
      → IsPreferred s (some k)
  nowhere :
      Nowhere (begins paragraph_break) s
      → Nowhere (at_head is_sentence_end) s
      → Nowhere (at_head is_word_split) s
      → IsPreferred s none

module _ (s : Text) where
  rfind_char-IsLast :
      (p : ℕ → ℕ → Bool) (k : ℕ) → rfind_char p 0 s ≡ some k → IsLast (at_head p) s k
  rfind_char-IsLast p k h = record {
    here = rw zero-add at (rfind_char_here p 0 s k (rw zero-add h));
    later = λ n lt. rw zero-add at (rfind_char_later p 0 s k n (rw zero-add h) lt);
  }

  rfind_char-Nowhere : (p : ℕ → ℕ → Bool) → rfind_char p 0 s ≡ none → Nowhere (at_head p) s
  rfind_char-Nowhere p h n = rw zero-add at (rfind_char_none p 0 s n h)

  rfind-IsLast : (k : ℕ) → rfind paragraph_break 0 s ≡ some k → IsLast (begins paragraph_break) s k
  unfolding paragraph_break
  rfind-IsLast k h = record {
    here = rfind_here 10 (10 ∷ []) 0 s k (rw zero-add h);
    later = λ n lt. rfind_later 10 (10 ∷ []) 0 s k n (rw zero-add h) lt;
  }

  rfind-Nowhere : rfind paragraph_break 0 s ≡ none → Nowhere (begins paragraph_break) s
  unfolding paragraph_break
  rfind-Nowhere h n = rfind_none 10 (10 ∷ []) 0 s n h

  word_split-IsPreferred :
      Nowhere (begins paragraph_break) s
      → Nowhere (at_head is_sentence_end) s
      → IsPreferred s (word_split s)
  word_split-IsPreferred np ns = elim (Option-cases (word_split s)) [
    | inl e ↦ rw e (nowhere np ns (rfind_char-Nowhere is_word_split e))
    | inr (j, e) ↦ rw e (word j np ns (rfind_char-IsLast is_word_split j e))
  ]

  sentence_split-IsPreferred : Nowhere (begins paragraph_break) s → IsPreferred s (sentence_split s)
  sentence_split-IsPreferred np = elim (Option-cases (rfind_char is_sentence_end 0 s)) [
    | inl e ↦
        rw (e, sentence_split) (word_split-IsPreferred np (rfind_char-Nowhere is_sentence_end e))
    | inr (j, e) ↦ rw (e, sentence_split) (sentence j np (rfind_char-IsLast is_sentence_end j e))
  ]

-- A split is chosen by the order of preference: the last paragraph break, else the last sentence's
-- end, else the last whitespace that is not the first character; without any there is none.
pub preferred_split-IsPreferred : (prefix : Text) → IsPreferred prefix (preferred_split prefix)
unfolding preferred_split
preferred_split-IsPreferred prefix = elim (Option-cases (rfind paragraph_break 0 prefix)) [
  | inl e ↦ rw (e, preferred_split) (sentence_split-IsPreferred prefix (rfind-Nowhere prefix e))
  | inr (j, e) ↦
      rw (e, preferred_split, lt→ltb 0 (j + 2) (omega arith))
        (paragraph j (rfind-IsLast prefix j e))
]
