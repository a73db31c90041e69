-- ===== src/Command/Normal.antt =====
-- `normalize`: what is left of an utterance are words of letters and digits, one space apart.
use alice_llm_bridge.Base.{
  ℕ, true, false, ◌≡◌, ◌≢◌, refl, subst, List, [], ◌∷◌, ◌++◌, map, append-nil, All, arith,
  Bool-cases, inl, inr,
}
use alice_llm_bridge.Base.Text.{Text, is_whitespace}
use alice_llm_bridge.Command.{
  Unicode, with_word, words_of, split_whitespace, join, fold_yo, or_space, normalize,
}

-- a character of a word: alphanumeric, no blank and no `ё`
pub record IsLetter (u : Unicode) (c : ℕ) : Type 0 where
  pub not_blank : is_whitespace c ≡ false
  pub alphanumeric : u.is_alphanumeric c ≡ true
  pub not_yo : c ≢ 0x451

pub record IsWord (u : Unicode) (w : Text) : Type 0 where
  pub nonempty : w ≢ []
  pub letters : All (IsLetter u) w

module _ (u : Unicode) where
  with_word-IsWord :
      (w : Text) (words : List Text)
      → All (IsLetter u) w
      → All (IsWord u) words
      → All (IsWord u) (with_word w words)
  with_word-IsWord [] words h k = k
  with_word-IsWord (c ∷ w) words h k = (record { nonempty = λ e. cc; letters = h }, k)

  words_of-IsWord :
      (s : Text)
      → All (λ c. is_whitespace c ≡ false → IsLetter u c) s
      → All (IsLetter u) (words_of s).0 × All (IsWord u) (words_of s).1
  words_of-IsWord [] h = (tt, tt)
  words_of-IsWord (c ∷ s) h =
      let (first, others) = words_of-IsWord s h.1 in
      elim (Bool-cases (is_whitespace c)) [
        | inl blank ↦ rw blank (tt, with_word-IsWord _ _ first others)
        | inr letter ↦ rw letter ((h.0 letter, first), others)
      ]

  letter :
      (c : ℕ) → is_whitespace (or_space u (fold_yo c)) ≡ false → IsLetter u (or_space u (fold_yo c))
  unfolding is_whitespace
  letter c h = record { not_blank = h; alphanumeric = ground arith; not_yo = ground arith }

  mapped-letters :
      (s : Text)
      → All (λ c. is_whitespace c ≡ false → IsLetter u c) (map (or_space u) (map fold_yo s))
  mapped-letters [] = tt
  mapped-letters (c ∷ s) = (letter c, mapped-letters s)

  split_whitespace-letters :
      (s : Text)
      → All (λ c. is_whitespace c ≡ false → IsLetter u c) s
      → All (IsWord u) (split_whitespace s)
  unfolding split_whitespace
  split_whitespace-letters s h =
      let (first, others) = words_of-IsWord s h in with_word-IsWord _ _ first others

  words_of-append :
      (w s : Text) → All (IsLetter u) w → words_of (w ++ s) ≡ (w ++ (words_of s).0, (words_of s).1)
  words_of-append [] s h = refl
  words_of-append (c ∷ w) s h = rw (words_of-append w s h.1) (rw (h.0).not_blank refl)

  with_word-cons : (w : Text) (words : List Text) → w ≢ [] → with_word (w ++ []) words ≡ (w ∷ words)
  with_word-cons [] words n = absurd (n refl)
  with_word-cons (c ∷ w) words n = rw (append-nil w) refl

  split_whitespace-join :
      (words : List Text) → All (IsWord u) words → split_whitespace (join words) ≡ words
  unfolding split_whitespace is_whitespace
  split_whitespace-join [] h = refl
  split_whitespace-join (w ∷ []) h =
      subst (λ t. with_word (words_of t).0 (words_of t).1 ≡ w ∷ []) (append-nil w)
        (rw (words_of-append w [] (h.0).letters) (with_word-cons w [] (h.0).nonempty))
  split_whitespace-join (w ∷ v ∷ words) h =
      rw (words_of-append w (b' ' ∷ join (v ∷ words)) (h.0).letters)
        (rw (split_whitespace-join (v ∷ words) h.1) (with_word-cons w _ (h.0).nonempty))

  -- A normalized text is its words, one space apart, and each word is made of alphanumeric characters
  -- without `ё`.
  pub normalize-IsWord :
      (text : Text)
      → (normalize u text ≡ join (split_whitespace (normalize u text)))
        × All (IsWord u) (split_whitespace (normalize u text))
  unfolding normalize
  normalize-IsWord text =
      let mapped = map (or_space u) (map fold_yo (u.to_lowercase text)) in
      let are_words = split_whitespace-letters mapped (mapped-letters (u.to_lowercase text)) in
      let again = split_whitespace-join (split_whitespace mapped) are_words in
      rw again (refl, are_words)
