-- ===== src/Reply/Chunks.antt =====
-- The loop of `split_into_chunks`: its own equation without fuel, and what the chunks are.
use alice_llm_bridge.Base.{
  ℕ, zero, suc, ◌≤◌, ◌<◌, ltb, ◌≡◌, refl, sym, ap, ◌∙◌, List, [], ◌∷◌, ◌++◌, length, take, drop,
  concat, arith, inl, inr, Bool-cases, length-take, length-drop, take-append-drop, All,
  append_assoc, append-nil, ltb→lt, ltb→le, lt→ltb,
}
use alice_llm_bridge.Base.Text.{Text}
use alice_llm_bridge.Reply.{split_at, split_loop, split_into_chunks}
use alice_llm_bridge.Reply.Cut.{split_at_range}

abbrev pub Nonempty : Text → Type 0
Nonempty s = 0 < length s

module _ (limit : ℕ) (pos : 0 < limit) where
  drop_shorter :
      (text : Text)
      → limit < length text
      → (length (drop (split_at limit text) text) < length text)
        × Nonempty (drop (split_at limit text) text)
  drop_shorter text long =
      let r = split_at_range limit text pos long in
      (
        omega (arith, length-drop (split_at limit text) text),
        omega (arith, length-drop (split_at limit text) text),
      )

  -- With enough fuel the chunks found so far stand in front, and the fuel does not matter.
  split_loop-append :
      (fuel more : ℕ) (text : Text) (chunks : List Text)
      → length text < fuel
      → length text < more
      → Nonempty text
      → split_loop fuel limit text chunks ≡ chunks ++ split_loop more limit text []
  unfolding split_loop
  split_loop-append zero more text chunks h k n = absurd (omega arith)
  split_loop-append (suc fuel) zero text chunks h k n = absurd (omega arith)
  split_loop-append (suc fuel) (suc more) [] chunks h k n = absurd (omega arith)
  split_loop-append (suc fuel) (suc more) (c ∷ s) chunks h k n =
      elim (Bool-cases (ltb limit (suc (length s)))) [
        | inr short ↦ rw (short) refl
        | inl long ↦
            let text = c ∷ s in
            let at = split_at limit text in
            let d = drop_shorter text (ltb→lt _ _ long) in
            rw (long) (
              split_loop-append fuel more (drop at text) (chunks ++ take at text ∷ []) (omega arith)
                (omega arith) d.1
              ∙ append_assoc chunks (take at text ∷ []) _
              ∙ ap (λ t. chunks ++ t)
                  (sym (
                    split_loop-append more more (drop at text) (take at text ∷ []) (omega arith)
                      (omega arith) d.1)))
      ]

  -- The loop's equation, with no fuel.
  pub split_into_chunks-long :
      (text : Text)
      → limit < length text
      → split_into_chunks text limit
        ≡ take (split_at limit text) text
          ∷ split_into_chunks (drop (split_at limit text) text) limit
  unfolding split_into_chunks split_loop
  split_into_chunks-long text long =
      let at = split_at limit text in
      let d = drop_shorter text long in
      rw (lt→ltb _ _ long) (
        split_loop-append (length text) (suc (length (drop at text))) (drop at text)
          (take at text ∷ []) (omega arith) (omega arith) d.1)

pub split_into_chunks-short :
    (limit : ℕ) (text : Text) → length text ≤ limit → split_into_chunks text limit ≡ text ∷ []
unfolding split_into_chunks split_loop
split_into_chunks-short limit [] h = ground arith
split_into_chunks-short limit (c ∷ s) h = ground arith

-- What holds of a text that fits, and of a longer text if it holds of what is left behind the cut,
-- holds of every text: the induction that follows the loop.
module _ (limit : ℕ) (pos : 0 < limit) where
  chunks_induction_below {ℓ} :
      (P : Text → Type ℓ)
      → ((text : Text) → length text ≤ limit → P text)
      → ((text : Text) → limit < length text → P (drop (split_at limit text) text) → P text)
      → (n : ℕ) (text : Text) → length text < n
      → P text
  chunks_induction_below P short long zero text h = absurd (omega arith)
  chunks_induction_below P short long (suc n) text h =
      let ih = chunks_induction_below P short long n (drop (split_at limit text) text) in
      elim (Bool-cases (ltb limit (length text))) [
        | inr fits ↦ short text (ltb→le _ _ fits)
        | inl more ↦
            let d = drop_shorter limit pos text (ltb→lt _ _ more) in
            long text (ltb→lt _ _ more) (ih (omega arith))
      ]

  pub chunks_induction {ℓ} :
      (P : Text → Type ℓ)
      → ((text : Text) → length text ≤ limit → P text)
      → ((text : Text) → limit < length text → P (drop (split_at limit text) text) → P text)
      → (text : Text) → P text
  chunks_induction P short long text =
      chunks_induction_below P short long (suc (length text)) text (omega arith)

  -- For a limit that is not 0, the chunks make up the text: nothing is lost, added or reordered.
  pub concat-split_into_chunks : (text : Text) → concat (split_into_chunks text limit) ≡ text
  concat-split_into_chunks =
      chunks_induction (λ text. concat (split_into_chunks text limit) ≡ text)
        (λ text fits. rw (split_into_chunks-short limit text fits) (append-nil text))
        (λ text more ih.
          rw (split_into_chunks-long limit pos text more, ih)
            (take-append-drop (split_at limit text) text))

  -- For a limit that is not 0, no chunk is longer than the limit.
  pub split_into_chunks-le_limit :
      (text : Text) → All (λ c. length c ≤ limit) (split_into_chunks text limit)
  split_into_chunks-le_limit =
      chunks_induction (λ text. All (λ c. length c ≤ limit) (split_into_chunks text limit))
        (λ text fits. rw (split_into_chunks-short limit text fits) (fits, tt))
        (λ text more ih.
          let r = split_at_range limit text pos more in
          rw (split_into_chunks-long limit pos text more)
            (omega (arith, length-take (split_at limit text) text), ih))

  -- For a limit that is not 0, no chunk of a text that is not empty is empty.
  pub split_into_chunks-Nonempty :
      (text : Text) → Nonempty text → All Nonempty (split_into_chunks text limit)
  split_into_chunks-Nonempty =
      chunks_induction (λ text. Nonempty text → All Nonempty (split_into_chunks text limit))
        (λ text fits n. rw (split_into_chunks-short limit text fits) (n, tt))
        (λ text more ih n.
          let r = split_at_range limit text pos more in
          let d = drop_shorter limit pos text more in
          rw (split_into_chunks-long limit pos text more)
            (omega (arith, length-take (split_at limit text) text), ih d.1))

  -- Splitting again what is left gives the chunks that were left.
  pub split_into_chunks-concat :
      (text first next : Text) (rest : List Text)
      → split_into_chunks text limit ≡ first ∷ next ∷ rest
      → split_into_chunks (concat (next ∷ rest)) limit ≡ next ∷ rest
  split_into_chunks-concat text first next rest e = elim (Bool-cases (ltb limit (length text))) [
    | inr fits ↦ absurd (differ (sym (split_into_chunks-short limit text (ltb→le _ _ fits)) ∙ e))
    | inl more ↦
        let same = sym (split_into_chunks-long limit pos text (ltb→lt _ _ more)) ∙ e in
        let tails : split_into_chunks (drop (split_at limit text) text) limit ≡ next ∷ rest = cc in
        let text' = drop (split_at limit text) text in
        let joined : concat (next ∷ rest) ≡ text' =
          ap concat (sym tails) ∙ concat-split_into_chunks text' in
        ap (λ t. split_into_chunks t limit) joined ∙ tails
  ]
    where
      differ : text ∷ [] ≡ first ∷ next ∷ rest → ⊥
      differ h = cc
