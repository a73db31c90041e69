-- ===== src/Reply/Shaper.antt =====
-- `ReplyShaper::split`: what is spoken and what is kept for the next request.
use alice_llm_bridge.Base.{
  ℕ, ◌-◌, ◌≤◌, ◌<◌, ltb, ◌≡◌, ◌≢◌, refl, ap, List, [], ◌∷◌, ◌++◌, length, concat, arith, inl, inr,
  Bool-cases, ltb→lt, ltb→le, length-append, All,
}
use alice_llm_bridge.Base.Text.{Text}
use alice_llm_bridge.Reply.{
  ShapedReply, ReplyShaper, continuation_suffix, split, split_into_chunks, shape_chunks,
}
use alice_llm_bridge.Reply.Chunks.{
  Nonempty, split_into_chunks-short, concat-split_into_chunks, split_into_chunks-le_limit,
  split_into_chunks-concat, split_into_chunks-Nonempty,
}

-- What `ReplyShaper::new` asserts.
abbrev pub HasRoom : ReplyShaper → Type 0
HasRoom shaper = length continuation_suffix < shaper.limit

-- How many characters of an answer fit beside the question.
abbrev pub content_limit : ReplyShaper → ℕ
content_limit shaper = shaper.limit - length continuation_suffix

-- An answer that fits is spoken whole and nothing is kept. A longer one is spoken in part, with the
-- question, and what is spoken and what is kept make up the answer.
pub data Says (shaper : ReplyShaper) (text : Text) (r : ShapedReply) : Type 0 where
  whole :
      length text ≤ content_limit shaper → r.spoken ≡ text → r.remaining ≡ [] → Says shaper text r
  part :
      (first next : Text) (rest : List Text)
      → content_limit shaper < length text
      → r.spoken ≡ first ++ continuation_suffix
      → r.remaining ≡ next ∷ rest
      → first ++ concat (next ∷ rest) ≡ text
      → Says shaper text r

module _ (shaper : ReplyShaper) (room : HasRoom shaper) where
  content_limit_pos : 0 < content_limit shaper
  content_limit_pos = omega arith

  shape_chunks-Says :
      (text : Text) (chunks : List Text)
      → content_limit shaper < length text
      → All Nonempty chunks
      → All (λ c. length c ≤ content_limit shaper) chunks
      → concat chunks ≡ text
      → Says shaper text (shape_chunks chunks)
  shape_chunks-Says text [] long _ fit e = absurd (omega (arith, ap length e))
  shape_chunks-Says text (first ∷ []) long _ fit e =
      absurd (omega (arith, ap length e, length-append first [], fit.0))
  shape_chunks-Says text (first ∷ next ∷ rest) long _ fit e = part first next rest long refl refl e

  split-eq-whole :
      (text : Text)
      → length text ≤ content_limit shaper
      → split shaper text ≡ record { spoken = text; remaining = [] }
  unfolding split
  split-eq-whole text fits = rw (split_into_chunks-short (content_limit shaper) text fits)

  -- With a limit that leaves room for the question, every answer is spoken whole if it fits, and
  -- otherwise in part with the question; the rest is kept, and the part and the rest make up the
  -- answer.
  pub split-Says : (text : Text) → Says shaper text (split shaper text)
  unfolding split
  split-Says text = elim (Bool-cases (ltb (content_limit shaper) (length text))) [
    | inr fits ↦
        let e = split-eq-whole text (ltb→le _ _ fits) in
        whole (ltb→le _ _ fits) (ap (λ r. r.spoken) e) (ap (λ r. r.remaining) e)
    | inl long ↦
        shape_chunks-Says text _ (ltb→lt _ _ long)
          (split_into_chunks-Nonempty _ content_limit_pos text (omega (arith, ltb→lt _ _ long)))
          (split_into_chunks-le_limit _ content_limit_pos text)
          (concat-split_into_chunks _ content_limit_pos text)
  ]

  shape_chunks-le_limit :
      (chunks : List Text)
      → All (λ c. length c ≤ content_limit shaper) chunks
      → length (shape_chunks chunks).spoken ≤ shaper.limit
  shape_chunks-le_limit [] fit = omega arith
  shape_chunks-le_limit (first ∷ []) fit = omega arith
  shape_chunks-le_limit (first ∷ next ∷ rest) fit =
      omega (arith, length-append first continuation_suffix)

  -- With a limit that leaves room for the question, what is spoken, question included, never
  -- passes the limit of characters.
  pub split-le_limit : (text : Text) → length (split shaper text).spoken ≤ shaper.limit
  unfolding split
  split-le_limit text =
      shape_chunks-le_limit _ (split_into_chunks-le_limit _ content_limit_pos text)

  shape_chunks-continue :
      (chunks : List Text)
      → ((first next : Text) (rest : List Text)
          → chunks ≡ first ∷ next ∷ rest
          → split_into_chunks (concat (next ∷ rest)) (content_limit shaper) ≡ next ∷ rest)
      → (shape_chunks chunks).remaining ≢ []
      → split shaper (concat (shape_chunks chunks).remaining)
        ≡ shape_chunks (shape_chunks chunks).remaining
  unfolding split
  shape_chunks-continue [] again some_left = absurd (some_left refl)
  shape_chunks-continue (first ∷ []) again some_left = absurd (some_left refl)
  shape_chunks-continue (first ∷ next ∷ rest) again some_left =
      ap shape_chunks (again first next rest refl)

  -- With a limit that leaves room for the question, shaping the kept pieces, joined, if there are
  -- any, speaks the first of them and keeps the others.
  pub split-continue :
      (text : Text)
      → (split shaper text).remaining ≢ []
      → split shaper (concat (split shaper text).remaining)
        ≡ shape_chunks (split shaper text).remaining
  unfolding split
  split-continue text some_left =
      shape_chunks-continue _
        (λ first next rest e. split_into_chunks-concat _ content_limit_pos text first next rest e)
        some_left
