-- ===== src/Conversation/Above.antt =====
-- Rows by their ids: where a list splits, and which of its rows are newer than an id.
use alice_llm_bridge.Base.{
  ℕ, ◌≤◌, ◌<◌, ℤ, pos, negsuc, ◌≡◌, refl, ap, ◌∙◌, arith, Bool, true, false, Bool-cases, inl, inr,
  List, [], ◌∷◌, ◌++◌,
}
use alice_llm_bridge.Conversation.{Row, filter, is_newer}
use alice_llm_bridge.Conversation.Ordered.{Between, Between-high, front}
use alice_llm_bridge.Conversation.History.{filter-append}

-- the id of the last row
abbrev pub end : ℕ → List Row → ℕ
end low [] = low
end low (r ∷ rows) = end r.id rows

pub split-Between :
    (low : ℕ) (xs ys : List Row) (high : ℕ)
    → Between low (xs ++ ys) high
    → Between low xs (end low xs) × Between (end low xs) ys high
split-Between low [] ys high b = (omega arith, b)
split-Between low (r ∷ xs) ys high (above, b) =
    let (front, back) = split-Between r.id xs ys high b in ((above, front), back)

pub ends :
    (low : ℕ) (rows : List Row) (high : ℕ) → Between low rows high → Between low rows (end low rows)
ends low [] high b = omega arith
ends low (r ∷ rows) high (above, b) = (above, ends r.id rows high b)

-- rows above a bound pass a test that they pass above it, and rows below do not
pub filter-above :
    (p q : Row → Bool) (low : ℕ) (rows : List Row) (high : ℕ)
    → ((r : Row) → low < r.id → p r ≡ q r)
    → Between low rows high
    → filter p rows ≡ filter q rows
filter-above p q low [] high same b = refl
filter-above p q low (r ∷ rows) high same (above, b) =
    let rest = filter-above p q r.id rows high (λ x le. same x (omega (arith, above, le))) b in
    elim (Bool-cases (q r)) [
      | inl e ↦ rw (same r above, e) (ap (λ t. r ∷ t) rest)
      | inr e ↦ rw (same r above, e) rest
    ]

pub filter-below :
    (p : Row → Bool) (low : ℕ) (rows : List Row) (high : ℕ)
    → ((r : Row) → r.id ≤ high → p r ≡ false)
    → Between low rows high
    → filter p rows ≡ []
filter-below p low [] high none_pass b = refl
filter-below p low (r ∷ rows) high none_pass (above, b) =
    rw (none_pass r (Between-high r.id rows high b)) (filter-below p r.id rows high none_pass b)

pub filter_all : (rows : List Row) → filter (λ (r : Row). true) rows ≡ rows
filter_all [] = refl
filter_all (r ∷ rows) = ap (λ t. r ∷ t) (filter_all rows)

-- The first row of a filtered list passes.
pub first-passes :
    (p : Row → Bool) (rows : List Row) (r : Row) (rest : List Row)
    → filter p rows ≡ r ∷ rest
    → p r ≡ true
first-passes p [] r rest e = absurd (cc)
first-passes p (x ∷ rows) r rest e = elim (Bool-cases (p x)) [
  | inl passes ↦ let same : x ≡ r = ground arith in rw (← same) passes
  | inr not_it ↦ first-passes p rows r rest (ground arith)
]

pub newer-from :
    (c : ℤ) (first mid id : ℕ)
    → is_newer c first ≡ true
    → first ≤ mid
    → mid < id
    → is_newer c id ≡ true
newer-from (pos n) first mid id e le lt = ground arith
newer-from (negsuc n) first mid id e le lt = refl

-- What is newer than the first rows of a list are its other rows.
pub after-front :
    (front back : List Row) (high : ℕ)
    → Between 0 (front ++ back) high
    → filter (λ r. is_newer (pos (end 0 front)) r.id) (front ++ back) ≡ back
after-front front back high b =
    let newer_ids = λ (r : Row). is_newer (pos (end 0 front)) r.id in
    let (below, above) = split-Between 0 front back high b in
    filter-append newer_ids front back
    ∙ ap (λ t. t ++ filter newer_ids back)
        (filter-below newer_ids 0 front (end 0 front) (λ r le. ground arith) below)
    ∙ filter-above newer_ids (λ r. true) (end 0 front) back high (λ r lt. ground arith) above
    ∙ filter_all back
