-- ===== src/Conversation/Ordered.antt =====
-- Rows in the order of their ids, as `ORDER BY id` gives them.
use alice_llm_bridge.Base.{
  ℕ, zero, suc, ◌-◌, ◌≤◌, ◌<◌, ◌≡◌, refl, sym, ap, ◌∙◌, Bool, List, [], ◌∷◌, ◌++◌, map,
  append_assoc, append-nil, take, drop, length, length-append, arith, Bool-cases, inl, inr,
}
use alice_llm_bridge.Conversation.{Row, filter, reverse}

-- The ids ascend from above `low` to `high` at most.
abbrev pub Between : ℕ → List Row → ℕ → Type 0
Between low [] high = low ≤ high
Between low (r ∷ rows) high = (low < r.id) × Between r.id rows high

pub Between-le :
    (low low' : ℕ) (rows : List Row) (high : ℕ)
    → low' ≤ low
    → Between low rows high
    → Between low' rows high
Between-le low low' [] high le b = omega (arith, le, b)
Between-le low low' (r ∷ rows) high le (above, b) = (omega (arith, le, above), b)

pub Between-high : (low : ℕ) (rows : List Row) (high : ℕ) → Between low rows high → low ≤ high
Between-high low [] high b = b
Between-high low (r ∷ rows) high (above, b) = omega (arith, above, Between-high r.id rows high b)

pub Between-raise :
    (low : ℕ) (rows : List Row) (high high' : ℕ)
    → high ≤ high'
    → Between low rows high
    → Between low rows high'
Between-raise low [] high high' le b = omega (arith, le, b)
Between-raise low (r ∷ rows) high high' le (above, b) =
    (above, Between-raise r.id rows high high' le b)

pub Between-append :
    (low : ℕ) (rows : List Row) (high : ℕ) (r : Row)
    → Between low rows high
    → high < r.id
    → Between low (rows ++ r ∷ []) r.id
Between-append low [] high r b above = (omega (arith, b, above), omega arith)
Between-append low (x ∷ rows) high r (first, b) above =
    (first, Between-append x.id rows high r b above)

pub Between-filter :
    (p : Row → Bool) (low : ℕ) (rows : List Row) (high : ℕ)
    → Between low rows high
    → Between low (filter p rows) high
Between-filter p low [] high b = b
Between-filter p low (r ∷ rows) high (above, b) = elim (Bool-cases (p r)) [
  | inl e ↦ rw e (above, Between-filter p r.id rows high b)
  | inr e ↦ rw e (
      Between-le r.id low (filter p rows) high (omega (arith, above))
        (Between-filter p r.id rows high b))
]

-- the last `n` items
abbrev pub last {ℓ} : {A : Type ℓ} → ℕ → List A → List A
last n xs = drop (length xs - n) xs

-- all items but the last `n`
abbrev pub front {ℓ} : {A : Type ℓ} → ℕ → List A → List A
front n xs = take (length xs - n) xs

module _ {ℓ} {A : Type ℓ} where
  pub reverse-append : (xs ys : List A) → reverse (xs ++ ys) ≡ reverse ys ++ reverse xs
  reverse-append [] ys = sym (append-nil (reverse ys))
  reverse-append (x ∷ xs) ys =
      ap (λ t. t ++ x ∷ []) (reverse-append xs ys) ∙ append_assoc (reverse ys) (reverse xs) (x ∷ [])

  reverse-reverse : (xs : List A) → reverse (reverse xs) ≡ xs
  reverse-reverse [] = refl
  reverse-reverse (x ∷ xs) =
      reverse-append (reverse xs) (x ∷ []) ∙ ap (λ t. x ∷ t) (reverse-reverse xs)

  length-reverse : (xs : List A) → length (reverse xs) ≡ length xs
  length-reverse [] = refl
  length-reverse (x ∷ xs) = omega (arith, length-append (reverse xs) (x ∷ []), length-reverse xs)

  pub drop-append : (n : ℕ) (xs ys : List A) → n ≤ length xs → drop n (xs ++ ys) ≡ drop n xs ++ ys
  drop-append zero xs ys le = refl
  drop-append (suc n) [] ys le = absurd (omega (arith, le))
  drop-append (suc n) (x ∷ xs) ys le = drop-append n xs ys (omega (arith, le))

  drop_all : (n : ℕ) (xs : List A) → length xs ≤ n → drop n xs ≡ []
  drop_all zero [] le = refl
  drop_all zero (x ∷ xs) le = absurd (omega (arith, le))
  drop_all (suc n) [] le = refl
  drop_all (suc n) (x ∷ xs) le = drop_all n xs (omega (arith, le))

  pub take-nil : (n : ℕ) → take {A = A} n [] ≡ []
  take-nil zero = refl
  take-nil (suc n) = refl

  reverse-take : (n : ℕ) (xs : List A) → reverse (take n xs) ≡ drop (length xs - n) (reverse xs)
  reverse-take n [] = rw (take-nil n) (sym (drop_all (0 - n) [] (omega arith)))
  reverse-take zero (x ∷ xs) = sym (
      drop_all (suc (length xs) - 0) (reverse (x ∷ xs))
        (omega (arith, length-append (reverse xs) (x ∷ []), length-reverse xs)))
  reverse-take (suc n) (x ∷ xs) =
      let same : suc (length xs) - suc n ≡ length xs - n = omega arith in
      rw same (
        ap (λ t. t ++ x ∷ []) (reverse-take n xs)
        ∙ sym
            (drop-append (length xs - n) (reverse xs) (x ∷ []) (omega (arith, length-reverse xs))))

  pub reverse-take-reverse : (n : ℕ) (xs : List A) → reverse (take n (reverse xs)) ≡ last n xs
  reverse-take-reverse n xs = rw reverse-take (rw (length-reverse, reverse-reverse) refl)

module _ {ℓ κ} {A : Type ℓ} {B : Type κ} (f : A → B) where
  pub map-append : (xs ys : List A) → map f (xs ++ ys) ≡ map f xs ++ map f ys
  map-append [] ys = refl
  map-append (x ∷ xs) ys = ap (λ t. f x ∷ t) (map-append xs ys)

  pub map-reverse : (xs : List A) → reverse (map f xs) ≡ map f (reverse xs)
  map-reverse [] = refl
  map-reverse (x ∷ xs) =
      ap (λ t. t ++ f x ∷ []) (map-reverse xs) ∙ sym (map-append (reverse xs) (x ∷ []))

  length-map : (xs : List A) → length (map f xs) ≡ length xs
  length-map [] = refl
  length-map (x ∷ xs) = ap suc (length-map xs)

  pub take-map : (n : ℕ) (xs : List A) → take n (map f xs) ≡ map f (take n xs)
  take-map zero xs = refl
  take-map (suc n) [] = refl
  take-map (suc n) (x ∷ xs) = ap (λ t. f x ∷ t) (take-map n xs)

  drop-map : (n : ℕ) (xs : List A) → drop n (map f xs) ≡ map f (drop n xs)
  drop-map zero xs = refl
  drop-map (suc n) [] = refl
  drop-map (suc n) (x ∷ xs) = drop-map n xs

  pub last-map : (n : ℕ) (xs : List A) → last n (map f xs) ≡ map f (last n xs)
  last-map n xs = rw (length-map, drop-map) refl

  pub front-map : (n : ℕ) (xs : List A) → front n (map f xs) ≡ map f (front n xs)
  front-map n xs = rw (length-map, take-map) refl

pub map-map {ℓ κ μ} :
    {A : Type ℓ} {B : Type κ} {C : Type μ} (f : B → C) (g : A → B) (xs : List A)
    → map f (map g xs) ≡ map (λ x. f (g x)) xs
map-map f g [] = refl
map-map f g (x ∷ xs) = ap (λ t. f (g x) ∷ t) (map-map f g xs)

pub map-filter {ℓ κ} :
    {A : Type ℓ} {B : Type κ} (f : A → B) (p : A → Bool) (q : B → Bool)
    → ((x : A) → q (f x) ≡ p x)
    → (xs : List A) → map f (filter p xs) ≡ filter q (map f xs)
map-filter f p q same [] = refl
map-filter f p q same (x ∷ xs) = elim (Bool-cases (p x)) [
  | inl e ↦ rw (same x, e) (ap (λ t. f x ∷ t) (map-filter f p q same xs))
  | inr e ↦ rw (same x, e) (map-filter f p q same xs)
]
