-- ===== src/Command/Ask.antt =====
-- What reaches the model: never a blank text, and never a control phrase.
use alice_llm_bridge.Base.{
  ℕ, Bool, true, false, if◌then◌else◌, ◌≡◌, ◌≢◌, refl, ap, ◌∙◌, Option, none, some, List, [], ◌∷◌,
  ◌++◌, map, is_empty, All, arith, Bool-cases, Option-cases, inl, inr,
}
use alice_llm_bridge.Base.Text.{
  Text, is_whitespace, trim, trim_start_matches, trim_end_matches, trim_step, strip_prefix,
}
use alice_llm_bridge.Profile.{FamilyRoster, Mode}
use alice_llm_bridge.Command.{
  Unicode, Command, Parsed, command, ask, words_of, split_whitespace, fold_yo, or_space, normalize,
  find_map, introductions, thinking_phrases, introduced_by, introduced, phrase, window, model,
  entered, thought, think, answers, first_or, parse,
}

abbrev pub IsBlank : Text → Type 0
IsBlank s = All (λ c. is_whitespace c ≡ true) s

-- What is documented of Unicode's lower case: blanks stay blanks.
pub record IsUnicode (u : Unicode) : Type 0 where
  pub blank_lower : (s : Text) → IsBlank s → IsBlank (u.to_lowercase s)

start-IsBlank : (s : Text) → trim_start_matches is_whitespace s ≡ [] → IsBlank s
unfolding trim_start_matches
start-IsBlank [] e = tt
start-IsBlank (c ∷ s) e = elim (Bool-cases (is_whitespace c)) [
  | inl blank ↦ (blank, start-IsBlank s (rw blank at e))
  | inr letter ↦ absurd (ground arith)
]

step-IsBlank :
    (c : ℕ) (s t : Text)
    → (IsBlank t → IsBlank s)
    → IsBlank (trim_step is_whitespace c t)
    → IsBlank (c ∷ s)
step-IsBlank c s [] k h = elim (Bool-cases (is_whitespace c)) [
  | inl blank ↦ (blank, k tt)
  | inr letter ↦ let last : IsBlank (c ∷ []) = rw letter at h in (last.0, k tt)
]
step-IsBlank c s (d ∷ t) k h = (h.0, k h.1)

end-IsBlank : (s : Text) → IsBlank (trim_end_matches is_whitespace s) → IsBlank s
unfolding trim_end_matches
end-IsBlank [] h = tt
end-IsBlank (c ∷ s) h = step-IsBlank c s _ (end-IsBlank s) h

trim-IsBlank : (s : Text) → trim s ≡ [] → IsBlank s
unfolding trim
trim-IsBlank s e = end-IsBlank s (start-IsBlank _ e)

module _ (u : Unicode) where
  blank_stays : (c : ℕ) → is_whitespace c ≡ true → is_whitespace (or_space u (fold_yo c)) ≡ true
  unfolding is_whitespace
  blank_stays c h = ground arith

  blank_words : (s : Text) → IsBlank s → words_of (map (or_space u) (map fold_yo s)) ≡ ([], [])
  blank_words [] h = refl
  blank_words (c ∷ s) h = rw (blank_stays c h.0) (rw (blank_words s h.1) refl)

  -- A blank utterance is normalized to nothing.
  normalize_blank : (laws : IsUnicode u) (s : Text) → IsBlank s → normalize u s ≡ []
  unfolding normalize split_whitespace
  normalize_blank laws s h = rw (blank_words (u.to_lowercase s) (laws.blank_lower s h)) refl

  -- an answer that is no question for the model
  abbrev IsControl : Option Parsed → Type 0
  IsControl o = (text : Text) (hard : Bool) → o ≢ some (ask text hard)

  find_map-IsControl :
      {A : Type 0} (f : A → Option Parsed) (xs : List A)
      → ((x : A) → IsControl (f x))
      → IsControl (find_map f xs)
  find_map-IsControl f [] h text hard e = cc
  find_map-IsControl f (x ∷ xs) h text hard e = elim (Option-cases (f x)) [
    | inl q ↦ find_map-IsControl f xs h text hard (rw (q, find_map) at e)
    | inr (p, q) ↦ h x text hard (q ∙ (rw (q, find_map) at e))
  ]

  introduced-IsControl :
      (roster : FamilyRoster) (norm : Text) → IsControl (introduced u roster norm)
  unfolding introduced
  introduced-IsControl roster norm =
      find_map-IsControl (λ prefix. introduced_by u roster (strip_prefix prefix norm)) introductions
        λ prefix. by_prefix (strip_prefix prefix norm)
    where
      by_prefix : (o : Option Text) → IsControl (introduced_by u roster o)
      by_prefix none text hard e = cc
      by_prefix (some rest) text hard e = ground arith

  phrase-IsControl : (norm : Text) → IsControl (phrase u norm)
  unfolding phrase
  phrase-IsControl norm text hard e = ground arith

  window-IsControl : (norm : Text) → IsControl (window u norm)
  unfolding window
  window-IsControl norm text hard e = ground arith

  model-IsControl : (norm : Text) → IsControl (model u norm)
  unfolding model
  model-IsControl norm text hard e = ground arith

  entered-IsControl : (modes : List Mode) (norm : Text) → IsControl (entered u modes norm)
  unfolding entered
  entered-IsControl modes norm = find_map-IsControl _ modes λ mode text hard e. ground arith

  left_over :
      (utterance text : Text) (hard : Bool)
      → trim utterance ≢ []
      → (rest : Text)
      → some (ask (if is_empty rest then trim utterance else rest) true) ≡ some (ask text hard)
      → text ≢ []
  left_over utterance text hard n [] e t = n (cc)
  left_over utterance text hard n (c ∷ rest) e t = cc

  first_or-ask :
      (default : Parsed) (o : Option Parsed) (rest : List (Option Parsed)) (text : Text)
      (hard : Bool)
      → IsControl o
      → first_or u default (o ∷ rest) ≡ ask text hard
      → first_or u default rest ≡ ask text hard
  first_or-ask default none rest text hard control e = e
  first_or-ask default (some parsed) rest text hard control e =
      absurd (control text hard (ap some e))

  -- the answer of the last loop asks what is left or, if nothing is left, the utterance
  think-asks :
      (utterance norm text : Text) (hard : Bool) (prefixes : List Text)
      → trim utterance ≢ []
      → find_map (λ prefix. thought u utterance (strip_prefix prefix norm)) prefixes
        ≡ some (ask text hard)
      → text ≢ []
  think-asks utterance norm text hard [] n e = absurd (cc)
  think-asks utterance norm text hard (prefix ∷ prefixes) n e =
      elim (Option-cases (strip_prefix prefix norm)) [
        | inl q ↦ think-asks utterance norm text hard prefixes n (rw (q, find_map) at e)
        | inr (rest, q) ↦ left_over utterance text hard n (trim rest) (rw (q, find_map) at e)
      ]

  -- Given that blanks have no lower case but blanks: what `parse` asks the model is a text that is
  -- not empty, of an utterance that is not normalized to nothing.
  pub parse_asks :
      (utterance text : Text) (hard : Bool) (roster : FamilyRoster) (modes : List Mode)
      → IsUnicode u
      → parse u utterance roster modes ≡ ask text hard
      → (text ≢ []) × (normalize u utterance ≢ [])
  unfolding parse think
  parse_asks utterance text hard roster modes laws e =
      let norm = normalize u utterance in
      elim (Bool-cases (is_empty norm)) [
        | inl blank ↦ absurd (ground (arith, e))
        | inr something ↦
            let spoken : norm ≢ [] = λ q. cc (rw q at something) in
            let trimmed : trim utterance ≢ [] =
              λ t. spoken (normalize_blank laws utterance (trim-IsBlank utterance t)) in
            let default = ask (trim utterance) false in
            let returned : first_or u default (answers u utterance roster modes norm)
                ≡ ask text hard =
              rw something at e in
            let last : first_or u default (think u utterance norm ∷ []) ≡ ask text hard =
              first_or-ask default _ _ text hard (entered-IsControl modes norm) (
                first_or-ask default _ _ text hard (model-IsControl norm) (
                  first_or-ask default _ _ text hard (window-IsControl norm) (
                    first_or-ask default _ _ text hard (phrase-IsControl norm) (
                      first_or-ask default _ _ text hard (introduced-IsControl roster norm)
                        returned)))) in
            (
              elim (Option-cases (think u utterance norm)) [
                | inl q ↦ λ t. trimmed (cc (rw q at last))
                | inr (p, q) ↦
                    think-asks utterance norm text hard thinking_phrases trimmed
                      (q ∙ ap some (rw q at last))
              ],
              spoken,
            )
      ]

  -- the last loop asks the model, if it answers at all
  think_asks_only :
      (utterance norm : Text) (c : Command) (prefixes : List Text)
      → find_map (λ prefix. thought u utterance (strip_prefix prefix norm)) prefixes
        ≢ some (command c)
  think_asks_only utterance norm c [] e = cc
  think_asks_only utterance norm c (prefix ∷ prefixes) e =
      elim (Option-cases (strip_prefix prefix norm)) [
        | inl q ↦ think_asks_only utterance norm c prefixes (rw (q, find_map) at e)
        | inr (rest, q) ↦
            let asked : some (ask (if is_empty (trim rest) then trim utterance else trim rest) true)
                ≡ some (command c) =
              rw (q, find_map) at e in
            cc
      ]

  no_command :
      (text : Text) (hard : Bool) (o : Option Parsed) (c : Command)
      → o ≢ some (command c)
      → first_or u (ask text hard) (o ∷ []) ≢ command c
  no_command text hard none c n e = cc
  no_command text hard (some parsed) c n e = n (ap some e)

  -- the answers in front decide, or neither last one does
  first_or-command :
      (d d' : Parsed) (os : List (Option Parsed)) (a b : Option Parsed) (c : Command)
      → first_or u d (a ∷ []) ≢ command c
      → first_or u d (os ++ a ∷ []) ≡ command c
      → first_or u d' (os ++ b ∷ []) ≡ command c
  first_or-command d d' [] a b c n e = absurd (n e)
  first_or-command d d' (none ∷ os) a b c n e = first_or-command d d' os a b c n e
  first_or-command d d' (some parsed ∷ os) a b c n e = e

  -- Utterances that are normalized to the same text give the same command, if one of them gives a
  -- command.
  pub parse_same_command :
      (utterance utterance' : Text) (c : Command) (roster : FamilyRoster) (modes : List Mode)
      → normalize u utterance ≡ normalize u utterance'
      → parse u utterance roster modes ≡ command c
      → parse u utterance' roster modes ≡ command c
  unfolding parse think
  parse_same_command utterance utterance' c roster modes same e =
      let norm = normalize u utterance in
      let d = ask (trim utterance) false in
      let d' = ask (trim utterance') false in
      rw (← same) (elim (Bool-cases (is_empty norm)) [
        | inl blank ↦ rw blank (rw blank at e)
        | inr something ↦
            let returned : first_or u d (answers u utterance roster modes norm) ≡ command c =
              rw something at e in
            rw something (
              first_or-command d d'
                (introduced u roster norm
                  ∷ phrase u norm
                  ∷ window u norm
                  ∷ model u norm
                  ∷ entered u modes norm
                  ∷ [])
                (think u utterance norm) (think u utterance' norm) c
                (no_command (trim utterance) false _ c
                  (think_asks_only utterance norm c thinking_phrases))
                returned)
      ])
