-- ===== src/Alice/Clip.antt =====
-- The limit of a reply.
use alice_llm_bridge.Base.{
  ℕ, suc, Bool, ◌≤◌, ◌≡◌, leb, [], ◌∷◌, length, length-append, take, length-take, arith, Bool-cases,
  Option-cases, inl, inr,
}
use alice_llm_bridge.Base.Text.{Text, codes, is_whitespace, trim_end_matches, trim_step}
use alice_llm_bridge.Reply.{rfind_char}
use alice_llm_bridge.Reply.Cut.{rfind_char_range}
use alice_llm_bridge.Alice.{max_text_len, clip_to_limit, at_whitespace, ends_clip}

length-trim_step : (p : ℕ → Bool) (c : ℕ) (s : Text) → length (trim_step p c s) ≤ suc (length s)
length-trim_step p c [] = ground arith
length-trim_step p c (d ∷ s) = omega arith

length-trim_end_matches : (p : ℕ → Bool) (s : Text) → length (trim_end_matches p s) ≤ length s
unfolding trim_end_matches
length-trim_end_matches p [] = omega arith
length-trim_end_matches p (c ∷ s) =
    omega (arith, length-trim_step p c (trim_end_matches p s), length-trim_end_matches p s)

length-at_whitespace :
    (cut : Text)
    → length cut ≤ max_text_len
    → length (at_whitespace cut (rfind_char (λ i c. is_whitespace c) 0 cut)) ≤ max_text_len
length-at_whitespace cut h = elim (Option-cases (rfind_char (λ i c. is_whitespace c) 0 cut)) [
  | inl e ↦ rw e h
  | inr (pos, e) ↦
      let range = rfind_char_range (λ i c. is_whitespace c) 0 cut pos e in
      rw e (
        omega (
          arith,
          length-append (trim_end_matches is_whitespace (take pos cut)) (codes "…"),
          length-trim_end_matches is_whitespace (take pos cut),
          length-take pos cut,
        ))
]

clipped : (text : Text) → length (clip_to_limit text) ≤ max_text_len
unfolding clip_to_limit
clipped text = elim (Bool-cases (leb (length text) max_text_len)) [
  | inl e ↦ rw e (ground arith)
  | inr long ↦ rw long (
      let cut = take max_text_len text in
      let fits : length cut ≤ max_text_len = omega (arith, length-take max_text_len text) in
      elim (Option-cases (rfind_char (λ i c. ends_clip c) 0 cut)) [
        | inl e ↦ rw e (length-at_whitespace cut fits)
        | inr (pos, e) ↦ rw e (omega (arith, length-take (suc pos) cut))
      ])
]

-- No reply passes the limit of the protocol, and one within it is left as it is.
pub length-clip_to_limit :
    (text short : Text)
    → length short ≤ max_text_len
    → (length (clip_to_limit text) ≤ max_text_len) × (clip_to_limit short ≡ short)
unfolding clip_to_limit
length-clip_to_limit text short h = (clipped text, ground arith)
