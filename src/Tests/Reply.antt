-- ===== src/Tests/Reply.antt =====
-- crates/bridge-core/src/reply.rs
use alice_llm_bridge.Base.{
  ◌≡◌, ◌≢◌, ◌≤◌, refl, some, [], ◌∷◌, ◌++◌, arith, concat, length, All, if◌then◌else◌,
}
use alice_llm_bridge.Base.Text.{Text, codes, is_whitespace, starts_with, trim, text_eq, one_of}
use alice_llm_bridge.Reply.{
  preferred_split, split_into_chunks, ReplyShaper, split, shape_chunks, continue, stop, empty,
  from_utterance, continuation_suffix, ends_utterance, ends_sentence, refusals, rfind, rfind_char,
  paragraph_break, split_at, split_loop,
}
use alice_llm_bridge.Reply.Cut.{IsPreferred}
use alice_llm_bridge.Reply.Chunks.{
  Nonempty, concat-split_into_chunks, split_into_chunks-le_limit, split_into_chunks-Nonempty,
}
use alice_llm_bridge.Reply.Shaper.{Says, HasRoom, split-Says, split-le_limit, split-continue}
use alice_llm_bridge.Reply.Cut.{preferred_split-IsPreferred}
use alice_llm_bridge.Reply.Decision.{from_utterance-core, from_utterance-blank}
use alice_llm_bridge.Tests.Fixtures.{lower}

-- what a run of the cutter computes through
unfoldable pub running : Unit {0}
unfolding split split_into_chunks split_loop split_at preferred_split rfind rfind_char
    paragraph_break ends_sentence continuation_suffix is_whitespace starts_with
running = tt

abbrev tale : Text
tale = codes "Жил кот. Был дом и сад."

abbrev shaper : ReplyShaper
shaper = record { limit = 22 }

cut_at_sentence : preferred_split (codes "Жил кот. Бы") ≡ some 8
unfolding running
cut_at_sentence = refl

tale_in_pieces :
    split_into_chunks tale 10 ≡ codes "Жил кот." ∷ codes " Был дом" ∷ codes " и сад." ∷ []
unfolding running
tale_in_pieces = refl

room : HasRoom shaper
unfolding continuation_suffix
room = omega arith

preferred_split-IsPreferred_example :
    IsPreferred (codes "Жил кот. Бы") (preferred_split (codes "Жил кот. Бы"))
preferred_split-IsPreferred_example = preferred_split-IsPreferred (codes "Жил кот. Бы")

concat-split_into_chunks_example : concat (split_into_chunks tale 10) ≡ tale
concat-split_into_chunks_example = concat-split_into_chunks 10 (omega arith) tale

pieces_fit : All (λ c. length c ≤ 10) (split_into_chunks tale 10)
pieces_fit = split_into_chunks-le_limit 10 (omega arith) tale

split_into_chunks-Nonempty_example : All Nonempty (split_into_chunks tale 10)
split_into_chunks-Nonempty_example = split_into_chunks-Nonempty 10 (omega arith) tale (omega arith)

split-Says_example : Says shaper tale (split shaper tale)
split-Says_example = split-Says shaper room tale

split-le_limit_example : length (split shaper tale).spoken ≤ 22
split-le_limit_example = split-le_limit shaper room tale

some_left : (split shaper tale).remaining ≢ []
unfolding running
some_left e = cc

split-continue_example :
    split shaper (concat (split shaper tale).remaining) ≡ shape_chunks (split shaper tale).remaining
split-continue_example = split-continue shaper room tale some_left

-- what a run of the classifier computes through
unfoldable pub deciding : Unit {0}
unfolding from_utterance trim ends_utterance is_whitespace refusals text_eq
deciding = tt

decisions :
    (from_utterance lower (codes "Не надо!") ≡ stop)
    × (from_utterance lower (codes "ага") ≡ continue)
    × (from_utterance lower (codes "   ") ≡ empty)
unfolding deciding
decisions = (refl, refl, refl)

refusal_kept :
    from_utterance lower (codes " " ++ codes "Не над" ++ b'o' ∷ codes " !")
    ≡ (if one_of refusals (lower (codes "Не над" ++ b'o' ∷ [])) then stop else continue)
unfolding deciding
refusal_kept =
    from_utterance-core (codes " ") (codes "Не над") (codes " !") b'o' lower (refl, tt) refl refl
      (refl, (refl, tt)) refl

marks_are_no_answer : from_utterance lower (codes " ?! ") ≡ empty
unfolding deciding
marks_are_no_answer =
    from_utterance-blank lower (codes " ?! ") refl (refl, (refl, (refl, (refl, tt))))
