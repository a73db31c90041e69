-- ===== src/PendingAnswers/Trace.antt =====
-- The life of a deferred answer.
use alice_llm_bridge.Base.{
  ℕ, ◌+◌, ◌≤◌, ltb, if◌then◌else◌, ◌≡◌, ◌≢◌, refl, none, some, arith, Bool-cases, List, inl, inr,
}
use alice_llm_bridge.Base.Text.{Text, text_eq_iff, text_eq_refl}
use alice_llm_bridge.Base.Dict.{get, insert, remove, get-insert, get-remove, text_key}
use alice_llm_bridge.PendingAnswers.{
  thinking_ttl, thinking, ready, Poll, still_thinking, answer, Answers, mark_thinking, complete,
  clear, poll,
}

module _ {V : Type 0} (key : Text) where
  get_own : (v : V) (m : List (Text × V)) → get key (insert key v m) ≡ some v
  get_own v m = rw get-insert (rw (text_eq_refl key) refl)

  get_removed : (m : List (Text × V)) → get key (remove key m) ≡ none
  get_removed m = rw get-remove (rw (text_eq_refl key) refl)

  get_other :
      (v : V) (m : List (Text × V)) (other : Text)
      → other ≢ key
      → get other (insert key v m) ≡ get other m
  get_other v m other ne = rw get-insert (ground (arith, text_eq_iff key other))

-- a mark of its age, at a poll
poll_mark :
    (key : Text) (since now : ℕ) (inner : Answers)
    → since ≤ now
    → poll now key (mark_thinking since key inner) ≡ (
        if ltb (since + thinking_ttl) now
        then (Poll.none, remove key (mark_thinking since key inner))
        else (still_thinking, mark_thinking since key inner))
unfolding poll mark_thinking
poll_mark key since now inner le = rw (get_own key (thinking since) inner) (ground arith)

-- By a clock that does not run back: an answer that completes after the mark is given once, and
-- then nothing is left. Until it completes, polls up to 120 seconds after the mark hear that it is
-- on its way, and the first later poll drops the mark, so that an answer that completes after it
-- is lost; clearing drops it too. The polls of another key are not touched by a mark and its
-- answer.
pub mark_thinking-poll :
    (key text : Text) (since now later : ℕ) (inner : Answers)
    → since ≤ now
    → let marked = mark_thinking since key inner in
      let given = poll now key (complete key text marked) in
      let early = poll now key marked in
      (given.0 ≡ answer text)
      × ((poll later key given.1).0 ≡ Poll.none)
      × (early.0 ≡ (if ltb (since + thinking_ttl) now then Poll.none else still_thinking))
      × ((poll later key (complete key text early.1)).0
          ≡ (if ltb (since + thinking_ttl) now then Poll.none else answer text))
      × ((poll later key (complete key text (clear key marked))).0 ≡ Poll.none)
      × ((other : Text)
          → other ≢ key
          → (poll now other (complete key text marked)).0 ≡ (poll now other inner).0)
unfolding mark_thinking complete clear poll
mark_thinking-poll key text since now later inner le =
    let own = get_own key (thinking since) inner in
    let completed = get_own key (ready text) (insert key (thinking since) inner) in
    (
      rw own (rw completed refl),
      rw own (rw completed (rw (get_removed key) refl)),
      rw (poll_mark key since now inner le) (ground arith),
      rw (poll_mark key since now inner le) (elim (Bool-cases (ltb (since + thinking_ttl) now)) [
        | inl late ↦ rw late (rw (get_removed key) (rw (get_removed key) refl))
        | inr soon ↦ rw soon (rw own (rw completed refl))
      ]),
      rw (get_removed key) (rw (get_removed key) refl),
      λ other ne. rw own (
          ground (
            arith,
            get_other key (ready text) (insert key (thinking since) inner) other ne,
            get_other key (thinking since) inner other ne,
          )),
    )
