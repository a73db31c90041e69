-- ===== src/Dialogue/Deferred.antt =====
-- A reply that comes after its request has gone.
use alice_llm_bridge.Base.{ℕ, ◌+◌, ◌≤◌, ◌≡◌, ◌≢◌, refl, some, none, arith}
use alice_llm_bridge.Base.Text.{Text, text_eq_refl, text_eq_iff}
use alice_llm_bridge.Base.Dict.{get, insert, remove, get-insert, get-remove, text_key}
use alice_llm_bridge.PendingAnswers.{
  thinking_ttl, thinking, ready, still_thinking, answer, Answers, poll, complete,
}
use alice_llm_bridge.Dialogue.{ConversationStore, Floats, Engine, dropped}
use alice_llm_bridge.Dialogue.Phrases.{phrase_still_thinking}
use alice_llm_bridge.Dialogue.Handle.{W, says, handle}
use alice_llm_bridge.Dialogue.Background.{T, send}

complete-eq :
    (key text : Text) (since : ℕ) (inner : Answers)
    → get key inner ≡ some (thinking since)
    → complete key text inner ≡ insert key (ready text) inner
unfolding complete
complete-eq key text since inner e = rw e refl

poll-ready :
    (now : ℕ) (key text : Text) (inner : Answers)
    → get key inner ≡ some (ready text)
    → poll now key inner ≡ (answer text, remove key inner)
unfolding poll
poll-ready now key text inner e = rw e refl

poll-thinking :
    (now since : ℕ) (key : Text) (inner : Answers)
    → get key inner ≡ some (thinking since)
    → now ≤ since + thinking_ttl
    → poll now key inner ≡ (still_thinking, inner)
unfolding poll
poll-thinking now since key inner e le = rw e (ground arith)

get-insert_self :
    (key : Text) (text : Text) (inner : Answers)
    → get key (insert key (ready text) inner) ≡ some (ready text)
get-insert_self key text inner = rw get-insert (rw (text_eq_refl key) refl)

-- A reply that comes when its request has gone, for a user whose mark still stands: before, for
-- 120 seconds from the mark, whatever the user says is answered by the phrase that says so, and
-- nothing changes. Once the reply is there, the user's next utterance, whatever it says and
-- however late it comes, is answered by the reply; the entry is cleared, and nothing else changes,
-- nor the entry of another user.
pub send-handle :
    (fl : Floats) (store : ConversationStore) {P : Type 0} (engine : Engine fl.F P)
    (task : T fl store engine) (reply utterance : Text) (w : W fl store engine)
    (since early late : ℕ) (other : Text)
    → task.receiver ≡ dropped
    → get task.key w.pending ≡ some (thinking since)
    → early ≤ since + thinking_ttl
    → other ≢ task.key
    → let sent = (send fl store engine task reply w).1 in
      let cleared = remove task.key (insert task.key (ready reply) w.pending) in
      (handle fl store engine early task.key utterance w ≡ (says phrase_still_thinking, w))
      × (handle fl store engine late task.key utterance sent
          ≡ (says reply, record w { pending = cleared }))
      × (get task.key cleared ≡ none)
      × (get other cleared ≡ get other w.pending)
unfolding send handle
send-handle fl store engine task reply utterance w since early late other d m le ne =
    let own = get-insert_self task.key reply w.pending in
    (
      rw (poll-thinking early since task.key w.pending m le) refl,
      rw (d, complete-eq task.key reply since w.pending m)
          (rw (poll-ready late task.key reply (insert task.key (ready reply) w.pending) own) refl),
      rw get-remove (rw (text_eq_refl task.key) refl),
      rw get-remove (
          ground
            (arith, text_eq_iff task.key other, get-insert task.key other (ready reply) w.pending)),
    )
