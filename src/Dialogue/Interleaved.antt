-- ===== src/Dialogue/Interleaved.antt =====
-- How far a summary has come, while other tasks record more, and what holds of it by then.
use alice_llm_bridge.Base.{
  ℕ, ◌<◌, ltb, false, ℤ, ◌≡◌, ◌≢◌, inl, inr, sym, ap, ◌∙◌, arith, Bool-cases, Option, none, List,
  [], ◌++◌, map, length, append-nil, append_assoc,
}
use alice_llm_bridge.Base.Text.{Text}
use alice_llm_bridge.Conversation.{Row, StoredMessage, Summary}
use alice_llm_bridge.Conversation.Ordered.{front}
use alice_llm_bridge.Llm
use alice_llm_bridge.Llm.{ChatResult, ChatCompletion}
use alice_llm_bridge.Dialogue.{StoreResult, ok, err, ConversationStore, Floats, Engine}
use alice_llm_bridge.Dialogue.Handle.{W, or_default}
use alice_llm_bridge.Dialogue.Promises.{
  History, newer, numbered, Reads, Outcome, succeeded, failed, Memory, KeepsHistory, Summarized,
}
use alice_llm_bridge.Dialogue.Summaries.{
  last_id, Progress, loading, reading, compressing, storing, done, keep_last, on_unsummarized,
  on_previous, on_compressed, summarize,
}

-- What other tasks do to the messages: they add some.
pub data Grows (h h' : History) : Type 0 where
  grown : (new : List Row) → h'.rows ≡ h.rows ++ new → Grows h h'

Grows-refl : (h h' : History) → h'.rows ≡ h.rows → Grows h h'
Grows-refl h h' e = grown [] (e ∙ sym (append-nil h.rows))

Grows-trans : (h h' h'' : History) → Grows h h' → Grows h' h'' → Grows h h''
Grows-trans h h' h'' (grown new e) (grown more f) =
    grown (new ++ more) (f ∙ ap (λ l. l ++ more) e ∙ append_assoc h.rows new more)

module _ (fl : Floats) (store : ConversationStore) {P : Type 0} (engine : Engine fl.F P)
    (m : Memory store.State) (profile : Text) where
  abbrev pub seen : W fl store engine → History
  seen w = m.view w.store

  -- How far a summary has come that loaded its messages in the world `start`.
  pub data Reaches (start : W fl store engine) : Progress → W fl store engine → Type 0 where
    loaded :
        m.IsValid start.store
        → Reaches start
            (summarize fl store engine profile loading start).0
            (summarize fl store engine profile loading start).1
    step :
        {p : Progress} {w : W fl store engine}
        → Reaches start p w
        → Reaches start
            (summarize fl store engine profile p w).0
            (summarize fl store engine profile p w).1
    meanwhile :
        {p : Progress} {w w' : W fl store engine}
        → Reaches start p w
        → m.IsValid w'.store
        → Grows (seen w) (seen w')
        → Reaches start p w'

  abbrev pub keep : W fl store engine → ℕ
  keep start = keep_last fl store engine start

  -- the messages that the summary is to cover
  abbrev pub old_rows : W fl store engine → List Row
  old_rows start = front (keep start) (newer profile (seen start))

  abbrev pub Holds : W fl store engine → Progress → Type 0
  Holds start loading = ⊥
  Holds start (reading pending) = (pending ≡ map numbered (old_rows start)) × (old_rows start ≢ [])
  Holds start (compressing pending previous) =
      (pending ≡ map numbered (old_rows start)) × (old_rows start ≢ [])
  Holds start (storing s) =
      (s.covers_until_message_id ≡ last_id (map numbered (old_rows start))) × (old_rows start ≢ [])
  Holds start done = Unit

  pub record Reached (start : W fl store engine) (p : Progress) (w : W fl store engine)
      : Type 0 where
    pub valid : m.IsValid w.store
    pub before : m.IsValid start.store
    pub grows : Grows (seen start) (seen w)
    pub holds : Holds start p

  module _ (keeps : KeepsHistory store m) (start : W fl store engine)
      (window : 0 < keep start) where
    too_few :
        (pending : List (ℤ × StoredMessage))
        → pending ≡ map numbered (old_rows start)
        → old_rows start ≡ []
        → ltb (length pending) (keep start) ≡ false
        → ⊥
    too_few pending read empty many =
        let e : length pending ≡ 0 = ap length (read ∙ ap (map numbered) empty) in
        ground (arith, e, many, window)

    on_loaded :
        {Reason : Type 0} (r : StoreResult (List (ℤ × StoredMessage))) (s : store.State)
        → m.IsValid start.store
        → m.IsValid s
        → Outcome
            (Reads (map numbered (old_rows start)) (seen start))
            Reason
            (seen start)
            r
            (m.view s)
        → let x = on_unsummarized fl store engine (keep start) (r, record start { store = s }) in
          Reached start x.0 x.1
    on_loaded (err log) s before valid (failed why same) = record {
      valid = valid;
      before = before;
      grows = Grows-refl _ _ (ap (λ h. h.rows) same);
      holds = tt;
    }
    on_loaded (ok pending) s before valid (succeeded (read, same)) =
        elim (Bool-cases (ltb (length pending) (keep start))) [
          | inl few ↦ rw few (record {
            valid = valid;
            before = before;
            grows = Grows-refl _ _ (ap (λ h. h.rows) same);
            holds = tt;
          })
          | inr many ↦ rw many (record {
            valid = valid;
            before = before;
            grows = Grows-refl _ _ (ap (λ h. h.rows) same);
            holds = (read, λ empty. too_few pending read empty many);
          })
        ]

    -- a store call of a step that leaves the messages
    moved :
        {p p' : Progress} {w : W fl store engine} (s : store.State)
        → Reached start p w
        → m.IsValid s
        → (m.view s).rows ≡ (seen w).rows
        → Holds start p'
        → Reached start p' (record w { store = s })
    moved s r valid same holds = record {
      valid = valid;
      before = r.before;
      grows = Grows-trans _ _ _ r.grows (Grows-refl _ _ same);
      holds = holds;
    }

    on_read :
        {Reason : Type 0} {w : W fl store engine} (pending : List (ℤ × StoredMessage))
        (r : StoreResult (Option Summary)) (s : store.State)
        → Reached start (reading pending) w
        → m.IsValid s
        → Outcome (Reads ((seen w).summary profile) (seen w)) Reason (seen w) r (m.view s)
        → let x =
            on_previous fl store engine pending
              (or_default fl store engine none (r, record w { store = s })) in
          Reached start x.0 x.1
    on_read pending (err log) s r valid (failed why same) =
        moved s r valid (ap (λ h. h.rows) same) r.holds
    on_read pending (ok previous) s r valid (succeeded (read, same)) =
        moved s r valid (ap (λ h. h.rows) same) r.holds

    on_chat :
        {w : W fl store engine} (pending : List (ℤ × StoredMessage)) (previous : Text)
        (r : ChatResult ChatCompletion) (outside : P)
        → Reached start (compressing pending previous) w
        → let x = on_compressed fl store engine pending (r, record w { outside = outside }) in
          Reached start x.0 x.1
    on_chat pending previous (Llm.err e) outside r = record {
      valid = r.valid;
      before = r.before;
      grows = r.grows;
      holds = tt;
    }
    on_chat pending previous (Llm.ok completion) outside r = record {
      valid = r.valid;
      before = r.before;
      grows = r.grows;
      holds = (ap last_id r.holds.0, r.holds.1);
    }

    stored_rows :
        {Reason : Type 0} {h h' : History} {s : Summary} {r : StoreResult (Unit {0})}
        → Outcome (λ _. Summarized profile s h) Reason h r h'
        → h'.rows ≡ h.rows
    stored_rows (failed why same) = ap (λ h. h.rows) same
    stored_rows (succeeded e) = e.rows

    stepped :
        (p : Progress) (w : W fl store engine)
        → Reached start p w
        → Reached start
            (summarize fl store engine profile p w).0
            (summarize fl store engine profile p w).1
    unfolding summarize
    stepped loading w r = absurd (r.holds)
    stepped (reading pending) w r =
        let (valid, outcome) = keeps.summary w.store profile r.valid in
        on_read pending _ _ r valid outcome
    stepped (compressing pending previous) w r = on_chat pending previous _ _ r
    stepped (storing s) w r =
        let (valid, outcome) = keeps.upsert_summary w.store profile s r.valid in
        moved _ r valid (stored_rows outcome) tt
    stepped done w r = r

    pub Reaches-Reached :
        {p : Progress} {w : W fl store engine} → Reaches start p w → Reached start p w
    unfolding summarize
    Reaches-Reached (loaded before) =
        let (valid, outcome) = keeps.unsummarized start.store profile (keep start) before in
        on_loaded _ _ before valid outcome
    Reaches-Reached (step r) = stepped _ _ (Reaches-Reached r)
    Reaches-Reached (meanwhile r valid grows) =
        let before = Reaches-Reached r in
        record {
          valid = valid;
          before = before.before;
          grows = Grows-trans _ _ _ before.grows grows;
          holds = before.holds;
        }
