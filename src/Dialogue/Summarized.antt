-- ===== src/Dialogue/Summarized.antt =====
-- What a summary is made of and what it covers, whatever the other tasks record meanwhile.
use alice_llm_bridge.Base.{
  suc, ◌<◌, ◌≤◌, ltb, ℤ, ◌≡◌, refl, ap, ◌∙◌, subst, arith, ◌⊎◌, inl, inr, Bool-cases, Option, none,
  some, List, [], ◌∷◌, ◌++◌, map, concat, length,
}
use alice_llm_bridge.Base.Text.{Text, codes}
use alice_llm_bridge.Conversation.{
  MessageRole, user, assistant, Row, StoredMessage, Summary, filter,
}
use alice_llm_bridge.Conversation.Ordered.{last}
use alice_llm_bridge.Llm
use alice_llm_bridge.Llm.{
  Role, chat_message, ChatRequest, ChatCompletion, ChatResult, ProviderError,
}
use alice_llm_bridge.Dialogue.{StoreResult, ok, err, ConversationStore, Floats, Engine}
use alice_llm_bridge.Dialogue.Handle.{W, or_default}
use alice_llm_bridge.Dialogue.Background.{outside}
use alice_llm_bridge.Dialogue.Promises.{
  History, own, newer, numbered, Reads, Outcome, succeeded, failed, Memory, KeepsHistory,
  Summarized,
}
use alice_llm_bridge.Dialogue.Summaries.{
  transcript_line, instruction, Progress, loading, reading, compressing, storing, done, keep_last,
  summary_request, on_unsummarized, on_previous, on_compressed, summarize,
}
use alice_llm_bridge.Dialogue.Covering.{newer-Summarized}
use alice_llm_bridge.Dialogue.Interleaved.{
  Grows, grown, Reaches, Reached, Reaches-Reached, seen, old_rows, keep,
}

-- A message as the model is told it, and what it is asked for them.
abbrev pub told : Row → Text
told r = elim r.role [
  | user ↦ codes "Пользователь: " ++ (r.content ++ codes "\n")
  | assistant ↦ codes "Ассистент: " ++ (r.content ++ codes "\n")
]

abbrev pub asks : Text → List Row → Text
asks previous rows =
    codes
      "Сожми диалог в краткое резюме из трёх-пяти предложений. Сохрани важные факты о собеседнике и темы разговора.\nТекущее резюме: "
    ++ (previous ++ (codes "\nНовые реплики:\n" ++ concat (map told rows)))

abbrev pub content : Option Summary → Text
content none = []
content (some s) = s.content

transcript-told :
    (rows : List Row) → concat (map transcript_line (map numbered rows)) ≡ concat (map told rows)
transcript-told [] = refl
transcript-told (r ∷ rows) = elim (role-cases r.role) [
  | inl e ↦ rw (e, transcript-told rows) refl
  | inr e ↦ rw (e, transcript-told rows) refl
]
  where
    role-cases : (role : MessageRole) → (role ≡ user) ⊎ (role ≡ assistant)
    role-cases user = inl refl
    role-cases assistant = inr refl

length-numbered : (rows : List Row) → length (map numbered rows) ≡ length rows
length-numbered [] = refl
length-numbered (r ∷ rows) = ap suc (length-numbered rows)

module _ (fl : Floats) (store : ConversationStore) {P : Type 0} (engine : Engine fl.F P)
    (m : Memory store.State) (profile : Text) where
  abbrev history : W fl store engine → History
  history = seen fl store engine m profile

  abbrev old : W fl store engine → List Row
  old = old_rows fl store engine m profile

  abbrev pub next : Progress → W fl store engine → Progress × W fl store engine
  next = summarize fl store engine profile

  -- It begins with the messages that no summary covers but those of the window, or ends where the
  -- store fails or there are fewer than the window.
  abbrev pub Begins : W fl store engine → Progress → Type 0
  Begins start p =
      ((p ≡ reading (map numbered (old start)))
        × (keep_last fl store engine start ≤ length (old start)))
      ⊎ ((p ≡ done)
          × (m.IsDown start.store ⊎ (length (old start) < keep_last fl store engine start)))

  -- the next await reads the summary of before, or takes none where the store fails
  pub record Rereads (pending : List (ℤ × StoredMessage)) (w : W fl store engine)
      (x : Progress × W fl store engine) : Type 0 where
    pub previous : Text
    pub goes_on : x.0 ≡ compressing pending previous
    pub same : history x.1 ≡ history w
    pub reads :
        (previous ≡ content ((history w).summary profile)) ⊎ (m.IsDown w.store × (previous ≡ []))

  abbrev pub request_for : Text → List Row → ChatRequest fl.F
  request_for previous rows = record {
    model = engine.models.fast.model;
    messages = chat_message Role.system (asks previous rows) ∷ [];
    max_tokens = 250;
    temperature = fl.tenths 3;
  }

  -- the answer becomes the summary; an error ends the task
  pub data Takes : ChatResult ChatCompletion → Progress → Type 0 where
    taken :
        {completion : ChatCompletion} (s : Summary)
        → s.content ≡ completion.text
        → Takes (Llm.ok completion) (storing s)
    failing : {e : ProviderError} → Takes (Llm.err e) done

  -- The store failed and kept what it had; or it has this summary now, and what is not covered are
  -- the last messages of before and the ones of the profile that came since.
  abbrev pub Leaves : W fl store engine → W fl store engine → Summary → History → Type 0
  Leaves start w s after =
      (m.IsDown w.store × (after ≡ history w))
      ⊎ ((new : List Row) × ((history w).rows ≡ (history start).rows ++ new)
          × Summarized profile s (history w) after
          × (newer profile after
              ≡ last (keep fl store engine m profile start) (newer profile (history start))
                ++ filter (own profile) new))

  -- What is known at each await, and what the await then does.
  abbrev pub Covers : W fl store engine → Progress → W fl store engine → Type 0
  Covers start loading w = ⊥
  Covers start (reading pending) w =
      (pending ≡ map numbered (old start)) × Rereads pending w (next (reading pending) w)
  Covers start (compressing pending previous) w =
      let x = engine.models.fast.chat (request_for previous (old start)) w.outside in
      Takes x.0 (next (compressing pending previous) w).0
      × ((next (compressing pending previous) w).1 ≡ record w { outside = x.1 })
  Covers start (storing s) w =
      (next (storing s) w).0 ≡ done × Leaves start w s (history (next (storing s) w).1)
  Covers start done w = Unit

  module _ (keeps : KeepsHistory store m) (start : W fl store engine) where
    begun :
        (r : StoreResult (List (ℤ × StoredMessage))) (s : store.State)
        → Outcome
            (Reads (map numbered (old start)) (history start))
            (m.IsDown start.store)
            (history start)
            r
            (m.view s)
        → Begins start
            (on_unsummarized fl store engine
              (keep_last fl store engine start)
              (r, record start { store = s })).0
    begun (err log) s (failed why same) = inr (refl, inl why)
    begun (ok pending) s (succeeded (read, same)) =
        let many : length pending ≡ length (old start) =
          ap length read ∙ length-numbered (old start) in
        elim (Bool-cases (ltb (length pending) (keep_last fl store engine start))) [
          | inl few ↦ rw few (inr (refl, inr (ground (arith, many, few))))
          | inr enough ↦ rw enough (inl (ap reading read, ground (arith, many, enough)))
        ]

    reread :
        (pending : List (ℤ × StoredMessage)) (w : W fl store engine)
        (r : StoreResult (Option Summary)) (s : store.State)
        → Outcome
            (Reads ((history w).summary profile) (history w))
            (m.IsDown w.store)
            (history w)
            r
            (m.view s)
        → Rereads pending w (
            on_previous fl store engine pending
              (or_default fl store engine none (r, record w { store = s })))
    reread pending w (err log) s (failed why same) = record {
      previous = [];
      goes_on = refl;
      same = same;
      reads = inr (why, refl);
    }
    reread pending w (ok none) s (succeeded (read, same)) = record {
      previous = [];
      goes_on = refl;
      same = same;
      reads = inl (ap content read);
    }
    reread pending w (ok (some previous)) s (succeeded (read, same)) = record {
      previous = previous.content;
      goes_on = refl;
      same = same;
      reads = inl (ap content read);
    }

    takes :
        (pending : List (ℤ × StoredMessage)) (w : W fl store engine)
        (x : ChatResult ChatCompletion × P)
        → Takes x.0 (on_compressed fl store engine pending (outside fl store engine w x)).0
          × ((on_compressed fl store engine pending (outside fl store engine w x)).1
              ≡ record w { outside = x.1 })
    takes pending w (Llm.ok completion, p) = (taken _ refl, refl)
    takes pending w (Llm.err e, p) = (failing, refl)

    asked :
        (pending : List (ℤ × StoredMessage)) (previous : Text)
        → pending ≡ map numbered (old start)
        → summary_request fl store engine previous pending ≡ request_for previous (old start)
    asked pending previous e =
        ap (summary_request fl store engine previous) e
        ∙ ap
            (λ transcript. record {
              model = engine.models.fast.model;
              messages = chat_message Role.system (instruction previous transcript) ∷ [];
              max_tokens = 250;
              temperature = fl.tenths 3;
            })
            (transcript-told (old start))

    on_stored_cover :
        {w : W fl store engine} {h : History} {s : Summary} {r : StoreResult (Unit {0})}
        → Reached fl store engine m profile start (storing s) w
        → Outcome (λ _. Summarized profile s (history w)) (m.IsDown w.store) (history w) r h
        → Leaves start w s h
    on_stored_cover r (failed why same) = inl (why, same)
    on_stored_cover {w} {h} {s} r (succeeded e) = grew r.grows
      where
        grew : Grows (history start) (history w) → Leaves start w s h
        grew (grown new rows) = inr (
          new,
          rows,
          e,
          newer-Summarized profile (history start) (keep fl store engine m profile start)
              (m.newest start.store) (keeps.ordered start.store r.before) s new (history w) h
              (m.newest w.store) r.holds.1 r.holds.0 rows (keeps.ordered w.store r.valid) e,
        )

    Reached-Covers :
        (p : Progress) (w : W fl store engine)
        → Reached fl store engine m profile start p w
        → Covers start p w
    unfolding summarize
    Reached-Covers loading w r = absurd r.holds
    Reached-Covers (reading pending) w r =
        (r.holds.0, reread pending w _ _ (keeps.summary w.store profile r.valid).1)
    Reached-Covers (compressing pending previous) w r =
        subst
          (λ request.
            let x = engine.models.fast.chat request w.outside in
            Takes x.0 (next (compressing pending previous) w).0
            × ((next (compressing pending previous) w).1 ≡ record w { outside = x.1 }))
          (asked pending previous r.holds.0) (takes pending w _)
    Reached-Covers (storing s) w r =
        (refl, on_stored_cover r (keeps.upsert_summary w.store profile s r.valid).1)
    Reached-Covers done w r = tt

    began : m.IsValid start.store → Begins start (next loading start).0
    unfolding summarize
    began valid = begun _ _ (keeps.unsummarized start.store profile _ valid).1

  -- Over a store that keeps its promises and with a window, however the awaits of a summary
  -- interleave with tasks that record more: it begins with the messages that the summary of before
  -- did not cover, without the last of the window, or ends where the store fails or there are fewer
  -- of them than the window. The model is asked to compress exactly these messages, in their words,
  -- with the summary that was read, or with none where that read failed. Its answer is stored as
  -- the summary; what no summary covers are then those last messages and the ones of the profile
  -- that came since, unless the store failed and all is as before. An error of the model ends it.
  pub Reaches-Covers :
      (start w : W fl store engine) (p : Progress)
      → KeepsHistory store m
      → 0 < keep_last fl store engine start
      → Reaches fl store engine m profile start p w
      → Begins start (next loading start).0 × Covers start p w
  Reaches-Covers start w p keeps window r =
      let there = Reaches-Reached fl store engine m profile keeps start window r in
      (began keeps start there.before, Reached-Covers keeps start p w there)
