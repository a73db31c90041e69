-- ===== src/HouseEngine/Late.antt =====
-- An answer that missed its deadline: it waits in the slot of the surface that asked.
use alice_llm_bridge.Base.{
  if◌then◌else◌, ◌≡◌, refl, ◌∙◌, subst, Option, none, some, List, arith, is_empty,
}
use alice_llm_bridge.Base.Text.{Text}
use alice_llm_bridge.Base.Utf8.{IsText}
use alice_llm_bridge.Base.Dict.{Slot, slot_eq}
use alice_llm_bridge.Reply.{split}
use alice_llm_bridge.Reply.Shaper.{HasRoom}
use alice_llm_bridge.Reply.Valid.{split-IsText}
use alice_llm_bridge.Household.{
  HouseContext, PendingReply, thinking, ready, Result, HouseholdStore, HouseRuntime,
}
use alice_llm_bridge.Household.Slots.{View, Effect, slot_of, KeepsSlots}
use alice_llm_bridge.HouseEngine.{
  HouseholdEngine, HouseholdInput, HouseholdReply, say, reply, Work, W, on_continuation, on_pending,
  admit, save_late, still_thinking,
}
use alice_llm_bridge.HouseEngine.Served.{resolve-eq, own_kept, own_pending, shape_and_save-eq}

abbrev pub kept_or_none : List Text → Option (List Text)
kept_or_none chunks = if is_empty chunks then none else some chunks

module _ (store : HouseholdStore) (runtime : HouseRuntime) (engine : HouseholdEngine)
    (view : View store.State) (ks : KeepsSlots store view) where
  -- The request is answered at once with `r`, after which its slot holds `p` and `k`; no other slot
  -- has changed, and neither have the locks, the works or the server.
  pub record Answers (input : HouseholdInput) (house : HouseContext) (w : W store runtime engine)
      (r : HouseholdReply) (p : PendingReply) (k : Option (List Text)) : Type 0 where
    pub after : store.State
    pub answered : admit store runtime engine input w ≡ (reply r, record w { store = after })
    pub pending :
        (j : Slot)
        → view.pending after j
          ≡ (if slot_eq (slot_of house input.identity) j then p else view.pending w.store j)
    pub kept :
        (j : Slot)
        → view.kept after j
          ≡ (if slot_eq (slot_of house input.identity) j then k else view.kept w.store j)

  -- the effects of two calls on one slot, one after the other
  then_pending :
      {A B : Type 0} {s : store.State} {j : Slot} {x : Result A × store.State} {a : A}
      {y : Result B × store.State} {b : B} {p p' : PendingReply} {k k' : Option (List Text)}
      → Effect view s j x a p k
      → Effect view x.1 j y b p' k'
      → (i : Slot) → view.pending y.1 i ≡ (if slot_eq j i then p' else view.pending s i)
  then_pending {j} f g i = ground (arith, f.pending i, g.pending i)

  then_kept :
      {A B : Type 0} {s : store.State} {j : Slot} {x : Result A × store.State} {a : A}
      {y : Result B × store.State} {b : B} {p p' : PendingReply} {k k' : Option (List Text)}
      → Effect view s j x a p k
      → Effect view x.1 j y b p' k'
      → (i : Slot) → view.kept y.1 i ≡ (if slot_eq j i then k' else view.kept s i)
  then_kept {j} f g i = ground (arith, f.kept i, g.kept i)

  then_effect :
      {A B : Type 0} {s : store.State} {j : Slot} {x : Result A × store.State} {a : A}
      {y : Result B × store.State} {b : B} {p p' : PendingReply} {k k' : Option (List Text)}
      → Effect view s j x a p k
      → Effect view x.1 j y b p' k'
      → Effect view s j y b p' k'
  then_effect f g = record {
    returns = g.returns;
    pending = then_pending f g;
    kept = then_kept f g;
    serves = λ i h. g.serves i (f.serves i h);
    house_of = λ i. g.house_of i ∙ f.house_of i;
  }

  module _ (input : HouseholdInput) (house : HouseContext) (w : W store runtime engine)
      (known : view.house_of w.store input.identity ≡ some house)
      (nothing_kept : view.kept w.store (slot_of house input.identity) ≡ none) where
    abbrev j : Slot
    j = slot_of house input.identity

    serves : view.serves w.store j
    serves = ks.bound_serves w.store input.identity house known

    abbrev taken : store.State
    taken = (store.take_continuation house.id input.identity.application_id w.store).1

    take_effect :
        Effect view w.store j
          (store.take_continuation house.id input.identity.application_id w.store)
          (view.kept w.store j)
          (view.pending w.store j)
          none
    take_effect = ks.take_continuation w.store j serves

    abbrev polled : store.State
    polled = (store.poll_pending house.id input.identity.application_id taken).1

    poll_effect :
        Effect view taken j
          (store.poll_pending house.id input.identity.application_id taken)
          (view.pending taken j)
          (view.pending taken j)
          (view.kept taken j)
    poll_effect = ks.poll_pending taken j (take_effect.serves j serves)

    polled_pending : (p : PendingReply) → view.pending w.store j ≡ p → view.pending taken j ≡ p
    polled_pending p e = own_pending store runtime engine view ks take_effect ∙ e

    -- While the work runs, the surface hears that it does, and nothing changes in the slots.
    pub admit_thinking :
        view.pending w.store j ≡ thinking → Answers input house w (say still_thinking) thinking none
    unfolding admit on_continuation on_pending
    admit_thinking e =
        let both = then_effect take_effect poll_effect in
        record {
          after = polled;
          answered = rw (resolve-eq store runtime engine view ks input.identity house w known) (
              rw take_effect.returns
                (rw nothing_kept (rw poll_effect.returns (rw (polled_pending thinking e) refl))));
          pending = λ i.
              subst
                (λ p. view.pending polled i ≡ (if slot_eq j i then p else view.pending w.store i))
                (polled_pending thinking e) (both.pending i);
          kept = λ i.
              subst (λ k. view.kept polled i ≡ (if slot_eq j i then k else view.kept w.store i))
                (own_kept store runtime engine view ks take_effect) (both.kept i);
        }

    -- A reply that is ready is spoken and cleared, and what does not fit is kept.
    pub admit_ready :
        (text : Text)
        → HasRoom engine.shaper
        → IsText text
        → view.pending w.store j ≡ ready text
        → Answers input house w
            (say (split engine.shaper text).spoken)
            PendingReply.none
            (kept_or_none (split engine.shaper text).remaining)
    unfolding admit on_continuation on_pending
    admit_ready text room text_valid e =
        let valid = split-IsText engine.shaper text room text_valid in
        let remaining = (split engine.shaper text).remaining in
        let app = input.identity.application_id in
        let polled_effect = then_effect take_effect poll_effect in
        let save = ks.save_continuation polled j remaining (polled_effect.serves j serves) valid in
        let saved = (store.save_continuation house.id app remaining polled).1 in
        let saved_effect = then_effect polled_effect save in
        let clear = ks.clear_pending saved j (saved_effect.serves j serves) in
        let all = then_effect saved_effect clear in
        record {
          after = (store.clear_pending house.id app saved).1;
          answered = rw (resolve-eq store runtime engine view ks input.identity house w known) (
              rw take_effect.returns (
                rw nothing_kept (
                  rw poll_effect.returns (
                    rw (polled_pending (ready text) e) (
                      rw
                        (shape_and_save-eq store runtime engine view ks house input.identity text
                          (record w { store = polled }) (polled_effect.serves j serves) valid)
                        (rw clear.returns refl))))));
          pending = all.pending;
          kept = λ i.
              subst
                (λ k.
                  view.kept (store.clear_pending house.id app saved).1 i
                  ≡ (if slot_eq j i then k else view.kept w.store i))
                (own_kept store runtime engine view ks save) (all.kept i);
        }

-- Over a store that keeps its promises, for a valid text, a limit with room for the question and a
-- surface for which nothing is kept: a work that ends after its request has gone saves the answer
-- for the surface that asked. The next request of that surface, whatever it says, hears it and
-- clears it, and touches no other slot of any house, no lock, no work and not the server.
pub save_late-Answers :
    (store : HouseholdStore) (runtime : HouseRuntime) (engine : HouseholdEngine)
    (view : View store.State) (ks : KeepsSlots store view) (house : HouseContext) (work : Work)
    (text : Text) (input : HouseholdInput) (w : W store runtime engine)
    → HasRoom engine.shaper
    → IsText text
    → view.house_of w.store input.identity ≡ some house
    → work.house.id ≡ house.id
    → work.application_id ≡ input.identity.application_id
    → view.kept w.store (slot_of house input.identity) ≡ none
    → Answers store runtime engine view ks input house
        (save_late store runtime engine work (some text) w)
        (say (split engine.shaper text).spoken)
        PendingReply.none
        (kept_or_none (split engine.shaper text).remaining)
unfolding save_late
save_late-Answers store runtime engine view ks house work text input w room valid known same app
      nothing_kept =
    let j = slot_of house input.identity in
    let s' = (store.save_ready house.id input.identity.application_id text w.store).1 in
    let late =
      ks.save_ready w.store j text (ks.bound_serves w.store input.identity house known) valid in
    rw (same, app)
      (admit_ready store runtime engine view ks input house (record w { store = s' })
        (late.house_of input.identity ∙ known)
        (own_kept store runtime engine view ks late ∙ nothing_kept) text room valid
        (own_pending store runtime engine view ks late))
