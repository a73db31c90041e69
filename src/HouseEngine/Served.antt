-- ===== src/HouseEngine/Served.antt =====
-- What the calls of the engine return over a store that keeps the promises of `KeepsSlots`.
use alice_llm_bridge.Base.{true, ◌≡◌, refl, ◌∙◌, Option, some, List, concat, All}
use alice_llm_bridge.Base.Text.{Text}
use alice_llm_bridge.Base.Utf8.{IsText}
use alice_llm_bridge.Base.Dict.{Slot, slot_eq, slot_eq_iff}
use alice_llm_bridge.Reply.{split, from_utterance, continue}
use alice_llm_bridge.Household.{
  SurfaceIdentity, HouseContext, PendingReply, Result, HouseholdStore, HouseRuntime,
}
use alice_llm_bridge.Household.Slots.{View, Effect, slot_of, KeepsSlots}
use alice_llm_bridge.HouseEngine.{
  HouseholdEngine, HouseholdInput, say, reply, next, W, resolve, shape_and_save,
  answer_continuation, on_continuation, admit,
}

slot_eq_refl : (j : Slot) → slot_eq j j ≡ true
slot_eq_refl j = (slot_eq_iff j j).1 refl

module _ (store : HouseholdStore) (runtime : HouseRuntime) (engine : HouseholdEngine)
    (view : View store.State) (ks : KeepsSlots store view) where
  pub resolve-eq :
      (i : SurfaceIdentity) (house : HouseContext) (w : W store runtime engine)
      → view.house_of w.store i ≡ some house
      → resolve store runtime engine i w ≡ (next house, w)
  unfolding resolve
  resolve-eq i house w e = rw (ks.resolve w.store i house e) refl

  -- The call's effect on its own slot.
  module _ {A : Type 0} {s : store.State} {j : Slot} {x : Result A × store.State} {a : A}
      {p : PendingReply} {k : Option (List Text)} (effect : Effect view s j x a p k) where
    pub own_kept : view.kept x.1 j ≡ k
    own_kept = effect.kept j ∙ rw (slot_eq_refl j) refl

    pub own_pending : view.pending x.1 j ≡ p
    own_pending = effect.pending j ∙ rw (slot_eq_refl j) refl

  abbrev pub after_save : HouseContext → SurfaceIdentity → List Text → store.State → store.State
  after_save house i chunks s = (store.save_continuation house.id i.application_id chunks s).1

  pub shape_and_save-eq :
      (house : HouseContext) (i : SurfaceIdentity) (text : Text) (w : W store runtime engine)
      → view.serves w.store (slot_of house i)
      → All IsText (split engine.shaper text).remaining
      → shape_and_save store runtime engine house.id i.application_id text w ≡ (
        next (say (split engine.shaper text).spoken),
        record w { store = after_save house i (split engine.shaper text).remaining w.store },
      )
  unfolding shape_and_save
  shape_and_save-eq house i text w h valid =
      rw
        (ks.save_continuation w.store (slot_of house i) (split engine.shaper text).remaining h
          valid).returns
        refl

  abbrev pub after_take : HouseContext → SurfaceIdentity → store.State → store.State
  after_take house i s = (store.take_continuation house.id i.application_id s).1

  -- A request that goes on is answered from the kept chunks.
  pub admit_continue :
      (input : HouseholdInput) (house : HouseContext) (chunks : List Text)
      (w : W store runtime engine)
      → view.house_of w.store input.identity ≡ some house
      → view.kept w.store (slot_of house input.identity) ≡ some chunks
      → from_utterance engine.to_lowercase input.utterance ≡ continue
      → All IsText (split engine.shaper (concat chunks)).remaining
      → admit store runtime engine input w ≡ (
        reply (say (split engine.shaper (concat chunks)).spoken),
        record w {
          store =
              after_save house input.identity
                (split engine.shaper (concat chunks)).remaining
                (after_take house input.identity w.store);
        },
      )
  unfolding admit on_continuation answer_continuation
  admit_continue input house chunks w e k c valid =
      let j = slot_of house input.identity in
      let serves = ks.bound_serves w.store input.identity house e in
      let take = ks.take_continuation w.store j serves in
      rw (resolve-eq input.identity house w e) (
        rw (take.returns) (
          rw k (
            rw c (
              rw
                (shape_and_save-eq house input.identity (concat chunks)
                  (record w { store = after_take house input.identity w.store })
                  (take.serves j serves) valid)
                refl))))
