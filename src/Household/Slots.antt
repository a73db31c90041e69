-- ===== src/Household/Slots.antt =====
-- What a `HouseholdStore` promises its client: each surface of a house has a slot for a pending
-- reply and one for kept chunks, and the operations read and write the slot of their arguments.
use alice_llm_bridge.Base.{◌≡◌, if◌then◌else◌, Option, none, some, List, is_empty, All}
use alice_llm_bridge.Base.Text.{Text}
use alice_llm_bridge.Base.Utf8.{IsText}
use alice_llm_bridge.Base.Dict.{Slot, slot_eq}
use alice_llm_bridge.Household.{
  SurfaceIdentity, HouseContext, bound, PendingReply, thinking, ready, Result, ok, HouseholdStore,
}

-- The state of a store as its client sees it. `serves` says that calls for a slot succeed.
pub record View (S : Type 0) : Type 1 where
  pub house_of : S → SurfaceIdentity → Option HouseContext
  pub serves : S → Slot → Type 0
  pub pending : S → Slot → PendingReply
  pub kept : S → Slot → Option (List Text)

-- The call succeeds with `result`, sets the slot's contents, and changes nothing else in the view.
pub record Effect {S A : Type 0} (v : View S) (s : S) (slot : Slot) (x : Result A × S) (result : A)
    (p : PendingReply) (k : Option (List Text)) : Type 0 where
  pub returns : x.0 ≡ ok result
  pub pending : (j : Slot) → v.pending x.1 j ≡ (if slot_eq slot j then p else v.pending s j)
  pub kept : (j : Slot) → v.kept x.1 j ≡ (if slot_eq slot j then k else v.kept s j)
  pub serves : (j : Slot) → v.serves s j → v.serves x.1 j
  pub house_of : (i : SurfaceIdentity) → v.house_of x.1 i ≡ v.house_of s i

abbrev pub slot_of : HouseContext → SurfaceIdentity → Slot
slot_of house identity = record { house_id = house.id; application_id = identity.application_id }

pub record KeepsSlots (store : HouseholdStore) (view : View store.State) : Type 0 where
  pub resolve :
      (s : store.State) (i : SurfaceIdentity) (house : HouseContext)
      → view.house_of s i ≡ some house
      → store.resolve_surface i s ≡ (ok (bound house), s)
  pub bound_serves :
      (s : store.State) (i : SurfaceIdentity) (house : HouseContext)
      → view.house_of s i ≡ some house
      → view.serves s (slot_of house i)
  pub poll_pending :
      (s : store.State) (j : Slot)
      → view.serves s j
      → Effect view s j
          (store.poll_pending j.house_id j.application_id s)
          (view.pending s j)
          (view.pending s j)
          (view.kept s j)
  pub mark_thinking :
      (s : store.State) (j : Slot)
      → view.serves s j
      → Effect view s j
          (store.mark_thinking j.house_id j.application_id s)
          tt
          thinking
          (view.kept s j)
  pub save_ready :
      (s : store.State) (j : Slot) (text : Text)
      → view.serves s j
      → IsText text
      → Effect view s j
          (store.save_ready j.house_id j.application_id text s)
          tt
          (ready text)
          (view.kept s j)
  pub clear_pending :
      (s : store.State) (j : Slot)
      → view.serves s j
      → Effect view s j
          (store.clear_pending j.house_id j.application_id s)
          tt
          PendingReply.none
          (view.kept s j)
  pub take_continuation :
      (s : store.State) (j : Slot)
      → view.serves s j
      → Effect view s j
          (store.take_continuation j.house_id j.application_id s)
          (view.kept s j)
          (view.pending s j)
          none
  pub save_continuation :
      (s : store.State) (j : Slot) (chunks : List Text)
      → view.serves s j
      → All IsText chunks
      → Effect view s j
          (store.save_continuation j.house_id j.application_id chunks s)
          tt
          (view.pending s j)
          (if is_empty chunks then none else some chunks)
  pub clear_continuation :
      (s : store.State) (j : Slot)
      → view.serves s j
      → Effect view s j
          (store.clear_continuation j.house_id j.application_id s)
          tt
          (view.pending s j)
          none
