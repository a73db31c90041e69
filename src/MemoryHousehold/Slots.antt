-- ===== src/MemoryHousehold/Slots.antt =====
-- The store in memory keeps the promises of a `HouseholdStore`.
use alice_llm_bridge.Base.{
  ◌&&◌, sym, ap, Bool, true, false, ◌≡◌, refl, if◌then◌else◌, Option, none, some, is_empty,
  Bool-cases, inl, inr, arith,
}
use alice_llm_bridge.Base.Text.{Text, text_eq, text_eq_iff}
use alice_llm_bridge.Base.Dict.{
  int_key, text_key, Slot, slot_eq, slot_eq_iff, slot_key, get, get-insert, get-remove,
}
use alice_llm_bridge.Household.{
  SurfaceIdentity, HouseContext, bound, PendingReply, thinking, ready, ok,
}
use alice_llm_bridge.Household.Slots.{View, KeepsSlots}
use alice_llm_bridge.MemoryHousehold.{
  HouseholdInner, member, is_some, resolve_owner, resolve_surface, poll_pending, mark_thinking,
  save_ready, clear_pending, take_continuation, save_continuation, clear_continuation, memory_store,
  pending_or_none,
}

-- The house of a surface, by the maps: the surface is known and belongs to the account that speaks,
-- which is a member of the house.
abbrev owned : HouseholdInner → Text → Option Slot → Option HouseContext
owned s user_id none = none
owned s user_id (some owner) =
    if text_eq owner.application_id user_id
      && is_some (get (member owner.house_id user_id) s.members)
    then get owner.house_id s.houses
    else none

abbrev pub house_in : HouseholdInner → SurfaceIdentity → Option HouseContext
house_in s i = owned s i.user_id (get i.application_id s.surfaces)

abbrev pub memory_view : View HouseholdInner
memory_view = record {
  house_of = house_in;
  serves = λ s j. Unit;
  pending = λ s j. pending_or_none (get j s.pending);
  kept = λ s j. get j s.continuations;
}

self-write {ℓ} : {A : Type ℓ} (f : Slot → A) (j k : Slot) → f k ≡ (if slot_eq j k then f j else f k)
self-write f j k = ground (arith, slot_eq_iff j k)

pending_none :
    (c : Bool) (o : Option PendingReply)
    → pending_or_none (if c then none else o) ≡ (if c then PendingReply.none else pending_or_none o)
pending_none true o = refl
pending_none false o = refl

pending_some :
    (c : Bool) (p : PendingReply) (o : Option PendingReply)
    → pending_or_none (if c then some p else o) ≡ (if c then p else pending_or_none o)
pending_some true p o = refl
pending_some false p o = refl

module _ (s : HouseholdInner) (j : Slot) where
  pending_kept :
      (k : Slot)
      → pending_or_none (get k s.pending) ≡ (
          if slot_eq j k
          then pending_or_none (get j s.pending)
          else pending_or_none (get k s.pending))
  pending_kept k = self-write (λ k. pending_or_none (get k s.pending)) j k

  chunks_kept :
      (k : Slot)
      → get k s.continuations
        ≡ (if slot_eq j k then get j s.continuations else get k s.continuations)
  chunks_kept k = self-write (λ k. get k s.continuations) j k

owner_resolves :
    (s : HouseholdInner) (i : SurfaceIdentity) (house : HouseContext) (o : Option Slot)
    → owned s i.user_id o ≡ some house
    → resolve_owner s i o ≡ ok (bound house)
owner_resolves s i house none h = absurd (ground arith)
owner_resolves s i house (some owner) h =
    elim (Bool-cases (text_eq owner.application_id i.user_id)) [
      | inl own ↦
          let same : member owner.house_id i.user_id ≡ owner =
            ap (member owner.house_id) (sym ((text_eq_iff owner.application_id i.user_id).0 own)) in
          let here : is_some (get (member owner.house_id i.user_id) s.members)
              ≡ is_some (get owner s.members) =
            ap (λ k. is_some (get k s.members)) same in
          ground (arith, own, here, h)
      | inr other ↦ absurd (ground (arith, other, h))
    ]

memory_resolve :
    (s : HouseholdInner) (i : SurfaceIdentity) (house : HouseContext)
    → house_in s i ≡ some house
    → resolve_surface i s ≡ (ok (bound house), s)
unfolding resolve_surface
memory_resolve s i house h =
    ap (λ r. (r, s)) (owner_resolves s i house (get i.application_id s.surfaces) h)

-- The store in memory keeps its promises: a surface that is bound resolves, and the calls on a slot
-- succeed and touch that slot alone.
pub memory_store-KeepsSlots : KeepsSlots memory_store memory_view
unfolding resolve_surface poll_pending mark_thinking save_ready clear_pending take_continuation
    save_continuation clear_continuation
memory_store-KeepsSlots = record {
  resolve = memory_resolve;
  bound_serves = λ s i house h. tt;
  poll_pending = λ s j h. record {
    returns = refl;
    pending = pending_kept s j;
    kept = chunks_kept s j;
    serves = λ k _. tt;
    house_of = λ i. refl;
  };
  mark_thinking = λ s j h. record {
    returns = refl;
    pending = λ k. rw get-insert (pending_some (slot_eq j k) thinking (get k s.pending));
    kept = chunks_kept s j;
    serves = λ k _. tt;
    house_of = λ i. refl;
  };
  save_ready = λ s j text h valid. record {
    returns = refl;
    pending = λ k. rw get-insert (pending_some (slot_eq j k) (ready text) (get k s.pending));
    kept = chunks_kept s j;
    serves = λ k _. tt;
    house_of = λ i. refl;
  };
  clear_pending = λ s j h. record {
    returns = refl;
    pending = λ k. rw get-remove (pending_none (slot_eq j k) (get k s.pending));
    kept = chunks_kept s j;
    serves = λ k _. tt;
    house_of = λ i. refl;
  };
  take_continuation = λ s j h. record {
    returns = refl;
    pending = pending_kept s j;
    kept = λ k. get-remove j k s.continuations;
    serves = λ k _. tt;
    house_of = λ i. refl;
  };
  save_continuation = λ s j chunks h valid. record {
    returns = refl;
    pending = pending_kept s j;
    kept = λ k. elim (Bool-cases (is_empty chunks)) [
      | inl e ↦ rw (e) (get-remove j k s.continuations)
      | inr e ↦ rw (e) (get-insert j k chunks s.continuations)
    ];
    serves = λ k _. tt;
    house_of = λ i. refl;
  };
  clear_continuation = λ s j h. record {
    returns = refl;
    pending = pending_kept s j;
    kept = λ k. get-remove j k s.continuations;
    serves = λ k _. tt;
    house_of = λ i. refl;
  };
}
