-- ===== src/MemoryHousehold.antt =====
-- crates/bridge-core/src/testing.rs, `MemoryHouseholdStore`: the store in memory that the tests of
-- the engine use. A `HashSet` is a map to the value `tt`.
pub mod Slots
use alice_llm_bridge.Base.{
  ℤ, int_eq, Bool, true, false, not, ◌&&◌, ◌||◌, if◌then◌else◌, Option, none, some, List, [], ◌∷◌,
  any, is_empty,
}
use alice_llm_bridge.Base.Text.{Text, codes, text_eq}
use alice_llm_bridge.Base.Dict.{Slot, get, insert, remove, slot_key, int_key, text_key}
use alice_llm_bridge.Household.{
  SurfaceIdentity, HouseContext, SurfaceResolution, bound, pairing_required, unauthorized,
  PendingReply, thinking, ready, Result, ok, err, HouseholdStore,
}

pub record HouseholdInner : Type 0 where
  pub houses : List (ℤ × HouseContext)
  pub members : List (Slot × Unit {0})
  pub surfaces : List (Text × Slot)
  pub pending : List (Slot × PendingReply)
  pub continuations : List (Slot × List Text)

-- a member, as `(house_id, user_id)`, and the owner of a surface
abbrev pub member : ℤ → Text → Slot
member house_id user_id = record { house_id = house_id; application_id = user_id }

abbrev pub is_some {ℓ} : {A : Type ℓ} → Option A → Bool
is_some none = false
is_some (some _) = true

-- the fixture's builder; `none` is the panic of an assertion
abbrev pub fixture : HouseholdInner
fixture = record { houses = []; members = []; surfaces = []; pending = []; continuations = [] }

unfoldable pub add_house : ℤ → Text → Option Text → Text → HouseholdInner → Option HouseholdInner
add_house id name thread connector inner = some (record inner {
  houses =
      insert id
        (record { id = id; name = name; codex_thread_id = thread; homey_connector_id = connector })
        inner.houses;
})

unfoldable pub add_member : ℤ → Text → HouseholdInner → Option HouseholdInner
add_member house_id user_id inner =
    if is_some (get house_id inner.houses)
    then some (record inner { members = insert (member house_id user_id) tt inner.members })
    else none

unfoldable pub add_surface : ℤ → Text → Text → HouseholdInner → Option HouseholdInner
add_surface house_id user_id application_id inner =
    if is_some (get (member house_id user_id) inner.members)
      && not (is_some (get application_id inner.surfaces))
    then some
        (record inner { surfaces = insert application_id (member house_id user_id) inner.surfaces })
    else none

abbrev is_member_of_some_house : Text → List (Slot × Unit {0}) → Bool
is_member_of_some_house user_id members = any (λ m. text_eq m.0.application_id user_id) members

abbrev pub found_house : Option HouseContext → Result SurfaceResolution
found_house (some house) = ok (bound house)
found_house none = err (codes "surface house is missing")

abbrev pub resolve_owner : HouseholdInner → SurfaceIdentity → Option Slot → Result SurfaceResolution
resolve_owner inner identity (some owner) =
    if text_eq owner.application_id identity.user_id && is_some (get owner inner.members)
    then found_house (get owner.house_id inner.houses)
    else ok unauthorized
resolve_owner inner identity none =
    if is_member_of_some_house identity.user_id inner.members
    then ok (pairing_required (codes "123456"))
    else ok unauthorized

unfoldable pub resolve_surface :
    SurfaceIdentity → HouseholdInner → Result SurfaceResolution × HouseholdInner
resolve_surface identity inner =
    (resolve_owner inner identity (get identity.application_id inner.surfaces), inner)

-- the thread that a house has already
abbrev other_thread : Text → Option Text → Bool
other_thread thread_id none = false
other_thread thread_id (some id) = not (text_eq id thread_id)

abbrev save_thread_in :
    ℤ → Text → HouseholdInner → Option HouseContext → Result (Unit {0}) × HouseholdInner
save_thread_in house_id thread_id inner none = (err (codes "house is missing"), inner)
save_thread_in house_id thread_id inner (some house) =
    if other_thread thread_id house.codex_thread_id
    then (err (codes "house already has a different thread"), inner)
    else (
      ok tt,
      record inner {
        houses = insert house_id (record house { codex_thread_id = some thread_id }) inner.houses;
      },
    )

unfoldable pub save_thread_id : ℤ → Text → HouseholdInner → Result (Unit {0}) × HouseholdInner
save_thread_id house_id thread_id inner =
    save_thread_in house_id thread_id inner (get house_id inner.houses)

abbrev slot : ℤ → Text → Slot
slot house_id application_id = record { house_id = house_id; application_id = application_id }

abbrev pub pending_or_none : Option PendingReply → PendingReply
pending_or_none none = PendingReply.none
pending_or_none (some p) = p

unfoldable pub poll_pending : ℤ → Text → HouseholdInner → Result PendingReply × HouseholdInner
poll_pending house_id application_id inner =
    (ok (pending_or_none (get (slot house_id application_id) inner.pending)), inner)

unfoldable pub mark_thinking : ℤ → Text → HouseholdInner → Result (Unit {0}) × HouseholdInner
mark_thinking house_id application_id inner =
    (ok tt, record inner { pending = insert (slot house_id application_id) thinking inner.pending })

unfoldable pub save_ready : ℤ → Text → Text → HouseholdInner → Result (Unit {0}) × HouseholdInner
save_ready house_id application_id text inner = (
  ok tt,
  record inner { pending = insert (slot house_id application_id) (ready text) inner.pending },
)

unfoldable pub clear_pending : ℤ → Text → HouseholdInner → Result (Unit {0}) × HouseholdInner
clear_pending house_id application_id inner =
    (ok tt, record inner { pending = remove (slot house_id application_id) inner.pending })

unfoldable pub take_continuation :
    ℤ → Text → HouseholdInner → Result (Option (List Text)) × HouseholdInner
take_continuation house_id application_id inner = (
  ok (get (slot house_id application_id) inner.continuations),
  record inner { continuations = remove (slot house_id application_id) inner.continuations },
)

unfoldable pub save_continuation :
    ℤ → Text → List Text → HouseholdInner → Result (Unit {0}) × HouseholdInner
save_continuation house_id application_id chunks inner = (
  ok tt,
  record inner {
    continuations =
        if is_empty chunks
        then remove (slot house_id application_id) inner.continuations
        else insert (slot house_id application_id) chunks inner.continuations;
  },
)

unfoldable pub clear_continuation : ℤ → Text → HouseholdInner → Result (Unit {0}) × HouseholdInner
clear_continuation house_id application_id inner = (
  ok tt,
  record inner { continuations = remove (slot house_id application_id) inner.continuations },
)

abbrev pub memory_store : HouseholdStore
memory_store = record {
  State = HouseholdInner;
  resolve_surface = resolve_surface;
  save_thread_id = save_thread_id;
  poll_pending = poll_pending;
  mark_thinking = mark_thinking;
  save_ready = save_ready;
  clear_pending = clear_pending;
  take_continuation = take_continuation;
  save_continuation = save_continuation;
  clear_continuation = clear_continuation;
}
