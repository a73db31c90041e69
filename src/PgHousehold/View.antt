-- ===== src/PgHousehold/View.antt =====
-- What a client sees of the store in Postgres: the rows that have not expired, opened and parsed.
use alice_llm_bridge.Base.{
  ℕ, Bool, true, false, ◌&&◌, not, if◌then◌else◌, ◌≡◌, refl, ◌∙◌, Option, none, some, List, [], ◌∷◌,
  all, arith,
}
use alice_llm_bridge.Base.Text.{Text}
use alice_llm_bridge.Base.Dict.{Slot, slot_eq, slot_eq_iff, slot_key, get}
use alice_llm_bridge.Household.{SurfaceIdentity, HouseContext, PendingReply, Result, ok, err}
use alice_llm_bridge.Household.Slots.{View, Effect, slot_of}
use alice_llm_bridge.StateCrypto.{StateCipher}
use alice_llm_bridge.PgHousehold.{Platform, read_pending, read_chunks}
use alice_llm_bridge.PgHousehold.Tables.{
  PendingRow, ContinuationRow, Query, Database, bound_house, has_surface, live_pending,
  live_continuation,
}

abbrev is_ok {ℓ} : {A : Type ℓ} → Result A → Bool
is_ok (ok _) = true
is_ok (err _) = false

-- The statements of the store's operations run.
unfoldable pub runs : Database → Bool
runs db =
    all (λ q. not (db.fails q))
      (Query.select_bound ∷ Query.select_application ∷ Query.select_memberships
        ∷ Query.insert_pairing ∷ Query.update_thread ∷ Query.select_pending ∷ Query.upsert_thinking
        ∷ Query.upsert_ready ∷ Query.delete_pending ∷ Query.delete_live_continuation
        ∷ Query.upsert_continuation ∷ Query.delete_continuation ∷ [])

module _ (platform : Platform) (cipher : StateCipher) where
  -- what a poll of the slot reads
  abbrev pub pending_in : ℕ → Option PendingRow → Result PendingReply
  pending_in now row = read_pending platform cipher (live_pending now row)

  abbrev pub kept_in : ℕ → Option ContinuationRow → Result (Option (List Text))
  kept_in now row = read_chunks platform cipher (live_continuation now row)

  -- Every statement runs, the surface is in the tables, and what its slot holds can be read.
  unfoldable pub works : Database → Slot → Bool
  works db j =
      runs db
      && has_surface db j
      && is_ok (pending_in db.now (get j db.pending_replies))
      && is_ok (kept_in db.now (get j db.continuations))

  abbrev read_or {ℓ} : {A : Type ℓ} → A → Result A → A
  read_or a (ok b) = b
  read_or a (err _) = a

  abbrev if_works : Database → SurfaceIdentity → Option HouseContext → Option HouseContext
  if_works db i none = none
  if_works db i (some house) = if works db (slot_of house i) then some house else none

  abbrev pub pg_view : View Database
  pg_view = record {
    house_of = λ db i. if_works db i (bound_house db i);
    serves = λ db j. works db j ≡ true;
    pending = λ db j. read_or PendingReply.none (pending_in db.now (get j db.pending_replies));
    kept = λ db j. read_or none (kept_in db.now (get j db.continuations));
  }

  module _ (db : Database) (P : List (Slot × PendingRow)) (C : List (Slot × ContinuationRow))
      (n : ℕ) (j : Slot) (p : PendingReply) (k : Option (List Text)) where
    -- the database with other pending replies and continuations
    abbrev pub written : Database
    written = record db { pending_replies = P; continuations = C; draws = n }

    module _ (serves : works db j ≡ true)
        (hp : (i : Slot)
          → pending_in db.now (get i P)
            ≡ (if slot_eq j i then ok p else pending_in db.now (get i db.pending_replies)))
        (hc : (i : Slot)
          → kept_in db.now (get i C)
            ≡ (if slot_eq j i then ok k else kept_in db.now (get i db.continuations))) where
      works_same : (i : Slot) → works written i ≡ works db i
      unfolding works has_surface runs
      works_same i = ground (arith, hp i, hc i, slot_eq_iff j i)

      house_same :
          (i : SurfaceIdentity) (h : Option HouseContext) → if_works written i h ≡ if_works db i h
      house_same i none = refl
      house_same i (some house) = rw (works_same (slot_of house i)) refl

      -- A call that writes one slot so that it reads as `p` and `k` has that effect.
      pub write-Effect : {A : Type 0} (a : A) → Effect pg_view db j (ok a, written) a p k
      unfolding bound_house
      write-Effect a = record {
        returns = refl;
        pending = λ i. rw (hp i) (ground arith);
        kept = λ i. rw (hc i) (ground arith);
        serves = λ i h. works_same i ∙ h;
        house_of = λ i. house_same i (bound_house db i);
      }
