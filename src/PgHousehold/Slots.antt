-- ===== src/PgHousehold/Slots.antt =====
-- The store in Postgres keeps the promises of a `HouseholdStore`, where its statements run.
use alice_llm_bridge.Base.{
  ℕ, ◌+◌, ◌<◌, true, false, if◌then◌else◌, ◌≡◌, refl, sym, ap, ◌∙◌, subst, Option, none, some, List,
  [], ◌∷◌, is_empty, All, arith,
}
use alice_llm_bridge.Base.Text.{Text}
use alice_llm_bridge.Base.Utf8.{IsText}
use alice_llm_bridge.Base.Dict.{
  Slot, slot_eq, slot_eq_iff, slot_key, get, insert, remove, get-insert, get-remove,
}
use alice_llm_bridge.Household.{
  SurfaceIdentity, HouseContext, bound, PendingReply, thinking, ready, Result, ok,
}
use alice_llm_bridge.Household.Slots.{View, Effect, slot_of, KeepsSlots}
use alice_llm_bridge.StateCrypto.{StateCipher, EncryptedPayload}
use alice_llm_bridge.PgHousehold.{
  Platform, pg_store, pending_ttl_seconds, continuation_ttl_seconds, read_pending, read_chunks,
  delete_live, resolve_surface, poll_pending, mark_thinking, save_ready, clear_pending,
  take_continuation, save_continuation, clear_continuation,
}
use alice_llm_bridge.PgHousehold.Tables.{
  PendingStatus, Query, Database, has_surface, live_continuation,
}
use alice_llm_bridge.PgHousehold.View.{runs, works, pending_in, kept_in, pg_view, write-Effect}
use alice_llm_bridge.PgHousehold.Sealed.{IsPlatform, seal_text-Sealed, read_chunks-Sealed}

module _ (platform : Platform) (cipher : StateCipher) (laws : IsPlatform platform cipher) where
  abbrev pending_of : Database → Slot → Result PendingReply
  pending_of db j = pending_in platform cipher db.now (get j db.pending_replies)

  abbrev kept_of : Database → Slot → Result (Option (List Text))
  kept_of db j = kept_in platform cipher db.now (get j db.continuations)

  -- what it says of a slot that the store serves it
  record Serves (db : Database) (j : Slot) : Type 0 where
    bound_runs : db.fails Query.select_bound ≡ false
    poll_runs : db.fails Query.select_pending ≡ false
    mark_runs : db.fails Query.upsert_thinking ≡ false
    ready_runs : db.fails Query.upsert_ready ≡ false
    clear_runs : db.fails Query.delete_pending ≡ false
    take_runs : db.fails Query.delete_live_continuation ≡ false
    save_runs : db.fails Query.upsert_continuation ≡ false
    forget_runs : db.fails Query.delete_continuation ≡ false
    known : has_surface db j ≡ true
    pending : pending_of db j ≡ ok ((pg_view platform cipher).pending db j)
    kept : kept_of db j ≡ ok ((pg_view platform cipher).kept db j)

  works-Serves : (db : Database) (j : Slot) → works platform cipher db j ≡ true → Serves db j
  unfolding works runs
  works-Serves db j h = record {
    bound_runs = ground arith;
    poll_runs = ground arith;
    mark_runs = ground arith;
    ready_runs = ground arith;
    clear_runs = ground arith;
    take_runs = ground arith;
    save_runs = ground arith;
    forget_runs = ground arith;
    known = ground arith;
    pending = ground arith;
    kept = ground arith;
  }

  pg_resolve :
      (db : Database) (i : SurfaceIdentity) (house : HouseContext)
      → (pg_view platform cipher).house_of db i ≡ some house
      → resolve_surface platform cipher i db ≡ (ok (bound house), db)
  unfolding resolve_surface works runs
  pg_resolve db i house h = ground arith

  pg_bound_serves :
      (db : Database) (i : SurfaceIdentity) (house : HouseContext)
      → (pg_view platform cipher).house_of db i ≡ some house
      → works platform cipher db (slot_of house i) ≡ true
  pg_bound_serves db i house h = ground arith

  module _ (db : Database) (j : Slot) (h : works platform cipher db j ≡ true) where
    pending_same :
        (i : Slot)
        → pending_of db i
          ≡ (if slot_eq j i then ok ((pg_view platform cipher).pending db j) else pending_of db i)
    pending_same i = ground (arith, slot_eq_iff j i, (works-Serves db j h).pending)

    kept_same :
        (i : Slot)
        → kept_of db i
          ≡ (if slot_eq j i then ok ((pg_view platform cipher).kept db j) else kept_of db i)
    kept_same i = ground (arith, slot_eq_iff j i, (works-Serves db j h).kept)

    -- a row that was just written is live
    pending_put :
        (status : PendingStatus) (p : PendingReply) (ttl : ℕ)
        → 0 < ttl
        → read_pending platform cipher (some status) ≡ ok p
        → (i : Slot)
        → pending_in platform cipher db.now (
            get i
              (insert j (record { status = status; expires_at = db.now + ttl }) db.pending_replies))
          ≡ (if slot_eq j i then ok p else pending_of db i)
    pending_put status p ttl pos e i = rw get-insert (ground arith)

    pending_removed :
        (i : Slot)
        → pending_in platform cipher db.now (get i (remove j db.pending_replies))
          ≡ (if slot_eq j i then ok PendingReply.none else pending_of db i)
    pending_removed i = rw get-remove (ground arith)

    kept_put :
        (payload : EncryptedPayload) (chunks : List Text) (ttl : ℕ)
        → 0 < ttl
        → read_chunks platform cipher (some payload) ≡ ok (some chunks)
        → (i : Slot)
        → kept_in platform cipher db.now (
            get i
              (insert j (record { payload = payload; expires_at = db.now + ttl }) db.continuations))
          ≡ (if slot_eq j i then ok (some chunks) else kept_of db i)
    kept_put payload chunks ttl pos e i = rw get-insert (ground arith)

    kept_removed :
        (i : Slot)
        → kept_in platform cipher db.now (get i (remove j db.continuations))
          ≡ (if slot_eq j i then ok none else kept_of db i)
    kept_removed i = rw get-remove (ground arith)

    abbrev view : View Database
    view = pg_view platform cipher

    serves : Serves db j
    serves = works-Serves db j h

    pg_poll_pending :
        Effect view db j
          (poll_pending platform cipher j.house_id j.application_id db)
          (view.pending db j)
          (view.pending db j)
          (view.kept db j)
    unfolding poll_pending
    pg_poll_pending =
        rw (serves.poll_runs, serves.pending)
          (write-Effect platform cipher db db.pending_replies db.continuations db.draws j _ _ h
            pending_same kept_same (view.pending db j))

    pg_mark_thinking :
        Effect view db j
          (mark_thinking platform cipher j.house_id j.application_id db)
          tt
          thinking
          (view.kept db j)
    unfolding mark_thinking
    pg_mark_thinking =
        rw (serves.mark_runs, serves.known)
          (write-Effect platform cipher db _ db.continuations db.draws j _ _ h
            (pending_put PendingStatus.thinking thinking pending_ttl_seconds (omega arith) refl)
            kept_same tt)

    pg_save_ready :
        (text : Text)
        → IsText text
        → Effect view db j
            (save_ready platform cipher j.house_id j.application_id text db)
            tt
            (ready text)
            (view.kept db j)
    unfolding save_ready has_surface
    pg_save_ready text valid =
        let sealed = seal_text-Sealed platform cipher laws text db valid in
        rw sealed.sealed (
          rw (serves.ready_runs, serves.known)
            (write-Effect platform cipher db _ db.continuations (db.draws + 1) j _ _ h
              (pending_put (PendingStatus.ready sealed.payload) (ready text) pending_ttl_seconds
                (omega arith) (rw sealed.opens refl))
              kept_same tt))

    pg_clear_pending :
        Effect view db j
          (clear_pending platform cipher j.house_id j.application_id db)
          tt
          PendingReply.none
          (view.kept db j)
    unfolding clear_pending
    pg_clear_pending = rw (serves.clear_runs) (
        write-Effect platform cipher db _ db.continuations db.draws j _ _ h pending_removed
          kept_same tt)

    pg_clear_continuation :
        Effect view db j
          (clear_continuation platform cipher j.house_id j.application_id db)
          tt
          (view.pending db j)
          none
    unfolding clear_continuation
    pg_clear_continuation = rw (serves.forget_runs) (
        write-Effect platform cipher db db.pending_replies _ db.draws j _ _ h pending_same
          kept_removed tt)

    -- the live row, if there is one, is deleted and read
    take_row :
        (o : Option EncryptedPayload)
        → live_continuation db.now (get j db.continuations) ≡ o
        → Effect view db j
            (
              read_chunks platform cipher (delete_live platform cipher j o db).0,
              (delete_live platform cipher j o db).1,
            )
            (view.kept db j)
            (view.pending db j)
            none
    take_row none e =
        let nothing : view.kept db j ≡ none = rw e refl in
        rw nothing (
          write-Effect platform cipher db db.pending_replies db.continuations db.draws j _ none h
            pending_same (λ i. ground (arith, slot_eq_iff j i, kept_same i)) none)
    take_row (some payload) e =
        let read : read_chunks platform cipher (some payload) ≡ ok (view.kept db j) =
          ap (read_chunks platform cipher) (sym e) ∙ serves.kept in
        subst
          (λ r.
            Effect view db j (r, record db { continuations = remove j db.continuations })
              (view.kept db j) (view.pending db j) none)
          (sym read)
          (write-Effect platform cipher db db.pending_replies _ db.draws j _ _ h pending_same
            kept_removed (view.kept db j))

    pg_take_continuation :
        Effect view db j
          (take_continuation platform cipher j.house_id j.application_id db)
          (view.kept db j)
          (view.pending db j)
          none
    unfolding take_continuation
    pg_take_continuation = rw serves.take_runs (take_row _ refl)

    pg_save_continuation :
        (chunks : List Text)
        → All IsText chunks
        → Effect view db j
            (save_continuation platform cipher j.house_id j.application_id chunks db)
            tt
            (view.pending db j)
            (if is_empty chunks then none else some chunks)
    unfolding save_continuation has_surface
    pg_save_continuation [] valid = pg_clear_continuation
    pg_save_continuation (chunk ∷ chunks) valid =
        let sealed =
          seal_text-Sealed platform cipher laws (platform.to_json (chunk ∷ chunks)) db
            (laws.prints (chunk ∷ chunks) valid) in
        rw sealed.sealed (
          rw (serves.save_runs, serves.known)
            (write-Effect platform cipher db db.pending_replies _ (db.draws + 1) j _ _ h
              pending_same
              (kept_put sealed.payload (chunk ∷ chunks) continuation_ttl_seconds (omega arith)
                (read_chunks-Sealed platform cipher laws (chunk ∷ chunks) db sealed))
              tt))

-- Given that the libraries do what is documented, the store in Postgres keeps the promises of a
-- household store to every client whose surface it serves: rows of other surfaces, expired rows
-- and the encryption of the rows do not show.
pub pg_store-KeepsSlots :
    (platform : Platform) (cipher : StateCipher)
    → IsPlatform platform cipher
    → KeepsSlots (pg_store platform cipher) (pg_view platform cipher)
pg_store-KeepsSlots platform cipher laws = record {
  resolve = pg_resolve platform cipher laws;
  bound_serves = pg_bound_serves platform cipher laws;
  poll_pending = pg_poll_pending platform cipher laws;
  mark_thinking = pg_mark_thinking platform cipher laws;
  save_ready = λ db j text h valid. pg_save_ready platform cipher laws db j h text valid;
  clear_pending = pg_clear_pending platform cipher laws;
  take_continuation = pg_take_continuation platform cipher laws;
  save_continuation =
      λ db j chunks h valid. pg_save_continuation platform cipher laws db j h chunks valid;
  clear_continuation = pg_clear_continuation platform cipher laws;
}
