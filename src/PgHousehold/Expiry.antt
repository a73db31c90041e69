-- ===== src/PgHousehold/Expiry.antt =====
-- How long a reply waits, how long kept chunks last, and that a house keeps its thread.
use alice_llm_bridge.Base.{
  ℕ, ℤ, ◌+◌, ltb, true, false, if◌then◌else◌, ◌≡◌, ◌⊎◌, refl, ap, Option, none, some, List, ◌∷◌,
  All, Option-cases, Bool-cases, inl, inr,
}
use alice_llm_bridge.Base.Text.{Text, codes, text_eq_iff}
use alice_llm_bridge.Base.Utf8.{IsText}
use alice_llm_bridge.Base.Dict.{
  Slot, slot_eq, slot_eq_iff, slot_key, int_key, get, insert, get-insert, get-remove,
}
use alice_llm_bridge.Household.{PendingReply, ready, Result, ok, err}
use alice_llm_bridge.StateCrypto.{StateCipher}
use alice_llm_bridge.PgHousehold.{
  Platform, db_error, same_or_unset, pending_ttl_seconds, continuation_ttl_seconds, poll_pending,
  save_ready, save_continuation, take_continuation, save_thread_id,
}
use alice_llm_bridge.PgHousehold.Tables.{HouseRow, Query, Database, slot, has_surface}
use alice_llm_bridge.PgHousehold.Sealed.{IsPlatform, seal_text-Sealed, read_chunks-Sealed}

slot_eq_refl : (j : Slot) → slot_eq j j ≡ true
slot_eq_refl j = (slot_eq_iff j j).1 refl

module _ (platform : Platform) (cipher : StateCipher) where
  -- Given that the libraries do what is documented and the statements run: a valid text that is
  -- saved for a known surface is read back for 120 seconds, whatever waited there before, and then
  -- no more.
  pub save_ready-poll_pending :
      (house_id : ℤ) (app text : Text) (db : Database) (now : ℕ)
      → IsPlatform platform cipher
      → IsText text
      → has_surface db (slot house_id app) ≡ true
      → db.fails Query.upsert_ready ≡ false
      → db.fails Query.select_pending ≡ false
      → (save_ready platform cipher house_id app text db).0 ≡ ok tt
        × (let after = (save_ready platform cipher house_id app text db).1 in
            (poll_pending platform cipher house_id app (record after { now = now })).0
            ≡ ok (if ltb now (db.now + pending_ttl_seconds) then ready text else PendingReply.none))
  unfolding save_ready poll_pending has_surface
  save_ready-poll_pending house_id app text db now laws valid known writes reads =
      let sealed = seal_text-Sealed platform cipher laws text db valid in
      rw sealed.sealed (
        rw writes (
          rw known (
            refl,
            rw reads (
                rw get-insert (
                  rw (slot_eq_refl (slot house_id app))
                    (elim (Bool-cases (ltb now (db.now + pending_ttl_seconds))) [
                      | inl soon ↦ rw soon (rw sealed.opens refl)
                      | inr late ↦ rw late refl
                    ]))),
          )))

  -- Given that the libraries do what is documented and the statements run: chunks of valid text,
  -- one at least, that are saved for a known surface are taken in their order within 600 seconds;
  -- a second take, or one that comes later, finds nothing.
  pub save_continuation-take_continuation :
      (house_id : ℤ) (app chunk : Text) (chunks : List Text) (db : Database) (now : ℕ)
      → IsPlatform platform cipher
      → All IsText (chunk ∷ chunks)
      → has_surface db (slot house_id app) ≡ true
      → db.fails Query.upsert_continuation ≡ false
      → db.fails Query.delete_live_continuation ≡ false
      → let after = (save_continuation platform cipher house_id app (chunk ∷ chunks) db).1 in
        let taken = take_continuation platform cipher house_id app (record after { now = now }) in
        (taken.0
          ≡ ok
              (if ltb now (db.now + continuation_ttl_seconds) then some (chunk ∷ chunks) else none))
        × ((take_continuation platform cipher house_id app taken.1).0 ≡ ok none)
  unfolding save_continuation take_continuation has_surface
  save_continuation-take_continuation house_id app chunk chunks db now laws valid known writes
        takes =
      let sealed =
        seal_text-Sealed platform cipher laws (platform.to_json (chunk ∷ chunks)) db
          (laws.prints (chunk ∷ chunks) valid) in
      rw sealed.sealed (
        rw writes (
          rw known (
            rw takes (
              rw get-insert (
                rw (slot_eq_refl (slot house_id app))
                  (elim (Bool-cases (ltb now (db.now + continuation_ttl_seconds))) [
                    | inl soon ↦ rw soon (
                      read_chunks-Sealed platform cipher laws (chunk ∷ chunks) db sealed,
                      rw takes (rw get-remove (rw (slot_eq_refl (slot house_id app)) refl)),
                    )
                    | inr late ↦ rw late (
                      refl,
                      rw takes
                          (rw get-insert (rw (slot_eq_refl (slot house_id app)) (rw late refl))),
                    )
                  ]))))))

  -- What a call of `save_thread_id` may do: give the house its first thread, confirm the one it has, or
  -- fail and leave the tables.
  pub data Threaded (house_id : ℤ) (id : Text) (db : Database) (x : Result (Unit {0}) × Database)
      : Type 0 where
    saved :
        (h : HouseRow)
        → get house_id db.houses ≡ some h
        → (h.codex_thread_id ≡ none) ⊎ (h.codex_thread_id ≡ some id)
        → x ≡ (
          ok tt,
          record db { houses = insert house_id (record h { codex_thread_id = some id }) db.houses },
        )
        → Threaded house_id id db x
    unchanged : (e : Text) → x ≡ (err e, db) → Threaded house_id id db x

  -- The thread of a house is set once: a call gives the house its first thread, confirms the one
  -- it has, or fails and leaves the tables.
  pub save_thread_id-Threaded :
      (house_id : ℤ) (id : Text) (db : Database)
      → Threaded house_id id db (save_thread_id platform cipher house_id id db)
  unfolding save_thread_id
  save_thread_id-Threaded house_id id db = elim (Bool-cases (db.fails Query.update_thread)) [
    | inl f ↦ unchanged db_error (rw f refl)
    | inr f ↦ elim (Option-cases (get house_id db.houses)) [
      | inl e ↦ unchanged (codes "house already has a different Codex thread") (rw f (rw e refl))
      | inr (h, e) ↦ elim (Bool-cases (same_or_unset platform cipher id h.codex_thread_id)) [
        | inl fits ↦ saved h e (unset_or_same h.codex_thread_id fits) (rw f (rw e (rw fits refl)))
        | inr other ↦
            unchanged (codes "house already has a different Codex thread")
              (rw f (rw e (rw other refl)))
      ]
    ]
  ]
    where
      unset_or_same :
          (o : Option Text) → same_or_unset platform cipher id o ≡ true → (o ≡ none) ⊎ (o ≡ some id)
      unset_or_same none fits = inl refl
      unset_or_same (some t) fits = inr (ap some ((text_eq_iff t id).0 fits))
