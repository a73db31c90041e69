-- ===== src/PgHousehold/Pairing.antt =====
-- From the first request of a new device to its binding.
use alice_llm_bridge.Base.{
  ℕ, ℤ, int_eq_iff, ◌+◌, ◌<◌, Bool, true, false, ◌≡◌, ◌≢◌, refl, sym, ap, ◌∙◌, subst, none, some,
  List, [], ◌∷◌, arith, lt→ltb,
}
use mathlib.Core.List.{Memᴰ}
use alice_llm_bridge.Base.Text.{Text, text_eq_refl}
use alice_llm_bridge.Base.Dict.{get, insert, slot_key, int_key, text_key}
use alice_llm_bridge.Household.{SurfaceIdentity, HouseContext, bound, pairing_required, ok}
use alice_llm_bridge.StateCrypto.{StateCipher, pairing_code_hash, pairing_code_matches}
use alice_llm_bridge.PgHousehold.{Platform, pairing_ttl_seconds, only_house, resolve_surface}
use alice_llm_bridge.PgHousehold.Tables.{
  PairingRow, Query, Database, bound_house, memberships_in, has_member,
}
use alice_llm_bridge.PgHousehold.Sealed.{IsPlatform}
use alice_llm_bridge.PgHousehold.Approve.{
  is_code, is_open, for_house, answers, matching, membership_exists, upsert_surface,
  approve_pairing,
}
use alice_llm_bridge.PgHousehold.Approved.{find-Memᴰ, Approved, approve_pairing-Approved}
use alice_llm_bridge.PgHousehold.Resolve.{
  to_house, other_device, stranger, newcomer, failed, request_of, resolve_surface-Resolved,
}
use alice_llm_bridge.PgHousehold.Rows.{
  six_digits-is_code, Memᴰ-find, Memᴰ-insert, only_house-member,
}

-- The statements of an approval and of the next resolution run.
pub record Runs (fails : Query → Bool) : Type 0 where
  pub begins : fails Query.begin ≡ false
  pub selects : fails Query.select_pairings ≡ false
  pub selects_member : fails Query.select_member ≡ false
  pub upserts : fails Query.upsert_surface ≡ false
  pub updates : fails Query.update_pairing ≡ false
  pub commits : fails Query.commit ≡ false
  pub selects_bound : fails Query.select_bound ≡ false

module _ (platform : Platform) (cipher : StateCipher) where
  -- The owner of the house says the code: the approval succeeds, and the device's next request
  -- resolves to the house.
  pub record Paired (identity : SurfaceIdentity) (house_id : ℤ) (code : Text) (db : Database)
      : Type 0 where
    pub house : HouseContext
    pub after : Database
    pub right_house : house.id ≡ house_id
    pub approves : approve_pairing platform cipher house_id code db ≡ (ok true, after)
    pub resolves : resolve_surface platform cipher identity after ≡ (ok (bound house), after)

  upsert_new :
      (house_id : ℤ) (db : Database) (app user : Text)
      → membership_exists platform cipher house_id user db ≡ true
      → get app db.surfaces ≡ none
      → upsert_surface platform cipher app house_id user db
        ≡ some (
          1,
          record db {
            surfaces =
                insert app
                  (record { house_id = house_id; yandex_user_id = user; enabled = true })
                  db.surfaces;
          },
        )
  unfolding upsert_surface membership_exists has_member
  upsert_new house_id db app user member new = ground arith

  -- An approval succeeds where an open request answers and its device is new.
  approve_new :
      (house_id : ℤ) (code : Text) (db : Database) (app : Text) (r : PairingRow)
      → Runs db.fails
      → is_code code ≡ true
      → matching platform cipher house_id code db ≡ some (app, r)
      → membership_exists platform cipher house_id r.yandex_user_id db ≡ true
      → get app db.surfaces ≡ none
      → (approve_pairing platform cipher house_id code db).0 ≡ ok true
  unfolding approve_pairing
  approve_new house_id code db app r runs form found member new =
      let inserted = upsert_new house_id db app r.yandex_user_id member new in
      rw form (
        rw runs.begins (
          rw runs.selects (
            rw found (
              rw runs.selects_member (
                rw member
                  (rw runs.upserts (rw inserted (rw runs.updates (rw runs.commits refl)))))))))

  -- Who was told a code is a newcomer.
  record Newcomer (db db1 : Database) (identity : SurfaceIdentity) (code : Text) : Type 0 where
    is_new : get identity.application_id db.surfaces ≡ none
    has_form : is_code code ≡ true
    requested : db1 ≡ record db {
      pairing_requests =
          insert identity.application_id
            (request_of platform cipher db identity code)
            db.pairing_requests;
      draws = db.draws + 1;
    }

  told-Newcomer :
      (db db1 : Database) (identity : SurfaceIdentity) (code : Text)
      → resolve_surface platform cipher identity db ≡ (ok (pairing_required code), db1)
      → Newcomer db db1 identity code
  told-Newcomer db db1 identity code told =
      elim (resolve_surface-Resolved platform cipher identity db) [
        | to_house house b e ↦ absurd (ground (arith, told, e))
        | other_device s k n e ↦ absurd (ground (arith, told, e))
        | stranger k n e ↦ absurd (ground (arith, told, e))
        | failed x n e ↦ absurd (ground (arith, told, e))
        | newcomer c k n is e ↦
            let same : c ≡ code = ground (arith, told, e) in
            record {
              is_new = k;
              has_form = rw (← same) (rw is (six_digits-is_code _));
              requested = rw (← same) (ground (arith, told, e));
            }
      ]

  -- The request is open to each of the account's houses.
  request_for_house :
      (db : Database) (user : Text) (house_id : ℤ)
      → membership_exists platform cipher house_id user db ≡ true
      → for_house house_id (only_house platform cipher (memberships_in db user db.members)) ≡ true
  unfolding membership_exists
  request_for_house db user house_id h =
      let only = only_house-member db user house_id db.members (ground arith) (ground arith) in
      go (memberships_in db user db.members) only.0 only.1
    where
      go :
          (houses : List ℤ)
          → houses ≢ []
          → ((h : ℤ) → houses ≡ h ∷ [] → h ≡ house_id)
          → for_house house_id (only_house platform cipher houses) ≡ true
      go [] some_house only = absurd (some_house refl)
      go (h ∷ []) some_house only = (int_eq_iff h house_id).1 (only h refl)
      go (h ∷ k ∷ houses) some_house only = refl

  request_answers :
      (db : Database) (identity : SurfaceIdentity) (code : Text) (house_id : ℤ) (now : ℕ)
      → membership_exists platform cipher house_id identity.user_id db ≡ true
      → now < db.now + pairing_ttl_seconds
      → answers platform cipher house_id code now
          (identity.application_id, request_of platform cipher db identity code)
        ≡ true
  unfolding answers is_open pairing_code_matches pairing_code_hash
  request_answers db identity code house_id now member in_time =
      rw (request_for_house db identity.user_id house_id member)
        (rw (lt→ltb _ _ in_time) (text_eq_refl _))

  -- the tables after the request of a newcomer, at a later time
  abbrev asked : Database → SurfaceIdentity → Text → ℕ → Database
  asked db identity code now = record db {
    pairing_requests =
        insert identity.application_id (request_of platform cipher db identity code)
          db.pairing_requests;
    draws = db.draws + 1;
    now = now;
  }

  module _ (identity : SurfaceIdentity) (db : Database) (code : Text) (house_id : ℤ) (now : ℕ)
      (laws : IsPlatform platform cipher)
      (member : membership_exists platform cipher house_id identity.user_id db ≡ true)
      (in_time : now < db.now + pairing_ttl_seconds)
      (only_one : (row : Text × PairingRow)
        → Memᴰ row (asked db identity code now).pairing_requests
        → answers platform cipher house_id code now row ≡ true
        → row.0 ≡ identity.application_id) where
    abbrev own : Text × PairingRow
    own = (identity.application_id, request_of platform cipher db identity code)

    own_matches : matching platform cipher house_id code (asked db identity code now) ≡ some own
    unfolding matching insert
    own_matches =
        let table = (asked db identity code now).pairing_requests in
        let p = answers platform cipher house_id code now in
        let listed = (laws.scans table own).1 (Memᴰ.head refl) in
        let (y, e) =
          Memᴰ-find p _ own listed (request_answers db identity code house_id now member in_time) in
        let (scanned, passes) = find-Memᴰ p _ y e in
        let m = (laws.scans table y).0 scanned in
        e ∙ ap some (Memᴰ-insert _ _ _ y (only_one y m passes) m)

    own-Approved :
        (a : Approved platform cipher house_id code
          (asked db identity code now)
          (approve_pairing platform cipher house_id code (asked db identity code now)).1)
        → (a.application_id, a.request) ≡ own
    unfolding answers
    own-Approved a =
        let passes : answers platform cipher house_id code now (a.application_id, a.request)
            ≡ true =
          rw a.in_time a.answered in
        Memᴰ-insert _ _ _ (a.application_id, a.request) (only_one _ a.listed passes) a.listed

    abbrev approved : Database
    approved = (approve_pairing platform cipher house_id code (asked db identity code now)).1

    trip :
        get identity.application_id db.surfaces ≡ none
        → is_code code ≡ true
        → Runs db.fails
        → Paired identity house_id code (asked db identity code now)
    unfolding membership_exists resolve_surface
    trip new form runs =
        let did =
          approve_new house_id code (asked db identity code now) identity.application_id
            (request_of platform cipher db identity code) runs form own_matches member new in
        let a =
          approve_pairing-Approved platform cipher house_id code (asked db identity code now) laws
            did in
        let same = own-Approved a in
        let now_bound : bound_house approved identity ≡ some a.house =
          subst
            (λ x.
              bound_house approved (record { user_id = x.1.yandex_user_id; application_id = x.0 })
              ≡ some a.house)
            same a.now_bound in
        let still : approved.fails Query.select_bound ≡ false =
          ap (λ t. t.fails Query.select_bound) a.rest_same ∙ runs.selects_bound in
        record {
          house = a.house;
          after = approved;
          right_house = a.right_house;
          approves = ap (λ r. (r, approved)) did;
          resolves = rw still (rw now_bound refl);
        }

  -- Given that the libraries do what is documented, that the statements run and that no open
  -- request of another device answers to the code: a new device that was told a code is bound once
  -- the owner of one of the enabled houses of its account says the code within ten minutes. The
  -- approval succeeds, and the next request of the device resolves to that house.
  pub pairing_round_trip :
      (identity : SurfaceIdentity) (db db1 : Database) (code : Text) (house_id : ℤ) (now : ℕ)
      → IsPlatform platform cipher
      → resolve_surface platform cipher identity db ≡ (ok (pairing_required code), db1)
      → membership_exists platform cipher house_id identity.user_id db ≡ true
      → now < db.now + pairing_ttl_seconds
      → ((row : Text × PairingRow)
          → Memᴰ row db1.pairing_requests
          → answers platform cipher house_id code now row ≡ true
          → row.0 ≡ identity.application_id)
      → Runs db1.fails
      → Paired identity house_id code (record db1 { now = now })
  pairing_round_trip identity db db1 code house_id now laws told member in_time only_one runs =
      let new = told-Newcomer db db1 identity code told in
      subst
        (λ d.
          ((row : Text × PairingRow)
            → Memᴰ row d.pairing_requests
            → answers platform cipher house_id code now row ≡ true
            → row.0 ≡ identity.application_id)
          → Runs d.fails
          → Paired identity house_id code (record d { now = now }))
        (sym new.requested)
        (λ only all_run.
          trip identity db code house_id now laws member in_time only new.is_new new.has_form
            all_run)
        only_one runs
