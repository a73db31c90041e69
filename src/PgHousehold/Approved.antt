-- ===== src/PgHousehold/Approved.antt =====
-- What an approval of a pairing request has checked and done.
use alice_llm_bridge.Base.{
  ℤ, int_eq_iff, Bool, true, ◌≡◌, ◌≢◌, refl, sym, subst, some, List, [], ◌∷◌, find, arith,
  Option-cases, Bool-cases, inl, inr,
}
use mathlib.Core.List.{Memᴰ}
use alice_llm_bridge.Base.Text.{Text, text_eq_iff, text_eq_refl}
use alice_llm_bridge.Base.Dict.{get, insert, get-insert, slot_key, int_key, text_key}
use alice_llm_bridge.Household.{HouseContext, ok}
use alice_llm_bridge.StateCrypto.{StateCipher, pairing_code_matches}
use alice_llm_bridge.PgHousehold.{Platform}
use alice_llm_bridge.PgHousehold.Tables.{SurfaceRow, PairingRow, Database, context_of, bound_house}
use alice_llm_bridge.PgHousehold.Sealed.{IsPlatform}
use alice_llm_bridge.PgHousehold.Approve.{
  is_open, answers, matching, membership_exists, upsert_surface, approve_pairing,
}

-- what `find` finds is an item that passes
pub find-Memᴰ {ℓ} :
    {A : Type ℓ} (p : A → Bool) (xs : List A) (x : A)
    → find p xs ≡ some x
    → Memᴰ x xs × (p x ≡ true)
find-Memᴰ p [] x e = absurd (cc)
find-Memᴰ p (y ∷ ys) x e = elim (Bool-cases (p y)) [
  | inl h ↦
      let same : y ≡ x = ground arith in (Memᴰ.head (sym same), subst (λ z. p z ≡ true) same h)
  | inr h ↦ let (m, q) = find-Memᴰ p ys x (ground arith) in (Memᴰ.tail m, q)
]

module _ (platform : Platform) (cipher : StateCipher) where
  -- Unless a request was approved, the tables are as before.
  pub approve_pairing-unchanged :
      (house_id : ℤ) (code : Text) (db : Database)
      → (approve_pairing platform cipher house_id code db).0 ≢ ok true
      → (approve_pairing platform cipher house_id code db).1 ≡ db
  unfolding approve_pairing
  approve_pairing-unchanged house_id code db h = ground arith

  -- What was checked before the request `request` of the device was approved for the house, and what
  -- the tables hold since.
  pub record Approved (house_id : ℤ) (code : Text) (db after : Database) : Type 0 where
    pub application_id : Text
    pub request : PairingRow
    pub listed : Memᴰ (application_id, request) db.pairing_requests
    pub in_time : is_open house_id db.now request ≡ true
    pub answered :
        pairing_code_matches platform.ciphers cipher request.code_hash request.yandex_user_id
          application_id code
        ≡ true
    pub member : membership_exists platform cipher house_id request.yandex_user_id db ≡ true
    pub house : HouseContext
    pub now_bound :
        bound_house after
          (record { user_id = request.yandex_user_id; application_id = application_id })
        ≡ some house
    pub right_house : house.id ≡ house_id
    pub used :
        get application_id after.pairing_requests
        ≡ some (record request { house_id = some house_id; approved_at = some db.now })
    pub same_account :
        (s : SurfaceRow)
        → get application_id db.surfaces ≡ some s
        → (s.house_id ≡ house_id) × (s.yandex_user_id ≡ request.yandex_user_id)
    pub others : (app : Text) → app ≢ application_id → get app after.surfaces ≡ get app db.surfaces
    pub rest_same :
        after ≡ record db { surfaces = after.surfaces; pairing_requests = after.pairing_requests }

  -- the surface's row after the upsert
  record Upserted (app : Text) (house_id : ℤ) (user : Text) (db after : Database) : Type 0 where
    row : SurfaceRow
    of_house : row.house_id ≡ house_id
    of_user : row.yandex_user_id ≡ user
    is_enabled : row.enabled ≡ true
    is_after : after ≡ record db { surfaces = insert app row db.surfaces }
    same_account :
        (s : SurfaceRow)
        → get app db.surfaces ≡ some s
        → (s.house_id ≡ house_id) × (s.yandex_user_id ≡ user)

  upsert_surface-Upserted :
      (app : Text) (house_id : ℤ) (user : Text) (db after : Database)
      → upsert_surface platform cipher app house_id user db ≡ some (1, after)
      → Upserted app house_id user db after
  unfolding upsert_surface
  upsert_surface-Upserted app house_id user db after h = elim (Option-cases (get app db.surfaces)) [
    | inl e ↦ record {
      row = record { house_id = house_id; yandex_user_id = user; enabled = true };
      of_house = refl;
      of_user = refl;
      is_enabled = refl;
      is_after = ground arith;
      same_account = λ s q. ground arith;
    }
    | inr (s, e) ↦ record {
      row = record s { enabled = true };
      of_house = ground (arith, int_eq_iff s.house_id house_id);
      of_user = ground (arith, text_eq_iff s.yandex_user_id user);
      is_enabled = refl;
      is_after = ground arith;
      same_account =
          λ t q. ground (arith, int_eq_iff s.house_id house_id, text_eq_iff s.yandex_user_id user);
    }
  ]

  -- the steps of a call that approved
  record Steps (house_id : ℤ) (code : Text) (db after : Database) : Type 0 where
    app : Text
    request : PairingRow
    bound_tables : Database
    matches : matching platform cipher house_id code db ≡ some (app, request)
    exists : membership_exists platform cipher house_id request.yandex_user_id db ≡ true
    upserted :
        upsert_surface platform cipher app house_id request.yandex_user_id db
        ≡ some (1, bound_tables)
    is_after : after ≡ record bound_tables {
      pairing_requests =
          insert app
            (record request { house_id = some house_id; approved_at = some bound_tables.now })
            bound_tables.pairing_requests;
    }

  approve_pairing-Steps :
      (house_id : ℤ) (code : Text) (db : Database)
      → (approve_pairing platform cipher house_id code db).0 ≡ ok true
      → Steps house_id code db (approve_pairing platform cipher house_id code db).1
  unfolding approve_pairing
  approve_pairing-Steps house_id code db h =
      elim (Option-cases (matching platform cipher house_id code db)) [
        | inl e ↦ absurd (ground arith)
        | inr ((app, request), e) ↦
            elim (Option-cases
              (upsert_surface platform cipher app house_id request.yandex_user_id db)) [
                | inl none_inserted ↦ absurd (ground arith)
                | inr ((n, bound_tables), inserted) ↦
                    let one : n ≡ 1 = ground arith in
                    record {
                      app = app;
                      request = request;
                      bound_tables = bound_tables;
                      matches = e;
                      exists = ground arith;
                      upserted = ground arith;
                      is_after = ground arith;
                    }
              ]
      ]

  -- the row makes the surface resolve to the house
  row_bound :
      (house_id : ℤ) (app user : Text) (db after : Database)
      → membership_exists platform cipher house_id user db ≡ true
      → Upserted app house_id user db after
      → (house : HouseContext) × (bound_house after
            (record { user_id = user; application_id = app })
          ≡ some house)
        × (house.id ≡ house_id)
  unfolding bound_house membership_exists
  row_bound house_id app user db after h up = elim (Option-cases (get house_id db.houses)) [
    | inl e ↦ absurd (ground arith)
    | inr (row, e) ↦ (
      context_of house_id row,
      subst
          (λ t.
            bound_house t (record { user_id = user; application_id = app })
            ≡ some (context_of house_id row))
          (sym up.is_after)
          (rw get-insert (
            rw (text_eq_refl app, up.of_user, up.of_house, text_eq_refl user, up.is_enabled)
              (ground arith))),
      refl,
    )
  ]

  -- Given that a SELECT gives the rows of the table: a call that approves has found an open
  -- request that the code answers, from an account with an enabled membership in the house. The
  -- device is bound to the house from then on and the request is used; a device that was bound
  -- before was bound to the same house and account, no other device's binding has changed, and
  -- neither has any other table.
  pub approve_pairing-Approved :
      (house_id : ℤ) (code : Text) (db : Database)
      → IsPlatform platform cipher
      → (approve_pairing platform cipher house_id code db).0 ≡ ok true
      → Approved house_id code db (approve_pairing platform cipher house_id code db).1
  unfolding answers matching bound_house
  approve_pairing-Approved house_id code db laws h =
      let steps = approve_pairing-Steps house_id code db h in
      let up =
        upsert_surface-Upserted steps.app house_id steps.request.yandex_user_id db
          steps.bound_tables steps.upserted in
      let (listed, passes) = find-Memᴰ _ _ _ steps.matches in
      let (house, now_bound, right) =
        row_bound house_id steps.app steps.request.yandex_user_id db steps.bound_tables steps.exists
          up in
      record {
        application_id = steps.app;
        request = steps.request;
        listed = (laws.scans db.pairing_requests (steps.app, steps.request)).0 listed;
        in_time = ground arith;
        answered = ground arith;
        member = steps.exists;
        house = house;
        now_bound = rw steps.is_after now_bound;
        right_house = right;
        used = rw steps.is_after (rw get-insert (rw (text_eq_refl steps.app, up.is_after) refl));
        same_account = up.same_account;
        others = λ app ne.
            rw steps.is_after
              (rw up.is_after (rw get-insert (ground (arith, text_eq_iff steps.app app))));
        rest_same = rw steps.is_after (rw up.is_after refl);
      }
