-- ===== src/PgHousehold/Resolve.antt =====
-- What the store in Postgres answers to the question whose surface this is.
use alice_llm_bridge.Base.{
  ℕ, ◌+◌, true, false, ◌≡◌, ◌≢◌, ◌⊎◌, refl, sym, ap, ◌∙◌, none, some, List, [], ◌∷◌, arith,
  Option-cases, Bool-cases, inl, inr,
}
use alice_llm_bridge.Base.Text.{Text, text_eq_iff, text_eq_refl}
use alice_llm_bridge.Base.Dict.{get, insert, slot_key, int_key, text_key}
use alice_llm_bridge.Household.{
  SurfaceIdentity, HouseContext, SurfaceResolution, bound, pairing_required, unauthorized, Result,
  ok, err,
}
use alice_llm_bridge.StateCrypto.{StateCipher, pairing_code_hash}
use alice_llm_bridge.PgHousehold.{
  Platform, db_error, pairing_ttl_seconds, six_digits, only_house, resolve_surface,
  create_pairing_request,
}
use alice_llm_bridge.PgHousehold.Tables.{
  HouseRow, MemberRow, SurfaceRow, PairingRow, Query, Database, member_key, context_of, bound_house,
  has_member, memberships_in,
}

-- The device is bound to this very account and house, and surface, membership and house are enabled.
pub record IsBound (db : Database) (identity : SurfaceIdentity) (house : HouseContext)
    : Type 0 where
  pub surface : SurfaceRow
  pub member : MemberRow
  pub row : HouseRow
  pub surface_row : get identity.application_id db.surfaces ≡ some surface
  pub same_user : surface.yandex_user_id ≡ identity.user_id
  pub surface_enabled : surface.enabled ≡ true
  pub member_row : get (member_key surface.house_id identity.user_id) db.members ≡ some member
  pub member_is_enabled : member.enabled ≡ true
  pub house_row : get surface.house_id db.houses ≡ some row
  pub house_is_enabled : row.enabled ≡ true
  pub is_house : house ≡ context_of surface.house_id row

pub bound_house-IsBound :
    (db : Database) (identity : SurfaceIdentity) (house : HouseContext)
    → bound_house db identity ≡ some house
    → IsBound db identity house
unfolding bound_house
bound_house-IsBound db identity house h =
    elim (Option-cases (get identity.application_id db.surfaces)) [
      | inl e ↦ absurd (ground arith)
      | inr (s, es) ↦
          elim (Option-cases (get (member_key s.house_id s.yandex_user_id) db.members)) [
            | inl e ↦ absurd (ground arith)
            | inr (m, em) ↦ elim (Option-cases (get s.house_id db.houses)) [
              | inl e ↦ absurd (ground arith)
              | inr (row, eh) ↦
                  let same : s.yandex_user_id ≡ identity.user_id =
                    ground (arith, text_eq_iff s.yandex_user_id identity.user_id) in
                  record {
                    surface = s;
                    member = m;
                    row = row;
                    surface_row = es;
                    same_user = same;
                    surface_enabled = ground arith;
                    member_row = rw (← same) em;
                    member_is_enabled = ground arith;
                    house_row = eh;
                    house_is_enabled = ground arith;
                    is_house = ground arith;
                  }
            ]
          ]
    ]

pub IsBound-bound_house :
    (db : Database) (identity : SurfaceIdentity) (house : HouseContext)
    → IsBound db identity house
    → bound_house db identity ≡ some house
unfolding bound_house
IsBound-bound_house db identity house b = rw b.surface_row (
    rw (b.same_user, text_eq_refl identity.user_id, b.surface_enabled)
      (rw b.member_row
        (rw (b.member_is_enabled, b.house_row) (rw b.house_is_enabled (ap some (sym b.is_house))))))

List-cases {ℓ} : {A : Type ℓ} (xs : List A) → (xs ≡ []) ⊎ ((x : A) × (ys : List A) × (xs ≡ x ∷ ys))
List-cases [] = inl refl
List-cases (x ∷ xs) = inr (x, xs, refl)

module _ (platform : Platform) (cipher : StateCipher) where
  -- The request that a new device leaves: the hash of the code that it speaks, for ten minutes, for
  -- the one house of its account or, if there are several, for none yet.
  abbrev pub request_of : Database → SurfaceIdentity → Text → PairingRow
  request_of db identity code = record {
    house_id = only_house platform cipher (memberships_in db identity.user_id db.members);
    yandex_user_id = identity.user_id;
    code_hash =
        pairing_code_hash platform.ciphers cipher identity.user_id identity.application_id code;
    expires_at = db.now + pairing_ttl_seconds;
    approved_at = none;
  }

  -- Every outcome of `resolve_surface`, with the tables after it.
  pub data Resolved (db : Database) (identity : SurfaceIdentity)
      (x : Result SurfaceResolution × Database) : Type 0 where
    to_house :
        (house : HouseContext)
        → IsBound db identity house
        → x ≡ (ok (bound house), db)
        → Resolved db identity x
    other_device :
        (s : SurfaceRow)
        → get identity.application_id db.surfaces ≡ some s
        → ((house : HouseContext) → IsBound db identity house → ⊥)
        → x ≡ (ok unauthorized, db)
        → Resolved db identity x
    stranger :
        get identity.application_id db.surfaces ≡ none
        → memberships_in db identity.user_id db.members ≡ []
        → x ≡ (ok unauthorized, db)
        → Resolved db identity x
    newcomer :
        (code : Text)
        → get identity.application_id db.surfaces ≡ none
        → memberships_in db identity.user_id db.members ≢ []
        → code ≡ six_digits (platform.random_code db.draws)
        → x ≡ (
          ok (pairing_required code),
          record db {
            pairing_requests =
                insert identity.application_id (request_of db identity code) db.pairing_requests;
            draws = db.draws + 1;
          },
        )
        → Resolved db identity x
    failed : (e : Text) (n : ℕ) → x ≡ (err e, record db { draws = n }) → Resolved db identity x

  -- the outcomes for a device that is in no row
  newcomer-Resolved :
      (identity : SurfaceIdentity) (db : Database)
      → db.fails Query.select_bound ≡ false
      → bound_house db identity ≡ none
      → db.fails Query.select_application ≡ false
      → get identity.application_id db.surfaces ≡ none
      → Resolved db identity (resolve_surface platform cipher identity db)
  unfolding resolve_surface create_pairing_request has_member
  newcomer-Resolved identity db runs e runs' unknown =
      elim (Bool-cases (db.fails Query.select_memberships)) [
        | inl f ↦ failed db_error db.draws (ground arith)
        | inr f ↦ elim (List-cases (memberships_in db identity.user_id db.members)) [
          | inl nobody ↦ stranger unknown nobody (ground arith)
          | inr (house_id, more, is) ↦ elim (Bool-cases (db.fails Query.insert_pairing)) [
            | inl f' ↦ failed db_error (db.draws + 1) (ground arith)
            | inr f' ↦
                elim (Bool-cases (
                  has_member db
                    (only_house platform cipher (memberships_in db identity.user_id db.members))
                    identity.user_id)) [
                      | inr no_member ↦ failed db_error (db.draws + 1) (ground arith)
                      | inl is_member ↦
                          newcomer (six_digits (platform.random_code db.draws)) unknown (λ q. cc)
                            refl
                            (rw runs (
                              rw e (
                                rw runs' (
                                  rw unknown
                                    (rw f (rw is (rw f' (rw (rw is at is_member) refl))))))))
                    ]
          ]
        ]
      ]

  -- A surface is bound only to the house that an enabled row names for exactly its device and
  -- account; a device known for another account or disabled is turned away, and so is an account that
  -- belongs to no house; a new device of a member leaves a pairing request; a failure leaves the tables.
  pub resolve_surface-Resolved :
      (identity : SurfaceIdentity) (db : Database)
      → Resolved db identity (resolve_surface platform cipher identity db)
  unfolding resolve_surface create_pairing_request
  resolve_surface-Resolved identity db = elim (Bool-cases (db.fails Query.select_bound)) [
    | inl f ↦ failed db_error db.draws (ground arith)
    | inr f ↦ elim (Option-cases (bound_house db identity)) [
      | inr (house, e) ↦ to_house house (bound_house-IsBound db identity house e) (ground arith)
      | inl e ↦ elim (Bool-cases (db.fails Query.select_application)) [
        | inl f' ↦ failed db_error db.draws (ground arith)
        | inr f' ↦ elim (Option-cases (get identity.application_id db.surfaces)) [
          | inr (s, known) ↦
              other_device s known
                (λ house b. absurd (differ house (sym e ∙ IsBound-bound_house db identity house b)))
                (ground arith)
          | inl unknown ↦ newcomer-Resolved identity db f e f' unknown
        ]
      ]
    ]
  ]
    where
      differ : (house : HouseContext) → none ≡ some house → ⊥
      differ house q = cc
