-- ===== src/Admin/Disabled.antt =====
-- What the disabling of a member and of a surface does to the requests of a surface.
use alice_llm_bridge.Base.{
  ℤ, int_eq, Bool, false, ◌&&◌, ◌≡◌, refl, arith, Option, none, some, Option-cases, Bool-cases, inl,
  inr, if◌then◌else◌,
}
use alice_llm_bridge.Base.Text.{Text, text_eq, text_eq_iff}
use alice_llm_bridge.Base.Dict.{
  Slot, slot_eq, get, get-insert, slot_eq_iff, slot_key, int_key, text_key,
}
use alice_llm_bridge.Household.{HouseContext, SurfaceIdentity}
use alice_llm_bridge.PgHousehold.Tables.{Database, member_key, member_enabled, bound_house}
use alice_llm_bridge.PgHousehold.{Platform}
use alice_llm_bridge.Admin.{disable_member, disable_surface}
use alice_llm_bridge.Admin.Execute.{
  Outside, without_member, without_surface, execute, update_member, update_surface,
}

-- the house of a surface, unless it is this one and the account is the one that is meant
abbrev pub unless_in : ℤ → Bool → Option HouseContext → Option HouseContext
unless_in id mine none = none
unless_in id mine (some house) = if mine && int_eq id house.id then none else some house

enabled-off :
    (id : ℤ) (user : Text) (db : Database) (key : Slot)
    → member_enabled (get key (without_member id user db).members)
      ≡ (if slot_eq (member_key id user) key then false else member_enabled (get key db.members))
unfolding without_member
enabled-off id user db key = elim (Option-cases (get (member_key id user) db.members)) [
  | inl missing ↦ elim (Bool-cases (slot_eq (member_key id user) key)) [
    | inl own ↦
        let same : get key db.members ≡ none =
          rw ((slot_eq_iff (member_key id user) key).0 own) at missing in
        rw (missing, own, same) refl
    | inr other ↦ rw (missing, other) refl
  ]
  | inr (m, found) ↦ rw found (
      ground (arith, get-insert (member_key id user) key (record m { enabled = false }) db.members))
]

same_tables :
    (id : ℤ) (user : Text) (db : Database)
    → ((without_member id user db).surfaces ≡ db.surfaces)
      × ((without_member id user db).houses ≡ db.houses)
unfolding without_member
same_tables id user db = elim (Option-cases (get (member_key id user) db.members)) [
  | inl missing ↦ rw missing (refl, refl)
  | inr (m, found) ↦ rw found (refl, refl)
]

member-off :
    (id : ℤ) (user : Text) (db : Database) (speaker : SurfaceIdentity)
    → bound_house (without_member id user db) speaker
      ≡ unless_in id (text_eq user speaker.user_id) (bound_house db speaker)
unfolding bound_house
member-off id user db speaker = elim (Option-cases (get speaker.application_id db.surfaces)) [
  | inl e ↦ rw ((same_tables id user db).0, e) refl
  | inr (s, e) ↦
      rw ((same_tables id user db).0, (same_tables id user db).1, e)
        (rw (enabled-off id user db (member_key s.house_id s.yandex_user_id))
          (ground (arith, text_eq_iff s.yandex_user_id speaker.user_id)))
]

-- The surface that was disabled binds nobody, and every other surface binds as before.
surface-off :
    (app : Text) (db : Database) (speaker : SurfaceIdentity)
    → bound_house (without_surface app db) speaker
      ≡ (if text_eq app speaker.application_id then none else bound_house db speaker)
unfolding without_surface bound_house
surface-off app db speaker = elim (Option-cases (get app db.surfaces)) [
  | inl missing ↦ elim (Bool-cases (text_eq app speaker.application_id)) [
    | inl own ↦
        let same : get speaker.application_id db.surfaces ≡ none =
          rw ((text_eq_iff app speaker.application_id).0 own) at missing in
        rw (missing, own, same) refl
    | inr other ↦ rw (missing, other) refl
  ]
  | inr (s, found) ↦ elim (Bool-cases (text_eq app speaker.application_id)) [
    | inl own ↦
        rw
          (
            found,
            get-insert app speaker.application_id (record s { enabled = false }) db.surfaces,
            own,
          )
          (ground arith)
    | inr other ↦
        rw
          (
            found,
            get-insert app speaker.application_id (record s { enabled = false }) db.surfaces,
            other,
          )
          refl
  ]
]

-- Where the statements run: once a member is disabled, that account is resolved no more to that
-- house, and all else is resolved as before; once a surface is disabled, no account that speaks there
-- is resolved to a house, and all other surfaces are resolved as before.
pub execute-disabled :
    (platform : Platform) (outside : Outside) (id : ℤ) (user app : Text) (db : Database)
    (speaker : SurfaceIdentity)
    → outside.fails update_member ≡ false
    → outside.fails update_surface ≡ false
    → (bound_house (execute platform outside (disable_member id user) db).1 speaker
        ≡ unless_in id (text_eq user speaker.user_id) (bound_house db speaker))
      × (bound_house (execute platform outside (disable_surface app) db).1 speaker
          ≡ (if text_eq app speaker.application_id then none else bound_house db speaker))
unfolding execute
execute-disabled platform outside id user app db speaker runs runs' =
    (rw runs (member-off id user db speaker), rw runs' (surface-off app db speaker))
