-- ===== src/PgHousehold/Tables.antt =====
-- migrations/0002_household.sql: the tables of a household, and the statements that
-- crates/bridge-server/src/house_store_pg.rs runs on them. A table is a map from its primary key;
-- `pairing_requests` is keyed by `application_id`, which is unique. Times are in seconds.
use alice_llm_bridge.Base.{
  ℕ, ℤ, int_eq, ltb, Bool, true, false, ◌&&◌, if◌then◌else◌, Option, none, some, List, [], ◌∷◌,
}
use alice_llm_bridge.Base.Text.{Text, text_eq}
use alice_llm_bridge.Base.Dict.{Slot, get, slot_key, int_key, text_key}
use alice_llm_bridge.Household.{HouseContext, SurfaceIdentity}
use alice_llm_bridge.StateCrypto.{EncryptedPayload}

pub record HouseRow : Type 0 where
  pub name : Text
  pub codex_thread_id : Option Text
  pub homey_connector_id : Text
  pub enabled : Bool

pub record MemberRow : Type 0 where
  pub role : Text
  pub enabled : Bool

pub record SurfaceRow : Type 0 where
  pub house_id : ℤ
  pub yandex_user_id : Text
  pub enabled : Bool

pub record PairingRow : Type 0 where
  pub house_id : Option ℤ
  pub yandex_user_id : Text
  pub code_hash : List ℕ
  pub expires_at : ℕ
  pub approved_at : Option ℕ

-- `status`, with the columns that the table's CHECK ties to it
pub data PendingStatus : Type 0 where
  thinking : PendingStatus
  ready : EncryptedPayload → PendingStatus

pub record PendingRow : Type 0 where
  pub status : PendingStatus
  pub expires_at : ℕ

pub record ContinuationRow : Type 0 where
  pub payload : EncryptedPayload
  pub expires_at : ℕ

-- The statements, to say which of them fails.
pub data Query : Type 0 where
  select_bound select_application select_memberships insert_pairing update_thread : Query
  select_pending upsert_thinking upsert_ready delete_pending : Query
  delete_live_continuation upsert_continuation delete_continuation : Query
  begin commit rollback select_pairings select_member upsert_surface update_pairing : Query

-- The database, its clock, the statements that fail at present, and how often the program has drawn
-- random bytes.
pub record Database : Type 0 where
  pub houses : List (ℤ × HouseRow)
  pub members : List (Slot × MemberRow)
  pub surfaces : List (Text × SurfaceRow)
  pub pairing_requests : List (Text × PairingRow)
  pub pending_replies : List (Slot × PendingRow)
  pub continuations : List (Slot × ContinuationRow)
  pub now : ℕ
  pub fails : Query → Bool
  pub draws : ℕ

-- the key `(house_id, yandex_user_id)` of `house_members`
abbrev pub member_key : ℤ → Text → Slot
member_key house_id user_id = record { house_id = house_id; application_id = user_id }

abbrev pub slot : ℤ → Text → Slot
slot house_id application_id = record { house_id = house_id; application_id = application_id }

abbrev pub member_enabled : Option MemberRow → Bool
member_enabled none = false
member_enabled (some m) = m.enabled

abbrev pub house_enabled : Option HouseRow → Bool
house_enabled none = false
house_enabled (some h) = h.enabled

abbrev pub context_of : ℤ → HouseRow → HouseContext
context_of id h = record {
  id = id;
  name = h.name;
  codex_thread_id = h.codex_thread_id;
  homey_connector_id = h.homey_connector_id;
}

abbrev enabled_house : ℤ → Option HouseRow → Option HouseContext
enabled_house id none = none
enabled_house id (some h) = if h.enabled then some (context_of id h) else none

abbrev bound_surface : Database → Text → Option SurfaceRow → Option HouseContext
bound_surface db user_id none = none
bound_surface db user_id (some s) =
    if text_eq s.yandex_user_id user_id
      && s.enabled
      && member_enabled (get (member_key s.house_id s.yandex_user_id) db.members)
    then enabled_house s.house_id (get s.house_id db.houses)
    else none

-- SELECT … FROM surfaces s JOIN house_members m … JOIN houses h …: one row at most, by the keys
unfoldable pub bound_house : Database → SurfaceIdentity → Option HouseContext
bound_house db identity =
    bound_surface db identity.user_id (get identity.application_id db.surfaces)

abbrev pub is_known {ℓ} : {A : Type ℓ} → Option A → Bool
is_known none = false
is_known (some _) = true

-- the houses of the enabled memberships of an account, in enabled houses
unfoldable pub memberships_in : Database → Text → List (Slot × MemberRow) → List ℤ
memberships_in db user_id [] = []
memberships_in db user_id ((key, m) ∷ rows) =
    let rest = memberships_in db user_id rows in
    if text_eq key.application_id user_id && m.enabled && house_enabled (get key.house_id db.houses)
    then key.house_id ∷ rest
    else rest

-- `expires_at > now()`
abbrev pub live : ℕ → ℕ → Bool
live now expires_at = ltb now expires_at

abbrev pub live_pending : ℕ → Option PendingRow → Option PendingStatus
live_pending now none = none
live_pending now (some row) = if live now row.expires_at then some row.status else none

abbrev pub live_continuation : ℕ → Option ContinuationRow → Option EncryptedPayload
live_continuation now none = none
live_continuation now (some row) = if live now row.expires_at then some row.payload else none

-- the foreign key `(house_id, application_id)` of `pending_replies` and `continuations`
abbrev surface_in : ℤ → Option SurfaceRow → Bool
surface_in house_id none = false
surface_in house_id (some s) = int_eq s.house_id house_id

unfoldable pub has_surface : Database → Slot → Bool
has_surface db j = surface_in j.house_id (get j.application_id db.surfaces)

-- the foreign key `(house_id, yandex_user_id)` of `surfaces` and `pairing_requests`
unfoldable pub has_member : Database → Option ℤ → Text → Bool
has_member db none user_id = true
has_member db (some house_id) user_id = is_known (get (member_key house_id user_id) db.members)
