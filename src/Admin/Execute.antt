-- ===== src/Admin/Execute.antt =====
-- crates/bridge-server/src/bin/bridge-admin.rs, `execute`: the commands on the tables.
use alice_llm_bridge.Base.{ℤ, Bool, true, false, not, ◌&&◌, if◌then◌else◌, Option, none, some}
use alice_llm_bridge.Base.Text.{Text}
use alice_llm_bridge.Base.Dict.{get, insert, slot_key, int_key, text_key}
use alice_llm_bridge.Household
use alice_llm_bridge.StateCrypto.{CryptoResult, StateCipher, from_hex}
use alice_llm_bridge.PgHousehold.{Platform}
use alice_llm_bridge.PgHousehold.Tables.{Database, MemberRow, SurfaceRow, member_key, is_known}
use alice_llm_bridge.PgHousehold.Approve
use alice_llm_bridge.Admin.{
  AdminCommand, create_house, add_member, approve_pairing, disable_member, disable_surface,
  invalid_environment, database, pairing_not_found, AdminResult, ok, err, is_role,
}

-- The statements of the tool, to say which of them fails.
pub data Statement : Type 0 where
  insert_house upsert_member update_member update_surface : Statement

-- What `execute` takes from outside: the failures of its statements, the next id that
-- `houses_id_seq` gives, and the variable STATE_ENCRYPTION_KEY.
pub record Outside : Type 0 where
  pub fails : Statement → Bool
  pub next_house_id : Database → ℤ
  pub key : Option Text

-- a statement without an error changes the tables
abbrev pub run : Bool → Database → Database → AdminResult (Unit {0}) × Database
run fails db changed = if fails then (err database, db) else (ok tt, changed)

-- INSERT INTO houses
abbrev pub with_house : ℤ → Text → Text → Database → Database
with_house id name connector db = record db {
  houses =
      insert id
        (record {
          name = name;
          codex_thread_id = none;
          homey_connector_id = connector;
          enabled = true;
        })
        db.houses;
}

-- INSERT INTO house_members … ON CONFLICT … DO UPDATE
abbrev pub with_member : ℤ → Text → Text → Database → Database
with_member house_id user_id role db = record db {
  members =
      insert (member_key house_id user_id) (record { role = role; enabled = true }) db.members;
}

-- the CHECK of `role`, and the foreign key `house_id`
abbrev pub violates : ℤ → Text → Database → Bool
violates house_id role db = not (is_role role && is_known (get house_id db.houses))

abbrev disabled_member : ℤ → Text → Database → Option MemberRow → Database
disabled_member house_id user_id db none = db
disabled_member house_id user_id db (some m) = record db {
  members = insert (member_key house_id user_id) (record m { enabled = false }) db.members;
}

-- UPDATE house_members SET enabled = FALSE
unfoldable pub without_member : ℤ → Text → Database → Database
without_member house_id user_id db =
    disabled_member house_id user_id db (get (member_key house_id user_id) db.members)

abbrev disabled_surface : Text → Database → Option SurfaceRow → Database
disabled_surface application_id db none = db
disabled_surface application_id db (some s) = record db {
  surfaces = insert application_id (record s { enabled = false }) db.surfaces;
}

-- UPDATE surfaces SET enabled = FALSE
unfoldable pub without_surface : Text → Database → Database
without_surface application_id db =
    disabled_surface application_id db (get application_id db.surfaces)

abbrev pub on_approval : Household.Result Bool × Database → AdminResult (Unit {0}) × Database
on_approval (Household.ok true, db) = (ok tt, db)
on_approval (Household.ok false, db) = (err pairing_not_found, db)
on_approval (Household.err _, db) = (err database, db)

module _ (platform : Platform) (outside : Outside) where
  abbrev pub with_cipher :
      ℤ → Text → CryptoResult StateCipher → Database → AdminResult (Unit {0}) × Database
  with_cipher house_id code (CryptoResult.err _) db = (err invalid_environment, db)
  with_cipher house_id code (CryptoResult.ok cipher) db =
      on_approval (Approve.approve_pairing platform cipher house_id code db)

  abbrev pub with_key : ℤ → Text → Option Text → Database → AdminResult (Unit {0}) × Database
  with_key house_id code none db = (err invalid_environment, db)
  with_key house_id code (some key) db =
      with_cipher house_id code (from_hex platform.ciphers key) db

  unfoldable pub execute : AdminCommand → Database → AdminResult (Unit {0}) × Database
  unfolding without_member without_surface
  execute (create_house name connector) db =
      run (outside.fails insert_house) db (with_house (outside.next_house_id db) name connector db)
  execute (add_member house_id user_id role) db =
      if violates house_id role db
      then (err database, db)
      else run (outside.fails upsert_member) db (with_member house_id user_id role db)
  execute (approve_pairing house_id code) db = with_key house_id code outside.key db
  execute (disable_member house_id user_id) db =
      run (outside.fails update_member) db (without_member house_id user_id db)
  execute (disable_surface application_id) db =
      run (outside.fails update_surface) db (without_surface application_id db)
