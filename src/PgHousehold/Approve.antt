-- ===== src/PgHousehold/Approve.antt =====
-- `PgHouseholdStore::approve_pairing`: the owner of a house says the code that a new surface spoke.
-- An error leaves the tables: the transaction is rolled back when it is dropped.
use alice_llm_bridge.Base.{
  ℕ, ℤ, int_eq, ◌==◌, Bool, true, false, ◌&&◌, not, if◌then◌else◌, Option, none, some, length, all,
  find,
}
use alice_llm_bridge.Base.Text.{Text, codes, text_eq, is_ascii_digit}
use alice_llm_bridge.Base.Utf8.{as_bytes}
use alice_llm_bridge.Base.Dict.{get, insert, slot_key, int_key, text_key}
use alice_llm_bridge.Household.{Result, ok, err}
use alice_llm_bridge.StateCrypto.{StateCipher, pairing_code_matches}
use alice_llm_bridge.PgHousehold.{Platform, ◌>>=◌, execute, select, done, fail}
use alice_llm_bridge.PgHousehold.Tables.{
  SurfaceRow, PairingRow, Query, Database, member_key, member_enabled, house_enabled, has_member,
  is_known, live,
}

-- WHERE (house_id = $1 OR house_id IS NULL) AND approved_at IS NULL AND expires_at > now()
abbrev pub for_house : ℤ → Option ℤ → Bool
for_house house_id none = true
for_house house_id (some id) = int_eq id house_id

unfoldable pub is_open : ℤ → ℕ → PairingRow → Bool
is_open house_id now r =
    for_house house_id r.house_id && not (is_known r.approved_at) && live now r.expires_at

-- `code.len() != 6 || !code.chars().all(|character| character.is_ascii_digit())`, negated
unfoldable pub is_code : Text → Bool
unfolding is_ascii_digit
is_code code = length (as_bytes code) == 6 && all is_ascii_digit code

-- the tables as they were, if the body failed
abbrev undo : {A : Type 0} → Database → Result A × Database → Result A × Database
undo db (ok a, db') = (ok a, db')
undo db (err e, db') = (err e, db)

abbrev transaction :
    {A : Type 0} → (Database → Result A × Database) → Database → Result A × Database
transaction body db = undo db (body db)

module _ (platform : Platform) (cipher : StateCipher) where
  unfoldable pub answers : ℤ → Text → ℕ → Text × PairingRow → Bool
  answers house_id code now (application_id, r) =
      is_open house_id now r
      && pairing_code_matches platform.ciphers cipher r.code_hash r.yandex_user_id application_id
          code

  -- the first of the selected rows that the code answers
  unfoldable pub matching : ℤ → Text → Database → Option (Text × PairingRow)
  matching house_id code db =
      find (answers house_id code db.now) (platform.scan db.pairing_requests)

  unfoldable pub membership_exists : ℤ → Text → Database → Bool
  membership_exists house_id user_id db =
      member_enabled (get (member_key house_id user_id) db.members)
      && house_enabled (get house_id db.houses)

  -- INSERT INTO surfaces … ON CONFLICT … DO UPDATE … WHERE: the rows affected
  abbrev upsert_row : Text → ℤ → Text → Database → Option SurfaceRow → Option (ℕ × Database)
  upsert_row application_id house_id user_id db none =
      if has_member db (some house_id) user_id
      then some (
        1,
        record db {
          surfaces =
              insert application_id
                (record { house_id = house_id; yandex_user_id = user_id; enabled = true })
                db.surfaces;
        },
      )
      else none
  upsert_row application_id house_id user_id db (some s) =
      if int_eq s.house_id house_id && text_eq s.yandex_user_id user_id
      then some (
        1,
        record db { surfaces = insert application_id (record s { enabled = true }) db.surfaces },
      )
      else some (0, db)

  unfoldable pub upsert_surface : Text → ℤ → Text → Database → Option (ℕ × Database)
  upsert_surface application_id house_id user_id db =
      upsert_row application_id house_id user_id db (get application_id db.surfaces)

  -- UPDATE pairing_requests SET house_id = $2, approved_at = now() WHERE id = $1
  abbrev approve_row : Text → ℤ → PairingRow → Database → Option (Unit {0} × Database)
  approve_row application_id house_id r db = some (
    tt,
    record db {
      pairing_requests =
          insert application_id (record r { house_id = some house_id; approved_at = some db.now })
            db.pairing_requests;
    },
  )

  abbrev unit : Database → Option (Unit {0} × Database)
  unit db = some (tt, db)

  abbrev refuse : Database → Result Bool × Database
  refuse = do undone ← execute Query.rollback unit; done false

  abbrev commit_surface : Text → ℤ → PairingRow → ℕ → Database → Result Bool × Database
  commit_surface application_id house_id r inserted =
      if inserted == 1
      then (do
        updated ← execute Query.update_pairing (approve_row application_id house_id r)
        committed ← execute Query.commit unit
        done true)
      else (do
        undone ← execute Query.rollback unit
        fail (codes "application is already bound to another household"))

  abbrev bind_surface : Text → ℤ → PairingRow → Bool → Database → Result Bool × Database
  bind_surface application_id house_id r false = refuse
  bind_surface application_id house_id r true = do
    inserted ←
        execute Query.upsert_surface (upsert_surface application_id house_id r.yandex_user_id)
    commit_surface application_id house_id r inserted

  abbrev pub on_match : ℤ → Option (Text × PairingRow) → Database → Result Bool × Database
  on_match house_id none = refuse
  on_match house_id (some (application_id, r)) = do
    exists ← select Query.select_member (membership_exists house_id r.yandex_user_id)
    bind_surface application_id house_id r exists

  unfoldable pub approve_pairing : ℤ → Text → Database → Result Bool × Database
  approve_pairing house_id code =
      if is_code code
      then transaction (do
        begun ← execute Query.begin unit
        request ← select Query.select_pairings (matching house_id code)
        on_match house_id request)
      else done false
