-- ===== src/PgHousehold.antt =====
-- crates/bridge-server/src/house_store_pg.rs: the household store in Postgres. A call fails where
-- one of its statements does, by `fails` or by a foreign key, and then leaves the tables.
pub mod Tables
pub mod View
pub mod Sealed
pub mod Slots
pub mod Approve
pub mod Resolve
pub mod Rows
pub mod Pairing
pub mod Expiry
pub mod Approved
use alice_llm_bridge.Base.{
  ℕ, ℤ, int_eq, ◌+◌, ◌/◌, ◌%◌, ◌^◌, ◌==◌, Bool, true, false, ◌&&◌, ◌||◌, not, if◌then◌else◌, Option,
  none, some, List, [], ◌∷◌, is_empty, all, length, ◌≡◌,
}
use alice_llm_bridge.Base.Text.{Text, codes, text_eq, is_ascii_digit}
use alice_llm_bridge.Base.Utf8.{as_bytes, from_utf8, IsText}
use alice_llm_bridge.Base.Dict.{Slot, get, insert, remove, slot_key, int_key, text_key}
use alice_llm_bridge.Household.{
  SurfaceIdentity, HouseContext, SurfaceResolution, bound, pairing_required, unauthorized,
  PendingReply, thinking, ready, Result, ok, err, HouseholdStore,
}
use alice_llm_bridge.StateCrypto.{
  Ciphers, AreCiphers, StateCipher, EncryptedPayload, CryptoResult, CryptoError, seal, open_payload,
  pairing_code_hash, pairing_code_matches, nonce_bytes,
}
use Tables
use Tables.{
  HouseRow, SurfaceRow, PairingRow, PendingRow, PendingStatus, ContinuationRow, Query, Database,
  slot, member_key, bound_house, is_known, memberships_in, live, live_pending, live_continuation,
  has_surface, has_member, member_enabled, house_enabled,
}

abbrev pub pairing_ttl_seconds : ℕ
pairing_ttl_seconds = 600

abbrev pub pending_ttl_seconds : ℕ
pending_ttl_seconds = 120

abbrev pub continuation_ttl_seconds : ℕ
continuation_ttl_seconds = 600

-- What the store takes from libraries: the ciphers, JSON of a list of strings, and the `n`th draw of
-- random bytes and of a number below 1,000,000. A SELECT with no order gives the rows of a table as
-- `scan` does.
pub record Platform : Type 0 where
  pub ciphers : Ciphers
  pub to_json : List Text → Text
  pub from_json : Text → Option (List Text)
  pub random_nonce : ℕ → List ℕ
  pub random_code : ℕ → ℕ
  pub scan : List (Text × PairingRow) → List (Text × PairingRow)

abbrev pub db_error : Text
db_error = codes "household database operation failed"

abbrev pub crypto_error : Text
crypto_error = codes "household state authentication failed"

-- a decimal digit of a number; `{:06}` of a number below 1,000,000
abbrev pub six_digits : ℕ → Text
six_digits n =
    (b'0' + n / 100000 % 10)
    ∷ (b'0' + n / 10000 % 10)
    ∷ (b'0' + n / 1000 % 10)
    ∷ (b'0' + n / 100 % 10)
    ∷ (b'0' + n / 10 % 10)
    ∷ (b'0' + n % 10)
    ∷ []

-- A statement: it fails, or it runs; `none` is a violated constraint.
abbrev pub ran : {A : Type 0} → Database → Option (A × Database) → Result A × Database
ran db none = (err db_error, db)
ran db (some (a, db')) = (ok a, db')

abbrev pub execute :
    {A : Type 0} → Query → (Database → Option (A × Database)) → Database → Result A × Database
execute query run db = if db.fails query then (err db_error, db) else ran db (run db)

infixl 5 ◌>>=◌
abbrev pub bind :
    {A B : Type 0}
    → Result A × Database
    → (A → Database → Result B × Database)
    → Result B × Database
bind (ok a, db) f = f a db
bind (err e, db) f = (err e, db)

abbrev pub ◌>>=◌ :
    {A B : Type 0}
    → (Database → Result A × Database)
    → (A → Database → Result B × Database)
    → Database
    → Result B × Database
◌>>=◌ m f db = bind (m db) f

abbrev pub done : {A : Type 0} → A → Database → Result A × Database
done a db = (ok a, db)

abbrev pub fail : {A : Type 0} → Text → Database → Result A × Database
fail e db = (err e, db)

-- a SELECT reads and changes nothing
abbrev pub select : {A : Type 0} → Query → (Database → A) → Database → Result A × Database
select query read = execute query (λ db. some (read db, db))

module _ (platform : Platform) (cipher : StateCipher) where
  -- `open_text`: decrypt, then `String::from_utf8`
  abbrev opened_utf8 : Option Text → Result Text
  opened_utf8 none = err (codes "encrypted state is not valid UTF-8")
  opened_utf8 (some text) = ok text

  abbrev opened : CryptoResult (List ℕ) → Result Text
  opened (CryptoResult.err _) = err crypto_error
  opened (CryptoResult.ok plaintext) = opened_utf8 (from_utf8 plaintext)

  unfoldable pub open_text : EncryptedPayload → Result Text
  open_text payload = opened (open_payload platform.ciphers cipher payload)

  -- `seal` with a fresh nonce
  abbrev sealed : Database → CryptoResult EncryptedPayload → Result EncryptedPayload × Database
  sealed db (CryptoResult.err _) = (err crypto_error, record db { draws = db.draws + 1 })
  sealed db (CryptoResult.ok payload) = (ok payload, record db { draws = db.draws + 1 })

  unfoldable pub seal_text : Text → Database → Result EncryptedPayload × Database
  seal_text text db =
      sealed db (seal platform.ciphers cipher (platform.random_nonce db.draws) (as_bytes text))

  abbrev insert_request : Option ℤ → Text → Text → List ℕ → Database → Option (Unit {0} × Database)
  insert_request house_id user_id application_id code_hash db =
      if has_member db house_id user_id
      then some (
        tt,
        record db {
          pairing_requests =
              insert application_id
                (record {
                  house_id = house_id;
                  yandex_user_id = user_id;
                  code_hash = code_hash;
                  expires_at = db.now + pairing_ttl_seconds;
                  approved_at = none;
                })
                db.pairing_requests;
        },
      )
      else none

  -- `rand::random_range(0..1_000_000)`, printed
  abbrev draw_code : Database → Result Text × Database
  draw_code db =
      (ok (six_digits (platform.random_code db.draws)), record db { draws = db.draws + 1 })

  unfoldable pub create_pairing_request : Option ℤ → Text → Text → Database → Result Text × Database
  create_pairing_request house_id user_id application_id = do
    code ← draw_code
    stored ← execute Query.insert_pairing (
        insert_request house_id user_id application_id
          (pairing_code_hash platform.ciphers cipher user_id application_id code))
    done code

  -- `(memberships.len() == 1).then(…)`, after `LIMIT 2`
  abbrev pub only_house : List ℤ → Option ℤ
  only_house (house_id ∷ []) = some house_id
  only_house _ = none

  abbrev pair : SurfaceIdentity → List ℤ → Database → Result SurfaceResolution × Database
  pair identity [] = done unauthorized
  pair identity (house_id ∷ more) = do
    code ←
        create_pairing_request (only_house (house_id ∷ more)) identity.user_id
          identity.application_id
    done (pairing_required code)

  abbrev unbound : SurfaceIdentity → Bool → Database → Result SurfaceResolution × Database
  unbound identity true = done unauthorized
  unbound identity false = do
    memberships ←
        select Query.select_memberships (λ db. memberships_in db identity.user_id db.members)
    pair identity memberships

  abbrev found :
      SurfaceIdentity → Option HouseContext → Database → Result SurfaceResolution × Database
  found identity (some house) = done (bound house)
  found identity none = do
    exists ←
        select Query.select_application (λ db. is_known (get identity.application_id db.surfaces))
    unbound identity exists

  unfoldable pub resolve_surface : SurfaceIdentity → Database → Result SurfaceResolution × Database
  resolve_surface identity = do
    house ← select Query.select_bound (λ db. bound_house db identity)
    found identity house

  -- UPDATE houses … WHERE codex_thread_id IS NULL OR codex_thread_id = $2: the rows affected
  abbrev pub same_or_unset : Text → Option Text → Bool
  same_or_unset thread_id none = true
  same_or_unset thread_id (some id) = text_eq id thread_id

  abbrev set_thread : ℤ → Text → Database → Option HouseRow → ℕ × Database
  set_thread house_id thread_id db none = (0, db)
  set_thread house_id thread_id db (some h) =
      if same_or_unset thread_id h.codex_thread_id
      then (
        1,
        record db {
          houses = insert house_id (record h { codex_thread_id = some thread_id }) db.houses;
        },
      )
      else (0, db)

  unfoldable pub save_thread_id : ℤ → Text → Database → Result (Unit {0}) × Database
  save_thread_id house_id thread_id = do
    rows ←
        execute Query.update_thread
          (λ db. some (set_thread house_id thread_id db (get house_id db.houses)))
    if rows == 1 then done tt else fail (codes "house already has a different Codex thread")

  abbrev as_ready : Result Text → Result PendingReply
  as_ready (ok text) = ok (ready text)
  as_ready (err e) = err e

  abbrev pub read_pending : Option PendingStatus → Result PendingReply
  read_pending none = ok PendingReply.none
  read_pending (some PendingStatus.thinking) = ok thinking
  read_pending (some (PendingStatus.ready payload)) = as_ready (open_text payload)

  unfoldable pub poll_pending : ℤ → Text → Database → Result PendingReply × Database
  poll_pending house_id application_id = do
    status ←
        select Query.select_pending
          (λ db. live_pending db.now (get (slot house_id application_id) db.pending_replies))
    λ db. (read_pending status, db)

  -- INSERT … ON CONFLICT DO UPDATE, with the foreign key
  abbrev pub put_pending : Slot → PendingStatus → Database → Option (Unit {0} × Database)
  put_pending j status db =
      if has_surface db j
      then some (
        tt,
        record db {
          pending_replies =
              insert j (record { status = status; expires_at = db.now + pending_ttl_seconds })
                db.pending_replies;
        },
      )
      else none

  unfoldable pub mark_thinking : ℤ → Text → Database → Result (Unit {0}) × Database
  mark_thinking house_id application_id =
      execute Query.upsert_thinking
        (put_pending (slot house_id application_id) PendingStatus.thinking)

  unfoldable pub save_ready : ℤ → Text → Text → Database → Result (Unit {0}) × Database
  save_ready house_id application_id text = do
    payload ← seal_text text
    execute Query.upsert_ready
        (put_pending (slot house_id application_id) (PendingStatus.ready payload))

  unfoldable pub clear_pending : ℤ → Text → Database → Result (Unit {0}) × Database
  clear_pending house_id application_id = execute Query.delete_pending λ db.
      some (
        tt,
        record db { pending_replies = remove (slot house_id application_id) db.pending_replies },
      )

  -- DELETE … WHERE expires_at > now() RETURNING
  abbrev pub delete_live :
      Slot → Option EncryptedPayload → Database → Option EncryptedPayload × Database
  delete_live j none db = (none, db)
  delete_live j (some payload) db =
      (some payload, record db { continuations = remove j db.continuations })

  abbrev parsed : Option (List Text) → Result (Option (List Text))
  parsed none = err (codes "continuation payload is invalid")
  parsed (some chunks) = ok (some chunks)

  abbrev parse_chunks : Result Text → Result (Option (List Text))
  parse_chunks (ok text) = parsed (platform.from_json text)
  parse_chunks (err e) = err e

  abbrev pub read_chunks : Option EncryptedPayload → Result (Option (List Text))
  read_chunks none = ok none
  read_chunks (some payload) = parse_chunks (open_text payload)

  unfoldable pub take_continuation : ℤ → Text → Database → Result (Option (List Text)) × Database
  take_continuation house_id application_id = do
    let j = slot house_id application_id
    payload ←
        execute Query.delete_live_continuation
          (λ db. some (delete_live j (live_continuation db.now (get j db.continuations)) db))
    λ db. (read_chunks payload, db)

  unfoldable pub clear_continuation : ℤ → Text → Database → Result (Unit {0}) × Database
  clear_continuation house_id application_id = execute Query.delete_continuation λ db.
      some
        (tt, record db { continuations = remove (slot house_id application_id) db.continuations })

  abbrev pub put_continuation : Slot → EncryptedPayload → Database → Option (Unit {0} × Database)
  put_continuation j payload db =
      if has_surface db j
      then some (
        tt,
        record db {
          continuations =
              insert j
                (record { payload = payload; expires_at = db.now + continuation_ttl_seconds })
                db.continuations;
        },
      )
      else none

  unfoldable pub save_continuation : ℤ → Text → List Text → Database → Result (Unit {0}) × Database
  unfolding clear_continuation
  save_continuation house_id application_id chunks =
      if is_empty chunks then clear_continuation house_id application_id else do
        payload ← seal_text (platform.to_json chunks)
        execute Query.upsert_continuation (put_continuation (slot house_id application_id) payload)

  abbrev pub pg_store : HouseholdStore
  pg_store = record {
    State = Database;
    resolve_surface = resolve_surface;
    save_thread_id = save_thread_id;
    poll_pending = poll_pending;
    mark_thinking = mark_thinking;
    save_ready = save_ready;
    clear_pending = clear_pending;
    take_continuation = take_continuation;
    save_continuation = save_continuation;
    clear_continuation = clear_continuation;
  }
