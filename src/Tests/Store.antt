-- ===== src/Tests/Store.antt =====
-- crates/bridge-server/src/house_store_pg.rs and state_crypto.rs, over a toy cipher and an empty
-- household.
use alice_llm_bridge.Base.{
  ℕ, zero, suc, ◌+◌, length, ltb, pos, true, false, if◌then◌else◌, ◌≡◌, ◌≢◌, refl, ap, Option, none,
  some, List, [], ◌∷◌, All, arith,
}
use mathlib.Core.List.{Memᴰ}
use alice_llm_bridge.Base.Text.{Text, codes, text_eq, is_ascii_digit}
use alice_llm_bridge.Base.Utf8.{IsText, is_char, as_bytes, encode_char}
use alice_llm_bridge.Base.Dict.{get, insert, remove}
use alice_llm_bridge.Household.{SurfaceIdentity, pairing_required, PendingReply, ready, ok}
use alice_llm_bridge.Household.Slots.{KeepsSlots}
use alice_llm_bridge.StateCrypto.{
  Ciphers, AreCiphers, StateCipher, EncryptedPayload, CryptoResult, unsupported_key_version, seal,
  open_payload, pairing_message, pairing_code_hash, pairing_code_matches, nonce_bytes,
}
use alice_llm_bridge.StateCrypto.Laws.{IsPlain, open_payload-seal, pairing_message_injective}
use alice_llm_bridge.PgHousehold.{
  Platform, pg_store, resolve_surface, create_pairing_request, poll_pending, save_ready,
  take_continuation, save_continuation, save_thread_id, pending_ttl_seconds,
  continuation_ttl_seconds,
}
use alice_llm_bridge.PgHousehold.Tables.{
  PairingRow, Database, slot, bound_house, memberships_in, has_member, has_surface,
}
use alice_llm_bridge.PgHousehold.View.{pg_view}
use alice_llm_bridge.PgHousehold.Sealed.{IsPlatform}
use alice_llm_bridge.PgHousehold.Slots.{pg_store-KeepsSlots}
use alice_llm_bridge.PgHousehold.Approve.{
  is_code, is_open, answers, matching, membership_exists, upsert_surface, approve_pairing,
}
use alice_llm_bridge.PgHousehold.Approved.{
  Approved, approve_pairing-Approved, approve_pairing-unchanged,
}
use alice_llm_bridge.PgHousehold.Resolve.{Resolved, resolve_surface-Resolved}
use alice_llm_bridge.PgHousehold.Pairing.{Runs, Paired, pairing_round_trip}
use alice_llm_bridge.PgHousehold.Expiry.{
  Threaded, save_thread_id-Threaded, save_ready-poll_pending, save_continuation-take_continuation,
}

-- a list of strings as a text: one before each character, zero behind each string
abbrev print_string : Text → Text → Text
print_string [] rest = 0 ∷ rest
print_string (c ∷ s) rest = 1 ∷ c ∷ print_string s rest

abbrev print_strings : List Text → Text
print_strings [] = []
print_strings (s ∷ strings) = print_string s (print_strings strings)

abbrev with_string : Option (List Text) → Option (List Text)
with_string none = none
with_string (some strings) = some ([] ∷ strings)

abbrev with_char : ℕ → Option (List Text) → Option (List Text)
with_char c (some (s ∷ strings)) = some ((c ∷ s) ∷ strings)
with_char c _ = none

abbrev parse_strings : Text → Option (List Text)
parse_strings [] = some []
parse_strings (zero ∷ rest) = with_string (parse_strings rest)
parse_strings (suc _ ∷ []) = none
parse_strings (suc _ ∷ c ∷ rest) = with_char c (parse_strings rest)

parse-print_string :
    (s rest : Text) (strings : List Text)
    → parse_strings rest ≡ some strings
    → parse_strings (print_string s rest) ≡ some (s ∷ strings)
parse-print_string [] rest strings h = rw h refl
parse-print_string (c ∷ s) rest strings h = rw (parse-print_string s rest strings h) refl

parse-print_strings : (strings : List Text) → parse_strings (print_strings strings) ≡ some strings
parse-print_strings [] = refl
parse-print_strings (s ∷ strings) = parse-print_string s _ strings (parse-print_strings strings)

print_string-IsText : (s rest : Text) → IsText s → IsText rest → IsText (print_string s rest)
unfolding is_char
print_string-IsText [] rest h k = (refl, k)
print_string-IsText (c ∷ s) rest h k = (refl, (h.0, print_string-IsText s rest h.1 k))

print_strings-IsText : (strings : List Text) → All IsText strings → IsText (print_strings strings)
print_strings-IsText [] h = tt
print_strings-IsText (s ∷ strings) h =
    print_string-IsText s _ h.0 (print_strings-IsText strings h.1)

abbrev ciphers : Ciphers
ciphers = record {
  encrypt = λ key nonce plaintext. some plaintext;
  decrypt = λ key nonce ciphertext. some ciphertext;
  hmac = λ key message. message;
  decode_hex = λ text. some text;
}

abbrev pub toy : Platform
toy = record {
  ciphers = ciphers;
  to_json = print_strings;
  from_json = parse_strings;
  random_nonce = λ n. 0 ∷ 0 ∷ 0 ∷ 0 ∷ 0 ∷ 0 ∷ 0 ∷ 0 ∷ 0 ∷ 0 ∷ 0 ∷ 0 ∷ [];
  random_code = λ n. 123456;
  scan = λ rows. rows;
}

abbrev cipher : StateCipher
cipher = record { key = []; key_version = 1 }

toy_opens : AreCiphers ciphers
toy_opens = record { opens = λ key nonce plaintext ciphertext e. ground arith }

toy-IsPlatform : IsPlatform toy cipher
unfolding nonce_bytes
toy-IsPlatform = record {
  are_ciphers = toy_opens;
  encrypts = λ nonce plaintext n. (plaintext, refl);
  nonce_length = λ n. refl;
  parses = parse-print_strings;
  prints = print_strings-IsText;
  scans = λ rows row. (λ m. m, λ m. m);
}

pg_store-KeepsSlots_example : KeepsSlots (pg_store toy cipher) (pg_view toy cipher)
pg_store-KeepsSlots_example = pg_store-KeepsSlots toy cipher toy-IsPlatform

abbrev household : Database
household = record {
  houses =
      (
        pos 7,
        record {
          name = codes "Дом";
          codex_thread_id = none;
          homey_connector_id = codes "homey";
          enabled = true;
        },
      )
      ∷ [];
  members = (slot (pos 7) (codes "OWNER"), record { role = codes "owner"; enabled = true }) ∷ [];
  surfaces = [];
  pairing_requests = [];
  pending_replies = [];
  continuations = [];
  now = 1000;
  fails = λ q. false;
  draws = 0;
}

abbrev station : SurfaceIdentity
station = record { user_id = codes "OWNER"; application_id = codes "station" }

-- what a run of the store computes through
serving : Unit {0}
unfolding resolve_surface create_pairing_request bound_house memberships_in has_member has_surface
    get insert remove text_eq pairing_code_hash pairing_code_matches pairing_message as_bytes
    encode_char approve_pairing is_code is_open is_ascii_digit answers matching membership_exists
    upsert_surface
serving = tt

resolve_surface-Resolved_example :
    Resolved toy cipher household station (resolve_surface toy cipher station household)
resolve_surface-Resolved_example = resolve_surface-Resolved toy cipher station household

abbrev told : Database
told = (resolve_surface toy cipher station household).1

told_code :
    resolve_surface toy cipher station household ≡ (ok (pairing_required (codes "123456")), told)
unfolding serving
told_code = refl

owner_belongs : membership_exists toy cipher (pos 7) (codes "OWNER") household ≡ true
unfolding serving
owner_belongs = refl

own_request_only :
    (row : Text × PairingRow)
    → Memᴰ row told.pairing_requests
    → answers toy cipher (pos 7) (codes "123456") 1200 row ≡ true
    → row.0 ≡ codes "station"
unfolding serving
own_request_only row (Memᴰ.head e) h = ap (λ t. t.0) e
own_request_only row (Memᴰ.tail m) h = elim m [ ]

told-Runs : Runs told.fails
unfolding serving
told-Runs = record {
  begins = refl;
  selects = refl;
  selects_member = refl;
  upserts = refl;
  updates = refl;
  commits = refl;
  selects_bound = refl;
}

pairing_round_trip_example :
    Paired toy cipher station (pos 7) (codes "123456") (record told { now = 1200 })
pairing_round_trip_example =
    pairing_round_trip toy cipher station household told (codes "123456") (pos 7) 1200
      toy-IsPlatform told_code owner_belongs (omega arith) own_request_only told-Runs

approves : (approve_pairing toy cipher (pos 7) (codes "123456") told).0 ≡ ok true
unfolding serving
approves = refl

approve_pairing-Approved_example :
    Approved toy cipher
      (pos 7)
      (codes "123456")
      told
      (approve_pairing toy cipher (pos 7) (codes "123456") told).1
approve_pairing-Approved_example =
    approve_pairing-Approved toy cipher (pos 7) (codes "123456") told toy-IsPlatform approves

refuses : (approve_pairing toy cipher (pos 7) (codes "654321") told).0 ≢ ok true
unfolding serving
refuses e = cc

approve_pairing-unchanged_example :
    (approve_pairing toy cipher (pos 7) (codes "654321") told).1 ≡ told
approve_pairing-unchanged_example =
    approve_pairing-unchanged toy cipher (pos 7) (codes "654321") told refuses

save_thread_id-Threaded_example :
    Threaded toy cipher
      (pos 7)
      (codes "thread-1")
      household
      (save_thread_id toy cipher (pos 7) (codes "thread-1") household)
save_thread_id-Threaded_example =
    save_thread_id-Threaded toy cipher (pos 7) (codes "thread-1") household

-- the household once the station is bound
abbrev bound_household : Database
bound_household = record household {
  surfaces =
      (codes "station", record { house_id = pos 7; yandex_user_id = codes "OWNER"; enabled = true })
      ∷ [];
}

station_known : has_surface bound_household (slot (pos 7) (codes "station")) ≡ true
unfolding serving
station_known = refl

hello-IsText : IsText (codes "Привет.")
unfolding is_char
hello-IsText = ground arith

reply_expires :
    ((save_ready toy cipher (pos 7) (codes "station") (codes "Привет.") bound_household).0 ≡ ok tt)
    × ((poll_pending toy cipher
          (pos 7)
          (codes "station")
          (record (save_ready toy cipher
            (pos 7)
            (codes "station")
            (codes "Привет.")
            bound_household).1 { now = 1100 })).0
        ≡ ok (
            if ltb 1100 (1000 + pending_ttl_seconds)
            then ready (codes "Привет.")
            else PendingReply.none))
reply_expires =
    save_ready-poll_pending toy cipher (pos 7) (codes "station") (codes "Привет.") bound_household
      1100 toy-IsPlatform hello-IsText station_known refl refl

save_continuation-take_continuation_example :
    let after =
      (save_continuation toy cipher
        (pos 7)
        (codes "station")
        (codes "Привет." ∷ [])
        bound_household).1 in
    let taken =
      take_continuation toy cipher (pos 7) (codes "station") (record after { now = 1100 }) in
    (taken.0
      ≡ ok (
          if ltb 1100 (1000 + continuation_ttl_seconds) then some (codes "Привет." ∷ []) else none))
    × ((take_continuation toy cipher (pos 7) (codes "station") taken.1).0 ≡ ok none)
save_continuation-take_continuation_example =
    save_continuation-take_continuation toy cipher (pos 7) (codes "station") (codes "Привет.") []
      bound_household 1100 toy-IsPlatform (hello-IsText, tt) station_known refl refl

abbrev payload : EncryptedPayload
payload = record {
  nonce = 0 ∷ 0 ∷ 0 ∷ 0 ∷ 0 ∷ 0 ∷ 0 ∷ 0 ∷ 0 ∷ 0 ∷ 0 ∷ 0 ∷ [];
  ciphertext = 1 ∷ 2 ∷ [];
  key_version = 1;
}

twelve : length payload.nonce ≡ nonce_bytes
unfolding nonce_bytes
twelve = refl

seals : seal ciphers cipher payload.nonce (1 ∷ 2 ∷ []) ≡ CryptoResult.ok payload
unfolding seal
seals = refl

open_payload-seal_example :
    (open_payload ciphers cipher payload ≡ CryptoResult.ok (1 ∷ 2 ∷ []))
    × ((other : StateCipher)
        → other.key_version ≢ 1
        → open_payload ciphers other payload ≡ CryptoResult.err unsupported_key_version)
open_payload-seal_example =
    open_payload-seal ciphers toy_opens cipher payload.nonce (1 ∷ 2 ∷ []) payload twelve seals

owner-IsPlain : IsPlain (codes "OWNER")
unfolding is_char
owner-IsPlain = record { valid = ground arith; no_nul = ground arith }

same_request :
    (codes "OWNER" ≡ codes "OWNER")
    × (codes "OWNER" ≡ codes "OWNER")
    × (codes "OWNER" ≡ codes "OWNER")
same_request =
    pairing_message_injective (codes "OWNER") (codes "OWNER") (codes "OWNER") (codes "OWNER")
      (codes "OWNER") (codes "OWNER") owner-IsPlain owner-IsPlain owner-IsPlain owner-IsPlain
      owner-IsPlain owner-IsPlain refl
