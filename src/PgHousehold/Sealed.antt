-- ===== src/PgHousehold/Sealed.antt =====
-- What the store writes under the cipher it reads back.
use alice_llm_bridge.Base.{ℕ, ◌+◌, ◌≡◌, refl, ◌↔◌, some, List, length, All}
use mathlib.Core.List.{Memᴰ}
use alice_llm_bridge.Base.Text.{Text}
use alice_llm_bridge.Base.Utf8.{IsText, as_bytes, from_utf8-as_bytes}
use alice_llm_bridge.Household.{ok}
use alice_llm_bridge.StateCrypto.{
  AreCiphers, StateCipher, EncryptedPayload, CryptoResult, seal, nonce_bytes,
}
use alice_llm_bridge.StateCrypto.Laws.{open_payload-seal}
use alice_llm_bridge.PgHousehold.{Platform, open_text, seal_text, read_chunks}
use alice_llm_bridge.PgHousehold.Tables.{PairingRow, Database}

-- What is documented of the libraries: the cipher opens what it sealed and accepts the plaintexts at
-- hand, a nonce has 12 bytes, a list of strings is printed as a text that parses to the list, and a
-- SELECT gives the rows of the table.
pub record IsPlatform (platform : Platform) (cipher : StateCipher) : Type 0 where
  pub are_ciphers : AreCiphers platform.ciphers
  pub encrypts :
      (nonce plaintext : List ℕ)
      → length nonce ≡ nonce_bytes
      → (c : List ℕ) × (platform.ciphers.encrypt cipher.key nonce plaintext ≡ some c)
  pub nonce_length : (n : ℕ) → length (platform.random_nonce n) ≡ nonce_bytes
  pub parses : (chunks : List Text) → platform.from_json (platform.to_json chunks) ≡ some chunks
  pub prints : (chunks : List Text) → All IsText chunks → IsText (platform.to_json chunks)
  pub scans :
      (rows : List (Text × PairingRow)) (row : Text × PairingRow)
      → Memᴰ row (platform.scan rows) ↔ Memᴰ row rows

-- The text was sealed, one draw was spent on it, and it opens again.
pub record Sealed (platform : Platform) (cipher : StateCipher) (text : Text) (db : Database)
    : Type 0 where
  pub payload : EncryptedPayload
  pub sealed : seal_text platform cipher text db ≡ (ok payload, record db { draws = db.draws + 1 })
  pub opens : open_text platform cipher payload ≡ ok text

module _ (platform : Platform) (cipher : StateCipher) (laws : IsPlatform platform cipher) where
  -- What is stored sealed opens to the same text.
  pub seal_text-Sealed :
      (text : Text) (db : Database) → IsText text → Sealed platform cipher text db
  unfolding seal_text open_text seal
  seal_text-Sealed text db valid =
      let nonce = platform.random_nonce db.draws in
      let n = laws.nonce_length db.draws in
      let (c, e) = laws.encrypts nonce (as_bytes text) n in
      let payload : EncryptedPayload = record {
        nonce = nonce;
        ciphertext = c;
        key_version = cipher.key_version;
      } in
      let sealed : seal platform.ciphers cipher nonce (as_bytes text) ≡ CryptoResult.ok payload =
        rw e refl in
      let opened =
        (open_payload-seal platform.ciphers laws.are_ciphers cipher nonce (as_bytes text) payload n
          sealed).0 in
      record {
        payload = payload;
        sealed = rw e refl;
        opens = rw opened (rw (from_utf8-as_bytes text valid) refl);
      }

  -- Chunks that were stored sealed are read back.
  pub read_chunks-Sealed :
      (chunks : List Text) (db : Database)
      (sealed : Sealed platform cipher (platform.to_json chunks) db)
      → read_chunks platform cipher (some sealed.payload) ≡ ok (some chunks)
  read_chunks-Sealed chunks db sealed = rw sealed.opens (rw (laws.parses chunks) refl)
