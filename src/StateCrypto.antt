-- ===== src/StateCrypto.antt =====
-- crates/bridge-server/src/state_crypto.rs: sealing of stored text, and the hash of a pairing code.
-- The ciphers are libraries: a record of their functions, with what the code relies on.
pub mod Laws
use alice_llm_bridge.Base.{
  ℕ, ◌+◌, ◌*◌, ◌==◌, ◌≡◌, Bool, true, false, if◌then◌else◌, Option, none, some, List, [], ◌∷◌, ◌++◌,
  length,
}
use alice_llm_bridge.Base.Text.{Text, text_eq}
use alice_llm_bridge.Base.Utf8.{as_bytes}

-- `ChaCha20Poly1305` with key and nonce, `Hmac<Sha256>` of a key and a message, and `hex::decode`
pub record Ciphers : Type 0 where
  pub encrypt : (key nonce plaintext : List ℕ) → Option (List ℕ)
  pub decrypt : (key nonce ciphertext : List ℕ) → Option (List ℕ)
  pub hmac : (key message : List ℕ) → List ℕ
  pub decode_hex : Text → Option (List ℕ)

-- What is documented: a ciphertext opens under its key and nonce, and the cipher accepts every
-- plaintext of the sizes in use.
pub record AreCiphers (c : Ciphers) : Type 0 where
  pub opens :
      (key nonce plaintext ciphertext : List ℕ)
      → c.encrypt key nonce plaintext ≡ some ciphertext
      → c.decrypt key nonce ciphertext ≡ some plaintext

unfoldable pub nonce_bytes : ℕ
nonce_bytes = 12

unfoldable pub key_bytes : ℕ
key_bytes = 32

unfoldable pub current_key_version : ℕ
current_key_version = 1

pub record EncryptedPayload : Type 0 where
  pub nonce : List ℕ
  pub ciphertext : List ℕ
  pub key_version : ℕ

pub record StateCipher : Type 0 where
  pub key : List ℕ
  pub key_version : ℕ

pub data CryptoError : Type 0 where
  invalid_key unsupported_key_version invalid_nonce authentication : CryptoError

pub data CryptoResult (A : Type 0) : Type 0 where
  ok : A → CryptoResult A
  err : CryptoError → CryptoResult A

-- `ok_or` and `map_err` of a library's failure
abbrev pub or_error : {A B : Type 0} → (A → B) → CryptoError → Option A → CryptoResult B
or_error f e none = err e
or_error f e (some a) = ok (f a)

-- what the loop over the three values feeds to the hash: a zero byte before each
unfoldable pub pairing_message : (user_id application_id code : Text) → List ℕ
pairing_message user_id application_id code =
    0 ∷ as_bytes user_id ++ (0 ∷ as_bytes application_id ++ (0 ∷ as_bytes code))

module _ (ciphers : Ciphers) where
  unfoldable pub from_hex : Text → CryptoResult StateCipher
  from_hex value =
      if length (as_bytes value) == key_bytes * 2
      then or_error (λ key. record { key = key; key_version = current_key_version }) invalid_key
          (ciphers.decode_hex value)
      else err invalid_key

  -- `seal`; the nonce is what `rand::random` drew
  unfoldable pub seal : StateCipher → (nonce plaintext : List ℕ) → CryptoResult EncryptedPayload
  seal cipher nonce plaintext =
      or_error
        (λ ciphertext. record {
          nonce = nonce;
          ciphertext = ciphertext;
          key_version = cipher.key_version;
        })
        authentication (ciphers.encrypt cipher.key nonce plaintext)

  unfoldable pub open_payload : StateCipher → EncryptedPayload → CryptoResult (List ℕ)
  open_payload cipher payload =
      if payload.key_version == cipher.key_version
      then if length payload.nonce == nonce_bytes
        then or_error (λ plaintext. plaintext) authentication
            (ciphers.decrypt cipher.key payload.nonce payload.ciphertext)
        else err invalid_nonce
      else err unsupported_key_version

  unfoldable pub pairing_code_hash : StateCipher → (user_id application_id code : Text) → List ℕ
  unfolding pairing_message
  pairing_code_hash cipher user_id application_id code =
      ciphers.hmac cipher.key (pairing_message user_id application_id code)

  -- `verify_slice` compares the whole hash
  unfoldable pub pairing_code_matches :
      StateCipher → (stored_hash : List ℕ) → (user_id application_id code : Text) → Bool
  unfolding pairing_message
  pairing_code_matches cipher stored_hash user_id application_id code =
      text_eq (ciphers.hmac cipher.key (pairing_message user_id application_id code)) stored_hash
