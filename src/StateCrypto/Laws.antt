-- ===== src/StateCrypto/Laws.antt =====
-- Sealed text opens again under the same key and version and under no other version; the message
-- of a pairing code determines its parts.
use alice_llm_bridge.Base.{
  ℕ, ◌≡◌, ◌≢◌, refl, sym, ap, ◌∙◌, some, List, [], ◌∷◌, ◌++◌, length, All, arith, Option-cases, inl,
  inr,
}
use alice_llm_bridge.Base.Text.{Text}
use alice_llm_bridge.Base.Utf8.{IsText, as_bytes, encode_char, from_utf8, from_utf8-as_bytes}
use alice_llm_bridge.StateCrypto.{
  Ciphers, AreCiphers, nonce_bytes, EncryptedPayload, StateCipher, unsupported_key_version,
  authentication, ok, err, seal, open_payload, pairing_message,
}

module _ (ciphers : Ciphers) (laws : AreCiphers ciphers) (cipher : StateCipher) where
  -- For a cipher that opens what it sealed: what is sealed with a nonce of the right length opens
  -- to the same bytes, and a key version that is another is refused.
  pub open_payload-seal :
      (nonce plaintext : List ℕ) (payload : EncryptedPayload)
      → length nonce ≡ nonce_bytes
      → seal ciphers cipher nonce plaintext ≡ ok payload
      → (open_payload ciphers cipher payload ≡ ok plaintext)
        × ((other : StateCipher)
            → other.key_version ≢ cipher.key_version
            → open_payload ciphers other payload ≡ err unsupported_key_version)
  unfolding seal open_payload
  open_payload-seal nonce plaintext payload n h =
      elim (Option-cases (ciphers.encrypt cipher.key nonce plaintext)) [
        | inl e ↦ absurd (differ (sym h ∙ rw e refl))
        | inr (c, e) ↦
            let same : record { nonce = nonce; ciphertext = c; key_version = cipher.key_version }
                ≡ payload =
              cc (rw (e, seal) at h) in
            rw (← same)
              (ground (arith, laws.opens cipher.key nonce plaintext c e), λ other ne. ground arith)
      ]
    where
      differ : ok payload ≡ err authentication → ⊥
      differ q = cc

no_zero : (c : ℕ) → c ≢ 0 → All (λ b. b ≢ 0) (encode_char c)
unfolding encode_char
no_zero c h = ground arith

abbrev pub HasNoZero : List ℕ → Type 0
HasNoZero bytes = All (λ b. b ≢ 0) bytes

HasNoZero-append : (a b : List ℕ) → HasNoZero a → HasNoZero b → HasNoZero (a ++ b)
HasNoZero-append [] b h k = k
HasNoZero-append (x ∷ a) b h k = (h.0, HasNoZero-append a b h.1 k)

as_bytes-HasNoZero : (s : Text) → HasNoZero s → HasNoZero (as_bytes s)
unfolding as_bytes
as_bytes-HasNoZero [] h = tt
as_bytes-HasNoZero (c ∷ s) h =
    HasNoZero-append (encode_char c) (as_bytes s) (no_zero c h.0) (as_bytes-HasNoZero s h.1)

-- A part that ends at the first zero byte is determined, and so is what follows.
zero_splits :
    (a b r s : List ℕ) → HasNoZero a → HasNoZero b → a ++ (0 ∷ r) ≡ b ++ (0 ∷ s) → (a ≡ b) × (r ≡ s)
zero_splits [] [] r s h k e = (refl, cc)
zero_splits [] (y ∷ b) r s h k e = absurd (k.0 (cc))
zero_splits (x ∷ a) [] r s h k e = absurd (h.0 (cc))
zero_splits (x ∷ a) (y ∷ b) r s h k e =
    let tails : a ++ (0 ∷ r) ≡ b ++ (0 ∷ s) = cc in
    let heads : x ≡ y = cc in let (p, q) = zero_splits a b r s h.1 k.1 tails in (cc, q)

as_bytes_injective : (s t : Text) → IsText s → IsText t → as_bytes s ≡ as_bytes t → s ≡ t
as_bytes_injective s t hs ht e =
    let same : some s ≡ some t =
      sym (from_utf8-as_bytes s hs) ∙ ap from_utf8 e ∙ from_utf8-as_bytes t ht in
    cc

-- An identifier or a code: valid text with no NUL, which a column of the database cannot hold.
pub record IsPlain (s : Text) : Type 0 where
  pub valid : IsText s
  pub no_nul : HasNoZero s

-- For valid texts without NUL, the hashed message determines the account, the device and the code.
pub pairing_message_injective :
    (user user' app app' code code' : Text)
    → IsPlain user
    → IsPlain user'
    → IsPlain app
    → IsPlain app'
    → IsPlain code
    → IsPlain code'
    → pairing_message user app code ≡ pairing_message user' app' code'
    → (user ≡ user') × (app ≡ app') × (code ≡ code')
unfolding pairing_message
pairing_message_injective user user' app app' code code' u u' a a' c c' e =
    let tails : as_bytes user ++ (0 ∷ as_bytes app ++ (0 ∷ as_bytes code))
        ≡ as_bytes user' ++ (0 ∷ as_bytes app' ++ (0 ∷ as_bytes code')) =
      cc in
    let (same_user, r) =
      zero_splits _ _ _ _ (as_bytes-HasNoZero user u.no_nul) (as_bytes-HasNoZero user' u'.no_nul)
        tails in
    let (same_app, same_code) =
      zero_splits _ _ _ _ (as_bytes-HasNoZero app a.no_nul) (as_bytes-HasNoZero app' a'.no_nul) r in
    (
      as_bytes_injective user user' u.valid u'.valid same_user,
      as_bytes_injective app app' a.valid a'.valid same_app,
      as_bytes_injective code code' c.valid c'.valid same_code,
    )
