-- ===== src/Secret.antt =====
-- internal/secret/secret.go: the blobs in which a private key or a mnemonic is stored. scrypt and
-- AES-GCM are the interface `Cipher`, what they promise is the record `IsCipher`, and the bytes that
-- rand.Reader gives are arguments.
pub mod RoundTrip
pub mod Tests
use gno_mcp.Prelude.{
  ℕ, ◌+◌, ◌≡◌, Bytes, is_empty, Bool, true, Option, none, some, [], ◌∷◌, ◌++◌, length, take, drop,
  ltb, if◌then◌else◌, ◌==◌, not,
}
use gno_mcp.Prelude.Result.{Result, ok, err, guard, ◌>>=◌, ◌>>◌}

pub record Cipher : Type 0 where
  -- scrypt.Key of a passphrase and a salt, with the parameters of deriveKey
  pub scrypt_key : Bytes → Bytes → Option Bytes
  -- aes.NewCipher and cipher.NewGCM accept the key
  pub accepts : Bytes → Bool
  -- gcm.Seal and gcm.Open of a key, a nonce and a text
  pub seal : Bytes → Bytes → Bytes → Bytes
  pub open_sealed : Bytes → Bytes → Bytes → Option Bytes

-- What crypto/cipher documents of an AEAD: what is sealed is opened, and a tag of 16 bytes is added.
pub record IsCipher (c : Cipher) : Type 0 where
  pub open-seal :
      (key nonce text : Bytes)
      → c.accepts key ≡ true
      → c.open_sealed key nonce (c.seal key nonce text) ≡ some text
  pub length-seal :
      (key nonce text : Bytes)
      → c.accepts key ≡ true
      → length (c.seal key nonce text) ≡ length text + 16

pub data SecretError : Type 0 where
  no_randomness key_derivation_failed key_refused : SecretError
  empty_input unknown_scheme passphrase_required too_short not_opened : SecretError

abbrev pub salt_len : ℕ
salt_len = 16

abbrev pub nonce_len : ℕ
nonce_len = 12

abbrev pub gcm_tag_len : ℕ
gcm_tag_len = 16

abbrev pub scheme_plain : ℕ
scheme_plain = 0

abbrev pub scheme_scrypt : ℕ
scheme_scrypt = 1

abbrev pub or_secret_error : Option Bytes → SecretError → Result SecretError Bytes
or_secret_error none e = err e
or_secret_error (some bs) e = ok bs

module _ (c : Cipher) where
  -- deriveKey
  abbrev pub derive_key : Bytes → Bytes → Result SecretError Bytes
  derive_key passphrase salt = or_secret_error (c.scrypt_key passphrase salt) key_derivation_failed

  -- deriveKey, aes.NewCipher and cipher.NewGCM
  abbrev pub gcm_key : Bytes → Bytes → Result SecretError Bytes
  gcm_key passphrase salt =
      derive_key passphrase salt >>= λ key. guard (c.accepts key) key_refused >> ok key

  -- Encrypt behind the test of the passphrase
  abbrev pub sealed_blob : Option Bytes → Option Bytes → Bytes → Bytes → Result SecretError Bytes
  sealed_blob random_salt random_nonce text passphrase =
      or_secret_error random_salt no_randomness >>= λ salt. gcm_key passphrase salt >>= λ key.
      or_secret_error random_nonce no_randomness >>= λ nonce.
      ok (scheme_scrypt ∷ (salt ++ nonce ++ c.seal key nonce text))

  -- Encrypt
  unfoldable pub encrypt : Option Bytes → Option Bytes → Bytes → Bytes → Result SecretError Bytes
  encrypt random_salt random_nonce text passphrase =
      if is_empty passphrase
      then ok (scheme_plain ∷ text)
      else sealed_blob random_salt random_nonce text passphrase

  -- the scrypt scheme of Decrypt
  abbrev pub decrypted : Bytes → Bytes → Result SecretError Bytes
  decrypted body passphrase =
      guard (not (is_empty passphrase)) passphrase_required
      >> guard (not (ltb (length body) (salt_len + nonce_len + gcm_tag_len))) too_short
      >> gcm_key passphrase (take salt_len body)
      >>= λ key.
          or_secret_error
            (c.open_sealed key (take nonce_len (drop salt_len body))
              (drop (salt_len + nonce_len) body))
            not_opened

  -- Decrypt
  unfoldable pub decrypt : Bytes → Bytes → Result SecretError Bytes
  decrypt [] passphrase = err empty_input
  decrypt (scheme ∷ body) passphrase =
      if scheme == scheme_plain
      then ok body
      else if scheme == scheme_scrypt
      then decrypted body passphrase
      else err unknown_scheme
