-- ===== src/Secret/RoundTrip.antt =====
-- What Encrypt writes, Decrypt reads back.
use gno_mcp.Prelude.{
  ℕ, ◌≡◌, refl, Bytes, is_empty, true, false, Option, some, [], ◌∷◌, ◌++◌, length, take, drop,
  arith, length-append, append_assoc, ltb, Bool-cases, zero, suc, ◌⊎◌, inl, inr,
}
use gno_mcp.Prelude.Result.{ok, err, bind-ok}
use gno_mcp.Secret.{
  Cipher, IsCipher, passphrase_required, salt_len, nonce_len, gcm_key, encrypt, decrypt,
  scheme_scrypt, scheme_plain, decrypted, sealed_blob, or_secret_error, no_randomness,
}

pub take-append : (xs ys : Bytes) (n : ℕ) → length xs ≡ n → take n (xs ++ ys) ≡ xs
take-append [] ys zero h = refl
take-append [] ys (suc n) h = absurd (omega arith)
take-append (x ∷ xs) ys zero h = absurd (omega arith)
take-append (x ∷ xs) ys (suc n) h = rw (take-append xs ys n (omega arith)) refl

pub drop-append : (xs ys : Bytes) (n : ℕ) → length xs ≡ n → drop n (xs ++ ys) ≡ ys
drop-append [] ys zero h = refl
drop-append [] ys (suc n) h = absurd (omega arith)
drop-append (x ∷ xs) ys zero h = absurd (omega arith)
drop-append (x ∷ xs) ys (suc n) h = drop-append xs ys n (omega arith)

-- What Encrypt needs to succeed: no passphrase, or random bytes and a key that AES accepts.
unfoldable pub IsReady : Cipher → Option Bytes → Option Bytes → Bytes → Type 0
IsReady c random_salt random_nonce passphrase =
    (is_empty passphrase ≡ true)
    ⊎ ((salt : Bytes) × (nonce : Bytes) × (key : Bytes) × (is_empty passphrase ≡ false)
        × (random_salt ≡ some salt)
        × (random_nonce ≡ some nonce)
        × (gcm_key c passphrase salt ≡ ok key)
        × (length salt ≡ salt_len)
        × (length nonce ≡ nonce_len))

pub gcm_key-ok :
    (c : Cipher) (passphrase salt key : Bytes)
    → gcm_key c passphrase salt ≡ ok key
    → c.accepts key ≡ true
gcm_key-ok c passphrase salt key h = ground arith

pub decrypted-sealed :
    (c : Cipher)
    → IsCipher c
    → (salt nonce key text passphrase : Bytes) → is_empty passphrase ≡ false
    → gcm_key c passphrase salt ≡ ok key
    → length salt ≡ salt_len
    → length nonce ≡ nonce_len
    → decrypted c (salt ++ nonce ++ c.seal key nonce text) passphrase ≡ ok text
decrypted-sealed c laws salt nonce key text passphrase h k ls ln =
    let sealed = c.seal key nonce text in
    let accepted = gcm_key-ok c passphrase salt key k in
    let assoc : salt ++ nonce ++ sealed ≡ salt ++ (nonce ++ sealed) =
      append_assoc salt nonce sealed in
    let first : take salt_len (salt ++ nonce ++ sealed) ≡ salt =
      rw (assoc) (take-append salt (nonce ++ sealed) 16 ls) in
    let second : take nonce_len (drop salt_len (salt ++ nonce ++ sealed)) ≡ nonce =
      rw (assoc, drop-append salt (nonce ++ sealed) 16 ls) (take-append nonce sealed 12 ln) in
    let third : drop 28 (salt ++ nonce ++ sealed) ≡ sealed =
      drop-append (salt ++ nonce) sealed 28 (omega (arith, length-append salt nonce)) in
    let enough : ltb (length (salt ++ nonce ++ sealed)) 44 ≡ false = ground (
      arith,
      length-append (salt ++ nonce) sealed,
      length-append salt nonce,
      laws.length-seal key nonce text accepted,
    ) in
    let opened = laws.open-seal key nonce text accepted in
    rw (h, enough, first, k, second, third, opened) refl

-- With a cipher that keeps its promises, and where Encrypt has what it needs, Encrypt gives a blob,
-- and Decrypt with the same passphrase gives back the text.
pub decrypt-encrypt :
    (c : Cipher)
    → IsCipher c
    → (random_salt random_nonce : Option Bytes) (text passphrase : Bytes)
    → IsReady c random_salt random_nonce passphrase
    → (blob : Bytes) × (encrypt c random_salt random_nonce text passphrase ≡ ok blob)
      × (decrypt c blob passphrase ≡ ok text)
unfolding encrypt decrypt IsReady
decrypt-encrypt c laws random_salt random_nonce text passphrase (inl e) =
    (scheme_plain ∷ text, rw (e) refl, refl)
decrypt-encrypt c laws random_salt random_nonce text passphrase
      (inr (salt, nonce, key, e, es, en, k, ls, ln)) =
    (
      scheme_scrypt ∷ (salt ++ nonce ++ c.seal key nonce text),
      rw (e, es, en, k) refl,
      decrypted-sealed c laws salt nonce key text passphrase e k ls ln,
    )

-- What stands in a blob that Encrypt made with a passphrase.
sealed_blob-parts :
    (c : Cipher) (random_salt random_nonce : Option Bytes) (text passphrase blob : Bytes)
    → sealed_blob c random_salt random_nonce text passphrase ≡ ok blob
    → (salt : Bytes) × (nonce : Bytes) × (key : Bytes) × (random_salt ≡ some salt)
      × (random_nonce ≡ some nonce)
      × (gcm_key c passphrase salt ≡ ok key)
      × (blob ≡ scheme_scrypt ∷ (salt ++ nonce ++ c.seal key nonce text))
sealed_blob-parts c random_salt random_nonce text passphrase blob h =
    let (salt, es, e1) = bind-ok (or_secret_error random_salt no_randomness) _ h in
    let (key, ek, e2) = bind-ok (gcm_key c passphrase salt) _ e1 in
    let (nonce, en, e3) = bind-ok (or_secret_error random_nonce no_randomness) _ e2 in
    (salt, nonce, key, ground (arith, es), ground (arith, en), ek, ground (arith, e3))

-- A blob that Encrypt made with a passphrase is not read without one: Decrypt answers
-- ErrPassphraseRequired, and gives no bytes.
pub decrypt-passphrase_required :
    (c : Cipher) (random_salt random_nonce : Option Bytes) (text passphrase blob : Bytes)
    → is_empty passphrase ≡ false
    → encrypt c random_salt random_nonce text passphrase ≡ ok blob
    → decrypt c blob [] ≡ err passphrase_required
unfolding encrypt decrypt
decrypt-passphrase_required c random_salt random_nonce text passphrase blob h e =
    let (salt, nonce, key, es, en, ek, shape) =
      sealed_blob-parts c random_salt random_nonce text passphrase blob (ground arith) in
    rw (shape) refl

-- What Encrypt made of random bytes of the right lengths, Decrypt reads.
pub decrypt-encrypt_ok :
    (c : Cipher)
    → IsCipher c
    → (random_salt random_nonce : Option Bytes) (text passphrase blob : Bytes)
    → ((salt : Bytes) → random_salt ≡ some salt → length salt ≡ salt_len)
    → ((nonce : Bytes) → random_nonce ≡ some nonce → length nonce ≡ nonce_len)
    → encrypt c random_salt random_nonce text passphrase ≡ ok blob
    → decrypt c blob passphrase ≡ ok text
unfolding encrypt decrypt
decrypt-encrypt_ok c laws random_salt random_nonce text passphrase blob hs hn h =
    elim (Bool-cases (is_empty passphrase)) [
      | inl e ↦ ground (arith, h, e)
      | inr e ↦
          let (salt, nonce, key, es, en, ek, shape) =
            sealed_blob-parts c random_salt random_nonce text passphrase blob
              (ground (arith, h, e)) in
          rw (shape)
            (decrypted-sealed c laws salt nonce key text passphrase e ek (hs salt es) (hn nonce en))
    ]
