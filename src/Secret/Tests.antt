-- ===== src/Secret/Tests.antt =====
-- A small cipher that keeps the promises of an AEAD, and the theorems about secrets at a concrete text.
use gno_mcp.Prelude.{
  ◌≡◌, refl, Bytes, codes, has_prefix, has_prefix-append, true, Option, none, some, [], ◌∷◌, ◌++◌,
  length, take, drop, if◌then◌else◌, ◌==◌, arith, length-append, inr,
}
use gno_mcp.Prelude.Result.{ok, err}
use gno_mcp.Secret.{Cipher, IsCipher, encrypt, decrypt, passphrase_required, not_opened}
use gno_mcp.Secret.RoundTrip.{IsReady, drop-append, decrypt-encrypt, decrypt-passphrase_required}

abbrev pub sixteen : Bytes
sixteen = codes "0123456789abcdef"

-- The tag is the key itself.
abbrev pub toy_cipher : Cipher
toy_cipher = record {
  scrypt_key = λ passphrase salt. some (take 16 (passphrase ++ sixteen));
  accepts = λ key. length key == 16;
  seal = λ key nonce text. key ++ text;
  open_sealed = λ key nonce text. if has_prefix text key then some (drop 16 text) else none;
}

toy-open :
    (key text : Bytes)
    → (length key == 16) ≡ true
    → (if has_prefix (key ++ text) key then some (drop 16 (key ++ text)) else none) ≡ some text
toy-open key text h = rw (has_prefix-append key text, drop-append key text 16 (ground arith)) refl

pub toy_cipher-IsCipher : IsCipher toy_cipher
toy_cipher-IsCipher = record {
  open-seal = λ key nonce text h. toy-open key text h;
  length-seal = λ key nonce text h. ground (arith, h, length-append key text);
}

abbrev pub swordfish : Bytes
swordfish = codes "swordfish"

abbrev pub some_salt : Option Bytes
some_salt = some sixteen

abbrev pub some_nonce : Option Bytes
some_nonce = some (codes "0123456789ab")

abbrev seed_words : Bytes
seed_words = codes "source bonus"

ready : IsReady toy_cipher some_salt some_nonce swordfish
unfolding IsReady
ready = inr (sixteen, codes "0123456789ab", _, refl, refl, refl, refl, refl, refl)

decrypt-encrypt_example :
    (blob : Bytes) × (encrypt toy_cipher some_salt some_nonce seed_words swordfish ≡ ok blob)
    × (decrypt toy_cipher blob swordfish ≡ ok seed_words)
decrypt-encrypt_example =
    decrypt-encrypt toy_cipher toy_cipher-IsCipher some_salt some_nonce seed_words swordfish ready

abbrev pub sealed_words : Bytes
sealed_words = 1 ∷ (sixteen ++ codes "0123456789ab" ++ (codes "swordfish0123456" ++ seed_words))

encrypt-seed_words : encrypt toy_cipher some_salt some_nonce seed_words swordfish ≡ ok sealed_words
unfolding encrypt
encrypt-seed_words = refl

decrypt-passphrase_required_test : decrypt toy_cipher sealed_words [] ≡ err passphrase_required
decrypt-passphrase_required_test =
    decrypt-passphrase_required toy_cipher some_salt some_nonce seed_words swordfish sealed_words
      refl encrypt-seed_words

-- Another passphrase does not open the blob.
decrypt-wrong : decrypt toy_cipher sealed_words (codes "guess") ≡ err not_opened
unfolding decrypt has_prefix
decrypt-wrong = refl
