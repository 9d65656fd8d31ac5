-- ===== src/Session/Store/RoundTrip.antt =====
-- What Write puts on disk, Read gives back.
use gno_mcp.Prelude.{
  ◌≡◌, ◌≢◌, Bytes, is_empty, true, false, some, [], length, arith, Bool-cases, inl, inr,
}
use gno_mcp.Prelude.Map.{lookup, insert, delete, lookup-insert_self}
use gno_mcp.Prelude.Result.{ok, err, Result-cases}
use gno_mcp.Secret.{Cipher, IsCipher, salt_len, nonce_len, encrypt}
use gno_mcp.Secret.RoundTrip.{decrypt-encrypt_ok}
use gno_mcp.Files.{file, Root, dir_of, last_of, write_file_atomic}
use gno_mcp.Files.Atomic.{write_file_atomic-ok, write_file_atomic-made}
use gno_mcp.Session.Manager.{SessionMeta}
use gno_mcp.Session.Store.{
  Codec, IsCodec, no_passphrase, session_file, StoreIo, StoreDraw, encode, write, decode, read,
}

-- The randomness has the length that was asked for.
pub record IsStoreDraw (draw : StoreDraw) : Type 0 where
  pub salt_sized : (salt : Bytes) → draw.salt ≡ some salt → length salt ≡ salt_len
  pub nonce_sized : (nonce : Bytes) → draw.nonce ≡ some nonce → length nonce ≡ nonce_len

module _ (c : Cipher) (laws : IsCipher c) (j : Codec) (draw : StoreDraw)
    (drawn : IsStoreDraw draw) where
  -- what is written, decoded under the same passphrase
  decode-encode :
      (passphrase content : Bytes) (meta : SessionMeta)
      → IsCodec j meta
      → encode c j passphrase draw meta ≡ ok content
      → decode c j passphrase content ≡ ok (record meta { encrypted = false })
  unfolding encode decode
  decode-encode passphrase content meta json h = elim (Bool-cases (is_empty passphrase)) [
    | inl e ↦
        let (blob, em, eu) = json.unmarshal-marshal meta.privkey false in
        let same : blob ≡ content = ground (arith, h, e, em) in ground (arith, e, eu, same)
    | inr e ↦ elim (Result-cases (encrypt c draw.salt draw.nonce meta.privkey passphrase)) [
      | inr (x, x_eq) ↦ absurd (ground (arith, h, e, x_eq))
      | inl (key, k_eq) ↦
          let (blob, em, eu) = json.unmarshal-marshal key true in
          let same : blob ≡ content = ground (arith, h, e, em, k_eq) in
          let opens =
            decrypt-encrypt_ok c laws draw.salt draw.nonce meta.privkey passphrase key
              drawn.salt_sized drawn.nonce_sized k_eq in
          ground (arith, e, eu, same, opens)
    ]
  ]

  write-lookup :
      (passphrase profile : Bytes) (meta : SessionMeta) (root next : Root)
      → session_file meta.session_address ≢ draw.tmp
      → write c j passphrase draw profile meta root ≡ (ok tt, next)
      → (content : Bytes) × (encode c j passphrase draw meta ≡ ok content)
        × (lookup (session_file meta.session_address) (dir_of profile next) ≡ some (file content))
  unfolding write
  write-lookup passphrase profile meta root next apart h =
      elim (Result-cases (encode c j passphrase draw meta)) [
        | inr (x, x_eq) ↦ absurd (ground (arith, h, x_eq))
        | inl (content, e) ↦
            let d = dir_of profile root in
            let path = session_file meta.session_address in
            let wrote : (write_file_atomic draw.calls draw.tmp path content d).0 ≡ ok tt =
              ground (arith, h, e) in
            let left = last_of d ((write_file_atomic draw.calls draw.tmp path content d).1) in
            let made = write_file_atomic-made draw.calls draw.tmp path content d wrote in
            let shape : next ≡ insert profile left root = ground (arith, h, e, made) in
            (
              content,
              e,
              rw
                  (
                    shape,
                    lookup-insert_self profile left root,
                    write_file_atomic-ok draw.tmp path content d apart draw.calls wrote,
                  )
                  (lookup-insert_self path (file content) (delete draw.tmp d)),
            )
      ]

  -- What Store.Write has stored, Store.Read gives back under the same passphrase, with the private key
  -- in the clear and marked so. Conditions: the cipher and the JSON codec keep their promises for
  -- the session, rand.Reader fills the salt and the nonce, os.CreateTemp gives another
  -- name than the session's, and the file can be read.
  pub read-write :
      (passphrase profile : Bytes) (meta : SessionMeta) (root next : Root) (io : StoreIo)
      → IsCodec j meta
      → session_file meta.session_address ≢ draw.tmp
      → io.reads (session_file meta.session_address) ≡ true
      → write c j passphrase draw profile meta root ≡ (ok tt, next)
      → read c j passphrase io profile meta.session_address next
        ≡ ok (record meta { encrypted = false })
  unfolding read
  read-write passphrase profile meta root next io json apart readable h =
      let (content, e, at) = write-lookup passphrase profile meta root next apart h in
      let back = decode-encode passphrase content meta json e in ground (arith, readable, at, back)

  -- A session that was stored under a passphrase is refused without one, so that its ciphertext is never
  -- taken for a private key, under the same conditions.
  pub read-no_passphrase :
      (passphrase profile : Bytes) (meta : SessionMeta) (root next : Root) (io : StoreIo)
      → IsCodec j meta
      → session_file meta.session_address ≢ draw.tmp
      → io.reads (session_file meta.session_address) ≡ true
      → is_empty passphrase ≡ false
      → write c j passphrase draw profile meta root ≡ (ok tt, next)
      → read c j [] io profile meta.session_address next ≡ err no_passphrase
  unfolding read decode encode
  read-no_passphrase passphrase profile meta root next io json apart readable set h =
      let (content, e, at) = write-lookup passphrase profile meta root next apart h in
      elim (Result-cases (encrypt c draw.salt draw.nonce meta.privkey passphrase)) [
        | inr (x, x_eq) ↦ absurd (ground (arith, e, set, x_eq))
        | inl (key, k_eq) ↦
            let (blob, em, eu) = json.unmarshal-marshal key true in
            let same : blob ≡ content = ground (arith, e, set, em, k_eq) in
            ground (arith, readable, at, eu, same)
      ]
