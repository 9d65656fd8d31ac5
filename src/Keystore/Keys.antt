-- ===== src/Keystore/Keys.antt =====
-- A key that was generated signs afterwards, and no operation touches the other keys.
use gno_mcp.Prelude.{
  ◌==◌, ◌≡◌, ◌≢◌, inl, inr, Bytes, is_empty, true, false, not, ◌&&◌, none, some, length, arith,
}
use gno_mcp.Prelude.Int.{pos, ltb_ℤ}
use gno_mcp.Prelude.Map.{lookup, insert, delete, lookup-insert_self}
use gno_mcp.Prelude.Result.{ok, Result-cases}
use gno_mcp.Secret.{Cipher, IsCipher, encrypt, decrypt, salt_len, nonce_len}
use gno_mcp.Secret.RoundTrip.{decrypt-encrypt_ok}
use gno_mcp.Files.{file, last_of, write_file_exclusive}
use gno_mcp.Files.Atomic.{write_file_exclusive-made, write_file_exclusive-ok}
use gno_mcp.Profiles.Formats.{valid_profile_name, begins_in}
use gno_mcp.Profiles.Profile.{Profile, is_testnet, is_read_only}
use gno_mcp.Keystore.{
  Wallet, Keystore, Io, Draw, key_file, resolve_key_name, key_count, key_file_ext, valid_key_name,
  or_key_error, not_derived, no_info,
}
use gno_mcp.Keystore.Operations.{
  signer_for_profile, agent_address, count_keys, save_mnemonic, prepare, generate_for_profile,
}
use gno_mcp.Prelude.Result.{◌>>=◌}
use gno_mcp.Files.{Root, dir_of}
use gno_mcp.Prelude.{has_suffix}

-- What a generation that goes as far as saveMnemonic has established.
pub record Prepared (w : Wallet) (k : Keystore) (draw : Draw) (profile key_name : Bytes)
    (p : Profile) (root : Root) (name mnemonic addr : Bytes) : Type 0 where
  pub valid : valid_profile_name profile ≡ true
  pub writable : is_read_only p ≡ false
  pub testnet : is_testnet p ≡ true
  pub rooted : is_empty k.root_dir ≡ false
  pub resolved : resolve_key_name key_name ≡ ok name
  pub absent : lookup (key_file name) (dir_of profile root) ≡ none
  pub room :
      (ltb_ℤ (pos 0) k.max_keys && not (ltb_ℤ (pos (key_count (dir_of profile root))) k.max_keys))
      ≡ false
  pub drawn : draw.mnemonic ≡ some mnemonic
  pub derived :
      (or_key_error (w.signer_from_bip39 mnemonic p.chain_id) not_derived >>= λ s.
      or_key_error (w.info_address s) no_info)
      ≡ ok addr

module _ (w : Wallet) (c : Cipher) (k : Keystore) (io : Io) (draw : Draw) (profile key_name : Bytes)
    (p : Profile) (root : Root) where
  pub prepare-Prepared :
      (name mnemonic addr : Bytes)
      → prepare w c k io draw profile key_name p root ≡ ok (name, mnemonic, addr)
      → Prepared w k draw profile key_name p root name mnemonic addr
  unfolding prepare count_keys
  prepare-Prepared name mnemonic addr h = ground (arith, h)

  -- A key name that resolves is resolved.
  resolve-resolve : (a b : Bytes) → resolve_key_name a ≡ ok b → resolve_key_name b ≡ ok b
  unfolding resolve_key_name
  resolve-resolve a b h = ground (arith, h)

-- os.CreateTemp's names, of the pattern `.tmp-*`
pub record IsTempName (tmp : Bytes) : Type 0 where
  pub dotted : begins_in (λ c. c == b'.') tmp ≡ true
  pub no_key : has_suffix tmp key_file_ext ≡ false

pub key_file-ne-tmp :
    (a name tmp : Bytes) → resolve_key_name a ≡ ok name → IsTempName tmp → key_file name ≢ tmp
unfolding resolve_key_name valid_key_name
key_file-ne-tmp a name tmp h t = λ e. ground (arith, h, e, t.dotted)

-- The randomness that rand.Reader gives has the length that was asked for.
pub record IsDraw (draw : Draw) : Type 0 where
  pub salt_sized : (salt : Bytes) → draw.salt ≡ some salt → length salt ≡ salt_len
  pub nonce_sized : (nonce : Bytes) → draw.nonce ≡ some nonce → length nonce ≡ nonce_len
  pub temp_name : IsTempName draw.tmp

module _ (w : Wallet) (c : Cipher) (laws : IsCipher c) (k : Keystore) (io : Io) (draw : Draw)
    (drawn : IsDraw draw) (profile : Bytes) (root : Root) where
  pub save_mnemonic-lookup :
      (a name mnemonic : Bytes) (next : Root)
      → resolve_key_name a ≡ ok name
      → save_mnemonic w c k io draw profile name mnemonic root ≡ (ok tt, next)
      → (enc : Bytes) × (lookup (key_file name) (dir_of profile next) ≡ some (file enc))
        × (decrypt c enc k.passphrase ≡ ok mnemonic)
  unfolding save_mnemonic
  save_mnemonic-lookup a name mnemonic next h e =
      elim (Result-cases (encrypt c draw.salt draw.nonce mnemonic k.passphrase)) [
        | inr (x, x_eq) ↦ absurd (ground (arith, e, x_eq))
        | inl (enc, enc_eq) ↦
            let d = dir_of profile root in
            let path = key_file name in
            let write = write_file_exclusive draw.calls draw.tmp path enc d in
            let wrote : write.0 ≡ ok tt = ground (arith, e, enc_eq) in
            let made = write_file_exclusive-made draw.calls draw.tmp path enc d wrote in
            let shape : next ≡ insert profile (last_of d write.1) root =
              ground (arith, e, enc_eq, made) in
            let content =
              write_file_exclusive-ok draw.tmp path enc d
                (key_file-ne-tmp a name draw.tmp h drawn.temp_name) draw.calls wrote in
            (
              enc,
              rw (shape, lookup-insert_self profile (last_of d write.1) root, content)
                  (lookup-insert_self path (file enc) (delete draw.tmp d)),
              decrypt-encrypt_ok c laws draw.salt draw.nonce mnemonic k.passphrase enc
                  drawn.salt_sized drawn.nonce_sized enc_eq,
            )
      ]

  -- GenerateForProfile makes a usable key: where it answers an address, AgentAddress gives the same
  -- address for that key name afterwards, if the key file can be read. Conditions: the cipher keeps its
  -- promises, rand.Reader fills the salt and the nonce, and os.CreateTemp gives a name of its pattern.
  pub agent_address-generate :
      (key_name addr : Bytes) (p : Profile) (next : Root) (later : Io)
      → ((name : Bytes) → later.reads name ≡ true)
      → generate_for_profile w c k io draw profile key_name p root ≡ (ok addr, next)
      → agent_address w c k later profile key_name p next ≡ ok addr
  unfolding generate_for_profile agent_address signer_for_profile is_testnet
  agent_address-generate key_name addr p next later readable h =
      elim (Result-cases (prepare w c k io draw profile key_name p root)) [
        | inr (x, x_eq) ↦ absurd (ground (arith, h, x_eq))
        | inl ((name, mnemonic, found), e) ↦
            let ready =
              prepare-Prepared w c k io draw profile key_name p root name mnemonic found e in
            let saved : save_mnemonic w c k io draw profile name mnemonic root ≡ (ok tt, next) =
              ground (arith, h, e) in
            let same : found ≡ addr = ground (arith, h, e) in
            let (enc, at, opens) =
              save_mnemonic-lookup key_name name mnemonic next ready.resolved saved in
            ground (
              arith,
              ready.valid,
              ready.writable,
              ready.testnet,
              ready.rooted,
              ready.resolved,
              ready.derived,
              readable name,
              at,
              opens,
              same,
            )
      ]
