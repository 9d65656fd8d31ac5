-- ===== src/Keystore/Operations.antt =====
-- internal/keystore/keystore.go: the signers, the listing, the generation and the deletion.
use gno_mcp.Prelude.{ℕ, Bytes, is_empty, is_some, Bool, not, ◌&&◌, if◌then◌else◌}
use gno_mcp.Prelude.Int.{pos, ltb_ℤ}
use gno_mcp.Prelude.Map.{lookup, insert, delete}
use gno_mcp.Prelude.Result.{Result, ok, err, guard, ◌>>=◌, ◌>>◌}
use gno_mcp.Secret.{Cipher, encrypt, decrypt}
use gno_mcp.Files.{FileError, exists, failed, last_of, write_file_exclusive}
use gno_mcp.Profiles.Profile.{Profile, is_local, is_testnet, is_read_only}
use gno_mcp.Keystore.{
  Wallet, KeyError, read_only, no_key_dir, key_gen_testnet_only, key_exists, key_cap_reached,
  path_error, not_derived, no_info, no_mnemonic, not_decrypted, not_encrypted, test1_mnemonic,
  Keystore, Io, key_file, require_valid_profile_name, resolve_key_name, key_count, read_file,
  or_key_error, wrapped_error, missing_key, Draw,
}
use gno_mcp.Files.{Root, dir_of, with_dir}

module _ (w : Wallet) (c : Cipher) (k : Keystore) (io : Io) where
  -- loadMnemonic
  abbrev pub load_mnemonic : Bytes → Bytes → Root → Result KeyError Bytes
  load_mnemonic profile key_name root =
      guard (not (is_empty k.root_dir)) no_key_dir
      >> read_file (io.reads key_name) (lookup (key_file key_name) (dir_of profile root))
      >>= λ raw. wrapped_error not_decrypted (decrypt c raw k.passphrase)

  -- deriveSigner
  abbrev pub derive_signer : Bytes → Bytes → Result KeyError w.Signer
  derive_signer mnemonic chain_id = or_key_error (w.signer_from_bip39 mnemonic chain_id) not_derived

  -- SignerForProfile, for a testnet
  abbrev pub testnet_signer : Bytes → Bytes → Profile → Root → Result KeyError w.Signer
  testnet_signer profile key_name p root = resolve_key_name key_name >>= λ name.
      missing_key (load_mnemonic profile name root) >>= λ mnemonic.
      derive_signer mnemonic p.chain_id

  -- SignerForProfile
  unfoldable pub signer_for_profile : Bytes → Bytes → Profile → Root → Result KeyError w.Signer
  unfolding resolve_key_name lookup decrypt is_local is_read_only
  signer_for_profile profile key_name p root =
      require_valid_profile_name profile
      >> guard (not (is_read_only p)) read_only
      >> (if is_local p
          then derive_signer test1_mnemonic p.chain_id
          else testnet_signer profile key_name p root)

  -- `info.GetAddress().String()`
  abbrev pub signer_address : w.Signer → Result KeyError Bytes
  signer_address s = or_key_error (w.info_address s) no_info

  -- AgentAddress
  unfoldable pub agent_address : Bytes → Bytes → Profile → Root → Result KeyError Bytes
  unfolding signer_for_profile
  agent_address profile key_name p root =
      signer_for_profile profile key_name p root >>= signer_address

  -- keyExists
  abbrev pub key_exists_in : Bytes → Bytes → Root → Result KeyError Bool
  key_exists_in profile key_name root =
      guard io.stats path_error >> ok (is_some (lookup (key_file key_name) (dir_of profile root)))

  -- countKeys
  unfoldable pub count_keys : Bytes → Root → Result KeyError ℕ
  unfolding key_count lookup
  count_keys profile root = guard io.reads_dir path_error >> ok (key_count (dir_of profile root))

  -- What saveMnemonic answers for what WriteFileExclusive answers
  abbrev pub save_error : FileError → KeyError
  save_error exists = key_exists
  save_error failed = path_error

  abbrev pub saved_result : Result FileError (Unit {0}) → Result KeyError (Unit {0})
  saved_result (ok u) = ok tt
  saved_result (err e) = err (save_error e)

  -- saveMnemonic
  unfoldable pub save_mnemonic :
      Draw → Bytes → Bytes → Bytes → Root → Result KeyError (Unit {0}) × Root
  unfolding encrypt write_file_exclusive lookup insert
  save_mnemonic draw profile key_name mnemonic root =
      elim (encrypt c draw.salt draw.nonce mnemonic k.passphrase) [
        | err e ↦ (err (not_encrypted e), root)
        | ok enc ↦
            let d = dir_of profile root in
            let (r, t) = write_file_exclusive draw.calls draw.tmp (key_file key_name) enc d in
            (saved_result r, with_dir draw.calls.mkdir profile (last_of d t) root)
      ]

  -- GenerateForProfile, behind the address
  abbrev pub saved : Draw → Bytes → Bytes → Bytes → Root → Bytes → Result KeyError Bytes × Root
  saved draw profile key_name mnemonic root addr =
      let (r, next) = save_mnemonic draw profile key_name mnemonic root in (r >> ok addr, next)

  -- GenerateForProfile, up to saveMnemonic: the key's name, the mnemonic and its address
  unfoldable pub prepare :
      Draw → Bytes → Bytes → Profile → Root → Result KeyError (Bytes × Bytes × Bytes)
  unfolding resolve_key_name lookup count_keys is_testnet is_read_only
  prepare draw profile key_name p root =
      require_valid_profile_name profile
      >> guard (not (is_read_only p)) read_only
      >> guard (is_testnet p) key_gen_testnet_only
      >> guard (not (is_empty k.root_dir)) no_key_dir
      >> resolve_key_name key_name
      >>= λ name. key_exists_in profile name root >>= λ found.
          guard (not found) key_exists >> count_keys profile root >>= λ count.
          guard (not (ltb_ℤ (pos 0) k.max_keys && not (ltb_ℤ (pos count) k.max_keys)))
            key_cap_reached
          >> or_key_error draw.mnemonic no_mnemonic
          >>= λ mnemonic. derive_signer mnemonic p.chain_id >>= signer_address >>= λ addr.
              ok (name, mnemonic, addr)

  -- GenerateForProfile
  unfoldable pub generate_for_profile :
      Draw → Bytes → Bytes → Profile → Root → Result KeyError Bytes × Root
  unfolding prepare save_mnemonic
  generate_for_profile draw profile key_name p root = elim (prepare draw profile key_name p root) [
    | err e ↦ (err e, root)
    | ok (name, mnemonic, addr) ↦ saved draw profile name mnemonic root addr
  ]

  -- DeleteForProfile, up to os.Remove: the key's name and its address
  unfoldable pub doomed : Bytes → Bytes → Profile → Root → Result KeyError (Bytes × Bytes)
  unfolding resolve_key_name agent_address is_testnet
  doomed profile key_name p root =
      require_valid_profile_name profile
      >> guard (is_testnet p) key_gen_testnet_only
      >> guard (not (is_empty k.root_dir)) no_key_dir
      >> resolve_key_name key_name
      >>= λ name. agent_address profile name p root >>= λ addr. ok (name, addr)

  -- DeleteForProfile, os.Remove of a key whose address was derived
  abbrev pub removed : Bytes → Bytes → Bytes → Root → Result KeyError Bytes × Root
  removed profile name addr root =
      if io.removes
      then (ok addr, insert profile (delete (key_file name) (dir_of profile root)) root)
      else (err path_error, root)

  -- DeleteForProfile
  unfoldable pub delete_for_profile : Bytes → Bytes → Profile → Root → Result KeyError Bytes × Root
  unfolding doomed insert delete lookup
  delete_for_profile profile key_name p root = elim (doomed profile key_name p root) [
    | err e ↦ (err e, root)
    | ok (name, addr) ↦ removed profile name addr root
  ]
