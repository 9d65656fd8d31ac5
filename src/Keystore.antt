-- ===== src/Keystore.antt =====
-- internal/keystore/keystore.go: the agent's keys, one file for each name in the directory of the
-- profile. The files of the root directory are `Root`; BIP39, the key derivation and the addresses are
-- the interface `Wallet`; which calls of the operating system succeed is the argument `io`. The
-- mutex makes a generation and a deletion one step.
pub mod Operations
pub mod Tests
pub mod Cap
pub mod Keys
pub mod Listing
pub mod Refinement
use gno_mcp.Prelude.{
  ℕ, ◌-◌, suc, Bytes, codes, eqb, is_empty, Bool, true, false, not, ◌&&◌, ◌||◌, Option, none, some,
  List, [], ◌∷◌, ◌++◌, length, take, all_chars, leb, if◌then◌else◌, ◌==◌, ltb,
}
use gno_mcp.Prelude.Int.{ℤ, pos, ltb_ℤ}
use gno_mcp.Prelude.Map.{Map, lookup, insert, delete}
use gno_mcp.Prelude.Result.{Result, ok, err, guard, ◌>>=◌, ◌>>◌}
use gno_mcp.Secret.{Cipher, SecretError, encrypt, decrypt}
use gno_mcp.Files.{
  Node, file, folder, Dir, FileError, exists, failed, Calls, Done, Trace, last_of,
  write_file_exclusive,
}
use gno_mcp.Profiles.Formats.{valid_profile_name, is_lower_alnum, begins_in}
use gno_mcp.Profiles.Profile.{Profile, is_local, is_testnet, is_read_only}
use gno_mcp.Prelude.{has_suffix}

-- gnoclient.SignerFromBip39 of a mnemonic and a chain id, and the address of Signer.Info
pub record Wallet : Type 1 where
  pub Signer : Type 0
  pub signer_from_bip39 : Bytes → Bytes → Option Signer
  pub info_address : Signer → Option Bytes

pub data KeyError : Type 0 where
  invalid_profile_name invalid_key_name read_only no_agent_key no_key_dir : KeyError
  key_gen_testnet_only key_exists key_cap_reached : KeyError
  not_exist path_error not_derived no_info no_mnemonic : KeyError
  not_decrypted not_encrypted : SecretError → KeyError

abbrev pub test1_mnemonic : Bytes
test1_mnemonic =
    codes
      "source bonus chronic canvas draft south burst lottery vacant surface solve popular case indicate oppose farm nothing bullet exhibit title speed wink action roast"

abbrev pub default_key_name : Bytes
default_key_name = codes "default"

abbrev pub key_file_ext : Bytes
key_file_ext = codes ".key"

-- `[a-z0-9][a-z0-9_-]{0,31}`: keyNameRE
unfoldable pub valid_key_name : Bytes → Bool
unfolding all_chars
valid_key_name s =
    leb (length s) 32
    && begins_in is_lower_alnum s
    && all_chars (λ c. is_lower_alnum c || c == b'_' || c == b'-') s

pub record Keystore : Type 0 where
  pub root_dir : Bytes
  pub passphrase : Bytes
  pub max_keys : ℤ

-- Which calls of the operating system fail for another reason than a missing file: ReadDir, ReadFile
-- of a key, Stat, Remove.
pub record Io : Type 0 where
  pub reads_dir : Bool
  pub reads : Bytes → Bool
  pub stats : Bool
  pub removes : Bool

-- keyPath, below profileDir
abbrev pub key_file : Bytes → Bytes
key_file key_name = key_name ++ key_file_ext

-- requireValidProfileName
abbrev pub require_valid_profile_name : Bytes → Result KeyError (Unit {0})
require_valid_profile_name profile = guard (valid_profile_name profile) invalid_profile_name

-- resolveKeyName
unfoldable pub resolve_key_name : Bytes → Result KeyError Bytes
unfolding valid_key_name
resolve_key_name key_name =
    let name = if is_empty key_name then default_key_name else key_name in
    guard (valid_key_name name) invalid_key_name >> ok name

abbrev pub is_file : Node → Bool
is_file (file content) = true
is_file folder = false

-- `!e.IsDir() && strings.HasSuffix(e.Name(), keyFileExt)`
abbrev pub is_key : Bytes → Node → Bool
is_key name n = is_file n && has_suffix name key_file_ext

-- the loop of countKeys
unfoldable pub key_count : Dir → ℕ
unfolding has_suffix
key_count [] = 0
key_count ((name, n) ∷ d) = let rest = key_count d in if is_key name n then suc rest else rest

-- os.ReadFile
abbrev pub read_file : Bool → Option Node → Result KeyError Bytes
read_file true none = err not_exist
read_file true (some folder) = err path_error
read_file true (some (file content)) = ok content
read_file false n = err path_error

abbrev pub or_key_error {ℓ} : {A : Type ℓ} → Option A → KeyError → Result KeyError A
or_key_error none e = err e
or_key_error (some a) e = ok a

-- an error of the secrets under the keystore's own
abbrev pub wrapped_error :
    {A : Type 0} → (SecretError → KeyError) → Result SecretError A → Result KeyError A
wrapped_error f (ok a) = ok a
wrapped_error f (err e) = err (f e)

-- `errors.Is(err, os.ErrNotExist)`
abbrev pub missing_key : {A : Type 0} → Result KeyError A → Result KeyError A
missing_key (ok a) = ok a
missing_key (err e) = elim e [ not_exist ↦ err no_agent_key | other ↦ err other ]

-- what a generation draws: the mnemonic of newMnemonic, the randomness of Encrypt, the name of the
-- temporary file, and the outcome of each call of the write
pub record Draw : Type 0 where
  pub mnemonic : Option Bytes
  pub salt : Option Bytes
  pub nonce : Option Bytes
  pub tmp : Bytes
  pub calls : Calls
