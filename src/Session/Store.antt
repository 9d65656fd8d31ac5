-- ===== src/Session/Store.antt =====
-- internal/session/store.go: the files of the sessions, one for each session in the directory of its
-- profile. encoding/json is the interface `Codec`.
pub mod RoundTrip
pub mod Tests
use gno_mcp.Prelude.{
  ℕ, Bytes, codes, is_empty, has_suffix, Bool, true, false, not, ◌&&◌, Option, none, some, List, [],
  ◌∷◌, ◌++◌, ◌≡◌, if◌then◌else◌,
}
use mathlib.Core.List.{map}
use gno_mcp.Prelude.Map.{Map, lookup, insert, delete}
use gno_mcp.Prelude.Result.{Result, ok, err, guard, ◌>>=◌, ◌>>◌}
use gno_mcp.Secret.{Cipher, SecretError, encrypt, decrypt}
use gno_mcp.Files.{
  FileError, Node, file, folder, Dir, Calls, last_of, write_file_atomic, Root, dir_of, with_dir,
}
use gno_mcp.Session.Manager.{SessionMeta}

-- json.Marshal and json.Unmarshal of a SessionMeta
pub record Codec : Type 0 where
  pub marshal : SessionMeta → Option Bytes
  pub unmarshal : Bytes → Option SessionMeta

-- What is marshalled of a session is unmarshalled, whatever its private key, which is base64. That is
-- what encoding/json documents for a session whose texts are UTF-8; other bytes it replaces.
pub record IsCodec (j : Codec) (meta : SessionMeta) : Type 0 where
  pub unmarshal-marshal :
      (key : Bytes) (enc : Bool)
      → (text : Bytes) × (j.marshal (record meta { privkey = key; encrypted = enc }) ≡ some text)
        × (j.unmarshal text ≡ some (record meta { privkey = key; encrypted = enc }))

pub data StoreError : Type 0 where
  not_encrypted not_decrypted : SecretError → StoreError
  not_marshalled not_unmarshalled not_written not_read not_deleted : StoreError
  not_there no_passphrase : StoreError

-- keyPath, below profileDir
abbrev pub session_file : Bytes → Bytes
session_file addr = addr ++ codes ".key"

-- Which calls fail for another reason than a missing file: ReadDir of a profile's directory, ReadFile
-- of an entry, Remove.
pub record StoreIo : Type 0 where
  pub reads_dir : Bool
  pub reads : Bytes → Bool
  pub removes : Bool

-- what a write draws: the randomness of Encrypt, the name of the temporary file, and the outcomes
pub record StoreDraw : Type 0 where
  pub salt : Option Bytes
  pub nonce : Option Bytes
  pub tmp : Bytes
  pub calls : Calls

abbrev pub wrap_secret :
    {A : Type 0} → (SecretError → StoreError) → Result SecretError A → Result StoreError A
wrap_secret f (ok a) = ok a
wrap_secret f (err e) = err (f e)

abbrev pub or_store_error {ℓ} : {A : Type ℓ} → Option A → StoreError → Result StoreError A
or_store_error none e = err e
or_store_error (some a) e = ok a

-- os.ReadFile
abbrev pub read_session_file : Bool → Option Node → Result StoreError Bytes
read_session_file true none = err not_there
read_session_file true (some folder) = err not_read
read_session_file true (some (file content)) = ok content
read_session_file false n = err not_read

module _ (c : Cipher) (j : Codec) (passphrase : Bytes) where
  -- the copy that Write marshals
  abbrev pub stored_form : StoreDraw → SessionMeta → Result StoreError SessionMeta
  stored_form draw meta =
      if is_empty passphrase
      then ok (record meta { encrypted = false })
      else (wrap_secret not_encrypted (encrypt c draw.salt draw.nonce meta.privkey passphrase)
          >>= λ key. ok (record meta { privkey = key; encrypted = true }))

  abbrev pub written : Result FileError (Unit {0}) → Result StoreError (Unit {0})
  written (ok u) = ok tt
  written (err e) = err not_written

  -- Write, up to the file
  unfoldable pub encode : StoreDraw → SessionMeta → Result StoreError Bytes
  unfolding encrypt
  encode draw meta = stored_form draw meta >>= λ m. or_store_error (j.marshal m) not_marshalled

  -- Write
  unfoldable pub write :
      StoreDraw → Bytes → SessionMeta → Root → Result StoreError (Unit {0}) × Root
  unfolding encode write_file_atomic lookup insert
  write draw profile meta root = elim (encode draw meta) [
    | err e ↦ (err e, root)
    | ok content ↦
        let d = dir_of profile root in
        let (r, t) =
          write_file_atomic draw.calls draw.tmp (session_file meta.session_address) content d in
        (written r, with_dir draw.calls.mkdir profile (last_of d t) root)
  ]

  -- decode, where the JSON is read
  abbrev pub opened : SessionMeta → Result StoreError SessionMeta
  opened m =
      if m.encrypted && is_empty passphrase
      then err no_passphrase
      else if m.encrypted
      then (wrap_secret not_decrypted (decrypt c m.privkey passphrase) >>= λ plain.
          ok (record m { privkey = plain; encrypted = false }))
      else ok m

  -- decode
  unfoldable pub decode : Bytes → Result StoreError SessionMeta
  unfolding decrypt
  decode content = or_store_error (j.unmarshal content) not_unmarshalled >>= opened

  -- Read
  unfoldable pub read : StoreIo → Bytes → Bytes → Root → Result StoreError SessionMeta
  unfolding decode lookup
  read io profile addr root =
      read_session_file (io.reads (session_file addr))
        (lookup (session_file addr) (dir_of profile root))
      >>= decode

  -- Delete: a missing file is no error
  unfoldable pub delete_session :
      StoreIo → Bytes → Bytes → Root → Result StoreError (Unit {0}) × Root
  unfolding delete insert lookup
  delete_session io profile addr root = elim (lookup profile root) [
    | none ↦ (if io.removes then ok tt else err not_deleted, root)
    | some d ↦
        if io.removes
        then (ok tt, insert profile (delete (session_file addr) d) root)
        else (err not_deleted, root)
  ]

  -- the loop of List: what cannot be read or decoded is skipped
  unfoldable pub decoded_all : StoreIo → Dir → List SessionMeta
  unfolding decode has_suffix
  decoded_all io [] = []
  decoded_all io ((name, n) ∷ d) =
      let rest = decoded_all io d in
      if has_suffix name (codes ".key")
      then elim (read_session_file (io.reads name) (some n) >>= decode) [
        | ok m ↦ m ∷ rest
        | err e ↦ rest
      ]
      else rest

  -- List
  unfoldable pub list : StoreIo → Bytes → Root → Result StoreError (List SessionMeta)
  unfolding decoded_all lookup
  list io profile root = guard io.reads_dir not_read >> ok (decoded_all io (dir_of profile root))

-- listProfiles: nothing but profile directories stands in `Root`
unfoldable pub list_profiles : Bool → Root → Result StoreError (List Bytes)
list_profiles reads root = guard reads not_read >> ok (map (λ e. e.0) root)
