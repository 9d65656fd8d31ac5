-- ===== src/Keystore/Refinement.antt =====
-- The keystore as a map from a profile and a key name to a mnemonic: what generation and deletion do
-- to it, whatever fails on the way.
use gno_mcp.Prelude.{
  ◌≡◌, ◌≢◌, ◌⊎◌, inl, inr, refl, Bytes, eqb, eqb_iff, ◌&&◌, Option, none, some, arith, ap,
  Bool-cases, sym,
}
use mathlib.Core.List.{append_cancel_right}
use gno_mcp.Prelude.Map.{lookup, insert, delete, lookup-insert, lookup-delete}
use gno_mcp.Prelude.Result.{ok, err, Result-cases}
use gno_mcp.Secret.{Cipher, IsCipher, encrypt, decrypt}
use gno_mcp.Secret.RoundTrip.{decrypt-encrypt_ok}
use gno_mcp.Files.{Node, file, folder, last_of, write_file_exclusive}
use gno_mcp.Files.Atomic.{write_file_exclusive-last}
use gno_mcp.Profiles.Profile.{Profile}
use gno_mcp.Keystore.{Wallet, Keystore, Io, Draw, key_file, key_file_ext, resolve_key_name}
use gno_mcp.Keystore.Operations.{
  save_mnemonic, prepare, generate_for_profile, doomed, delete_for_profile, agent_address,
}
use gno_mcp.Keystore.Keys.{prepare-Prepared, IsDraw, IsTempName, key_file-ne-tmp}
use gno_mcp.Files.{Root, dir_of}
use gno_mcp.Prelude.{has_suffix-append}

-- the mnemonic in a file
abbrev pub mnemonic_in : Cipher → Keystore → Option Node → Option Bytes
mnemonic_in c k none = none
mnemonic_in c k (some folder) = none
mnemonic_in c k (some (file raw)) = elim (decrypt c raw k.passphrase) [
  | ok m ↦ some m
  | err e ↦ none
]

-- The abstract view: the mnemonic under a profile and a key name.
unfoldable pub view : Cipher → Keystore → Root → Bytes → Bytes → Option Bytes
unfolding decrypt lookup
view c k root profile name = mnemonic_in c k (lookup (key_file name) (dir_of profile root))

-- The two views agree but perhaps under one name of a profile.
abbrev pub AgreeElsewhere :
    Bytes → Bytes → (Bytes → Bytes → Option Bytes) → (Bytes → Bytes → Option Bytes) → Type 0
AgreeElsewhere profile name before after =
    (q n : Bytes) → (q ≢ profile) ⊎ (n ≢ name) → after q n ≡ before q n

-- What a generation may do to the view: nothing, or one mnemonic more under a free name of its profile.
pub data KeepsOrAdds (profile : Bytes) (before after : Bytes → Bytes → Option Bytes) : Type 0 where
  kept_all : ((q n : Bytes) → after q n ≡ before q n) → KeepsOrAdds profile before after
  added_one :
      (name mnemonic : Bytes)
      → before profile name ≡ none
      → after profile name ≡ some mnemonic
      → AgreeElsewhere profile name before after
      → KeepsOrAdds profile before after

-- What a deletion may do to the view: nothing, or one name of its profile less.
pub data KeepsOrDrops (profile : Bytes) (before after : Bytes → Bytes → Option Bytes) : Type 0 where
  kept_all : ((q n : Bytes) → after q n ≡ before q n) → KeepsOrDrops profile before after
  dropped_one :
      (name : Bytes)
      → after profile name ≡ none
      → AgreeElsewhere profile name before after
      → KeepsOrDrops profile before after

key_file-injective : (a b : Bytes) → key_file a ≡ key_file b → a ≡ b
key_file-injective a b h = append_cancel_right a b key_file_ext h

module _ (w : Wallet) (c : Cipher) (k : Keystore) (io : Io) (profile : Bytes) (root : Root) where
  -- a directory entry that does not change shows the same mnemonic
  view-same :
      (next : Root) (q n : Bytes)
      → lookup (key_file n) (dir_of q next) ≡ lookup (key_file n) (dir_of q root)
      → view c k next q n ≡ view c k root q n
  unfolding view
  view-same next q n h = ap (mnemonic_in c k) h

  -- What saveMnemonic leaves of every entry but the key's own and the temporary file's.
  save_mnemonic-others :
      (draw : Draw) (name mnemonic q j : Bytes)
      → key_file name ≢ draw.tmp
      → j ≢ draw.tmp
      → (q ≢ profile) ⊎ (j ≢ key_file name)
      → lookup j (dir_of q ((save_mnemonic w c k io draw profile name mnemonic root).1))
        ≡ lookup j (dir_of q root)
  unfolding save_mnemonic
  save_mnemonic-others draw name mnemonic q j apart other away =
      elim (Result-cases (encrypt c draw.salt draw.nonce mnemonic k.passphrase)) [
        | inr (x, x_eq) ↦ ground (arith, x_eq)
        | inl (enc, enc_eq) ↦
            let d = dir_of profile root in
            let left =
              last_of d ((write_file_exclusive draw.calls draw.tmp (key_file name) enc d).1) in
            let whole = write_file_exclusive-last draw.calls draw.tmp (key_file name) enc d apart in
            ground (
              arith,
              enc_eq,
              away,
              whole.others j other,
              lookup-insert profile q left root,
              eqb_iff profile q,
            )
      ]

  -- What it leaves of the key's own: nothing, or the mnemonic.
  save_mnemonic-target :
      IsCipher c
      → (draw : Draw) (name mnemonic : Bytes) → IsDraw draw
      → key_file name ≢ draw.tmp
      → lookup (key_file name) (dir_of profile root) ≡ none
      → let next = (save_mnemonic w c k io draw profile name mnemonic root).1 in
        (view c k next profile name ≡ none) ⊎ (view c k next profile name ≡ some mnemonic)
  unfolding save_mnemonic view
  save_mnemonic-target laws draw name mnemonic drawn apart absent =
      elim (Result-cases (encrypt c draw.salt draw.nonce mnemonic k.passphrase)) [
        | inr (x, x_eq) ↦ ground (arith, x_eq, absent)
        | inl (enc, enc_eq) ↦
            let d = dir_of profile root in
            let left =
              last_of d ((write_file_exclusive draw.calls draw.tmp (key_file name) enc d).1) in
            let whole = write_file_exclusive-last draw.calls draw.tmp (key_file name) enc d apart in
            let opens =
              decrypt-encrypt_ok c laws draw.salt draw.nonce mnemonic k.passphrase enc
                drawn.salt_sized drawn.nonce_sized enc_eq in
            ground (
              arith,
              enc_eq,
              absent,
              whole.target,
              opens,
              lookup-insert profile profile left root,
              eqb_iff profile profile,
            )
      ]

  -- one or the other of two texts
  key_file-ne : (a b : Bytes) → a ≢ b → key_file a ≢ key_file b
  key_file-ne a b h = λ e. h (key_file-injective a b e)

  view-generate :
      (draw : Draw) (name mnemonic q n : Bytes)
      → IsTempName draw.tmp
      → key_file name ≢ draw.tmp
      → (q ≢ profile) ⊎ (n ≢ name)
      → view c k ((save_mnemonic w c k io draw profile name mnemonic root).1) q n
        ≡ view c k root q n
  view-generate draw name mnemonic q n temp apart away = view-same _ q n (
      save_mnemonic-others draw name mnemonic q (key_file n) apart
        (λ e. ground (arith, has_suffix-append n key_file_ext, temp.no_key, e))
        (ground (arith, away, key_file-ne n name)))

  view-none :
      (r : Root) (name : Bytes)
      → lookup (key_file name) (dir_of profile r) ≡ none
      → view c k r profile name ≡ none
  unfolding view
  view-none r name h = ap (mnemonic_in c k) h

  -- nothing changes but perhaps under one name of the profile
  abbrev Elsewhere : Bytes → Root → Type 0
  Elsewhere name next =
      (q n : Bytes) → (q ≢ profile) ⊎ (n ≢ name) → view c k next q n ≡ view c k root q n

  -- A place that shows nothing before and after, and no change elsewhere, is no step.
  quiet :
      (next : Root) (name : Bytes)
      → view c k root profile name ≡ none
      → view c k next profile name ≡ none
      → ((q n : Bytes) → (q ≢ profile) ⊎ (n ≢ name) → view c k next q n ≡ view c k root q n)
      → (q n : Bytes) → view c k next q n ≡ view c k root q n
  quiet next name h g f q n = elim (Bool-cases (eqb q profile && eqb n name)) [
    | inl e ↦
        let at : q ≡ profile = ground (arith, e, eqb_iff q profile) in
        let named : n ≡ name = ground (arith, e, eqb_iff n name) in rw (at, named, g, h) refl
    | inr e ↦ f q n (ground (arith, e, eqb_iff q profile, eqb_iff n name))
  ]

  -- GenerateForProfile, whatever fails in it, leaves the map from profiles and key names to mnemonics
  -- as it is or adds one mnemonic, under a name of that profile that had none, and changes nothing
  -- else: no key is overwritten or lost. Conditions: the cipher keeps its promises, rand.Reader fills the salt and the nonce, and
  -- os.CreateTemp gives a name of its pattern.
  pub generate_for_profile-KeepsOrAdds :
      IsCipher c
      → (draw : Draw) (key_name : Bytes) (p : Profile) → IsDraw draw
      → KeepsOrAdds profile
          (view c k root)
          (view c k ((generate_for_profile w c k io draw profile key_name p root).1))
  unfolding generate_for_profile
  generate_for_profile-KeepsOrAdds laws draw key_name p drawn =
      elim (Result-cases (prepare w c k io draw profile key_name p root)) [
        | inr (x, x_eq) ↦ KeepsOrAdds.kept_all (λ q n. ground (arith, x_eq))
        | inl ((name, mnemonic, addr), e) ↦
            let ready =
              prepare-Prepared w c k io draw profile key_name p root name mnemonic addr e in
            let apart = key_file-ne-tmp key_name name draw.tmp ready.resolved drawn.temp_name in
            let next = (save_mnemonic w c k io draw profile name mnemonic root).1 in
            let shape : (generate_for_profile w c k io draw profile key_name p root).1 ≡ next =
              ground (arith, e) in
            let before : view c k root profile name ≡ none = view-none root name ready.absent in
            let others : Elsewhere name next =
              λ q n away. view-generate draw name mnemonic q n drawn.temp_name apart away in
            rw (shape)
              (elim (save_mnemonic-target laws draw name mnemonic drawn apart ready.absent) [
                | inl gone ↦ KeepsOrAdds.kept_all (quiet next name before gone others)
                | inr there ↦ added_one name mnemonic before there others
              ])
      ]

  -- the root directory without one key
  abbrev without : Bytes → Root
  without name = insert profile (delete (key_file name) (dir_of profile root)) root

  without-others : (name : Bytes) → Elsewhere name (without name)
  without-others name q n away = view-same (without name) q n (
      ground (
        arith,
        away,
        key_file-ne n name,
        eqb_iff profile q,
        eqb_iff (key_file name) (key_file n),
        lookup-insert profile q (delete (key_file name) (dir_of profile root)) root,
        lookup-delete (key_file name) (key_file n) (dir_of profile root),
      ))

  without-gone : (name : Bytes) → view c k (without name) profile name ≡ none
  without-gone name = view-none (without name) name (
      ground (
        arith,
        eqb_iff profile profile,
        eqb_iff (key_file name) (key_file name),
        lookup-insert profile profile (delete (key_file name) (dir_of profile root)) root,
        lookup-delete (key_file name) (key_file name) (dir_of profile root),
      ))

  -- DeleteForProfile, whatever fails in it, leaves the map from profiles and key names to mnemonics as
  -- it is or takes one key of that profile out of it.
  pub delete_for_profile-KeepsOrDrops :
      (key_name : Bytes) (p : Profile)
      → KeepsOrDrops profile
          (view c k root)
          (view c k ((delete_for_profile w c k io profile key_name p root).1))
  unfolding delete_for_profile
  delete_for_profile-KeepsOrDrops key_name p =
      elim (Result-cases (doomed w c k io profile key_name p root)) [
        | inr (x, x_eq) ↦ KeepsOrDrops.kept_all (λ q n. ground (arith, x_eq))
        | inl ((name, addr), e) ↦ elim (Bool-cases io.removes) [
          | inr kept ↦ KeepsOrDrops.kept_all (λ q n. ground (arith, e, kept))
          | inl gone ↦
              let shape : (delete_for_profile w c k io profile key_name p root).1 ≡ without name =
                ground (arith, e, gone) in
              rw (shape) (dropped_one name (without-gone name) (without-others name))
        ]
      ]

  doomed-ok :
      (key_name name addr : Bytes) (p : Profile)
      → doomed w c k io profile key_name p root ≡ ok (name, addr)
      → (resolve_key_name key_name ≡ ok name)
        × (agent_address w c k io profile name p root ≡ ok addr)
  unfolding doomed
  doomed-ok key_name name addr p h =
      elim (Result-cases (agent_address w c k io profile name p root)) [
        | inr (x, x_eq) ↦ absurd (grind (arith, h, x_eq))
        | inl (a, a_eq) ↦ (ground (arith, h), grind (arith, h, a_eq))
      ]

  -- Where DeleteForProfile answers an address, it is the address that the key had, and the key is gone.
  pub delete_for_profile-ok :
      (key_name addr : Bytes) (p : Profile) (next : Root)
      → delete_for_profile w c k io profile key_name p root ≡ (ok addr, next)
      → (name : Bytes) × (resolve_key_name key_name ≡ ok name)
        × (agent_address w c k io profile name p root ≡ ok addr)
        × (view c k next profile name ≡ none)
  unfolding delete_for_profile doomed
  delete_for_profile-ok key_name addr p next h =
      elim (Result-cases (doomed w c k io profile key_name p root)) [
        | inr (x, x_eq) ↦ absurd (ground (arith, h, x_eq))
        | inl ((name, found), e) ↦
            let same : found ≡ addr = ground (arith, h, e) in
            let shape : next ≡ without name = ground (arith, h, e) in
            let (resolved, known) = doomed-ok key_name name found p e in
            (name, resolved, rw (sym same) known, rw (shape) (without-gone name))
      ]
