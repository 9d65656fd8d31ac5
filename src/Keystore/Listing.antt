-- ===== src/Keystore/Listing.antt =====
-- internal/keystore/keystore.go: ListKeys.
use gno_mcp.Prelude.{
  less, ◌-◌, ◌≡◌, refl, Bytes, codes, is_empty, Bool, true, false, not, List, [], ◌∷◌, length, take,
  if◌then◌else◌, In, here, there, arith, length-append, Bool-cases, inl, inr, some, eqb, eqb_iff,
  sym, subst, ap,
}
use gno_mcp.Prelude.Map.{lookup}
use gno_mcp.Prelude.Result.{Result, ok, err, guard, ◌>>=◌, ◌>>◌}
use gno_mcp.Secret.{Cipher}
use gno_mcp.Secret.RoundTrip.{take-append}
use gno_mcp.Files.{file, Dir}
use gno_mcp.Profiles.Formats.{valid_profile_name}
use gno_mcp.Profiles.Profile.{Profile, is_local, is_read_only}
use gno_mcp.Keystore.{
  Wallet, KeyError, read_only, no_key_dir, path_error, default_key_name, key_file, key_file_ext,
  Keystore, Io, is_key, require_valid_profile_name,
}
use gno_mcp.Keystore.Operations.{agent_address}
use gno_mcp.Files.{Root, dir_of}
use gno_mcp.Prelude.{has_suffix, has_suffix-append}

pub record KeyInfo : Type 0 where
  pub name : Bytes
  pub address : Bytes
  pub reason : Bytes

-- unreadableReason
unfoldable pub unreadable_reason : KeyError → Bytes
unreadable_reason e = elim e [
  | path_error ↦ codes "unreadable (I/O or permission error)"
  | other ↦ codes "could not decrypt (passphrase mismatch or corrupt file)"
]

-- slices.SortFunc by cmp.Compare of the names, which are all different
unfoldable pub insert_key : KeyInfo → List KeyInfo → List KeyInfo
unfolding less
insert_key a [] = a ∷ []
insert_key a (b ∷ bs) =
    let rest = insert_key a bs in if less b.name a.name then b ∷ rest else a ∷ b ∷ bs

unfoldable pub sort_keys : List KeyInfo → List KeyInfo
unfolding insert_key
sort_keys [] = []
sort_keys (a ∷ rest) = insert_key a (sort_keys rest)

In-insert_head : (a : KeyInfo) (bs : List KeyInfo) → In a (insert_key a bs)
unfolding insert_key
In-insert_head a [] = here refl
In-insert_head a (x ∷ bs) = elim (Bool-cases (less x.name a.name)) [
  | inl e ↦ rw (e) (there (In-insert_head a bs))
  | inr e ↦ rw (e) (here refl)
]

In-insert_tail : (a b : KeyInfo) (bs : List KeyInfo) → In a bs → In a (insert_key b bs)
unfolding insert_key
In-insert_tail a b [] h = there h
In-insert_tail a b (x ∷ bs) (here same) = elim (Bool-cases (less x.name b.name)) [
  | inl e ↦ rw (e) (here same)
  | inr e ↦ rw (e) (there (here same))
]
In-insert_tail a b (x ∷ bs) (there h) = elim (Bool-cases (less x.name b.name)) [
  | inl e ↦ rw (e) (there (In-insert_tail a b bs h))
  | inr e ↦ rw (e) (there (there h))
]

unreadable_reason-given : (e : KeyError) → is_empty (unreadable_reason e) ≡ false
unfolding unreadable_reason
unreadable_reason-given e = ground arith

In-sort_keys : (a : KeyInfo) (bs : List KeyInfo) → In a bs → In a (sort_keys bs)
unfolding sort_keys
In-sort_keys a [] h = h
In-sort_keys a (b ∷ bs) (here e) =
    subst (λ x. In a (insert_key x (sort_keys bs))) e (In-insert_head a (sort_keys bs))
In-sort_keys a (b ∷ bs) (there h) = In-insert_tail a b (sort_keys bs) (In-sort_keys a bs h)

In-if :
    (b : Bool) {a : KeyInfo} (x : KeyInfo) {xs : List KeyInfo}
    → In a xs
    → In a (if b then x ∷ xs else xs)
In-if true x h = there h
In-if false x h = h

module _ (w : Wallet) (c : Cipher) (k : Keystore) (io : Io) (profile : Bytes) (p : Profile)
    (root : Root) where
  abbrev info_of : Bytes → Result KeyError Bytes → KeyInfo
  info_of name (ok addr) = record { name = name; address = addr; reason = [] }
  info_of name (err e) = record { name = name; address = []; reason = unreadable_reason e }

  -- one key of ListKeys
  unfoldable pub listed_key : Bytes → KeyInfo
  unfolding agent_address unreadable_reason
  listed_key name = info_of name (agent_address w c k io profile name p root)

  -- strings.TrimSuffix of a name with the suffix
  abbrev pub trim_key : Bytes → Bytes
  trim_key name = take (length name - length key_file_ext) name

  -- the loop of ListKeys
  unfoldable pub listed_keys : Dir → List KeyInfo
  unfolding listed_key has_suffix
  listed_keys [] = []
  listed_keys ((name, n) ∷ d) =
      let rest = listed_keys d in if is_key name n then listed_key (trim_key name) ∷ rest else rest

  -- ListKeys
  unfoldable pub list_keys : Result KeyError (List KeyInfo)
  unfolding listed_keys sort_keys is_local is_read_only agent_address lookup
  list_keys =
      require_valid_profile_name profile
      >> guard (not (is_read_only p)) read_only
      >> (if is_local p
          then (agent_address w c k io profile default_key_name p root >>= λ addr.
              ok (record { name = default_key_name; address = addr; reason = [] } ∷ []))
          else guard (not (is_empty k.root_dir)) no_key_dir
            >> guard io.reads_dir path_error
            >> ok (sort_keys (listed_keys (dir_of profile root))))

  -- What the listing has to say of a key: its address, or that there is none, and why.
  pub data Tells (name : Bytes) (info : KeyInfo) : Type 0 where
    shown :
        info.name ≡ name
        → agent_address w c k io profile name p root ≡ ok info.address
        → info.reason ≡ []
        → Tells name info
    flagged :
        (e : KeyError)
        → info.name ≡ name
        → agent_address w c k io profile name p root ≡ err e
        → info.address ≡ []
        → is_empty info.reason ≡ false
        → Tells name info

  listed_key-Tells : (name : Bytes) → Tells name (listed_key name)
  unfolding listed_key
  listed_key-Tells name = info_of-Tells (agent_address w c k io profile name p root) refl
    where
      info_of-Tells :
          (r : Result KeyError Bytes)
          → agent_address w c k io profile name p root ≡ r
          → Tells name (info_of name r)
      info_of-Tells (ok addr) h = shown refl h refl
      info_of-Tells (err e) h = flagged e refl h refl (unreadable_reason-given e)

  trim-key_file : (name : Bytes) → trim_key (key_file name) ≡ name
  trim-key_file name =
      take-append name key_file_ext _ (omega (arith, length-append name key_file_ext))

  In-listed_keys :
      (d : Dir) (name content : Bytes)
      → lookup (key_file name) d ≡ some (file content)
      → In (listed_key name) (listed_keys d)
  unfolding listed_keys lookup
  In-listed_keys [] name content h = absurd (ground arith)
  In-listed_keys ((j, n) ∷ d) name content h = elim (Bool-cases (eqb j (key_file name))) [
    | inl e ↦
        let at : j ≡ key_file name = ground (arith, e, eqb_iff j (key_file name)) in
        let stands : n ≡ file content = ground (arith, e, h) in
        rw (at, stands, has_suffix-append name key_file_ext)
          (here (ap listed_key (sym (trim-key_file name))))
    | inr e ↦ In-if (is_key j n) _ (In-listed_keys d name content (ground (arith, h, e)))
  ]

  -- ListKeys hides no key: for a writable chain that is not the local one, where the directory can be
  -- read, the listing succeeds, and every key file stands in it under its name: with the address that
  -- AgentAddress gives for it and no reason, or, where AgentAddress fails, with no address and a reason
  -- that is not empty. So one bad file does not blind the listing.
  pub list_keys-Tells :
      (name content : Bytes)
      → valid_profile_name profile ≡ true
      → is_read_only p ≡ false
      → is_local p ≡ false
      → is_empty k.root_dir ≡ false
      → io.reads_dir ≡ true
      → lookup (key_file name) (dir_of profile root) ≡ some (file content)
      → (infos : List KeyInfo) × (list_keys ≡ ok infos)
        × ((info : KeyInfo) × Tells name info × In info infos)
  unfolding list_keys
  list_keys-Tells name content valid writable remote rooted readable stands = (
    sort_keys (listed_keys (dir_of profile root)),
    ground (arith, valid, writable, remote, rooted, readable),
    (
      listed_key name,
      listed_key-Tells name,
      In-sort_keys _ _ (In-listed_keys (dir_of profile root) name content stands),
    ),
  )
