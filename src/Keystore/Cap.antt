-- ===== src/Keystore/Cap.antt =====
-- The cap on the keys of a profile, over any sequence of generations and deletions.
use gno_mcp.Prelude.{ℕ, suc, ◌≤◌, ◌≡◌, inl, inr, Bytes, List, [], ◌∷◌, arith, Bool-cases, subst}
use gno_mcp.Prelude.Int.{pos}
use gno_mcp.Prelude.Map.{insert, delete, lookup-insert}
use gno_mcp.Prelude.Result.{Result-cases}
use gno_mcp.Secret.{Cipher, encrypt}
use gno_mcp.Files.{Node, file, Dir, last_of, write_file_exclusive}
use gno_mcp.Files.Atomic.{write_file_exclusive-cases}
use gno_mcp.Profiles.Profile.{Profile}
use gno_mcp.Keystore.{Wallet, Keystore, Io, Draw, key_file, key_count}
use gno_mcp.Keystore.Operations.{
  save_mnemonic, prepare, generate_for_profile, doomed, delete_for_profile,
}
use gno_mcp.Keystore.Keys.{prepare-Prepared}
use gno_mcp.Files.{Root, dir_of}

key_count-insert :
    (name : Bytes) (n : Node) (d : Dir) → key_count (insert name n d) ≤ suc (key_count d)
unfolding key_count insert
key_count-insert name n [] = ground arith
key_count-insert name n ((j, m) ∷ d) = ground (arith, key_count-insert name n d)

key_count-delete : (name : Bytes) (d : Dir) → key_count (delete name d) ≤ key_count d
unfolding key_count delete
key_count-delete name [] = omega arith
key_count-delete name ((j, m) ∷ d) = ground (arith, key_count-delete name d)

-- The number of keys of every profile is at most `m`.
unfoldable pub IsCapped : ℕ → Root → Type 0
IsCapped m root = (q : Bytes) → key_count (dir_of q root) ≤ m

-- a directory within the cap, put in its place
insert-IsCapped :
    (m : ℕ) (profile : Bytes) (d : Dir) (root : Root)
    → IsCapped m root
    → key_count d ≤ m
    → IsCapped m (insert profile d root)
unfolding IsCapped
insert-IsCapped m profile d root h le q = ground (arith, lookup-insert profile q d root, h q, le)

at_most : (m : ℕ) (q : Bytes) (root : Root) → IsCapped m root → key_count (dir_of q root) ≤ m
unfolding IsCapped
at_most m q root h = h q

-- one call of the keystore, with what it draws and what fails in it
pub data KeystoreCall : Type 0 where
  generates : Draw → Io → Bytes → Bytes → Profile → KeystoreCall
  deletes : Io → Bytes → Bytes → Profile → KeystoreCall

module _ (w : Wallet) (c : Cipher) (k : Keystore) where
  -- the root directory after a call
  unfoldable pub handle : KeystoreCall → Root → Root
  unfolding generate_for_profile delete_for_profile
  handle (generates draw io profile key_name p) root =
      (generate_for_profile w c k io draw profile key_name p root).1
  handle (deletes io profile key_name p) root =
      (delete_for_profile w c k io profile key_name p root).1

  -- the calls in the order in which they take the mutex
  unfoldable pub handle_all : List KeystoreCall → Root → Root
  unfolding handle
  handle_all [] root = root
  handle_all (e ∷ es) root = handle_all es (handle e root)

  save_mnemonic-IsCapped :
      (m : ℕ) (io : Io) (draw : Draw) (profile name mnemonic : Bytes) (root : Root)
      → IsCapped m root
      → suc (key_count (dir_of profile root)) ≤ m
      → IsCapped m ((save_mnemonic w c k io draw profile name mnemonic root).1)
  unfolding save_mnemonic
  save_mnemonic-IsCapped m io draw profile name mnemonic root h room =
      elim (Result-cases (encrypt c draw.salt draw.nonce mnemonic k.passphrase)) [
        | inr (x, x_eq) ↦ subst (IsCapped m) (ground (arith, x_eq)) h
        | inl (enc, enc_eq) ↦
            let d = dir_of profile root in
            let left =
              last_of d ((write_file_exclusive draw.calls draw.tmp (key_file name) enc d).1) in
            let le : key_count left ≤ m = ground (
              arith,
              room,
              write_file_exclusive-cases draw.calls draw.tmp (key_file name) enc d,
              key_count-delete draw.tmp d,
              key_count-insert (key_file name) (file enc) (delete draw.tmp d),
            ) in
            elim (Bool-cases draw.calls.mkdir) [
              | inr unmade ↦ subst (IsCapped m) (ground (arith, enc_eq, unmade)) h
              | inl made ↦
                  subst (IsCapped m) (ground (arith, enc_eq, made))
                    (insert-IsCapped m profile left root h le)
            ]
      ]

  generate-IsCapped :
      (m : ℕ) (draw : Draw) (io : Io) (profile key_name : Bytes) (p : Profile) (root : Root)
      → k.max_keys ≡ pos (suc m)
      → IsCapped (suc m) root
      → IsCapped (suc m) (handle (generates draw io profile key_name p) root)
  unfolding handle generate_for_profile
  generate-IsCapped m draw io profile key_name p root bound h =
      elim (Result-cases (prepare w c k io draw profile key_name p root)) [
        | inr (x, x_eq) ↦ subst (IsCapped (suc m)) (ground (arith, x_eq)) h
        | inl ((name, mnemonic, addr), e) ↦
            let ready =
              prepare-Prepared w c k io draw profile key_name p root name mnemonic addr e in
            let room : suc (key_count (dir_of profile root)) ≤ suc m =
              ground (arith, ready.room, bound) in
            subst (IsCapped (suc m)) (ground (arith, e))
              (save_mnemonic-IsCapped (suc m) io draw profile name mnemonic root h room)
      ]

  delete-IsCapped :
      (m : ℕ) (io : Io) (profile key_name : Bytes) (p : Profile) (root : Root)
      → IsCapped m root
      → IsCapped m (handle (deletes io profile key_name p) root)
  unfolding handle delete_for_profile
  delete-IsCapped m io profile key_name p root h =
      elim (Result-cases (doomed w c k io profile key_name p root)) [
        | inr (x, x_eq) ↦ subst (IsCapped m) (ground (arith, x_eq)) h
        | inl ((name, addr), e) ↦
            let d = dir_of profile root in
            elim (Bool-cases io.removes) [
              | inr kept ↦ subst (IsCapped m) (ground (arith, e, kept)) h
              | inl gone ↦ subst (IsCapped m) (ground (arith, e, gone)) (
                  insert-IsCapped m profile (delete (key_file name) d) root h
                    (omega (arith, key_count-delete (key_file name) d, at_most m profile root h)))
            ]
      ]

  -- Over any sequence of calls of GenerateForProfile and DeleteForProfile, whatever they draw and
  -- whatever fails in them, no profile ever holds more keys than the cap, where the cap is positive and
  -- was kept at the start.
  pub handle_all-IsCapped :
      (m : ℕ) (es : List KeystoreCall) (root : Root)
      → k.max_keys ≡ pos (suc m)
      → IsCapped (suc m) root
      → IsCapped (suc m) (handle_all es root)
  unfolding handle_all
  handle_all-IsCapped m [] root bound h = h
  handle_all-IsCapped m (generates draw io profile key_name p ∷ es) root bound h =
      handle_all-IsCapped m es _ bound (generate-IsCapped m draw io profile key_name p root bound h)
  handle_all-IsCapped m (deletes io profile key_name p ∷ es) root bound h =
      handle_all-IsCapped m es _ bound (delete-IsCapped (suc m) io profile key_name p root h)
