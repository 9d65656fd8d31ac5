-- ===== src/Files/Atomic.antt =====
-- No directory that a crash leaves holds a partial file, and no file but the written one changes.
use gno_mcp.Prelude.{
  ◌≡◌, ◌≢◌, ◌⊎◌, inl, inr, refl, Bytes, eqb_iff, some, [], ◌∷◌, take, All, arith, Bool, true, false,
  List,
}
use gno_mcp.Prelude.Map.{lookup, insert, delete, lookup-insert, lookup-delete}
use gno_mcp.Prelude.Result.{ok}
use gno_mcp.Files.{
  Node, file, Dir, Calls, Moment, moment, Trace, Crash, settled, torn, is_flushed, last_of,
  write_temp, renamed, linked, write_file_atomic, write_file_exclusive,
}

-- What a directory shows of `path` and of every other name but the temporary file's: the old entry, and
-- for `path` perhaps the whole new content.
pub record IsWhole (tmp path content : Bytes) (d s : Dir) : Type 0 where
  pub target : (lookup path s ≡ lookup path d) ⊎ (lookup path s ≡ some (file content))
  pub others : (j : Bytes) → j ≢ tmp → j ≢ path → lookup j s ≡ lookup j d

module _ (tmp path content : Bytes) (d : Dir) (apart : path ≢ tmp) where
  IsWhole-same : IsWhole tmp path content d d
  IsWhole-same = record { target = inl refl; others = λ j n m. refl }

  IsWhole-insert :
      (n : Node) (s : Dir)
      → IsWhole tmp path content d s
      → IsWhole tmp path content d (insert tmp n s)
  IsWhole-insert n s w = record {
    target = ground (arith, w.target, lookup-insert tmp path n s, eqb_iff tmp path);
    others = λ j a b. ground (arith, w.others j a b, lookup-insert tmp j n s, eqb_iff tmp j);
  }

  IsWhole-delete : IsWhole tmp path content d (delete tmp d)
  IsWhole-delete = record {
    target = inl (ground (arith, lookup-delete tmp path d, eqb_iff tmp path));
    others = λ j a b. ground (arith, lookup-delete tmp j d, eqb_iff tmp j);
  }

  -- the new file stands beside what leaves the others alone
  IsWhole-publish :
      (s : Dir)
      → IsWhole tmp path content d s
      → IsWhole tmp path content d (insert path (file content) s)
  IsWhole-publish s w = record {
    target = inr (ground (arith, lookup-insert path path (file content) s, eqb_iff path path));
    others = λ j a b.
        ground (arith, lookup-insert path j (file content) s, eqb_iff path j, w.others j a b);
  }

  -- whatever a crash leaves of the moment is whole
  abbrev pub Survives : Moment → Type 0
  Survives s = (c : Dir) → Crash s c → IsWhole tmp path content d c

  Survives-flushed :
      (s : Dir) (names : List Bytes) (flushed : Bool)
      → flushed ≡ true
      → IsWhole tmp path content d s
      → Survives (moment s names flushed)
  Survives-flushed s names flushed e w _ settled = w
  Survives-flushed s names flushed e w _ (torn e' junk) = absurd (ground (arith, e, e'))

  Survives-temp :
      (n : Node) (flushed : Bool) → Survives (moment (insert tmp n d) (tmp ∷ []) flushed)
  Survives-temp n flushed _ settled = IsWhole-insert n d IsWhole-same
  Survives-temp n flushed _ (torn e junk) =
      IsWhole-insert (file junk) (insert tmp n d) (IsWhole-insert n d IsWhole-same)

  Survives-write_temp : (calls : Calls) → All Survives ((write_temp calls tmp content d).1)
  unfolding write_temp
  Survives-write_temp calls = ground (
    arith,
    Survives-flushed d [] true refl IsWhole-same,
    Survives-temp (file []) false,
    Survives-temp (file (take calls.written content)) false,
    Survives-temp (file content) false,
    Survives-temp (file content) true,
    Survives-flushed (delete tmp d) [] true refl IsWhole-delete,
  )

  -- writeTemp gives a file to publish only behind its Sync
  write_temp-flushed :
      (calls : Calls)
      → (write_temp calls tmp content d).0 ≡ ok tt
      → is_flushed ((write_temp calls tmp content d).1) ≡ true
  unfolding write_temp
  write_temp-flushed calls h = ground (arith, h)

  renamed-Survives :
      (calls : Calls) (t : Trace)
      → is_flushed t ≡ true
      → All Survives t
      → All Survives ((renamed calls tmp path content d t).1)
  renamed-Survives calls t e h = ground (
    arith,
    h,
    Survives-flushed (delete tmp d) [] (is_flushed t) e IsWhole-delete,
    Survives-flushed (insert path (file content) (delete tmp d)) (path ∷ []) (is_flushed t) e
        (IsWhole-publish (delete tmp d) IsWhole-delete),
  )

  linked-Survives :
      (calls : Calls) (t : Trace)
      → is_flushed t ≡ true
      → All Survives t
      → All Survives ((linked calls tmp path content d t).1)
  linked-Survives calls t e h = ground (
    arith,
    h,
    Survives-flushed (delete tmp d) [] (is_flushed t) e IsWhole-delete,
    Survives-flushed (insert path (file content) (delete tmp d)) (path ∷ []) (is_flushed t) e
        (IsWhole-publish (delete tmp d) IsWhole-delete),
    Survives-flushed (insert path (file content) (insert tmp (file content) d)) (path ∷ tmp ∷ [])
        (is_flushed t) e
        (IsWhole-publish (insert tmp (file content) d)
          (IsWhole-insert (file content) d IsWhole-same)),
  )

  -- Whatever a crash leaves of the directory while WriteFileAtomic runs, the path shows what stood there
  -- before or the whole new content, and no other file has changed: also where a crash can put any
  -- bytes in the place of data that no Sync has flushed. `tmp`, the name of the temporary file, is not
  -- the path.
  pub write_file_atomic-IsWhole :
      (calls : Calls) → All Survives ((write_file_atomic calls tmp path content d).1)
  unfolding write_file_atomic
  write_file_atomic-IsWhole calls =
      let w = write_temp calls tmp content d in
      let published : w.0 ≡ ok tt → All Survives ((renamed calls tmp path content d w.1).1) =
        λ e. renamed-Survives calls w.1 (write_temp-flushed calls e) (Survives-write_temp calls) in
      ground (arith, Survives-write_temp calls, published)

  pub write_file_exclusive-IsWhole :
      (calls : Calls) → All Survives ((write_file_exclusive calls tmp path content d).1)
  unfolding write_file_exclusive
  write_file_exclusive-IsWhole calls =
      let w = write_temp calls tmp content d in
      let published : w.0 ≡ ok tt → All Survives ((linked calls tmp path content d w.1).1) =
        λ e. linked-Survives calls w.1 (write_temp-flushed calls e) (Survives-write_temp calls) in
      ground (arith, Survives-write_temp calls, published)

  -- what the writer leaves, where no crash comes
  Survives-last_of : (t : Trace) → All Survives t → IsWhole tmp path content d (last_of d t)
  Survives-last_of [] h = IsWhole-same
  Survives-last_of (s ∷ t) (q, h) = q s.shown settled

  -- WriteFileExclusive never replaces a file: where an entry stands at the path, the write fails, and
  -- the entry stands there at every moment.
  pub write_file_exclusive-kept :
      (calls : Calls) (n : Node)
      → lookup path d ≡ some n
      → ((write_file_exclusive calls tmp path content d).0 ≢ ok tt)
        × All
            (λ s. lookup path s.shown ≡ some n)
            ((write_file_exclusive calls tmp path content d).1)
  unfolding write_file_exclusive write_temp
  write_file_exclusive-kept calls n h = ground (
    arith,
    h,
    lookup-insert tmp path (file []) d,
    lookup-insert tmp path (file content) d,
    lookup-insert tmp path (file (take calls.written content)) d,
    lookup-delete tmp path d,
    eqb_iff tmp path,
  )

  -- A write that succeeds has put the content at the path, and the temporary file is gone.
  pub write_file_exclusive-ok :
      (calls : Calls)
      → (write_file_exclusive calls tmp path content d).0 ≡ ok tt
      → last_of d ((write_file_exclusive calls tmp path content d).1)
        ≡ insert path (file content) (delete tmp d)
  unfolding write_file_exclusive write_temp
  write_file_exclusive-ok calls h = ground (arith, h)

  pub write_file_atomic-ok :
      (calls : Calls)
      → (write_file_atomic calls tmp path content d).0 ≡ ok tt
      → last_of d ((write_file_atomic calls tmp path content d).1)
        ≡ insert path (file content) (delete tmp d)
  unfolding write_file_atomic write_temp
  write_file_atomic-ok calls h = ground (arith, h)

pub write_file_exclusive-made :
    (calls : Calls) (tmp path content : Bytes) (d : Dir)
    → (write_file_exclusive calls tmp path content d).0 ≡ ok tt
    → calls.mkdir ≡ true
unfolding write_file_exclusive write_temp
write_file_exclusive-made calls tmp path content d h = ground (arith, h)

-- The directory that WriteFileExclusive leaves, whatever it answers.
pub write_file_exclusive-last :
    (calls : Calls) (tmp path content : Bytes) (d : Dir)
    → path ≢ tmp
    → IsWhole tmp path content d (last_of d ((write_file_exclusive calls tmp path content d).1))
write_file_exclusive-last calls tmp path content d apart =
    Survives-last_of tmp path content d apart ((write_file_exclusive calls tmp path content d).1)
      (write_file_exclusive-IsWhole tmp path content d apart calls)

-- The three directories that WriteFileExclusive can leave.
pub write_file_exclusive-cases :
    (calls : Calls) (tmp path content : Bytes) (d : Dir)
    → let left = last_of d ((write_file_exclusive calls tmp path content d).1) in
      (left ≡ d) ⊎ ((left ≡ delete tmp d) ⊎ (left ≡ insert path (file content) (delete tmp d)))
unfolding write_file_exclusive write_temp
write_file_exclusive-cases calls tmp path content d = ground arith

pub write_file_atomic-made :
    (calls : Calls) (tmp path content : Bytes) (d : Dir)
    → (write_file_atomic calls tmp path content d).0 ≡ ok tt
    → calls.mkdir ≡ true
unfolding write_file_atomic write_temp
write_file_atomic-made calls tmp path content d h = ground (arith, h)
