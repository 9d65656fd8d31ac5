-- ===== src/Files.antt =====
-- internal/fsutil/fsutil.go: the writes of WriteFileAtomic and WriteFileExclusive, as the sequence of
-- the moments that the directory of the file passes through, since a crash can come at any of them. Data
-- that no Sync has flushed can be anything after a crash, also under the name that the file has been
-- renamed or linked to. Of the sync of the directory only the outcome is modelled: without it a crash can
-- bring back the entries of an earlier moment. The outcome of each call of the operating system is an
-- argument; os.CreateTemp's name is `tmp`.
pub mod Atomic
pub mod Tests
use gno_mcp.Prelude.{
  ℕ, ◌≡◌, Bytes, Bool, true, false, not, Option, none, some, List, [], ◌∷◌, take, if◌then◌else◌,
}
use gno_mcp.Prelude.Map.{Map, lookup, insert, delete}
use gno_mcp.Prelude.Result.{Result, ok, err}

-- an entry of a directory
pub data Node : Type 0 where
  file : Bytes → Node
  folder : Node

abbrev pub Dir : Type 0
Dir = Map Node

pub data FileError : Type 0 where
  -- os.ErrExist
  exists : FileError
  failed : FileError

-- Which of the calls succeed: MkdirAll, CreateTemp, Chmod, Write, Sync, Close, then Rename or Link,
-- and the sync of the directory. `written` is the number of bytes that a failing Write leaves.
pub record Calls : Type 0 where
  pub mkdir : Bool
  pub create : Bool
  pub chmod : Bool
  pub written : ℕ
  pub write : Bool
  pub sync : Bool
  pub close : Bool
  pub publish : Bool
  pub sync_dir : Bool

abbrev pub Done : Type 0
Done = Result FileError (Unit {0})

-- a call that succeeds or fails
abbrev pub called : Bool → Done
called true = ok tt
called false = err failed

-- What stands on the disk after a call: the directory as a reader sees it, the names in it of the file
-- that is being written, and whether a Sync has flushed that file's data.
pub record Moment : Type 0 where
  pub shown : Dir
  pub names : List Bytes
  pub flushed : Bool

abbrev pub moment : Dir → List Bytes → Bool → Moment
moment d names flushed = record { shown = d; names = names; flushed = flushed }

-- The moments after each call, the last one first.
abbrev pub Trace : Type 0
Trace = List Moment

-- the directory once the writer has returned
abbrev pub last_of : Dir → Trace → Dir
last_of d [] = d
last_of d (s ∷ t) = s.shown

-- has the file that is being written been flushed?
abbrev pub is_flushed : Trace → Bool
is_flushed [] = false
is_flushed (s ∷ t) = s.flushed

-- The file under each of the names holds other bytes.
abbrev pub torn_dir : List Bytes → Bytes → Dir → Dir
torn_dir [] junk d = d
torn_dir (n ∷ ns) junk d = insert n (file junk) (torn_dir ns junk d)

-- What a crash at a moment can leave: what a reader sees, or, where the data of the file has not been
-- flushed, any bytes in the place of its content.
pub data Crash (s : Moment) : Dir → Type 0 where
  settled : Crash s s.shown
  torn : s.flushed ≡ false → (junk : Bytes) → Crash s (torn_dir s.names junk s.shown)

module _ (calls : Calls) (tmp : Bytes) where
  -- writeTemp, behind CreateTemp
  unfoldable pub write_temp : Bytes → Dir → Done × Trace
  unfolding insert delete
  write_temp content d =
      let before = moment d [] true in
      let created = moment (insert tmp (file []) d) (tmp ∷ []) false in
      let partial = moment (insert tmp (file (take calls.written content)) d) (tmp ∷ []) false in
      let full = moment (insert tmp (file content) d) (tmp ∷ []) false in
      let synced = moment (insert tmp (file content) d) (tmp ∷ []) true in
      let gone = moment (delete tmp d) [] true in
      if not calls.mkdir
      then (err failed, before ∷ [])
      else if not calls.create
      then (err failed, before ∷ [])
      else if not calls.chmod
      then (err failed, gone ∷ created ∷ before ∷ [])
      else if not calls.write
      then (err failed, gone ∷ partial ∷ created ∷ before ∷ [])
      else if not calls.sync
      then (err failed, gone ∷ full ∷ partial ∷ created ∷ before ∷ [])
      else if not calls.close
      then (err failed, gone ∷ synced ∷ full ∷ partial ∷ created ∷ before ∷ [])
      else (ok tt, synced ∷ full ∷ partial ∷ created ∷ before ∷ [])

  -- os.Rename onto `path`, which a folder refuses
  abbrev pub renames : Option Node → Bool
  renames none = calls.publish
  renames (some (file old)) = calls.publish
  renames (some folder) = false

  -- os.Link onto `path`, which any entry refuses
  abbrev pub links : Option Node → Done
  links none = called calls.publish
  links (some n) = err exists

  -- WriteFileAtomic behind writeTemp: rename, then the sync of the directory, then the deferred remove
  abbrev pub renamed : Bytes → Bytes → Dir → Trace → Done × Trace
  renamed path content d t =
      if renames (lookup path d)
      then (
        called calls.sync_dir,
        moment (insert path (file content) (delete tmp d)) (path ∷ []) (is_flushed t) ∷ t,
      )
      else (err failed, moment (delete tmp d) [] (is_flushed t) ∷ t)

  -- WriteFileAtomic
  unfoldable pub write_file_atomic : Bytes → Bytes → Dir → Done × Trace
  unfolding write_temp lookup
  write_file_atomic path content d =
      let (r, t) = write_temp content d in
      elim r [ ok u ↦ renamed path content d t | err e ↦ (err e, t) ]

  -- WriteFileExclusive behind writeTemp: link, the sync of the directory, and the deferred remove
  abbrev pub linked : Bytes → Bytes → Dir → Trace → Done × Trace
  linked path content d t = elim (links (lookup path d)) [
    | ok u ↦ (
      called calls.sync_dir,
      moment (insert path (file content) (delete tmp d)) (path ∷ []) (is_flushed t)
          ∷ moment (insert path (file content) (insert tmp (file content) d)) (path ∷ tmp ∷ [])
              (is_flushed t)
          ∷ t,
    )
    | err e ↦ (err e, moment (delete tmp d) [] (is_flushed t) ∷ t)
  ]

  -- WriteFileExclusive
  unfoldable pub write_file_exclusive : Bytes → Bytes → Dir → Done × Trace
  unfolding write_temp lookup
  write_file_exclusive path content d =
      let (r, t) = write_temp content d in
      elim r [ ok u ↦ linked path content d t | err e ↦ (err e, t) ]

-- the profile directories below rootDir
abbrev pub Root : Type 0
Root = Map Dir

-- the directory of a profile, empty where it is not there
abbrev pub or_empty : Option Dir → Dir
or_empty none = []
or_empty (some d) = d

abbrev pub dir_of : Bytes → Root → Dir
dir_of profile root = or_empty (lookup profile root)

-- the root directory behind a write into a profile's directory; MkdirAll makes it, or nothing is
abbrev pub with_dir : Bool → Bytes → Dir → Root → Root
with_dir made profile d root = if made then insert profile d root else root
