-- ===== src/Files/Tests.antt =====
-- A file written into a directory, and the theorems about the writes.
use gno_mcp.Prelude.{◌≡◌, ◌≢◌, refl, Bytes, eqb, codes, true, false, some, [], ◌∷◌, All}
use gno_mcp.Prelude.Map.{lookup}
use gno_mcp.Prelude.Result.{ok}
use gno_mcp.Files.{file, Dir, Calls, write_file_atomic, write_file_exclusive}
use gno_mcp.Files.Atomic.{Survives, write_file_atomic-IsWhole, write_file_exclusive-kept}

-- every call succeeds
abbrev pub all_succeed : Calls
all_succeed = record {
  mkdir = true;
  create = true;
  chmod = true;
  written = 0;
  write = true;
  sync = true;
  close = true;
  publish = true;
  sync_dir = true;
}

-- the disk is full after two bytes
abbrev disk_full : Calls
disk_full = record all_succeed { written = 2; write = false }

abbrev config : Bytes
config = codes "config"

abbrev pub temp : Bytes
temp = codes ".tmp-1"

abbrev one_file : Dir
one_file = (config, file (codes "old")) ∷ []

config-ne-temp : config ≢ temp
config-ne-temp = λ e. cc

write_file_atomic-IsWhole_example :
    All
      (Survives temp config (codes "new one") one_file config-ne-temp)
      ((write_file_atomic disk_full temp config (codes "new one") one_file).1)
write_file_atomic-IsWhole_example =
    write_file_atomic-IsWhole temp config (codes "new one") one_file config-ne-temp disk_full

lookup-config : lookup config one_file ≡ some (file (codes "old"))
unfolding lookup eqb
lookup-config = refl

write_file_exclusive-kept_test :
    ((write_file_exclusive all_succeed temp config (codes "new") one_file).0 ≢ ok tt)
    × All
        (λ s. lookup config s.shown ≡ some (file (codes "old")))
        ((write_file_exclusive all_succeed temp config (codes "new") one_file).1)
write_file_exclusive-kept_test =
    write_file_exclusive-kept temp config (codes "new") one_file config-ne-temp all_succeed
      (file (codes "old")) lookup-config
