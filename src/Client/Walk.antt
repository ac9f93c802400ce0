-- ===== src/Client/Walk.antt =====
-- The first synchronisation of MP5/src/csiebox_client.c: `sync_all`, with `check_walked_dir` and
-- `add_inotify`, and `prepare_and_sync`.
use ntu_sp17fall.Base.{
  Bool, true, false, ◌||◌, Option, none, some, Text, codes, text_eq, if◌then◌else◌,
}
use ntu_sp17fall.Hash.{put_into_hash}
use ntu_sp17fall.Client.{
  System, sync_end, M, ◌>>=◌, ◌>>◌, pure, get_client, put_client, send, sync_file,
}
use ntu_sp17fall.Client.Paths.{full_path}

-- What `readdir` gives in a directory, in its order. A directory has what `readdir` gives in it.
pub data Entries : Type 0 where
  end : Entries
  file : Text → Entries → Entries
  dir : Text → Entries → Entries → Entries

-- A fault of the table is one of the run.
abbrev pub from_table {ℓ} : {A : Type ℓ} → Option A → M A
from_table none r = none
from_table (some a) r = some (a, r)

-- The directory, unless `getcwd` fails or its inode is in the table.
unfoldable pub check_walked_dir : System → Text → M (Option Text)
check_walked_dir sys cwd = do
  c ← get_client
  if sys.getcwd cwd
      then (do
        done ← from_table (put_into_hash sys.alloc c.dir_hash cwd (sys.inode cwd))
        put_client (record c { dir_hash = done.1 })
        pure (if done.0 then some cwd else none))
      else pure none

-- The copy of the path has no terminator; the byte behind it is taken for one. The result of the table is
-- not looked at.
unfoldable pub add_inotify : System → Text → M (Unit {0})
add_inotify sys path = do
  c ← get_client
  done ← from_table (put_into_hash sys.alloc c.inotify_hash path (sys.watch path))
  put_client (record c { inotify_hash = done.1 })

-- `sync_all` in a directory, over the loop on its entries.
unfoldable pub visit : System → Text → M (Unit {0}) → M (Unit {0})
unfolding check_walked_dir add_inotify
visit sys cwd loop = do
  walked ← check_walked_dir sys cwd
  elim walked [ none ↦ pure tt | some here ↦ do add_inotify sys here; loop ]

unfoldable pub is_dots : Text → Bool
is_dots name = text_eq name (codes ".") || text_eq name (codes "..")

unfoldable pub walk : System → Text → Entries → M (Unit {0})
unfolding visit is_dots
walk sys cwd end r = some (tt, r)
walk sys cwd (file name rest) r =
    let next : M (Unit {0}) = walk sys cwd rest in
    if is_dots name then next r else (sync_file sys cwd name >> next) r
walk sys cwd (dir name sub rest) r =
    let next : M (Unit {0}) = walk sys cwd rest in
    let below = full_path true cwd name in
    let inner : M (Unit {0}) = walk sys below sub in
    let entered : M (Unit {0}) = if sys.chdir below then visit sys below inner else pure tt in
    if is_dots name then next r else (sync_file sys cwd name >> entered >> next) r

unfoldable pub sync_all : System → Text → Entries → M (Unit {0})
unfolding walk
sync_all sys cwd entries = visit sys cwd (walk sys cwd entries)

-- `cwd` is where the program was started, and `path` the directory to synchronise with what is in it.
unfoldable pub prepare_and_sync : System → Text → Text → Entries → M Bool
unfolding sync_all
prepare_and_sync sys cwd path entries =
    if sys.getcwd cwd
    then (if sys.chdir path
        then (do sync_all sys path entries; c ← get_client; send (sync_end c.client_id); pure true)
        else pure false)
    else pure false
