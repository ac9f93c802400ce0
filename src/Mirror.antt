-- ===== src/Mirror.antt =====
-- MP2/src/csiebox_server.c: what the server of the earlier file synchronisation does for a request.
-- A handler gets the request and what the disk answers, and gives the calls that it makes, the oldest
-- first. `none` is a fault: a write behind the end of an array, or a read through the null pointer.
pub mod Protocol
pub mod Session
pub mod Paths
pub mod Guard
pub mod Replay
use ntu_sp17fall.Base.{
  ℕ, Bool, List, [], ◌∷◌, ◌++◌, Option, none, some, Text, text_eq, if◌then◌else◌, leb, ltb, length,
  take, drop,
}
use ntu_sp17fall.Mirror.Protocol.{
  magic_res, Header, Stat, is_dir, is_reg, is_link, padded, c_string,
}

-- What the disk answers on a path: the digest of the file, `none` if `open` fails; what `lstat` leaves in
-- the struct; whether `open` makes the file.
pub record Disk : Type 0 where
  pub digest : Text → Option Text
  pub stat : Text → Stat
  pub creates : Text → Bool

-- `open_left` is the descriptor that `get_client_meta` opens and leaves open. `utimes` and `lutimes` have the
-- access time first. `link` and `symlink` have the new name behind.
pub data Call : Type 0 where
  send : Header → Call
  open_left : Text → Call
  mkdir chmod : Text → ℕ → Call
  utimes lutimes : Text → ℕ → ℕ → Call
  create : Text → ℕ → Call
  write : Text → Text → Call
  symlink link : Text → Text → Call
  rmdir unlink : Text → Call
  close : ℕ → Call

-- `snprintf` into 400 bytes, copied back.
unfoldable pub change_path : Text → Text → Text
change_path serverpath clientpath = take 399 (serverpath ++ b'/' ∷ drop 8 clientpath)

abbrev pub sym_update_time : Text → ℕ → ℕ → Call
sym_update_time filename mtime atime = lutimes filename atime mtime

abbrev pub update_time : Text → ℕ → ℕ → Call
update_time filename mtime atime = utimes filename atime mtime

abbrev pub meta_answer : ℕ → Header
meta_answer status = record { magic = magic_res; op = 1; status = status; client_id = 0 }

-- Behind the `open` of a regular file.
unfoldable pub check_hash : Option Text → Text → Stat → Text → List Call
check_hash none path stat hash = send (meta_answer 2) ∷ []
check_hash (some digest) path stat hash =
    open_left path
    ∷ (if text_eq hash digest
        then chmod path stat.mode
          ∷ update_time path stat.mtime stat.atime
          ∷ send (meta_answer 0)
          ∷ []
        else send (meta_answer 2) ∷ [])

unfoldable pub meta_calls : Disk → Text → Stat → Text → List Call
unfolding check_hash
meta_calls disk path stat hash =
    if is_link stat.mode
    then send (meta_answer 2) ∷ []
    else if is_dir stat.mode
    then mkdir path stat.mode
      ∷ chmod path stat.mode
      ∷ update_time path stat.mtime stat.atime
      ∷ send (meta_answer 0)
      ∷ []
    else if is_reg stat.mode
    then check_hash (disk.digest path) path stat hash
    else send (meta_answer 0) ∷ []

-- A path of 400 bytes or more does not fit its array with the null byte.
unfoldable pub get_client_meta : Disk → Text → ℕ → Stat → Text → Text → Option (List Call)
unfolding meta_calls change_path
get_client_meta disk serverpath pathlen stat hash stream =
    if leb 400 pathlen
    then none
    else some (meta_calls disk (change_path serverpath (take pathlen stream)) stat hash)

-- `buffer` holds what was received, and zeros behind it.
unfoldable pub file_calls : Disk → Text → Stat → Text → List Call
unfolding c_string
file_calls disk path stat buffer =
    if is_reg stat.mode
    then create path stat.mode
      ∷ ((if disk.creates path then write path buffer ∷ [] else [])
          ++ update_time path stat.mtime stat.atime ∷ [])
    else symlink (c_string buffer) path ∷ sym_update_time path stat.mtime stat.atime ∷ []

-- A file of more than 5000 bytes does not fit the buffer; the text of a symbolic link is shorter.
unfoldable pub get_client_file : Disk → Text → ℕ → ℕ → Stat → Text → Option (List Call)
unfolding file_calls change_path padded
get_client_file disk serverpath datalen pathlen stat stream =
    if ltb 5000 datalen
    then none
    else if leb 400 pathlen
    then none
    else some (
        file_calls disk (change_path serverpath (take pathlen (drop datalen stream))) stat
          (padded datalen stream))

unfoldable pub handle_remove : Disk → Text → ℕ → Text → Option (List Call)
unfolding change_path
handle_remove disk serverpath pathlen stream =
    if leb 400 pathlen
    then none
    else (let path = change_path serverpath (take pathlen stream) in
        some ((if is_dir (disk.stat path).mode then rmdir path else unlink path) ∷ []))

-- The times are those of the source on the server, before the link.
unfoldable pub link_calls : Disk → Text → Text → List Call
link_calls disk src target =
    let stat = disk.stat src in link src target ∷ update_time target stat.mtime stat.atime ∷ []

unfoldable pub get_client_hlink : Disk → Text → ℕ → ℕ → Text → Option (List Call)
unfolding link_calls change_path
get_client_hlink disk serverpath srclen targetlen stream =
    if leb 400 srclen
    then none
    else if leb 400 targetlen
    then none
    else if leb 400 (length serverpath)
    then none
    else some (
        link_calls disk (change_path serverpath (take srclen stream))
          (change_path serverpath (take targetlen (drop srclen stream))))
