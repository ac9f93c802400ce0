-- ===== src/Server.antt =====
-- MP5/src/csiebox_server.c: the handlers of the file synchronisation server.
-- A handler gets what the client sent and what the operating system answered, and gives the new server
-- with the calls that it makes, the oldest first. The file system is the operating system's: `lstat`,
-- `md5_file` and `open` answer through `Answers`. Digests and paths are texts.
pub mod Account
pub mod Receive
pub mod Guard
pub mod Run
use ntu_sp17fall.Base.{
  ℕ, suc, ◌/◌, ◌%◌, Bool, true, false, not, ◌&&◌, ◌||◌, List, [], ◌∷◌, ◌++◌, Option, none, some,
  Text, codes, text_eq, if◌then◌else◌, ◌==◌, map,
}
use ntu_sp17fall.Server.Receive.{receive}

-- `csiebox_protocol_header`
pub record Header : Type 0 where
  pub magic : ℕ
  pub op : ℕ
  pub status : ℕ
  pub client_id : ℕ
  pub datalen : ℕ

abbrev pub magic_req : ℕ
magic_req = 144

abbrev pub magic_res : ℕ
magic_res = 145

-- `csiebox_client_info` with its account.
pub record ClientInfo : Type 0 where
  pub user : Text
  pub passwd_hash : Text
  pub conn_fd : ℕ
  pub in_thread : Bool

-- `account` is the text of the account file, `none` if it cannot be opened.
pub record Server : Type 0 where
  pub client : ℕ → Option ClientInfo
  pub path : Text
  pub account : Option Text

pub record Stat : Type 0 where
  pub mode : ℕ
  pub atime : ℕ
  pub mtime : ℕ

-- What follows the header: `complete` says whether the body arrived whole.
pub record Request : Type 0 where
  pub header : Option Header
  pub complete : Bool
  pub user : Text
  pub passwd_hash : Text
  pub meta : Stat
  pub hash : Text
  pub file_path : Text

-- `stat` is the answer of `lstat`, `digest` of `md5_file`, `opened` whether `open` succeeded; `datalen` is
-- the length that the client announces behind MORE, and `stream` what the connection holds behind that.
pub record Answers : Type 0 where
  pub stat : Option Stat
  pub digest : Text
  pub datalen : ℕ
  pub stream : Text
  pub opened : Bool

pub data Call : Type 0 where
  send : ℕ → Header → Call
  close : ℕ → Call
  mkdir rmdir unlink create : Text → Call
  chmod : Text → ℕ → Call
  utime : Text → ℕ → ℕ → Call
  write : Text → Text → Call

-- `(mode & S_IFMT) == S_IFDIR`
abbrev pub is_dir : ℕ → Bool
is_dir mode = (mode / 4096) % 16 == 4

abbrev pub set_client : Server → ℕ → Option ClientInfo → Server
set_client s fd info = record s { client = λ i. if fd == i then info else s.client i }

abbrev pub response : ℕ → ℕ → ℕ → Header
response op status client_id = record {
  magic = magic_res;
  op = op;
  status = status;
  client_id = client_id;
  datalen = 0;
}

unfoldable pub logout : Server → ℕ → Server × List Call
logout s conn_fd = (set_client s conn_fd none, close conn_fd ∷ [])

unfoldable pub get_user_homedir : Server → ClientInfo → Text
get_user_homedir s info = s.path ++ b'/' ∷ info.user

unfoldable pub check_client_and_get_homedir : Server → ℕ → ℕ → Option Text
check_client_and_get_homedir s conn_fd client_id = elim (s.client conn_fd) [
  | none ↦ none
  | some info ↦ if conn_fd == client_id then some (get_user_homedir s info) else none
]

-- The calls on a file that is there, before the answer.
unfoldable pub touch : Text → Stat → Stat → List Call
touch path stat meta =
    (if stat.mode == meta.mode then [] else chmod path meta.mode ∷ [])
    ++ (if stat.atime == meta.atime && stat.mtime == meta.mtime
        then []
        else utime path meta.atime meta.mtime ∷ [])

-- The digest that is compared; that of a directory is all zeros.
unfoldable pub digest_of : Stat → Text → Text
digest_of stat digest =
    if is_dir stat.mode
    then 0 ∷ 0 ∷ 0 ∷ 0 ∷ 0 ∷ 0 ∷ 0 ∷ 0 ∷ 0 ∷ 0 ∷ 0 ∷ 0 ∷ 0 ∷ 0 ∷ 0 ∷ 0 ∷ []
    else digest

unfoldable pub need_data : Option Stat → Text → Text → Bool
need_data none digest hash = true
need_data (some stat) digest hash = not (text_eq (digest_of stat digest) hash)

-- What the loop writes; its fuel is enough.
unfoldable pub received : Answers → List Text
received a = elim (receive (suc a.datalen) 0 a.datalen a.stream) [
  | none ↦ []
  | some pieces ↦ pieces
]

-- The part behind the answer MORE. `change` says that the file was not there.
unfoldable pub receive_file : ℕ → Text → Bool → Stat → Answers → List Call
receive_file conn_fd path change meta a =
    (if is_dir meta.mode
      then mkdir path ∷ []
      else create path ∷ (if a.opened then map (write path) (received a) else []))
    ++ (if change then chmod path meta.mode ∷ utime path meta.atime meta.mtime ∷ [] else [])
    ++ send conn_fd (response 2 0 conn_fd) ∷ []

unfoldable pub sync_at : ℕ → Text → Stat → Text → Answers → List Call
sync_at conn_fd path meta hash a =
    let more = need_data a.stat a.digest hash in
    elim a.stat [ none ↦ [] | some stat ↦ touch path stat meta ]
    ++ send conn_fd (response 1 (if more then 2 else 0) conn_fd)
      ∷ (if more
          then receive_file conn_fd path (elim a.stat [ none ↦ true | some _ ↦ false ]) meta a
          else [])

unfoldable pub sync_file : Server → ℕ → Header → Request → Answers → Server × List Call
sync_file s conn_fd header req a = elim (check_client_and_get_homedir s conn_fd header.client_id) [
  | none ↦ (s, [])
  | some homedir ↦ (s, sync_at conn_fd (homedir ++ req.file_path) req.meta req.hash a)
]

-- Where `lstat` fails the mode is 0.
unfoldable pub rm_file : Server → ℕ → Header → Request → Answers → Server × List Call
rm_file s conn_fd header req a = elim (check_client_and_get_homedir s conn_fd header.client_id) [
  | none ↦ (s, [])
  | some homedir ↦
      let path = homedir ++ req.file_path in
      let mode : ℕ = elim a.stat [ none ↦ 0 | some stat ↦ stat.mode ] in
      (
        s,
        (if is_dir mode then rmdir path else unlink path)
            ∷ send conn_fd (response 5 0 conn_fd)
            ∷ [],
      )
]

-- The login of an account whose digest fits.
unfoldable pub welcome : Server → ℕ → ClientInfo → Server × List Call
welcome s conn_fd info = (
  set_client s conn_fd (some info),
  mkdir (get_user_homedir s info) ∷ send conn_fd (response 0 0 conn_fd) ∷ [],
)

-- A response that fails keeps the client id 0. `found` is the digest of the account, if there is one.
unfoldable pub login_with : Server → ℕ → Text → Text → Option Text → Server × List Call
login_with s conn_fd user hash none = (s, send conn_fd (response 0 1 0) ∷ [])
login_with s conn_fd user hash (some stored) =
    if text_eq hash stored
    then welcome s conn_fd
        (record { user = user; passwd_hash = stored; conn_fd = conn_fd; in_thread = false })
    else (s, send conn_fd (response 0 1 0) ∷ [])
