-- ===== src/Mirror/Session.antt =====
-- MP2/src/csiebox_server.c: the configuration, the accounts, the loop over the requests of a connection
-- and the loop over the connections. `md5` is the digest of a text.
use ntu_sp17fall.Base.{
  ℕ, zero, suc, ℤ, pos, negsuc, Bool, true, false, not, ◌&&◌, List, [], ◌∷◌, ◌++◌, Option, none,
  some, Text, codes, text_eq, if◌then◌else◌, ◌==◌,
}
use ntu_sp17fall.Config.{Arg, no_arg, path_max, set_arg, read_config}
use ntu_sp17fall.Server.Account.{account_lines, find_passwd}
use ntu_sp17fall.Mirror.Protocol.{
  magic_req, magic_res, Header, Body, login, meta, file, hardlink, sync_end, rm, unknown, Request,
}
use ntu_sp17fall.Mirror.{
  Disk, Call, send, mkdir, close, get_client_meta, get_client_file, handle_remove, get_client_hlink,
}

-- `arg` of `csiebox_server`
pub record ServerArg : Type 0 where
  pub path : Arg
  pub account_path : Arg

unfoldable pub server_pairs : List (Text × Text) → ServerArg → ServerArg
unfolding set_arg
server_pairs [] a = a
server_pairs ((key, val) ∷ ps) a = server_pairs ps (
    if text_eq (codes "path") key
    then record a { path = set_arg path_max val a.path }
    else if text_eq (codes "account_path") key
    then record a { account_path = set_arg path_max val a.account_path }
    else a)

-- `none` stands for a file that is not named or cannot be opened. The result says whether the arguments are
-- accepted.
unfoldable pub parse_arg : Option Text → ServerArg → Option (Bool × ServerArg)
unfolding server_pairs
parse_arg none a = some (false, a)
parse_arg (some text) a = elim (read_config text) [
  | none ↦ none
  | some ps ↦ let b = server_pairs ps a in some (b.path.accepted && b.account_path.accepted, b)
]

-- `csiebox_client_info` with its account.
pub record ClientInfo : Type 0 where
  pub user : Text
  pub passwd_hash : Text
  pub conn_fd : ℕ

-- `account` is the text of the account file, `none` if it cannot be opened.
pub record Server : Type 0 where
  pub path : Text
  pub account : Option Text
  pub client : ℕ → Option ClientInfo

abbrev pub set_client : Server → ℕ → Option ClientInfo → Server
set_client s fd info = record s { client = λ i. if fd == i then info else s.client i }

unfoldable pub get_user_homedir : Server → ClientInfo → Text
get_user_homedir s info = s.path ++ b'/' ∷ info.user

unfoldable pub logout : Server → ℕ → Server × List Call
logout s conn_fd = (set_client s conn_fd none, close conn_fd ∷ [])

abbrev pub login_answer : ℕ → ℕ → Header
login_answer status client_id = record {
  magic = magic_res;
  op = 0;
  status = status;
  client_id = client_id;
}

-- `DIR_S_FLAG` is 0755.
unfoldable pub login_with : Server → ℕ → Text → Text → Option Text → Server × List Call
unfolding get_user_homedir
login_with s conn_fd user hash none = (s, send (login_answer 1 0) ∷ [])
login_with s conn_fd user hash (some stored) =
    let info : ClientInfo = record { user = user; passwd_hash = stored; conn_fd = conn_fd } in
    if text_eq hash stored
    then (
      set_client s conn_fd (some info),
      mkdir (get_user_homedir s info) 493 ∷ send (login_answer 0 conn_fd) ∷ [],
    )
    else (s, send (login_answer 1 0) ∷ [])

-- The entry of a connection that did not log in is the null pointer, whose account is read.
unfoldable pub in_home : Server → ℕ → (Text → Option (List Call)) → Option (Server × List Call)
in_home s conn_fd handler = elim (s.client conn_fd) [
  | none ↦ none
  | some info ↦ elim (handler (get_user_homedir s info)) [
    | none ↦ none
    | some calls ↦ some (s, calls)
  ]
]

module _ (md5 : Text → Text) where
  unfoldable pub get_account_info : Server → Text → Option Text
  get_account_info s user = elim s.account [
    | none ↦ none
    | some text ↦ elim (find_passwd user (account_lines [] text)) [
      | none ↦ none
      | some passwd ↦ some (md5 passwd)
    ]
  ]

  unfoldable pub handle_body : Server → ℕ → Disk → Text → Body → Option (Server × List Call)
  unfolding get_account_info login_with in_home
  handle_body s fd disk stream (login user hash) =
      some (login_with s fd user hash (get_account_info s user))
  handle_body s fd disk stream (meta pathlen stat hash) =
      in_home s fd (λ home. get_client_meta disk home pathlen stat hash stream)
  handle_body s fd disk stream (file datalen pathlen stat) =
      in_home s fd (λ home. get_client_file disk home datalen pathlen stat stream)
  handle_body s fd disk stream (hardlink srclen targetlen) =
      in_home s fd (λ home. get_client_hlink disk home srclen targetlen stream)
  handle_body s fd disk stream sync_end = some (s, [])
  handle_body s fd disk stream (rm pathlen) =
      in_home s fd (λ home. handle_remove disk home pathlen stream)
  handle_body s fd disk stream (unknown op) = some (s, [])

  -- One turn of the loop of `handle_request`.
  unfoldable pub handle_one : Server → ℕ → Disk → Request → Option (Server × List Call)
  unfolding handle_body
  handle_one s fd disk req =
      if not (req.magic == magic_req)
      then some (s, [])
      else if req.complete
      then handle_body s fd disk req.stream req.body
      else some (s, [])

  -- Every request comes with what the disk answers then. The connection ends behind the last one.
  unfoldable pub handle_request : Server → ℕ → List (Request × Disk) → Option (Server × List Call)
  unfolding handle_one logout
  handle_request s fd [] = some (logout s fd)
  handle_request s fd ((req, disk) ∷ reqs) = elim (handle_one s fd disk req) [
    | none ↦ none
    | some (s', calls) ↦ elim (handle_request s' fd reqs) [
      | none ↦ none
      | some (s'', calls') ↦ some (s'', calls ++ calls')
    ]
  ]

abbrev pub no_args : ServerArg
no_args = record { path = no_arg; account_path = no_arg }

-- `listen` is what `server_start` gives, `alloc` whether there is memory for the clients, and `read` what a
-- file holds, if it can be opened. The inner `none` stands for the pointer that stays null.
unfoldable pub init_server :
    Option Text → ℤ → Bool → (Text → Option Text) → Option (Option (ℤ × Server))
unfolding parse_arg
init_server config listen alloc read = elim (parse_arg config no_args) [
  | none ↦ none
  | some (accepted, args) ↦
      if accepted
      then elim listen [
        | negsuc n ↦ some none
        | pos n ↦
            if alloc
            then some (
                some (
                  pos n,
                  record {
                    path = args.path.text;
                    account = read args.account_path.text;
                    client = λ fd. none;
                  },
                ))
            else some none
      ]
      else some none
]

-- The connections whose entries are freed, of those below `size`.
unfoldable pub freed_clients : ℕ → Server → List ℕ
freed_clients zero s = []
freed_clients (suc fd) s =
    let rest = freed_clients fd s in elim (s.client fd) [ none ↦ rest | some info ↦ fd ∷ rest ]

-- The socket that is closed, and the entries that are freed; nothing for a null pointer. `size` is what
-- `getdtablesize` gives.
unfoldable pub destroy_server : ℕ → Option (ℤ × Server) → List ℤ × List ℕ
unfolding freed_clients
destroy_server size none = ([], [])
destroy_server size (some (listen, s)) = (listen ∷ [], freed_clients size s)

-- What `accept` gives: a connection with its requests, an error after which the loop goes on (ENFILE,
-- EAGAIN, EINTR), or another one.
pub data Accepted : Type 0 where
  conn : ℕ → List (Request × Disk) → Accepted
  again : Accepted
  broken : Accepted

-- The loop waits for ever where `accept` gives nothing more: `false`.
unfoldable pub server_run :
    (Text → Text) → Server → List Accepted → Option (Bool × (Server × List Call))
unfolding handle_request
server_run md5 s [] = some (false, (s, []))
server_run md5 s (again ∷ rest) = server_run md5 s rest
server_run md5 s (broken ∷ rest) = some (true, (s, []))
server_run md5 s (conn fd reqs ∷ rest) = elim (handle_request md5 s fd reqs) [
  | none ↦ none
  | some (s', calls) ↦ elim (server_run md5 s' rest) [
    | none ↦ none
    | some (ended, (s'', calls')) ↦ some (ended, (s'', calls ++ calls'))
  ]
]
