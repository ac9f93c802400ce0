-- ===== src/Client/Session.antt =====
-- `csiebox_client_init`, `login`, `csiebox_client_run` and `csiebox_client_destroy` of
-- MP5/src/csiebox_client.c.
use ntu_sp17fall.Base.{
  ℕ, ◌≡◌, ◌≢◌, refl, ◌⊎◌, inl, inr, Bool, true, false, ◌&&◌, List, [], ◌∷◌, ◌++◌, Option, none,
  some, ℤ, pos, negsuc, Text, if◌then◌else◌, ◌==◌, leb, length,
}
use ntu_sp17fall.Hash.{Hash, Freed, empty_hash, init_hash, destroy_hash}
use ntu_sp17fall.Config.{ClientArg, no_arg, parse_client, user_len_max}
use ntu_sp17fall.Server.{Header, Server, magic_res}
use ntu_sp17fall.Server.Account.{get_account_info}
use ntu_sp17fall.Server.Account
use ntu_sp17fall.Server.Guard.{login_lem}
use ntu_sp17fall.Client.{System, Client, Sent, login, Run, M, ◌>>=◌, pure}
use ntu_sp17fall.Client.Walk.{Entries, prepare_and_sync}
use ntu_sp17fall.Client.Exchange.{replies}

abbrev pub empty_args : ClientArg
empty_args = record {
  name = no_arg;
  server = no_arg;
  user = no_arg;
  passwd = no_arg;
  path = no_arg;
}

abbrev pub is_negative : ℤ → Bool
is_negative (pos n) = false
is_negative (negsuc n) = true

-- Behind the two connections: where a table cannot be made, `tmp` is freed and then used, a fault.
unfoldable pub init_tables : Bool → Bool → Text → Option (Option Client)
init_tables alloc_inotify alloc_dir root =
    let inotify : Bool × Hash Text = init_hash alloc_inotify empty_hash (pos 100) in
    let dirs : Bool × Hash Text = init_hash alloc_dir empty_hash (pos 100) in
    if inotify.0 && dirs.0
    then some (
        some (record {
          root = root;
          client_id = 0;
          dir_hash = dirs.1;
          inotify_hash = inotify.1;
          ignore_inotify_event = false;
        }))
    else none

-- `config` is the text of the file, if there is one argument and it can be opened; `conn` is what
-- `client_start` gives and `inotify` what `inotify_init` gives; `realpath` is the operating system's.
unfoldable pub init_client :
    Option Text → ℤ → ℤ → Bool → Bool → (Text → Text) → Option (Option (Client × ClientArg))
unfolding init_tables
init_client config conn inotify alloc_inotify alloc_dir realpath =
    elim (parse_client config empty_args) [
      | none ↦ none
      | some (accepted, args) ↦
          if accepted
          then (if is_negative conn
              then some none
              else if is_negative inotify
              then some none
              else elim (init_tables alloc_inotify alloc_dir (realpath args.path.text)) [
                | none ↦ none
                | some none ↦ some none
                | some (some c) ↦ some (some (c, args))
              ])
          else some none
    ]

-- What `login` makes of the header, which is all zeros where `recv_message` fails.
unfoldable pub accepts : Header → Bool
accepts h = h.magic == magic_res && h.op == 0 && h.status == 0

abbrev pub login_result : List Header → Run → Option (Bool × Run)
login_result [] r = some (false, r)
login_result (h ∷ hs) r =
    if accepts h
    then some
        (true, record r { client = record r.client { client_id = h.client_id }; answers = hs })
    else some (false, record r { answers = hs })

-- `works` says whether the request could be sent. The array of the user in the request has 30 bytes, and
-- one that leaves no room for the null byte behind it is a fault, `none`.
unfoldable pub client_login : System → Text → Text → Bool → M Bool
unfolding accepts
client_login sys user passwd works r =
    if leb user_len_max (length user)
    then none
    else if works
    then login_result r.answers (record r { sent = r.sent ++ login user (sys.md5 passwd) ∷ [] })
    else some (false, r)

-- `csiebox_client_run` up to `monitor_home`, which never ends; `false` is the result 0.
unfoldable pub client_run : System → Text → Text → Text → Text → Bool → Entries → M Bool
unfolding client_login
client_run sys user passwd cwd path works entries = do
  ok ← client_login sys user passwd works
  if ok then prepare_and_sync sys cwd path entries else pure false

-- What `csiebox_client_destroy` frees in the tables.
unfoldable pub destroy_client : Client → List (Freed Text)
destroy_client c = (destroy_hash c.inotify_hash).0 ++ (destroy_hash c.dir_hash).0

-- With the accounts of a server, a client that logs in on the connection `fd` with a user name of less
-- than 30 bytes and the password `passwd` is accepted exactly if the account file gives its user a password with the same digest; then its
-- number is that of the connection. Every answer is read, and only the request is sent.
pub client_login_lem :
    (sys : System) (s : Server) (fd : ℕ) (user passwd : Text) (c : Client)
    → leb user_len_max (length user) ≡ false
    → let calls = (Account.login sys.md5 s fd user (sys.md5 passwd)).1 in
      let request : List Sent = login user (sys.md5 passwd) ∷ [] in
      let r : Run = record { client = c; sent = []; answers = replies calls } in
      ((get_account_info sys.md5 s user ≡ some (sys.md5 passwd))
        × (client_login sys user passwd true r
            ≡ some (
              true,
              record { client = record c { client_id = fd }; sent = request; answers = [] },
            )))
      ⊎ ((get_account_info sys.md5 s user ≢ some (sys.md5 passwd))
          × (client_login sys user passwd true r
              ≡ some (false, record { client = c; sent = request; answers = [] })))
unfolding client_login replies
client_login_lem sys s fd user passwd c named =
    elim (login_lem sys.md5 s fd user (sys.md5 passwd)) [
      | inl (known, e) ↦ inl (known, rw (named, e) refl)
      | inr (unknown, e) ↦ inr (unknown, rw (named, e) refl)
    ]
