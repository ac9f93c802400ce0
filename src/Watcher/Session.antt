-- ===== src/Watcher/Session.antt =====
-- `parse_arg`, `csiebox_client_init`, `login`, `csiebox_client_run` and `csiebox_client_destroy` of
-- MP2/src/csiebox_client.c.
use ntu_sp17fall.Base.{
  Bool, true, false, ◌&&◌, List, [], ◌∷◌, Option, none, some, ℤ, pos, negsuc, Text, codes, text_eq,
  if◌then◌else◌, ◌==◌, leb, length,
}
use ntu_sp17fall.Config.{no_arg, set_arg, path_max, user_len_max, read_config, ClientArg}
use ntu_sp17fall.Mirror.Protocol.{magic_res, Header, login, padded}
use ntu_sp17fall.Watcher.{System, Client, request, send}
use ntu_sp17fall.Watcher.Walk.{Entries, traverse}
use ntu_sp17fall.Watcher.Events.{Event, inotify}

-- `name` and `server` have 30 bytes.
unfoldable pub client_pairs : List (Text × Text) → ClientArg → ClientArg
unfolding set_arg
client_pairs [] a = a
client_pairs ((key, val) ∷ ps) a = client_pairs ps (
    if text_eq (codes "name") key
    then record a { name = set_arg 30 val a.name }
    else if text_eq (codes "server") key
    then record a { server = set_arg 30 val a.server }
    else if text_eq (codes "user") key
    then record a { user = set_arg user_len_max val a.user }
    else if text_eq (codes "passwd") key
    then record a { passwd = set_arg user_len_max val a.passwd }
    else if text_eq (codes "path") key
    then record a { path = set_arg path_max val a.path }
    else a)

-- `none` stands for a file that is not named or cannot be opened. The result says whether the arguments are
-- accepted.
unfoldable pub parse_arg : Option Text → ClientArg → Option (Bool × ClientArg)
unfolding client_pairs
parse_arg none a = some (false, a)
parse_arg (some text) a = elim (read_config text) [
  | none ↦ none
  | some ps ↦
      let b = client_pairs ps a in
      some (
        b.name.accepted && b.server.accepted && b.user.accepted && b.passwd.accepted
            && b.path.accepted,
        b,
      )
]

abbrev pub no_args : ClientArg
no_args = record { name = no_arg; server = no_arg; user = no_arg; passwd = no_arg; path = no_arg }

-- The state of the program behind `csiebox_client_init`: the arrays are empty.
abbrev pub new_client : Client
new_client = record {
  client_id = 0;
  cdir_path = [];
  watch_dir = [];
  lpath = [];
  maxdepth = 0;
  sent = [];
  unwatched = [];
}

-- `conn` is what `client_start` gives. The inner `none` stands for the pointer that stays null.
unfoldable pub init_client : Option Text → ℤ → Option (Option (ℤ × ClientArg))
unfolding parse_arg
init_client config conn = elim (parse_arg config no_args) [
  | none ↦ none
  | some (accepted, args) ↦
      if accepted
      then elim conn [ negsuc n ↦ some none | pos n ↦ some (some (pos n, args)) ]
      else some none
]

unfoldable pub accepts : Option Header → Bool
accepts none = false
accepts (some h) = h.magic == magic_res && h.op == 0 && h.status == 0

unfoldable pub login_result : Option Header → Client → Bool × Client
unfolding accepts
login_result none c = (false, c)
login_result (some h) c =
    if accepts (some h) then (true, record c { client_id = h.client_id }) else (false, c)

-- `works` says whether the request could be sent. No number is filled in. The array of the user in the
-- request has 30 bytes, and one that leaves no room for the null byte behind it is a fault, `none`.
unfoldable pub client_login : System → Text → Text → Bool → Client → Option (Bool × Client)
unfolding login_result
client_login sys user passwd works c =
    let req = request 0 (login user (sys.md5 passwd)) [] in
    if leb user_len_max (length user)
    then none
    else if works
    then some (login_result (sys.answer c.sent req) (send c req))
    else some (false, c)

-- What is written to `longestPath.txt`: the whole array.
unfoldable pub longest_text : Client → Text
unfolding padded
longest_text c = padded 500 c.lpath

-- `csiebox_client_run`: whether the login succeeded, what is written to `longestPath.txt`, and the state
-- behind the events.
unfoldable pub client_run :
    System
    → Text
    → Text
    → Bool
    → Text
    → Option Entries
    → List (System × Event)
    → Option (Bool × (Text × Client))
unfolding client_login longest_text
client_run sys user passwd works home entries events =
    elim (client_login sys user passwd works new_client) [
      | none ↦ none
      | some (ok, c) ↦
          if ok
          then elim (traverse sys home 1 entries (record c { maxdepth = 0; lpath = [] })) [
            | none ↦ none
            | some c' ↦ elim (inotify events c') [
              | none ↦ none
              | some c'' ↦ some (true, (longest_text c', c''))
            ]
          ]
          else some (false, ([], c))
    ]

-- Whether the connection is closed and the memory freed: a null pointer is left alone.
unfoldable pub destroy_client : Option ℤ → List ℤ
destroy_client none = []
destroy_client (some conn_fd) = conn_fd ∷ []
