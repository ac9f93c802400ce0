-- ===== src/Config.antt =====
-- `parse_arg` of MP5/src/csiebox_server.c and of MP5/src/csiebox_client.c: the configuration file.
-- A text has no null byte. `none` is a fault: behind a key at the end of the file `getline` returns -1,
-- and the code writes in front of the buffer.
pub mod RoundTrip
use ntu_sp17fall.Base.{
  ℕ, zero, suc, ◌+◌, ◌-◌, ◌*◌, Bool, true, false, not, ◌&&◌, ◌||◌, List, [], ◌∷◌, ◌++◌, Option,
  none, some, Text, codes, text_eq, if◌then◌else◌, ◌==◌, leb, length, drop, take,
}

-- What `getdelim` reads up to a byte: its text without the last byte, which is the delimiter or, at the
-- end of the file, the last byte that there is; and what is left.
unfoldable pub get_delim : ℕ → Text → Text × Text
get_delim d [] = ([], [])
get_delim d (c ∷ []) = ([], [])
get_delim d (c ∷ e ∷ t) =
    let rest = get_delim d (e ∷ t) in if c == d then ([], e ∷ t) else (c ∷ rest.0, rest.1)

-- The keys and values that the loop reads, on fuel: the loop ends at an empty key.
unfoldable pub read_pairs : ℕ → Text → Option (List (Text × Text))
unfolding get_delim
read_pairs zero t = none
read_pairs (suc fuel) t =
    let key = get_delim b'=' t in
    let val = get_delim 10 key.1 in
    let rest : Option (List (Text × Text)) = read_pairs fuel val.1 in
    elim key.0 [
      | [] ↦ some []
      | c ∷ cs ↦ elim key.1 [
        | [] ↦ none
        | d ∷ ds ↦ elim rest [ none ↦ none | some ps ↦ some ((c ∷ cs, val.0) ∷ ps) ]
      ]
    ]

-- Every round reads a byte at least.
unfoldable pub read_config : Text → Option (List (Text × Text))
read_config t = read_pairs (suc (length t)) t

-- `strncpy(arg, val, vallen)` into an array that holds `old`: what is longer stays behind.
abbrev pub overwrite : Text → Text → Text
overwrite old val = val ++ drop (length val) old

abbrev pub path_max : ℕ
path_max = 4096

abbrev pub user_len_max : ℕ
user_len_max = 30

-- An argument with its mark in `accept_config`.
pub record Arg : Type 0 where
  pub text : Text
  pub accepted : Bool

abbrev pub no_arg : Arg
no_arg = record { text = []; accepted = false }

unfoldable pub set_arg : ℕ → Text → Arg → Arg
set_arg size val a =
    if leb (length val) size then record { text = overwrite a.text val; accepted = true } else a

-- `arg` of `csiebox_server`; `thread` is the text that `atoi` gets. The mark of `run_path` is not looked at.
pub record ServerArg : Type 0 where
  pub path : Arg
  pub account_path : Arg
  pub thread : Arg
  pub run_path : Arg
  pub daemonize : Bool

unfoldable pub server_pair : Text → Text → ServerArg → ServerArg
unfolding set_arg
server_pair key val a =
    if text_eq (codes "path") key
    then record a { path = set_arg path_max val a.path }
    else if text_eq (codes "account_path") key
    then record a { account_path = set_arg path_max val a.account_path }
    else if text_eq (codes "thread") key
    then record a { thread = record { text = val; accepted = true } }
    else if text_eq (codes "run_path") key
    then record a { run_path = set_arg path_max val a.run_path }
    else a

unfoldable pub server_pairs : List (Text × Text) → ServerArg → ServerArg
unfolding server_pair
server_pairs [] a = a
server_pairs ((key, val) ∷ ps) a = server_pairs ps (server_pair key val a)

-- `none` stands for a file that cannot be opened or is not named; `flag` is the argument behind it where
-- there are two. The result says whether the arguments are accepted.
unfoldable pub parse_server : Option Text → Option Text → ServerArg → Option (Bool × ServerArg)
unfolding server_pairs
parse_server none flag a = some (false, a)
parse_server (some t) flag a = elim (read_config t) [
  | none ↦ none
  | some ps ↦
      let b = server_pairs ps a in
      if b.path.accepted && b.account_path.accepted && b.thread.accepted
      then some (
        true,
        record b {
          daemonize = b.daemonize || (elim flag [ none ↦ false | some f ↦ text_eq (codes "-d") f ]);
        },
      )
      else some (false, b)
]

-- `arg` of `csiebox_client`.
pub record ClientArg : Type 0 where
  pub name : Arg
  pub server : Arg
  pub user : Arg
  pub passwd : Arg
  pub path : Arg

unfoldable pub client_pair : Text → Text → ClientArg → ClientArg
unfolding set_arg
client_pair key val a =
    if text_eq (codes "name") key
    then record a { name = set_arg user_len_max val a.name }
    else if text_eq (codes "server") key
    then record a { server = set_arg user_len_max val a.server }
    else if text_eq (codes "user") key
    then record a { user = set_arg user_len_max val a.user }
    else if text_eq (codes "passwd") key
    then record a { passwd = set_arg user_len_max val a.passwd }
    else if text_eq (codes "path") key
    then record a { path = set_arg path_max val a.path }
    else a

unfoldable pub client_pairs : List (Text × Text) → ClientArg → ClientArg
unfolding client_pair
client_pairs [] a = a
client_pairs ((key, val) ∷ ps) a = client_pairs ps (client_pair key val a)

-- `none` stands for a file that cannot be opened, or for any number of arguments but one.
unfoldable pub parse_client : Option Text → ClientArg → Option (Bool × ClientArg)
unfolding client_pairs
parse_client none a = some (false, a)
parse_client (some t) a = elim (read_config t) [
  | none ↦ none
  | some ps ↦
      let b = client_pairs ps a in
      some (
        b.name.accepted && b.server.accepted && b.user.accepted && b.passwd.accepted
            && b.path.accepted,
        b,
      )
]
