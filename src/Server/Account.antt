-- ===== src/Server/Account.antt =====
-- `get_account_info`, `login` and `handle_request` of MP5/src/csiebox_server.c. `md5` is the digest of
-- a text.
use ntu_sp17fall.Base.{
  ℕ, Bool, true, false, not, List, [], ◌∷◌, ◌++◌, Option, none, some, Text, text_eq, if◌then◌else◌,
  ◌==◌,
}
use ntu_sp17fall.Server.{
  Header, magic_req, Server, Request, Answers, Call, send, response, set_client, logout, sync_file,
  rm_file, login_with,
}

-- The lines that `getline` gives, each without its last byte: the line feed, or at the end of the file
-- the last byte. `line` is what was read of the present one.
unfoldable pub account_lines : Text → Text → List Text
account_lines line [] = []
account_lines line (c ∷ []) = line ∷ []
account_lines line (c ∷ d ∷ t) =
    let rest = account_lines (if c == 10 then [] else line ++ c ∷ []) (d ∷ t) in
    if c == 10 then line ∷ rest else rest

-- `strtok(_, ",")`: the commas skipped, then the bytes before the next comma and those behind it.
unfoldable pub skip_commas : Text → Text
skip_commas [] = []
skip_commas (c ∷ t) = if c == b',' then skip_commas t else c ∷ t

unfoldable pub to_comma : Text → Text × Text
to_comma [] = ([], [])
to_comma (c ∷ t) = let r = to_comma t in if c == b',' then ([], t) else (c ∷ r.0, r.1)

unfoldable pub token : Text → Option (Text × Text)
unfolding skip_commas to_comma
token t = elim (skip_commas t) [ [] ↦ none | c ∷ u ↦ some (to_comma (c ∷ u)) ]

-- The password that a line gives to the user.
unfoldable pub passwd_in : Text → Text → Option Text
unfolding token
passwd_in user line = elim (token line) [
  | none ↦ none
  | some (u, rest) ↦
      if text_eq user u
      then elim (token rest) [ none ↦ none | some (passwd, _) ↦ some passwd ]
      else none
]

-- The loop ends at an empty line.
unfoldable pub find_passwd : Text → List Text → Option Text
find_passwd user [] = none
find_passwd user ([] ∷ ls) = none
find_passwd user ((c ∷ l) ∷ ls) =
    let rest = find_passwd user ls in
    elim (passwd_in user (c ∷ l)) [ some passwd ↦ some passwd | none ↦ rest ]

module _ (md5 : Text → Text) where
  unfoldable pub get_account_info : Server → Text → Option Text
  get_account_info s user = elim s.account [
    | none ↦ none
    | some text ↦ elim (find_passwd user (account_lines [] text)) [
      | none ↦ none
      | some passwd ↦ some (md5 passwd)
    ]
  ]

  unfoldable pub login : Server → ℕ → Text → Text → Server × List Call
  login s conn_fd user hash = login_with s conn_fd user hash (get_account_info s user)

  unfoldable pub handle_op : Server → ℕ → Header → Request → Answers → Server × List Call
  handle_op s conn_fd header req a =
      if header.op == 0
      then (if req.complete then login s conn_fd req.user req.passwd_hash else (s, []))
      else if header.op == 1
      then (if req.complete then sync_file s conn_fd header req a else (s, []))
      else if header.op == 5
      then (if req.complete then rm_file s conn_fd header req a else (s, []))
      else (s, [])

  unfoldable pub handle_request : Server → ℕ → Request → Answers → Server × List Call
  handle_request s conn_fd req a = elim req.header [
    | none ↦ logout s conn_fd
    | some header ↦ if header.magic == magic_req then handle_op s conn_fd header req a else (s, [])
  ]

  abbrev pub set_in_thread : Server → ℕ → Bool → Server
  set_in_thread s fd on = elim (s.client fd) [
    | none ↦ s
    | some info ↦ set_client s fd (some (record info { in_thread = on }))
  ]

  -- `server_thread_func`
  unfoldable pub server_thread_func : Server → ℕ → Request → Answers → Server × List Call
  server_thread_func s conn_fd req a =
      let (s', calls) = handle_request s conn_fd req a in (set_in_thread s' conn_fd false, calls)

  -- Where no thread takes the task, `busy`, the request is read and answered with BUSY. The entry of the
  -- client is written without a test: `none` stands for the null pointer.
  unfoldable pub choose_thread : Bool → Server → ℕ → Request → Option (Server × List Call)
  choose_thread busy s conn_fd req = elim (s.client conn_fd) [
    | none ↦ none
    | some info ↦ if not busy then some (set_in_thread s conn_fd true, []) else elim req.header [
      | none ↦ some (logout s conn_fd)
      | some header ↦
          some (set_in_thread s conn_fd false, send conn_fd (response header.op 3 conn_fd) ∷ [])
    ]
  ]
