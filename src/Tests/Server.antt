-- ===== src/Tests/Server.antt =====
-- A server with the account "a", whose digest is the password itself, and nobody logged in.
use mathlib.Core.List.{flatten}
use ntu_sp17fall.Base.{
  ℕ, ◌≡◌, ◌≢◌, refl, ◌⊎◌, inl, true, false, List, [], ◌∷◌, none, some, Text, codes, text_eq, length,
  leb, take, ◌==◌,
}
use ntu_sp17fall.Server.{
  Header, Server, Request, Answers, send, mkdir, response, set_client, get_user_homedir, login_with,
  welcome,
}
use ntu_sp17fall.Server.Account.{
  account_lines, skip_commas, to_comma, token, passwd_in, find_passwd, get_account_info, login,
  handle_request, handle_op, set_in_thread, server_thread_func,
}
use ntu_sp17fall.Server.Receive.{receive, receive_lem}
use ntu_sp17fall.Server.Run.{watched, is_accepted, server_thread_func-watched}
use ntu_sp17fall.Server.Guard.{handle_request-guard, login_lem}

abbrev same_text : Text → Text
same_text t = t

abbrev idle_server : Server
idle_server = record {
  client = λ fd. none;
  path = codes "sdir";
  account = some (codes "b,y\na,x\n");
}

abbrev rm_header : Header
rm_header = record { magic = 144; op = 5; status = 0; client_id = 4; datalen = 4 }

abbrev rm_request : Request
rm_request = record {
  header = some rm_header;
  complete = true;
  user = [];
  passwd_hash = [];
  meta = record { mode = 0; atime = 0; mtime = 0 };
  hash = [];
  file_path = codes "/f";
}

abbrev nothing_there : Answers
nothing_there = record { stat = none; digest = []; datalen = 0; stream = []; opened = false }

handle_request-guard_example :
    handle_request same_text idle_server 4 rm_request nothing_there ≡ (idle_server, [])
handle_request-guard_example =
    handle_request-guard same_text idle_server 4 rm_request nothing_there rm_header refl refl
      (inl refl)

get_account_info_test : get_account_info same_text idle_server (codes "a") ≡ some (codes "x")
unfolding get_account_info find_passwd passwd_in token skip_commas to_comma account_lines text_eq
get_account_info_test = refl

login_lem_test :
    ((get_account_info same_text idle_server (codes "a") ≡ some (codes "x"))
      × (login same_text idle_server 4 (codes "a") (codes "x") ≡ (
        set_client idle_server 4 (
            some (record {
              user = codes "a";
              passwd_hash = codes "x";
              conn_fd = 4;
              in_thread = false;
            })),
        mkdir (
              get_user_homedir idle_server (record {
                user = codes "a";
                passwd_hash = codes "x";
                conn_fd = 4;
                in_thread = false;
              }))
            ∷ send 4 (response 0 0 4)
            ∷ [],
      )))
    ⊎ ((get_account_info same_text idle_server (codes "a") ≢ some (codes "x"))
        × (login same_text idle_server 4 (codes "a") (codes "x")
            ≡ (idle_server, send 4 (response 0 1 0) ∷ [])))
login_lem_test = login_lem same_text idle_server 4 (codes "a") (codes "x")

receive_lem_example :
    (pieces : List Text) × (receive 4 0 3 (codes "abcd") ≡ some pieces)
    × ((leb 3 (length (codes "abcd")) ≡ false) ⊎ (flatten pieces ≡ take 3 (codes "abcd")))
receive_lem_example = receive_lem 3 (codes "abcd")

abbrev login_request : Request
login_request = record rm_request {
  header = some (record rm_header { op = 0 });
  user = codes "a";
  passwd_hash = codes "x";
}

abbrev logged_in : Server
logged_in = (handle_request same_text idle_server 4 login_request nothing_there).0

abbrev chosen : Server
chosen = set_in_thread same_text logged_in 4 true

-- A second login in the thread that serves the connection.
server_thread_func-watched_example :
    let t = (handle_request same_text chosen 4 login_request nothing_there).0 in
    let u = (server_thread_func same_text chosen 4 login_request nothing_there).0 in
    (watched t 4 ≡ is_accepted same_text chosen login_request)
    × (watched u 4 ≡ elim (t.client 4) [ none ↦ false | some info ↦ true ])
    × ((fd : ℕ)
        → (4 == fd) ≡ false
        → (t.client fd ≡ chosen.client fd) × (u.client fd ≡ chosen.client fd))
unfolding watched handle_request handle_op login login_with welcome get_account_info find_passwd
    passwd_in token skip_commas to_comma account_lines text_eq
server_thread_func-watched_example =
    server_thread_func-watched same_text chosen 4 login_request nothing_there refl

is_accepted_test : is_accepted same_text chosen login_request ≡ true
unfolding is_accepted get_account_info find_passwd passwd_in token skip_commas to_comma
    account_lines text_eq handle_request handle_op login login_with welcome
is_accepted_test = refl
