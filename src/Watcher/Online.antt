-- ===== src/Watcher/Online.antt =====
-- The run of MP2/src/csiebox_client.c from its login on, with the server of MP2/src/csiebox_server.c.
use ntu_sp17fall.Base.{
  ℕ, ◌≤◌, ◌≡◌, refl, ap, ◌∙◌, true, false, List, [], ◌∷◌, ◌++◌, Option, none, some, Text,
  text_eq_refl, leb, ◌==◌, arith, length, map,
}
use ntu_sp17fall.Config.{user_len_max}
use ntu_sp17fall.Mirror.Protocol.{is_dir, Request, login}
use ntu_sp17fall.Mirror.{Disk, Call, send, mkdir, close}
use ntu_sp17fall.Mirror.Session.{
  Server, ClientInfo, set_client, get_user_homedir, login_answer, login_with, get_account_info,
  handle_body, handle_one, handle_request,
}
use ntu_sp17fall.Mirror.Guard.{handle_one_lem}
use ntu_sp17fall.Mirror.Replay.{
  Handles-all, all_work, state_after, state_after-append, state_after-work,
}
use ntu_sp17fall.Watcher.{System, Client, request, capacity}
use ntu_sp17fall.Watcher.Walk.{Entries, traverse}
use ntu_sp17fall.Watcher.Events.{inotify}
use ntu_sp17fall.Watcher.Session.{
  new_client, accepts, login_result, client_login, longest_text, client_run,
}
use ntu_sp17fall.Watcher.Steps.{all_moves}
use ntu_sp17fall.Watcher.After.{all_fit, listed, after}
use ntu_sp17fall.Watcher.Tables.{traverse-after, all_moves-IsSorted, all_moves-all_folders}
use ntu_sp17fall.Watcher.Mirrored.{live, first_sent, reply, IsConsistent, mirror}
use ntu_sp17fall.Watcher.Carried.{all_short}
use ntu_sp17fall.Watcher.Copy.{walk_handled}

abbrev login_request : System → Text → Text → Request
login_request sys user passwd = request 0 (login user (sys.md5 passwd)) []

abbrev user_info : System → ℕ → Text → Text → ClientInfo
user_info sys fd user passwd = record { user = user; passwd_hash = sys.md5 passwd; conn_fd = fd }

abbrev welcome : Server → ℕ → ClientInfo → List Call
welcome s fd info = mkdir (get_user_homedir s info) 493 ∷ send (login_answer 0 fd) ∷ []

login_handled :
    (sys : System) (s : Server) (fd : ℕ) (disk : Disk) (user passwd : Text)
    → get_account_info sys.md5 s user ≡ some (sys.md5 passwd)
    → let info = user_info sys fd user passwd in
      handle_one sys.md5 s fd disk (login_request sys user passwd)
      ≡ some (set_client s fd (some info), welcome s fd info)
unfolding handle_body login_with
login_handled sys s fd disk user passwd account =
    handle_one_lem sys.md5 s fd disk (login_request sys user passwd) refl refl
    ∙ rw (handle_body, account, login_with, text_eq_refl (sys.md5 passwd)) refl

known_self :
    (fd : ℕ) (info : ClientInfo) (s : Server) → (set_client s fd (some info)).client fd ≡ some info
known_self fd info s = let self : (fd == fd) ≡ true = ground arith in rw self refl

-- The client behind the login.
abbrev online_client : System → ℕ → Text → Text → Client
online_client sys fd user passwd = record new_client {
  client_id = fd;
  sent = login_request sys user passwd ∷ [];
}

login_accepted :
    (sys : System) (s : Server) (fd : ℕ) (disk : Disk) (user passwd : Text)
    → get_account_info sys.md5 s user ≡ some (sys.md5 passwd)
    → leb user_len_max (length user) ≡ false
    → client_login (live s fd disk sys) user passwd true new_client
      ≡ some (true, online_client sys fd user passwd)
unfolding client_login login_result accepts state_after first_sent
login_accepted sys s fd disk user passwd account named =
    let req = login_request sys user passwd in
    rw named (
      ap
        (λ (o : Option (Server × List Call)). some (
          login_result (elim o [ none ↦ none | some (s', calls) ↦ first_sent calls ])
            (record new_client { sent = req ∷ [] })))
        (login_handled sys s fd disk user passwd account))

run_after :
    (sys : System) (user passwd dirname : Text) (entries : Entries) (c0 c' : Client)
    → client_login sys user passwd true new_client ≡ some (true, c0)
    → traverse sys dirname 1 (some entries) (record c0 { maxdepth = 0; lpath = [] }) ≡ some c'
    → client_run sys user passwd true dirname (some entries) [] ≡ some (true, (longest_text c', c'))
unfolding client_run inotify
run_after sys user passwd dirname entries c0 c' accepted walked =
    rw (client_run, accepted, walked) refl

request_then :
    (md5 : Text → Text) (s s' s'' : Server) (fd : ℕ) (disk : Disk) (req : Request)
    (reqs : List (Request × Disk)) (calls more : List Call)
    → handle_one md5 s fd disk req ≡ some (s', calls)
    → handle_request md5 s' fd reqs ≡ some (s'', more)
    → handle_request md5 s fd ((req, disk) ∷ reqs) ≡ some (s'', calls ++ more)
unfolding handle_request
request_then md5 s s' s'' fd disk req reqs calls more one rest = rw (handle_request, one, rest) refl

-- A client with empty arrays logs in with a user name of less than 30 bytes and a password whose digest
-- the account file of the server gives its user, and walks its directory: the names and files fit the arrays of both, what can be read has the
-- length of `lstat`, the home directory on the server is shorter than 400 bytes, and the disk of the server
-- answers the same all the time. Against the answers of the server, as it is behind all earlier requests,
-- the run comes to the end of the walk, where no event follows; and the server handles everything that was
-- sent without a fault: it makes the home directory and accepts the login, makes exactly the calls that
-- mirror the directory, and at the end logs the client out and closes the connection.
pub client_run-mirror :
    (sys : System) (s : Server) (fd : ℕ) (disk : Disk) (user passwd dirname : Text)
    (entries : Entries)
    → let sys' = live s fd disk sys in
      let info = user_info sys fd user passwd in
      let home = get_user_homedir s info in
      let ms = all_moves sys' dirname 1 entries in
      get_account_info sys.md5 s user ≡ some (sys.md5 passwd)
      → leb user_len_max (length user) ≡ false
      → IsConsistent sys
      → leb 400 (length home) ≡ false
      → is_dir (sys.stat dirname).mode ≡ true
      → all_fit sys' ms ≡ true
      → length (listed ms) ≤ capacity
      → (c' : Client) × (client_run sys' user passwd true dirname (some entries) []
          ≡ some (true, (longest_text c', c')))
        × (handle_request sys.md5 s fd (map (λ (req : Request). (req, disk)) c'.sent)
            ≡ some (
              set_client (set_client s fd (some info)) fd none,
              welcome s fd info ++ (mirror sys' disk home [] ms ++ close fd ∷ []),
            ))
unfolding client_run get_user_homedir all_short
client_run-mirror sys s fd disk user passwd dirname entries account named ok room dir fit few =
    let sys' = live s fd disk sys in
    let info = user_info sys fd user passwd in
    let home = get_user_homedir s info in
    let s' = set_client s fd (some info) in
    let ms = all_moves sys' dirname 1 entries in
    let first = login_request sys user passwd in
    let c0 = online_client sys fd user passwd in
    let ok' : IsConsistent sys' = record {
      content_size = ok.content_size;
      link_size = ok.link_size;
      link_text = ok.link_text;
    } in
    let one = login_handled sys s fd disk user passwd account in
    let start : state_after sys.md5 s fd disk (first ∷ []) ≡ s' =
      unfold state_after in rw (state_after, one) refl in
    let known : s'.client fd ≡ some info = known_self fd info s in
    let grows : (rs more : List Request)
        → all_work more ≡ true
        → state_after sys.md5 s fd disk rs ≡ s'
        → state_after sys.md5 s fd disk (rs ++ more) ≡ s' =
      λ rs more work same.
        state_after-append sys.md5 s fd disk rs more
        ∙ ap (λ (t : Server). state_after sys.md5 t fd disk more) same
        ∙ state_after-work sys.md5 s' fd disk more work in
    let (rs, same, handled) =
      walk_handled sys' s' fd disk info known ok' room (λ rs. state_after sys.md5 s fd disk rs ≡ s')
        grows
        (λ earlier req good.
          unfold reply in
          ap
            (λ (t : Server). elim (handle_one sys.md5 t fd disk req) [
              | none ↦ none
              | some (s'', calls) ↦ first_sent calls
            ])
            good)
        ms c0 start (all_moves-IsSorted sys' dirname 1 entries)
        (all_moves-all_folders sys' dirname 1 entries dir) fit refl in
    let walked = traverse-after sys' dirname 1 entries c0 refl refl fit few in
    let replayed = Handles-all sys.md5 s' fd disk rs (mirror sys' disk home [] ms) handled in
    (
      after sys' ms c0,
      run_after sys' user passwd dirname entries c0 (after sys' ms c0)
          (login_accepted sys s fd disk user passwd account named) walked,
      ap
            (λ (reqs : List Request).
              handle_request sys.md5 s fd (map (λ (req : Request). (req, disk)) reqs))
            same
          ∙ request_then sys.md5 s s' (set_client s' fd none) fd disk first
              (map (λ (req : Request). (req, disk)) rs) (welcome s fd info)
              (mirror sys' disk home [] ms ++ close fd ∷ []) one replayed,
    )
