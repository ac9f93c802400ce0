-- ===== src/Watcher/Copy.antt =====
-- The first walk of MP2/src/csiebox_client.c on a connection to the server of MP2/src/csiebox_server.c.
use mathlib.Core.List.{append-nil}
use ntu_sp17fall.Base.{
  ℕ, ◌≤◌, ◌≡◌, refl, ap, sym, ◌∙◌, true, false, List, [], ◌∷◌, ◌++◌, none, some, Text,
  if◌then◌else◌, subst, leb, length, append_assoc, arith, map,
}
use ntu_sp17fall.Mirror.Protocol.{is_dir, Request}
use ntu_sp17fall.Mirror.{Disk, close}
use ntu_sp17fall.Mirror.Session.{Server, ClientInfo, set_client, get_user_homedir, handle_request}
use ntu_sp17fall.Mirror.Replay.{all_work, Handles, Handles-nil, Handles-append, Handles-all}
use ntu_sp17fall.Watcher.{System, Client, meta_request, is_ok, capacity}
use ntu_sp17fall.Watcher.Walk.{Entries, note_depth, traverse}
use ntu_sp17fall.Watcher.Steps.{Move, enter, leave, meet, all_moves}
use ntu_sp17fall.Watcher.Sending.{entry_of, more_requests}
use ntu_sp17fall.Watcher.After.{
  fits, all_fit, IsSorted, listed, after_move, after, note_depth-cdir_path, note_depth-sent,
  all_folders,
}
use ntu_sp17fall.Watcher.Tables.{traverse-after, all_moves-IsSorted, all_moves-all_folders}
use ntu_sp17fall.Watcher.Mirrored.{
  reply, connected, IsConsistent, mirror_folder, mirror_file, mirror,
}
use ntu_sp17fall.Watcher.Carried.{is_short, all_short, all_short-snoc}
use ntu_sp17fall.Watcher.Handled.{folder_handled, meta_work, if_work, more_work, file_lem}

-- The client is connected to the server on which it is logged in. `Good` says what was sent before.
module _ (sys : System) (s : Server) (fd : ℕ) (disk : Disk) (info : ClientInfo)
    (known : s.client fd ≡ some info) (ok : IsConsistent sys)
    (room : leb 400 (length (get_user_homedir s info)) ≡ false) (Good : List Request → Type 0)
    (grows : (rs more : List Request) → all_work more ≡ true → Good rs → Good (rs ++ more))
    (answers : (earlier : List Request) (req : Request)
      → Good earlier
      → sys.answer earlier req ≡ reply s fd disk sys.md5 req) where
  -- What is sent on the way, and what the server makes of it.
  pub walk_handled :
      (ms : List Move) (c : Client)
      → Good c.sent
      → IsSorted sys ms
      → all_folders sys ms ≡ true
      → all_fit sys ms ≡ true
      → all_short c.cdir_path ≡ true
      → (rs : List Request) × ((after sys ms c).sent ≡ c.sent ++ rs)
        × Handles sys.md5 s fd disk rs (mirror sys disk (get_user_homedir s info) c.cdir_path ms)
  unfolding after after_move all_folders all_fit fits IsSorted mirror
  walk_handled [] c good sorted folders fit shorts =
      ([], sym (append-nil c.sent), Handles-nil sys.md5 s fd disk)
  walk_handled (enter path ∷ ms) c good sorted folders fit shorts =
      let home = get_user_homedir s info in
      let short : is_short path ≡ true = ground arith in
      let grown = all_short-snoc c.cdir_path (entry_of sys path) shorts short in
      let (rs, same, handled) =
        walk_handled ms (after_move sys (enter path) c)
          (grows c.sent (meta_request sys path ∷ []) (meta_work sys path) good) sorted
          (ground arith) (ground arith) grown in
      (
        meta_request sys path ∷ rs,
        same ∙ append_assoc c.sent (meta_request sys path ∷ []) rs,
        Handles-append sys.md5 s fd disk (meta_request sys path ∷ []) rs
            (mirror_folder sys home path)
            (mirror sys disk home (c.cdir_path ++ entry_of sys path ∷ []) ms)
            (folder_handled sys s fd disk info known path short (ground arith)) handled,
      )
  walk_handled (leave path ∷ ms) c good sorted folders fit shorts =
      let home = get_user_homedir s info in
      let short : is_short path ≡ true = ground arith in
      let (rs, same, handled) =
        walk_handled ms (after_move sys (leave path) c)
          (grows c.sent (meta_request sys path ∷ []) (meta_work sys path) good) sorted
          (ground arith) (ground arith) shorts in
      (
        meta_request sys path ∷ rs,
        same ∙ append_assoc c.sent (meta_request sys path ∷ []) rs,
        Handles-append sys.md5 s fd disk (meta_request sys path ∷ []) rs
            (mirror_folder sys home path) (mirror sys disk home c.cdir_path ms)
            (folder_handled sys s fd disk info known path short (ground arith)) handled,
      )
  walk_handled (meet depth path ∷ ms) c good (no_dir, sorted) folders fit shorts =
      let home = get_user_homedir s info in
      let d = note_depth sys depth path c in
      let req = meta_request sys path in
      let paths = note_depth-cdir_path sys depth path c in
      let good' : Good d.sent = subst Good (sym (note_depth-sent sys depth path c)) good in
      let short : is_short path ≡ true = ground arith in
      let shorts' : all_short d.cdir_path ≡ true = rw paths shorts in
      let grown = all_short-snoc d.cdir_path (entry_of sys path) shorts' short in
      let more : List Request =
        if is_ok (sys.answer d.sent req)
        then []
        else more_requests sys d.client_id d.cdir_path path in
      let work : all_work more ≡ true =
        if_work (is_ok (sys.answer d.sent req)) (more_requests sys d.client_id d.cdir_path path)
          (more_work sys d.client_id d.cdir_path path) in
      let (rs, same, handled) =
        walk_handled ms (after_move sys (meet depth path) c)
          (grows (d.sent ++ req ∷ []) more work
            (grows d.sent (req ∷ []) (meta_work sys path) good'))
          sorted (ground arith) (ground arith) grown in
      (
        (req ∷ more) ++ rs,
        same
            ∙ append_assoc (d.sent ++ req ∷ []) more rs
            ∙ append_assoc d.sent (req ∷ []) (more ++ rs)
            ∙ rw (note_depth-sent sys depth path c) refl,
        subst
            (λ es. Handles sys.md5 s fd disk ((req ∷ more) ++ rs) (
              mirror_file sys disk home es path
              ++ mirror sys disk home (es ++ entry_of sys path ∷ []) ms))
            paths
            (Handles-append sys.md5 s fd disk (req ∷ more) rs
              (mirror_file sys disk home d.cdir_path path)
              (mirror sys disk home (d.cdir_path ++ entry_of sys path ∷ []) ms)
              (file_lem sys s fd disk info known ok room Good grows answers d.client_id d.sent
                d.cdir_path path good' shorts' short (ground arith) no_dir)
              handled),
      )

-- A client walks its directory with empty arrays and nothing sent, on a connection on which a user is
-- logged in; the names and files fit the arrays of both, what can be read has the length of `lstat`, the
-- home directory on the server is shorter than 400 bytes, and the disk of the server answers the same all
-- the time. The walk comes to its end, and the server handles everything that was sent without a fault,
-- with exactly the calls that mirror the directory: each directory is made and gets mode and times when
-- it is entered and again when it is left, each file is left alone, touched, linked or written whole, and
-- at the end the connection is closed.
pub traverse-mirror :
    (sys : System) (s : Server) (fd : ℕ) (disk : Disk) (info : ClientInfo) (dirname : Text)
    (entries : Entries) (c : Client)
    → let sys' = connected s fd disk sys in
      let ms = all_moves sys' dirname 1 entries in
      s.client fd ≡ some info
      → IsConsistent sys
      → leb 400 (length (get_user_homedir s info)) ≡ false
      → is_dir (sys.stat dirname).mode ≡ true
      → c.cdir_path ≡ []
      → c.watch_dir ≡ []
      → c.sent ≡ []
      → all_fit sys' ms ≡ true
      → length (listed ms) ≤ capacity
      → (c' : Client) × (traverse sys' dirname 1 (some entries) c ≡ some c')
        × (handle_request sys.md5 s fd (map (λ (req : Request). (req, disk)) c'.sent)
            ≡ some (
              set_client s fd none,
              mirror sys' disk (get_user_homedir s info) [] ms ++ close fd ∷ [],
            ))
unfolding all_short
traverse-mirror sys s fd disk info dirname entries c known ok room dir paths watches silent fit
      few =
    let sys' = connected s fd disk sys in
    let ms = all_moves sys' dirname 1 entries in
    let ok' : IsConsistent sys' = record {
      content_size = ok.content_size;
      link_size = ok.link_size;
      link_text = ok.link_text;
    } in
    let (rs, same, handled) =
      walk_handled sys' s fd disk info known ok' room (λ rs. Unit) (λ rs more work good. tt)
        (λ earlier req good. refl) ms c tt (all_moves-IsSorted sys' dirname 1 entries)
        (all_moves-all_folders sys' dirname 1 entries dir) fit (rw paths refl) in
    let sent : (after sys' ms c).sent ≡ rs = same ∙ ap (λ (t : List Request). t ++ rs) silent in
    (
      after sys' ms c,
      traverse-after sys' dirname 1 entries c paths watches fit few,
      rw sent (
          Handles-all sys.md5 s fd disk rs (mirror sys' disk (get_user_homedir s info) [] ms) (
            subst
              (λ es.
                Handles sys.md5 s fd disk rs (mirror sys' disk (get_user_homedir s info) es ms))
              paths handled)),
    )
