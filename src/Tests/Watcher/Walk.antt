-- ===== src/Tests/Watcher/Walk.antt =====
-- Tests of the first walk of Watcher.antt, on its own and with Mirror.antt.
use ntu_sp17fall.Base.{◌≡◌, refl, true, [], ◌∷◌, ◌++◌, none, some, codes, text_eq, arith, map, ◌⊎◌}
use ntu_sp17fall.Mirror.Protocol.{Request}
use ntu_sp17fall.Mirror.{
  close, send, meta_answer, mkdir, chmod, utimes, lutimes, create, write, symlink, link, open_left,
  change_path,
}
use ntu_sp17fall.Mirror.Session.{
  login_answer, get_account_info, Server, ClientInfo, set_client, get_user_homedir, handle_request,
}
use ntu_sp17fall.Watcher.{System, Client, md5_file}
use ntu_sp17fall.Watcher.Walk.{traverse}
use ntu_sp17fall.Watcher.Session.{new_client, longest_text, client_run}
use ntu_sp17fall.Watcher.Steps.{all_moves}
use ntu_sp17fall.Watcher.Sending.{entry_of, watch_of}
use ntu_sp17fall.Watcher.After.{all_fit, listed, entered}
use ntu_sp17fall.Watcher.Tables.{traverse-tables}
use ntu_sp17fall.Watcher.Longest.{reg_files, IsDeepest, traverse-longest}
use ntu_sp17fall.Watcher.Mirrored.{live, mirror}
use ntu_sp17fall.Watcher.Copy.{traverse-mirror}
use ntu_sp17fall.Server.Account.{account_lines, find_passwd, passwd_in}
use ntu_sp17fall.Watcher.Online.{client_run-mirror}
use ntu_sp17fall.Tests.Watcher.{
  home_files, tree, user_info, server, server_disk, online, home_files-IsConsistent,
}

traverse-tables_example :
    (c' : Client) × (traverse home_files (codes "../cdir") 1 (some tree) new_client ≡ some c')
    × (c'.cdir_path
        ≡ map (entry_of home_files) (listed (all_moves home_files (codes "../cdir") 1 tree)))
    × (c'.watch_dir
        ≡ map (watch_of home_files) (entered (all_moves home_files (codes "../cdir") 1 tree)))
unfolding all_fit listed all_moves text_eq
traverse-tables_example =
    traverse-tables home_files (codes "../cdir") 1 tree new_client refl refl refl (ground arith)

-- The names in their order.
listed_test :
    listed (all_moves home_files (codes "../cdir") 1 tree)
    ≡ codes "../cdir"
      ∷ codes "../cdir/a"
      ∷ codes "../cdir/b"
      ∷ codes "../cdir/l"
      ∷ codes "../cdir/d"
      ∷ codes "../cdir/d/e"
      ∷ []
unfolding listed all_moves text_eq
listed_test = refl

traverse-longest_example :
    (c' : Client) × (traverse home_files (codes "../cdir") 1 (some tree) new_client ≡ some c')
    × (((reg_files home_files (all_moves home_files (codes "../cdir") 1 tree) ≡ [])
          × (c'.maxdepth ≡ 0)
          × (c'.lpath ≡ []))
        ⊎ IsDeepest
            (reg_files home_files (all_moves home_files (codes "../cdir") 1 tree))
            0
            c'.maxdepth
            c'.lpath)
unfolding all_fit listed all_moves text_eq
traverse-longest_example =
    traverse-longest home_files (codes "../cdir") tree new_client refl refl refl refl refl
      (ground arith)

traverse-mirror_example :
    (c' : Client) × (traverse online (codes "../cdir") 1 (some tree) new_client ≡ some c')
    × (handle_request home_files.md5 server 5 (map (λ (req : Request). (req, server_disk)) c'.sent)
        ≡ some (
          set_client server 5 none,
          mirror online server_disk
                (get_user_homedir server user_info)
                []
                (all_moves online (codes "../cdir") 1 tree)
              ++ close 5 ∷ [],
        ))
unfolding all_fit listed all_moves text_eq get_user_homedir
traverse-mirror_example =
    traverse-mirror home_files server 5 server_disk user_info (codes "../cdir") tree new_client refl
      home_files-IsConsistent refl refl refl refl refl refl (ground arith)

-- The calls of the server: the file is written, its second name linked, and the file with another digest
-- written over.
mirror_test :
    mirror online server_disk (codes "../sdir/u") [] (all_moves online (codes "../cdir") 1 tree)
    ≡ mkdir (codes "../sdir/u/") 16877
      ∷ chmod (codes "../sdir/u/") 16877
      ∷ utimes (codes "../sdir/u/") 10 20
      ∷ send (meta_answer 0)
      ∷ send (meta_answer 2)
      ∷ create (codes "../sdir/u/a") 33188
      ∷ write (codes "../sdir/u/a") (codes "hi")
      ∷ utimes (codes "../sdir/u/a") 11 21
      ∷ send (meta_answer 2)
      ∷ link (codes "../sdir/u/a") (codes "../sdir/u/b")
      ∷ utimes (codes "../sdir/u/b") 11 21
      ∷ send (meta_answer 2)
      ∷ symlink (codes "up") (codes "../sdir/u/l")
      ∷ lutimes (codes "../sdir/u/l") 12 22
      ∷ mkdir (codes "../sdir/u/d") 16877
      ∷ chmod (codes "../sdir/u/d") 16877
      ∷ utimes (codes "../sdir/u/d") 10 20
      ∷ send (meta_answer 0)
      ∷ open_left (codes "../sdir/u/d/e")
      ∷ send (meta_answer 2)
      ∷ create (codes "../sdir/u/d/e") 33188
      ∷ write (codes "../sdir/u/d/e") (codes "ok")
      ∷ utimes (codes "../sdir/u/d/e") 13 23
      ∷ mkdir (codes "../sdir/u/d") 16877
      ∷ chmod (codes "../sdir/u/d") 16877
      ∷ utimes (codes "../sdir/u/d") 10 20
      ∷ send (meta_answer 0)
      ∷ mkdir (codes "../sdir/u/") 16877
      ∷ chmod (codes "../sdir/u/") 16877
      ∷ utimes (codes "../sdir/u/") 10 20
      ∷ send (meta_answer 0)
      ∷ []
unfolding mirror all_moves text_eq change_path md5_file
mirror_test = refl

-- A server with one account, on which nobody is logged in.
abbrev fresh_server : Server
fresh_server = record {
  path = codes "../sdir";
  account = some (codes "u,pw" ++ 10 ∷ []);
  client = λ fd. none;
}

abbrev before_login : System
before_login = live fresh_server 5 server_disk home_files

client_run-mirror_example :
    let info : ClientInfo = record { user = codes "u"; passwd_hash = codes "pw"; conn_fd = 5 } in
    (c' : Client) × (client_run before_login
        (codes "u")
        (codes "pw")
        true
        (codes "../cdir")
        (some tree)
        []
      ≡ some (true, (longest_text c', c')))
    × (handle_request home_files.md5 fresh_server 5
          (map (λ (req : Request). (req, server_disk)) c'.sent)
        ≡ some (
          set_client (set_client fresh_server 5 (some info)) 5 none,
          mkdir (codes "../sdir/u") 493
              ∷ send (login_answer 0 5)
              ∷ (mirror before_login server_disk
                    (codes "../sdir/u")
                    []
                    (all_moves before_login (codes "../cdir") 1 tree)
                  ++ close 5 ∷ []),
        ))
unfolding get_account_info account_lines find_passwd passwd_in text_eq get_user_homedir all_fit
    listed all_moves
client_run-mirror_example =
    client_run-mirror home_files fresh_server 5 server_disk (codes "u") (codes "pw")
      (codes "../cdir") tree refl refl home_files-IsConsistent refl refl refl (ground arith)
