-- ===== src/Tests/Watcher.antt =====
-- Test data for Watcher.antt and Mirror.antt: a directory with a file, a second name of it, a symbolic
-- link, and a directory with a file that the server has.
pub mod Walk
pub mod Events
use mathlib.Core.Option.{some-injective, none-ne-some}
use ntu_sp17fall.Base.{
  Option, List, false, ◌≡◌, refl, sym, ap, ◌∙◌, Bool-cases, inl, Bool, true, ◌||◌, [], ◌∷◌, ◌++◌,
  none, some, Text, codes, text_eq, text_eq_iff, if◌then◌else◌, pos, length, inr, arith, map, ◌⊎◌,
  lacks,
}
use ntu_sp17fall.Mirror.Protocol.{Stat, Request}
use ntu_sp17fall.Mirror.{
  Call, Disk, close, send, meta_answer, mkdir, chmod, utimes, lutimes, create, write, symlink, link,
  open_left, change_path, meta_calls,
}
use ntu_sp17fall.Mirror.Session.{
  login_answer, get_account_info, Server, ClientInfo, set_client, get_user_homedir, handle_request,
}
use ntu_sp17fall.Watcher.{System, Client, md5_file}
use ntu_sp17fall.Watcher.Walk.{Entries, end, closed, opened, traverse}
use ntu_sp17fall.Watcher.Session.{new_client, longest_text, client_run}
use ntu_sp17fall.Watcher.Steps.{Move, enter, leave, meet, all_moves}
use ntu_sp17fall.Watcher.Sending.{entry_of, watch_of}
use ntu_sp17fall.Watcher.After.{all_fit, listed, entered}
use ntu_sp17fall.Watcher.Tables.{traverse-tables}
use ntu_sp17fall.Watcher.Longest.{reg_files, IsDeepest, traverse-longest}
use ntu_sp17fall.Watcher.Mirrored.{live, connected, IsConsistent, mirror, mirror_file}
use ntu_sp17fall.Watcher.Copy.{traverse-mirror}
use ntu_sp17fall.Watcher.Events.{
  get_dir_name, event_path, drop_entry, drop_watch, watches_of, handle_event,
}
use ntu_sp17fall.Watcher.Mother.{refresh_if, refresh_where, has_ino}
use ntu_sp17fall.Watcher.Live.{mirror_mother, mirror_removal}
use ntu_sp17fall.Watcher.Changes.{created, deleted, handle_event-created, handle_event-deleted}
use ntu_sp17fall.Watcher.Carried.{all_short}
use ntu_sp17fall.Server.Account.{account_lines, find_passwd, passwd_in}
use ntu_sp17fall.Watcher.Online.{client_run-mirror}
use ntu_sp17fall.Watcher.Attrib.{touch_all, changed, handle_event-changed}

abbrev pub dir_stat : Stat
dir_stat = record { mode = 16877; ino = 1; nlink = 2; size = 4096; atime = 10; mtime = 20 }

abbrev file_stat : Stat
file_stat = record { mode = 33188; ino = 2; nlink = 2; size = 2; atime = 11; mtime = 21 }

abbrev link_stat : Stat
link_stat = record { mode = 41471; ino = 3; nlink = 1; size = 2; atime = 12; mtime = 22 }

abbrev deep_stat : Stat
deep_stat = record { mode = 33188; ino = 4; nlink = 1; size = 2; atime = 13; mtime = 23 }

abbrev stat_of : Text → Stat
stat_of path =
    if text_eq path (codes "../cdir/l")
    then link_stat
    else if text_eq path (codes "../cdir/d/e")
    then deep_stat
    else if text_eq path (codes "../cdir/a") || text_eq path (codes "../cdir/b")
    then file_stat
    else dir_stat

abbrev pub home_files : System
home_files = record {
  stat = stat_of;
  content = λ path.
      if text_eq path (codes "../cdir/a")
      then some (codes "hi")
      else if text_eq path (codes "../cdir/d/e")
      then some (codes "ok")
      else none;
  readlink = λ path. if text_eq path (codes "../cdir/l") then some (codes "up") else none;
  md5 = λ t. t;
  watch = λ path. pos (length path);
  answer = λ earlier req. none;
}

abbrev pub tree : Entries
tree = closed (codes ".") (
    closed (codes "a")
      (closed (codes "b") (closed (codes "l") (opened (codes "d") (closed (codes "e") end) end))))

abbrev pub user_info : ClientInfo
user_info = record { user = codes "u"; passwd_hash = []; conn_fd = 5 }

abbrev pub server : Server
server = record { path = codes "../sdir"; account = none; client = λ fd. some user_info }

-- The file below the directory is there with the digest of nothing.
abbrev pub server_disk : Disk
server_disk = record {
  digest = λ path. if text_eq path (codes "../sdir/u/d/e") then some (codes "other") else none;
  stat = λ path. file_stat;
  creates = λ path. true;
}

-- A path that is read has the size of its content.
named_size :
    (path name t u : Text)
    → path ≡ name
    → home_files.content name ≡ some u
    → (home_files.stat name).size ≡ length u
    → home_files.content path ≡ some t
    → (home_files.stat path).size ≡ length t
named_size path name t u named read size e =
    let same =
      some-injective u t (sym read ∙ sym (ap (λ (p : Text). home_files.content p) named) ∙ e) in
    ap (λ (p : Text). (home_files.stat p).size) named ∙ size ∙ ap length same

content_size_lem :
    (path t : Text) → home_files.content path ≡ some t → (home_files.stat path).size ≡ length t
unfolding text_eq
content_size_lem path t e = elim (Bool-cases (text_eq path (codes "../cdir/a"))) [
  | inl same ↦
      named_size path (codes "../cdir/a") t (codes "hi")
        ((text_eq_iff path (codes "../cdir/a")).0 same) refl refl e
  | inr other ↦ elim (Bool-cases (text_eq path (codes "../cdir/d/e"))) [
    | inl same ↦
        named_size path (codes "../cdir/d/e") t (codes "ok")
          ((text_eq_iff path (codes "../cdir/d/e")).0 same) refl refl e
    | inr other' ↦ absurd (none-ne-some t (sym (rw (other, other') refl) ∙ e))
  ]
]

link_size_lem :
    (path t : Text)
    → home_files.readlink path ≡ some t
    → ((home_files.stat path).size ≡ length t) × (lacks 0 t ≡ true)
unfolding text_eq lacks
link_size_lem path t e = elim (Bool-cases (text_eq path (codes "../cdir/l"))) [
  | inl same ↦
      let named : path ≡ codes "../cdir/l" = (text_eq_iff path (codes "../cdir/l")).0 same in
      let read : some (codes "up") ≡ some t =
        sym (ap (λ (p : Text). home_files.readlink p) named) ∙ e in
      let text = some-injective (codes "up") t read in
      (ap (λ (p : Text). (home_files.stat p).size) named ∙ ap length text, ap (lacks 0) (sym text))
  | inr other ↦ absurd (none-ne-some t (sym (rw other refl) ∙ e))
]

pub home_files-IsConsistent : IsConsistent home_files
home_files-IsConsistent = record {
  content_size = content_size_lem;
  link_size = λ path t e. (link_size_lem path t e).0;
  link_text = λ path t e. (link_size_lem path t e).1;
}

abbrev pub online : System
online = connected server 5 server_disk home_files
