-- ===== src/Tests/Watcher/Events.antt =====
-- Tests of the events of Watcher.antt with Mirror.antt.
use ntu_sp17fall.Base.{List, ◌≡◌, refl, [], ◌∷◌, ◌++◌, none, some, codes, text_eq, pos, map}
use ntu_sp17fall.Mirror.Protocol.{Request}
use ntu_sp17fall.Mirror.{close, send, meta_answer, mkdir, chmod, utimes, change_path, meta_calls}
use ntu_sp17fall.Mirror.Session.{set_client, get_user_homedir, handle_request}
use ntu_sp17fall.Watcher.{Client}
use ntu_sp17fall.Watcher.Session.{new_client}
use ntu_sp17fall.Watcher.Sending.{entry_of, watch_of}
use ntu_sp17fall.Watcher.Mirrored.{mirror_file}
use ntu_sp17fall.Watcher.Events.{
  get_dir_name, event_path, drop_entry, drop_watch, watches_of, handle_event,
}
use ntu_sp17fall.Watcher.Mother.{refresh_if, refresh_where, has_ino}
use ntu_sp17fall.Watcher.Live.{mirror_mother, mirror_removal}
use ntu_sp17fall.Watcher.Changes.{created, deleted, handle_event-created, handle_event-deleted}
use ntu_sp17fall.Watcher.Carried.{all_short}
use ntu_sp17fall.Watcher.Attrib.{touch_all, changed, handle_event-changed}
use ntu_sp17fall.Tests.Watcher.{
  dir_stat, home_files, user_info, server, server_disk, online, home_files-IsConsistent,
}

-- The client behind a walk of its empty directory.
abbrev watching : Client
watching = record new_client {
  cdir_path = entry_of online (codes "../cdir") ∷ [];
  watch_dir = watch_of online (codes "../cdir") ∷ [];
}

handle_event-created_example :
    let path = codes "../cdir/a" in
    let es = watching.cdir_path ++ entry_of online path ∷ [] in
    (c' : Client) × (rs : List Request) × (handle_event online
        (created (pos 7) (codes "a"))
        watching
      ≡ some c')
    × (c'.cdir_path ≡ map (refresh_if online (codes "../cdir")) es)
    × (c'.sent ≡ watching.sent ++ rs)
    × (handle_request home_files.md5 server 5 (map (λ (req : Request). (req, server_disk)) rs)
        ≡ some (
          set_client server 5 none,
          (mirror_file online server_disk (codes "../sdir/u") watching.cdir_path path
                ++ mirror_mother online (codes "../sdir/u") (codes "../cdir") es)
              ++ close 5 ∷ [],
        ))
unfolding get_dir_name event_path text_eq get_user_homedir all_short
handle_event-created_example =
    handle_event-created home_files server 5 server_disk user_info watching (pos 7) (codes "a") refl
      home_files-IsConsistent refl refl refl refl refl refl refl

handle_event-deleted_example :
    let path = codes "../cdir/a" in
    let es = map (drop_entry path) watching.cdir_path in
    (c' : Client) × (rs : List Request) × (handle_event online
        (deleted (pos 7) (codes "a"))
        watching
      ≡ some c')
    × (c'.cdir_path ≡ map (refresh_if online (codes "../cdir")) es)
    × (c'.watch_dir ≡ map (drop_watch path) watching.watch_dir)
    × (c'.unwatched ≡ watching.unwatched ++ watches_of path watching.watch_dir)
    × (c'.sent ≡ watching.sent ++ rs)
    × (handle_request home_files.md5 server 5 (map (λ (req : Request). (req, server_disk)) rs)
        ≡ some (
          set_client server 5 none,
          (mirror_removal server_disk (codes "../sdir/u") path
                ++ mirror_mother online (codes "../sdir/u") (codes "../cdir") es)
              ++ close 5 ∷ [],
        ))
unfolding get_dir_name event_path text_eq get_user_homedir
handle_event-deleted_example =
    handle_event-deleted home_files server 5 server_disk user_info watching (pos 7) (codes "a") refl
      home_files-IsConsistent refl refl refl refl

-- The attributes of the directory itself.
handle_event-changed_example :
    (c' : Client) × (rs : List Request) × (handle_event home_files (changed (pos 7) []) watching
      ≡ some c')
    × (c'.cdir_path ≡ map (refresh_where home_files (has_ino dir_stat)) watching.cdir_path)
    × (c'.sent ≡ watching.sent ++ rs)
    × (handle_request home_files.md5 server 5 (map (λ (req : Request). (req, server_disk)) rs)
        ≡ some (
          set_client server 5 none,
          mkdir (codes "../sdir/u/") 16877
              ∷ chmod (codes "../sdir/u/") 16877
              ∷ utimes (codes "../sdir/u/") 10 20
              ∷ send (meta_answer 0)
              ∷ close 5
              ∷ [],
        ))
unfolding get_dir_name event_path text_eq get_user_homedir all_short touch_all change_path
    meta_calls
handle_event-changed_example =
    handle_event-changed home_files server 5 server_disk user_info watching (pos 7) [] refl refl
