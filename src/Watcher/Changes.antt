-- ===== src/Watcher/Changes.antt =====
-- Single events of MP2/src/csiebox_client.c on a connection to the server of MP2/src/csiebox_server.c.
use ntu_sp17fall.Base.{
  ℕ, ◌≡◌, refl, ap, ◌∙◌, true, false, List, [], ◌∷◌, ◌++◌, Option, none, some, ℤ, Text,
  if◌then◌else◌, leb, length, append_assoc, arith, map,
}
use ntu_sp17fall.Mirror.Protocol.{is_dir, Request, rm}
use ntu_sp17fall.Mirror.{Disk, close}
use ntu_sp17fall.Mirror.Session.{Server, ClientInfo, set_client, get_user_homedir, handle_request}
use ntu_sp17fall.Mirror.Replay.{Handles-append, Handles-all}
use ntu_sp17fall.Watcher.{System, Client, bind, request, has_room, meta_request, is_ok}
use ntu_sp17fall.Watcher.Events.{
  Event, get_dir_name, event_path, drop_entry, drop_watch, watches_of, go_rm, on_delete,
  handle_event,
}
use ntu_sp17fall.Watcher.Sending.{entry_of, more_requests}
use ntu_sp17fall.Watcher.Mother.{refresh_if, mother_requests, update_mother_lem}
use ntu_sp17fall.Watcher.Mirrored.{connected, IsConsistent, mirror_file}
use ntu_sp17fall.Watcher.Carried.{is_short, all_short}
use ntu_sp17fall.Watcher.Handled.{file_lem}
use ntu_sp17fall.Watcher.Live.{
  mirror_mother, mirror_removal, mother_handled, removal_handled, on_create_lem,
}

-- An event with one bit.
abbrev pub created : ℤ → Text → Event
created wd name = record {
  wd = wd;
  name = name;
  attrib = false;
  modify = false;
  create = true;
  delete = false;
}

abbrev pub deleted : ℤ → Text → Event
deleted wd name = record {
  wd = wd;
  name = name;
  attrib = false;
  modify = false;
  create = false;
  delete = true;
}

module _ (sys : System) (s : Server) (fd : ℕ) (disk : Disk) (info : ClientInfo) (c : Client)
    (wd : ℤ) (name : Text) where
  -- A file is made below a directory that is watched, on a client connected to the server on which it is
  -- logged in, with room for it in the arrays and buffers of both. Its event is handled without a fault:
  -- the entries are then the old ones and that of the file, those of the directory refreshed; and the
  -- server handles all that is sent with exactly the calls that mirror the file, and then the directory as
  -- often as it is among the entries, and the close where the connection ends there.
  pub handle_event-created :
      let sys' = connected s fd disk sys in
      let home = get_user_homedir s info in
      let dirname = get_dir_name c.watch_dir wd in
      let path = event_path dirname name in
      let es = c.cdir_path ++ entry_of sys' path ∷ [] in
      s.client fd ≡ some info
      → IsConsistent sys
      → leb 400 (length home) ≡ false
      → is_dir (sys.stat path).mode ≡ false
      → is_dir (sys.stat dirname).mode ≡ true
      → leb (sys.stat path).size 5000 ≡ true
      → has_room (length c.cdir_path) path ≡ true
      → is_short dirname ≡ true
      → all_short c.cdir_path ≡ true
      → (c' : Client) × (rs : List Request) × (handle_event sys' (created wd name) c ≡ some c')
        × (c'.cdir_path ≡ map (refresh_if sys' dirname) es)
        × (c'.sent ≡ c.sent ++ rs)
        × (handle_request sys.md5 s fd (map (λ (req : Request). (req, disk)) rs)
            ≡ some (
              set_client s fd none,
              (mirror_file sys' disk home c.cdir_path path ++ mirror_mother sys' home dirname es)
                  ++ close fd ∷ [],
            ))
  unfolding handle_event
  handle_event-created known ok room no_dir dir small place short shorts =
      let sys' = connected s fd disk sys in
      let home = get_user_homedir s info in
      let dirname = get_dir_name c.watch_dir wd in
      let path = event_path dirname name in
      let es = c.cdir_path ++ entry_of sys' path ∷ [] in
      let ok' : IsConsistent sys' = record {
        content_size = ok.content_size;
        link_size = ok.link_size;
        link_text = ok.link_text;
      } in
      let req = meta_request sys' path in
      let more : List Request =
        if is_ok (sys'.answer c.sent req)
        then []
        else more_requests sys' c.client_id c.cdir_path path in
      let rest = mother_requests sys' dirname es in
      let short' : is_short path ≡ true = ground arith in
      let handled =
        Handles-append sys.md5 s fd disk (req ∷ more) rest
          (mirror_file sys' disk home c.cdir_path path) (mirror_mother sys' home dirname es)
          (file_lem sys' s fd disk info known ok' room (λ rs. Unit) (λ rs more work good. tt)
            (λ earlier r good. refl) c.client_id c.sent c.cdir_path path tt shorts short' small
            no_dir)
          (mother_handled sys' s fd disk info known dirname es short dir) in
      (
        record c {
          cdir_path = map (refresh_if sys' dirname) es;
          sent = ((c.sent ++ req ∷ []) ++ more) ++ rest;
        },
        (req ∷ more) ++ rest,
        ap (λ (o : Option Client). bind o (λ d. some d))
            (on_create_lem sys' dirname path c no_dir small place),
        refl,
        append_assoc (c.sent ++ req ∷ []) more rest ∙ append_assoc c.sent (req ∷ []) (more ++ rest),
        Handles-all sys.md5 s fd disk ((req ∷ more) ++ rest)
            (mirror_file sys' disk home c.cdir_path path ++ mirror_mother sys' home dirname es)
            handled,
      )

  -- A name is removed below a directory that is watched, on such a client. Its event is handled without a
  -- fault: the entries and the watches of the path are then out of use, those of the directory refreshed,
  -- and the watches of the path are given back; and the server removes the path, and then mirrors the
  -- directory as often as it is among the entries, and closes where the connection ends there.
  pub handle_event-deleted :
      let sys' = connected s fd disk sys in
      let home = get_user_homedir s info in
      let dirname = get_dir_name c.watch_dir wd in
      let path = event_path dirname name in
      let es = map (drop_entry path) c.cdir_path in
      s.client fd ≡ some info
      → IsConsistent sys
      → leb 400 (length home) ≡ false
      → is_dir (sys.stat dirname).mode ≡ true
      → is_short dirname ≡ true
      → is_short path ≡ true
      → (c' : Client) × (rs : List Request) × (handle_event sys' (deleted wd name) c ≡ some c')
        × (c'.cdir_path ≡ map (refresh_if sys' dirname) es)
        × (c'.watch_dir ≡ map (drop_watch path) c.watch_dir)
        × (c'.unwatched ≡ c.unwatched ++ watches_of path c.watch_dir)
        × (c'.sent ≡ c.sent ++ rs)
        × (handle_request sys.md5 s fd (map (λ (req : Request). (req, disk)) rs)
            ≡ some (
              set_client s fd none,
              (mirror_removal disk home path ++ mirror_mother sys' home dirname es)
                  ++ close fd ∷ [],
            ))
  unfolding handle_event on_delete go_rm
  handle_event-deleted known ok room dir short short' =
      let sys' = connected s fd disk sys in
      let home = get_user_homedir s info in
      let dirname = get_dir_name c.watch_dir wd in
      let path = event_path dirname name in
      let es = map (drop_entry path) c.cdir_path in
      let ok' : IsConsistent sys' = record {
        content_size = ok.content_size;
        link_size = ok.link_size;
        link_text = ok.link_text;
      } in
      let req = request c.client_id (rm (length path)) path in
      let rest = mother_requests sys' dirname es in
      let handled =
        Handles-append sys.md5 s fd disk (req ∷ []) rest (mirror_removal disk home path)
          (mirror_mother sys' home dirname es)
          (removal_handled sys' s fd disk info known c.client_id path short')
          (mother_handled sys' s fd disk info known dirname es short dir) in
      (
        record c {
          cdir_path = map (refresh_if sys' dirname) es;
          watch_dir = map (drop_watch path) c.watch_dir;
          unwatched = c.unwatched ++ watches_of path c.watch_dir;
          sent = (c.sent ++ req ∷ []) ++ rest;
        },
        req ∷ rest,
        update_mother_lem sys' dirname (go_rm path c),
        refl,
        refl,
        refl,
        append_assoc c.sent (req ∷ []) rest,
        Handles-all sys.md5 s fd disk (req ∷ rest)
            (mirror_removal disk home path ++ mirror_mother sys' home dirname es) handled,
      )
