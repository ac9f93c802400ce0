-- ===== src/Watcher/Attrib.antt =====
-- A change of attributes in MP2/src/csiebox_client.c on a connection to the server of
-- MP2/src/csiebox_server.c.
use ntu_sp17fall.Base.{
  ℕ, ◌≡◌, refl, ap, Bool, true, false, List, [], ◌∷◌, ◌++◌, Option, none, some, ℤ, Text,
  if◌then◌else◌, Bool-cases, inl, inr, arith, map,
}
use ntu_sp17fall.Mirror.Protocol.{is_reg, no_hash, Request}
use ntu_sp17fall.Mirror.{Disk, Call, close, change_path, meta_calls}
use ntu_sp17fall.Mirror.Session.{Server, ClientInfo, set_client, get_user_homedir, handle_request}
use ntu_sp17fall.Mirror.Replay.{Handles, Handles-nil, Handles-one, Handles-append, Handles-all}
use ntu_sp17fall.Watcher.{System, Client, Entry, bind, meta_request, md5_file}
use ntu_sp17fall.Watcher.Events.{Event, get_dir_name, event_path, handle_event}
use ntu_sp17fall.Watcher.Mother.{refresh_where, requests_where, has_ino, on_attrib_lem}
use ntu_sp17fall.Watcher.Carried.{all_short, meta_handled}

-- The calls for the meta data of a path.
abbrev pub touch_calls : System → Disk → Text → Text → List Call
touch_calls sys disk home path =
    let stat = sys.stat path in
    meta_calls disk (change_path home path) stat
      (if is_reg stat.mode then md5_file sys path else no_hash)

unfoldable pub touch_all : System → Disk → Text → (Entry → Bool) → List Entry → List Call
touch_all sys disk home test [] = []
touch_all sys disk home test (p ∷ ps) =
    let rest = touch_all sys disk home test ps in
    if test p then touch_calls sys disk home p.name ++ rest else rest

abbrev pub changed : ℤ → Text → Event
changed wd name = record {
  wd = wd;
  name = name;
  attrib = true;
  modify = false;
  create = false;
  delete = false;
}

touched_handled :
    (sys : System) (s : Server) (fd : ℕ) (disk : Disk) (info : ClientInfo) (test : Entry → Bool)
    (es : List Entry)
    → s.client fd ≡ some info
    → all_short es ≡ true
    → Handles sys.md5 s fd disk
        (requests_where sys test es)
        (touch_all sys disk (get_user_homedir s info) test es)
unfolding requests_where touch_all all_short
touched_handled sys s fd disk info test [] known short = Handles-nil sys.md5 s fd disk
touched_handled sys s fd disk info test (p ∷ ps) known short =
    let home = get_user_homedir s info in
    let rest = touched_handled sys s fd disk info test ps known (ground arith) in
    elim (Bool-cases (test p)) [
      | inr other ↦ rw other rest
      | inl mine ↦
          let one =
            Handles-one sys.md5 s fd disk (meta_request sys p.name)
              (touch_calls sys disk home p.name)
              (meta_handled sys s fd disk info known p.name (ground arith)) in
          rw mine (
            Handles-append sys.md5 s fd disk (meta_request sys p.name ∷ [])
              (requests_where sys test ps) (touch_calls sys disk home p.name)
              (touch_all sys disk home test ps) one rest)
    ]

-- The attributes of a name below a directory that is watched change, on a client on whose connection a user
-- is logged in, and whose entries have names that fit. The event is handled without a fault: every
-- entry with the inode of the name, in use or not, is refreshed; and the server handles all that is sent,
-- and makes for each of these entries the calls for its meta data, and then closes where the connection
-- ends there.
pub handle_event-changed :
    (sys : System) (s : Server) (fd : ℕ) (disk : Disk) (info : ClientInfo) (c : Client) (wd : ℤ)
    (name : Text)
    → let tmp = sys.stat (event_path (get_dir_name c.watch_dir wd) name) in
      let home = get_user_homedir s info in
      s.client fd ≡ some info
      → all_short c.cdir_path ≡ true
      → (c' : Client) × (rs : List Request) × (handle_event sys (changed wd name) c ≡ some c')
        × (c'.cdir_path ≡ map (refresh_where sys (has_ino tmp)) c.cdir_path)
        × (c'.sent ≡ c.sent ++ rs)
        × (handle_request sys.md5 s fd (map (λ (req : Request). (req, disk)) rs)
            ≡ some (
              set_client s fd none,
              touch_all sys disk home (has_ino tmp) c.cdir_path ++ close fd ∷ [],
            ))
unfolding handle_event
handle_event-changed sys s fd disk info c wd name known short =
    let tmp = sys.stat (event_path (get_dir_name c.watch_dir wd) name) in
    let home = get_user_homedir s info in
    let rs = requests_where sys (has_ino tmp) c.cdir_path in
    (
      record c {
        cdir_path = map (refresh_where sys (has_ino tmp)) c.cdir_path;
        sent = c.sent ++ rs;
      },
      rs,
      ap (λ (o : Option Client). bind (bind (bind o (λ d. some d)) (λ d. some d)) (λ d. some d))
          (on_attrib_lem sys tmp c),
      refl,
      refl,
      Handles-all sys.md5 s fd disk rs (touch_all sys disk home (has_ino tmp) c.cdir_path)
          (touched_handled sys s fd disk info (has_ino tmp) c.cdir_path known short),
    )
