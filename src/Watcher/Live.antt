-- ===== src/Watcher/Live.antt =====
-- The events of MP2/src/csiebox_client.c on a connection to the server of MP2/src/csiebox_server.c.
use ntu_sp17fall.Base.{
  ℕ, ◌≡◌, refl, ap, sym, ◌∙◌, true, false, List, [], ◌∷◌, ◌++◌, Option, some, Text, text_eq,
  text_eq_iff, if◌then◌else◌, Bool-cases, inl, inr, leb, length, arith, map, subst,
}
use ntu_sp17fall.Mirror.Protocol.{is_dir, rm}
use ntu_sp17fall.Mirror.{Disk, Call, rmdir, unlink, change_path}
use ntu_sp17fall.Mirror.Session.{Server, ClientInfo, get_user_homedir}
use ntu_sp17fall.Mirror.Guard.{handle_one_lem, rm_served}
use ntu_sp17fall.Mirror.Replay.{Handles, Handles-nil, Handles-one, Handles-append}
use ntu_sp17fall.Watcher.{
  System, Client, Entry, Step, bind, request, has_room, meta_request, is_ok, syncmeta,
  push_back_to_array, add_to_inotify,
}
use ntu_sp17fall.Watcher.Walk.{send_if}
use ntu_sp17fall.Watcher.Events.{update_mother, on_create}
use ntu_sp17fall.Watcher.Sending.{entry_of, more_requests}
use ntu_sp17fall.Watcher.After.{sync_lem}
use ntu_sp17fall.Watcher.Mother.{refresh_if, mother_requests, requests_where, update_mother_lem}
use ntu_sp17fall.Watcher.Mirrored.{mirror_folder}
use ntu_sp17fall.Watcher.Carried.{is_short}
use ntu_sp17fall.Watcher.Handled.{folder_handled}

-- The directory of an event, as often as it is among the entries.
unfoldable pub mirror_mother : System → Text → Text → List Entry → List Call
mirror_mother sys home dirname [] = []
mirror_mother sys home dirname (p ∷ ps) =
    let rest = mirror_mother sys home dirname ps in
    if text_eq dirname p.name then mirror_folder sys home p.name ++ rest else rest

-- What the server does for a path that is gone.
unfoldable pub mirror_removal : Disk → Text → Text → List Call
mirror_removal disk home path =
    let place = change_path home path in
    (if is_dir (disk.stat place).mode then rmdir place else unlink place) ∷ []

module _ (sys : System) (s : Server) (fd : ℕ) (disk : Disk) (info : ClientInfo)
    (known : s.client fd ≡ some info) where
  pub mother_handled :
      (dirname : Text) (es : List Entry)
      → is_short dirname ≡ true
      → is_dir (sys.stat dirname).mode ≡ true
      → Handles sys.md5 s fd disk
          (mother_requests sys dirname es)
          (mirror_mother sys (get_user_homedir s info) dirname es)
  unfolding requests_where mirror_mother
  mother_handled dirname [] short dir = Handles-nil sys.md5 s fd disk
  mother_handled dirname (p ∷ ps) short dir =
      let rest = mother_handled dirname ps short dir in
      elim (Bool-cases (text_eq dirname p.name)) [
        | inr other ↦ rw other rest
        | inl mine ↦
            let name : dirname ≡ p.name = (text_eq_iff dirname p.name).0 mine in
            let one =
              subst
                (λ t.
                  Handles sys.md5 s fd disk (meta_request sys t ∷ [])
                    (mirror_folder sys (get_user_homedir s info) t))
                name (folder_handled sys s fd disk info known dirname short dir) in
            rw mine (
              Handles-append sys.md5 s fd disk (meta_request sys p.name ∷ [])
                (mother_requests sys dirname ps)
                (mirror_folder sys (get_user_homedir s info) p.name)
                (mirror_mother sys (get_user_homedir s info) dirname ps) one rest)
      ]

  pub removal_handled :
      (id : ℕ) (path : Text)
      → is_short path ≡ true
      → Handles sys.md5 s fd disk
          (request id (rm (length path)) path ∷ [])
          (mirror_removal disk (get_user_homedir s info) path)
  unfolding mirror_removal
  removal_handled id path short =
      let req = request id (rm (length path)) path in
      Handles-one sys.md5 s fd disk req (mirror_removal disk (get_user_homedir s info) path) (
        handle_one_lem sys.md5 s fd disk req refl refl
        ∙ rm_served sys.md5 s fd disk info path known (ground arith))

-- A new name that is no directory.
pub on_create_lem :
    (sys : System) (dirname path : Text) (c : Client)
    → is_dir (sys.stat path).mode ≡ false
    → leb (sys.stat path).size 5000 ≡ true
    → has_room (length c.cdir_path) path ≡ true
    → let req = meta_request sys path in
      let es = c.cdir_path ++ entry_of sys path ∷ [] in
      on_create sys dirname path (sys.stat path) c
      ≡ some (record c {
        cdir_path = map (refresh_if sys dirname) es;
        sent =
            ((c.sent ++ req ∷ [])
              ++ (if is_ok (sys.answer c.sent req)
                  then []
                  else more_requests sys c.client_id c.cdir_path path))
            ++ mother_requests sys dirname es;
      })
unfolding on_create
on_create_lem sys dirname path c no_dir small place =
    let c1 : Client = record c { cdir_path = c.cdir_path ++ entry_of sys path ∷ [] } in
    let watch : Step =
      λ d. if is_dir (sys.stat path).mode then add_to_inotify sys path d else some d in
    let sync : Step = λ d. send_if sys (syncmeta sys path d) in
    let mother : Step = update_mother sys dirname in
    let pushed : push_back_to_array sys path c ≡ some c1 =
      unfold push_back_to_array in rw (push_back_to_array, place) refl in
    let unwatched : watch c1 ≡ some c1 = rw no_dir refl in
    let sent = sync_lem sys path c no_dir small place in
    ap (λ (o : Option Client). bind (bind (bind o watch) sync) mother) pushed
    ∙ ap (λ (o : Option Client). bind (bind o sync) mother) unwatched
    ∙ ap (λ (o : Option Client). bind o mother)
        (sym (ap (λ (o : Option Client). bind o sync) pushed) ∙ sent)
    ∙ update_mother_lem sys dirname _
