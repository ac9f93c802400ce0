-- ===== src/Mirror/Guard.antt =====
-- The requests of a connection of MP2/src/csiebox_server.c: before the login and behind it.
use ntu_sp17fall.Base.{
  if◌then◌else◌, ◌∷◌, [], ℕ, ◌≡◌, refl, Bool, true, false, List, ◌++◌, Option, none, some, Text,
  ◌==◌, leb, ltb, length, arith,
}
use ntu_sp17fall.Mirror.Protocol.{
  is_dir, magic_req, Stat, Body, login, meta, file, hardlink, rm, sync_end, unknown, Request,
}
use ntu_sp17fall.Mirror.{
  rmdir, unlink, Disk, Call, change_path, meta_calls, get_client_meta, file_calls, get_client_file,
  link_calls, get_client_hlink, handle_remove,
}
use ntu_sp17fall.Mirror.Session.{
  Server, ClientInfo, get_user_homedir, in_home, handle_body, handle_one,
}
use ntu_sp17fall.Mirror.Paths.{take_whole, take_front, drop_front, padded_front}

-- The requests that work on the files of a user.
unfoldable pub needs_home : Body → Bool
needs_home (login user hash) = false
needs_home (meta pathlen stat hash) = true
needs_home (file datalen pathlen stat) = true
needs_home (hardlink srclen targetlen) = true
needs_home sync_end = false
needs_home (rm pathlen) = true
needs_home (unknown op) = false

in_home-nobody :
    (s : Server) (fd : ℕ)
    → s.client fd ≡ none
    → (handler : Text → Option (List Call)) → in_home s fd handler ≡ none
unfolding in_home
in_home-nobody s fd nobody handler = rw (in_home, nobody) refl

in_home-known :
    (s : Server) (fd : ℕ) (info : ClientInfo) (calls : List Call)
    → s.client fd ≡ some info
    → (handler : Text → Option (List Call)) → handler (get_user_homedir s info) ≡ some calls
    → in_home s fd handler ≡ some (s, calls)
unfolding in_home
in_home-known s fd info calls known handler e = rw (in_home, known, e) refl

handle_body-before_login :
    (md5 : Text → Text) (s : Server) (fd : ℕ) (disk : Disk) (stream : Text) (body : Body)
    → s.client fd ≡ none
    → needs_home body ≡ true
    → handle_body md5 s fd disk stream body ≡ none
unfolding handle_body needs_home
handle_body-before_login md5 s fd disk stream (login user hash) nobody home = ground arith
handle_body-before_login md5 s fd disk stream (meta pathlen stat hash) nobody home =
    in_home-nobody s fd nobody (λ h. get_client_meta disk h pathlen stat hash stream)
handle_body-before_login md5 s fd disk stream (file datalen pathlen stat) nobody home =
    in_home-nobody s fd nobody (λ h. get_client_file disk h datalen pathlen stat stream)
handle_body-before_login md5 s fd disk stream (hardlink srclen targetlen) nobody home =
    in_home-nobody s fd nobody (λ h. get_client_hlink disk h srclen targetlen stream)
handle_body-before_login md5 s fd disk stream sync_end nobody home = ground arith
handle_body-before_login md5 s fd disk stream (rm pathlen) nobody home =
    in_home-nobody s fd nobody (λ h. handle_remove disk h pathlen stream)
handle_body-before_login md5 s fd disk stream (unknown op) nobody home = ground arith

-- A complete request on files, on a connection that did not log in, reads through the null pointer.
pub handle_one-before_login :
    (md5 : Text → Text) (s : Server) (fd : ℕ) (disk : Disk) (req : Request)
    → s.client fd ≡ none
    → (req.magic == magic_req) ≡ true
    → req.complete ≡ true
    → needs_home req.body ≡ true
    → handle_one md5 s fd disk req ≡ none
unfolding handle_one
handle_one-before_login md5 s fd disk req nobody magic complete home =
    rw (magic, complete) (handle_body-before_login md5 s fd disk req.stream req.body nobody home)

-- A request with the magic number whose body is complete.
pub handle_one_lem :
    (md5 : Text → Text) (s : Server) (fd : ℕ) (disk : Disk) (req : Request)
    → (req.magic == magic_req) ≡ true
    → req.complete ≡ true
    → handle_one md5 s fd disk req ≡ handle_body md5 s fd disk req.stream req.body
unfolding handle_one
handle_one_lem md5 s fd disk req magic complete = rw (magic, complete) refl

pub meta_served :
    (md5 : Text → Text) (s : Server) (fd : ℕ) (disk : Disk) (info : ClientInfo) (path : Text)
    (stat : Stat) (hash : Text)
    → s.client fd ≡ some info
    → leb 400 (length path) ≡ false
    → handle_body md5 s fd disk path (meta (length path) stat hash)
      ≡ some (s, meta_calls disk (change_path (get_user_homedir s info) path) stat hash)
unfolding handle_body get_client_meta
meta_served md5 s fd disk info path stat hash known short =
    let home = get_user_homedir s info in
    in_home-known s fd info (meta_calls disk (change_path home path) stat hash) known
      (λ h. get_client_meta disk h (length path) stat hash path)
      (rw (short, take_whole path (length path) refl) refl)

pub file_served :
    (md5 : Text → Text) (s : Server) (fd : ℕ) (disk : Disk) (info : ClientInfo)
    (path content : Text) (stat : Stat) (n : ℕ)
    → s.client fd ≡ some info
    → leb 400 (length path) ≡ false
    → ltb 5000 n ≡ false
    → n ≡ length content
    → handle_body md5 s fd disk (content ++ path) (file n (length path) stat)
      ≡ some (s, file_calls disk (change_path (get_user_homedir s info) path) stat content)
unfolding handle_body get_client_file
file_served md5 s fd disk info path content stat n known short small e =
    let home = get_user_homedir s info in
    in_home-known s fd info (file_calls disk (change_path home path) stat content) known
      (λ h. get_client_file disk h n (length path) stat (content ++ path))
      (rw
        (
          get_client_file,
          small,
          short,
          drop_front content path n e,
          take_whole path (length path) refl,
          padded_front content path n e,
        )
        refl)

pub link_served :
    (md5 : Text → Text) (s : Server) (fd : ℕ) (disk : Disk) (info : ClientInfo) (src target : Text)
    → let home = get_user_homedir s info in
      s.client fd ≡ some info
      → leb 400 (length src) ≡ false
      → leb 400 (length target) ≡ false
      → leb 400 (length home) ≡ false
      → handle_body md5 s fd disk (src ++ target) (hardlink (length src) (length target))
        ≡ some (s, link_calls disk (change_path home src) (change_path home target))
unfolding handle_body get_client_hlink
link_served md5 s fd disk info src target known short short' short'' =
    let home = get_user_homedir s info in
    in_home-known s fd info (link_calls disk (change_path home src) (change_path home target)) known
      (λ h. get_client_hlink disk h (length src) (length target) (src ++ target))
      (rw
        (
          get_client_hlink,
          short,
          short',
          short'',
          take_front src target (length src) refl,
          drop_front src target (length src) refl,
          take_whole target (length target) refl,
        )
        refl)

pub rm_served :
    (md5 : Text → Text) (s : Server) (fd : ℕ) (disk : Disk) (info : ClientInfo) (path : Text)
    → let place = change_path (get_user_homedir s info) path in
      s.client fd ≡ some info
      → leb 400 (length path) ≡ false
      → handle_body md5 s fd disk path (rm (length path))
        ≡ some (s, (if is_dir (disk.stat place).mode then rmdir place else unlink place) ∷ [])
unfolding handle_body handle_remove
rm_served md5 s fd disk info path known short =
    let home = get_user_homedir s info in
    let place = change_path home path in
    in_home-known s fd info
      ((if is_dir (disk.stat place).mode then rmdir place else unlink place) ∷ []) known
      (λ h. handle_remove disk h (length path) path)
      (rw (handle_remove, short, take_whole path (length path) refl) refl)
