-- ===== src/Watcher.antt =====
-- MP2/src/csiebox_client.c: what the client of the earlier file synchronisation keeps and sends for one
-- path. Child modules have the first walk, the events of inotify and the whole run.
-- A step gives the new state, or `none` for a fault: a write behind the end of an array.
pub mod Walk
pub mod Events
pub mod Session
pub mod Steps
pub mod Sending
pub mod After
pub mod Tables
pub mod Longest
pub mod Mirrored
pub mod Carried
pub mod Handled
pub mod Copy
pub mod Mother
pub mod Live
pub mod Changes
pub mod Attrib
pub mod Online
use ntu_sp17fall.Base.{
  ℕ, ◌+◌, ◌-◌, Bool, true, false, ◌&&◌, List, [], ◌∷◌, ◌++◌, Option, none, some, ℤ, Text, codes,
  text_eq, if◌then◌else◌, ◌==◌, leb, ltb, length, get_elem?,
}
use ntu_sp17fall.Mirror.Protocol.{
  magic_req, magic_res, Header, Stat, is_dir, is_reg, is_link, Body, meta, file, hardlink, Request,
  no_hash, padded,
}

-- What the operating system answers: what `lstat` leaves in the struct, the content of a file that can be
-- opened, the text of a symbolic link, the watch of a path. `answer` is the header that the connection
-- gives behind a request, after the earlier ones, if `recv_message` gives one.
pub record System : Type 0 where
  pub stat : Text → Stat
  pub content : Text → Option Text
  pub readlink : Text → Option Text
  pub md5 : Text → Text
  pub watch : Text → ℤ
  pub answer : List Request → Request → Option Header

-- `struct allpath`
pub record Entry : Type 0 where
  pub name : Text
  pub info : Stat
  pub used : Bool

-- `struct watch`
pub record Watch : Type 0 where
  pub name : Text
  pub used : Bool
  pub wd : ℤ

-- `ptr` and `f_ptr` are the lengths of the two lists. `lpath` and `maxdepth` are those of the walk, and
-- `unwatched` are the watches given back.
pub record Client : Type 0 where
  pub client_id : ℕ
  pub cdir_path : List Entry
  pub watch_dir : List Watch
  pub lpath : Text
  pub maxdepth : ℕ
  pub sent : List Request
  pub unwatched : List ℤ

abbrev pub Step : Type 0
Step = Client → Option Client

abbrev pub bind : Option Client → Step → Option Client
bind none next = none
bind (some c) next = next c

infixl 20 ◌>>◌
abbrev pub ◌>>◌ : Step → Step → Step
(first >> next) c = bind (first c) next

abbrev pub request : ℕ → Body → Text → Request
request id body stream = record {
  magic = magic_req;
  client_id = id;
  body = body;
  complete = true;
  stream = stream;
}

abbrev pub send : Client → Request → Client
send c r = record c { sent = c.sent ++ r ∷ [] }

-- The first entry before `num` that is in use and has the inode.
unfoldable pub find_ino : List Entry → ℕ → ℕ → ℕ → Option ℕ
find_ino [] i num ino = none
find_ino (p ∷ ps) i num ino =
    let rest = find_ino ps (i + 1) num ino in
    if leb num i then none else if p.used && p.info.ino == ino then some i else rest

-- `none` is the result -1, also where there is no such entry.
unfoldable pub ishardlink : Client → ℕ → Option ℕ
unfolding find_ino
ishardlink c num = elim (get_elem? c.cdir_path num) [
  | none ↦ none
  | some p ↦
      if p.info.nlink == 1
      then none
      else if is_dir p.info.mode
      then none
      else find_ino c.cdir_path 0 num p.info.ino
]

unfoldable pub md5_file : System → Text → Text
md5_file sys path = elim (sys.content path) [ none ↦ no_hash | some t ↦ sys.md5 t ]

-- The number of the client is not filled in.
unfoldable pub meta_request : System → Text → Request
unfolding md5_file
meta_request sys path =
    let stat = sys.stat path in
    request 0 (meta (length path) stat (if is_reg stat.mode then md5_file sys path else no_hash))
      path

-- The result 0 of `syncmeta`. Where nothing was received the header is all zeros.
unfoldable pub is_ok : Option Header → Bool
is_ok none = false
is_ok (some h) = h.magic == magic_res && h.op == 1 && h.status == 0

-- `true` is the result 1.
unfoldable pub syncmeta : System → Text → Client → Bool × Client
unfolding meta_request is_ok
syncmeta sys path c =
    let req = meta_request sys path in
    (if is_ok (sys.answer c.sent req) then false else true, send c req)

-- The call whose result is not looked at.
abbrev pub tell : System → Text → Step
tell sys path c = some ((syncmeta sys path c).1)

-- The first `size` bytes of the buffer, which is full of zeros before.
unfoldable pub file_data : System → Entry → Text
unfolding padded
file_data sys p =
    let read = if is_reg p.info.mode then sys.content p.name else sys.readlink p.name in
    padded p.info.size (elim read [ none ↦ [] | some t ↦ t ])

-- The buffer has 5000 bytes. The length is that of a new `lstat`.
unfoldable pub syncfile_of : System → Entry → Step
unfolding file_data
syncfile_of sys p c =
    let stat = sys.stat p.name in
    if ltb 5000 p.info.size
    then none
    else some (
        send c
          (request c.client_id (file stat.size (length p.name) stat) (file_data sys p ++ p.name)))

unfoldable pub syncfile : System → ℕ → Step
unfolding syncfile_of
syncfile sys num c = elim (get_elem? c.cdir_path num) [ none ↦ none | some p ↦ syncfile_of sys p c ]

abbrev pub link_request : ℕ → Text → Text → Request
link_request id src target = request id (hardlink (length src) (length target)) (src ++ target)

unfoldable pub synchlink : ℕ → ℕ → Step
synchlink src target c = elim (get_elem? c.cdir_path src) [
  | none ↦ none
  | some p ↦ elim (get_elem? c.cdir_path target) [
    | none ↦ none
    | some q ↦ some (send c (link_request c.client_id p.name q.name))
  ]
]

-- Without a source for a hard link.
unfoldable pub sendnew : System → ℕ → Step
unfolding syncfile
sendnew sys i c = elim (get_elem? c.cdir_path i) [
  | none ↦ none
  | some p ↦
      if is_reg p.info.mode
      then syncfile sys i c
      else if is_link p.info.mode
      then syncfile sys i c
      else some c
]

unfoldable pub sendfile : System → ℕ → Step
unfolding ishardlink synchlink sendnew
sendfile sys i c = elim (ishardlink c i) [ none ↦ sendnew sys i c | some src ↦ synchlink src i c ]

-- `struct allpath cdir_path[305]`, `struct watch watch_dir[305]`
abbrev pub capacity : ℕ
capacity = 305

-- The array has place for one more, and the name with its null byte fits in 300 bytes.
abbrev pub has_room : ℕ → Text → Bool
has_room used name = ltb used capacity && ltb (length name) 300

unfoldable pub push_back_to_array : System → Text → Step
push_back_to_array sys path c =
    if has_room (length c.cdir_path) path
    then some (record c {
      cdir_path = c.cdir_path ++ record { name = path; info = sys.stat path; used = true } ∷ [];
    })
    else none

unfoldable pub add_to_inotify : System → Text → Step
add_to_inotify sys path c =
    if has_room (length c.watch_dir) path
    then some (record c {
      watch_dir = c.watch_dir ++ record { name = path; used = true; wd = sys.watch path } ∷ [];
    })
    else none
