-- ===== src/Watcher/Carried.antt =====
-- The requests of MP2/src/csiebox_client.c for one path, handled by MP2/src/csiebox_server.c.
use mathlib.Core.Option.{some-injective}
use ntu_sp17fall.Base.{
  ℕ, ◌≡◌, refl, ap, sym, ◌∙◌, Bool, true, false, ◌&&◌, ◌||◌, List, [], ◌∷◌, ◌++◌, none, some, Text,
  if◌then◌else◌, ◌==◌, Bool-cases, Option-cases, inl, inr, subst, leb, ltb, length, arith,
}
use ntu_sp17fall.Mirror.Protocol.{is_reg, is_link, padded, c_string, no_hash}
use ntu_sp17fall.Mirror.{Disk, Call, change_path, meta_calls, file_calls, link_calls}
use ntu_sp17fall.Mirror.Session.{Server, ClientInfo, get_user_homedir, handle_one}
use ntu_sp17fall.Mirror.Paths.{
  padded_whole, padded_nil, length-padded, c_string_lem, c_string-zeros,
}
use ntu_sp17fall.Mirror.Guard.{handle_one_lem, meta_served, file_served, link_served}
use ntu_sp17fall.Mirror.Replay.{Handles, Handles-nil, Handles-one}
use ntu_sp17fall.Watcher.{System, Entry, link_request, meta_request, md5_file, file_data}
use ntu_sp17fall.Watcher.Sending.{entry_of, first_same, file_request, more_requests}
use ntu_sp17fall.Watcher.Mirrored.{IsConsistent, copied, copied_link, mirror_new, mirror_copy}

abbrev pub is_short : Text → Bool
is_short path = ltb (length path) 300

length-data :
    (sys : System) (path : Text) → (sys.stat path).size ≡ length (file_data sys (entry_of sys path))
unfolding file_data
length-data sys path =
    let stat = sys.stat path in
    elim (Bool-cases (is_reg stat.mode)) [
      | inl reg ↦
          length-padded stat.size (elim (sys.content path) [ none ↦ [] | some t ↦ t ]) ∙ rw reg refl
      | inr other ↦
          length-padded stat.size (elim (sys.readlink path) [ none ↦ [] | some t ↦ t ])
          ∙ rw other refl
    ]

file_data-reg :
    (sys : System) (path : Text)
    → IsConsistent sys
    → is_reg (sys.stat path).mode ≡ true
    → file_data sys (entry_of sys path) ≡ copied sys path
unfolding file_data copied padded
file_data-reg sys path ok reg = elim (Option-cases (sys.content path)) [
  | inl closed ↦ rw (reg, copied, closed) (padded_nil (sys.stat path).size)
  | inr (t, opened) ↦
      rw (reg, copied, opened) (padded_whole t (sys.stat path).size (ok.content_size path t opened))
]

file_data-link :
    (sys : System) (path : Text)
    → IsConsistent sys
    → is_reg (sys.stat path).mode ≡ false
    → c_string (file_data sys (entry_of sys path)) ≡ copied_link sys path
unfolding file_data copied_link padded
file_data-link sys path ok other = elim (Option-cases (sys.readlink path)) [
  | inl failed ↦
      rw (other, copied_link, failed)
        (ap c_string (padded_nil (sys.stat path).size) ∙ c_string-zeros (sys.stat path).size)
  | inr (t, read) ↦
      rw (other, copied_link, read)
        (ap c_string (padded_whole t (sys.stat path).size (ok.link_size path t read))
          ∙ c_string_lem t (ok.link_text path t read))
]

module _ (sys : System) (s : Server) (fd : ℕ) (disk : Disk) (info : ClientInfo)
    (known : s.client fd ≡ some info) where
  pub meta_handled :
      (path : Text)
      → is_short path ≡ true
      → handle_one sys.md5 s fd disk (meta_request sys path)
        ≡ some (
          s,
          meta_calls disk
              (change_path (get_user_homedir s info) path)
              (sys.stat path)
              (if is_reg (sys.stat path).mode then md5_file sys path else no_hash),
        )
  unfolding meta_request
  meta_handled path short =
      handle_one_lem sys.md5 s fd disk (meta_request sys path) refl refl
      ∙ meta_served sys.md5 s fd disk info path (sys.stat path)
          (if is_reg (sys.stat path).mode then md5_file sys path else no_hash) known (ground arith)

  link_handled :
      (id : ℕ) (src path : Text)
      → is_short src ≡ true
      → is_short path ≡ true
      → leb 400 (length (get_user_homedir s info)) ≡ false
      → handle_one sys.md5 s fd disk (link_request id src path)
        ≡ some (
          s,
          link_calls disk
              (change_path (get_user_homedir s info) src)
              (change_path (get_user_homedir s info) path),
        )
  link_handled id src path short short' room =
      handle_one_lem sys.md5 s fd disk (link_request id src path) refl refl
      ∙ link_served sys.md5 s fd disk info src path known (ground arith) (ground arith) room

  file_handled :
      (id : ℕ) (path : Text)
      → is_short path ≡ true
      → leb (sys.stat path).size 5000 ≡ true
      → handle_one sys.md5 s fd disk (file_request sys id path)
        ≡ some (
          s,
          file_calls disk
              (change_path (get_user_homedir s info) path)
              (sys.stat path)
              (file_data sys (entry_of sys path)),
        )
  unfolding file_request
  file_handled id path short small =
      handle_one_lem sys.md5 s fd disk (file_request sys id path) refl refl
      ∙ file_served sys.md5 s fd disk info path (file_data sys (entry_of sys path)) (sys.stat path)
          (sys.stat path).size known (ground arith) (ground arith) (length-data sys path)

unfoldable pub all_short : List Entry → Bool
all_short [] = true
all_short (p ∷ ps) = is_short p.name && all_short ps

pub all_short-snoc :
    (ps : List Entry) (p : Entry)
    → all_short ps ≡ true
    → is_short p.name ≡ true
    → all_short (ps ++ p ∷ []) ≡ true
unfolding all_short
all_short-snoc [] p short short' = ground arith
all_short-snoc (q ∷ ps) p short short' = let tail = all_short-snoc ps p in ground arith

first_same-short :
    (ino : ℕ) (ps : List Entry) (src : Text)
    → all_short ps ≡ true
    → first_same ino ps ≡ some src
    → is_short src ≡ true
unfolding all_short first_same
first_same-short ino [] src short e = ground arith
first_same-short ino (p ∷ ps) src short e = elim (Bool-cases (p.used && p.info.ino == ino)) [
  | inl same ↦
      let form : first_same ino (p ∷ ps) ≡ some p.name = rw same refl in
      let named : some p.name ≡ some src = sym form ∙ e in
      let first : is_short p.name ≡ true = ground arith in
      subst (λ t. is_short t ≡ true) (some-injective p.name src named) first
  | inr other ↦
      let form : first_same ino (p ∷ ps) ≡ first_same ino ps = rw other refl in
      first_same-short ino ps src (ground arith) (sym form ∙ e)
]

module _ (sys : System) (s : Server) (fd : ℕ) (disk : Disk) (info : ClientInfo)
    (known : s.client fd ≡ some info) (ok : IsConsistent sys)
    (room : leb 400 (length (get_user_homedir s info)) ≡ false) where
  new_handled :
      (id : ℕ) (path : Text)
      → is_short path ≡ true
      → leb (sys.stat path).size 5000 ≡ true
      → Handles sys.md5 s fd disk
          (if is_reg (sys.stat path).mode || is_link (sys.stat path).mode
            then file_request sys id path ∷ []
            else [])
          (mirror_new sys disk (get_user_homedir s info) path)
  unfolding mirror_new
  new_handled id path short small =
      let stat = sys.stat path in
      let one = file_handled sys s fd disk info known id path short small in
      let sent : (calls : List Call)
          → file_calls disk (change_path (get_user_homedir s info) path) stat
              (file_data sys (entry_of sys path))
            ≡ calls
          → Handles sys.md5 s fd disk (file_request sys id path ∷ []) calls =
        λ calls same.
          Handles-one sys.md5 s fd disk (file_request sys id path) calls
            (one ∙ ap (λ (cs : List Call). some (s, cs)) same) in
      elim (Bool-cases (is_reg stat.mode)) [
        | inl reg ↦
            rw reg (sent _ (unfold file_calls in rw (reg, file_data-reg sys path ok reg) refl))
        | inr other ↦ elim (Bool-cases (is_link stat.mode)) [
          | inl link ↦
              rw (other, link)
                (sent _ (unfold file_calls in rw (other, file_data-link sys path ok other) refl))
          | inr neither ↦ rw (other, neither) (Handles-nil sys.md5 s fd disk)
        ]
      ]

  pub more_handled :
      (id : ℕ) (earlier : List Entry) (path : Text)
      → all_short earlier ≡ true
      → is_short path ≡ true
      → leb (sys.stat path).size 5000 ≡ true
      → Handles sys.md5 s fd disk
          (more_requests sys id earlier path)
          (mirror_copy sys disk (get_user_homedir s info) earlier path)
  unfolding more_requests mirror_copy link_calls
  more_handled id earlier path shorts short small =
      let stat = sys.stat path in
      let new = new_handled id path short small in
      elim (Bool-cases (stat.nlink == 1)) [
        | inl once ↦ rw once new
        | inr often ↦ elim (Option-cases (first_same stat.ino earlier)) [
          | inl first ↦ rw (often, first) new
          | inr (src, found) ↦
              let short' = first_same-short stat.ino earlier src shorts found in
              rw (often, found)
                (Handles-one sys.md5 s fd disk (link_request id src path) _
                  (link_handled sys s fd disk info known id src path short' short room))
        ]
      ]
