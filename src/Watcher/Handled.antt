-- ===== src/Watcher/Handled.antt =====
-- The requests for one directory or file of MP2/src/csiebox_client.c, with the answers of the server of
-- MP2/src/csiebox_server.c.
use ntu_sp17fall.Base.{
  Bool, ◌==◌, ◌||◌, ℕ, ◌≡◌, refl, ◌∙◌, true, false, List, [], ◌∷◌, ◌++◌, some, Text, text_eq,
  if◌then◌else◌, Bool-cases, Option-cases, inl, inr, leb, length, arith,
}
use ntu_sp17fall.Mirror.Protocol.{is_dir, is_reg, is_link, Request}
use ntu_sp17fall.Mirror.{
  Disk, Call, send, open_left, change_path, meta_answer, meta_calls, check_hash,
}
use ntu_sp17fall.Mirror.Session.{Server, ClientInfo, get_user_homedir, handle_one}
use ntu_sp17fall.Mirror.Guard.{needs_home}
use ntu_sp17fall.Mirror.Replay.{all_work, Handles, Handles-one, Handles-append}
use ntu_sp17fall.Watcher.{System, Entry, meta_request, md5_file, is_ok}
use ntu_sp17fall.Watcher.Sending.{file_request, first_same, more_requests}
use ntu_sp17fall.Watcher.Mirrored.{
  first_sent, reply, IsConsistent, mirror_folder, mirror_copy, mirror_at, mirror_file,
}
use ntu_sp17fall.Watcher.Carried.{is_short, all_short, meta_handled, more_handled}

module _ (sys : System) (s : Server) (fd : ℕ) (disk : Disk) (info : ClientInfo)
    (known : s.client fd ≡ some info) where
  pub folder_handled :
      (path : Text)
      → is_short path ≡ true
      → is_dir (sys.stat path).mode ≡ true
      → Handles sys.md5 s fd disk
          (meta_request sys path ∷ [])
          (mirror_folder sys (get_user_homedir s info) path)
  unfolding mirror_folder meta_calls
  folder_handled path short dir =
      let no_link : is_link (sys.stat path).mode ≡ false = ground arith in
      Handles-one sys.md5 s fd disk (meta_request sys path)
        (mirror_folder sys (get_user_homedir s info) path)
        (meta_handled sys s fd disk info known path short ∙ rw (no_link, dir) refl)

-- The requests of the walk are on the files of a user.
pub meta_work : (sys : System) (path : Text) → all_work (meta_request sys path ∷ []) ≡ true
unfolding all_work needs_home meta_request
meta_work sys path = refl

pub if_work :
    (b : Bool) (rs : List Request) → all_work rs ≡ true → all_work (if b then [] else rs) ≡ true
unfolding all_work
if_work true rs work = refl
if_work false rs work = work

pub more_work :
    (sys : System) (id : ℕ) (earlier : List Entry) (path : Text)
    → all_work (more_requests sys id earlier path) ≡ true
unfolding all_work needs_home more_requests file_request
more_work sys id earlier path =
    let stat = sys.stat path in
    let own : all_work
          (if is_reg stat.mode || is_link stat.mode then file_request sys id path ∷ [] else [])
        ≡ true =
      elim (Bool-cases (is_reg stat.mode || is_link stat.mode)) [
        | inl sent ↦ rw sent refl
        | inr other ↦ rw other refl
      ] in
    elim (Bool-cases (stat.nlink == 1)) [
      | inl once ↦ rw once own
      | inr often ↦ elim (Option-cases (first_same stat.ino earlier)) [
        | inl first ↦ rw (often, first) own
        | inr (src, found) ↦ rw (often, found) refl
      ]
    ]

-- The client is connected to the server on which it is logged in. `Good` says what was sent before.
module _ (sys : System) (s : Server) (fd : ℕ) (disk : Disk) (info : ClientInfo)
    (known : s.client fd ≡ some info) (ok : IsConsistent sys)
    (room : leb 400 (length (get_user_homedir s info)) ≡ false) (Good : List Request → Type 0)
    (grows : (rs more : List Request) → all_work more ≡ true → Good rs → Good (rs ++ more))
    (answers : (earlier : List Request) (req : Request)
      → Good earlier
      → sys.answer earlier req ≡ reply s fd disk sys.md5 req) where
  answer_lem :
      (earlier : List Request) (req : Request) (calls : List Call)
      → Good earlier
      → handle_one sys.md5 s fd disk req ≡ some (s, calls)
      → sys.answer earlier req ≡ first_sent calls
  unfolding reply
  answer_lem earlier req calls good one = answers earlier req good ∙ rw (reply, one) refl

  -- Behind the meta data the server wants the file, or not.
  wanted :
      (path : Text) (earlier : List Request) (first more : List Call) (rest : List Request)
      → Good earlier
      → handle_one sys.md5 s fd disk (meta_request sys path) ≡ some (s, first)
      → is_ok (first_sent first) ≡ false
      → Handles sys.md5 s fd disk rest more
      → Handles sys.md5 s fd disk
          (meta_request sys path
            ∷ (if is_ok (sys.answer earlier (meta_request sys path)) then [] else rest))
          (first ++ more)
  wanted path earlier first more rest good one refused follows =
      rw (answer_lem earlier (meta_request sys path) first good one, refused)
        (Handles-append sys.md5 s fd disk (meta_request sys path ∷ []) rest first more
          (Handles-one sys.md5 s fd disk (meta_request sys path) first one) follows)

  unwanted :
      (path : Text) (earlier : List Request) (first : List Call) (rest : List Request)
      → Good earlier
      → handle_one sys.md5 s fd disk (meta_request sys path) ≡ some (s, first)
      → is_ok (first_sent first) ≡ true
      → Handles sys.md5 s fd disk
          (meta_request sys path
            ∷ (if is_ok (sys.answer earlier (meta_request sys path)) then [] else rest))
          first
  unwanted path earlier first rest good one taken =
      rw (answer_lem earlier (meta_request sys path) first good one, taken)
        (Handles-one sys.md5 s fd disk (meta_request sys path) first one)

  kind_lem :
      (sent : List Request) (path : Text) (rest : List Request) (copy : List Call)
      → Good sent
      → is_short path ≡ true
      → is_dir (sys.stat path).mode ≡ false
      → Handles sys.md5 s fd disk rest copy
      → let place = change_path (get_user_homedir s info) path in
        Handles sys.md5 s fd disk
          (meta_request sys path
            ∷ (if is_ok (sys.answer sent (meta_request sys path)) then [] else rest))
          (mirror_at (disk.digest place) place (sys.stat path) (md5_file sys path) copy)
  unfolding mirror_at meta_calls check_hash is_ok first_sent
  kind_lem sent path rest copy good short no_dir more =
      let stat = sys.stat path in
      let place = change_path (get_user_homedir s info) path in
      let one = meta_handled sys s fd disk info known path short in
      let no_more : List Call = send (meta_answer 2) ∷ [] in
      elim (Bool-cases (is_link stat.mode)) [
        | inl link ↦
            rw link (wanted path sent no_more copy rest good (one ∙ rw link refl) refl more)
        | inr no_link ↦ elim (Bool-cases (is_reg stat.mode)) [
          | inr other ↦
              rw (no_link, other)
                (unwanted path sent (send (meta_answer 0) ∷ []) rest good
                  (one ∙ rw (no_link, no_dir, other) refl) refl)
          | inl reg ↦ elim (Option-cases (disk.digest place)) [
            | inl missing ↦
                rw (no_link, reg, missing)
                  (wanted path sent no_more copy rest good
                    (one ∙ rw (no_link, no_dir, reg, missing) refl) refl more)
            | inr (digest, there) ↦ elim (Bool-cases (text_eq (md5_file sys path) digest)) [
              | inl same ↦
                  rw (no_link, reg, there, same)
                    (unwanted path sent _ rest good
                      (one ∙ rw (no_link, no_dir, reg, there, same) refl) refl)
              | inr differs ↦
                  rw (no_link, reg, there, differs)
                    (wanted path sent (open_left place ∷ no_more) copy rest good
                      (one ∙ rw (no_link, no_dir, reg, there, differs) refl) refl more)
            ]
          ]
        ]
      ]

  pub file_lem :
      (id : ℕ) (sent : List Request) (earlier : List Entry) (path : Text)
      → Good sent
      → all_short earlier ≡ true
      → is_short path ≡ true
      → leb (sys.stat path).size 5000 ≡ true
      → is_dir (sys.stat path).mode ≡ false
      → Handles sys.md5 s fd disk
          (meta_request sys path
            ∷ (if is_ok (sys.answer sent (meta_request sys path))
                then []
                else more_requests sys id earlier path))
          (mirror_file sys disk (get_user_homedir s info) earlier path)
  unfolding mirror_file
  file_lem id sent earlier path good shorts short small no_dir =
      kind_lem sent path (more_requests sys id earlier path)
        (mirror_copy sys disk (get_user_homedir s info) earlier path) good short no_dir
        (more_handled sys s fd disk info known ok room id earlier path shorts short small)
