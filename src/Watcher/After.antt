-- ===== src/Watcher/After.antt =====
-- The moves of the walk of MP2/src/csiebox_client.c while the arrays hold: the state behind them.
use mathlib.Core.List.{append-nil}
use ntu_sp17fall.Base.{
  ℕ, ◌+◌, ◌≤◌, ◌≡◌, refl, ap, sym, Bool, true, false, ◌&&◌, List, [], ◌∷◌, ◌++◌, some, Text,
  if◌then◌else◌, Bool-cases, inl, inr, leb, ltb, length, length-append, arith,
}
use ntu_sp17fall.Mirror.Protocol.{is_dir, is_reg, Request}
use ntu_sp17fall.Watcher.{
  System, Client, bind, send, meta_request, is_ok, syncmeta, push_back_to_array, add_to_inotify,
  has_room, capacity,
}
use ntu_sp17fall.Watcher.Walk.{note_depth, send_if, visit_file}
use ntu_sp17fall.Watcher.Steps.{Move, enter, leave, meet, move, run_moves}
use ntu_sp17fall.Watcher.Sending.{entry_of, watch_of, more_requests, sendfile_lem}

-- The name of an entry fits its array, and a file its buffer.
unfoldable pub fits : System → Move → Bool
fits sys (enter path) = ltb (length path) 300
fits sys (leave path) = ltb (length path) 300
fits sys (meet depth path) = ltb (length path) 300 && leb (sys.stat path).size 5000

unfoldable pub all_fit : System → List Move → Bool
unfolding fits
all_fit sys [] = true
all_fit sys (m ∷ ms) = fits sys m && all_fit sys ms

-- The files are none of them directories.
unfoldable pub IsSorted : System → List Move → Type 0
IsSorted sys [] = Unit
IsSorted sys (enter path ∷ ms) = IsSorted sys ms
IsSorted sys (leave path ∷ ms) = IsSorted sys ms
IsSorted sys (meet depth path ∷ ms) = (is_dir (sys.stat path).mode ≡ false) × IsSorted sys ms

-- What is entered and left are directories.
unfoldable pub all_folders : System → List Move → Bool
all_folders sys [] = true
all_folders sys (enter path ∷ ms) = is_dir (sys.stat path).mode && all_folders sys ms
all_folders sys (leave path ∷ ms) = is_dir (sys.stat path).mode && all_folders sys ms
all_folders sys (meet depth path ∷ ms) = all_folders sys ms

-- The names that are listed, and the directories among them.
unfoldable pub listed : List Move → List Text
listed [] = []
listed (enter path ∷ ms) = path ∷ listed ms
listed (leave path ∷ ms) = listed ms
listed (meet depth path ∷ ms) = path ∷ listed ms

unfoldable pub entered : List Move → List Text
entered [] = []
entered (enter path ∷ ms) = path ∷ entered ms
entered (leave path ∷ ms) = entered ms
entered (meet depth path ∷ ms) = entered ms

-- The state behind a move, without the bounds of the arrays.
unfoldable pub after_move : System → Move → Client → Client
unfolding more_requests
after_move sys (enter path) c = record c {
  cdir_path = c.cdir_path ++ entry_of sys path ∷ [];
  watch_dir = c.watch_dir ++ watch_of sys path ∷ [];
  sent = c.sent ++ meta_request sys path ∷ [];
}
after_move sys (leave path) c = send c (meta_request sys path)
after_move sys (meet depth path) c =
    let d = note_depth sys depth path c in
    let req = meta_request sys path in
    record d {
      cdir_path = d.cdir_path ++ entry_of sys path ∷ [];
      sent =
          (d.sent ++ req ∷ [])
          ++ (if is_ok (sys.answer d.sent req)
              then []
              else more_requests sys d.client_id d.cdir_path path);
    }

unfoldable pub after : System → List Move → Client → Client
unfolding after_move
after sys [] c = c
after sys (m ∷ ms) c = after sys ms (after_move sys m c)

pub note_depth-cdir_path :
    (sys : System) (depth : ℕ) (path : Text) (c : Client)
    → (note_depth sys depth path c).cdir_path ≡ c.cdir_path
unfolding note_depth
note_depth-cdir_path sys depth path c =
    elim (Bool-cases (is_reg (sys.stat path).mode && ltb c.maxdepth depth)) [
      | inl deeper ↦ rw deeper refl
      | inr other ↦ rw other refl
    ]

pub note_depth-sent :
    (sys : System) (depth : ℕ) (path : Text) (c : Client)
    → (note_depth sys depth path c).sent ≡ c.sent
unfolding note_depth
note_depth-sent sys depth path c =
    elim (Bool-cases (is_reg (sys.stat path).mode && ltb c.maxdepth depth)) [
      | inl deeper ↦ rw deeper refl
      | inr other ↦ rw other refl
    ]

pub note_depth-watch_dir :
    (sys : System) (depth : ℕ) (path : Text) (c : Client)
    → (note_depth sys depth path c).watch_dir ≡ c.watch_dir
unfolding note_depth
note_depth-watch_dir sys depth path c =
    elim (Bool-cases (is_reg (sys.stat path).mode && ltb c.maxdepth depth)) [
      | inl deeper ↦ rw deeper refl
      | inr other ↦ rw other refl
    ]

-- Behind the note of the depth.
pub sync_lem :
    (sys : System) (path : Text) (d : Client)
    → is_dir (sys.stat path).mode ≡ false
    → leb (sys.stat path).size 5000 ≡ true
    → has_room (length d.cdir_path) path ≡ true
    → let req = meta_request sys path in
      bind (push_back_to_array sys path d) (λ c. send_if sys (syncmeta sys path c))
      ≡ some (record d {
        cdir_path = d.cdir_path ++ entry_of sys path ∷ [];
        sent =
            (d.sent ++ req ∷ [])
            ++ (if is_ok (sys.answer d.sent req)
                then []
                else more_requests sys d.client_id d.cdir_path path);
      })
unfolding push_back_to_array send_if syncmeta
sync_lem sys path d no_dir small room =
    let req = meta_request sys path in
    let c : Client = record d {
      cdir_path = d.cdir_path ++ entry_of sys path ∷ [];
      sent = d.sent ++ req ∷ [];
    } in
    elim (Bool-cases (is_ok (sys.answer d.sent req))) [
      | inl ok ↦
          rw (room, ok)
            (ap (λ (rs : List Request). some (record c { sent = rs }))
              (sym (append-nil (d.sent ++ req ∷ []))))
      | inr more ↦ rw (room, more) (sendfile_lem sys c d.cdir_path path refl no_dir small)
    ]

visit_file_lem :
    (sys : System) (depth : ℕ) (path : Text) (c : Client)
    → is_dir (sys.stat path).mode ≡ false
    → fits sys (meet depth path) ≡ true
    → ltb (length c.cdir_path) capacity ≡ true
    → visit_file sys depth path c ≡ some (after_move sys (meet depth path) c)
unfolding visit_file after_move fits
visit_file_lem sys depth path c no_dir small room =
    let d = note_depth sys depth path c in
    let same = note_depth-cdir_path sys depth path c in
    let place : has_room (length d.cdir_path) path ≡ true = rw same (ground arith) in
    sync_lem sys path d no_dir (ground arith) place

-- The walk is the list of its moves: while the arrays hold, no step fails.
pub run_moves-after :
    (sys : System) (ms : List Move) (c : Client)
    → IsSorted sys ms
    → all_fit sys ms ≡ true
    → length c.cdir_path + length (listed ms) ≤ capacity
    → length c.watch_dir + length (entered ms) ≤ capacity
    → run_moves sys ms c ≡ some (after sys ms c)
unfolding run_moves after all_fit IsSorted listed entered fits move after_move push_back_to_array
    add_to_inotify syncmeta
run_moves-after sys [] c sorted fit paths watches = refl
run_moves-after sys (enter path ∷ ms) c sorted fit paths watches =
    let place : has_room (length c.cdir_path) path ≡ true = ground arith in
    let place' : has_room (length c.watch_dir) path ≡ true = ground arith in
    let grown = length-append c.cdir_path (entry_of sys path ∷ []) in
    let grown' = length-append c.watch_dir (watch_of sys path ∷ []) in
    rw (push_back_to_array, place, add_to_inotify, place')
      (run_moves-after sys ms (after_move sys (enter path) c) sorted (ground arith)
        (omega (arith, grown, paths)) (omega (arith, grown', watches)))
run_moves-after sys (leave path ∷ ms) c sorted fit paths watches =
    run_moves-after sys ms (after_move sys (leave path) c) sorted (ground arith) paths watches
run_moves-after sys (meet depth path ∷ ms) c (no_dir, sorted) fit paths watches =
    let small : fits sys (meet depth path) ≡ true = ground arith in
    let room : ltb (length c.cdir_path) capacity ≡ true = ground arith in
    let same = note_depth-cdir_path sys depth path c in
    let same' = note_depth-watch_dir sys depth path c in
    let grown = length-append (note_depth sys depth path c).cdir_path (entry_of sys path ∷ []) in
    let grown' : length (note_depth sys depth path c).cdir_path ≡ length c.cdir_path =
      ap length same in
    rw (visit_file_lem sys depth path c no_dir small room) (
      run_moves-after sys ms (after_move sys (meet depth path) c) sorted (ground arith)
        (omega (arith, grown, grown', paths)) (rw same' watches))
