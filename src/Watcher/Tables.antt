-- ===== src/Watcher/Tables.antt =====
-- The arrays behind the first walk of MP2/src/csiebox_client.c.
use mathlib.Core.List.{append-nil}
use ntu_sp17fall.Base.{
  ℕ, suc, ◌≤◌, ◌≡◌, refl, sym, ◌∙◌, true, List, [], ◌∷◌, ◌++◌, some, Text, Bool-cases, inl, inr,
  length, append_assoc, arith, map,
}
use ntu_sp17fall.Mirror.Protocol.{is_dir}
use ntu_sp17fall.Watcher.{System, Client, capacity}
use ntu_sp17fall.Watcher.Walk.{Entries, end, closed, opened, is_dots, path_of, note_depth, traverse}
use ntu_sp17fall.Watcher.Steps.{Move, enter, leave, meet, moves, all_moves, traverse-moves}
use ntu_sp17fall.Watcher.Sending.{entry_of, watch_of}
use ntu_sp17fall.Watcher.After.{
  all_fit, IsSorted, listed, entered, after_move, after, note_depth-cdir_path, note_depth-watch_dir,
  run_moves-after, all_folders,
}

after-cdir_path :
    (sys : System) (ms : List Move) (c : Client)
    → (after sys ms c).cdir_path ≡ c.cdir_path ++ map (entry_of sys) (listed ms)
unfolding after after_move listed
after-cdir_path sys [] c = sym (append-nil c.cdir_path)
after-cdir_path sys (enter path ∷ ms) c =
    after-cdir_path sys ms (after_move sys (enter path) c)
    ∙ append_assoc c.cdir_path (entry_of sys path ∷ []) (map (entry_of sys) (listed ms))
after-cdir_path sys (leave path ∷ ms) c = after-cdir_path sys ms (after_move sys (leave path) c)
after-cdir_path sys (meet depth path ∷ ms) c =
    after-cdir_path sys ms (after_move sys (meet depth path) c)
    ∙ append_assoc (note_depth sys depth path c).cdir_path (entry_of sys path ∷ [])
        (map (entry_of sys) (listed ms))
    ∙ rw (note_depth-cdir_path sys depth path c) refl

after-watch_dir :
    (sys : System) (ms : List Move) (c : Client)
    → (after sys ms c).watch_dir ≡ c.watch_dir ++ map (watch_of sys) (entered ms)
unfolding after after_move entered
after-watch_dir sys [] c = sym (append-nil c.watch_dir)
after-watch_dir sys (enter path ∷ ms) c =
    after-watch_dir sys ms (after_move sys (enter path) c)
    ∙ append_assoc c.watch_dir (watch_of sys path ∷ []) (map (watch_of sys) (entered ms))
after-watch_dir sys (leave path ∷ ms) c = after-watch_dir sys ms (after_move sys (leave path) c)
after-watch_dir sys (meet depth path ∷ ms) c =
    after-watch_dir sys ms (after_move sys (meet depth path) c)
    ∙ rw (note_depth-watch_dir sys depth path c) refl

IsSorted-append :
    (sys : System) (ms ns : List Move) → IsSorted sys ms → IsSorted sys ns → IsSorted sys (ms ++ ns)
unfolding IsSorted
IsSorted-append sys [] ns a b = b
IsSorted-append sys (enter path ∷ ms) ns a b = IsSorted-append sys ms ns a b
IsSorted-append sys (leave path ∷ ms) ns a b = IsSorted-append sys ms ns a b
IsSorted-append sys (meet depth path ∷ ms) ns (e, a) b = (e, IsSorted-append sys ms ns a b)

moves-IsSorted :
    (sys : System) (dirname : Text) (depth : ℕ) (entries : Entries)
    → IsSorted sys (moves sys dirname depth entries)
unfolding moves IsSorted
moves-IsSorted sys dirname depth end = tt
moves-IsSorted sys dirname depth (closed name rest) =
    let path = path_of dirname name in
    let later = moves-IsSorted sys dirname depth rest in
    elim (Bool-cases (is_dots name)) [
      | inl dots ↦ rw dots later
      | inr named ↦ elim (Bool-cases (is_dir (sys.stat path).mode)) [
        | inl dir ↦ rw (named, dir) later
        | inr no_dir ↦ rw (named, no_dir) (no_dir, later)
      ]
    ]
moves-IsSorted sys dirname depth (opened name sub rest) =
    let path = path_of dirname name in
    let inner = moves-IsSorted sys path (suc depth) sub in
    let later = moves-IsSorted sys dirname depth rest in
    elim (Bool-cases (is_dots name)) [
      | inl dots ↦ rw dots later
      | inr named ↦ elim (Bool-cases (is_dir (sys.stat path).mode)) [
        | inl dir ↦
            rw (named, dir)
              (IsSorted-append sys (moves sys path (suc depth) sub)
                (leave path ∷ moves sys dirname depth rest) inner later)
        | inr no_dir ↦ rw (named, no_dir) (no_dir, later)
      ]
    ]

pub all_moves-IsSorted :
    (sys : System) (dirname : Text) (depth : ℕ) (entries : Entries)
    → IsSorted sys (all_moves sys dirname depth entries)
unfolding all_moves IsSorted
all_moves-IsSorted sys dirname depth entries =
    IsSorted-append sys (moves sys dirname depth entries) (leave dirname ∷ [])
      (moves-IsSorted sys dirname depth entries) tt

pub entered-listed : (ms : List Move) → length (entered ms) ≤ length (listed ms)
unfolding entered listed
entered-listed [] = omega arith
entered-listed (enter path ∷ ms) = omega (arith, entered-listed ms)
entered-listed (leave path ∷ ms) = entered-listed ms
entered-listed (meet depth path ∷ ms) = omega (arith, entered-listed ms)

-- The first walk, from empty arrays.
pub traverse-after :
    (sys : System) (dirname : Text) (depth : ℕ) (entries : Entries) (c : Client)
    → let ms = all_moves sys dirname depth entries in
      c.cdir_path ≡ []
      → c.watch_dir ≡ []
      → all_fit sys ms ≡ true
      → length (listed ms) ≤ capacity
      → traverse sys dirname depth (some entries) c ≡ some (after sys ms c)
traverse-after sys dirname depth entries c no_paths no_watches fit room =
    let ms = all_moves sys dirname depth entries in
    let few : length (entered ms) ≤ length (listed ms) = entered-listed ms in
    traverse-moves sys dirname depth entries c
    ∙ run_moves-after sys ms c (all_moves-IsSorted sys dirname depth entries) fit
        (rw no_paths (omega (arith, room))) (rw no_watches (omega (arith, few, room)))

-- From empty arrays, a directory whose names and files fit the arrays is walked to the end; the entries
-- are then the paths in the order of the walk, each with what `lstat` says and in use, and the watches
-- the directories among them in the same order.
pub traverse-tables :
    (sys : System) (dirname : Text) (depth : ℕ) (entries : Entries) (c : Client)
    → let ms = all_moves sys dirname depth entries in
      c.cdir_path ≡ []
      → c.watch_dir ≡ []
      → all_fit sys ms ≡ true
      → length (listed ms) ≤ capacity
      → (c' : Client) × (traverse sys dirname depth (some entries) c ≡ some c')
        × (c'.cdir_path ≡ map (entry_of sys) (listed ms))
        × (c'.watch_dir ≡ map (watch_of sys) (entered ms))
traverse-tables sys dirname depth entries c no_paths no_watches fit room =
    let ms = all_moves sys dirname depth entries in
    (
      after sys ms c,
      traverse-after sys dirname depth entries c no_paths no_watches fit room,
      after-cdir_path sys ms c ∙ rw no_paths refl,
      after-watch_dir sys ms c ∙ rw no_watches refl,
    )

all_folders-append :
    (sys : System) (ms ns : List Move)
    → all_folders sys ms ≡ true
    → all_folders sys ns ≡ true
    → all_folders sys (ms ++ ns) ≡ true
unfolding all_folders
all_folders-append sys [] ns a b = b
all_folders-append sys (enter path ∷ ms) ns a b =
    let tail = all_folders-append sys ms ns in ground arith
all_folders-append sys (leave path ∷ ms) ns a b =
    let tail = all_folders-append sys ms ns in ground arith
all_folders-append sys (meet depth path ∷ ms) ns a b = all_folders-append sys ms ns a b

moves-all_folders :
    (sys : System) (dirname : Text) (depth : ℕ) (entries : Entries)
    → all_folders sys (moves sys dirname depth entries) ≡ true
unfolding moves all_folders
moves-all_folders sys dirname depth end = refl
moves-all_folders sys dirname depth (closed name rest) =
    let tail = moves-all_folders sys dirname depth rest in ground arith
moves-all_folders sys dirname depth (opened name sub rest) =
    let path = path_of dirname name in
    let tail = moves-all_folders sys dirname depth rest in
    elim (Bool-cases (is_dots name)) [
      | inl dots ↦ rw dots tail
      | inr named ↦ elim (Bool-cases (is_dir (sys.stat path).mode)) [
        | inl dir ↦
            let behind : all_folders sys (leave path ∷ moves sys dirname depth rest) ≡ true =
              rw (dir, tail) refl in
            let both =
              all_folders-append sys (moves sys path (suc depth) sub)
                (leave path ∷ moves sys dirname depth rest)
                (moves-all_folders sys path (suc depth) sub) behind in
            rw (named, dir, dir) both
        | inr no_dir ↦ rw (named, no_dir) tail
      ]
    ]

pub all_moves-all_folders :
    (sys : System) (dirname : Text) (depth : ℕ) (entries : Entries)
    → is_dir (sys.stat dirname).mode ≡ true
    → all_folders sys (all_moves sys dirname depth entries) ≡ true
unfolding all_moves all_folders
all_moves-all_folders sys dirname depth entries dir =
    let behind : all_folders sys (leave dirname ∷ []) ≡ true = rw dir refl in
    let both =
      all_folders-append sys (moves sys dirname depth entries) (leave dirname ∷ [])
        (moves-all_folders sys dirname depth entries) behind in
    rw (dir, both) refl
