-- ===== src/Watcher/Longest.antt =====
-- The deepest file that the walk of MP2/src/csiebox_client.c notes for `longestPath.txt`.
use ntu_sp17fall.Base.{
  ℕ, suc, ◌≤◌, ◌≡◌, refl, ap, sym, ◌∙◌, subst, Bool, true, ◌&&◌, List, [], ◌∷◌, ◌++◌, some, Text,
  if◌then◌else◌, Bool-cases, inl, inr, ◌⊎◌, leb, ltb, length, arith, drop,
}
use ntu_sp17fall.Mirror.Protocol.{is_dir, is_reg}
use ntu_sp17fall.Watcher.{System, Client, capacity}
use ntu_sp17fall.Watcher.Walk.{Entries, end, closed, opened, is_dots, path_of, note_depth, traverse}
use ntu_sp17fall.Watcher.Steps.{Move, enter, leave, meet, moves, all_moves}
use ntu_sp17fall.Watcher.After.{all_fit, listed, after_move, after}
use ntu_sp17fall.Watcher.Tables.{traverse-after}

-- The regular files with their depths, in the order of the walk.
unfoldable pub reg_files : System → List Move → List (ℕ × Text)
reg_files sys [] = []
reg_files sys (enter path ∷ ms) = reg_files sys ms
reg_files sys (leave path ∷ ms) = reg_files sys ms
reg_files sys (meet depth path ∷ ms) =
    let rest = reg_files sys ms in
    if is_reg (sys.stat path).mode then (depth, path) ∷ rest else rest

-- Bounds on the depths.
unfoldable pub all_below : ℕ → List (ℕ × Text) → Bool
all_below d [] = true
all_below d (f ∷ fs) = ltb f.0 d && all_below d fs

unfoldable pub all_upto : ℕ → List (ℕ × Text) → Bool
all_upto d [] = true
all_upto d (f ∷ fs) = leb f.0 d && all_upto d fs

all_from : ℕ → List (ℕ × Text) → Bool
all_from d [] = true
all_from d (f ∷ fs) = leb d f.0 && all_from d fs

deeper : ℕ × Text → ℕ × Text → ℕ × Text
deeper f best = if ltb best.0 f.0 then (f.0, drop 8 f.1) else best

deepest : List (ℕ × Text) → ℕ × Text → ℕ × Text
deepest [] best = best
deepest (f ∷ fs) best = deepest fs (deeper f best)

after-deepest :
    (sys : System) (ms : List Move) (c : Client)
    → ((after sys ms c).maxdepth, (after sys ms c).lpath)
      ≡ deepest (reg_files sys ms) (c.maxdepth, c.lpath)
unfolding after after_move reg_files deeper deepest note_depth
after-deepest sys [] c = refl
after-deepest sys (enter path ∷ ms) c = after-deepest sys ms (after_move sys (enter path) c)
after-deepest sys (leave path ∷ ms) c = after-deepest sys ms (after_move sys (leave path) c)
after-deepest sys (meet depth path ∷ ms) c =
    let next = after-deepest sys ms (after_move sys (meet depth path) c) in
    let best : ℕ × Text = (c.maxdepth, c.lpath) in
    elim (Bool-cases (is_reg (sys.stat path).mode)) [
      | inr other ↦ next ∙ rw other refl
      | inl reg ↦ elim (Bool-cases (ltb c.maxdepth depth)) [
        | inl more ↦
            let step : deeper (depth, path) best ≡ (depth, drop 8 path) = rw more refl in
            next ∙ rw (reg, more) (ap (deepest (reg_files sys ms)) (sym step))
        | inr less ↦
            let step : deeper (depth, path) best ≡ best = rw less refl in
            next ∙ rw (reg, less) (ap (deepest (reg_files sys ms)) (sym step))
      ]
    ]

-- The first file of the greatest depth, if one is deeper than `m`.
abbrev pub IsDeepest : List (ℕ × Text) → ℕ → ℕ → Text → Type 0
IsDeepest fs m d l =
    (before : List (ℕ × Text)) × (path : Text) × (behind : List (ℕ × Text)) × (fs
      ≡ before ++ (d, path) ∷ behind)
    × (all_below d before ≡ true)
    × (all_upto d behind ≡ true)
    × (ltb m d ≡ true)
    × (l ≡ drop 8 path)

deepest_lem :
    (fs : List (ℕ × Text)) (m : ℕ) (l : Text) (best : ℕ × Text)
    → deepest fs (m, l) ≡ best
    → ((all_upto m fs ≡ true) × (best ≡ (m, l))) ⊎ IsDeepest fs m best.0 best.1
unfolding deeper deepest all_upto all_below
deepest_lem [] m l best e = inl (refl, sym e)
deepest_lem (f ∷ fs) m l best e = elim (Bool-cases (ltb m f.0)) [
  | inl deeper ↦
      let form : deepest (f ∷ fs) (m, l) ≡ deepest fs (f.0, drop 8 f.1) = rw deeper refl in
      elim (deepest_lem fs f.0 (drop 8 f.1) best (sym form ∙ e)) [
        | inl (upto, same) ↦ inr (
            subst (λ (b : ℕ × Text). IsDeepest (f ∷ fs) m b.0 b.1) (sym same)
              ([], f.1, fs, refl, refl, upto, deeper, refl))
        | inr (before, path, behind, split, below, upto, more, name) ↦ inr (
          f ∷ before,
          path,
          behind,
          ap (λ (t : List (ℕ × Text)). f ∷ t) split,
          ground arith,
          upto,
          ground arith,
          name,
        )
      ]
  | inr higher ↦
      let form : deepest (f ∷ fs) (m, l) ≡ deepest fs (m, l) = rw higher refl in
      elim (deepest_lem fs m l best (sym form ∙ e)) [
        | inl (upto, same) ↦ inl (ground arith, same)
        | inr (before, path, behind, split, below, upto, more, name) ↦ inr (
          f ∷ before,
          path,
          behind,
          ap (λ (t : List (ℕ × Text)). f ∷ t) split,
          ground arith,
          upto,
          more,
          name,
        )
      ]
]

all_from-append :
    (sys : System) (d : ℕ) (ms ns : List Move)
    → all_from d (reg_files sys ms) ≡ true
    → all_from d (reg_files sys ns) ≡ true
    → all_from d (reg_files sys (ms ++ ns)) ≡ true
unfolding all_from reg_files
all_from-append sys d [] ns a b = b
all_from-append sys d (enter path ∷ ms) ns a b = all_from-append sys d ms ns a b
all_from-append sys d (leave path ∷ ms) ns a b = all_from-append sys d ms ns a b
all_from-append sys d (meet depth path ∷ ms) ns a b =
    let tail = all_from-append sys d ms ns in ground arith

all_from-suc : (d : ℕ) (fs : List (ℕ × Text)) → all_from (suc d) fs ≡ true → all_from d fs ≡ true
unfolding all_from
all_from-suc d [] a = a
all_from-suc d (f ∷ fs) a = let tail = all_from-suc d fs in ground arith

moves-all_from :
    (sys : System) (dirname : Text) (depth : ℕ) (entries : Entries)
    → all_from depth (reg_files sys (moves sys dirname depth entries)) ≡ true
unfolding moves all_from reg_files
moves-all_from sys dirname depth end = refl
moves-all_from sys dirname depth (closed name rest) =
    let tail = moves-all_from sys dirname depth rest in ground arith
moves-all_from sys dirname depth (opened name sub rest) =
    let path = path_of dirname name in
    let tail = moves-all_from sys dirname depth rest in
    let inner =
      all_from-suc depth (reg_files sys (moves sys path (suc depth) sub))
        (moves-all_from sys path (suc depth) sub) in
    let both =
      all_from-append sys depth (moves sys path (suc depth) sub)
        (leave path ∷ moves sys dirname depth rest) inner tail in
    elim (Bool-cases (is_dots name)) [
      | inl dots ↦ rw dots tail
      | inr named ↦ elim (Bool-cases (is_dir (sys.stat path).mode)) [
        | inl dir ↦ rw (named, dir) both
        | inr no_dir ↦ rw (named, no_dir) (ground arith)
      ]
    ]

all_moves-all_from :
    (sys : System) (dirname : Text) (depth : ℕ) (entries : Entries)
    → all_from depth (reg_files sys (all_moves sys dirname depth entries)) ≡ true
unfolding all_moves all_from reg_files
all_moves-all_from sys dirname depth entries =
    all_from-append sys depth (moves sys dirname depth entries) (leave dirname ∷ [])
      (moves-all_from sys dirname depth entries) refl

none_upto : (fs : List (ℕ × Text)) → all_upto 0 fs ≡ true → all_from 1 fs ≡ true → fs ≡ []
unfolding all_upto all_from
none_upto [] a b = refl
none_upto (f ∷ fs) a b = absurd (ground arith)

-- From empty arrays, a directory whose names and files fit the arrays is walked to the end. Without a
-- regular file in it the depth stays 0 and the path empty. Otherwise the depth is the greatest of those
-- of the regular files, and the path that of the first regular file of this depth in the order of the
-- walk, without its first 8 bytes.
pub traverse-longest :
    (sys : System) (dirname : Text) (entries : Entries) (c : Client)
    → let ms = all_moves sys dirname 1 entries in
      c.cdir_path ≡ []
      → c.watch_dir ≡ []
      → c.maxdepth ≡ 0
      → c.lpath ≡ []
      → all_fit sys ms ≡ true
      → length (listed ms) ≤ capacity
      → (c' : Client) × (traverse sys dirname 1 (some entries) c ≡ some c')
        × (((reg_files sys ms ≡ []) × (c'.maxdepth ≡ 0) × (c'.lpath ≡ []))
            ⊎ IsDeepest (reg_files sys ms) 0 c'.maxdepth c'.lpath)
traverse-longest sys dirname entries c no_paths no_watches flat empty fit room =
    let ms = all_moves sys dirname 1 entries in
    let c' = after sys ms c in
    let best : ℕ × Text = (c'.maxdepth, c'.lpath) in
    let result : deepest (reg_files sys ms) (0, []) ≡ best =
      sym (after-deepest sys ms c ∙ rw (flat, empty) refl) in
    (
      c',
      traverse-after sys dirname 1 entries c no_paths no_watches fit room,
      elim (deepest_lem (reg_files sys ms) 0 [] best result) [
        | inr found ↦ inr found
        | inl (upto, same) ↦ inl (
          none_upto (reg_files sys ms) upto (all_moves-all_from sys dirname 1 entries),
          ap (λ (b : ℕ × Text). b.0) same,
          ap (λ (b : ℕ × Text). b.1) same,
        )
      ],
    )
