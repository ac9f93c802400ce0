-- ===== src/Loser/Classify.antt =====
-- The loop of `status_commit` in MP1/loser.cpp that compares the directory with the recorded digests,
-- and the tables that it fills. `md5` is the digest of the file of that name in the directory.
use ntu_sp17fall.Base.{
  ◌≡◌, refl, Bool, true, false, not, ◌||◌, List, [], ◌∷◌, ◌++◌, Option, none, some, Text, text_eq,
  text_eq_iff, arith, if◌then◌else◌, Bool-cases, inl, inr,
}
use ntu_sp17fall.Loser.Maps.{Map, find, insert, erase, find-insert, find-erase}

-- The locals of `status_commit` in the loop.
pub record Findings : Type 0 where
  pub files : Map
  pub re_files : Map
  pub newfile : List Text
  pub modified : List Text
  pub copied : List Text
  pub copied_src : List Text
  pub diff : Bool

-- The last two lines of a round.
abbrev remember : Text → Text → Findings → Findings
remember name sum s = record s {
  files = insert name sum s.files;
  re_files = insert sum name s.re_files;
}

-- What a round does before: `recorded` is `files.find(name)`, `source` is `re_files.find(sum)`.
unfoldable pub sort_out : Text → Text → Option Text → Option Text → Findings → Findings
sort_out name sum none none s = record s { newfile = s.newfile ++ name ∷ []; diff = true }
sort_out name sum none (some source) s = record s {
  copied = s.copied ++ name ∷ [];
  copied_src = s.copied_src ++ source ∷ [];
  diff = true;
}
sort_out name sum (some old) none s = record s {
  modified = s.modified ++ name ∷ [];
  files = erase name s.files;
  diff = true;
}
sort_out name sum (some old) (some source) s =
    if not (text_eq old sum)
    then record s { modified = s.modified ++ name ∷ []; files = erase name s.files; diff = true }
    else s

unfoldable pub compare_file : (Text → Text) → Text → Findings → Findings
compare_file md5 name s =
    remember name (md5 name)
      (sort_out name (md5 name) (find name s.files) (find (md5 name) s.re_files) s)

unfoldable pub compare_all : (Text → Text) → List Text → Findings → Findings
unfolding compare_file
compare_all md5 [] s = s
compare_all md5 (name ∷ names) s = compare_all md5 names (compare_file md5 name s)

unfoldable pub elem : Text → List Text → Bool
elem x [] = false
elem x (y ∷ ys) = text_eq y x || elem x ys

find-replaced :
    (name sum j : Text) (m : Map)
    → find j (insert name sum (erase name m)) ≡ (if text_eq name j then some sum else find j m)
find-replaced name sum j m = ground (
  arith,
  find-insert name j sum (erase name m),
  find-erase name name m,
  find-erase name j m,
  text_eq_iff name name,
)

find-sort_out :
    (name sum j : Text) (recorded source : Option Text) (s : Findings)
    → find name s.files ≡ recorded
    → find j (insert name sum (sort_out name sum recorded source s).files)
      ≡ (if text_eq name j then some sum else find j s.files)
unfolding sort_out
find-sort_out name sum j none none s e = ground (arith, find-insert name j sum s.files)
find-sort_out name sum j none (some source) s e = ground (arith, find-insert name j sum s.files)
find-sort_out name sum j (some old) none s e = find-replaced name sum j s.files
find-sort_out name sum j (some old) (some source) s e = elim (Bool-cases (text_eq old sum)) [
  | inl t ↦
      rw t (ground (arith, find-insert name j sum s.files, text_eq_iff old sum, text_eq_iff name j))
  | inr t ↦ rw t (find-replaced name sum j s.files)
]

pub find-compare_file :
    (md5 : Text → Text) (name j : Text) (s : Findings)
    → find j (compare_file md5 name s).files
      ≡ (if text_eq name j then some (md5 name) else find j s.files)
unfolding compare_file
find-compare_file md5 name j s =
    find-sort_out name (md5 name) j (find name s.files) (find (md5 name) s.re_files) s refl

-- After the loop every file of the directory stands in the table with its present digest, whatever
-- was recorded, and every other entry is as it was.
pub compare_all-files :
    (md5 : Text → Text) (names : List Text) (j : Text) (s : Findings)
    → find j (compare_all md5 names s).files
      ≡ (if elem j names then some (md5 j) else find j s.files)
unfolding compare_all elem
compare_all-files md5 [] j s = refl
compare_all-files md5 (name ∷ names) j s = ground (
  arith,
  compare_all-files md5 names j (compare_file md5 name s),
  find-compare_file md5 name j s,
  text_eq_iff name j,
)
