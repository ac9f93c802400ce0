-- ===== src/Loser/Saved.antt =====
-- `status_commit` of MP1/loser.cpp as a whole: what it reports against the record that it read.
use ntu_sp17fall.Base.{
  ◌≡◌, ◌≢◌, refl, ap, ◌∙◌, true, false, not, ◌&&◌, ◌||◌, List, [], ◌∷◌, none, some, Text, text_eq,
  text_eq_iff, arith, if◌then◌else◌,
}
use ntu_sp17fall.Loser.{special_case, keep_names}
use ntu_sp17fall.Loser.Maps.{Map, find, insert, find-insert}
use ntu_sp17fall.Loser.Order.{sort}
use ntu_sp17fall.Loser.Order
use ntu_sp17fall.Loser.Classify.{Findings, compare_all, elem, compare_all-files}
use ntu_sp17fall.Loser.Reports.{Covered, differs, compare_all-modified}
use ntu_sp17fall.Loser.Commit.{load}

elem-insert : (j x : Text) (ys : List Text) → elem j (Order.insert x ys) ≡ text_eq x j || elem j ys
unfolding Order.insert elem
elem-insert j x [] = refl
elem-insert j x (y ∷ ys) = ground (arith, elem-insert j x ys)

elem-sort : (j : Text) (xs : List Text) → elem j (sort xs) ≡ elem j xs
unfolding sort elem
elem-sort j [] = refl
elem-sort j (x ∷ xs) = ground (arith, elem-insert j x (sort xs), elem-sort j xs)

special_case-eq : (x j : Text) → text_eq x j ≡ true → special_case x ≡ special_case j
special_case-eq x j e = ap special_case ((text_eq_iff x j).0 e)

elem-keep_names :
    (j : Text) (xs : List Text) → elem j (keep_names xs) ≡ elem j xs && not (special_case j)
unfolding keep_names elem
elem-keep_names j [] = refl
elem-keep_names j (x ∷ xs) = ground (arith, elem-keep_names j xs, special_case-eq x j)

-- The loop that reads the record fills both tables.
load-Covered :
    (files re_files : Map) (ps : List (Text × Text))
    → ((j w : Text) → find j files ≡ some w → find w re_files ≢ none)
    → Covered (load files re_files ps)
unfolding load
load-Covered files re_files [] h = record { known = h }
load-Covered files re_files ((name, sum) ∷ ps) h =
    load-Covered (insert name sum files) (insert sum name re_files) ps (λ j w e. ground (
      arith,
      e,
      find-insert name j sum files,
      find-insert sum w name re_files,
      h j w,
      h name w,
      text_eq_iff sum w,
    ))

load-modified :
    (files re_files : Map) (ps : List (Text × Text)) → (load files re_files ps).modified ≡ []
unfolding load
load-modified files re_files [] = refl
load-modified files re_files ((name, sum) ∷ ps) =
    load-modified (insert name sum files) (insert sum name re_files) ps

empty-Covered : (j w : Text) → find j [] ≡ some w → find w [] ≢ none
unfolding find
empty-Covered j w e = cc

-- The locals of `status_commit` behind the loop.
abbrev pub compared : (Text → Text) → List Text → List (Text × Text) → Findings
compared md5 listing ps = compare_all md5 (sort (keep_names listing)) (load [] [] ps)

-- Against the pairs of any record, a name is reported as modified exactly if the directory lists it, it
-- is none of ".", ".." and the record's own name, and the record has it with another digest. The table
-- that is then saved has the present digest for each such name of the directory, and keeps every other
-- entry, also of a file that is gone.
pub compared_lem :
    (md5 : Text → Text) (listing : List Text) (ps : List (Text × Text)) (j : Text)
    → (elem j (compared md5 listing ps).modified
        ≡ (elem j listing && not (special_case j))
          && differs (find j (load [] [] ps).files) (md5 j))
      × (find j (compared md5 listing ps).files ≡ (
          if elem j listing && not (special_case j)
          then some (md5 j)
          else find j (load [] [] ps).files))
unfolding elem
compared_lem md5 listing ps j =
    let names = sort (keep_names listing) in
    let start = load [] [] ps in
    let there = elem-sort j (keep_names listing) ∙ elem-keep_names j listing in
    let blank : elem j start.modified ≡ false = ap (elem j) (load-modified [] [] ps) in
    let changed = compare_all-modified md5 names j start (load-Covered [] [] ps empty-Covered) in
    let kept = compare_all-files md5 names j start in
    (ground (arith, changed, blank, there), ground (arith, kept, there))
