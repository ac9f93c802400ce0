-- ===== src/Loser/Reports.antt =====
-- What the loop of `status_commit` in MP1/loser.cpp puts into its lists.
use ntu_sp17fall.Base.{
  ◌≡◌, ◌≢◌, refl, ap, ◌∙◌, Bool, true, false, not, ◌&&◌, ◌||◌, List, [], ◌∷◌, ◌++◌, Option, none,
  some, Text, text_eq, text_eq_iff, text_eq_refl, ◌⊎◌, arith, append_assoc, Bool-cases, inl, inr,
  length, length-append,
}
use ntu_sp17fall.Loser.{keep_names}
use ntu_sp17fall.Loser.Maps.{find, insert, find-insert}
use ntu_sp17fall.Loser.Order.{text_le, text_le_trans, IsSorted, sort, sort-IsSorted, sort-eq_self}
use ntu_sp17fall.Loser.Classify.{
  Findings, sort_out, compare_file, compare_all, elem, find-compare_file,
}

-- Every recorded digest is a key of `re_files`: the loop that reads the record fills both tables.
pub record Covered (s : Findings) : Type 0 where
  pub known : (j w : Text) → find j s.files ≡ some w → find w s.re_files ≢ none

elem-append :
    (j : Text) (xs : List Text) (y : Text) → elem j (xs ++ y ∷ []) ≡ elem j xs || text_eq y j
unfolding elem
elem-append j [] y = ground arith
elem-append j (x ∷ xs) y = ground (arith, elem-append j xs y)

unfoldable pub differs : Option Text → Text → Bool
differs none sum = false
differs (some old) sum = not (text_eq old sum)

differs_self : (sum : Text) → differs (some sum) sum ≡ false
unfolding differs
differs_self sum = ap not (text_eq_refl sum)

append_empty : (xs : List Text) → xs ≡ xs ++ []
append_empty [] = refl
append_empty (x ∷ xs) = ap (λ (t : List Text). x ∷ t) (append_empty xs)

sort_out-modified :
    (name sum j : Text) (recorded source : Option Text) (s : Findings)
    → (recorded ≡ some sum → source ≢ none)
    → elem j (sort_out name sum recorded source s).modified
      ≡ elem j s.modified || (text_eq name j && differs recorded sum)
unfolding sort_out differs
sort_out-modified name sum j none none s h = ground arith
sort_out-modified name sum j none (some source) s h = ground arith
sort_out-modified name sum j (some old) none s h =
    ground (arith, elem-append j s.modified name, text_eq_iff old sum)
sort_out-modified name sum j (some old) (some source) s h =
    ground (arith, elem-append j s.modified name, text_eq_iff old sum)

sort_out-re_files :
    (name sum : Text) (recorded source : Option Text) (s : Findings)
    → (sort_out name sum recorded source s).re_files ≡ s.re_files
unfolding sort_out
sort_out-re_files name sum none none s = refl
sort_out-re_files name sum none (some source) s = refl
sort_out-re_files name sum (some old) none s = refl
sort_out-re_files name sum (some old) (some source) s = ground arith

compare_file-re_files :
    (md5 : Text → Text) (name : Text) (s : Findings)
    → (compare_file md5 name s).re_files ≡ insert (md5 name) name s.re_files
unfolding compare_file
compare_file-re_files md5 name s =
    ap (insert (md5 name) name)
      (sort_out-re_files name (md5 name) (find name s.files) (find (md5 name) s.re_files) s)

compare_file-Covered :
    (md5 : Text → Text) (name : Text) (s : Findings) → Covered s → Covered (compare_file md5 name s)
compare_file-Covered md5 name s c = record {
  known = λ j w e. rw (compare_file-re_files md5 name s) (
      ground (
        arith,
        e,
        find-compare_file md5 name j s,
        find-insert (md5 name) w name s.re_files,
        c.known j w,
        text_eq_iff (md5 name) w,
      ));
}

compare_file-modified :
    (md5 : Text → Text) (name j : Text) (s : Findings)
    → Covered s
    → elem j (compare_file md5 name s).modified
      ≡ elem j s.modified || (text_eq name j && differs (find name s.files) (md5 name))
unfolding compare_file
compare_file-modified md5 name j s c =
    sort_out-modified name (md5 name) j (find name s.files) (find (md5 name) s.re_files) s
      (c.known name (md5 name))

-- Where every recorded digest is known to `re_files`, a name is reported as modified exactly if the
-- directory has it and the record has it with another digest.
pub compare_all-modified :
    (md5 : Text → Text) (names : List Text) (j : Text) (s : Findings)
    → Covered s
    → elem j (compare_all md5 names s).modified
      ≡ elem j s.modified || (elem j names && differs (find j s.files) (md5 j))
unfolding compare_all elem
compare_all-modified md5 [] j s c = ground arith
compare_all-modified md5 (name ∷ names) j s c =
    let t = compare_file md5 name s in
    let rest = compare_all-modified md5 names j t (compare_file-Covered md5 name s c) in
    let now = compare_file-modified md5 name j s c in
    let next = find-compare_file md5 name j s in
    elim (Bool-cases (text_eq name j)) [
      | inl e ↦
          let p : name ≡ j = (text_eq_iff name j).0 e in
          let same : differs (find j t.files) (md5 j) ≡ false =
            rw (next, e, p) (differs_self (md5 j)) in
          let first : differs (find name s.files) (md5 name) ≡ differs (find j s.files) (md5 j) =
            rw p in
          ground (arith, rest, now, same, first, e)
      | inr e ↦
          let same : find j t.files ≡ find j s.files = ground (arith, next, e) in
          ground (arith, rest, now, same, e)
    ]

-- The names reported as copied, behind those that were, are in order, if the directory's names are.
record Copied (x : Text) (before after : List Text) : Type 0 where
  new : List Text
  behind : after ≡ before ++ new
  ordered : IsSorted (x ∷ new)

sort_out-copied :
    (name sum : Text) (recorded source : Option Text) (s : Findings)
    → ((sort_out name sum recorded source s).copied ≡ s.copied)
      ⊎ ((sort_out name sum recorded source s).copied ≡ s.copied ++ name ∷ [])
unfolding sort_out
sort_out-copied name sum none none s = inl refl
sort_out-copied name sum none (some source) s = inr refl
sort_out-copied name sum (some old) none s = inl refl
sort_out-copied name sum (some old) (some source) s = ground arith

IsSorted-skip :
    (x y : Text) (ys : List Text) → text_le x y ≡ true → IsSorted (y ∷ ys) → IsSorted (x ∷ ys)
IsSorted-skip x y [] h s = tt
IsSorted-skip x y (z ∷ ys) h (k, s) = (text_le_trans x y z h k, s)

compare_all-Copied :
    (md5 : Text → Text) (names : List Text) (x : Text) (s : Findings)
    → IsSorted (x ∷ names)
    → Copied x s.copied (compare_all md5 names s).copied
unfolding compare_all compare_file
compare_all-Copied md5 [] x s o = record { new = []; behind = append_empty s.copied; ordered = tt }
compare_all-Copied md5 (name ∷ names) x s (h, o) =
    let t = compare_file md5 name s in
    let r = compare_all-Copied md5 names name t o in
    elim (sort_out-copied name (md5 name) (find name s.files) (find (md5 name) s.re_files) s) [
      | inl e ↦ record {
        new = r.new;
        behind = r.behind ∙ ap (λ (xs : List Text). xs ++ r.new) e;
        ordered = IsSorted-skip x name r.new h r.ordered;
      }
      | inr e ↦ record {
        new = name ∷ r.new;
        behind =
            r.behind
            ∙ ap (λ (xs : List Text). xs ++ r.new) e
            ∙ append_assoc s.copied (name ∷ []) r.new;
        ordered = (h, r.ordered);
      }
    ]

from_empty : (names : List Text) → IsSorted names → IsSorted ([] ∷ names)
unfolding text_le
from_empty [] s = tt
from_empty (x ∷ names) s = (refl, s)

IsSorted-tail : (x : Text) (ys : List Text) → IsSorted (x ∷ ys) → IsSorted ys
IsSorted-tail x [] s = tt
IsSorted-tail x (y ∷ ys) s = s.1

sort_out-length :
    (name sum : Text) (recorded source : Option Text) (s : Findings)
    → length s.copied ≡ length s.copied_src
    → length (sort_out name sum recorded source s).copied
      ≡ length (sort_out name sum recorded source s).copied_src
unfolding sort_out
sort_out-length name sum none none s h = h
sort_out-length name sum none (some source) s h =
    rw (length-append s.copied (name ∷ []), length-append s.copied_src (source ∷ []), h) refl
sort_out-length name sum (some old) none s h = h
sort_out-length name sum (some old) (some source) s h = ground arith

compare_all-length :
    (md5 : Text → Text) (names : List Text) (s : Findings)
    → length s.copied ≡ length s.copied_src
    → length (compare_all md5 names s).copied ≡ length (compare_all md5 names s).copied_src
unfolding compare_all compare_file
compare_all-length md5 [] s h = h
compare_all-length md5 (name ∷ names) s h =
    compare_all-length md5 names (compare_file md5 name s)
      (sort_out-length name (md5 name) (find name s.files) (find (md5 name) s.re_files) s h)

-- Behind the loop `copied` is sorted and not `copied_src`, whose entries are printed beside. From empty
-- lists, on the sorted names of
-- any directory that sort changes nothing, so each copy stays beside its source, of which there is one
-- for each.
pub compare_all-copied :
    (md5 : Text → Text) (listing : List Text) (s : Findings)
    → s.copied ≡ []
    → s.copied_src ≡ []
    → (sort (compare_all md5 (sort (keep_names listing)) s).copied
        ≡ (compare_all md5 (sort (keep_names listing)) s).copied)
      × (length (compare_all md5 (sort (keep_names listing)) s).copied
          ≡ length (compare_all md5 (sort (keep_names listing)) s).copied_src)
compare_all-copied md5 listing s e f =
    let names = sort (keep_names listing) in
    let r =
      compare_all-Copied md5 names [] s (from_empty names (sort-IsSorted (keep_names listing))) in
    let whole : (compare_all md5 names s).copied ≡ r.new =
      r.behind ∙ ap (λ (xs : List Text). xs ++ r.new) e in
    (
      rw whole (sort-eq_self r.new (IsSorted-tail [] r.new r.ordered)),
      compare_all-length md5 names s (rw (e, f) refl),
    )
