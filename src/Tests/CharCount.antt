-- ===== src/Tests/CharCount.antt =====
-- Two lines and the start of a third, counted against the set "ab".
use ntu_sp17fall.Base.{◌≡◌, refl, ◌++◌, [], ◌∷◌, codes, true}
use ntu_sp17fall.CharCount.{counts, count_lines, unlines, all_plain, plain, matches, counts_lem}

lines-plain : all_plain (codes "abc" ∷ codes "xyz" ∷ []) ≡ true
unfolding all_plain plain
lines-plain = refl

last-plain : plain (codes "a") ≡ true
unfolding plain
last-plain = refl

counts_lem_example :
    counts (codes "ab") 0 (unlines (codes "abc" ∷ codes "xyz" ∷ []) ++ codes "a")
    ≡ count_lines (codes "ab") (codes "abc" ∷ codes "xyz" ∷ [])
counts_lem_example =
    counts_lem (codes "ab") (codes "abc" ∷ codes "xyz" ∷ []) (codes "a") lines-plain last-plain

counts_test : counts (codes "ab") 0 (codes "abc\nxyz\na") ≡ 2 ∷ 0 ∷ []
unfolding counts matches
counts_test = refl
