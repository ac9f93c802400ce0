-- ===== src/CharCount.antt =====
-- MP0/char_count.c: for each line of the input, how many of its bytes are in the first argument.
use ntu_sp17fall.Base.{
  ℕ, ◌+◌, ◌≡◌, refl, ap, Bool, true, false, ◌||◌, ◌&&◌, List, [], ◌∷◌, ◌++◌, Text, if◌then◌else◌,
  ◌==◌, arith, append_assoc, lacks, not, Bool-cases, inl, inr,
}

-- The loop over `argv[1]`, which stops at the first byte that is equal.
unfoldable pub matches : ℕ → Text → Bool
matches buffer [] = false
matches buffer (c ∷ set) = buffer == c || matches buffer set

-- The numbers printed, from the value `tag` of the counter. `buffer` is a `char`, so that the byte 255
-- is equal to `EOF` and ends the loop.
unfoldable pub counts : Text → ℕ → Text → List ℕ
counts set tag [] = []
counts set tag (buffer ∷ input) =
    let next = counts set 0 input in
    let rest = counts set (if matches buffer set then tag + 1 else tag) input in
    if buffer == 255 then [] else if buffer == 10 then tag ∷ next else rest

-- A line without a line feed and without the byte 255.
unfoldable pub plain : Text → Bool
plain [] = true
plain (c ∷ line) = (if c == 10 || c == 255 then false else true) && plain line

-- How many bytes of the line stand somewhere in the set.
unfoldable pub occurrences : Text → Text → ℕ
unfolding lacks
occurrences set [] = 0
occurrences set (c ∷ line) = (if lacks c set then 0 else 1) + occurrences set line

matches-lacks : (c : ℕ) (set : Text) → matches c set ≡ not (lacks c set)
unfolding matches lacks
matches-lacks c [] = refl
matches-lacks c (x ∷ set) = ground (arith, matches-lacks c set)

unfoldable pub unlines : List Text → Text
unlines [] = []
unlines (line ∷ ls) = line ++ 10 ∷ unlines ls

unfoldable pub all_plain : List Text → Bool
all_plain [] = true
all_plain (line ∷ ls) = plain line && all_plain ls

unfoldable pub count_lines : Text → List Text → List ℕ
count_lines set [] = []
count_lines set (line ∷ ls) = occurrences set line ∷ count_lines set ls

counts-line :
    (set line rest : Text) (tag : ℕ)
    → plain line ≡ true
    → counts set tag (line ++ 10 ∷ rest) ≡ (tag + occurrences set line) ∷ counts set 0 rest
unfolding counts plain occurrences
counts-line set [] rest tag h = ground arith
counts-line set (c ∷ line) rest tag h =
    let more = counts-line set line rest (if matches c set then tag + 1 else tag) (ground arith) in
    elim (Bool-cases (matches c set)) [
      | inl e ↦ ground (arith, more, e, matches-lacks c set)
      | inr e ↦ ground (arith, more, e, matches-lacks c set)
    ]

counts-last : (set last : Text) (tag : ℕ) → plain last ≡ true → counts set tag last ≡ []
unfolding counts plain
counts-last set [] tag h = refl
counts-last set (c ∷ last) tag h =
    let rest = counts-last set last (if matches c set then tag + 1 else tag) (ground arith) in
    ground (arith, rest)

-- On any lines without the byte 255, whatever part of a line follows the last line feed, the program
-- prints for each line the number of its bytes that stand somewhere in the set. A last line without a
-- line feed is not counted.
pub counts_lem :
    (set : Text) (ls : List Text) (last : Text)
    → all_plain ls ≡ true
    → plain last ≡ true
    → counts set 0 (unlines ls ++ last) ≡ count_lines set ls
unfolding unlines all_plain count_lines
counts_lem set [] last h k = counts-last set last 0 k
counts_lem set (line ∷ ls) last h k =
    rw
      (
        append_assoc line (10 ∷ unlines ls) last,
        counts-line set line (unlines ls ++ last) 0 (ground arith),
        counts_lem set ls last (ground arith) k,
      )
      (ap (λ (n : ℕ). n ∷ count_lines set ls) (omega arith))
