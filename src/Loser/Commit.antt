-- ===== src/Loser/Commit.antt =====
-- `status_commit` of MP1/loser.cpp: reading the record, comparing the directory with it, and the text
-- that is written, to the terminal for `status` and behind the record for `commit`.
-- A record has lines below 2,000 bytes and a commit number without a sign, as `commit` writes them.
use ntu_sp17fall.Base.{
  ℕ, zero, suc, ◌+◌, ◌-◌, ◌*◌, ◌/◌, ◌%◌, ◌^◌, Bool, true, false, not, ltb, length, ◌&&◌, ◌||◌, List,
  [], ◌∷◌, ◌++◌, Option, none, some, Text, codes, text_eq, if◌then◌else◌, ◌==◌, leb, drop,
}
use ntu_sp17fall.Loser.{Action, commit, keep_names}
use ntu_sp17fall.Loser.Order.{sort}
use ntu_sp17fall.Loser.Maps.{Map, insert}
use ntu_sp17fall.Loser.Classify.{Findings, compare_all}

-- The bytes behind the last '#' or 255: read into a `char`, the byte 255 is equal to `EOF`.
unfoldable pub after_hash : Text → Option Text
after_hash [] = none
after_hash (c ∷ t) =
    let rest : Option Text = after_hash t in
    elim rest [ some u ↦ some u | none ↦ if c == b'#' || c == 255 then some t else none ]

-- The search for '#' from the end. Where nothing stops it, it never returns, `none`, unless the record
-- has less than two bytes.
unfoldable pub seek_hash : Text → Option Text
seek_hash [] = some []
seek_hash (c ∷ []) = some []
seek_hash (c ∷ d ∷ t) = after_hash (c ∷ d ∷ t)

-- Neither a '#' nor the byte 255.
unfoldable pub unmarked : Text → Bool
unmarked [] = true
unmarked (c ∷ t) = not (c == b'#' || c == 255) && unmarked t

abbrev pub is_space : ℕ → Bool
is_space c = c == 32 || (leb 9 c && leb c 13)

unfoldable pub skip_space : Text → Text
skip_space [] = []
skip_space (c ∷ t) = if is_space c then skip_space t else c ∷ t

unfoldable pub skip_word : Text → Text
skip_word [] = []
skip_word (c ∷ t) = if is_space c then c ∷ t else skip_word t

-- What `%s` reads into `tmp`.
unfoldable pub first_word : Text → Text
first_word [] = []
first_word (c ∷ t) = let rest = first_word t in if is_space c then [] else c ∷ rest

-- `%d`, from the value `n` of the digits read so far.
unfoldable pub read_number : ℕ → Text → ℕ × Text
read_number n [] = (n, [])
read_number n (c ∷ t) =
    if leb b'0' c && leb c b'9' then read_number (10 * n + (c - b'0')) t else (n, c ∷ t)

-- `fgets` up to the line "(MD5)"; `line` is what was read of the present line.
unfoldable pub after_mark : Text → Text → Text
after_mark line [] = []
after_mark line (c ∷ t) =
    let rest = after_mark (if c == 10 then [] else line ++ c ∷ []) t in
    if c == 10 && text_eq line (codes "(MD5)") then t else rest

-- The words that `%s` reads one after the other.
unfoldable pub words : Text → Text → List Text
words word [] = elim word [ [] ↦ [] | c ∷ cs ↦ (c ∷ cs) ∷ [] ]
words word (c ∷ t) =
    let rest = words (if is_space c then [] else word ++ c ∷ []) t in
    if is_space c then elim word [ [] ↦ rest | d ∷ ds ↦ (d ∷ ds) ∷ rest ] else rest

unfoldable pub pairs : List Text → List (Text × Text)
pairs [] = []
pairs (x ∷ []) = []
pairs (x ∷ y ∷ ws) = (x, y) ∷ pairs ws

-- Whether the arrays of 256 bytes hold each word and its null byte.
unfoldable pub short_words : List Text → Bool
short_words [] = true
short_words (w ∷ ws) = ltb (length w) 256 && short_words ws

-- The number of the last commit and the pairs of its table. A word that overflows its array, of which `tmp`
-- has 20 bytes, and a number that overflows an `int` are faults, `none`.
unfoldable pub read_record : Text → Option (ℕ × List (Text × Text))
unfolding after_hash seek_hash skip_space skip_word first_word read_number after_mark words pairs
    short_words
read_record t = elim (seek_hash t) [
  | none ↦ none
  | some u ↦
      let v = skip_space (drop 1 u) in
      let (n, rest) = read_number 0 (skip_space (skip_word v)) in
      let ws = words [] (after_mark [] (skip_space rest)) in
      if ltb (length (first_word v)) 20 && (ltb n (2 ^ 31) && short_words ws)
      then some (n, pairs ws)
      else none
]

-- The maps after the record was read, with empty lists.
unfoldable pub load : Map → Map → List (Text × Text) → Findings
load files re_files [] = record {
  files = files;
  re_files = re_files;
  newfile = [];
  modified = [];
  copied = [];
  copied_src = [];
  diff = false;
}
load files re_files ((name, sum) ∷ ps) = load (insert name sum files) (insert sum name re_files) ps

unfoldable pub lines : List Text → Text
lines [] = []
lines (x ∷ xs) = x ++ 10 ∷ lines xs

unfoldable pub table_lines : Map → Text
table_lines [] = []
table_lines ((name, sum) ∷ m) = name ++ 32 ∷ sum ++ 10 ∷ table_lines m

-- A source for each copy; past the end of `copied_src` is a fault, `none`.
unfoldable pub copied_lines : List Text → List Text → Option Text
copied_lines [] srcs = some []
copied_lines (x ∷ xs) [] = none
copied_lines (x ∷ xs) (y ∷ ys) =
    let rest : Option Text = copied_lines xs ys in
    elim rest [ none ↦ none | some t ↦ some (y ++ codes " => " ++ x ++ 10 ∷ t) ]

-- `%d` of a number that is not negative.
unfoldable pub decimal : ℕ → ℕ → Text
decimal zero n = []
decimal (suc fuel) n =
    let high = decimal fuel (n / 10) in
    if leb n 9 then (b'0' + n) ∷ [] else high ++ (b'0' + n % 10) ∷ []

abbrev heading : Action → ℕ → Text
heading commit n = 10 ∷ codes "# commit " ++ decimal (suc n) n ++ 10 ∷ []
heading _ n = []

abbrev table : Action → Map → Text
table commit files = codes "(MD5)\n" ++ table_lines files
table _ files = []

unfoldable pub insert_all : (Text → Text) → List Text → Map → Map
insert_all md5 [] files = files
insert_all md5 (name ∷ names) files = insert_all md5 names (insert name (md5 name) files)

-- What is written without a record.
unfoldable pub first_report : Action → (Text → Text) → List Text → Text
unfolding lines table_lines insert_all
first_report commit md5 [] = []
first_report commit md5 (x ∷ xs) =
    codes "# commit 1\n"
    ++ codes "[new_file]\n"
    ++ lines (x ∷ xs)
    ++ codes "[modified]\n"
    ++ codes "[copied]\n"
    ++ table commit (insert_all md5 (x ∷ xs) [])
first_report _ md5 names =
    codes "[new_file]\n" ++ lines names ++ codes "[modified]\n" ++ codes "[copied]\n"

-- What is written behind the loop; `n` is the number of the last commit.
unfoldable pub report : Action → ℕ → Findings → Option Text
unfolding lines table_lines copied_lines decimal
report action n s = elim (copied_lines (sort s.copied) s.copied_src) [
  | none ↦ none
  | some copies ↦ some (
      heading action (n + 1)
      ++ codes "[new_file]\n"
      ++ lines (sort s.newfile)
      ++ codes "[modified]\n"
      ++ lines (sort s.modified)
      ++ codes "[copied]\n"
      ++ copies
      ++ table action s.files)
]

abbrev pub silent : Action → Bool → Bool
silent commit diff = not diff
silent _ diff = false

-- The text written. `saved` is the record's, `none` if there is no record. If the directory cannot be
-- listed the length -1 becomes the largest number, and the loop reads behind the names: a fault, `none`.
unfoldable pub status_commit :
    Action → (Text → Text) → Option (List Text) → Option Text → Option Text
status_commit action md5 none saved = none
status_commit action md5 (some listing) none =
    some (first_report action md5 (sort (keep_names listing)))
status_commit action md5 (some listing) (some saved) = elim (read_record saved) [
  | none ↦ none
  | some (n, ps) ↦
      let s = compare_all md5 (sort (keep_names listing)) (load [] [] ps) in
      if silent action s.diff then some [] else report action n s
]
