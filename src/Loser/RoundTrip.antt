-- ===== src/Loser/RoundTrip.antt =====
-- `status_commit` of MP1/loser.cpp: what a commit writes behind the record is what the next run reads.
use ntu_sp17fall.Base.{
  ℕ, suc, ◌+◌, ◌≡◌, refl, ap, ◌∙◌, sym, Bool, true, ◌&&◌, List, [], ◌∷◌, ◌++◌, none, some, Text,
  codes, ◌^◌, ltb, arith, append_assoc, Option-cases, inl, inr,
}
use ntu_sp17fall.Loser.{commit}
use ntu_sp17fall.Loser.Order.{sort}
use ntu_sp17fall.Loser.Maps.{Map}
use ntu_sp17fall.Loser.Classify.{Findings}
use ntu_sp17fall.Loser.Commit.{
  skip_space, skip_word, read_number, after_mark, words, pairs, read_record, lines, table_lines,
  copied_lines, decimal, report, unmarked, first_word, short_words,
}
use ntu_sp17fall.Loser.Reading.{
  seek_hash-append, read_number-decimal, decimal-IsNumber, skip_space-IsNumber, plain_lines,
  after_mark-lines, after_mark-found, plain_table, pairs-words, short_words-words, unmarked-append,
}

unfoldable pub copied_rows : List Text → List Text → List Text
copied_rows [] srcs = []
copied_rows (x ∷ xs) [] = []
copied_rows (x ∷ xs) (y ∷ ys) = ((y ++ codes " => ") ++ x) ∷ copied_rows xs ys

-- The lines between the number and the table.
unfoldable pub middle : Findings → List Text
unfolding copied_rows
middle s =
    (codes "[new_file]" ∷ sort s.newfile)
    ++ ((codes "[modified]" ∷ sort s.modified)
        ++ (codes "[copied]" ∷ copied_rows (sort s.copied) s.copied_src))

-- No name and no digest has a space, a '#' or the byte 255, is empty or has 256 bytes or more, and no line
-- is the mark of the table or has 1,999 bytes or more.
unfoldable pub readable : Findings → Bool
unfolding middle plain_lines plain_table
readable s =
    (plain_lines (middle s) && plain_table s.files)
    && (unmarked (lines (middle s)) && unmarked (table_lines s.files))

lines-append : (xs ys : List Text) → lines (xs ++ ys) ≡ lines xs ++ lines ys
unfolding lines
lines-append [] ys = refl
lines-append (x ∷ xs) ys =
    ap (λ (t : Text). x ++ (10 ∷ t)) (lines-append xs ys)
    ∙ sym (append_assoc x (10 ∷ lines xs) (lines ys))

copied_lines-rows :
    (xs ys : List Text) (t : Text) → copied_lines xs ys ≡ some t → t ≡ lines (copied_rows xs ys)
unfolding copied_lines copied_rows lines
copied_lines-rows [] ys t h = cc
copied_lines-rows (x ∷ xs) [] t h = absurd (ground arith)
copied_lines-rows (x ∷ xs) (y ∷ ys) t h = elim (Option-cases (copied_lines xs ys)) [
  | inl e ↦ let p : none ≡ some t = rw (copied_lines, e) at h in absurd (ground arith)
  | inr (u, e) ↦
      let p : some ((y ++ codes " => " ++ x) ++ (10 ∷ u)) ≡ some t = rw (copied_lines, e) at h in
      let same = copied_lines-rows xs ys u e in
      let q : t ≡ (y ++ codes " => " ++ x) ++ (10 ∷ u) = cc in
      q ∙ ap (λ (v : Text). (y ++ codes " => " ++ x) ++ (10 ∷ v)) same
]

-- The numbered part behind the last '#'.
numbered : ℕ → List Text → Map → Text
numbered n mid files =
    codes " commit "
    ++ (decimal (suc n) n ++ (10 ∷ (lines mid ++ (codes "(MD5)\n" ++ table_lines files))))

read_record_lem :
    (saved : Text) (n : ℕ) (line : Text) (mid : List Text) (files : Map)
    → plain_lines ((b'[' ∷ line) ∷ mid) ≡ true
    → plain_table files ≡ true
    → unmarked (lines ((b'[' ∷ line) ∷ mid)) ≡ true
    → unmarked (table_lines files) ≡ true
    → ltb n (2 ^ 31) ≡ true
    → read_record (saved ++ (10 ∷ b'#' ∷ numbered n ((b'[' ∷ line) ∷ mid) files)) ≡ some (n, files)
unfolding read_record numbered skip_space skip_word first_word read_number lines unmarked
read_record_lem saved n line mid files pl pt hl ht small =
    let rest = codes "(MD5)\n" ++ table_lines files in
    let tail = lines ((b'[' ∷ line) ∷ mid) ++ rest in
    let digits = decimal-IsNumber (suc n) n (omega arith) in
    let behind : unmarked tail ≡ true = unmarked-append (lines ((b'[' ∷ line) ∷ mid)) rest hl ht in
    let all : unmarked (numbered n ((b'[' ∷ line) ∷ mid) files) ≡ true =
      unmarked-append (decimal (suc n) n) (10 ∷ tail) digits.plain behind in
    let found = seek_hash-append saved (numbered n ((b'[' ∷ line) ∷ mid) files) 10 all in
    let read : words [] (after_mark [] tail) ≡ words [] (table_lines files) =
      ap (words [])
        (after_mark-lines ((b'[' ∷ line) ∷ mid) rest pl ∙ after_mark-found (table_lines files)) in
    let fits : ltb n (2 ^ 31) && short_words (words [] (after_mark [] tail)) ≡ true =
      rw read (ground (arith, small, short_words-words files pt)) in
    rw (read_record, found)
      (rw
        (
          skip_space-IsNumber (decimal (suc n) n) (10 ∷ tail) digits,
          read_number-decimal (suc n) n (10 ∷ tail) (omega arith),
        )
        (rw fits (ap (λ (m : Map). some (n, m)) (ap pairs read ∙ pairs-words files pt))))

regroup :
    (a b c d e f g h : Text)
    → ((((((a ++ b) ++ c) ++ d) ++ e) ++ f) ++ g) ++ h
      ≡ a ++ (b ++ (c ++ (d ++ (e ++ (f ++ (g ++ h))))))
regroup a b c d e f g h = simp append_assoc

regroup_inner :
    (b c d e f g h : Text)
    → (b ++ (c ++ (d ++ (e ++ (f ++ g))))) ++ h ≡ b ++ (c ++ (d ++ (e ++ (f ++ (g ++ h)))))
regroup_inner b c d e f g h = simp append_assoc

heading_form :
    (d t : Text)
    → (((10 ∷ codes "# commit ") ++ d) ++ (10 ∷ [])) ++ t
      ≡ 10 ∷ b'#' ∷ (codes " commit " ++ (d ++ (10 ∷ t)))
heading_form d t =
    append_assoc ((10 ∷ codes "# commit ") ++ d) (10 ∷ []) t
    ∙ append_assoc (10 ∷ codes "# commit ") d (10 ∷ t)

lines-middle :
    (s : Findings) (copies : Text)
    → copied_lines (sort s.copied) s.copied_src ≡ some copies
    → lines (middle s)
      ≡ codes "[new_file]\n"
        ++ (lines (sort s.newfile)
            ++ (codes "[modified]\n"
                ++ (lines (sort s.modified) ++ (codes "[copied]\n" ++ copies))))
unfolding middle lines
lines-middle s copies e =
    let changes = codes "[modified]" ∷ sort s.modified in
    let rows = codes "[copied]" ∷ copied_rows (sort s.copied) s.copied_src in
    ap (λ (t : Text). codes "[new_file]\n" ++ t)
      (lines-append (sort s.newfile) (changes ++ rows)
        ∙ ap (λ (t : Text). lines (sort s.newfile) ++ (codes "[modified]\n" ++ t))
            (lines-append (sort s.modified) rows
              ∙ ap (λ (t : Text). lines (sort s.modified) ++ (codes "[copied]\n" ++ t))
                  (sym (copied_lines-rows (sort s.copied) s.copied_src copies e))))

report_form :
    (n : ℕ) (s : Findings) (text : Text)
    → report commit n s ≡ some text
    → text ≡ 10 ∷ b'#' ∷ numbered (n + 1) (middle s) s.files
unfolding report numbered
report_form n s text h = elim (Option-cases (copied_lines (sort s.copied) s.copied_src)) [
  | inl e ↦ let p : none ≡ some text = rw (report, e) at h in absurd (ground arith)
  | inr (copies, e) ↦
      let head = ((10 ∷ codes "# commit ") ++ decimal (suc (n + 1)) (n + 1)) ++ (10 ∷ []) in
      let saved = codes "(MD5)\n" ++ table_lines s.files in
      let whole : some (
            ((((((head ++ codes "[new_file]\n") ++ lines (sort s.newfile)) ++ codes "[modified]\n")
                  ++ lines (sort s.modified))
                ++ codes "[copied]\n")
              ++ copies)
            ++ saved)
          ≡ some text =
        rw (report, e) at h in
      let text_is : text
          ≡ ((((((head ++ codes "[new_file]\n") ++ lines (sort s.newfile)) ++ codes "[modified]\n")
                  ++ lines (sort s.modified))
                ++ codes "[copied]\n")
              ++ copies)
            ++ saved =
        cc in
      let inner =
        ap (λ (t : Text). t ++ saved) (lines-middle s copies e)
        ∙ regroup_inner (codes "[new_file]\n") (lines (sort s.newfile)) (codes "[modified]\n")
            (lines (sort s.modified)) (codes "[copied]\n") copies saved in
      text_is
      ∙ regroup head (codes "[new_file]\n") (lines (sort s.newfile)) (codes "[modified]\n")
          (lines (sort s.modified)) (codes "[copied]\n") copies saved
      ∙ ap (λ (t : Text). head ++ t) (sym inner)
      ∙ heading_form (decimal (suc (n + 1)) (n + 1)) (lines (middle s) ++ saved)
]

-- The text that `commit` writes behind any record is read back by the next run: its number is one more
-- than that of the last commit, and its table the one saved, where that number is below 2 ^ 31, each name
-- and digest in the table has 1 to 255 bytes and no space, '#' or byte 255, and no reported name has a
-- line feed, a '#' or the byte 255 or is "(MD5)", and no line has 1,999 bytes or more.
pub report-read_record :
    (saved : Text) (n : ℕ) (s : Findings) (text : Text)
    → report commit n s ≡ some text
    → readable s ≡ true
    → ltb (n + 1) (2 ^ 31) ≡ true
    → read_record (saved ++ text) ≡ some (n + 1, s.files)
unfolding readable middle
report-read_record saved n s text h r small =
    let form = report_form n s text h in
    let after_news =
      sort s.newfile
      ++ ((codes "[modified]" ∷ sort s.modified)
          ++ (codes "[copied]" ∷ copied_rows (sort s.copied) s.copied_src)) in
    let plain : plain_lines (middle s) ≡ true = ground arith in
    let words_plain : plain_table s.files ≡ true = ground arith in
    let unnumbered : unmarked (lines (middle s)) ≡ true = ground arith in
    let table_unnumbered : unmarked (table_lines s.files) ≡ true = ground arith in
    ap (λ (t : Text). read_record (saved ++ t)) form
    ∙ read_record_lem saved (n + 1) (codes "new_file]") after_news s.files plain words_plain
        unnumbered table_unnumbered small
