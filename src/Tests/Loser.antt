-- ===== src/Tests/Loser.antt =====
-- A directory with the files "a", "b" and "c", where the record has "a" with another digest and "b".
use ntu_sp17fall.Base.{
  Option, none, ◌≡◌, refl, not, ◌&&◌, List, [], ◌∷◌, some, Text, text_eq, codes, if◌then◌else◌,
  length, false, true, ◌++◌, lacks,
}
use ntu_sp17fall.Loser.{cmd, log, commit, special_case, keep_names}
use ntu_sp17fall.Loser.Maps.{find, insert, put, erase}
use ntu_sp17fall.Loser.Order
use ntu_sp17fall.Loser.Order.{sort, text_le}
use ntu_sp17fall.Loser.Classify.{Findings, sort_out, compare_file, compare_all, elem}
use ntu_sp17fall.Loser.Reports.{differs, compare_all-copied}
use ntu_sp17fall.Loser.Commit.{
  after_hash, seek_hash, skip_space, skip_word, read_number, after_mark, words, pairs, read_record,
  load, lines, table_lines, copied_lines, decimal, report, status_commit, first_word, short_words,
  unmarked,
}
use ntu_sp17fall.Mirror.Protocol.{c_string}
use ntu_sp17fall.Loser.Commands.{choose_action, alias_of, find_alias, choose_action-ignores}
use ntu_sp17fall.Loser.Reading.{plain_word, no_space}
use ntu_sp17fall.Loser.Log.{
  last_block, init, log_rounds, log_text, record_of, plain_commits, shown, log_text-record_of,
  print_block, and_then,
}
use ntu_sp17fall.Loser.RoundTrip.{readable, report-read_record}
use ntu_sp17fall.Loser.Saved.{compared, compared_lem}

abbrev md5 : Text → Text
md5 name = if text_eq name (codes "a") then codes "1" else codes "2"

abbrev listing : List Text
listing = codes "c" ∷ codes ".loser_record" ∷ codes "a" ∷ codes ".." ∷ codes "b" ∷ []

abbrev saved : Text
saved = codes "# commit 1\n[new_file]\na\nb\n[modified]\n[copied]\n(MD5)\na 0\nb 2\n"

abbrev recorded : List (Text × Text)
recorded = (codes "a", codes "0") ∷ (codes "b", codes "2") ∷ []

compared_lem_example :
    (elem (codes "a") (compared md5 listing recorded).modified
      ≡ (elem (codes "a") listing && not (special_case (codes "a")))
        && differs (find (codes "a") (load [] [] recorded).files) (md5 (codes "a")))
    × (find (codes "a") (compared md5 listing recorded).files ≡ (
        if elem (codes "a") listing && not (special_case (codes "a"))
        then some (md5 (codes "a"))
        else find (codes "a") (load [] [] recorded).files))
compared_lem_example = compared_lem md5 listing recorded (codes "a")

abbrev blank : Findings
blank = record {
  files = [];
  re_files = [];
  newfile = [];
  modified = [];
  copied = [];
  copied_src = [];
  diff = false;
}

compare_all-copied_test :
    (sort (compare_all md5 (sort (keep_names listing)) blank).copied
      ≡ (compare_all md5 (sort (keep_names listing)) blank).copied)
    × (length (compare_all md5 (sort (keep_names listing)) blank).copied
        ≡ length (compare_all md5 (sort (keep_names listing)) blank).copied_src)
compare_all-copied_test = compare_all-copied md5 listing blank refl refl

-- The text that a commit appends: "a" is modified, and "c" is a copy of "b".
status_commit_test :
    status_commit commit md5 (some listing) (some saved)
    ≡ some
        (codes "\n# commit 2\n[new_file]\n[modified]\na\n[copied]\nb => c\n(MD5)\na 1\nb 2\nc 2\n")
unfolding status_commit read_record after_hash seek_hash skip_space skip_word first_word short_words
    read_number after_mark words pairs text_eq keep_names special_case sort Order.insert text_le
    load insert put find erase compare_all compare_file sort_out report lines table_lines
    copied_lines decimal
status_commit_test = refl

-- An alias "lg" of "log" in the directory "d".
abbrev config : Text → Option Text
config s = some (codes "lg = log\n")

no_command : cmd (codes "lg") ≡ none
unfolding cmd text_eq
no_command = refl

no_command_2 : cmd (codes "zz") ≡ none
unfolding cmd text_eq
no_command_2 = refl

choose_action-ignores_test :
    (choose_action config (codes "lg" ∷ codes "3" ∷ codes "d" ∷ [])
      ≡ alias_of config (codes "d") (codes "3"))
    × (choose_action config (codes "lg" ∷ codes "3" ∷ codes "d" ∷ [])
        ≡ choose_action config (codes "zz" ∷ codes "3" ∷ codes "d" ∷ []))
choose_action-ignores_test =
    choose_action-ignores config (codes "lg") (codes "zz") (codes "3") (codes "d") [] no_command
      no_command_2

-- The alias is found with two arguments and missed with three.
choose_action_test :
    (choose_action config (codes "lg" ∷ codes "d" ∷ []) ≡ some log)
    × (choose_action config (codes "lg" ∷ codes "3" ∷ codes "d" ∷ []) ≡ none)
unfolding choose_action alias_of find_alias words cmd text_eq
choose_action_test = (refl, refl)

abbrev one_new : Findings
one_new = record {
  files = (codes "a", codes "x") ∷ (codes "b", codes "y") ∷ [];
  re_files = [];
  newfile = codes "b" ∷ [];
  modified = [];
  copied = [];
  copied_src = [];
  diff = true;
}

abbrev second_commit : Text
second_commit = codes "\n# commit 2\n[new_file]\nb\n[modified]\n[copied]\n(MD5)\na x\nb y\n"

report_test : report commit 1 one_new ≡ some second_commit
unfolding report lines table_lines copied_lines decimal sort Order.insert text_le
report_test = refl

report-read_record_example :
    read_record (codes "# commit 1\n" ++ second_commit)
    ≡ some (2, (codes "a", codes "x") ∷ (codes "b", codes "y") ∷ [])
unfolding readable unmarked lacks text_eq sort plain_word no_space lines table_lines
report-read_record_example =
    report-read_record (codes "# commit 1\n") 1 one_new second_commit report_test refl refl

-- Two of three commits.
log_text_test :
    log_text 2 (some (codes "# c 1\nx\n\n# c 2\n\n# c 3\nz\n")) ≡ some (codes "# c 3\nz\n\n# c 2\n")
unfolding log_text log_rounds last_block print_block and_then init c_string
log_text_test = refl

log_text-record_of_example : log_text 2 (some (codes "#ax#bx#cx")) ≡ some (codes "#c\n\n#b")
unfolding plain_commits unmarked record_of shown init c_string
log_text-record_of_example = log_text-record_of 2 (codes "cx") (codes "bx" ∷ codes "ax" ∷ []) refl

-- The byte 255 ends the search of both.
byte_255_test :
    (log_text 1 (some (codes "#ab" ++ 255 ∷ codes "cd")) ≡ some (codes "#c\n"))
    × (seek_hash (codes "#ab" ++ 255 ∷ codes "cd") ≡ some (codes "cd"))
unfolding log_text log_rounds last_block print_block and_then init c_string after_hash seek_hash
byte_255_test = (refl, refl)
