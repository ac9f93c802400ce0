-- ===== src/Loser.antt =====
-- MP1: "loser", a version control of file lists by MD5 sums: `loser.cpp`, with the directory listing of
-- `list_file.cpp` and the digest of `md5.cpp`.
-- The directory is the list of names that `readdir` gives; the digest of a file is the argument `md5`
-- from names to texts (OpenSSL's MD5 of the contents, as 32 hexadecimal digits).
pub mod Order
pub mod Maps
pub mod Classify
pub mod Reports
pub mod Commit
pub mod Saved
pub mod Reading
pub mod RoundTrip
pub mod Log
pub mod Commands
use ntu_sp17fall.Base.{
  ℕ, zero, suc, ◌+◌, Bool, true, false, ◌||◌, List, [], ◌∷◌, ◌++◌, Option, none, some, Text, codes,
  text_eq, if◌then◌else◌, ◌==◌,
}

abbrev pub loser_record : Text
loser_record = codes ".loser_record"

abbrev pub loser_config : Text
loser_config = codes ".loser_config"

-- 1, 2 and 3 of the source; 0 is `none`.
pub data Action : Type 0 where
  status commit log : Action

unfoldable pub cmd : Text → Option Action
cmd s =
    if text_eq (codes "status") s
    then some status
    else if text_eq (codes "commit") s
    then some commit
    else if text_eq (codes "log") s
    then some log
    else none

unfoldable pub special_case : Text → Bool
special_case s =
    text_eq s (codes ".loser_record") || text_eq s (codes ".") || text_eq s (codes "..")

unfoldable pub merge_name : Text → Text → Text
merge_name s file = s ++ b'/' ∷ file

-- The names that `status_commit` keeps of the listing.
unfoldable pub keep_names : List Text → List Text
unfolding special_case
keep_names [] = []
keep_names (x ∷ xs) = if special_case x then keep_names xs else x ∷ keep_names xs
