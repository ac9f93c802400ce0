-- ===== src/Tests/Mirror.antt =====
-- Tests of Mirror.antt.
use ntu_sp17fall.Base.{◌≡◌, refl, true, [], ◌∷◌, ◌++◌, none, codes, arith}
use ntu_sp17fall.Mirror.Protocol.{magic_req, Stat, meta, Request}
use ntu_sp17fall.Mirror.{Disk, change_path}
use ntu_sp17fall.Mirror.Session.{Server, handle_one}
use ntu_sp17fall.Mirror.Paths.{change_path-below}
use ntu_sp17fall.Mirror.Guard.{needs_home, handle_one-before_login}

abbrev file_stat : Stat
file_stat = record { mode = 33188; ino = 2; nlink = 1; size = 2; atime = 11; mtime = 21 }

abbrev empty_disk : Disk
empty_disk = record { digest = λ path. none; stat = λ path. file_stat; creates = λ path. true }

abbrev nobody : Server
nobody = record { path = codes "../sdir"; account = none; client = λ fd. none }

abbrev early : Request
early = record {
  magic = magic_req;
  client_id = 0;
  body = meta 9 file_stat [];
  complete = true;
  stream = codes "../cdir/a";
}

handle_one-before_login_test : handle_one (λ t. t) nobody 5 empty_disk early ≡ none
unfolding needs_home
handle_one-before_login_test =
    handle_one-before_login (λ t. t) nobody 5 empty_disk early refl refl refl refl

change_path-below_test :
    change_path (codes "../sdir/u") (codes "../cdir" ++ b'/' ∷ codes "a/b")
    ≡ codes "../sdir/u" ++ b'/' ∷ codes "a/b"
change_path-below_test =
    change_path-below (codes "../cdir") (codes "../sdir/u") (codes "a/b") refl (ground arith)
