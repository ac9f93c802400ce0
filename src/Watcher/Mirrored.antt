-- ===== src/Watcher/Mirrored.antt =====
-- What the first walk of MP2/src/csiebox_client.c is to bring about on the server, path by path: the calls
-- by the kind of the file, without the requests that carry it there.
use ntu_sp17fall.Base.{
  ℕ, true, List, [], ◌∷◌, ◌++◌, Option, none, some, Text, text_eq, if◌then◌else◌, ◌==◌, replicate,
  lacks, length, ◌≡◌,
}
use ntu_sp17fall.Mirror.Protocol.{Header, Stat, is_reg, is_link, Request}
use ntu_sp17fall.Mirror.{
  Disk, Call, send, open_left, mkdir, chmod, utimes, lutimes, create, write, symlink, link,
  change_path, meta_answer,
}
use ntu_sp17fall.Mirror.Session.{Server, handle_one}
use ntu_sp17fall.Mirror.Replay.{state_after}
use ntu_sp17fall.Watcher.{System, Entry, md5_file}
use ntu_sp17fall.Watcher.Steps.{Move, enter, leave, meet}
use ntu_sp17fall.Watcher.Sending.{entry_of, first_same}

-- The answer among the calls.
unfoldable pub first_sent : List Call → Option Header
first_sent [] = none
first_sent (send h ∷ calls) = some h
first_sent (_ ∷ calls) = first_sent calls

-- The client on a connection to this server.
module _ (s : Server) (fd : ℕ) (disk : Disk) where
  unfoldable pub reply : (Text → Text) → Request → Option Header
  reply md5 req = elim (handle_one md5 s fd disk req) [
    | none ↦ none
    | some (s', calls) ↦ first_sent calls
  ]

  abbrev pub connected : System → System
  connected sys = record sys { answer = λ earlier req. reply sys.md5 req }

  -- The server as it is behind the earlier requests.
  abbrev pub live : System → System
  live sys = record sys {
    answer = λ earlier req.
        elim (handle_one sys.md5 (state_after sys.md5 s fd disk earlier) fd disk req) [
          | none ↦ none
          | some (s', calls) ↦ first_sent calls
        ];
  }

-- A file that can be read has the length that `lstat` gives, and so has the text of a symbolic link, which has
-- no null byte.
pub record IsConsistent (sys : System) : Type 0 where
  pub content_size : (path t : Text) → sys.content path ≡ some t → (sys.stat path).size ≡ length t
  pub link_size : (path t : Text) → sys.readlink path ≡ some t → (sys.stat path).size ≡ length t
  pub link_text : (path t : Text) → sys.readlink path ≡ some t → lacks 0 t ≡ true

-- What arrives of a file: the content, or zeros where it cannot be opened; and of a symbolic link.
unfoldable pub copied : System → Text → Text
copied sys path = elim (sys.content path) [ none ↦ replicate (sys.stat path).size 0 | some t ↦ t ]

unfoldable pub copied_link : System → Text → Text
copied_link sys path = elim (sys.readlink path) [ none ↦ [] | some t ↦ t ]

abbrev pub stamp : (Text → ℕ → ℕ → Call) → Text → Stat → Call
stamp call place stat = call place stat.atime stat.mtime

unfoldable pub mirror_folder : System → Text → Text → List Call
mirror_folder sys home path =
    let stat = sys.stat path in
    let place = change_path home path in
    mkdir place stat.mode
    ∷ chmod place stat.mode
    ∷ stamp utimes place stat
    ∷ send (meta_answer 0)
    ∷ []

-- A new file or symbolic link.
unfoldable pub mirror_new : System → Disk → Text → Text → List Call
unfolding copied copied_link
mirror_new sys disk home path =
    let stat = sys.stat path in
    let place = change_path home path in
    if is_reg stat.mode
    then create place stat.mode
      ∷ ((if disk.creates place then write place (copied sys path) ∷ [] else [])
          ++ stamp utimes place stat ∷ [])
    else if is_link stat.mode
    then symlink (copied_link sys path) place ∷ stamp lutimes place stat ∷ []
    else []

-- A file with several names is linked to the first of them that was met.
unfoldable pub mirror_copy : System → Disk → Text → List Entry → Text → List Call
unfolding mirror_new first_same
mirror_copy sys disk home earlier path =
    let stat = sys.stat path in
    if stat.nlink == 1 then mirror_new sys disk home path else elim (first_same stat.ino earlier) [
      | none ↦ mirror_new sys disk home path
      | some src ↦
          let from = change_path home src in
          let to = change_path home path in link from to ∷ stamp utimes to (disk.stat from) ∷ []
    ]

-- A regular file with the same digest on the server only gets the mode and the times; `copy` is for the
-- others.
unfoldable pub mirror_at : Option Text → Text → Stat → Text → List Call → List Call
mirror_at digest place stat hash copy =
    if is_link stat.mode
    then send (meta_answer 2) ∷ copy
    else if is_reg stat.mode
    then elim digest [
      | none ↦ send (meta_answer 2) ∷ copy
      | some digest ↦
          open_left place
          ∷ (if text_eq hash digest
              then chmod place stat.mode ∷ stamp utimes place stat ∷ send (meta_answer 0) ∷ []
              else send (meta_answer 2) ∷ copy)
    ]
    else send (meta_answer 0) ∷ []

unfoldable pub mirror_file : System → Disk → Text → List Entry → Text → List Call
unfolding mirror_at mirror_copy
mirror_file sys disk home earlier path =
    let place = change_path home path in
    mirror_at (disk.digest place) place (sys.stat path) (md5_file sys path)
      (mirror_copy sys disk home earlier path)

unfoldable pub mirror : System → Disk → Text → List Entry → List Move → List Call
unfolding mirror_folder mirror_file
mirror sys disk home earlier [] = []
mirror sys disk home earlier (enter path ∷ ms) =
    mirror_folder sys home path ++ mirror sys disk home (earlier ++ entry_of sys path ∷ []) ms
mirror sys disk home earlier (leave path ∷ ms) =
    mirror_folder sys home path ++ mirror sys disk home earlier ms
mirror sys disk home earlier (meet depth path ∷ ms) =
    mirror_file sys disk home earlier path
    ++ mirror sys disk home (earlier ++ entry_of sys path ∷ []) ms
