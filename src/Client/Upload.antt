-- ===== src/Client/Upload.antt =====
-- The two `sync_file`s, of MP5/src/csiebox_client.c and of MP5/src/csiebox_server.c, on a regular file.
use mathlib.Core.List.{flatten}
use ntu_sp17fall.Base.{
  ℕ, ◌≡◌, refl, ap, ◌∙◌, Bool, true, false, List, [], ◌∷◌, ◌++◌, Option, none, some, Text,
  if◌then◌else◌, text_eq_refl, length, arith, map, leb, inl, inr,
}
use ntu_sp17fall.Server.{
  Header, Stat, Answers, Call, send, create, write, chmod, utime, is_dir, sync_at, need_data,
  response, received, receive_file, touch,
}
use ntu_sp17fall.Server.Receive.{receive_lem}
use ntu_sp17fall.Client.{
  System, Client, Sent, meta, file, sync_more, sync_file_data, sync_file_meta, meta_hash, sync_file,
  recv, pure, ◌>>=◌, send_data,
}
use ntu_sp17fall.Client.Paths.{full_path, convert_to_relative_path, take_all}
use ntu_sp17fall.Client.Exchange.{
  replies, file_after, text_of, messages, payload, payload-messages, bind_lem, then_lem,
  read_pieces_lem, send_data_lem, sync_file_meta_lem,
}
use ntu_sp17fall.Client.Calls.{
  replies-append, file_after-append, IsQuiet, touch-IsQuiet, replies-writes, file_after-writes,
}

-- `opened` holds; the connection brings the file after its length.
abbrev pub answers_for : Option Stat → Text → Text → Answers
answers_for there digest t = record {
  stat = there;
  digest = digest;
  datalen = length t;
  stream = t;
  opened = true;
}

received_lem :
    (there : Option Stat) (digest t : Text)
    → (ps : List Text) × (received (answers_for there digest t) ≡ ps) × (flatten ps ≡ t)
unfolding received
received_lem there digest t =
    let full : leb (length t) (length t) ≡ true = ground arith in
    let (ps, run, result) = receive_lem (length t) t in
    (
      ps,
      rw (received, run) refl,
      elim result [
        | inl short ↦ absurd (ground arith)
        | inr same ↦ same ∙ take_all t (length t) full
      ],
    )

-- What a new file gets behind its bytes.
late_calls : Bool → Text → Stat → List Call
late_calls change p m = if change then chmod p m.mode ∷ utime p m.atime m.mtime ∷ [] else []

late_calls-IsQuiet : (change : Bool) (p : Text) (m : Stat) → IsQuiet p (late_calls change p m)
unfolding late_calls replies file_after
late_calls-IsQuiet true p m = record { silent = refl; keeps = λ t. refl }
late_calls-IsQuiet false p m = record { silent = refl; keeps = λ t. refl }

receive_file_lem :
    (fd : ℕ) (p : Text) (change : Bool) (m : Stat) (there : Option Stat) (digest t : Text)
    → is_dir m.mode ≡ false
    → (replies (receive_file fd p change m (answers_for there digest t)) ≡ response 2 0 fd ∷ [])
      × ((old : Option Text)
          → file_after p (receive_file fd p change m (answers_for there digest t)) old ≡ some t)
receive_file_lem fd p change m there digest t regular =
    let (ps, run, same) = received_lem there digest t in
    let late = late_calls-IsQuiet change p m in
    let written = create p ∷ map (write p) ps in
    let last : List Call = send fd (response 2 0 fd) ∷ [] in
    let form : receive_file fd p change m (answers_for there digest t)
        ≡ (written ++ late_calls change p m) ++ last =
      unfold receive_file late_calls in rw (regular, run) refl in
    let silent : replies written ≡ [] = unfold replies in replies-writes p ps in
    let content : (old : Option Text) → file_after p written old ≡ some t = λ old.
      unfold file_after in
      rw (file_after, text_eq_refl p) (file_after-writes p [] ps ∙ ap some same) in
    (
      rw form (
          rw
            (
              replies-append (written ++ late_calls change p m) last,
              replies-append written (late_calls change p m),
              silent,
              late.silent,
            )
            (unfold replies in refl)),
      λ old. rw form (
          rw
            (
              file_after-append p (written ++ late_calls change p m) last old,
              file_after-append p written (late_calls change p m) old,
              content old,
              late.keeps (some t),
            )
            (unfold file_after in refl)),
    )

sync_at_lem :
    (fd : ℕ) (p : Text) (m : Stat) (hash : Text) (there : Option Stat) (digest t : Text)
    → is_dir m.mode ≡ false
    → need_data there digest hash ≡ true
    → (replies (sync_at fd p m hash (answers_for there digest t))
        ≡ response 1 2 fd ∷ response 2 0 fd ∷ [])
      × ((old : Option Text)
          → file_after p (sync_at fd p m hash (answers_for there digest t)) old ≡ some t)
sync_at_lem fd p m hash none digest t regular need =
    let (answered, holds) = receive_file_lem fd p true m none digest t regular in
    let form : sync_at fd p m hash (answers_for none digest t)
        ≡ send fd (response 1 2 fd) ∷ receive_file fd p true m (answers_for none digest t) =
      unfold sync_at in rw need refl in
    (
      rw form (unfold replies in ap (λ (l : List Header). response 1 2 fd ∷ l) answered),
      λ old. rw form (unfold file_after in holds old),
    )
sync_at_lem fd p m hash (some s) digest t regular need =
    let (answered, holds) = receive_file_lem fd p false m (some s) digest t regular in
    let quiet = touch-IsQuiet p s m in
    let more =
      send fd (response 1 2 fd) ∷ receive_file fd p false m (answers_for (some s) digest t) in
    let form : sync_at fd p m hash (answers_for (some s) digest t) ≡ touch p s m ++ more =
      unfold sync_at in rw need refl in
    (
      rw form (
          rw (replies-append (touch p s m) more, quiet.silent)
            (unfold replies in ap (λ (l : List Header). response 1 2 fd ∷ l) answered)),
      λ old. rw form (
          rw (file_after-append p (touch p s m) more old, quiet.keeps old)
            (unfold file_after in holds old)),
    )

-- For a regular file below the root that can be read, if the server can open its own and has none yet
-- or one with another digest: against the server's own answers the client's `sync_file` returns, reads
-- every answer, and sends the meta data, the path, the length and then, in whatever pieces, exactly the
-- content; and behind the server's calls its file has that content, whatever it held before.
pub sync_file-uploads :
    (sys : System) (cwd path rel t : Text) (c : Client) (fd : ℕ) (homedir : Text)
    (there : Option Stat) (digest : Text)
    → convert_to_relative_path (sys.getcwd cwd) cwd c.root path ≡ some rel
    → is_dir (sys.stat (full_path true cwd path)).mode ≡ false
    → sys.content (full_path true cwd path) ≡ some t
    → need_data there digest (meta_hash sys (full_path true cwd path)) ≡ true
    → let at = full_path true cwd path in
      let calls =
        sync_at fd (homedir ++ rel) (sys.stat at) (meta_hash sys at) (answers_for there digest t) in
      (out : List Sent) × (sync_file sys cwd path
          (record { client = c; sent = []; answers = replies calls })
        ≡ some (
          tt,
          record {
            client = c;
            sent =
                (((meta c.client_id (length rel) (sys.stat at) (meta_hash sys at) ∷ [])
                    ++ text_of rel)
                  ++ (file c.client_id (length t) ∷ []))
                ++ out;
            answers = [];
          },
        ))
      × (payload out ≡ t)
      × ((old : Option Text) → file_after (homedir ++ rel) calls old ≡ some t)
unfolding sync_file sync_more sync_file_data
sync_file-uploads sys cwd path rel t c fd homedir there digest relative regular readable need =
    let at = full_path true cwd path in
    let m = sys.stat at in
    let hash = meta_hash sys at in
    let (answered, holds) = sync_at_lem fd (homedir ++ rel) m hash there digest t regular need in
    let (ps, pieces, same) = read_pieces_lem t in
    let ms = (meta c.client_id (length rel) m hash ∷ []) ++ text_of rel in
    let hs : List Header = response 2 0 fd ∷ [] in
    let announced = sync_file_meta_lem sys cwd path rel c [] (response 1 2 fd) hs relative refl in
    let brought = send_data_lem sys at t ps c ms hs regular readable pieces in
    (
      messages ps,
      rw answered (
          bind_lem (sync_file_meta sys cwd path) (sync_more sys at)
            (record { client = c; sent = []; answers = response 1 2 fd ∷ hs }) (some 2)
            (record { client = c; sent = ms; answers = hs }) announced
          ∙ then_lem (send_data sys at) (do h ← recv; pure tt)
              (record { client = c; sent = ms; answers = hs }) tt
              (record {
                client = c;
                sent = (ms ++ (file c.client_id (length t) ∷ [])) ++ messages ps;
                answers = hs;
              })
              brought),
      payload-messages ps ∙ same,
      holds,
    )
