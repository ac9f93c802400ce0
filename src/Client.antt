-- ===== src/Client.antt =====
-- MP5/src/csiebox_client.c, and of MP5/src/csiebox_common.c the digest of a file: what the client of the
-- file synchronisation sends for a file. Child modules have the walk over the directories, the events of
-- inotify and the whole run.
-- A step gets the state of a run and gives a result with the new state. `none` is a fault: a read of what
-- was never set, or a fault of the hash table.
pub mod Paths
pub mod Exchange
pub mod Calls
pub mod Upload
pub mod Walk
pub mod Events
pub mod Removal
pub mod Session
use mathlib.Core.List.{flatten}
use ntu_sp17fall.Base.{
  ℕ, zero, suc, Bool, true, false, List, [], ◌∷◌, ◌++◌, Option, none, some, ℤ, Text, if◌then◌else◌,
  ◌==◌, length, take, drop,
}
use ntu_sp17fall.Hash.{Hash}
use ntu_sp17fall.Server.{Header, Stat, is_dir}
use ntu_sp17fall.Client.Paths.{full_path, convert_to_relative_path}

-- What the operating system answers: `lstat` and `open` with its content on a full path, the mode 0 where there
-- is nothing; `md5` of a text; the inode of a path, 0 where there is nothing; the watch of a path;
-- whether `getcwd` works in a directory and `chdir` to it; whether `malloc` gives memory.
pub record System : Type 0 where
  pub stat : Text → Stat
  pub content : Text → Option Text
  pub md5 : Text → Text
  pub inode : Text → ℤ
  pub watch : Text → ℤ
  pub getcwd : Text → Bool
  pub chdir : Text → Bool
  pub alloc : Bool

-- `csiebox_client` with what its steps use.
pub record Client : Type 0 where
  pub root : Text
  pub client_id : ℕ
  pub dir_hash : Hash Text
  pub inotify_hash : Hash Text
  pub ignore_inotify_event : Bool

-- What is sent, and the calls of inotify. `bytes` is a message without a header.
pub data Sent : Type 0 where
  login : Text → Text → Sent
  meta : ℕ → ℕ → Stat → Text → Sent
  file : ℕ → ℕ → Sent
  rm : ℕ → ℕ → Sent
  sync_end : ℕ → Sent
  bytes : Text → Sent
  rm_watch : ℤ → Sent

-- `answers` are the headers that the connection still gives.
pub record Run : Type 0 where
  pub client : Client
  pub sent : List Sent
  pub answers : List Header

abbrev pub M {ℓ} : Type ℓ → Type ℓ
M A = Run → Option (A × Run)

infixl 20 ◌>>=◌
abbrev pub ◌>>=◌ {ℓ κ} : {A : Type ℓ} {B : Type κ} → M A → (A → M B) → M B
◌>>=◌ m f r = elim (m r) [ none ↦ none | some (a, r') ↦ f a r' ]

infixl 20 ◌>>◌
abbrev pub ◌>>◌ {ℓ κ} : {A : Type ℓ} {B : Type κ} → M A → M B → M B
◌>>◌ m n r = elim (m r) [ none ↦ none | some (_, r') ↦ n r' ]

abbrev pub pure {ℓ} : {A : Type ℓ} → A → M A
pure a r = some (a, r)

abbrev pub get_client : M Client
get_client r = some (r.client, r)

abbrev pub put_client : Client → M (Unit {0})
put_client c r = some (tt, record r { client = c })

abbrev pub send : Sent → M (Unit {0})
send m r = some (tt, record r { sent = r.sent ++ m ∷ [] })

-- `send_message` sends nothing at the length 0.
unfoldable pub send_text : Text → M (Unit {0})
send_text [] r = some (tt, r)
send_text (c ∷ t) r = send (bytes (c ∷ t)) r

-- The header of `sync_file_meta` and of the data is read whether or not `recv_message` filled it.
abbrev pub next_answer : List Header → Run → Option (Header × Run)
next_answer [] r = none
next_answer (h ∷ hs) r = some (h, record r { answers = hs })

abbrev pub recv : M Header
recv r = next_answer r.answers r

-- The pieces of up to 4096 bytes that `read` gives, on fuel.
unfoldable pub read_loop : ℕ → Text → Option (List Text)
read_loop zero t = none
read_loop (suc fuel) t =
    let rest : Option (List Text) = read_loop fuel (drop 4096 t) in
    elim t [
      | [] ↦ some []
      | c ∷ cs ↦ elim rest [ none ↦ none | some ps ↦ some (take 4096 (c ∷ cs) ∷ ps) ]
    ]

-- Every piece has a byte at least.
unfoldable pub read_pieces : Text → Option (List Text)
read_pieces t = read_loop (suc (length t)) t

abbrev pub zeros : Text
zeros = 0 ∷ 0 ∷ 0 ∷ 0 ∷ 0 ∷ 0 ∷ 0 ∷ 0 ∷ 0 ∷ 0 ∷ 0 ∷ 0 ∷ 0 ∷ 0 ∷ 0 ∷ 0 ∷ []

-- The field `hash`, which is all zeros before; the pieces go into one digest.
unfoldable pub md5_file : System → Text → Text
md5_file sys path = elim (sys.content path) [
  | none ↦ zeros
  | some t ↦ elim (read_pieces t) [ none ↦ zeros | some ps ↦ sys.md5 (flatten ps) ]
]

unfoldable pub meta_hash : System → Text → Text
unfolding md5_file
meta_hash sys path = if is_dir (sys.stat path).mode then zeros else md5_file sys path

-- `return;` without a value at the status FAIL is `none`.
unfoldable pub meta_result : Header → Option ℕ
meta_result h = if h.status == 1 then none else some h.status

-- `sync_file_meta` behind the relative path, `none` for the null pointer. `at` is the full path.
unfoldable pub sync_meta : System → Text → Option Text → M (Option ℕ)
unfolding meta_result
sync_meta sys at none = pure (some 1)
sync_meta sys at (some relative) = do
  c ← get_client
  send (meta c.client_id (length relative) (sys.stat at) (meta_hash sys at))
  send_text relative
  h ← recv
  pure (meta_result h)

unfoldable pub sync_file_meta : System → Text → Text → M (Option ℕ)
unfolding sync_meta
sync_file_meta sys cwd path = do
  c ← get_client
  sync_meta sys (full_path true cwd path)
      (convert_to_relative_path (sys.getcwd cwd) cwd c.root path)

unfoldable pub send_pieces : List Text → M (Unit {0})
send_pieces [] = pure tt
send_pieces (p ∷ ps) = do send_text p; send_pieces ps

-- The part before the answer; the path is the full one. `pieces` are read from the open file.
unfoldable pub send_pieces_of : Option (List Text) → M (Unit {0})
unfolding send_pieces
send_pieces_of none r = none
send_pieces_of (some ps) r = send_pieces ps r

unfoldable pub send_content : Option Text → M (Unit {0})
unfolding send_pieces_of
send_content none = do c ← get_client; send (file c.client_id 0)
send_content (some t) = do
  c ← get_client
  send (file c.client_id (length t))
  send_pieces_of (read_pieces t)

-- A directory, and a file that cannot be opened, are announced with the length 0.
unfoldable pub send_data : System → Text → M (Unit {0})
unfolding send_content
send_data sys path = send_content (if is_dir (sys.stat path).mode then none else sys.content path)

unfoldable pub sync_file_data : System → Text → M (Unit {0})
unfolding send_data
sync_file_data sys path = do send_data sys path; h ← recv; pure tt

-- Behind the meta data: a status that was not returned is a fault.
unfoldable pub sync_more : System → Text → Option ℕ → M (Unit {0})
unfolding sync_file_data
sync_more sys path none r = none
sync_more sys path (some status) r = if status == 2 then sync_file_data sys path r else some (tt, r)

unfoldable pub sync_file : System → Text → Text → M (Unit {0})
unfolding sync_more sync_file_meta
sync_file sys cwd path = do
  status ← sync_file_meta sys cwd path
  sync_more sys (full_path true cwd path) status
