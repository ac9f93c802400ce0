-- ===== src/Client/Events.antt =====
-- The watching of MP5/src/csiebox_client.c: `handle_inotify` and `rm_file`.
use ntu_sp17fall.Base.{
  ℕ, zero, suc, Bool, false, List, [], ◌∷◌, ◌++◌, Option, none, some, ℤ, pos, Text, if◌then◌else◌,
  length,
}
use ntu_sp17fall.Hash.{Hash, get_from_hash, del_from_hash}
use ntu_sp17fall.Hash.ByPath.{get_from_hash_by_path}
use ntu_sp17fall.Client.{
  System, rm, rm_watch, Run, M, ◌>>=◌, ◌>>◌, pure, get_client, put_client, send, send_text, recv,
  sync_file, sync_file_meta,
}
use ntu_sp17fall.Client.Walk.{from_table, add_inotify}
use ntu_sp17fall.Client.Paths.{convert_to_relative_path}

-- `inotify_event` with the tests of its mask.
pub record Event : Type 0 where
  pub wd : ℤ
  pub is_create : Bool
  pub is_attrib : Bool
  pub is_delete : Bool
  pub is_dir : Bool
  pub name : Text

-- The watch of a directory that is gone.
unfoldable pub unwatch_found : ℕ × Hash Text → M (Unit {0})
unwatch_found (wd, h) = do
  c ← get_client
  send (rm_watch (pos wd))
  done ← from_table (del_from_hash h (pos wd))
  put_client (record c { inotify_hash = done.1 })

unfoldable pub unwatch : Text → M (Unit {0})
unfolding unwatch_found
unwatch path r = unwatch_found (get_from_hash_by_path r.client.inotify_hash path) r

-- `rm_file` behind the relative path.
unfoldable pub rm_relative : Text → Bool → Option Text → M (Unit {0})
unfolding unwatch
rm_relative path is_dir none r = some (tt, r)
rm_relative path is_dir (some relative) r =
    ((if is_dir then unwatch path else pure tt) >> (do
      c ← get_client
      send (rm c.client_id (length relative))
      send_text relative
      h ← recv
      pure tt))
      r

unfoldable pub rm_file : System → Text → Text → Bool → M (Unit {0})
unfolding rm_relative
rm_file sys cwd path is_dir = do
  c ← get_client
  rm_relative path is_dir (convert_to_relative_path (sys.getcwd cwd) cwd c.root path)

-- One event in the directory at `wd_path`.
unfoldable pub handle_event : System → Text → Text → Event → M (Unit {0})
unfolding rm_file
handle_event sys cwd wd_path e =
    let path = wd_path ++ (b'/' ∷ e.name) in
    if e.is_create
    then sync_file sys cwd path >> (if e.is_dir then add_inotify sys path else pure tt)
    else if e.is_attrib
    then sync_file_meta sys cwd path >> pure tt
    else if e.is_delete
    then rm_file sys cwd path e.is_dir
    else sync_file sys cwd path

-- The loop over the events that were read, on fuel. `none` is that the fuel ran out, `some none` a fault.
-- The `continue` at a watch that is not in the table leaves `i` where it is.
unfoldable pub handle_events : System → Text → ℕ → List Event → Run → Option (Option Run)
unfolding handle_event
handle_events sys cwd zero es r = none
handle_events sys cwd (suc fuel) [] r = some (some r)
handle_events sys cwd (suc fuel) (e ∷ es) r =
    let again : Option (Option Run) = handle_events sys cwd fuel (e ∷ es) r in
    let next : Run → Option (Option Run) = handle_events sys cwd fuel es in
    elim (get_from_hash r.client.inotify_hash e.wd) [
      | none ↦ some none
      | some none ↦ again
      | some (some wd_path) ↦ elim (handle_event sys cwd wd_path e r) [
        | none ↦ some none
        | some (_, r') ↦ next r'
      ]
    ]

-- The events are `none` where `read` gives nothing.
unfoldable pub handle_inotify : System → Text → ℕ → Option (List Event) → Run → Option (Option Run)
unfolding handle_events
handle_inotify sys cwd fuel none r = some (some r)
handle_inotify sys cwd fuel (some es) r =
    if r.client.ignore_inotify_event
    then some (some (record r { client = record r.client { ignore_inotify_event = false } }))
    else handle_events sys cwd fuel es r
