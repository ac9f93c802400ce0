-- ===== src/Watcher/Events.antt =====
-- `get_dir_name`, `go_rm` and `inotify` of MP2/src/csiebox_client.c.
use ntu_sp17fall.Base.{
  ℕ, zero, suc, Bool, true, false, ◌&&◌, List, [], ◌∷◌, ◌++◌, none, some, ℤ, Text, int_eq, text_eq,
  if◌then◌else◌, ◌==◌, length, take, get_elem?, map,
}
use ntu_sp17fall.Mirror.Protocol.{Stat, is_dir, rm}
use ntu_sp17fall.Watcher.{
  System, Client, Entry, Watch, Step, ◌>>◌, request, send, syncmeta, tell, sendfile,
  push_back_to_array, add_to_inotify,
}
use ntu_sp17fall.Watcher.Walk.{send_if}

-- `struct inotify_event`: the mask by the bits that are looked at. `name` is empty where the event is of the
-- directory itself.
pub record Event : Type 0 where
  pub wd : ℤ
  pub name : Text
  pub attrib : Bool
  pub modify : Bool
  pub create : Bool
  pub delete : Bool

-- The name of the first watch in use; the array stays empty where there is none.
unfoldable pub get_dir_name : List Watch → ℤ → Text
get_dir_name [] wd = []
get_dir_name (w ∷ ws) wd =
    let rest = get_dir_name ws wd in if int_eq w.wd wd && w.used then w.name else rest

-- `snprintf` into 400 bytes.
unfoldable pub event_path : Text → Text → Text
event_path dirname name = take 399 (dirname ++ b'/' ∷ name)

abbrev pub drop_entry : Text → Entry → Entry
drop_entry path p = if text_eq path p.name then record p { used = false } else p

abbrev pub drop_watch : Text → Watch → Watch
drop_watch path w = if text_eq path w.name then record w { used = false } else w

-- The watches that are given back, used or not.
unfoldable pub watches_of : Text → List Watch → List ℤ
watches_of path [] = []
watches_of path (w ∷ ws) =
    let rest = watches_of path ws in if text_eq path w.name then w.wd ∷ rest else rest

unfoldable pub go_rm : Text → Client → Client
unfolding watches_of
go_rm path c = record (send c (request c.client_id (rm (length path)) path)) {
  cdir_path = map (drop_entry path) c.cdir_path;
  watch_dir = map (drop_watch path) c.watch_dir;
  unwatched = c.unwatched ++ watches_of path c.watch_dir;
}

-- `lstat(cdir_path[i].name, &cdir_path[i].info)`
unfoldable pub refresh_at : System → ℕ → List Entry → List Entry
refresh_at sys i [] = []
refresh_at sys zero (p ∷ ps) = record p { info = sys.stat p.name } ∷ ps
refresh_at sys (suc i) (p ∷ ps) = p ∷ refresh_at sys i ps

-- A loop over the entries from `i` on: those for which the test holds are refreshed and then treated. `left`
-- counts the entries that are left.
unfoldable pub each : System → (Entry → Bool) → (ℕ → Text → Step) → ℕ → ℕ → Step
unfolding refresh_at
each sys test act zero i c = some c
each sys test act (suc left) i c =
    let next : Step = each sys test act left (suc i) in
    elim (get_elem? c.cdir_path i) [
      | none ↦ next c
      | some p ↦
          if test p
          then (act i p.name >> next) (record c { cdir_path = refresh_at sys i c.cdir_path })
          else next c
    ]

unfoldable pub each_entry : System → (Entry → Bool) → (ℕ → Text → Step) → Step
unfolding each
each_entry sys test act c = each sys test act (length c.cdir_path) 0 c

-- The directory of the event.
unfoldable pub update_mother : System → Text → Step
unfolding each_entry
update_mother sys dirname = each_entry sys (λ p. text_eq dirname p.name) (λ i name. tell sys name)

-- Entries that are not in use are treated, too.
unfoldable pub on_attrib : System → Stat → Step
unfolding each_entry
on_attrib sys tmp = each_entry sys (λ p. tmp.ino == p.info.ino) (λ i name. tell sys name)

unfoldable pub on_modify : System → Stat → Step
unfolding each_entry
on_modify sys tmp = each_entry sys (λ p. tmp.ino == p.info.ino) (λ i name. sendfile sys i)

unfoldable pub on_create : System → Text → Text → Stat → Step
unfolding update_mother
on_create sys dirname path tmp =
    push_back_to_array sys path
    >> (λ c. if is_dir tmp.mode then add_to_inotify sys path c else some c)
    >> (λ c. send_if sys (syncmeta sys path c))
    >> update_mother sys dirname

unfoldable pub on_delete : System → Text → Text → Step
unfolding update_mother go_rm
on_delete sys dirname path c = update_mother sys dirname (go_rm path c)

abbrev pub when : Bool → Step → Step
when true step = step
when false step = λ c. some c

-- One turn of the loop over the events; the bits are tested one behind the other.
unfoldable pub handle_event : System → Event → Step
unfolding on_attrib on_modify on_create on_delete get_dir_name event_path
handle_event sys event c =
    let dirname = get_dir_name c.watch_dir event.wd in
    let path = event_path dirname event.name in
    let tmp = sys.stat path in
    (when event.attrib (on_attrib sys tmp)
        >> when event.modify (on_modify sys tmp)
        >> when event.create (on_create sys dirname path tmp)
        >> when event.delete (on_delete sys dirname path))
      c

-- The events in their order, each with what the system answers then; the loop ends where `read` gives nothing.
unfoldable pub inotify : List (System × Event) → Step
unfolding handle_event
inotify [] c = some c
inotify ((sys, event) ∷ events) c =
    let next : Step = inotify events in (handle_event sys event >> next) c
