-- ===== src/Watcher/Walk.antt =====
-- `traverse` of MP2/src/csiebox_client.c.
use ntu_sp17fall.Base.{
  ℕ, suc, ◌-◌, Bool, ◌&&◌, ◌||◌, ◌∷◌, ◌++◌, Option, none, some, Text, codes, text_eq, if◌then◌else◌,
  ltb, length, take, drop,
}
use ntu_sp17fall.Mirror.Protocol.{is_dir, is_reg}
use ntu_sp17fall.Watcher.{
  System, Client, Step, bind, ◌>>◌, syncmeta, tell, sendfile, push_back_to_array, add_to_inotify,
}

-- What `readdir` gives in a directory, in its order: a name that cannot be opened as a directory, or one that
-- can, with what is in it.
pub data Entries : Type 0 where
  end : Entries
  closed : Text → Entries → Entries
  opened : Text → Entries → Entries → Entries

unfoldable pub is_dots : Text → Bool
is_dots name = text_eq name (codes ".") || text_eq name (codes "..")

-- `snprintf` into 500 bytes.
unfoldable pub path_of : Text → Text → Text
path_of dirname name = take 499 (dirname ++ b'/' ∷ name)

-- The deepest file so far, without the first 8 bytes of its path.
unfoldable pub note_depth : System → ℕ → Text → Client → Client
note_depth sys depth path c =
    if is_reg (sys.stat path).mode && ltb c.maxdepth depth
    then record c { maxdepth = depth; lpath = drop 8 path }
    else c

-- `ptr-1` is the entry of the path.
unfoldable pub send_if : System → Bool × Client → Option Client
send_if sys (more, c) = if more then sendfile sys (length c.cdir_path - 1) c else some c

-- An entry that is no directory.
unfoldable pub visit_file : System → ℕ → Text → Step
unfolding note_depth send_if
visit_file sys depth path c =
    bind (push_back_to_array sys path (note_depth sys depth path c))
      (λ c'. send_if sys (syncmeta sys path c'))

-- `traverse` in a directory that can be opened, over the loop on its entries.
unfoldable pub visit_dir : System → Text → Step → Step
visit_dir sys dirname loop =
    tell sys dirname
    >> push_back_to_array sys dirname
    >> add_to_inotify sys dirname
    >> loop
    >> tell sys dirname

-- The loop, in the directory `dirname` at `depth`.
unfoldable pub walk : System → Text → ℕ → Entries → Step
unfolding is_dots path_of visit_file visit_dir
walk sys dirname depth end c = some c
walk sys dirname depth (closed name rest) c =
    let path = path_of dirname name in
    let next : Step = walk sys dirname depth rest in
    if is_dots name
    then next c
    else if is_dir (sys.stat path).mode
    then next c
    else (visit_file sys depth path >> next) c
walk sys dirname depth (opened name sub rest) c =
    let path = path_of dirname name in
    let inner : Step = walk sys path (suc depth) sub in
    let next : Step = walk sys dirname depth rest in
    if is_dots name
    then next c
    else if is_dir (sys.stat path).mode
    then (visit_dir sys path inner >> next) c
    else (visit_file sys depth path >> next) c

-- `none` stands for a directory that cannot be opened.
unfoldable pub traverse : System → Text → ℕ → Option Entries → Step
unfolding walk
traverse sys dirname depth none c = some c
traverse sys dirname depth (some entries) c =
    visit_dir sys dirname (walk sys dirname depth entries) c
