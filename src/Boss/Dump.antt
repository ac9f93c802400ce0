-- ===== src/Boss/Dump.antt =====
-- The commands that MP3/server/boss.cpp reads from the terminal, and the dumps that it writes.
use ntu_sp17fall.Base.{
  ℕ, ◌+◌, ◌-◌, min, Bool, true, false, not, ◌&&◌, List, [], ◌∷◌, ◌++◌, Option, none, some, Text,
  codes, if◌then◌else◌, ◌==◌, ltb, length, take, drop, ◌||◌,
}
use ntu_sp17fall.Boss.{Mine}

-- `dump_info`. `fd` says whether it is open. `written` is not in the source: the bytes that `write` took
-- from this dump, one call after the other. What the file holds is less where a second dump to the same
-- location opens it with O_TRUNC.
pub record Dump : Type 0 where
  pub location : Text
  pub fd : Bool
  pub start : ℕ
  pub end : ℕ
  pub success : Bool
  pub written : Text

-- `strncmp(t, prefix, strlen(prefix)) == 0`
unfoldable pub begins_with : Text → Text → Bool
begins_with t [] = true
begins_with [] (c ∷ prefix) = false
begins_with (d ∷ t) (c ∷ prefix) = d == c && begins_with t prefix

abbrev pub new_dump : Text → ℕ → Dump
new_dump location end = record {
  location = location;
  fd = false;
  start = 0;
  end = end;
  success = false;
  written = [];
}

-- The first dump that is not written yet and whose location the argument begins with gets a new end; `i` is
-- the number of those before. An entry behind the array of 64 is a fault, `none`.
unfoldable pub add_dump : Text → ℕ → ℕ → List Dump → Option (List Dump)
unfolding begins_with
add_dump location end i [] = if ltb i 64 then some (new_dump location end ∷ []) else none
add_dump location end i (d ∷ ds) =
    let rest : Option (List Dump) = add_dump location end (i + 1) ds in
    if begins_with location d.location && not d.success
    then some (record d { end = end } ∷ ds)
    else elim rest [ none ↦ none | some ds' ↦ some (d ∷ ds') ]

-- What a command does: the report of `status`, with the treasure, the digest and the number of bytes
-- unless the treasure is 0, the dumps after `dump`, and the end.
pub data Reply : Type 0 where
  reported : Option (ℕ × List ℕ × ℕ) → Reply
  dumped : List Dump → Reply
  stopped : Reply

-- The command without its line feed. Another command fails an `assert`, `none`. `final` is `MD5_Final`.
unfoldable pub handle_command {ℓ} :
    {Context : Type ℓ} → (Context → List ℕ) → Text → Mine Context → List Dump → Option Reply
unfolding add_dump
handle_command final cmd m ds =
    if begins_with cmd (codes "status")
    then some (
        reported
          (if m.treasure == 0 then none else some (m.treasure, final m.context, length m.str)))
    else if begins_with cmd (codes "dump")
    then elim (add_dump (drop 5 cmd) (if m.read_file then length m.str else 0) 0 ds) [
      | none ↦ none
      | some ds' ↦ some (dumped ds')
    ]
    else if begins_with cmd (codes "quit")
    then some stopped
    else none

-- A `write` of the next bytes, at most 1024, of which `ret` were taken, `none` for the result -1.
unfoldable pub write_some : Text → Option ℕ → Dump → Dump
write_some str none d = d
write_some str (some ret) d =
    let more = min ret (min (d.end - d.start) 1024) in
    record d { start = d.start + more; written = d.written ++ take more (drop d.start str) }

unfoldable pub write_open : Text → Option ℕ → Dump → Dump
unfolding write_some
write_open str ret d =
    let e = write_some str ret (record d { fd = true }) in record e { success = e.start == e.end }

-- The round of one dump; `opens` says whether `open` gives a descriptor.
unfoldable pub write_dump : Text → Bool → Option ℕ → Dump → Dump
unfolding write_open
write_dump str opens ret d =
    if d.success then d else if d.fd || opens then write_open str ret d else d

-- The rest of a dump behind `quit`, with the results of `write` one after the other; `none` where the
-- loop still waits for another.
unfoldable pub finish_dump : Text → List (Option ℕ) → Dump → Option Dump
unfolding write_some
finish_dump str [] d = if not d.success && ltb d.start d.end then none else some d
finish_dump str (ret ∷ rets) d =
    let rest : Option Dump = finish_dump str rets (write_some str ret d) in
    if not d.success && ltb d.start d.end then rest else some d
