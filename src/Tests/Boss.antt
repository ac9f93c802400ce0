-- ===== src/Tests/Boss.antt =====
-- Three miners, and two finds of which the second is better.
use ntu_sp17fall.Base.{ℕ, ◌≤◌, false, ◌≡◌, refl, ◌⊎◌, true, List, [], ◌∷◌, none, some, codes, arith}
use ntu_sp17fall.Boss.{
  first_jobs, jobs_from, holders, Mine, Find, take_finds, no_better, Taken, first_jobs_lem,
  take_finds_lem,
}
use ntu_sp17fall.Boss.Dump.{
  Dump, new_dump, begins_with, add_dump, handle_command, dumped, write_some, write_open, write_dump,
  finish_dump,
}
use ntu_sp17fall.Boss.Written.{Reaches, begins, comes, reads, commands, writes, Reaches-written}

first_jobs_test : first_jobs 3 ≡ some ((0, 85) ∷ (85, 170) ∷ (170, 256) ∷ [])
unfolding first_jobs jobs_from
first_jobs_test = refl

first_jobs_lem_example : (jobs : List (ℕ × ℕ)) × (first_jobs 3 ≡ some jobs) × (holders 200 jobs ≡ 1)
first_jobs_lem_example = first_jobs_lem 3 200 (omega arith) (omega arith)

abbrev mine : Mine ℕ
mine = record { treasure = 1; context = 0; str = codes "ab"; read_file = true }

abbrev finds : List (Find ℕ)
finds =
    record { treasure = 1; context = 5; cur = codes "x"; name = codes "slow" }
    ∷ record { treasure = 2; context = 7; cur = codes "c"; name = codes "fast" }
    ∷ []

take_finds_lem_test :
    ((no_better 1 finds ≡ true) × (take_finds mine finds ≡ (mine, none))) ⊎ Taken mine finds
take_finds_lem_test = take_finds_lem mine finds

take_finds_test : take_finds mine finds ≡ (
  record { treasure = 2; context = 7; str = codes "abc"; read_file = true },
  some (codes "fast"),
)
unfolding take_finds
take_finds_test = refl

abbrev half_open : Dump
half_open = new_dump (codes "f") 3

abbrev half_written : Dump
half_written = record half_open { fd = true; start = 2; written = codes "ab" }

write_dump_test : write_dump (codes "abc") true (some 2) half_open ≡ half_written
unfolding write_dump write_open write_some
write_dump_test = refl

half_open-reached : Reaches true (codes "abc") (half_open ∷ [])
unfolding add_dump
half_open-reached =
    commands true (codes "abc") (codes "f") [] (half_open ∷ []) refl
      (reads (codes "abc") [] (comes false [] (codes "abc") [] begins))

Reaches-written_example :
    (half_written.written ≡ codes "ab")
    × (2 ≤ 3)
    × (3 ≤ 3)
    × ((half_written.success ≡ false) ⊎ (half_written.written ≡ codes "abc"))
unfolding write_dump write_open write_some
Reaches-written_example =
    Reaches-written true (codes "abc") [] [] half_written
      (writes true (codes "abc") true (some 2) [] [] half_open half_open-reached)

handle_command_test :
    handle_command (λ (c : ℕ). c ∷ []) (codes "dump f") mine []
    ≡ some (dumped (new_dump (codes "f") 2 ∷ []))
unfolding handle_command begins_with add_dump
handle_command_test = refl

finish_dump_test :
    finish_dump (codes "abc") (none ∷ some 9 ∷ []) half_written
    ≡ some (record half_written { start = 3; written = codes "abc" })
unfolding finish_dump write_some
finish_dump_test = refl
