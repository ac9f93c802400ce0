-- ===== src/Chat/Leave.antt =====
-- `remove_try_match` of MP4/server_main.cpp: a client that waits for a match leaves.
use ntu_sp17fall.Base.{
  ℕ, zero, suc, ◌+◌, ◌-◌, Bool, false, ◌&&◌, not, List, [], ◌∷◌, Option, none, some, ◌==◌, ltb,
  if◌then◌else◌, get_elem?,
}
use ntu_sp17fall.Chat.{Boss, Process, Server, no_solution}

abbrev pub is_fd : Option ℕ → ℕ → Bool
is_fd none fd = false
is_fd (some a) fd = a == fd

-- `waiting_list[wait_idx]`, a fault outside the vector.
unfoldable pub waiting_at : List ℕ → Option ℕ → Option ℕ
waiting_at waiting none = none
waiting_at waiting (some i) = get_elem? waiting i

-- The first loop: the answer of a process that works for the leaving client does not count.
unfoldable pub invalidate : Option ℕ → List ℕ → ℕ → List Process → Option (List Process)
invalidate working waiting fd [] = some []
invalidate working waiting fd (p ∷ ps) =
    let rest : Option (List Process) = invalidate working waiting fd ps in
    if is_fd working fd
    then elim rest [ none ↦ none | some ps' ↦ some (record p { valid_ans = false } ∷ ps') ]
    else elim (waiting_at waiting p.waiting_list_index) [
      | none ↦ none
      | some other ↦ elim rest [
        | none ↦ none
        | some ps' ↦ some ((if other == fd then record p { valid_ans = false } else p) ∷ ps')
      ]
    ]

-- `erase` of the first element that is `fd`; `none` if there is none.
unfoldable pub erase_first : ℕ → List ℕ → Option (List ℕ)
erase_first fd [] = none
erase_first fd (x ∷ xs) =
    let rest : Option (List ℕ) = erase_first fd xs in
    if fd == x then some xs else elim rest [ none ↦ none | some ys ↦ some (x ∷ ys) ]

-- The last index, from `i` on, at which `fd` stands, or `found`.
unfoldable pub last_index : ℕ → ℕ → ℕ → List ℕ → ℕ
last_index fd i found [] = found
last_index fd i found (x ∷ xs) = last_index fd (i + 1) (if x == fd then i else found) xs

-- `erase(begin() + i)`, a fault at or past the end.
unfoldable pub erase_at : ℕ → List ℕ → Option (List ℕ)
erase_at i [] = none
erase_at zero (x ∷ xs) = some xs
erase_at (suc i) (x ∷ xs) = elim (erase_at i xs) [ none ↦ none | some ys ↦ some (x ∷ ys) ]

unfoldable pub shift_index : ℕ → Option ℕ → Option ℕ
shift_index quit none = none
shift_index quit (some i) = some (if ltb quit i then i - 1 else i)

unfoldable pub shift_process : ℕ → Process → Process
unfolding shift_index
shift_process quit p = record p { waiting_list_index = shift_index quit p.waiting_list_index }

unfoldable pub shift_pool : ℕ → List Process → List Process
unfolding shift_process
shift_pool quit [] = []
shift_pool quit (p ∷ ps) = shift_process quit p ∷ shift_pool quit ps

unfoldable pub shift_boss : ℕ → Boss → Boss
shift_boss quit b = record b {
  assign_next_index =
      if ltb quit b.assign_next_index then b.assign_next_index - 1 else b.assign_next_index;
  solution =
      if ltb quit b.solution && not (b.solution == no_solution) then b.solution - 1 else b.solution;
}

-- The part behind the search of `try_list`.
unfoldable pub leave_waiting : Server → ℕ → Option Server
leave_waiting s fd =
    if is_fd s.mama.working_on_fd fd
    then some (record s { mama = record s.mama { working_on_fd = none } })
    else let quit = last_index fd 0 no_solution s.waiting_list in
      elim (erase_at quit s.waiting_list) [
        | none ↦ none
        | some waiting ↦ some (record s {
          waiting_list = waiting;
          process_pool = shift_pool quit s.process_pool;
          mama = shift_boss quit s.mama;
        })
      ]

unfoldable pub remove_try_match : Server → ℕ → Option Server
remove_try_match s fd = elim (invalidate s.mama.working_on_fd s.waiting_list fd s.process_pool) [
  | none ↦ none
  | some pool ↦
      let s' = record s { process_pool = pool } in
      elim (erase_first fd s.try_list) [
        | some rest ↦ some (record s' { try_list = rest })
        | none ↦ leave_waiting s' fd
      ]
]
