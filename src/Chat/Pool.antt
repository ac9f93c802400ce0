-- ===== src/Chat/Pool.antt =====
-- The processes of MP4/server_main.cpp: `GO_TO_WORK`, `assign_jobs` with its guard in `main`,
-- `receive_from_child` and `init_process`.
use ntu_sp17fall.Base.{
  ℕ, ◌+◌, min, Bool, true, false, not, ◌||◌, List, [], ◌∷◌, ◌++◌, Option, none, some, ◌==◌, leb,
  ltb, if◌then◌else◌, length, get_elem?,
}
use ntu_sp17fall.Chat.{Status, idle, work, Boss, Process, Client, Output, job, no_solution}

abbrev pub is_work : Status → Bool
is_work work = true
is_work _ = false

abbrev pub is_idle : Status → Bool
is_idle idle = true
is_idle _ = false

abbrev pub is_none : Option ℕ → Bool
is_none none = true
is_none (some _) = false

-- `job_fd.first` is -1 and `waiting_list[wait_idx]` outside the vector are faults.
unfoldable pub go_to_work : (ℕ → Client) → Boss → List ℕ → ℕ → Process → Option (Process × Output)
go_to_work clients mama waiting wait_idx p = elim mama.working_on_fd [
  | none ↦ none
  | some first ↦ elim (get_elem? waiting wait_idx) [
    | none ↦ none
    | some second ↦ some (
      record p {
        status = work;
        waiting_list_index = some wait_idx;
        job_fd = (first, second);
        valid_ans = true;
      },
      job p.input_fd first (clients first).me second (clients second).me,
    )
  ]
]

-- The `assert` that a process that is not at work is idle is a fault.
unfoldable pub assign_jobs :
    (ℕ → Client) → Boss → List ℕ → Process → Option (Boss × Process × List Output)
assign_jobs clients mama waiting p =
    if not mama.need_to_assign_job
    then some (mama, p, [])
    else if is_work p.status
    then some (mama, p, [])
    else if is_idle p.status
    then elim (go_to_work clients mama waiting mama.assign_next_index p) [
      | none ↦ none
      | some (p', out) ↦
          some (record mama { assign_next_index = mama.assign_next_index + 1 }, p', out ∷ [])
    ]
    else none

-- The test at the head of the last loop of `main`.
unfoldable pub check_need : Boss → List ℕ → Boss
check_need mama waiting =
    if leb (length waiting) 0
      || leb (length waiting) mama.assign_next_index
      || is_none mama.working_on_fd
      || ltb mama.solution no_solution
    then record mama { need_to_assign_job = false }
    else mama

-- The last loop of `main`, over the pool.
unfoldable pub assign_all :
    (ℕ → Client) → List ℕ → Boss → List Process → Option (Boss × List Process × List Output)
assign_all clients waiting mama [] = some (mama, [], [])
assign_all clients waiting mama (p ∷ ps) =
    elim (assign_jobs clients (check_need mama waiting) waiting p) [
      | none ↦ none
      | some (mama', p', out) ↦ elim (assign_all clients waiting mama' ps) [
        | none ↦ none
        | some (mama'', ps', outs) ↦ some (mama'', p' ∷ ps', out ++ outs)
      ]
    ]

-- `answer` is the byte read from the child, `none` at the end of the pipe. An answer above 1 fails the
-- `assert`. A valid answer of a process that has had no job would be an index of -1.
unfoldable pub receive_from_child : Option ℕ → Boss → Process → Option (Boss × Process)
receive_from_child none mama p = some (mama, p)
receive_from_child (some answer) mama p =
    let p' = record p { status = idle } in
    if not p.valid_ans || answer == 0
    then some (mama, p')
    else if answer == 1
    then elim p.waiting_list_index [
      | none ↦ none
      | some i ↦ some (record mama { solution = min mama.solution i }, p')
    ]
    else none

-- The two descriptors are those of the pipes that were opened.
unfoldable pub init_process : ℕ → ℕ → ℕ → Process → Process
init_process input_fd output_fd child p = record p {
  input_fd = input_fd;
  output_fd = output_fd;
  status = idle;
  pid = child;
  waiting_list_index = none;
  valid_ans = false;
}
