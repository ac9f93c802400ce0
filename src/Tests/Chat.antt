-- ===== src/Tests/Chat.antt =====
-- A server with two clients, on the descriptors 4 and 5, and one filter process.
use ntu_sp17fall.Base.{
  ℤ, pos, int_eq, text_eq, if◌then◌else◌, not, ◌&&◌, ◌==◌, ◌≤◌, Text, Option, ℕ, ◌≡◌, ◌≢◌, refl,
  Bool, true, false, List, [], ◌∷◌, ◌++◌, none, some, inl, inr, get_elem?, codes, arith,
}
use ntu_sp17fall.Chat.{
  User, idle, work, try_match, Client, Boss, Process, send, Server, empty_user, no_solution, init,
}
use ntu_sp17fall.Chat.Pool.{receive_from_child}
use ntu_sp17fall.Chat.Leave.{
  erase_at, last_index, shift_pool, shift_boss, leave_waiting, remove_try_match,
}
use ntu_sp17fall.Chat.Message.{quit, new_msg}
use ntu_sp17fall.Chat.Judge.{any_work, judge_answer}
use ntu_sp17fall.Chat.Tick.{tick}
use ntu_sp17fall.Chat.Invariant.{Inv, Kept, receive_from_child-keeps}
use ntu_sp17fall.Chat.Round.{Finished, InChat, judge_answer-match, judge_answer-fail, tick-Inv}
use ntu_sp17fall.Chat.Removal.{leave_waiting-keeps, leave_waiting-stale, remove_try_match-fault}
use ntu_sp17fall.Chat.Child.{child_process, child_process_lem}
use ntu_sp17fall.Chat.Lines.{new_msg-ne-none}

abbrev client_on : ℕ → Client
client_on fd = record {
  friend_fd = 0;
  my_fd = fd;
  status = try_match;
  tcp_buffer = [];
  filter_function = [];
  json_package = codes "{}";
  me = empty_user;
  friends = empty_user;
}

abbrev resting : Process
resting = record {
  input_fd = 8;
  output_fd = 9;
  pid = 100;
  status = idle;
  waiting_list_index = none;
  valid_ans = false;
  job_fd = (0, 0);
}

abbrev at_work : Process
at_work = record {
  input_fd = 8;
  output_fd = 9;
  pid = 100;
  status = work;
  waiting_list_index = some 0;
  valid_ans = true;
  job_fd = (5, 4);
}

abbrev boss_with : ℕ → Bool → ℕ → Boss
boss_with next need solution = record {
  has_job = true;
  assign_next_index = next;
  need_to_assign_job = need;
  solution = solution;
  num_of_rm = 0;
  working_on_fd = some 5;
}

abbrev server_with : List Process → Boss → List ℕ → Server
server_with pool mama waiting = record {
  clients = client_on;
  process_pool = pool;
  mama = mama;
  try_list = [];
  waiting_list = waiting;
  sent = [];
}

-- The client 5 searches, and 4 waits.
abbrev searching : Server
searching = server_with (resting ∷ []) (boss_with 0 true no_solution) (4 ∷ [])

searching-Inv : Inv searching
searching-Inv = record {
  boss = record { next = omega arith; solved = inr refl; busy = λ e. refl; fresh = λ e. refl };
  pool = (record { calm = inl refl; given = λ w v. absurd (ground arith) }, tt);
}

tick-Inv_example : (t : Server) × (tick (none ∷ []) searching ≡ some t) × Inv t
tick-Inv_example = tick-Inv (none ∷ []) searching searching-Inv

-- The process has answered for the first waiting client.
abbrev answered : Server
answered = server_with (resting ∷ []) (boss_with 1 false 0) (4 ∷ [])

answered-Finished : Finished answered
unfolding any_work
answered-Finished = record { started = refl; given_out = refl; resting = refl }

judge_answer-match_example :
    (t : Server) × (judge_answer answered ≡ some t)
    × InChat client_on t.clients 5 4
    × InChat client_on t.clients 4 5
    × ((fd : ℕ) → fd ≢ 5 → fd ≢ 4 → t.clients fd ≡ client_on fd)
    × (erase_at 0 (4 ∷ []) ≡ some t.waiting_list)
    × (t.mama ≡ init answered.mama)
    × (t.sent ≡ send 5 (codes "{}" ++ 10 ∷ []) ∷ send 4 (codes "{}" ++ 10 ∷ []) ∷ [])
judge_answer-match_example =
    judge_answer-match answered 5 4 answered-Finished refl (omega arith) refl (ground arith)

abbrev refused : Server
refused = server_with (resting ∷ []) (boss_with 1 false no_solution) (4 ∷ [])

refused-Finished : Finished refused
unfolding any_work
refused-Finished = record { started = refl; given_out = refl; resting = refl }

judge_answer_test :
    judge_answer refused
    ≡ some (record refused { waiting_list = 4 ∷ 5 ∷ []; mama = init refused.mama })
judge_answer_test = judge_answer-fail refused 5 refused-Finished refl (omega arith)

receive_from_child-keeps_test :
    (r : Boss × Process) × (receive_from_child (some 1) (boss_with 1 false no_solution) at_work
      ≡ some r)
    × Kept 1 1 r
receive_from_child-keeps_test =
    receive_from_child-keeps 1 1 (boss_with 1 false no_solution) at_work (omega arith) refl
      (record {
        next = omega arith;
        solved = inr refl;
        busy = λ e. refl;
        fresh = λ e. absurd (ground arith);
      })
      (record { calm = inr refl; given = λ w v. omega arith })

-- Three wait, and the second of them leaves.
abbrev three : Server
three =
    server_with (record at_work { waiting_list_index = some 2 } ∷ []) (boss_with 3 false 2)
      (4 ∷ 6 ∷ 7 ∷ [])

abbrev after_6 : Server
after_6 = record three {
  waiting_list = 4 ∷ 7 ∷ [];
  process_pool = record at_work { waiting_list_index = some 1 } ∷ [];
  mama = boss_with 2 false 1;
}

left_6 : leave_waiting three 6 ≡ some after_6
unfolding leave_waiting erase_at last_index shift_pool shift_boss
left_6 = refl

six_at : last_index 6 0 no_solution (4 ∷ 6 ∷ 7 ∷ []) ≡ 1
unfolding last_index
six_at = refl

-- The process holds the third place, and then the second.
leave_waiting-keeps_example :
    (j : ℕ) × (get_elem? after_6.process_pool 0
      ≡ some (record at_work { waiting_list_index = some j }))
    × (get_elem? {A = ℕ} (4 ∷ 7 ∷ []) j ≡ get_elem? {A = ℕ} (4 ∷ 6 ∷ 7 ∷ []) 2)
leave_waiting-keeps_example =
    leave_waiting-keeps three after_6 6 0 2 (record at_work { waiting_list_index = some 2 }) left_6
      refl refl refl (rw six_at (omega arith))

-- The one found leaves.

abbrev four : Server
four = server_with (at_work ∷ []) (boss_with 3 false 1) (4 ∷ 6 ∷ 7 ∷ [])

abbrev after_four : Server
after_four = record four { waiting_list = 4 ∷ 7 ∷ []; mama = boss_with 2 false 1 }

left_four : leave_waiting four 6 ≡ some after_four
unfolding leave_waiting erase_at last_index shift_pool shift_boss
left_four = refl

leave_waiting-stale_test :
    (after_four.mama.solution ≡ 1)
    × (get_elem? {A = ℕ} (4 ∷ 7 ∷ []) 1 ≡ get_elem? {A = ℕ} (4 ∷ 6 ∷ 7 ∷ []) 2)
leave_waiting-stale_test = leave_waiting-stale four after_four 6 left_four refl six_at

remove_try_match-fault_example : remove_try_match searching 4 ≡ none
remove_try_match-fault_example = remove_try_match-fault searching 4 [] [] resting refl refl refl

-- A line, and the start of another.
new_msg-ne-none_example : new_msg (λ t. some quit) searching 4 (123 ∷ 125 ∷ 10 ∷ 123 ∷ []) ≢ none
new_msg-ne-none_example = new_msg-ne-none (λ t. some quit) searching 4 (123 ∷ 125 ∷ 10 ∷ 123 ∷ [])

-- The filter of "4.so" accepts everyone, that of "5.so" nobody.
abbrev filters : Text → Option (User → ℤ)
filters name = if text_eq name (codes "./4.so") then some (λ u. pos 1) else some (λ u. pos 0)

loads_4 : filters (codes "./4.so") ≡ some (λ u. pos 1)
unfolding text_eq
loads_4 = refl

loads_5 : filters (codes "./5.so") ≡ some (λ u. pos 0)
unfolding text_eq
loads_5 = refl

child_process_lem_example :
    (a : ℕ) × (child_process filters (codes "4.so") empty_user (codes "5.so") empty_user ≡ some a)
    × (a ≤ 1)
    × ((a == 1) ≡ not (int_eq (pos 1) (pos 0)) && not (int_eq (pos 0) (pos 0)))
child_process_lem_example =
    child_process_lem filters (codes "4.so") (codes "5.so") empty_user empty_user (λ u. pos 1)
      (λ u. pos 0) loads_4 loads_5
