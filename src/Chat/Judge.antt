-- ===== src/Chat/Judge.antt =====
-- `judge_answer` and `start_chat` of MP4/server_main.cpp: the outcome of a finished search.
use ntu_sp17fall.Base.{
  ℕ, Bool, false, not, ◌||◌, List, [], ◌∷◌, ◌++◌, Option, none, some, ltb, if◌then◌else◌, get_elem?,
}
use ntu_sp17fall.Chat.{Server, Process, match, init, send, emit, update_client, no_solution}
use ntu_sp17fall.Chat.Pool.{is_work}
use ntu_sp17fall.Chat.Leave.{erase_at}

-- `clients[fd].start_chat(new_friend)`; 10 is the line feed.
unfoldable pub start_chat : Server → ℕ → ℕ → Server
start_chat s fd new_friend =
    let c = s.clients fd in
    let f = s.clients new_friend in
    emit
      (record s {
        clients =
            update_client s.clients fd
              (record c { friend_fd = new_friend; friends = f.me; status = match });
      })
      (send c.my_fd (f.json_package ++ 10 ∷ []))

unfoldable pub any_work : List Process → Bool
any_work [] = false
any_work (p ∷ ps) = is_work p.status || any_work ps

-- The search is over: `solution` is below 4096 if some answer was positive.
unfoldable pub conclude : Server → ℕ → Option Server
conclude s client1 =
    if ltb s.mama.solution no_solution
    then elim (get_elem? s.waiting_list s.mama.solution) [
      | none ↦ none
      | some client2 ↦
          let s' = start_chat (start_chat s client1 client2) client2 client1 in
          elim (erase_at s.mama.solution s.waiting_list) [
            | none ↦ none
            | some waiting ↦ some (record s' { waiting_list = waiting; mama = init s.mama })
          ]
    ]
    else some (record s { waiting_list = s.waiting_list ++ client1 ∷ []; mama = init s.mama })

unfoldable pub judge_answer : Server → Option Server
judge_answer s =
    if not s.mama.has_job || s.mama.need_to_assign_job
    then some s
    else if any_work s.process_pool
    then some s
    else elim s.mama.working_on_fd [
      | none ↦ some (record s { mama = init s.mama })
      | some client1 ↦ conclude s client1
    ]
