-- ===== src/Chat/Tick.antt =====
-- The loop of `main` in MP4/server_main.cpp: the events that `select` reports, and the work that is
-- done after them in each round.
use ntu_sp17fall.Base.{
  ℕ, Bool, true, List, [], ◌∷◌, ◌++◌, Option, none, some, ◌==◌, if◌then◌else◌, Text,
}
use ntu_sp17fall.Chat.{Server, Process, Boss, Client, update_client}
use ntu_sp17fall.Chat.Pool.{assign_all, receive_from_child, init_process}
use ntu_sp17fall.Chat.Message.{Request, on_data, on_close}
use ntu_sp17fall.Chat.Judge.{judge_answer}

-- An empty waiting list takes the oldest client that wants a match: the new waiting list and
-- `try_list`.
unfoldable pub fill : List ℕ → List ℕ → List ℕ × List ℕ
fill [] (fd ∷ rest) = (fd ∷ [], rest)
fill [] [] = ([], [])
fill (x ∷ xs) tries = (x ∷ xs, tries)

unfoldable pub first_waiting : Server → Server
unfolding fill
first_waiting s =
    let (waiting, tries) = fill s.waiting_list s.try_list in
    record s { waiting_list = waiting; try_list = tries }

-- Without a search under way, the oldest client that wants a match starts one.
unfoldable pub next_search : Server → Server
next_search s = elim s.try_list [
  | [] ↦ s
  | fd ∷ rest ↦ if s.mama.has_job then s else record s {
    try_list = rest;
    mama = record s.mama { need_to_assign_job = true; has_job = true; working_on_fd = some fd };
  }
]

-- `waitpid` for each process: `none` if it runs, else the descriptors and the pid of its successor.
pub record Successor : Type 0 where
  pub input_fd : ℕ
  pub output_fd : ℕ
  pub child : ℕ

unfoldable pub refork : List (Option Successor) → List Process → List Process
refork [] ps = ps
refork (d ∷ ds) [] = []
refork (none ∷ ds) (p ∷ ps) = p ∷ refork ds ps
refork (some c ∷ ds) (p ∷ ps) = init_process c.input_fd c.output_fd c.child p ∷ refork ds ps

unfoldable pub assign_round : Server → Option Server
assign_round s = elim (assign_all s.clients s.waiting_list s.mama s.process_pool) [
  | none ↦ none
  | some (mama, pool, out) ↦
      some (record s { mama = mama; process_pool = pool; sent = s.sent ++ out })
]

-- What a round does behind `select`.
unfoldable pub tick : List (Option Successor) → Server → Option Server
tick deaths s = elim (judge_answer s) [
  | none ↦ none
  | some s₁ ↦
      let s₂ = first_waiting s₁ in
      let s₃ = record s₂ { process_pool = refork deaths s₂.process_pool } in
      assign_round (next_search s₃)
]

-- The result of `recv` on a client's socket.
pub data Received : Type 0 where
  end_of_file failed : Received
  bytes : Text → Received

pub data Event : Type 0 where
  connection : (client_fd : ℕ) → Event
  answer : (fd : ℕ) → Option ℕ → Event
  client : (fd : ℕ) → Received → Event

unfoldable pub answer_from : ℕ → Option ℕ → Boss → List Process → Option (Boss × List Process)
answer_from fd byte mama [] = some (mama, [])
answer_from fd byte mama (p ∷ ps) =
    elim (if p.output_fd == fd then receive_from_child byte mama p else some (mama, p)) [
      | none ↦ none
      | some (mama', p') ↦ elim (answer_from fd byte mama' ps) [
        | none ↦ none
        | some (mama'', ps') ↦ some (mama'', p' ∷ ps')
      ]
    ]

module _ (parse : Text → Option Request) (compile : Client → Bool) where
  unfoldable pub handle : Server → Event → Option Server
  unfolding answer_from
  handle s (connection fd) =
      some
        (record s { clients = update_client s.clients fd (record (s.clients fd) { my_fd = fd }) })
  handle s (answer fd byte) = elim (answer_from fd byte s.mama s.process_pool) [
    | none ↦ none
    | some (mama, pool) ↦ some (record s { mama = mama; process_pool = pool })
  ]
  handle s (client fd end_of_file) = on_close s fd (s.clients fd).status
  handle s (client fd failed) = some s
  handle s (client fd (bytes input)) = on_data parse compile s fd input

  unfoldable pub handle_all : Server → List Event → Option Server
  handle_all s [] = some s
  handle_all s (e ∷ es) = elim (handle s e) [ none ↦ none | some s' ↦ handle_all s' es ]

  -- A round of the loop: the events in the order of their descriptors, then the rest.
  unfoldable pub round : Server → List Event → List (Option Successor) → Option Server
  unfolding handle_all
  round s events deaths = elim (handle_all s events) [ none ↦ none | some s' ↦ tick deaths s' ]
