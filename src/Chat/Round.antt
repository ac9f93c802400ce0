-- ===== src/Chat/Round.antt =====
-- A round of the chat server's loop: what judging decides, and that the round keeps the invariant of
-- Chat/Invariant.antt without a fault.
use native.Mathlib.Decide.{dec_lt}
use ntu_sp17fall.Base.{
  ℕ, zero, suc, ◌+◌, ◌≤◌, ◌<◌, ◌≡◌, ◌≢◌, refl, true, false, not, ◌||◌, List, [], ◌∷◌, ◌++◌, Option,
  none, some, arith, length, get_elem?, Bool-cases, Option-cases, inl, inr,
}
use ntu_sp17fall.Chat.{match, Server, Process, Client, send, init, no_solution}
use ntu_sp17fall.Chat.Pool.{init_process}
use ntu_sp17fall.Chat.Leave.{erase_at}
use ntu_sp17fall.Chat.Judge.{start_chat, any_work, conclude, judge_answer}
use ntu_sp17fall.Chat.Tick.{fill, first_waiting, next_search, Successor, refork, assign_round, tick}
use ntu_sp17fall.Chat.Invariant.{AllPlaced, Inv, assign_all-keeps, get_elem?-some}

pub erase_at-some :
    (xs : List ℕ) (i : ℕ)
    → i < length xs
    → (ys : List ℕ) × (erase_at i xs ≡ some ys) × (length ys + 1 ≡ length xs)
unfolding erase_at
erase_at-some [] i h = absurd (omega arith)
erase_at-some (x ∷ xs) zero h = (xs, refl, omega arith)
erase_at-some (x ∷ xs) (suc i) h =
    let (ys, run, len) = erase_at-some xs i (omega arith) in (x ∷ ys, rw run, omega arith)

resting-AllPlaced :
    (n : ℕ) (ps : List Process) → any_work ps ≡ false → AllPlaced n ps → AllPlaced 0 ps
unfolding any_work
resting-AllPlaced n [] h q = tt
resting-AllPlaced n (p ∷ ps) h (q, qs) = (
  record { calm = q.calm; given = λ w v. absurd (ground arith) },
  resting-AllPlaced n ps (ground arith) qs,
)

-- The search is over: it was started, all its jobs are given out, and no process is at work.
pub record Finished (s : Server) : Type 0 where
  pub started : s.mama.has_job ≡ true
  pub given_out : s.mama.need_to_assign_job ≡ false
  pub resting : any_work s.process_pool ≡ false

-- What `client` has after it was matched with `other`.
pub record InChat (before after : ℕ → Client) (client other : ℕ) : Type 0 where
  pub status : (after client).status ≡ match
  pub friend_fd : (after client).friend_fd ≡ other
  pub friends : (after client).friends ≡ (before other).me

get_elem?-lt : (xs : List ℕ) (i x : ℕ) → get_elem? xs i ≡ some x → i < length xs
get_elem?-lt [] i x h = cc
get_elem?-lt (y ∷ xs) zero x h = omega arith
get_elem?-lt (y ∷ xs) (suc i) x h = omega (arith, get_elem?-lt xs i x h)

-- The server after the match, where `ys` is the waiting list without the client found.
abbrev matched : Server → ℕ → ℕ → List ℕ → Server
matched s client1 client2 ys = record (start_chat (start_chat s client1 client2) client2 client1) {
  waiting_list = ys;
  mama = init s.mama;
}

judge_answer-eq :
    (s : Server) (client1 client2 : ℕ) (ys : List ℕ)
    → Finished s
    → s.mama.working_on_fd ≡ some client1
    → s.mama.solution < no_solution
    → get_elem? s.waiting_list s.mama.solution ≡ some client2
    → erase_at s.mama.solution s.waiting_list ≡ some ys
    → judge_answer s ≡ some (matched s client1 client2 ys)
unfolding judge_answer conclude
judge_answer-eq s client1 client2 ys f w small g e = ground arith

-- A finished search whose `solution` is the place of a waiting client matches that client with the
-- searching one, both ways: each is sent the package of the other, no other client changes, the waiting
-- list loses that place, and the boss is reset.
pub judge_answer-match :
    (s : Server) (client1 client2 : ℕ)
    → Finished s
    → s.mama.working_on_fd ≡ some client1
    → s.mama.solution < no_solution
    → get_elem? s.waiting_list s.mama.solution ≡ some client2
    → client1 ≢ client2
    → (t : Server) × (judge_answer s ≡ some t)
      × InChat s.clients t.clients client1 client2
      × InChat s.clients t.clients client2 client1
      × ((fd : ℕ) → fd ≢ client1 → fd ≢ client2 → t.clients fd ≡ s.clients fd)
      × (erase_at s.mama.solution s.waiting_list ≡ some t.waiting_list)
      × (t.mama ≡ init s.mama)
      × (t.sent
          ≡ (s.sent
              ++ send (s.clients client1).my_fd ((s.clients client2).json_package ++ 10 ∷ []) ∷ [])
            ++ send (s.clients client2).my_fd ((s.clients client1).json_package ++ 10 ∷ []) ∷ [])
unfolding start_chat
judge_answer-match s client1 client2 f w small g d =
    let lt = get_elem?-lt s.waiting_list s.mama.solution client2 g in
    let (ys, e, len) = erase_at-some s.waiting_list s.mama.solution lt in
    (
      matched s client1 client2 ys,
      judge_answer-eq s client1 client2 ys f w small g e,
      record { status = ground arith; friend_fd = ground arith; friends = ground arith },
      record { status = ground arith; friend_fd = ground arith; friends = ground arith },
      λ fd n m. ground arith,
      e,
      refl,
      ground arith,
    )

-- Without a positive answer the searching client is the last to wait, and no client is told anything.
pub judge_answer-fail :
    (s : Server) (client1 : ℕ)
    → Finished s
    → s.mama.working_on_fd ≡ some client1
    → no_solution ≤ s.mama.solution
    → judge_answer s
      ≡ some (record s { waiting_list = s.waiting_list ++ client1 ∷ []; mama = init s.mama })
unfolding judge_answer conclude
judge_answer-fail s client1 f w none_found = ground arith

record Judged (s : Server) : Type 0 where
  result : Server
  run : judge_answer s ≡ some result
  inv : Inv result

judge_answer-Inv : (s : Server) → Inv s → Judged s
judge_answer-Inv s v =
    elim (Bool-cases (not s.mama.has_job || s.mama.need_to_assign_job || any_work s.process_pool)) [
      | inl e ↦ record { result = s; run = unfold judge_answer in ground arith; inv = v }
      | inr e ↦
          let f : Finished s = ground arith in
          let rest = resting-AllPlaced s.mama.assign_next_index s.process_pool f.resting v.pool in
          elim (Option-cases s.mama.working_on_fd) [
            | inl gone ↦ record {
              result = record s { mama = init s.mama };
              run = unfold judge_answer in ground arith;
              inv = unfold init in record { boss = ground arith; pool = rest };
            }
            | inr (client1, w) ↦ elim (dec_lt s.mama.solution no_solution) [
              | no n ↦ record {
                result = record s {
                  waiting_list = s.waiting_list ++ client1 ∷ [];
                  mama = init s.mama;
                };
                run = judge_answer-fail s client1 f w (omega arith);
                inv = unfold init in record { boss = ground arith; pool = rest };
              }
              | yes p ↦
                  let lt : s.mama.solution < length s.waiting_list = ground (arith, v.boss) in
                  let (client2, g) = get_elem?-some s.waiting_list s.mama.solution lt in
                  let (ys, er, len) = erase_at-some s.waiting_list s.mama.solution lt in
                  record {
                    result = matched s client1 client2 ys;
                    run = judge_answer-eq s client1 client2 ys f w p g er;
                    inv = unfold init start_chat in record { boss = ground arith; pool = rest };
                  }
            ]
          ]
    ]

length-fill : (waiting tries : List ℕ) → length waiting ≤ length (fill waiting tries).0
unfolding fill
length-fill [] [] = omega arith
length-fill [] (fd ∷ rest) = omega arith
length-fill (x ∷ xs) tries = omega arith

first_waiting-Inv : (s : Server) → Inv s → Inv (first_waiting s)
first_waiting-Inv s v =
    let longer = length-fill s.waiting_list s.try_list in
    unfold first_waiting in record { boss = unfold fill in ground (arith, longer); pool = v.pool }

refork-AllPlaced :
    (n : ℕ) (ds : List (Option Successor)) (ps : List Process)
    → AllPlaced n ps
    → AllPlaced n (refork ds ps)
unfolding refork init_process
refork-AllPlaced n [] ps q = q
refork-AllPlaced n (d ∷ ds) [] q = tt
refork-AllPlaced n (none ∷ ds) (p ∷ ps) (q, qs) = (q, refork-AllPlaced n ds ps qs)
refork-AllPlaced n (some c ∷ ds) (p ∷ ps) (q, qs) = (ground arith, refork-AllPlaced n ds ps qs)

next_search-Inv : (s : Server) → Inv s → Inv (next_search s)
unfolding next_search
next_search-Inv s v = record {
  boss = ground arith;
  pool =
      let e : (next_search s).mama.assign_next_index ≡ s.mama.assign_next_index = ground arith in
      let f : (next_search s).process_pool ≡ s.process_pool = ground arith in rw (e, f) v.pool;
}

assign_round-Inv : (s : Server) → Inv s → (t : Server) × (assign_round s ≡ some t) × Inv t
unfolding assign_round
assign_round-Inv s v =
    let (r, run, a) =
      assign_all-keeps s.clients s.waiting_list s.mama s.process_pool v.boss v.pool in
    (
      record s { mama = r.0; process_pool = r.1; sent = s.sent ++ r.2 },
      rw (run, assign_round),
      record { boss = a.boss; pool = a.placed },
    )

tick-eq :
    (deaths : List (Option Successor)) (s j t : Server)
    → judge_answer s ≡ some j
    → assign_round (
        next_search (record (first_waiting j) {
          process_pool = refork deaths (first_waiting j).process_pool;
        }))
      ≡ some t
    → tick deaths s ≡ some t
unfolding tick
tick-eq deaths s j t e f = rw (e, tick) f

-- From a state with the invariant the work behind `select` never faults, whichever processes died, and
-- keeps the invariant.
pub tick-Inv :
    (deaths : List (Option Successor)) (s : Server)
    → Inv s
    → (t : Server) × (tick deaths s ≡ some t) × Inv t
tick-Inv deaths s v =
    let j = judge_answer-Inv s v in
    let filled = first_waiting-Inv j.result j.inv in
    let s₃ = record (first_waiting j.result) {
      process_pool = refork deaths (first_waiting j.result).process_pool;
    } in
    let alive : Inv s₃ = record {
      boss = filled.boss;
      pool =
          refork-AllPlaced s₃.mama.assign_next_index deaths (first_waiting j.result).process_pool
            filled.pool;
    } in
    let (t, run, inv) = assign_round-Inv (next_search s₃) (next_search-Inv s₃ alive) in
    (t, tick-eq deaths s j.result t j.run run, inv)
