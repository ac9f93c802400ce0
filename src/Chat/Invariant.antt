-- ===== src/Chat/Invariant.antt =====
-- The invariant of the search: what holds between two handlers, and that judging, assigning and
-- answering keep it and never fault.
use ntu_sp17fall.Base.{
  ℕ, ◌+◌, ◌≤◌, ◌<◌, ◌≡◌, refl, true, false, List, [], ◌∷◌, ◌++◌, Option, none, some, ◌==◌, arith,
  length, get_elem?, get_or, get_elem?-get_or, ◌⊎◌, inl, inr, Bool-cases, Option-cases, min, not,
  ◌||◌,
}
use ntu_sp17fall.Chat.{idle, work, Server, Process, Boss, Client, Output, job, no_solution}
use ntu_sp17fall.Chat.Pool.{
  go_to_work, assign_jobs, check_need, assign_all, receive_from_child, is_work, is_none,
}

abbrev pub Below : Option ℕ → ℕ → Type 0
Below none n = ⊥
Below (some i) n = i < n

-- A process at work whose answer counts has a place below the next one to be assigned.
pub record Placed (next : ℕ) (p : Process) : Type 0 where
  pub calm : (p.status ≡ idle) ⊎ (p.status ≡ work)
  pub given : p.status ≡ work → p.valid_ans ≡ true → Below p.waiting_list_index next

abbrev pub AllPlaced : ℕ → List Process → Type 0
AllPlaced next [] = Unit {0}
AllPlaced next (p ∷ ps) = Placed next p × AllPlaced next ps

-- `waiting` is the length of the waiting list.
pub record BossInv (waiting : ℕ) (b : Boss) : Type 0 where
  pub next : b.assign_next_index ≤ waiting
  pub solved : (b.solution < b.assign_next_index) ⊎ (b.solution ≡ no_solution)
  pub busy : b.need_to_assign_job ≡ true → b.has_job ≡ true
  pub fresh : b.has_job ≡ false → b.assign_next_index ≡ 0

pub record Inv (s : Server) : Type 0 where
  pub boss : BossInv (length s.waiting_list) s.mama
  pub pool : AllPlaced s.mama.assign_next_index s.process_pool

Below-le : (i : Option ℕ) {m n : ℕ} → m ≤ n → Below i m → Below i n
Below-le none l h = h
Below-le (some i) l h = omega arith

pub Placed-le : {m n : ℕ} (p : Process) → m ≤ n → Placed m p → Placed n p
Placed-le p l h = record {
  calm = h.calm;
  given = λ w v. Below-le p.waiting_list_index l (h.given w v);
}

pub AllPlaced-le : (m n : ℕ) (ps : List Process) → m ≤ n → AllPlaced m ps → AllPlaced n ps
AllPlaced-le m n [] l h = tt
AllPlaced-le m n (p ∷ ps) l (h, hs) = (Placed-le p l h, AllPlaced-le m n ps l hs)

-- What a handler of one process leaves, at the place `next`.
pub record Kept (waiting next : ℕ) (r : Boss × Process) : Type 0 where
  pub boss : BossInv waiting r.0
  pub placed : Placed r.0.assign_next_index r.1
  pub same : r.0.assign_next_index ≡ next

counted :
    (a w i : ℕ) (b : Boss) (p : Process)
    → a ≡ 1
    → p.valid_ans ≡ true
    → p.waiting_list_index ≡ some i
    → i < b.assign_next_index
    → BossInv w b
    → (r : Boss × Process) × (receive_from_child (some a) b p ≡ some r)
      × Kept w b.assign_next_index r
unfolding receive_from_child
counted a w i b p one valid at below inv = (
  (record b { solution = min b.solution i }, record p { status = idle }),
  ground arith,
  ground arith,
)

-- An answer of at most 1 from a process at work never faults, and keeps the invariant of the boss and
-- of that process.
pub receive_from_child-keeps :
    (a w : ℕ) (b : Boss) (p : Process)
    → a ≤ 1
    → p.status ≡ work
    → BossInv w b
    → Placed b.assign_next_index p
    → (r : Boss × Process) × (receive_from_child (some a) b p ≡ some r)
      × Kept w b.assign_next_index r
unfolding receive_from_child
receive_from_child-keeps a w b p small busy i q = elim (Bool-cases (not p.valid_ans || a == 0)) [
  | inl e ↦ ((b, record p { status = idle }), rw (e, receive_from_child), ground arith)
  | inr e ↦ elim (Option-cases p.waiting_list_index) [
    | inl n ↦ absurd (rw n at (q.given busy (ground arith)))
    | inr (x, f) ↦
        counted a w x b p (ground arith) (ground arith) f (rw f at (q.given busy (ground arith))) i
  ]
]

-- The test before `assign_jobs` leaves a boss that the assignment can rely on.
record Ready (waiting : List ℕ) (b : Boss) : Type 0 where
  room : b.need_to_assign_job ≡ true → b.assign_next_index < length waiting
  someone : b.need_to_assign_job ≡ true → is_none b.working_on_fd ≡ false

check_need-Ready : (b : Boss) (waiting : List ℕ) → Ready waiting (check_need b waiting)
unfolding check_need
check_need-Ready b waiting = ground arith

check_need-keeps :
    (b : Boss) (waiting : List ℕ)
    → BossInv (length waiting) b
    → BossInv (length waiting) (check_need b waiting)
      × ((check_need b waiting).assign_next_index ≡ b.assign_next_index)
unfolding check_need
check_need-keeps b waiting i = (ground arith, ground arith)

pub get_elem?-some : (xs : List ℕ) (i : ℕ) → i < length xs → (x : ℕ) × (get_elem? xs i ≡ some x)
get_elem?-some xs i h = (get_or xs i 0, get_elem?-get_or xs i 0 h)

-- Assigning to one process.
record Assigned (waiting : ℕ) (b : Boss) (r : Boss × Process × List Output) : Type 0 where
  pub boss : BossInv waiting r.0
  pub placed : Placed r.0.assign_next_index r.1
  pub grows : b.assign_next_index ≤ r.0.assign_next_index

assign_idle :
    (clients : ℕ → Client) (b : Boss) (waiting : List ℕ) (p : Process) (fd other : ℕ)
    → BossInv (length waiting) b
    → b.need_to_assign_job ≡ true
    → b.assign_next_index < length waiting
    → p.status ≡ idle
    → b.working_on_fd ≡ some fd
    → get_elem? waiting b.assign_next_index ≡ some other
    → (r : Boss × Process × List Output) × (assign_jobs clients b waiting p ≡ some r)
      × Assigned (length waiting) b r
unfolding assign_jobs go_to_work
assign_idle clients b waiting p fd other i need lt e w g = (
  (
    record b { assign_next_index = b.assign_next_index + 1 },
    record p {
      status = work;
      waiting_list_index = some b.assign_next_index;
      job_fd = (fd, other);
      valid_ans = true;
    },
    job p.input_fd fd (clients fd).me other (clients other).me ∷ [],
  ),
  ground arith,
  record { boss = ground arith; placed = ground arith; grows = omega arith },
)

assign_jobs-keeps :
    (clients : ℕ → Client) (b : Boss) (waiting : List ℕ) (p : Process)
    → BossInv (length waiting) b
    → Ready waiting b
    → Placed b.assign_next_index p
    → (r : Boss × Process × List Output) × (assign_jobs clients b waiting p ≡ some r)
      × Assigned (length waiting) b r
unfolding assign_jobs
assign_jobs-keeps clients b waiting p i y q =
    elim (Bool-cases (not b.need_to_assign_job || is_work p.status)) [
      | inl e ↦ ((b, p, []), ground arith, record { boss = i; placed = q; grows = omega arith })
      | inr e ↦
          let need : b.need_to_assign_job ≡ true = ground arith in
          let idle_now : p.status ≡ idle = ground arith in
          let (other, at) = get_elem?-some waiting b.assign_next_index (y.room need) in
          elim (Option-cases b.working_on_fd) [
            | inl none_now ↦ absurd (ground (arith, y.someone need))
            | inr (fd, w) ↦
                assign_idle clients b waiting p fd other i need (y.room need) idle_now w at
          ]
    ]

pub record AllAssigned (waiting : ℕ) (b : Boss) (r : Boss × List Process × List Output)
    : Type 0 where
  pub boss : BossInv waiting r.0
  pub placed : AllPlaced r.0.assign_next_index r.1
  pub grows : b.assign_next_index ≤ r.0.assign_next_index

assign_all-cons :
    (clients : ℕ → Client) (waiting : List ℕ) (b : Boss) (p : Process) (ps : List Process)
    (r : Boss × Process × List Output) (t : Boss × List Process × List Output)
    → assign_jobs clients (check_need b waiting) waiting p ≡ some r
    → assign_all clients waiting r.0 ps ≡ some t
    → assign_all clients waiting b (p ∷ ps) ≡ some (t.0, r.1 ∷ t.1, r.2 ++ t.2)
unfolding assign_all
assign_all-cons clients waiting b p ps (b', p', out) (b'', ps', outs) e f = rw (e, assign_all, f)

-- The loop over the pool never faults, and keeps the invariant.
pub assign_all-keeps :
    (clients : ℕ → Client) (waiting : List ℕ) (b : Boss) (ps : List Process)
    → BossInv (length waiting) b
    → AllPlaced b.assign_next_index ps
    → (r : Boss × List Process × List Output) × (assign_all clients waiting b ps ≡ some r)
      × AllAssigned (length waiting) b r
unfolding assign_all
assign_all-keeps clients waiting b [] i q =
    ((b, [], []), refl, record { boss = i; placed = tt; grows = omega arith })
assign_all-keeps clients waiting b (p ∷ ps) i (q, qs) =
    let (j, same) = check_need-keeps b waiting i in
    let c = check_need b waiting in
    let (r, run, one) =
      assign_jobs-keeps clients c waiting p j (check_need-Ready b waiting) (rw same q) in
    let (t, runs, rest) =
      assign_all-keeps clients waiting r.0 ps one.boss
        (AllPlaced-le b.assign_next_index r.0.assign_next_index ps (omega (arith, one.grows)) qs) in
    (
      (t.0, r.1 ∷ t.1, r.2 ++ t.2),
      assign_all-cons clients waiting b p ps r t run runs,
      record {
        boss = rest.boss;
        placed = (Placed-le r.1 rest.grows one.placed, rest.placed);
        grows = omega (arith, one.grows, rest.grows, same);
      },
    )
