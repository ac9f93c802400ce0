-- ===== src/Threads/Safety.antt =====
-- Every task that the pool of MP5/src/thread.c accepts is run once, in any order of moves.
use ntu_sp17fall.Base.{
  ℕ, zero, suc, ◌+◌, ◌≡◌, refl, ◌∙◌, Bool, true, false, not, ◌&&◌, List, [], ◌∷◌, ◌++◌, Option,
  none, some, arith, inl, inr, Option-cases, Bool-cases, if◌then◌else◌, get_elem?, set,
}
use ntu_sp17fall.Threads.{
  Place, start, free, waiting, running, TaskThread, Pool, init_task_thread, init_threads,
  init_thread_pool, launch, task_of, task_thread_func, run_task, is_finished, dispatch, move,
  Reaches, fresh, dispatched, moved,
}

-- A thread is free for a task only where it waits for the lock that it holds itself.
SoundAt : Place → Bool → Bool → Type 0
SoundAt start busy held = (busy ≡ true) × (held ≡ false)
SoundAt free busy held = (busy ≡ true) × (held ≡ true)
SoundAt waiting busy held = busy ≡ not held
SoundAt running busy held = (busy ≡ true) × (held ≡ true)

module _ {ℓ} {A : Type ℓ} where
  abbrev Sound : TaskThread A → Type 0
  Sound t = SoundAt t.place t.busy t.control_lock

  abbrev AllSound : List (TaskThread A) → Type 0
  AllSound [] = Unit {0}
  AllSound (t ∷ ts) = Sound t × AllSound ts

  -- How many of the tasks have a property.
  unfoldable pub tally : (A → Bool) → List A → ℕ
  tally q [] = 0
  tally q (x ∷ xs) = (if q x then 1 else 0) + tally q xs

  tally-append : (q : A → Bool) (xs ys : List A) → tally q (xs ++ ys) ≡ tally q xs + tally q ys
  unfolding tally
  tally-append q [] ys = omega arith
  tally-append q (x ∷ xs) ys = ground (arith, tally-append q xs ys)

  -- The task that a thread was given and has not started.
  abbrev pub given_at : Place → Bool → Option A → List A
  given_at start held arg = []
  given_at free held arg = []
  given_at waiting held arg = if held then [] else task_of arg
  given_at running held arg = []

  abbrev pub given : TaskThread A → List A
  given t = given_at t.place t.control_lock t.arg

  unfoldable pub pending : List (TaskThread A) → List A
  pending [] = []
  pending (t ∷ ts) = given t ++ pending ts

  init_threads-Sound : (n : ℕ) → AllSound (init_threads n) × (pending (init_threads n) ≡ [])
  unfolding init_threads init_task_thread pending SoundAt
  init_threads-Sound zero = (tt, refl)
  init_threads-Sound (suc n) = let (s, e) = init_threads-Sound n in (((refl, refl), s), e)

  record Kept (q : A → Bool) (t : TaskThread A) (r : TaskThread A × List A) : Type 0 where
    sound : Sound r.0
    same : tally q (given r.0) + tally q r.1 ≡ tally q (given t)

  task_thread_func-Kept :
      (q : A → Bool) (place : Place) (busy held : Bool) (arg : Option A) (r : TaskThread A × List A)
      → SoundAt place busy held
      → task_thread_func (record { place = place; busy = busy; control_lock = held; arg = arg })
        ≡ some r
      → Kept q (record { place = place; busy = busy; control_lock = held; arg = arg }) r
  unfolding task_thread_func tally SoundAt
  task_thread_func-Kept q start busy held arg r s e = record {
    sound = ground arith;
    same = ground arith;
  }
  task_thread_func-Kept q free busy held arg r s e = record {
    sound = ground arith;
    same = ground arith;
  }
  task_thread_func-Kept q waiting busy held none r s e = record {
    sound = ground arith;
    same = ground arith;
  }
  task_thread_func-Kept q waiting busy held (some x) r s e = record {
    sound = ground arith;
    same = ground arith;
  }
  task_thread_func-Kept q running busy held arg r s e = record {
    sound = ground arith;
    same = ground arith;
  }

  not_busy-given :
      (place : Place) (busy held : Bool) (arg : Option A)
      → SoundAt place busy held
      → busy ≡ false
      → given_at place held arg ≡ []
  unfolding SoundAt
  not_busy-given start busy held arg s e = refl
  not_busy-given free busy held arg s e = refl
  not_busy-given waiting busy held arg s e = ground arith
  not_busy-given running busy held arg s e = refl

  record Moved (q : A → Bool) (ts : List (TaskThread A)) (i : ℕ) (r : TaskThread A × List A)
      : Type 0 where
    sound : AllSound (set ts i r.0)
    same : tally q (pending (set ts i r.0)) + tally q r.1 ≡ tally q (pending ts)

  set-Moved :
      (q : A → Bool) (ts : List (TaskThread A)) (i : ℕ) (t : TaskThread A)
      (r : TaskThread A × List A)
      → AllSound ts
      → get_elem? ts i ≡ some t
      → task_thread_func t ≡ some r
      → Moved q ts i r
  unfolding pending
  set-Moved q [] i t r s g e = absurd (ground arith)
  set-Moved q (u ∷ ts) zero t r (s, ss) g e =
      let same : u ≡ t = ground arith in
      let e' : task_thread_func u ≡ some r = rw same e in
      let k = task_thread_func-Kept q u.place u.busy u.control_lock u.arg r s e' in
      record {
        sound = (k.sound, ss);
        same =
            rw (tally-append q (given r.0) (pending ts), tally-append q (given u) (pending ts))
              (omega (arith, k.same));
      }
  set-Moved q (u ∷ ts) (suc i) t r (s, ss) g e =
      let k = set-Moved q ts i t r ss g e in
      record {
        sound = (s, k.sound);
        same =
            rw
              (
                tally-append q (given u) (pending (set ts i r.0)),
                tally-append q (given u) (pending ts),
              )
              (omega (arith, k.same));
      }

  record Given (q : A → Bool) (ts : List (TaskThread A)) (task : A) (r : Bool × List (TaskThread A))
      : Type 0 where
    sound : AllSound r.1
    more : tally q (pending r.1) ≡ tally q (pending ts) + (if r.0 && q task then 1 else 0)

  run_task-head :
      (q : A → Bool) (place : Place) (busy held : Bool) (arg : Option A) (ts : List (TaskThread A))
      (task : A)
      → SoundAt place busy held
      → AllSound ts
      → Given q ts task (run_task ts task)
      → Given q (record { place = place; busy = busy; control_lock = held; arg = arg } ∷ ts) task (
          run_task
            (record { place = place; busy = busy; control_lock = held; arg = arg } ∷ ts)
            task)
  unfolding run_task pending launch tally SoundAt
  run_task-head q place true held arg ts task s ss rest = record {
    sound = (s, rest.sound);
    more =
        rw
          (
            tally-append q (given_at place held arg) (pending (run_task ts task).1),
            tally-append q (given_at place held arg) (pending ts),
          )
          (omega (arith, rest.more));
  }
  run_task-head q waiting false true arg ts task s ss rest = record {
    sound = (refl, ss);
    more = omega arith;
  }
  run_task-head q waiting false false arg ts task s ss rest = absurd (ground arith)
  run_task-head q start false held arg ts task s ss rest = absurd (ground arith)
  run_task-head q free false held arg ts task s ss rest = absurd (ground arith)
  run_task-head q running false held arg ts task s ss rest = absurd (ground arith)

  run_task-Given :
      (q : A → Bool) (ts : List (TaskThread A)) (task : A)
      → AllSound ts
      → Given q ts task (run_task ts task)
  unfolding run_task pending
  run_task-Given q [] task s = record { sound = tt; more = omega arith }
  run_task-Given q (t ∷ ts) task (s, ss) =
      run_task-head q t.place t.busy t.control_lock t.arg ts task s ss (run_task-Given q ts task ss)

  record Fair (q : A → Bool) (p : Pool A) : Type 0 where
    sound : AllSound p.threads
    balance : tally q p.accepted ≡ tally q p.started + tally q (pending p.threads)

  dispatch-Fair : (q : A → Bool) (p : Pool A) (task : A) → Fair q p → Fair q (dispatch p task)
  unfolding dispatch tally
  dispatch-Fair q p task f =
      let g = run_task-Given q p.threads task f.sound in
      let b = f.balance in
      let more = g.more in
      record {
        sound = g.sound;
        balance = elim (Bool-cases (run_task p.threads task).0) [
          | inl e ↦ ground (arith, tally-append q p.accepted (task ∷ []), b, more, e)
          | inr e ↦ ground (arith, b, more, e)
        ];
      }

  moved-Fair :
      (q : A → Bool) (p : Pool A) (i : ℕ) (t : TaskThread A) (r : TaskThread A × List A)
      → Fair q p
      → get_elem? p.threads i ≡ some t
      → task_thread_func t ≡ some r
      → Fair q (record p { threads = set p.threads i r.0; started = p.started ++ r.1 })
  moved-Fair q p i t r f g e =
      let m = set-Moved q p.threads i t r f.sound g e in
      record {
        sound = m.sound;
        balance = rw (tally-append q p.started r.1) (omega (arith, m.same, f.balance));
      }

  move-Fair : (q : A → Bool) (p : Pool A) (i : ℕ) → Fair q p → Fair q (move p i)
  unfolding move
  move-Fair q p i f = elim (Option-cases (get_elem? p.threads i)) [
    | inl g ↦ rw (move, g) f
    | inr (t, g) ↦ elim (Option-cases (task_thread_func t)) [
      | inl e ↦ rw (move, g, e) f
      | inr (r, e) ↦ rw (move, g, e) (moved-Fair q p i t r f g e)
    ]
  ]

  reaches-Fair : (q : A → Bool) (n : ℕ) (p : Pool A) → Reaches n p → Fair q p
  unfolding init_thread_pool tally
  reaches-Fair q n _ fresh =
      let (s, e) = init_threads-Sound n in record { sound = s; balance = rw e refl }
  reaches-Fair q n _ (dispatched p task h) = dispatch-Fair q p task (reaches-Fair q n p h)
  reaches-Fair q n _ (moved p i h) = move-Fair q p i (reaches-Fair q n p h)

  -- In every state that the pool can reach, by any order of calls of `run_task` and of moves of the
  -- threads, the tasks that were accepted are those that were started and those that threads were given
  -- and have not started: none is lost and none is run twice.
  pub run_task-once :
      (n : ℕ) (p : Pool A) (q : A → Bool)
      → Reaches n p
      → tally q p.accepted ≡ tally q p.started + tally q (pending p.threads)
  run_task-once n p q h = (reaches-Fair q n p h).balance

  finished-pending :
      (ts : List (TaskThread A)) → AllSound ts → is_finished ts ≡ true → pending ts ≡ []
  unfolding is_finished pending
  finished-pending [] s e = refl
  finished-pending (t ∷ ts) (s, ss) e =
      let rest = finished-pending ts ss (ground arith) in
      rw (not_busy-given t.place t.busy t.control_lock t.arg s (ground arith), rest) refl

  -- In a state that the pool can reach, where `is_finished` says that no thread is busy, every task that
  -- was accepted was started.
  pub is_finished_lem :
      (n : ℕ) (p : Pool A) (q : A → Bool)
      → Reaches n p
      → is_finished p.threads ≡ true
      → tally q p.accepted ≡ tally q p.started
  unfolding tally
  is_finished_lem n p q h e =
      let f = reaches-Fair q n p h in
      let none_left = finished-pending p.threads f.sound e in
      rw none_left at (f.balance) ∙ omega arith
