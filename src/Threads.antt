-- ===== src/Threads.antt =====
-- MP5/src/thread.c: the pool of task threads of the server, as moves of the threads and of the
-- dispatcher in any order. A task is the argument that `run_task` copies. A mutex is whether it is
-- held; `pthread_mutex_lock` on a held one blocks. `dispatch_lock` makes `run_task` one move.
pub mod Safety
use ntu_sp17fall.Base.{
  ℕ, zero, suc, Bool, true, false, not, List, [], ◌∷◌, ◌++◌, Option, none, some, if◌then◌else◌,
  get_elem?, set,
}

-- Where `task_thread_func` stands: before the first lock, before `busy = 0`, before the lock in the
-- loop, in the task.
pub data Place : Type 0 where
  start free waiting running : Place

pub record TaskThread {ℓ} (A : Type ℓ) : Type ℓ where
  pub place : Place
  pub busy : Bool
  pub control_lock : Bool
  pub arg : Option A

-- `accepted` are the tasks for which `run_task` returned 1, `started` those whose function was called.
pub record Pool {ℓ} (A : Type ℓ) : Type ℓ where
  pub threads : List (TaskThread A)
  pub accepted : List A
  pub started : List A

module _ {ℓ} {A : Type ℓ} where
  -- A thread after `init_task_thread`.
  unfoldable pub init_task_thread : TaskThread A
  init_task_thread = record { place = start; busy = true; control_lock = false; arg = none }

  unfoldable pub init_threads : ℕ → List (TaskThread A)
  unfolding init_task_thread
  init_threads zero = []
  init_threads (suc n) = init_task_thread ∷ init_threads n

  unfoldable pub init_thread_pool : ℕ → Pool A
  unfolding init_threads
  init_thread_pool num = record { threads = init_threads num; accepted = []; started = [] }

  unfoldable pub launch : TaskThread A → A → TaskThread A
  launch t task = record t { arg = some task; control_lock = false }

  abbrev task_of : Option A → List A
  task_of none = []
  task_of (some task) = task ∷ []

  -- The next move of a thread with the tasks that it starts, `none` where it blocks.
  unfoldable pub task_thread_func : TaskThread A → Option (TaskThread A × List A)
  task_thread_func t = elim t.place [
    | start ↦
        if t.control_lock then none else some (record t { place = free; control_lock = true }, [])
    | free ↦ some (record t { place = waiting; busy = false }, [])
    | waiting ↦
        if t.control_lock
        then none
        else some (record t { place = running; control_lock = true }, task_of t.arg)
    | running ↦ some (record t { place = free }, [])
  ]

  unfoldable pub run_task : List (TaskThread A) → A → Bool × List (TaskThread A)
  unfolding launch
  run_task [] task = (false, [])
  run_task (t ∷ ts) task =
      let rest = run_task ts task in
      if not t.busy
      then (true, launch (record t { busy = true }) task ∷ ts)
      else (rest.0, t ∷ rest.1)

  unfoldable pub is_finished : List (TaskThread A) → Bool
  is_finished [] = true
  is_finished (t ∷ ts) = if t.busy then false else is_finished ts

  -- A call of `run_task`, and a move of the thread of an index.
  unfoldable pub dispatch : Pool A → A → Pool A
  dispatch p task =
      let (done, threads) = run_task p.threads task in
      record p {
        threads = threads;
        accepted = if done then p.accepted ++ task ∷ [] else p.accepted;
      }

  unfoldable pub move : Pool A → ℕ → Pool A
  move p i = elim (get_elem? p.threads i) [
    | none ↦ p
    | some t ↦ elim (task_thread_func t) [
      | none ↦ p
      | some (t', tasks) ↦ record p { threads = set p.threads i t'; started = p.started ++ tasks }
    ]
  ]

  pub data Reaches (n : ℕ) : Pool A → Type ℓ where
    fresh : Reaches n (init_thread_pool n)
    dispatched : (p : Pool A) (task : A) → Reaches n p → Reaches n (dispatch p task)
    moved : (p : Pool A) (i : ℕ) → Reaches n p → Reaches n (move p i)
