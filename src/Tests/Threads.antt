-- ===== src/Tests/Threads.antt =====
-- A pool of one thread that takes a task and runs it.
use ntu_sp17fall.Base.{ℕ, ◌≡◌, refl, ◌+◌, ◌==◌, true, [], ◌∷◌}
use ntu_sp17fall.Threads.{
  Pool, Reaches, fresh, dispatched, moved, dispatch, move, init_thread_pool, init_threads,
  init_task_thread, task_thread_func, run_task, launch, is_finished,
}
use ntu_sp17fall.Threads.Safety.{tally, pending, run_task-once, is_finished_lem}

abbrev ready : Pool ℕ
ready = move (move (init_thread_pool 1) 0) 0

abbrev loaded : Pool ℕ
loaded = dispatch ready 7

abbrev run : Pool ℕ
run = move (move (move loaded 0) 0) 0

loaded-Reaches : Reaches 1 loaded
loaded-Reaches = dispatched _ 7 (moved _ 0 (moved _ 0 fresh))

run-Reaches : Reaches 1 run
run-Reaches = moved _ 0 (moved _ 0 (moved _ 0 loaded-Reaches))

run_task_test : (loaded.accepted ≡ 7 ∷ []) × (run.started ≡ 7 ∷ [])
unfolding dispatch move init_thread_pool init_threads init_task_thread task_thread_func run_task
    launch
run_task_test = (refl, refl)

run_task-once_example :
    tally (λ task. task == 7) loaded.accepted
    ≡ tally (λ task. task == 7) loaded.started + tally (λ task. task == 7) (pending loaded.threads)
run_task-once_example = run_task-once 1 loaded (λ task. task == 7) loaded-Reaches

run-is_finished : is_finished run.threads ≡ true
unfolding dispatch move init_thread_pool init_threads init_task_thread task_thread_func run_task
    launch is_finished
run-is_finished = refl

is_finished_lem_test :
    tally (λ task. task == 7) run.accepted ≡ tally (λ task. task == 7) run.started
is_finished_lem_test = is_finished_lem 1 run (λ task. task == 7) run-Reaches run-is_finished
