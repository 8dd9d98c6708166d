-- ===== src/Pool/Examples.antt =====
-- One worker and a queue of two: a task is pushed and processed, and the pool is shut down.
use go_prep.Base.{
  stay, step, Run, All, ◌+◌, ◌<◌, ◌⊎◌, some, total, ◌≡◌, refl, true, false, [], ◌∷◌, ◌++◌, Perm,
  arith,
}
use go_prep.Base.Int.{pos}
use go_prep.Pool.{
  value, exception, process, work, Task, Entry, Pool, make_pool, is_closed, push_task,
  wait_not_full, take_task, grab_front, graceful_shutdown,
}
use go_prep.Pool.System.{
  Step, System, checking, working, exited, arriving, blocked, returned, not_called, joining, nobody,
  admit, start, Reach, here, later, calls, caller_pushes, caller_blocks, worker_takes,
  worker_finishes, worker_leaves, closes_gracefully, notifies_callers, notifies_workers,
}
use go_prep.Pool.Queue.{QueueOk, Reach-QueueOk}
use go_prep.Pool.Sleepers.{WakeOk}
use go_prep.Pool.Progress.{Reach-WakeOk}
use go_prep.Pool.Promises.{Kept, finished, IsOwn, Reach-Kept}
use go_prep.Pool.Shutdown.{joined-Complete, graceful-Complete}
use go_prep.Pool.Futures.{future_of, nth, ready, broken}
use go_prep.Pool.Futures.Ready.{Worked, futures-Ready}
use go_prep.Pool.Wakeups.{awake, again}
use go_prep.Pool.Joining.{Ending, closed-Ending}
use go_prep.Pool.Service.{busy, blocked-Served}

abbrev print_report : Task
print_report = record { id = pos 7; task_name = "report" }

abbrev entry : Entry
entry = record { task = print_report; promise = 0 }

abbrev empty_pool : Pool
empty_pool = record {
  max_queue_size = 2;
  task_queue = [];
  is_immediate_shutdown = false;
  is_graceful_shutdown = false;
}

abbrev one_task : Pool
one_task = record empty_pool { task_queue = entry ∷ [] }

abbrev closed_pool : Pool
closed_pool = record empty_pool { is_graceful_shutdown = true }

abbrev called : System
called = record {
  pool = empty_pool;
  workers = checking ∷ [];
  callers = arriving print_report ∷ [];
  phase = not_called;
  accepted = [];
  started = [];
  dropped = [];
  settled = [];
}

abbrev pushed : System
pushed = record called { pool = one_task; callers = returned 0 ∷ []; accepted = entry ∷ [] }

abbrev taken : System
taken = record pushed { pool = empty_pool; workers = working entry ∷ []; started = entry ∷ [] }

abbrev processed : System
processed = record taken {
  workers = checking ∷ [];
  settled = record { entry = entry; threw = false; outcome = value (process print_report) } ∷ [];
}

abbrev closed : System
closed = record processed { pool = closed_pool; phase = joining }

abbrev ended : System
ended = record closed { workers = exited ∷ [] }

called-Reach : Reach 1 2 called
unfolding start make_pool
called-Reach = later here (calls print_report)

pushed-Reach : Reach 1 2 pushed
unfolding admit push_task wait_not_full
pushed-Reach = later called-Reach (
    caller_pushes [] [] (arriving print_report) print_report one_task (checking ∷ []) refl refl
      (nobody refl))

taken-Reach : Reach 1 2 taken
unfolding take_task grab_front
taken-Reach =
    later pushed-Reach
      (worker_takes [] [] entry empty_pool (returned 0 ∷ []) refl refl (nobody refl))

closed-Reach : Reach 1 2 closed
unfolding graceful_shutdown work
closed-Reach =
    later
      (later
        (later (later taken-Reach (worker_finishes [] [] entry false refl))
          (closes_gracefully closed_pool refl))
        (notifies_callers refl))
      (notifies_workers refl)

ended-Reach : Reach 1 2 ended
unfolding take_task
ended-Reach = later closed-Reach (worker_leaves [] [] refl refl)

Reach-QueueOk_example : QueueOk 2 pushed
Reach-QueueOk_example = Reach-QueueOk pushed-Reach

Reach-WakeOk_example : WakeOk taken
Reach-WakeOk_example = Reach-WakeOk taken-Reach

Reach-Kept_example : Kept taken
Reach-Kept_example = Reach-Kept taken-Reach

joined-Complete_example :
    (is_closed ended.pool ≡ true)
    × (ended.pool.task_queue ≡ [])
    × (ended.accepted ≡ ended.started ++ ended.dropped)
    × Perm ended.started (finished ended.settled)
    × All IsOwn ended.settled
joined-Complete_example = joined-Complete ended-Reach (omega arith) (refl, tt)

graceful-Complete_example : Perm ended.accepted (finished ended.settled) × All IsOwn ended.settled
graceful-Complete_example = graceful-Complete ended-Reach (omega arith) (refl, tt) refl

futures-Ready_example :
    (e : Entry) × (nth ended.accepted 0 ≡ some e)
    × (((future_of 0 ended ≡ ready (value (process e.task))) × Worked ended.settled e false)
        ⊎ ((future_of 0 ended ≡ ready exception) × Worked ended.settled e true)
        ⊎ ((future_of 0 ended ≡ broken) × (ended.pool.is_immediate_shutdown ≡ true)))
futures-Ready_example = futures-Ready [] [] 0 ended-Reach (omega arith) (refl, tt) refl

last_run : Run Step closed ended
unfolding take_task
last_run = step stay (worker_leaves [] [] refl refl)

closed-Ending_example : Ending closed ended last_run
closed-Ending_example = closed-Ending closed-Reach refl last_run

-- A queue with one slot, which is taken: a second caller blocks.
abbrev small_pool : Pool
small_pool = record empty_pool { max_queue_size = 1 }

abbrev full_pool : Pool
full_pool = record one_task { max_queue_size = 1 }

abbrev full : System
full = record pushed { pool = full_pool; callers = arriving print_report ∷ returned 0 ∷ [] }

abbrev waits : System
waits = record full { callers = blocked print_report ∷ returned 0 ∷ [] }

small-Reach : Reach 1 1 (record called { pool = small_pool })
unfolding start make_pool
small-Reach = later here (calls print_report)

full-Reach : Reach 1 1 full
unfolding admit push_task wait_not_full
full-Reach =
    later
      (later small-Reach (
        caller_pushes [] [] (arriving print_report) print_report full_pool (checking ∷ []) refl refl
          (nobody refl)))
      (calls print_report)

waits-Reach : Reach 1 1 waits
unfolding admit push_task wait_not_full
waits-Reach =
    later full-Reach
      (caller_blocks [] (returned 0 ∷ []) (arriving print_report) print_report refl refl)

blocked-Served_example :
    0 < total again waits.callers + total awake waits.workers + total busy waits.workers
blocked-Served_example =
    blocked-Served waits-Reach (omega arith) refl [] (returned 0 ∷ []) print_report (omega arith)
      refl
