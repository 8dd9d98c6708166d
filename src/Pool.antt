-- ===== src/Pool.antt =====
-- thread_pool_on_fixed_size_bounded_queue.cpp: the state under `poolMutex`, and what each holder of
-- the lock does with it.
pub mod System
pub mod Moves
pub mod Queue
pub mod Wakeups
pub mod Sleepers
pub mod Wakings
pub mod Progress
pub mod Promises
pub mod Shutdown
pub mod Futures
pub mod Workload
pub mod Termination
pub mod Joining
pub mod Service
mod Examples
use Prim.Native.String.{String, ◌++◌ as str_append}
use go_prep.Base.{
  is_empty, ℕ, Bool, true, false, not, ◌||◌, ◌&&◌, Option, none, some, List, [], ◌∷◌, if◌then◌else◌,
  ltb, length, push_back,
}
use go_prep.Base.Int.{ℤ}

pub record Task : Type 0 where
  pub id : ℤ
  pub task_name : String

pub record Result : Type 0 where
  pub id : ℤ
  result_field : String

-- A task in the queue, with the number of its promise.
pub record Entry : Type 0 where
  pub task : Task
  pub promise : ℕ

pub record Pool : Type 0 where
  pub max_queue_size : ℕ
  pub task_queue : List Entry
  pub is_immediate_shutdown : Bool
  pub is_graceful_shutdown : Bool

unfoldable pub make_pool : ℕ → Pool
make_pool queue_capacity = record {
  max_queue_size = queue_capacity;
  task_queue = [];
  is_immediate_shutdown = false;
  is_graceful_shutdown = false;
}

abbrev pub is_closed : Pool → Bool
is_closed p = p.is_graceful_shutdown || p.is_immediate_shutdown

-- What a caller that holds the lock does: it throws, sleeps on `cvNotFull`, or has pushed its task.
pub data Admission : Type 0 where
  throws : Admission
  blocks : Admission
  pushes : Pool → Admission

-- From the predicate of `cvNotFull.wait` on.
unfoldable pub wait_not_full : Pool → Entry → Admission
wait_not_full p e =
    if ltb (length p.task_queue) p.max_queue_size
      || p.is_graceful_shutdown
      || p.is_immediate_shutdown
    then (if p.is_graceful_shutdown || p.is_immediate_shutdown
        then throws
        else pushes (record p { task_queue = push_back p.task_queue e }))
    else blocks

-- The first time that `pushTask` holds the lock.
unfoldable pub push_task : Pool → Entry → Admission
unfolding wait_not_full
push_task p e =
    if p.is_graceful_shutdown || p.is_immediate_shutdown then throws else wait_not_full p e

-- What a worker that holds the lock does: it sleeps on `cvNotEmpty`, leaves the loop, or has taken
-- a task; `faults` is `front` of an empty queue.
pub data Turn : Type 0 where
  sleeps : Turn
  leaves : Turn
  takes : Entry → Pool → Turn
  faults : Turn

unfoldable pub grab_front : Pool → List Entry → Turn
grab_front p [] = faults
grab_front p (e ∷ es) = takes e (record p { task_queue = es })

unfoldable pub take_task : Pool → Turn
unfolding grab_front
take_task p =
    if not (is_empty p.task_queue) || p.is_immediate_shutdown || p.is_graceful_shutdown
    then (if p.is_immediate_shutdown
        then leaves
        else (if p.is_graceful_shutdown && is_empty p.task_queue
            then leaves
            else grab_front p p.task_queue))
    else sleeps

-- The result that a task's work computes.
unfoldable pub process : Task → Result
process t = record { id = t.id; result_field = str_append "Processed: " t.task_name }

-- What a promise is given: a result, or the exception that the work threw.
pub data Outcome : Type 0 where
  value : Result → Outcome
  exception : Outcome

-- The `try` block and its handler, where the first argument says whether the work throws.
unfoldable pub work : Bool → Task → Outcome
unfolding process
work true t = exception
work false t = value (process t)

-- `none`: a shutdown has been called before, and the call returns.
unfoldable pub graceful_shutdown : Pool → Option Pool
graceful_shutdown p =
    if p.is_graceful_shutdown || p.is_immediate_shutdown
    then none
    else some (record p { is_graceful_shutdown = true })

unfoldable pub immediate_shutdown : Pool → Option Pool
immediate_shutdown p =
    if p.is_immediate_shutdown || p.is_graceful_shutdown
    then none
    else some (record p { is_immediate_shutdown = true; task_queue = [] })
