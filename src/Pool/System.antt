-- ===== src/Pool/System.antt =====
-- The threads of one pool, interleaved in any order. A step is what a thread does while it holds
-- `poolMutex`, or outside it between two turns.
use go_prep.Base.{
  total, ℕ, ◌≡◌, Bool, Option, none, some, List, [], ◌∷◌, ◌++◌, map, All, length, push_back,
  replicate,
}
use go_prep.Pool.{
  Task, Outcome, Entry, Pool, make_pool, Admission, throws, blocks, pushes, wait_not_full,
  push_task, sleeps, leaves, takes, take_task, work, graceful_shutdown, immediate_shutdown,
}

-- Where a worker is: about to hold the lock, asleep on `cvNotEmpty`, at work, or past its loop.
pub data Worker : Type 0 where
  checking : Worker
  sleeping : Worker
  working : Entry → Worker
  exited : Worker

-- Where a call of `pushTask` is: about to hold the lock for the first time, or again after a wait,
-- asleep on `cvNotFull`, or back with an exception or with the future of a promise.
pub data Caller : Type 0 where
  arriving : Task → Caller
  woken : Task → Caller
  blocked : Task → Caller
  threw : Caller
  returned : ℕ → Caller

-- Where the shutdown is that set the flag.
pub data Phase : Type 0 where
  not_called : Phase
  flagged : Phase
  callers_notified : Phase
  joining : Phase
  joined : Phase

abbrev pub wake_worker : Worker → Worker
wake_worker sleeping = checking
wake_worker w = w

abbrev pub wake_caller : Caller → Caller
wake_caller (blocked t) = woken t
wake_caller c = c

abbrev pub asleep : Worker → ℕ
asleep sleeping = 1
asleep w = 0

abbrev pub stuck : Caller → ℕ
stuck (blocked t) = 1
stuck c = 0

-- What `notify_one` does: it wakes one thread that sleeps, or none if no thread does.
pub data NotifyOne {A : Type 0} (sleepy : A → ℕ) (wake : A → A) (xs : List A)
    : List A → Type 0 where
  nobody : total sleepy xs ≡ 0 → NotifyOne sleepy wake xs xs
  somebody :
      (front back : List A) (x : A)
      → xs ≡ front ++ x ∷ back
      → sleepy x ≡ 1
      → NotifyOne sleepy wake xs (front ++ wake x ∷ back)

-- A task whose work has ended: whether the work threw, and what its promise was given. The program
-- keeps the last of these only.
pub record Settled : Type 0 where
  pub entry : Entry
  pub threw : Bool
  pub outcome : Outcome

-- `accepted`, `started` and `dropped` list the tasks in the order in which they were pushed, taken,
-- and wiped; `settled` has the tasks whose promises were set.
pub record System : Type 0 where
  pub pool : Pool
  pub workers : List Worker
  pub callers : List Caller
  pub phase : Phase
  pub accepted : List Entry
  pub started : List Entry
  pub dropped : List Entry
  pub settled : List Settled

unfoldable pub start : ℕ → ℕ → System
unfolding make_pool
start num_threads queue_capacity = record {
  pool = make_pool queue_capacity;
  workers = replicate num_threads checking;
  callers = [];
  phase = not_called;
  accepted = [];
  started = [];
  dropped = [];
  settled = [];
}

-- What a caller that is about to hold the lock does with it.
unfoldable pub admit : Pool → Caller → ℕ → Option (Task × Admission)
unfolding push_task wait_not_full
admit p (arriving t) n = some (t, push_task p (record { task = t; promise = n }))
admit p (woken t) n = some (t, wait_not_full p (record { task = t; promise = n }))
admit p c n = none

-- The promises are numbered in the order in which tasks are accepted.
pub data Step (s : System) : System → Type 0 where
  calls : (t : Task) → Step s (record s { callers = arriving t ∷ s.callers })
  caller_throws :
      (xs ys : List Caller) (c : Caller) (t : Task)
      → s.callers ≡ xs ++ c ∷ ys
      → admit s.pool c (length s.accepted) ≡ some (t, throws)
      → Step s (record s { callers = xs ++ threw ∷ ys })
  caller_blocks :
      (xs ys : List Caller) (c : Caller) (t : Task)
      → s.callers ≡ xs ++ c ∷ ys
      → admit s.pool c (length s.accepted) ≡ some (t, blocks)
      → Step s (record s { callers = xs ++ blocked t ∷ ys })
  caller_pushes :
      (xs ys : List Caller) (c : Caller) (t : Task) (p : Pool) (ws : List Worker)
      → s.callers ≡ xs ++ c ∷ ys
      → admit s.pool c (length s.accepted) ≡ some (t, pushes p)
      → NotifyOne asleep wake_worker s.workers ws
      → Step s (record s {
        pool = p;
        workers = ws;
        callers = xs ++ returned (length s.accepted) ∷ ys;
        accepted = push_back s.accepted (record { task = t; promise = length s.accepted });
      })
  worker_sleeps :
      (xs ys : List Worker)
      → s.workers ≡ xs ++ checking ∷ ys
      → take_task s.pool ≡ sleeps
      → Step s (record s { workers = xs ++ sleeping ∷ ys })
  worker_leaves :
      (xs ys : List Worker)
      → s.workers ≡ xs ++ checking ∷ ys
      → take_task s.pool ≡ leaves
      → Step s (record s { workers = xs ++ exited ∷ ys })
  worker_takes :
      (xs ys : List Worker) (e : Entry) (p : Pool) (cs : List Caller)
      → s.workers ≡ xs ++ checking ∷ ys
      → take_task s.pool ≡ takes e p
      → NotifyOne stuck wake_caller s.callers cs
      → Step s (record s {
        pool = p;
        workers = xs ++ working e ∷ ys;
        callers = cs;
        started = push_back s.started e;
      })
  worker_finishes :
      (xs ys : List Worker) (e : Entry) (throwing : Bool)
      → s.workers ≡ xs ++ working e ∷ ys
      → Step s (record s {
        workers = xs ++ checking ∷ ys;
        settled =
            record { entry = e; threw = throwing; outcome = work throwing e.task } ∷ s.settled;
      })
  -- A condition variable may wake a thread on its own.
  worker_wakes :
      (xs ys : List Worker)
      → s.workers ≡ xs ++ sleeping ∷ ys
      → Step s (record s { workers = xs ++ checking ∷ ys })
  caller_wakes :
      (xs ys : List Caller) (t : Task)
      → s.callers ≡ xs ++ blocked t ∷ ys
      → Step s (record s { callers = xs ++ woken t ∷ ys })
  closes_gracefully :
      (p : Pool)
      → graceful_shutdown s.pool ≡ some p
      → Step s (record s { pool = p; phase = flagged })
  closes_immediately :
      (p : Pool)
      → immediate_shutdown s.pool ≡ some p
      → Step s (record s { pool = p; phase = flagged; dropped = s.pool.task_queue })
  notifies_callers :
      s.phase ≡ flagged
      → Step s (record s { callers = map wake_caller s.callers; phase = callers_notified })
  notifies_workers :
      s.phase ≡ callers_notified
      → Step s (record s { workers = map wake_worker s.workers; phase = joining })
  joins : s.phase ≡ joining → All (λ w. w ≡ exited) s.workers → Step s (record s { phase = joined })

pub data Reach (num_threads queue_capacity : ℕ) : System → Type 0 where
  here : Reach num_threads queue_capacity (start num_threads queue_capacity)
  later :
      {s t : System}
      → Reach num_threads queue_capacity s
      → Step s t
      → Reach num_threads queue_capacity t
