-- ===== src/Pool/Progress.antt =====
-- No wake-up is lost: every step keeps the invariant of the sleeping threads.
use go_prep.Base.{total, ℕ, length, arith, inl, inr}
use go_prep.Pool.System.{
  System, checking, sleeping, working, exited, woken, blocked, threw, asleep, stuck, Step, Reach,
  here, later, calls, caller_throws, caller_blocks, caller_pushes, worker_sleeps, worker_leaves,
  worker_takes, worker_finishes, worker_wakes, caller_wakes, closes_gracefully, closes_immediately,
  notifies_callers, notifies_workers, joins,
}
use go_prep.Pool.Moves.{admit-throws, graceful_shutdown-some, immediate_shutdown-some}
use go_prep.Pool.Queue.{QueueOk, Reach-QueueOk, leaves-empty}
use go_prep.Pool.Sleepers.{WakeOk, Told-fewer, start-WakeOk}
use go_prep.Pool.Wakings.{
  caller_pushes_WakeOk, worker_takes_WakeOk, worker_changes_WakeOk, worker_sleeps_WakeOk,
  caller_changes_WakeOk, caller_blocks_WakeOk, closes_WakeOk, notifies_callers_WakeOk,
  notifies_workers_WakeOk, joins_WakeOk,
}

Step-WakeOk : {capacity : ℕ} {s t : System} → Step s t → QueueOk capacity s → WakeOk s → WakeOk t
Step-WakeOk {s} (calls t) q v = record {
  tasks_seen = v.tasks_seen;
  slots_seen = elim v.slots_seen [
    | inl closed ↦ inl closed
    | inr (inl z) ↦ inr (inl (omega arith))
    | inr (inr enough) ↦ inr (inr (omega arith))
  ];
  told =
      Told-fewer s.phase _ (total asleep s.workers) (total stuck s.callers) _ _ (omega arith)
        (omega arith) v.told;
}
Step-WakeOk {s} (caller_throws xs ys c t at h) q v =
    caller_changes_WakeOk s v xs ys c threw at (omega arith)
      (inl (admit-throws s.pool c t (length s.accepted) h))
Step-WakeOk {s} (caller_blocks xs ys c t at h) q v = caller_blocks_WakeOk s v xs ys c t at h
Step-WakeOk {s} (caller_pushes xs ys c t p ws at h n) q v =
    caller_pushes_WakeOk s v xs ys c t p ws (length s.accepted) at h n
Step-WakeOk {s} (worker_sleeps xs ys at h) q v = worker_sleeps_WakeOk s v xs ys at h
Step-WakeOk {s} (worker_leaves xs ys at h) q v =
    worker_changes_WakeOk s v xs ys checking exited at (omega arith)
      (inl (leaves-empty s.pool s.accepted s.started s.dropped q h))
Step-WakeOk {s} (worker_takes xs ys e p cs at h n) q v = worker_takes_WakeOk s v xs ys e p cs at h n
Step-WakeOk {s} (worker_finishes xs ys e throwing at) q v =
    worker_changes_WakeOk s v xs ys (working e) checking at (omega arith) (inr (omega arith))
Step-WakeOk {s} (worker_wakes xs ys at) q v =
    worker_changes_WakeOk s v xs ys sleeping checking at (omega arith) (inr (omega arith))
Step-WakeOk {s} (caller_wakes xs ys t at) q v =
    caller_changes_WakeOk s v xs ys (blocked t) (woken t) at (omega arith) (inr (omega arith))
Step-WakeOk {s} (closes_gracefully p h) q v =
    let (o, after) = graceful_shutdown-some s.pool p h in
    closes_WakeOk s v p o (rw after) (rw after (omega arith))
Step-WakeOk {s} (closes_immediately p h) q v =
    let (o, after) = immediate_shutdown-some s.pool p h in
    closes_WakeOk s v p o (rw after (ground arith)) (rw after (omega arith))
Step-WakeOk {s} (notifies_callers h) q v = notifies_callers_WakeOk s v h
Step-WakeOk {s} (notifies_workers h) q v = notifies_workers_WakeOk s v h
Step-WakeOk {s} (joins h all) q v = joins_WakeOk s v h

-- No wake-up is lost, in any order of the threads' steps: while a worker sleeps on `cvNotEmpty`,
-- there are at most as many tasks in the queue as other workers that are about to look at it; while
-- a caller sleeps on `cvNotFull` and the pool is open, there are at most as many free slots as
-- woken callers that are about to look; and from the `notify_all` of a shutdown on, nobody sleeps
-- on the condition variable that it notified.
pub Reach-WakeOk : {n capacity : ℕ} {s : System} → Reach n capacity s → WakeOk s
Reach-WakeOk {n} {capacity} here = start-WakeOk n capacity
Reach-WakeOk (later r st) = Step-WakeOk st (Reach-QueueOk r) (Reach-WakeOk r)
