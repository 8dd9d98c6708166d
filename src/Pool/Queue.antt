-- ===== src/Pool/Queue.antt =====
-- The queue of the pool, in every order of the threads' steps: its bound, its order, and what a
-- shutdown does to it.
use go_prep.Base.{
  ℕ, ◌≤◌, ◌≡◌, refl, sym, ap, ◌∙◌, true, false, ◌&&◌, some, List, [], ◌∷◌, ◌++◌, append-nil,
  append_assoc, length, length-append, push_back, arith, ◌⊎◌, inl, inr,
}
use go_prep.Pool.{Entry, Pool, make_pool, graceful_shutdown, immediate_shutdown, take_task, leaves}
use go_prep.Pool.System.{
  System, start, Step, Reach, here, later, calls, caller_throws, caller_blocks, caller_pushes,
  worker_sleeps, worker_leaves, worker_takes, worker_finishes, worker_wakes, caller_wakes,
  closes_gracefully, closes_immediately, notifies_callers, notifies_workers, joins,
}
use go_prep.Pool.Moves.{
  Pushes, admit-Pushes, Takes, take_task-Takes, take_task-Leaves, graceful_shutdown-some,
  immediate_shutdown-some,
}

-- The queue is within its capacity; the accepted tasks are, in order, those that were started, those
-- in the queue and those that were dropped; only an immediate shutdown drops tasks, and it leaves
-- no task in the queue; and at most one kind of shutdown is under way.
pub record QueueInv (capacity : ℕ) (p : Pool) (accepted started dropped : List Entry) : Type 0 where
  pub capacity_kept : p.max_queue_size ≡ capacity
  pub bounded : length p.task_queue ≤ capacity
  pub fifo : accepted ≡ started ++ (p.task_queue ++ dropped)
  pub wiping :
      ((p.is_immediate_shutdown ≡ false) × (dropped ≡ []))
      ⊎ ((p.is_immediate_shutdown ≡ true) × (p.task_queue ≡ []))
  one_kind : (p.is_graceful_shutdown && p.is_immediate_shutdown) ≡ false

start-QueueInv : (n capacity : ℕ) → QueueInv capacity (make_pool capacity) [] [] []
unfolding make_pool
start-QueueInv n capacity = record {
  capacity_kept = refl;
  bounded = omega arith;
  fifo = refl;
  wiping = inl (refl, refl);
  one_kind = refl;
}

-- A pool that is not being shut down immediately has dropped nothing.
none_dropped :
    (capacity : ℕ) (p : Pool) (accepted started dropped : List Entry)
    → QueueInv capacity p accepted started dropped
    → p.is_immediate_shutdown ≡ false
    → dropped ≡ []
none_dropped capacity p accepted started dropped v off = elim v.wiping [
  | inl (_, nothing) ↦ nothing
  | inr (on, _) ↦ ground arith
]

module _ (capacity : ℕ) (p : Pool) (accepted started dropped : List Entry)
    (v : QueueInv capacity p accepted started dropped) where
  Pushes-QueueInv :
      (p' : Pool) (e : Entry)
      → Pushes p e p'
      → QueueInv capacity p' (push_back accepted e) started dropped
  Pushes-QueueInv p' e m =
      let running : p.is_immediate_shutdown ≡ false = (let o = m.open_pool in ground arith) in
      let nothing = none_dropped capacity p accepted started dropped v running in
      rw m.after (record {
        capacity_kept = v.capacity_kept;
        bounded = omega (arith, m.room, v.capacity_kept, length-append p.task_queue (e ∷ []));
        fifo =
            ap (λ es. push_back es e) v.fifo
            ∙ rw (nothing, append-nil p.task_queue, append-nil (push_back p.task_queue e))
                (append_assoc started p.task_queue (e ∷ []));
        wiping = inl (running, nothing);
        one_kind = v.one_kind;
      })

  Takes-QueueInv :
      (p' : Pool) (e : Entry)
      → Takes p e p'
      → QueueInv capacity p' accepted (push_back started e) dropped
  Takes-QueueInv p' e m = record {
    capacity_kept = ap (λ x. x.max_queue_size) m.after ∙ v.capacity_kept;
    bounded = omega (arith, ap length m.front, v.bounded);
    fifo = v.fifo ∙ rw m.front (sym (append_assoc started (e ∷ []) (p'.task_queue ++ dropped)));
    wiping = inl (
      ap (λ x. x.is_immediate_shutdown) m.after ∙ m.goes_on,
      none_dropped capacity p accepted started dropped v m.goes_on,
    );
    one_kind = rw m.after v.one_kind;
  }

  closes_gracefully_QueueInv :
      (p' : Pool) → graceful_shutdown p ≡ some p' → QueueInv capacity p' accepted started dropped
  closes_gracefully_QueueInv p' h =
      let (o, after) = graceful_shutdown-some p p' h in
      rw after (record {
        capacity_kept = v.capacity_kept;
        bounded = v.bounded;
        fifo = v.fifo;
        wiping = v.wiping;
        one_kind = ground arith;
      })

  closes_immediately_QueueInv :
      (p' : Pool)
      → immediate_shutdown p ≡ some p'
      → QueueInv capacity p' accepted started p.task_queue
  closes_immediately_QueueInv p' h =
      let (o, after) = immediate_shutdown-some p p' h in
      let running : p.is_immediate_shutdown ≡ false = ground arith in
      let nothing = none_dropped capacity p accepted started dropped v running in
      rw after (record {
        capacity_kept = v.capacity_kept;
        bounded = omega arith;
        fifo = v.fifo ∙ rw (nothing, append-nil p.task_queue);
        wiping = inr (refl, refl);
        one_kind = ground arith;
      })

abbrev pub QueueOk : ℕ → System → Type 0
QueueOk capacity s = QueueInv capacity s.pool s.accepted s.started s.dropped

Step-QueueOk : (capacity : ℕ) {s t : System} → Step s t → QueueOk capacity s → QueueOk capacity t
Step-QueueOk capacity (calls t) v = v
Step-QueueOk capacity (caller_throws xs ys c t at h) v = v
Step-QueueOk capacity (caller_blocks xs ys c t at h) v = v
Step-QueueOk capacity {s} (caller_pushes xs ys c t p ws at h n) v =
    Pushes-QueueInv capacity s.pool s.accepted s.started s.dropped v p _
      (admit-Pushes s.pool p c t (length s.accepted) h)
Step-QueueOk capacity (worker_sleeps xs ys at h) v = v
Step-QueueOk capacity (worker_leaves xs ys at h) v = v
Step-QueueOk capacity {s} (worker_takes xs ys e p cs at h n) v =
    Takes-QueueInv capacity s.pool s.accepted s.started s.dropped v p e
      (take_task-Takes s.pool p e h)
Step-QueueOk capacity (worker_finishes xs ys e throwing at) v = v
Step-QueueOk capacity (worker_wakes xs ys at) v = v
Step-QueueOk capacity (caller_wakes xs ys t at) v = v
Step-QueueOk capacity {s} (closes_gracefully p h) v =
    closes_gracefully_QueueInv capacity s.pool s.accepted s.started s.dropped v p h
Step-QueueOk capacity {s} (closes_immediately p h) v =
    closes_immediately_QueueInv capacity s.pool s.accepted s.started s.dropped v p h
Step-QueueOk capacity (notifies_callers h) v = v
Step-QueueOk capacity (notifies_workers h) v = v
Step-QueueOk capacity (joins h all) v = v

-- In every order of the threads' steps: the queue never exceeds its capacity; the tasks that were
-- accepted are, in the order of their acceptance, those that workers have started, then those in
-- the queue, then those that were dropped; only an immediate shutdown drops tasks, and none is
-- left in the queue after it; and at most one of the two shutdowns takes effect.
pub Reach-QueueOk : {n capacity : ℕ} {s : System} → Reach n capacity s → QueueOk capacity s
unfolding start
Reach-QueueOk {n} {capacity} here = start-QueueInv n capacity
Reach-QueueOk {n} {capacity} (later r st) = Step-QueueOk capacity st (Reach-QueueOk r)

-- A worker leaves its loop only when the queue is empty.
pub leaves-empty :
    {capacity : ℕ} (p : Pool) (accepted started dropped : List Entry)
    → QueueInv capacity p accepted started dropped
    → take_task p ≡ leaves
    → p.task_queue ≡ []
leaves-empty p accepted started dropped v h = elim v.wiping [
  | inl (off, _) ↦ (take_task-Leaves p h).drained off
  | inr (_, empty) ↦ empty
]
