-- ===== src/Pool/Sleepers.antt =====
-- The invariant that ties the sleeping threads to the queue.
use go_prep.Base.{
  total, ℕ, ◌+◌, ◌≤◌, ◌≡◌, refl, Bool, true, false, List, length, arith, ◌⊎◌, inl, inr,
}
use go_prep.Pool.{Pool, make_pool, is_closed}
use go_prep.Pool.System.{
  System, Worker, Caller, arriving, woken, blocked, threw, returned, Phase, not_called, flagged,
  callers_notified, joining, joined, asleep, stuck, start,
}
use go_prep.Pool.Wakeups.{awake, again, workers_start}

-- What the shutdown in progress has done so far.
abbrev pub Told : Phase → Bool → ℕ → ℕ → Type 0
Told not_called closed sleepers stuck_callers = closed ≡ false
Told flagged closed sleepers stuck_callers = closed ≡ true
Told callers_notified closed sleepers stuck_callers = (closed ≡ true) × (stuck_callers ≡ 0)
Told joining closed sleepers stuck_callers = (closed ≡ true) × (stuck_callers ≡ 0) × (sleepers ≡ 0)
Told joined closed sleepers stuck_callers = (closed ≡ true) × (stuck_callers ≡ 0) × (sleepers ≡ 0)

-- If a worker sleeps, each task in the queue has a worker that is about to look; if a caller sleeps
-- and the pool is open, each free slot has a caller that is about to look; and once the shutdown
-- has notified a condition variable, no thread sleeps on it.
pub record WakeInv (p : Pool) (ws : List Worker) (cs : List Caller) (phase : Phase) : Type 0 where
  pub tasks_seen : (total asleep ws ≡ 0) ⊎ (length p.task_queue ≤ total awake ws)
  pub slots_seen :
      (is_closed p ≡ true)
      ⊎ (total stuck cs ≡ 0)
      ⊎ (p.max_queue_size ≤ length p.task_queue + total again cs)
  pub told : Told phase (is_closed p) (total asleep ws) (total stuck cs)

abbrev pub WakeOk : System → Type 0
WakeOk s = WakeInv s.pool s.workers s.callers s.phase

-- What has been told is kept when no more threads sleep.
pub Told-fewer :
    (phase : Phase) (closed : Bool) (a b a' b' : ℕ)
    → a' ≤ a
    → b' ≤ b
    → Told phase closed a b
    → Told phase closed a' b'
Told-fewer not_called closed a b a' b' h k t = t
Told-fewer flagged closed a b a' b' h k t = t
Told-fewer callers_notified closed a b a' b' h k t = (t.0, omega (arith, t.1))
Told-fewer joining closed a b a' b' h k t = (t.0, omega (arith, t.1), omega (arith, t.2))
Told-fewer joined closed a b a' b' h k t = (t.0, omega (arith, t.1), omega (arith, t.2))

-- While the pool is open, no shutdown has been called.
pub Told-open :
    (phase : Phase) (a b c d : ℕ) (closed : Bool)
    → closed ≡ false
    → Told phase closed a b
    → Told phase closed c d
Told-open not_called a b c d closed o t = t
Told-open flagged a b c d closed o t = ground arith
Told-open callers_notified a b c d closed o t = ground arith
Told-open joining a b c d closed o t = ground arith
Told-open joined a b c d closed o t = ground arith

pub start-WakeOk : (n capacity : ℕ) → WakeOk (start n capacity)
unfolding start make_pool
start-WakeOk n capacity = record {
  tasks_seen = inl (workers_start n);
  slots_seen = inr (inl refl);
  told = refl;
}

pub again-bound : (c : Caller) → again c ≤ 1
again-bound (arriving t) = omega arith
again-bound (woken t) = omega arith
again-bound (blocked t) = omega arith
again-bound threw = omega arith
again-bound (returned n) = omega arith
