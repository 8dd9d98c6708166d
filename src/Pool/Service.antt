-- ===== src/Pool/Service.antt =====
-- While a pool is open, no caller and no task waits for nobody.
use go_prep.Base.{
  total, total-middle, ℕ, ◌+◌, ◌<◌, ◌≡◌, refl, ap, false, List, [], ◌∷◌, ◌++◌, length, arith, inl,
  inr,
}
use go_prep.Pool.{Task, Entry, is_closed}
use go_prep.Pool.System.{
  System, Worker, checking, sleeping, working, exited, Caller, blocked, asleep, stuck, Reach,
}
use go_prep.Pool.Queue.{Reach-QueueOk}
use go_prep.Pool.Wakeups.{awake, again}
use go_prep.Pool.Progress.{Reach-WakeOk}
use go_prep.Pool.Shutdown.{gone, one, Reach-ShutOk}

-- The workers that have a task.
abbrev pub busy : Worker → ℕ
busy (working e) = 1
busy w = 0

total-one :
    (ws : List Worker)
    → total one ws ≡ total awake ws + total busy ws + total asleep ws + total gone ws
total-one [] = refl
total-one (checking ∷ ws) = omega (arith, total-one ws)
total-one (sleeping ∷ ws) = omega (arith, total-one ws)
total-one (working e ∷ ws) = omega (arith, total-one ws)
total-one (exited ∷ ws) = omega (arith, total-one ws)

module _ {n capacity : ℕ} {s : System} (r : Reach n capacity s) (some_worker : 0 < n)
    (is_open : is_closed s.pool ≡ false) where
  none_gone : total gone s.workers ≡ 0
  none_gone = elim (Reach-ShutOk r).0 [ inl z ↦ z | inr (c, _) ↦ ground arith ]

  -- While the pool is open and a task is in the queue, a worker is awake: about to look at the
  -- queue, or at a task, after which it looks.
  queued-Served :
      (e : Entry) (es : List Entry)
      → s.pool.task_queue ≡ e ∷ es
      → 0 < total awake s.workers + total busy s.workers
  queued-Served e es front = elim (Reach-WakeOk r).tasks_seen [
    | inl z ↦ omega (arith, total-one s.workers, (Reach-ShutOk r).1, none_gone)
    | inr enough ↦ omega (arith, ap length front)
  ]

  -- While the pool is open, and it has a worker and a slot: for a caller that sleeps in `pushTask`,
  -- a woken caller is about to look at the queue, or a worker is awake that is about to look at it
  -- or is at a task, after which it looks.
  pub blocked-Served :
      (xs ys : List Caller) (t : Task)
      → 0 < capacity
      → s.callers ≡ xs ++ blocked t ∷ ys
      → 0 < total again s.callers + total awake s.workers + total busy s.workers
  blocked-Served xs ys t some_slot at = elim (Reach-WakeOk r).slots_seen [
    | inl c ↦ ground arith
    | inr (inl z) ↦
        absurd (omega (arith, ap (total stuck) at, total-middle stuck xs ys (blocked t)))
    | inr (inr enough) ↦
        let kept = (Reach-QueueOk r).capacity_kept in
        elim (Reach-WakeOk r).tasks_seen [
          | inl z ↦ omega (arith, total-one s.workers, (Reach-ShutOk r).1, none_gone)
          | inr looked ↦ omega arith
        ]
  ]
