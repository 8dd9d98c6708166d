-- ===== src/Pool/Workload.antt =====
-- What the workers still have to do once a shutdown joins them.
use go_prep.Base.{
  total, ℕ, ◌+◌, ◌*◌, ◌≡◌, ◌≢◌, refl, ap, true, false, List, [], ◌∷◌, ◌++◌, length, arith, ◌⊎◌, inl,
  inr, All,
}
use go_prep.Pool.{Entry, Pool, is_closed, Turn, sleeps, leaves, takes, faults}
use go_prep.Pool.System.{
  System, Worker, checking, sleeping, working, exited, Caller, arriving, woken, blocked, threw,
  returned, joining, wake_caller, asleep, stuck, NotifyOne, nobody, somebody, Reach,
}
use go_prep.Pool.Sleepers.{Told}
use go_prep.Pool.Progress.{Reach-WakeOk}

-- How many turns a worker and a task in the queue can still cost.
abbrev pub turns : Worker → ℕ
turns checking = 1
turns sleeping = 2
turns (working e) = 2
turns exited = 0

abbrev pub remaining : System → ℕ
remaining s = 3 * length s.pool.task_queue + total turns s.workers

-- From the second `notify_all` on the pool is closed and no worker sleeps.
pub Joining-told :
    {n capacity : ℕ} {s : System}
    → Reach n capacity s
    → s.phase ≡ joining
    → (is_closed s.pool ≡ true) × (total asleep s.workers ≡ 0)
Joining-told {n} {capacity} {s} r h =
    let t : Told joining (is_closed s.pool) (total asleep s.workers) (total stuck s.callers) =
      rw h at (Reach-WakeOk r).told in
    (t.0, t.2)

-- The first worker that is not past its loop.
pub first_left :
    (ws : List Worker)
    → All (λ w. w ≡ exited) ws
      ⊎ ((xs : List Worker) × (ys : List Worker) × (w : Worker) × (ws ≡ xs ++ w ∷ ys)
          × (w ≢ exited))
first_left [] = inl tt
first_left (exited ∷ ws) = elim (first_left ws) [
  | inl all ↦ inl (refl, all)
  | inr (xs, ys, w, at, left) ↦ inr (exited ∷ xs, ys, w, ap (◌∷◌ exited) at, left)
]
first_left (checking ∷ ws) = inr ([], ws, checking, refl, λ e. ground arith)
first_left (sleeping ∷ ws) = inr ([], ws, sleeping, refl, λ e. ground arith)
first_left (working e ∷ ws) = inr ([], ws, working e, refl, λ e'. ground arith)

one_or_none : (c : Caller) → (stuck c ≡ 0) ⊎ (stuck c ≡ 1)
one_or_none (arriving t) = inl refl
one_or_none (woken t) = inl refl
one_or_none (blocked t) = inr refl
one_or_none threw = inl refl
one_or_none (returned i) = inl refl

first_stuck :
    (cs : List Caller)
    → (total stuck cs ≡ 0)
      ⊎ ((xs : List Caller) × (ys : List Caller) × (c : Caller) × (cs ≡ xs ++ c ∷ ys)
          × (stuck c ≡ 1))
first_stuck [] = inl refl
first_stuck (c ∷ cs) = elim (first_stuck cs) [
  | inr (xs, ys, d, at, h) ↦ inr (c ∷ xs, ys, d, ap (◌∷◌ c) at, h)
  | inl z ↦ elim (one_or_none c) [ inl o ↦ inl (omega arith) | inr h ↦ inr ([], cs, c, refl, h) ]
]

-- A `notify_one` is always possible.
pub notify_caller : (cs : List Caller) → (cs' : List Caller) × NotifyOne stuck wake_caller cs cs'
notify_caller cs = elim (first_stuck cs) [
  | inl z ↦ (cs, nobody z)
  | inr (xs, ys, c, at, h) ↦ (xs ++ wake_caller c ∷ ys, somebody xs ys c at h)
]

pub turn_cases :
    (t : Turn)
    → (t ≡ sleeps) ⊎ (t ≡ leaves) ⊎ (t ≡ faults) ⊎ ((e : Entry) × (p : Pool) × (t ≡ takes e p))
turn_cases sleeps = inl refl
turn_cases leaves = inr (inl refl)
turn_cases faults = inr (inr (inl refl))
turn_cases (takes e p) = inr (inr (inr (e, p, refl)))

pub closed-open : (p : Pool) → is_closed p ≡ true → is_closed p ≡ false → ⊥
closed-open p h k = ground arith
