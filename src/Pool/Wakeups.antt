-- ===== src/Pool/Wakeups.antt =====
-- Why no thread sleeps through work: the wake-ups that `cvNotEmpty` and `cvNotFull` give.
use go_prep.Base.{
  total, total-change, ℕ, suc, ◌+◌, ◌≡◌, refl, List, [], ◌∷◌, map, replicate, arith, ◌⊎◌, inl, inr,
}
use go_prep.Pool.System.{
  Worker, checking, sleeping, working, exited, Caller, arriving, woken, blocked, threw, returned,
  wake_worker, wake_caller, asleep, stuck, NotifyOne, nobody, somebody,
}

-- The workers and the callers that are about to look at the queue.
abbrev pub awake : Worker → ℕ
awake checking = 1
awake w = 0

abbrev pub again : Caller → ℕ
again (woken t) = 1
again c = 0

wake_worker-counts :
    (w : Worker)
    → asleep w ≡ 1
    → (asleep (wake_worker w) ≡ 0) × (awake (wake_worker w) ≡ 1) × (awake w ≡ 0)
wake_worker-counts checking h = omega arith
wake_worker-counts sleeping h = (refl, refl, refl)
wake_worker-counts (working e) h = absurd (omega arith)
wake_worker-counts exited h = absurd (omega arith)

wake_caller-counts :
    (c : Caller)
    → stuck c ≡ 1
    → (stuck (wake_caller c) ≡ 0) × (again (wake_caller c) ≡ 1) × (again c ≡ 0)
wake_caller-counts (arriving t) h = absurd (omega arith)
wake_caller-counts (woken t) h = absurd (omega arith)
wake_caller-counts (blocked t) h = (refl, refl, refl)
wake_caller-counts threw h = absurd (omega arith)
wake_caller-counts (returned n) h = absurd (omega arith)

-- One sleeper less and one more thread that looks, or nobody slept.
abbrev Woke : {A : Type 0} → (A → ℕ) → (A → ℕ) → List A → List A → Type 0
Woke sleepy ready xs ys =
    ((total sleepy xs ≡ 0) × (total sleepy ys ≡ 0) × (total ready ys ≡ total ready xs))
    ⊎ ((total sleepy xs ≡ total sleepy ys + 1) × (total ready ys ≡ total ready xs + 1))

pub notify_worker-Woke :
    (ws ws' : List Worker) → NotifyOne asleep wake_worker ws ws' → Woke asleep awake ws ws'
notify_worker-Woke ws ws' (nobody h) = inl (h, h, refl)
notify_worker-Woke ws ws' (somebody front back x at h) =
    let (a, b, c) = wake_worker-counts x h in
    inr (
      omega (arith, total-change asleep ws front back x (wake_worker x) at),
      omega (arith, total-change awake ws front back x (wake_worker x) at),
    )

pub notify_caller-Woke :
    (cs cs' : List Caller) → NotifyOne stuck wake_caller cs cs' → Woke stuck again cs cs'
notify_caller-Woke cs cs' (nobody h) = inl (h, h, refl)
notify_caller-Woke cs cs' (somebody front back x at h) =
    let (a, b, c) = wake_caller-counts x h in
    inr (
      omega (arith, total-change stuck cs front back x (wake_caller x) at),
      omega (arith, total-change again cs front back x (wake_caller x) at),
    )

pub wake_all_workers : (ws : List Worker) → total asleep (map wake_worker ws) ≡ 0
wake_all_workers [] = refl
wake_all_workers (checking ∷ ws) = omega (arith, wake_all_workers ws)
wake_all_workers (sleeping ∷ ws) = omega (arith, wake_all_workers ws)
wake_all_workers (working e ∷ ws) = omega (arith, wake_all_workers ws)
wake_all_workers (exited ∷ ws) = omega (arith, wake_all_workers ws)

pub wake_all_callers : (cs : List Caller) → total stuck (map wake_caller cs) ≡ 0
wake_all_callers [] = refl
wake_all_callers (arriving t ∷ cs) = omega (arith, wake_all_callers cs)
wake_all_callers (woken t ∷ cs) = omega (arith, wake_all_callers cs)
wake_all_callers (blocked t ∷ cs) = omega (arith, wake_all_callers cs)
wake_all_callers (threw ∷ cs) = omega (arith, wake_all_callers cs)
wake_all_callers (returned n ∷ cs) = omega (arith, wake_all_callers cs)

pub workers_start : (n : ℕ) → total asleep (replicate n checking) ≡ 0
workers_start ℕ.zero = refl
workers_start (suc n) = omega (arith, workers_start n)
