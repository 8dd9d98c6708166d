-- ===== src/Pool/Shutdown.antt =====
-- What holds when a shutdown returns: it has joined all workers.
use go_prep.Base.{
  total, total-change, ℕ, zero, suc, ◌≤◌, ◌<◌, ◌≡◌, refl, ap, ◌∙◌, true, false, List, [], ◌∷◌, ◌++◌,
  append-nil, map, Perm, length, replicate, arith, ◌⊎◌, inl, inr, All,
}
use go_prep.Pool.{Entry, Pool, is_closed}
use go_prep.Pool.System.{
  System, Worker, checking, sleeping, working, exited, wake_worker, asleep, NotifyOne, nobody,
  somebody, start, Step, Reach, here, later, calls, caller_throws, caller_blocks, caller_pushes,
  worker_sleeps, worker_leaves, worker_takes, worker_finishes, worker_wakes, caller_wakes,
  closes_gracefully, closes_immediately, notifies_callers, notifies_workers, joins,
}
use go_prep.Pool.Queue.{QueueOk, Reach-QueueOk, leaves-empty}
use go_prep.Pool.Promises.{running, finished, IsOwn, Reach-Kept}
use go_prep.Pool.Moves.{
  admit-Pushes, take_task-Takes, take_task-Leaves, graceful_shutdown-some, immediate_shutdown-some,
}

abbrev pub gone : Worker → ℕ
gone exited = 1
gone w = 0

abbrev pub one : Worker → ℕ
one w = 1

gone-wake_worker : (w : Worker) → gone (wake_worker w) ≡ gone w
gone-wake_worker checking = refl
gone-wake_worker sleeping = refl
gone-wake_worker (working e) = refl
gone-wake_worker exited = refl

-- A measure that waking does not change.
module _ (f : Worker → ℕ) (same : (w : Worker) → f (wake_worker w) ≡ f w) where
  notify-total :
      (ws ws' : List Worker) → NotifyOne asleep wake_worker ws ws' → total f ws' ≡ total f ws
  notify-total ws ws' (nobody h) = refl
  notify-total ws ws' (somebody front back x at h) =
      omega (arith, total-change f ws front back x (wake_worker x) at, same x)

  wake_all-total : (ws : List Worker) → total f (map wake_worker ws) ≡ total f ws
  wake_all-total [] = refl
  wake_all-total (w ∷ ws) = omega (arith, same w, wake_all-total ws)

-- No worker is past its loop, or the pool is closed and its queue empty.
abbrev Ended : Pool → List Worker → Type 0
Ended p ws = (total gone ws ≡ 0) ⊎ ((is_closed p ≡ true) × (p.task_queue ≡ []))

-- And the number of workers stays.
abbrev ShutOk : ℕ → System → Type 0
ShutOk n s = Ended s.pool s.workers × (total one s.workers ≡ n)

module _ (n : ℕ) (s : System) (v : ShutOk n s) where
  changes_ShutOk :
      (xs ys : List Worker) (x y : Worker)
      → s.workers ≡ xs ++ x ∷ ys
      → (gone y ≤ gone x) ⊎ ((is_closed s.pool ≡ true) × (s.pool.task_queue ≡ []))
      → Ended s.pool (xs ++ y ∷ ys) × (total one (xs ++ y ∷ ys) ≡ n)
  changes_ShutOk xs ys x y at h = (
    elim h [
      | inl fewer ↦ elim v.0 [
        | inl z ↦ inl (omega (arith, total-change gone s.workers xs ys x y at))
        | inr over ↦ inr over
      ]
      | inr over ↦ inr over
    ],
    omega (arith, total-change one s.workers xs ys x y at, v.1),
  )

  -- While the pool is open, or has a task, no worker is past its loop.
  open-gone : is_closed s.pool ≡ false → total gone s.workers ≡ 0
  open-gone o = elim v.0 [ inl z ↦ z | inr (c, _) ↦ ground arith ]

  task-gone : (e : Entry) (es : List Entry) → s.pool.task_queue ≡ e ∷ es → total gone s.workers ≡ 0
  task-gone e es front = elim v.0 [
    | inl z ↦ z
    | inr (_, empty) ↦ absurd (omega (arith, ap length front, ap length empty))
  ]

replicate_lem :
    (n : ℕ) → (total gone (replicate n checking) ≡ 0) × (total one (replicate n checking) ≡ n)
replicate_lem zero = (refl, refl)
replicate_lem (suc n) = (omega (arith, (replicate_lem n).0), omega (arith, (replicate_lem n).1))

Step-ShutOk :
    {n capacity : ℕ} {s t : System} → Step s t → QueueOk capacity s → ShutOk n s → ShutOk n t
Step-ShutOk (calls t) q v = v
Step-ShutOk (caller_throws xs ys c t at h) q v = v
Step-ShutOk (caller_blocks xs ys c t at h) q v = v
Step-ShutOk {n} {capacity} {s} (caller_pushes xs ys c t p ws at h told) q v =
    let m = admit-Pushes s.pool p c t (length s.accepted) h in
    (
      inl (notify-total gone gone-wake_worker s.workers ws told ∙ open-gone n s v m.open_pool),
      notify-total one (λ w. refl) s.workers ws told ∙ v.1,
    )
Step-ShutOk {n} {capacity} {s} (worker_sleeps xs ys at h) q v =
    changes_ShutOk n s v xs ys checking sleeping at (inl (omega arith))
Step-ShutOk {n} {capacity} {s} (worker_leaves xs ys at h) q v =
    changes_ShutOk n s v xs ys checking exited at (
      inr (
        (take_task-Leaves s.pool h).closed,
        leaves-empty s.pool s.accepted s.started s.dropped q h,
      ))
Step-ShutOk {n} {capacity} {s} (worker_takes xs ys e p cs at h told) q v =
    let m = take_task-Takes s.pool p e h in
    (
      inl (
          omega (
            arith,
            task-gone n s v e p.task_queue m.front,
            total-change gone s.workers xs ys checking (working e) at,
          )),
      omega (arith, total-change one s.workers xs ys checking (working e) at, v.1),
    )
Step-ShutOk {n} {capacity} {s} (worker_finishes xs ys e throwing at) q v =
    changes_ShutOk n s v xs ys (working e) checking at (inl (omega arith))
Step-ShutOk {n} {capacity} {s} (worker_wakes xs ys at) q v =
    changes_ShutOk n s v xs ys sleeping checking at (inl (omega arith))
Step-ShutOk (caller_wakes xs ys t at) q v = v
Step-ShutOk {n} {capacity} {s} (closes_gracefully p h) q v =
    (inl (open-gone n s v (graceful_shutdown-some s.pool p h).0), v.1)
Step-ShutOk {n} {capacity} {s} (closes_immediately p h) q v =
    (inl (open-gone n s v (immediate_shutdown-some s.pool p h).0), v.1)
Step-ShutOk (notifies_callers h) q v = v
Step-ShutOk {n} {capacity} {s} (notifies_workers h) q v =
    let e = wake_all-total gone gone-wake_worker s.workers in
    (
      elim v.0 [ inl z ↦ inl (e ∙ z) | inr over ↦ inr over ],
      wake_all-total one (λ w. refl) s.workers ∙ v.1,
    )
Step-ShutOk (joins h all) q v = v

pub Reach-ShutOk : {n capacity : ℕ} {s : System} → Reach n capacity s → ShutOk n s
unfolding start
Reach-ShutOk {n} here = (inl (replicate_lem n).0, (replicate_lem n).1)
Reach-ShutOk (later r st) = Step-ShutOk st (Reach-QueueOk r) (Reach-ShutOk r)

all-gone : (ws : List Worker) → All (λ w. w ≡ exited) ws → total gone ws ≡ total one ws
all-gone [] h = refl
all-gone (w ∷ ws) h = rw h.0 (omega (arith, all-gone ws h.1))

all-idle : (ws : List Worker) → All (λ w. w ≡ exited) ws → running ws ≡ []
all-idle [] h = refl
all-idle (w ∷ ws) h = rw h.0 (all-idle ws h.1)

-- When the shutdown of a pool that has a worker has joined all workers: the pool is closed and its
-- queue is empty; every accepted task was started or, by an immediate shutdown, dropped; and each
-- task that was started has its promise set exactly once, to its own result or the exception that
-- its work threw.
pub joined-Complete :
    {n capacity : ℕ} {s : System}
    → Reach n capacity s
    → 0 < n
    → All (λ w. w ≡ exited) s.workers
    → (is_closed s.pool ≡ true)
      × (s.pool.task_queue ≡ [])
      × (s.accepted ≡ s.started ++ s.dropped)
      × Perm s.started (finished s.settled)
      × All IsOwn s.settled
joined-Complete {n} {capacity} {s} r some_worker all =
    let v = Reach-ShutOk r in
    let (closed, empty) : (is_closed s.pool ≡ true) × (s.pool.task_queue ≡ []) = elim v.0 [
      | inl z ↦ absurd (omega (arith, all-gone s.workers all, v.1))
      | inr over ↦ over
    ] in
    (
      closed,
      empty,
      (Reach-QueueOk r).fifo ∙ rw empty refl,
      rw (all-idle s.workers all) at (Reach-Kept r).once,
      (Reach-Kept r).own,
    )

-- A graceful shutdown finishes the queued tasks: when it has joined its workers, of which there is
-- at least one, every task that was ever accepted has its promise set to its own result or to the
-- exception that its work threw, exactly once.
pub graceful-Complete :
    {n capacity : ℕ} {s : System}
    → Reach n capacity s
    → 0 < n
    → All (λ w. w ≡ exited) s.workers
    → s.pool.is_immediate_shutdown ≡ false
    → Perm s.accepted (finished s.settled) × All IsOwn s.settled
graceful-Complete {n} {capacity} {s} r some_worker all off =
    let (_, _, done, kept, own) = joined-Complete r some_worker all in
    let nothing : s.dropped ≡ [] = elim (Reach-QueueOk r).wiping [
      | inl (_, none_dropped) ↦ none_dropped
      | inr (on, _) ↦ ground arith
    ] in
    (rw (done, nothing, append-nil s.started) kept, own)
