-- ===== src/Pool/Joining.antt =====
-- While a shutdown joins its workers, every schedule of the threads brings them to their end.
use go_prep.Base.{
  map, [], Run, stay, step, ℕ, ◌+◌, ◌≤◌, ◌<◌, ◌≡◌, ◌≢◌, ap, ◌∙◌, true, List, ◌∷◌, ◌++◌, length,
  arith, total, total-change,
}
use go_prep.Pool.{is_closed}
use go_prep.Pool.System.{
  System, Worker, checking, sleeping, working, exited, joining, joined, wake_worker, Step, Reach,
  later, calls, caller_throws, caller_blocks, caller_pushes, worker_sleeps, worker_leaves,
  worker_takes, worker_finishes, worker_wakes, caller_wakes, closes_gracefully, closes_immediately,
  notifies_callers, notifies_workers, joins,
}
use go_prep.Pool.Moves.{
  admit-Pushes, take_task-Takes, take_task-sleeps, graceful_shutdown-some, immediate_shutdown-some,
}
use go_prep.Pool.Workload.{turns, remaining, closed-open}
use go_prep.Pool.Termination.{worker-MovesOn, shutdown-Returns}

-- Whether a step is one of a worker.
abbrev worker_step : {s t : System} → Step s t → ℕ
worker_step (worker_sleeps xs ys at e) = 1
worker_step (worker_leaves xs ys at e) = 1
worker_step (worker_takes xs ys d p cs at e told) = 1
worker_step (worker_finishes xs ys d throwing at) = 1
worker_step (worker_wakes xs ys at) = 1
worker_step (calls u) = 0
worker_step (caller_throws xs ys c u at e) = 0
worker_step (caller_blocks xs ys c u at e) = 0
worker_step (caller_pushes xs ys c u p ws at e told) = 0
worker_step (caller_wakes xs ys u at) = 0
worker_step (closes_gracefully p e) = 0
worker_step (closes_immediately p e) = 0
worker_step (notifies_callers e) = 0
worker_step (notifies_workers e) = 0
worker_step (joins e all) = 0

abbrev worker_steps : {s t : System} → Run Step s t → ℕ
worker_steps stay = 0
worker_steps (step run st) = worker_steps run + worker_step st

woken-turns : (ws : List Worker) → total turns (map wake_worker ws) ≤ total turns ws
woken-turns [] = omega arith
woken-turns (checking ∷ ws) = omega (arith, woken-turns ws)
woken-turns (sleeping ∷ ws) = omega (arith, woken-turns ws)
woken-turns (working e ∷ ws) = omega (arith, woken-turns ws)
woken-turns (exited ∷ ws) = omega (arith, woken-turns ws)

-- On a closed pool a step takes one of the turns that are left if it is one of a worker, and no
-- step adds one.
abbrev Bounded : (s t : System) → ℕ → Type 0
Bounded s t k = (k + remaining t ≤ remaining s) × (is_closed t.pool ≡ true)

Step-Bounded :
    {s t : System} (st : Step s t) → is_closed s.pool ≡ true → Bounded s t (worker_step st)
Step-Bounded (calls u) h = (omega arith, h)
Step-Bounded (caller_throws xs ys c u at e) h = (omega arith, h)
Step-Bounded (caller_blocks xs ys c u at e) h = (omega arith, h)
Step-Bounded {s} (caller_pushes xs ys c u p ws at e told) h =
    absurd (closed-open s.pool h (admit-Pushes s.pool p c u (length s.accepted) e).open_pool)
Step-Bounded {s} (worker_sleeps xs ys at e) h =
    absurd (closed-open s.pool h (take_task-sleeps s.pool e).0)
Step-Bounded {s} (worker_leaves xs ys at e) h =
    (omega (arith, total-change turns s.workers xs ys checking exited at), h)
Step-Bounded {s} (worker_takes xs ys d p cs at e told) h =
    let taken = take_task-Takes s.pool p d e in
    (
      omega (
        arith,
        ap length taken.front,
        total-change turns s.workers xs ys checking (working d) at,
      ),
      ap is_closed taken.after ∙ h,
    )
Step-Bounded {s} (worker_finishes xs ys d throwing at) h =
    (omega (arith, total-change turns s.workers xs ys (working d) checking at), h)
Step-Bounded {s} (worker_wakes xs ys at) h =
    (omega (arith, total-change turns s.workers xs ys sleeping checking at), h)
Step-Bounded (caller_wakes xs ys u at) h = (omega arith, h)
Step-Bounded {s} (closes_gracefully p e) h =
    absurd (closed-open s.pool h (graceful_shutdown-some s.pool p e).0)
Step-Bounded {s} (closes_immediately p e) h =
    absurd (closed-open s.pool h (immediate_shutdown-some s.pool p e).0)
Step-Bounded (notifies_callers e) h = (omega arith, h)
Step-Bounded {s} (notifies_workers e) h = (omega (arith, woken-turns s.workers), h)
Step-Bounded (joins e all) h = (omega arith, h)

Run-Bounded :
    {s t : System} (run : Run Step s t) → is_closed s.pool ≡ true → Bounded s t (worker_steps run)
Run-Bounded stay h = (omega arith, h)
Run-Bounded (step run st) h =
    let (before, closed) = Run-Bounded run h in
    let (now, still) = Step-Bounded st closed in (omega arith, still)

Run-Reach : {n capacity : ℕ} {s t : System} → Reach n capacity s → Run Step s t → Reach n capacity t
Run-Reach r stay = r
Run-Reach r (step run st) = later (Run-Reach r run) st

-- No worker that is left waits for another one.
pub record Ending (s t : System) (run : Run Step s t) : Type 0 where
  pub bounded : worker_steps run + remaining t ≤ remaining s
  pub moves :
      (xs ys : List Worker) (w : Worker)
      → t.phase ≡ joining
      → t.workers ≡ xs ++ w ∷ ys
      → w ≢ exited
      → (u : System) × Step t u
        × (remaining u < remaining t)
        × (u.phase ≡ joining)
        × ((new : Worker) × (u.workers ≡ xs ++ new ∷ ys))
  pub leads_on : (u : System) × Run Step t u × (u.phase ≡ joined)

-- Once a shutdown has been called, every schedule ends the workers: in each run that goes on from
-- there they take at most as many steps as `remaining` counts, three for each task in the queue and
-- up to two for each worker, wake-ups for no reason included and whatever the other threads do; while the shutdown joins them, each worker that has not left its
-- loop can take its next step at any time; and a run leads on to the state in which the shutdown
-- has joined all of them.
pub closed-Ending :
    {n capacity : ℕ} {s t : System}
    → Reach n capacity s
    → is_closed s.pool ≡ true
    → (run : Run Step s t) → Ending s t run
closed-Ending {t = t} r h run =
    let reached = Run-Reach r run in
    let (few, closed) = Run-Bounded run h in
    record {
      bounded = few;
      moves = λ xs ys w joins_now at left. worker-MovesOn t reached joins_now w xs ys at left;
      leads_on = shutdown-Returns t reached closed;
    }
