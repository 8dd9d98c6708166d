-- ===== src/Pool/Termination.antt =====
-- A shutdown comes to its end: how much the workers still do, and that nothing stops them.
use go_prep.Base.{
  Run, stay, step, before-Run, total, total-middle, total-change, ℕ, zero, suc, ◌<◌, ◌≡◌, ◌≢◌, refl,
  ap, true, false, List, ◌∷◌, ◌++◌, length, arith, ◌⊎◌, inl, inr, All,
}
use go_prep.Pool.{is_closed, take_task}
use go_prep.Pool.System.{
  System, Worker, checking, sleeping, working, exited, Phase, not_called, flagged, callers_notified,
  joining, joined, asleep, stuck, Step, Reach, later, worker_leaves, worker_takes, worker_finishes,
  notifies_callers, notifies_workers, joins,
}
use go_prep.Pool.Sleepers.{Told}
use go_prep.Pool.Progress.{Reach-WakeOk}
use go_prep.Pool.Moves.{take_task-Takes, take_task-sleeps, take_task-faults}
use go_prep.Pool.Workload.{
  turns, remaining, Joining-told, first_left, notify_caller, turn_cases, closed-open,
}

module _ {n capacity : ℕ} (s : System) (r : Reach n capacity s) (h : s.phase ≡ joining) where
  -- The worker between `xs` and `ys` takes a step of its own, which is one nearer to the end.
  abbrev pub MovesOn : List Worker → List Worker → Type 0
  MovesOn xs ys =
      (t : System) × Step s t
      × (remaining t < remaining s)
      × (t.phase ≡ joining)
      × ((new : Worker) × (t.workers ≡ xs ++ new ∷ ys))

  -- A worker with the lock leaves its loop or takes a task.
  checking-MovesOn : (xs ys : List Worker) → s.workers ≡ xs ++ checking ∷ ys → MovesOn xs ys
  checking-MovesOn xs ys at = elim (turn_cases (take_task s.pool)) [
    | inl e ↦ absurd (closed-open s.pool (Joining-told r h).0 (take_task-sleeps s.pool e).0)
    | inr (inl e) ↦ (
      _,
      worker_leaves xs ys at e,
      omega (arith, total-change turns s.workers xs ys checking exited at),
      h,
      (exited, refl),
    )
    | inr (inr (inl e)) ↦ absurd (take_task-faults s.pool e)
    | inr (inr (inr (e, p, taken))) ↦
        let (cs, told) = notify_caller s.callers in
        (
          _,
          worker_takes xs ys e p cs at taken told,
          omega (
            arith,
            ap length (take_task-Takes s.pool p e taken).front,
            total-change turns s.workers xs ys checking (working e) at,
          ),
          h,
          (working e, refl),
        )
  ]

  pub worker-MovesOn :
      (w : Worker) (xs ys : List Worker) → s.workers ≡ xs ++ w ∷ ys → w ≢ exited → MovesOn xs ys
  worker-MovesOn checking xs ys at left = checking-MovesOn xs ys at
  worker-MovesOn sleeping xs ys at left = absurd (
      omega (arith, (Joining-told r h).1, ap (total asleep) at, total-middle asleep xs ys sleeping))
  worker-MovesOn (working e) xs ys at left = (
    _,
    worker_finishes xs ys e false at,
    omega (arith, total-change turns s.workers xs ys (working e) checking at),
    h,
    (checking, refl),
  )
  worker-MovesOn exited xs ys at left = absurd (left refl)

  -- While the shutdown joins its workers, either all of them have left their loops, or one of them
  -- can take a step that leaves less to do.
  joining-Progress :
      All (λ w. w ≡ exited) s.workers
      ⊎ ((t : System) × Step s t × (remaining t < remaining s) × (t.phase ≡ joining))
  joining-Progress = elim (first_left s.workers) [
    | inl all ↦ inl all
    | inr (xs, ys, w, at, left) ↦
        let (t, st, less, still, _) = worker-MovesOn w xs ys at left in inr (t, st, less, still)
  ]

-- What can still be reached is a shutdown that has returned.
abbrev Returns : System → Type 0
Returns s = (t : System) × Run Step s t × (t.phase ≡ joined)

joining-Returns :
    (fuel : ℕ) {n capacity : ℕ} (s : System)
    → Reach n capacity s
    → s.phase ≡ joining
    → remaining s < fuel
    → Returns s
joining-Returns zero s r h few = absurd (omega arith)
joining-Returns (suc fuel) s r h few = elim (joining-Progress s r h) [
  | inl all ↦ (_, step stay (joins h all), refl)
  | inr (t, st, less, h') ↦
      let (u, run, done) = joining-Returns fuel t (later r st) h' (omega arith) in
      (u, before-Run st run, done)
]

joining_end : {n capacity : ℕ} (s : System) → Reach n capacity s → s.phase ≡ joining → Returns s
joining_end s r h = joining-Returns (suc (remaining s)) s r h (omega arith)

phase-Returns :
    {n capacity : ℕ} (s : System) (ph : Phase)
    → Reach n capacity s
    → s.phase ≡ ph
    → is_closed s.pool ≡ true
    → Returns s
phase-Returns s not_called r h closed = absurd (
    let t : Told not_called (is_closed s.pool) (total asleep s.workers) (total stuck s.callers) =
      rw h at (Reach-WakeOk r).told in
    closed-open s.pool closed t)
phase-Returns s flagged r h closed =
    let first = notifies_callers h in
    let second = notifies_workers refl in
    let (u, run, done) = joining_end _ (later (later r first) second) refl in
    (u, before-Run first (before-Run second run), done)
phase-Returns s callers_notified r h closed =
    let second = notifies_workers h in
    let (u, run, done) = joining_end _ (later r second) refl in (u, before-Run second run, done)
phase-Returns s joining r h closed = joining_end s r h
phase-Returns s joined r h closed = (s, stay, h)

-- Wherever the threads are when a shutdown has been called, no deadlock lies ahead: a run of their
-- steps leads to the state in which the shutdown has joined all workers and returns.
pub shutdown-Returns :
    {n capacity : ℕ} (s : System)
    → Reach n capacity s
    → is_closed s.pool ≡ true
    → (t : System) × Run Step s t × (t.phase ≡ joined)
shutdown-Returns s r closed = phase-Returns s s.phase r refl closed
