-- ===== src/Pool/Wakings.antt =====
-- What each step does to the threads that sleep.
use go_prep.Base.{
  total, total-change, ℕ, ◌≤◌, ◌≡◌, ap, ◌∙◌, true, false, some, List, [], ◌∷◌, ◌++◌, map, length,
  length-append, arith, ◌⊎◌, inl, inr,
}
use go_prep.Pool.{Task, Entry, Pool, is_closed, takes, take_task, blocks, pushes, sleeps}
use go_prep.Pool.System.{
  System, Worker, checking, sleeping, working, Caller, blocked, returned, flagged, callers_notified,
  joining, joined, wake_worker, wake_caller, asleep, stuck, NotifyOne, admit,
}
use go_prep.Pool.Moves.{admit-Pushes, admit-blocks, take_task-Takes, take_task-sleeps}
use go_prep.Pool.Wakeups.{
  awake, again, notify_worker-Woke, notify_caller-Woke, wake_all_workers, wake_all_callers,
}
use go_prep.Pool.Sleepers.{Told, WakeInv, WakeOk, Told-fewer, Told-open, again-bound}

module _ (s : System) (v : WakeOk s) where
  pub caller_pushes_WakeOk :
      (xs ys : List Caller) (c : Caller) (t : Task) (p : Pool) (ws : List Worker) (n : ℕ)
      → s.callers ≡ xs ++ c ∷ ys
      → admit s.pool c (length s.accepted) ≡ some (t, pushes p)
      → NotifyOne asleep wake_worker s.workers ws
      → WakeInv p ws (xs ++ returned n ∷ ys) s.phase
  caller_pushes_WakeOk xs ys c t p ws n at h notified =
      let m = admit-Pushes s.pool p c t (length s.accepted) h in
      let woke = notify_worker-Woke s.workers ws notified in
      let stuck_eq = total-change stuck s.callers xs ys c (returned n) at in
      let again_eq = total-change again s.callers xs ys c (returned n) at in
      let e : Entry = record { task = t; promise = length s.accepted } in
      let longer = length-append s.pool.task_queue (e ∷ []) in
      rw m.after (record {
        tasks_seen = elim woke [
          | inl (_, none_left, _) ↦ inl none_left
          | inr (one_less, one_more) ↦ elim v.tasks_seen [
            | inl z ↦ absurd (omega arith)
            | inr enough ↦ inr (omega arith)
          ]
        ];
        slots_seen = elim v.slots_seen [
          | inl closed ↦ inl closed
          | inr (inl z) ↦ inr (inl (omega arith))
          | inr (inr enough) ↦ inr (inr (omega (arith, again-bound c)))
        ];
        told = Told-open s.phase _ _ _ _ (is_closed s.pool) m.open_pool v.told;
      })

  pub worker_takes_WakeOk :
      (xs ys : List Worker) (e : Entry) (p : Pool) (cs : List Caller)
      → s.workers ≡ xs ++ checking ∷ ys
      → take_task s.pool ≡ takes e p
      → NotifyOne stuck wake_caller s.callers cs
      → WakeInv p (xs ++ working e ∷ ys) cs s.phase
  worker_takes_WakeOk xs ys e p cs at h notified =
      let m = take_task-Takes s.pool p e h in
      let woke = notify_caller-Woke s.callers cs notified in
      let asleep_eq = total-change asleep s.workers xs ys checking (working e) at in
      let awake_eq = total-change awake s.workers xs ys checking (working e) at in
      let shorter = ap length m.front in
      let same_capacity = ap (λ x. x.max_queue_size) m.after in
      let same_closed : is_closed p ≡ is_closed s.pool = ap is_closed m.after in
      record {
        tasks_seen = elim v.tasks_seen [
          | inl z ↦ inl (omega arith)
          | inr enough ↦ inr (omega arith)
        ];
        slots_seen = elim v.slots_seen [
          | inl closed ↦ inl (same_closed ∙ closed)
          | inr (inl z) ↦ inr (
              inl (elim woke [
                | inl (_, none_left, _) ↦ none_left
                | inr (one_less, _) ↦ absurd (omega arith)
              ]))
          | inr (inr enough) ↦ elim woke [
            | inl (_, none_left, _) ↦ inr (inl none_left)
            | inr (_, one_more) ↦ inr (inr (omega arith))
          ]
        ];
        told = rw same_closed (
            Told-fewer s.phase _ (total asleep s.workers) (total stuck s.callers) _ _ (omega arith)
              (elim woke [ inl (_, none_left, _) ↦ omega arith | inr (one_less, _) ↦ omega arith ])
              v.told);
      }

  -- A step that changes one worker, and neither the pool nor the callers.
  pub worker_changes_WakeOk :
      (xs ys : List Worker) (x y : Worker)
      → s.workers ≡ xs ++ x ∷ ys
      → asleep y ≤ asleep x
      → (s.pool.task_queue ≡ []) ⊎ (awake x ≤ awake y)
      → WakeInv s.pool (xs ++ y ∷ ys) s.callers s.phase
  worker_changes_WakeOk xs ys x y at fewer looks =
      let asleep_eq = total-change asleep s.workers xs ys x y at in
      let awake_eq = total-change awake s.workers xs ys x y at in
      record {
        tasks_seen = elim v.tasks_seen [
          | inl z ↦ inl (omega arith)
          | inr enough ↦ elim looks [
            | inl empty ↦ inr (omega (arith, ap length empty))
            | inr more ↦ inr (omega arith)
          ]
        ];
        slots_seen = v.slots_seen;
        told =
            Told-fewer s.phase _ (total asleep s.workers) (total stuck s.callers) _ _ (omega arith)
              (omega arith) v.told;
      }

  pub worker_sleeps_WakeOk :
      (xs ys : List Worker)
      → s.workers ≡ xs ++ checking ∷ ys
      → take_task s.pool ≡ sleeps
      → WakeInv s.pool (xs ++ sleeping ∷ ys) s.callers s.phase
  worker_sleeps_WakeOk xs ys at h =
      let (o, empty) = take_task-sleeps s.pool h in
      record {
        tasks_seen = inr (omega (arith, ap length empty));
        slots_seen = v.slots_seen;
        told = Told-open s.phase _ _ _ _ (is_closed s.pool) o v.told;
      }

  -- A step that changes one caller, and neither the pool nor the workers.
  pub caller_changes_WakeOk :
      (xs ys : List Caller) (x y : Caller)
      → s.callers ≡ xs ++ x ∷ ys
      → stuck y ≤ stuck x
      → (is_closed s.pool ≡ true) ⊎ (again x ≤ again y)
      → WakeInv s.pool s.workers (xs ++ y ∷ ys) s.phase
  caller_changes_WakeOk xs ys x y at fewer looks =
      let stuck_eq = total-change stuck s.callers xs ys x y at in
      let again_eq = total-change again s.callers xs ys x y at in
      record {
        tasks_seen = v.tasks_seen;
        slots_seen = elim looks [
          | inl closed ↦ inl closed
          | inr more ↦ elim v.slots_seen [
            | inl closed ↦ inl closed
            | inr (inl z) ↦ inr (inl (omega arith))
            | inr (inr enough) ↦ inr (inr (omega arith))
          ]
        ];
        told =
            Told-fewer s.phase _ (total asleep s.workers) (total stuck s.callers) _ _ (omega arith)
              (omega arith) v.told;
      }

  pub caller_blocks_WakeOk :
      (xs ys : List Caller) (c : Caller) (t : Task)
      → s.callers ≡ xs ++ c ∷ ys
      → admit s.pool c (length s.accepted) ≡ some (t, blocks)
      → WakeInv s.pool s.workers (xs ++ blocked t ∷ ys) s.phase
  caller_blocks_WakeOk xs ys c t at h =
      let (o, full) = admit-blocks s.pool c t (length s.accepted) h in
      record {
        tasks_seen = v.tasks_seen;
        slots_seen = inr (inr (omega arith));
        told = Told-open s.phase _ _ _ _ (is_closed s.pool) o v.told;
      }

  -- A shutdown closes an open pool.
  pub closes_WakeOk :
      (p : Pool)
      → is_closed s.pool ≡ false
      → is_closed p ≡ true
      → length p.task_queue ≤ length s.pool.task_queue
      → WakeInv p s.workers s.callers flagged
  closes_WakeOk p was now fewer = record {
    tasks_seen = elim v.tasks_seen [ inl z ↦ inl z | inr enough ↦ inr (omega arith) ];
    slots_seen = inl now;
    told = now;
  }

  pub notifies_callers_WakeOk :
      s.phase ≡ flagged → WakeInv s.pool s.workers (map wake_caller s.callers) callers_notified
  notifies_callers_WakeOk h =
      let t : Told flagged (is_closed s.pool) (total asleep s.workers) (total stuck s.callers) =
        rw h at v.told in
      record {
        tasks_seen = v.tasks_seen;
        slots_seen = inl t;
        told = (t, wake_all_callers s.callers);
      }

  pub notifies_workers_WakeOk :
      s.phase ≡ callers_notified → WakeInv s.pool (map wake_worker s.workers) s.callers joining
  notifies_workers_WakeOk h =
      let t : Told callers_notified (is_closed s.pool) (total asleep s.workers)
          (total stuck s.callers) =
        rw h at v.told in
      record {
        tasks_seen = inl (wake_all_workers s.workers);
        slots_seen = inl t.0;
        told = (t.0, t.1, wake_all_workers s.workers);
      }

  pub joins_WakeOk : s.phase ≡ joining → WakeInv s.pool s.workers s.callers joined
  joins_WakeOk h =
      let t : Told joining (is_closed s.pool) (total asleep s.workers) (total stuck s.callers) =
        rw h at v.told in
      record { tasks_seen = v.tasks_seen; slots_seen = v.slots_seen; told = t }
