-- ===== src/Pool/Futures/Numbering.antt =====
-- The promises of the pool are numbered by the order of acceptance, wherever their tasks are.
use go_prep.Base.{
  Bool, ℕ, ◌≡◌, refl, ap, ◌∙◌, List, [], ◌∷◌, ◌++◌, map, length, length-append, push_back, arith,
  All, All-append, All-map, All-split, subst,
}
use go_prep.Pool.{make_pool, Task, Entry, Pool, Outcome, work}
use go_prep.Pool.System.{
  System, Worker, checking, sleeping, working, exited, Caller, woken, blocked, threw, returned,
  wake_worker, start, Step, Reach, here, later, calls, caller_throws, caller_blocks, caller_pushes,
  worker_sleeps, worker_leaves, worker_takes, worker_finishes, worker_wakes, caller_wakes,
  closes_gracefully, closes_immediately, notifies_callers, notifies_workers, joins,
}
use go_prep.Pool.Promises.{
  running, running-append, running-same, running-notify, running-wake_all, running_start, finished,
}
use go_prep.Pool.Moves.{
  Pushes, admit-Pushes, Takes, take_task-Takes, graceful_shutdown-some, immediate_shutdown-some,
}
use go_prep.Pool.Futures.Positions.{
  nth-append, nth-last, At, Numbered-push, HandedOut, FutureInv, FutureOk, HandedOut-more,
  All-change, notify_caller-HandedOut, wake_all-HandedOut,
}

-- What all of a list have, those that one more acceptance leaves have too.
module _ (s : System) (v : FutureOk s) where
  same_workers :
      (ws : List Worker)
      → running ws ≡ running s.workers
      → FutureInv s.accepted s.pool.task_queue s.dropped ws s.settled s.callers
  same_workers ws e = record {
    numbered = v.numbered;
    queued = v.queued;
    lost = v.lost;
    at_workers = rw e v.at_workers;
    set = v.set;
    handed = v.handed;
  }

  caller_changes :
      (xs ys : List Caller) (x y : Caller)
      → s.callers ≡ xs ++ x ∷ ys
      → HandedOut (length s.accepted) y
      → FutureInv s.accepted s.pool.task_queue s.dropped s.workers s.settled (xs ++ y ∷ ys)
  caller_changes xs ys x y at h = record {
    numbered = v.numbered;
    queued = v.queued;
    lost = v.lost;
    at_workers = v.at_workers;
    set = v.set;
    handed = All-change (HandedOut (length s.accepted)) s.callers xs ys x y at (λ g. h) v.handed;
  }

  admitted-FutureInv :
      (xs ys : List Caller) (c : Caller) (t : Task) (p : Pool) (ws : List Worker)
      → s.callers ≡ xs ++ c ∷ ys
      → Pushes s.pool (record { task = t; promise = length s.accepted }) p
      → running ws ≡ running s.workers
      → FutureInv
          (push_back s.accepted (record { task = t; promise = length s.accepted }))
          p.task_queue
          s.dropped
          ws
          s.settled
          (xs ++ returned (length s.accepted) ∷ ys)
  admitted-FutureInv xs ys c t p ws at m same =
      let e : Entry = record { task = t; promise = length s.accepted } in
      let accepted = push_back s.accepted e in
      let longer = length-append s.accepted (e ∷ []) in
      let new : At accepted e = nth-last s.accepted e in
      let kept : (d : Entry) → At s.accepted d → At accepted d =
        λ d h. nth-append s.accepted (e ∷ []) d.promise d h in
      rw m.after (record {
        numbered = Numbered-push 0 s.accepted e v.numbered (omega arith);
        queued =
            All-append (At accepted) s.pool.task_queue (e ∷ [])
              (All-map kept s.pool.task_queue v.queued) (new, tt);
        lost = All-map kept s.dropped v.lost;
        at_workers = rw same (All-map kept (running s.workers) v.at_workers);
        set = All-map kept (finished s.settled) v.set;
        handed =
            All-change (HandedOut (length accepted)) s.callers xs ys c
              (returned (length s.accepted)) at (λ g. omega arith)
              (All-map (HandedOut-more (length s.accepted) (length accepted) (omega arith))
                s.callers v.handed);
      })

  started-FutureInv :
      (xs ys : List Worker) (e : Entry) (p : Pool) (cs : List Caller)
      → s.workers ≡ xs ++ checking ∷ ys
      → Takes s.pool e p
      → All (HandedOut (length s.accepted)) cs
      → FutureInv s.accepted p.task_queue s.dropped (xs ++ working e ∷ ys) s.settled cs
  started-FutureInv xs ys e p cs at m told =
      let front = subst (All (At s.accepted)) m.front v.queued in
      let parts =
        All-split (At s.accepted) (running xs) (running ys)
          (rw (ap running at ∙ running-append xs (checking ∷ ys)) at v.at_workers) in
      record {
        numbered = v.numbered;
        queued = front.1;
        lost = v.lost;
        at_workers =
            rw (running-append xs (working e ∷ ys))
              (All-append (At s.accepted) (running xs) (e ∷ running ys) parts.0 (front.0, parts.1));
        set = v.set;
        handed = told;
      }

  worker_finishes_FutureInv :
      (xs ys : List Worker) (e : Entry) (throwing : Bool) (o : Outcome)
      → s.workers ≡ xs ++ working e ∷ ys
      → FutureInv s.accepted s.pool.task_queue s.dropped
          (xs ++ checking ∷ ys)
          (record { entry = e; threw = throwing; outcome = o } ∷ s.settled)
          s.callers
  worker_finishes_FutureInv xs ys e throwing o at =
      let parts =
        All-split (At s.accepted) (running xs) (e ∷ running ys)
          (rw (ap running at ∙ running-append xs (working e ∷ ys)) at v.at_workers) in
      record {
        numbered = v.numbered;
        queued = v.queued;
        lost = v.lost;
        at_workers =
            rw (running-append xs (checking ∷ ys))
              (All-append (At s.accepted) (running xs) (running ys) parts.0 parts.1.1);
        set = (parts.1.0, v.set);
        handed = v.handed;
      }

  closes_FutureInv :
      (q dropped : List Entry)
      → All (At s.accepted) q
      → All (At s.accepted) dropped
      → FutureInv s.accepted q dropped s.workers s.settled s.callers
  closes_FutureInv q dropped h k = record {
    numbered = v.numbered;
    queued = h;
    lost = k;
    at_workers = v.at_workers;
    set = v.set;
    handed = v.handed;
  }

Step-FutureOk : {s t : System} → Step s t → FutureOk s → FutureOk t
Step-FutureOk {s} (calls t) v = record {
  numbered = v.numbered;
  queued = v.queued;
  lost = v.lost;
  at_workers = v.at_workers;
  set = v.set;
  handed = (tt, v.handed);
}
Step-FutureOk {s} (caller_throws xs ys c t at h) v = caller_changes s v xs ys c threw at tt
Step-FutureOk {s} (caller_blocks xs ys c t at h) v = caller_changes s v xs ys c (blocked t) at tt
Step-FutureOk {s} (caller_pushes xs ys c t p ws at h n) v =
    admitted-FutureInv s v xs ys c t p ws at (admit-Pushes s.pool p c t (length s.accepted) h)
      (running-notify s.workers ws n)
Step-FutureOk {s} (worker_sleeps xs ys at h) v =
    same_workers s v (xs ++ sleeping ∷ ys) (running-same s.workers xs ys checking sleeping at refl)
Step-FutureOk {s} (worker_leaves xs ys at h) v =
    same_workers s v (xs ++ exited ∷ ys) (running-same s.workers xs ys checking exited at refl)
Step-FutureOk {s} (worker_takes xs ys e p cs at h n) v =
    started-FutureInv s v xs ys e p cs at (take_task-Takes s.pool p e h)
      (notify_caller-HandedOut (length s.accepted) s.callers cs n v.handed)
Step-FutureOk {s} (worker_finishes xs ys e throwing at) v =
    worker_finishes_FutureInv s v xs ys e throwing (work throwing e.task) at
Step-FutureOk {s} (worker_wakes xs ys at) v =
    same_workers s v (xs ++ checking ∷ ys) (running-same s.workers xs ys sleeping checking at refl)
Step-FutureOk {s} (caller_wakes xs ys t at) v = caller_changes s v xs ys (blocked t) (woken t) at tt
Step-FutureOk {s} (closes_gracefully p h) v =
    closes_FutureInv s v p.task_queue s.dropped
      (rw ((graceful_shutdown-some s.pool p h).1) v.queued) v.lost
Step-FutureOk {s} (closes_immediately p h) v =
    closes_FutureInv s v p.task_queue s.pool.task_queue
      (rw ((immediate_shutdown-some s.pool p h).1) tt) v.queued
Step-FutureOk {s} (notifies_callers h) v = record {
  numbered = v.numbered;
  queued = v.queued;
  lost = v.lost;
  at_workers = v.at_workers;
  set = v.set;
  handed = wake_all-HandedOut (length s.accepted) s.callers v.handed;
}
Step-FutureOk {s} (notifies_workers h) v =
    same_workers s v (map wake_worker s.workers) (running-wake_all s.workers)
Step-FutureOk (joins h all) v = v

pub Reach-FutureOk : {n capacity : ℕ} {s : System} → Reach n capacity s → FutureOk s
unfolding start make_pool
Reach-FutureOk {n} here = record {
  numbered = tt;
  queued = tt;
  lost = tt;
  at_workers = rw (running_start n) tt;
  set = tt;
  handed = tt;
}
Reach-FutureOk (later r st) = Step-FutureOk st (Reach-FutureOk r)
