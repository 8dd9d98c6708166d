-- ===== src/Pool/Promises.antt =====
-- What becomes of the accepted tasks: which promises get a value, and which value.
use mathlib.Core.List.Perm
use mathlib.Core.List.{perm_middle}
use go_prep.Base.{
  if◌then◌else◌, Bool, true, false, All, ℕ, zero, suc, ◌≡◌, refl, sym, ap, ◌∙◌, List, [], ◌∷◌, ◌++◌,
  append_assoc, map, Perm, perm_of_eq, perm_append_comm, push_back, replicate,
}
use go_prep.Pool.{value, exception, process, work, Entry}
use go_prep.Pool.System.{
  Settled, System, Worker, checking, sleeping, working, exited, wake_worker, asleep, NotifyOne,
  nobody, somebody, start, Step, Reach, here, later, calls, caller_throws, caller_blocks,
  caller_pushes, worker_sleeps, worker_leaves, worker_takes, worker_finishes, worker_wakes,
  caller_wakes, closes_gracefully, closes_immediately, notifies_callers, notifies_workers, joins,
}

-- The tasks that workers are at.
abbrev pub running : List Worker → List Entry
running [] = []
running (working e ∷ ws) = e ∷ running ws
running (checking ∷ ws) = running ws
running (sleeping ∷ ws) = running ws
running (exited ∷ ws) = running ws

abbrev at_work : Worker → List Entry
at_work (working e) = e ∷ []
at_work w = []

running-cons : (w : Worker) (ws : List Worker) → running (w ∷ ws) ≡ at_work w ++ running ws
running-cons (working e) ws = refl
running-cons checking ws = refl
running-cons sleeping ws = refl
running-cons exited ws = refl

pub running-append : (xs ys : List Worker) → running (xs ++ ys) ≡ running xs ++ running ys
running-append [] ys = refl
running-append (w ∷ xs) ys =
    running-cons w (xs ++ ys)
    ∙ rw (running-append xs ys, running-cons w xs) (sym (append_assoc (at_work w) _ _))

-- A worker that is not at a task, and goes on not being at one.
pub running-same :
    (ws xs ys : List Worker) (x y : Worker)
    → ws ≡ xs ++ x ∷ ys
    → at_work x ≡ at_work y
    → running (xs ++ y ∷ ys) ≡ running ws
running-same ws xs ys x y at same =
    running-append xs (y ∷ ys)
    ∙ ap (◌++◌ (running xs))
        (running-cons y ys ∙ ap (λ es. es ++ running ys) (sym same) ∙ sym (running-cons x ys))
    ∙ sym (running-append xs (x ∷ ys))
    ∙ ap running (sym at)

wake_worker-at_work : (w : Worker) → at_work (wake_worker w) ≡ at_work w
wake_worker-at_work checking = refl
wake_worker-at_work sleeping = refl
wake_worker-at_work (working e) = refl
wake_worker-at_work exited = refl

pub running-wake_all : (ws : List Worker) → running (map wake_worker ws) ≡ running ws
running-wake_all [] = refl
running-wake_all (w ∷ ws) =
    running-cons (wake_worker w) (map wake_worker ws)
    ∙ rw (wake_worker-at_work w, running-wake_all ws) (sym (running-cons w ws))

pub running-notify :
    (ws ws' : List Worker) → NotifyOne asleep wake_worker ws ws' → running ws' ≡ running ws
running-notify ws ws' (nobody h) = refl
running-notify ws ws' (somebody front back x at h) =
    running-same ws front back x (wake_worker x) at (sym (wake_worker-at_work x))

running-working :
    (xs ys : List Worker) (e : Entry)
    → Perm (running (xs ++ working e ∷ ys)) (e ∷ running (xs ++ ys))
running-working xs ys e =
    rw (running-append xs (working e ∷ ys), running-append xs ys)
      (perm_middle (running xs) (running ys))

running-checking : (xs ys : List Worker) → running (xs ++ checking ∷ ys) ≡ running (xs ++ ys)
running-checking xs ys = running-append xs (checking ∷ ys) ∙ sym (running-append xs ys)

-- The tasks whose promises are set, and that each was given the result of its own task unless the
-- work threw, and the exception if it did.
abbrev pub finished : List Settled → List Entry
finished = map (λ x. x.entry)

abbrev pub IsOwn : Settled → Type 0
IsOwn x = x.outcome ≡ (if x.threw then exception else value (process x.entry.task))

work-IsOwn :
    (throwing : Bool) (e : Entry)
    → IsOwn (record { entry = e; threw = throwing; outcome = work throwing e.task })
unfolding work
work-IsOwn true e = refl
work-IsOwn false e = refl

-- Each started task is either at a worker or has its promise set, once, to its own outcome.
pub record KeptInv (started : List Entry) (ws : List Worker) (settled : List Settled) : Type 0 where
  pub once : Perm started (running ws ++ finished settled)
  pub own : All IsOwn settled

abbrev pub Kept : System → Type 0
Kept s = KeptInv s.started s.workers s.settled

module _ (s : System) (v : Kept s) where
  same_Kept : (ws : List Worker) → running ws ≡ running s.workers → KeptInv s.started ws s.settled
  same_Kept ws e = record { once = rw e v.once; own = v.own }

  worker_takes_Kept :
      (xs ys : List Worker) (e : Entry)
      → s.workers ≡ xs ++ checking ∷ ys
      → KeptInv (push_back s.started e) (xs ++ working e ∷ ys) s.settled
  worker_takes_Kept xs ys e at =
      let idle : running s.workers ≡ running (xs ++ ys) = ap running at ∙ running-checking xs ys in
      let before : Perm s.started (running (xs ++ ys) ++ finished s.settled) = rw idle at v.once in
      record {
        once = Perm.trans (perm_append_comm s.started (e ∷ [])) (
            Perm.trans (Perm.cons e before)
              (Perm.append_right (finished s.settled) (Perm.symm (running-working xs ys e))));
        own = v.own;
      }

  worker_finishes_Kept :
      (xs ys : List Worker) (e : Entry) (throwing : Bool)
      → s.workers ≡ xs ++ working e ∷ ys
      → KeptInv s.started
          (xs ++ checking ∷ ys)
          (record { entry = e; threw = throwing; outcome = work throwing e.task } ∷ s.settled)
  worker_finishes_Kept xs ys e throwing at =
      let busy : Perm (running s.workers) (e ∷ running (xs ++ ys)) =
        Perm.trans (perm_of_eq (ap running at)) (running-working xs ys e) in
      record {
        once = rw (running-checking xs ys) (
            Perm.trans v.once (
              Perm.trans (Perm.append_right (finished s.settled) busy)
                (Perm.symm (perm_middle (running (xs ++ ys)) (finished s.settled)))));
        own = (work-IsOwn throwing e, v.own);
      }

pub running_start : (n : ℕ) → running (replicate n checking) ≡ []
running_start zero = refl
running_start (suc n) = running_start n

Step-Kept : {s t : System} → Step s t → Kept s → Kept t
Step-Kept (calls t) v = v
Step-Kept (caller_throws xs ys c t at h) v = v
Step-Kept (caller_blocks xs ys c t at h) v = v
Step-Kept {s} (caller_pushes xs ys c t p ws at h n) v =
    same_Kept s v ws (running-notify s.workers ws n)
Step-Kept {s} (worker_sleeps xs ys at h) v =
    same_Kept s v (xs ++ sleeping ∷ ys) (running-same s.workers xs ys checking sleeping at refl)
Step-Kept {s} (worker_leaves xs ys at h) v =
    same_Kept s v (xs ++ exited ∷ ys) (running-same s.workers xs ys checking exited at refl)
Step-Kept {s} (worker_takes xs ys e p cs at h n) v = worker_takes_Kept s v xs ys e at
Step-Kept {s} (worker_finishes xs ys e throwing at) v = worker_finishes_Kept s v xs ys e throwing at
Step-Kept {s} (worker_wakes xs ys at) v =
    same_Kept s v (xs ++ checking ∷ ys) (running-same s.workers xs ys sleeping checking at refl)
Step-Kept (caller_wakes xs ys t at) v = v
Step-Kept (closes_gracefully p h) v = v
Step-Kept (closes_immediately p h) v = v
Step-Kept (notifies_callers h) v = v
Step-Kept {s} (notifies_workers h) v =
    same_Kept s v (map wake_worker s.workers) (running-wake_all s.workers)
Step-Kept (joins h all) v = v

-- In every order of the threads' steps: each task that a worker has taken is at exactly one
-- worker, or its promise has been set, once; a promise is set to the exception if the work of its own
-- task threw, and to the result of that task if not.
pub Reach-Kept : {n capacity : ℕ} {s : System} → Reach n capacity s → Kept s
unfolding start
Reach-Kept {n} here = record { once = rw (running_start n) (Perm.refl _); own = tt }
Reach-Kept (later r st) = Step-Kept st (Reach-Kept r)
