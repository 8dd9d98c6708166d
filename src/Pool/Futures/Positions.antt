-- ===== src/Pool/Futures/Positions.antt =====
-- The positions of tasks and of futures in the order of acceptance.
use go_prep.Base.{
  ℕ, zero, suc, ◌+◌, ◌≤◌, ◌<◌, ◌≡◌, refl, ap, some, List, [], ◌∷◌, ◌++◌, map, length, push_back,
  arith, All, All-append, All-split, subst,
}
use go_prep.Pool.{Entry}
use go_prep.Pool.System.{
  Settled, System, Worker, Caller, arriving, woken, blocked, threw, returned, wake_caller, stuck,
  NotifyOne, nobody, somebody,
}
use go_prep.Pool.Promises.{running, finished}
use go_prep.Pool.Futures.{nth}

pub nth-append :
    (es fs : List Entry) (n : ℕ) (e : Entry) → nth es n ≡ some e → nth (es ++ fs) n ≡ some e
nth-append [] fs n e h = ground arith
nth-append (d ∷ es) fs zero e h = h
nth-append (d ∷ es) fs (suc n) e h = nth-append es fs n e h

pub nth-last : (es : List Entry) (e : Entry) → nth (push_back es e) (length es) ≡ some e
nth-last [] e = refl
nth-last (d ∷ es) e = nth-last es e

pub nth-some : (es : List Entry) (n : ℕ) → n < length es → (e : Entry) × (nth es n ≡ some e)
nth-some [] n h = absurd (omega arith)
nth-some (d ∷ es) zero h = (d, refl)
nth-some (d ∷ es) (suc n) h = nth-some es n (omega arith)

-- The promise of a task is the position at which the task was accepted.
abbrev pub At : List Entry → Entry → Type 0
At accepted e = nth accepted e.promise ≡ some e

-- The promises of a list are the numbers from `k` on.
abbrev Numbered : ℕ → List Entry → Type 0
Numbered k [] = Unit
Numbered k (e ∷ es) = (e.promise ≡ k) × Numbered (k + 1) es

pub Numbered-push :
    (k : ℕ) (es : List Entry) (e : Entry)
    → Numbered k es
    → e.promise ≡ k + length es
    → Numbered k (push_back es e)
Numbered-push k [] e h same = (omega arith, tt)
Numbered-push k (d ∷ es) e h same = (h.0, Numbered-push (k + 1) es e h.1 (omega arith))

pub nth-promise :
    (es : List Entry) (k i : ℕ) (e : Entry) → Numbered k es → nth es i ≡ some e → e.promise ≡ k + i
nth-promise [] k i e h at = ground arith
nth-promise (d ∷ es) k zero e h at =
    let here : d ≡ e = cc at in omega (arith, ap (λ x. x.promise) here, h.0)
nth-promise (d ∷ es) k (suc i) e h at = omega (arith, nth-promise es (k + 1) i e h.1 at)

abbrev pub HandedOut : ℕ → Caller → Type 0
HandedOut n (returned i) = i < n
HandedOut n c = Unit

-- The promises in every part of the pool are numbered so, and no caller has a number beyond.
pub record FutureInv (accepted q dropped : List Entry) (ws : List Worker) (settled : List Settled)
    (cs : List Caller) : Type 0 where
  pub numbered : Numbered 0 accepted
  pub queued : All (At accepted) q
  pub lost : All (At accepted) dropped
  pub at_workers : All (At accepted) (running ws)
  pub set : All (At accepted) (finished settled)
  pub handed : All (HandedOut (length accepted)) cs

abbrev pub FutureOk : System → Type 0
FutureOk s = FutureInv s.accepted s.pool.task_queue s.dropped s.workers s.settled s.callers

pub HandedOut-more : (n k : ℕ) → n ≤ k → (c : Caller) → HandedOut n c → HandedOut k c
HandedOut-more n k h (arriving t) g = tt
HandedOut-more n k h (woken t) g = tt
HandedOut-more n k h (blocked t) g = tt
HandedOut-more n k h threw g = tt
HandedOut-more n k h (returned i) g = omega arith

wake_caller-HandedOut : (n : ℕ) (c : Caller) → HandedOut n c → HandedOut n (wake_caller c)
wake_caller-HandedOut n (arriving t) g = tt
wake_caller-HandedOut n (woken t) g = tt
wake_caller-HandedOut n (blocked t) g = tt
wake_caller-HandedOut n threw g = tt
wake_caller-HandedOut n (returned i) g = g

-- One caller changes its place.
pub All-change {ℓ} :
    {A : Type 0} (P : A → Type ℓ) (zs xs ys : List A) (x y : A)
    → zs ≡ xs ++ x ∷ ys
    → (P x → P y)
    → All P zs
    → All P (xs ++ y ∷ ys)
All-change P zs xs ys x y at f all =
    let (l, r) = All-split P xs (x ∷ ys) (subst (All P) at all) in
    All-append P xs (y ∷ ys) l (f r.0, r.1)

pub notify_caller-HandedOut :
    (n : ℕ) (cs cs' : List Caller)
    → NotifyOne stuck wake_caller cs cs'
    → All (HandedOut n) cs
    → All (HandedOut n) cs'
notify_caller-HandedOut n cs cs' (nobody h) all = all
notify_caller-HandedOut n cs cs' (somebody front back x at h) all =
    All-change (HandedOut n) cs front back x (wake_caller x) at (wake_caller-HandedOut n x) all

pub wake_all-HandedOut :
    (n : ℕ) (cs : List Caller) → All (HandedOut n) cs → All (HandedOut n) (map wake_caller cs)
wake_all-HandedOut n [] all = tt
wake_all-HandedOut n (c ∷ cs) all = (wake_caller-HandedOut n c all.0, wake_all-HandedOut n cs all.1)
