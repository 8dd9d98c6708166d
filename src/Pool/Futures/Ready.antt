-- ===== src/Pool/Futures/Ready.antt =====
-- No future is left pending by a shutdown.
use mathlib.Core.List.{mem-cons_self, mem-cons_of_mem}
use go_prep.Base.{
  if◌then◌else◌, Mem, Bool, false, total, total-append, total-perm, ℕ, zero, suc, ◌<◌, ◌≡◌, refl,
  sym, ap, ◌∙◌, true, none, some, List, [], ◌∷◌, ◌++◌, length, arith, ◌⊎◌, inl, inr, All, All-at,
  subst, ◌==◌, ==_iff, Option-cases, Bool-cases,
}
use go_prep.Pool.{Entry, Outcome, value, exception, process}
use go_prep.Pool.System.{Settled, System, exited, Caller, returned, Reach}
use go_prep.Pool.Queue.{Reach-QueueOk}
use go_prep.Pool.Promises.{finished, IsOwn}
use go_prep.Pool.Shutdown.{joined-Complete}
use go_prep.Pool.Futures.{ready, broken, given, has_promise, future_of, nth}
use go_prep.Pool.Futures.Positions.{At, HandedOut, nth-some, nth-promise}
use go_prep.Pool.Futures.Numbering.{Reach-FutureOk}

-- How many of the tasks have the promise.
abbrev count : ℕ → List Entry → ℕ
count n = total (λ e. if e.promise == n then 1 else 0)

count-nth :
    (es : List Entry) (k n : ℕ) (e : Entry) → nth es k ≡ some e → e.promise ≡ n → 0 < count n es
count-nth [] k n e h same = ground arith
count-nth (d ∷ es) zero n e h same =
    let here : d ≡ e = cc h in
    let there : d.promise ≡ n = ap (λ x. x.promise) here ∙ same in ground arith
count-nth (d ∷ es) (suc k) n e h same = omega (arith, count-nth es k n e h same)

-- What is not given anything is not among the finished, and what has no promise in a list is not in
-- it.
given-none :
    (n : ℕ) (settled : List Settled) → given n settled ≡ none → count n (finished settled) ≡ 0
given-none n [] h = refl
given-none n (x ∷ settled) h = ground (arith, given-none n settled)

has_promise-false : (n : ℕ) (es : List Entry) → has_promise n es ≡ false → count n es ≡ 0
has_promise-false n [] h = refl
has_promise-false n (e ∷ es) h = ground (arith, has_promise-false n es)

-- The work of the task has ended, and has thrown or not.
abbrev pub Worked : List Settled → Entry → Bool → Type 0
Worked settled e throwing = (x : Settled) × Mem x settled × (x.entry ≡ e) × (x.threw ≡ throwing)

Worked-later :
    (x : Settled) (settled : List Settled) (e : Entry) (throwing : Bool)
    → Worked settled e throwing
    → Worked (x ∷ settled) e throwing
Worked-later x settled e throwing (y, m, same, t) = (y, mem-cons_of_mem x m, same, t)

-- What a promise was given is the outcome of the task at its position.
given-own :
    (accepted : List Entry) (n : ℕ) (settled : List Settled) (e : Entry) (o : Outcome)
    → All (At accepted) (finished settled)
    → All IsOwn settled
    → nth accepted n ≡ some e
    → given n settled ≡ some o
    → ((o ≡ value (process e.task)) × Worked settled e false)
      ⊎ ((o ≡ exception) × Worked settled e true)
given-own accepted n [] e o at own h g = ground arith
given-own accepted n (x ∷ settled) e o at own h g = elim (Bool-cases (x.entry.promise == n)) [
  | inl hit ↦
      let found : x.outcome ≡ o = cc (rw hit at g) in
      let same : x.entry ≡ e =
        cc (sym at.0 ∙ ap (nth accepted) ((==_iff x.entry.promise n).0 hit) ∙ h) in
      let its : o ≡ (if x.threw then exception else value (process e.task)) =
        sym found ∙ own.0 ∙ ap (λ d. if x.threw then exception else value (process d.task)) same in
      elim (Bool-cases x.threw) [
        | inl t ↦ inr (its ∙ rw t refl, (x, mem-cons_self, same, t))
        | inr f ↦ inl (its ∙ rw f refl, (x, mem-cons_self, same, f))
      ]
  | inr miss ↦ elim (given-own accepted n settled e o at.1 own.1 h (rw miss at g)) [
    | inl (fine, w) ↦ inl (fine, Worked-later x settled e false w)
    | inr (failed, w) ↦ inr (failed, Worked-later x settled e true w)
  ]
]

-- Only an immediate shutdown drops tasks.
dropped-immediate :
    {n capacity : ℕ} {s : System}
    → Reach n capacity s
    → (i : ℕ) → has_promise i s.dropped ≡ true
    → s.pool.is_immediate_shutdown ≡ true
dropped-immediate {n} {capacity} {s} r i h = elim (Reach-QueueOk r).wiping [
  | inl (_, nothing) ↦ absurd (let h' : has_promise i [] ≡ true = rw nothing at h in ground arith)
  | inr (on, _) ↦ on
]

-- Once a shutdown has joined the workers of a pool that has one, no holder of a future waits any
-- more: the future of the i-th accepted task has the result of that very task if its work did not
-- throw, the exception if it did, or, after an immediate shutdown only, the error of a destroyed
-- promise.
pub futures-Ready :
    {n capacity : ℕ} {s : System} (xs ys : List Caller) (i : ℕ)
    → Reach n capacity s
    → 0 < n
    → All (λ w. w ≡ exited) s.workers
    → s.callers ≡ xs ++ returned i ∷ ys
    → (e : Entry) × (nth s.accepted i ≡ some e)
      × (((future_of i s ≡ ready (value (process e.task))) × Worked s.settled e false)
          ⊎ ((future_of i s ≡ ready exception) × Worked s.settled e true)
          ⊎ ((future_of i s ≡ broken) × (s.pool.is_immediate_shutdown ≡ true)))
unfolding future_of
futures-Ready {n} {capacity} {s} xs ys i r some_worker all at =
    let v = Reach-FutureOk r in
    let handed =
      All-at (HandedOut (length s.accepted)) xs (returned i) ys
        (subst (All (HandedOut (length s.accepted))) at v.handed) in
    let (e, there) = nth-some s.accepted i handed in
    let (_, _, done, kept, own) = joined-Complete r some_worker all in
    let promise : e.promise ≡ i = omega (arith, nth-promise s.accepted 0 i e v.numbered there) in
    (
      e,
      there,
      elim (Option-cases (given i s.settled)) [
        | inr (o, g) ↦ elim (given-own s.accepted i s.settled e o v.set own there g) [
          | inl (fine, w) ↦ inl (rw (future_of, g, fine) refl, w)
          | inr (failed, w) ↦ inr (inl (rw (future_of, g, failed) refl, w))
        ]
        | inl g ↦
            let unset = given-none i s.settled g in
            let counted : 0 < count i s.accepted = count-nth s.accepted i i e there promise in
            let split =
              ap (count i) done
              ∙ total-append (λ d. if d.promise == i then 1 else 0) s.started s.dropped in
            let moved = total-perm (λ d. if d.promise == i then 1 else 0) kept in
            elim (Bool-cases (has_promise i s.dropped)) [
              | inl h ↦ inr (inr (rw (future_of, g, h) refl, dropped-immediate r i h))
              | inr h ↦ absurd (omega (arith, has_promise-false i s.dropped h))
            ]
      ],
    )
