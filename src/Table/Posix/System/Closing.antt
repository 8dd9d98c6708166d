-- ===== src/Table/Posix/System/Closing.antt =====
-- `Close` waits for the calls in progress, and is woken when the last of them has left.
use go_prep.Base.{
  ℕ, ◌+◌, ◌-◌, ◌≤◌, ◌<◌, ◌≡◌, refl, ap, ◌∙◌, Bool, true, false, List, [], ◌∷◌, ◌++◌, map, length,
  arith, ◌⊎◌, inl, inr, Bool-cases, ◌==◌, ==_iff, total, total-change,
}
use go_prep.Table.Posix.Index.{
  Index, make_index, leave, last_leaves, close, is_idle, append_record, publish,
}
use go_prep.Table.Posix.System.{
  System, Op, finished, fetched, Closer, waiting, looking, returned, wake_closer, close_turn,
  notify_closers, start, Step, insert_enters, insert_refused, appends, publishes, insert_leaves,
  query_enters, query_refused, finds, query_leaves, closes, close_looks, close_wakes, Reach, here,
  later,
}
use go_prep.Table.Posix.System.Invariant.{Inv, enter-eq_some, length-middle}
use go_prep.Table.Posix.System.Steps.{Reach-Inv}

abbrev pub asleep : Closer → ℕ
asleep waiting = 1
asleep c = 0

abbrev pub back : Closer → ℕ
back returned = 1
back c = 0

-- A call of `Close` sleeps only while a call is in progress, and is back only when the index is
-- closed and none is.
pub record CloseInv (closed : Bool) (in_flight : ℕ) (cs : List Closer) : Type 0 where
  pub called : (length cs ≡ 0) ⊎ (closed ≡ true)
  pub sleeps : (total asleep cs ≡ 0) ⊎ (0 < in_flight)
  pub done : (total back cs ≡ 0) ⊎ ((closed ≡ true) × (in_flight ≡ 0))

abbrev pub CloseOk : System → Type 0
CloseOk s = CloseInv s.index.closed s.index.in_flight s.closers

woken_all : (cs : List Closer) → total asleep (map wake_closer cs) ≡ 0
woken_all [] = refl
woken_all (waiting ∷ cs) = omega (arith, woken_all cs)
woken_all (looking ∷ cs) = omega (arith, woken_all cs)
woken_all (returned ∷ cs) = omega (arith, woken_all cs)

woken-back : (cs : List Closer) → total back (map wake_closer cs) ≡ total back cs
woken-back [] = refl
woken-back (waiting ∷ cs) = omega (arith, woken-back cs)
woken-back (looking ∷ cs) = omega (arith, woken-back cs)
woken-back (returned ∷ cs) = omega (arith, woken-back cs)

woken-length : (cs : List Closer) → length (map wake_closer cs) ≡ length cs
woken-length [] = refl
woken-length (c ∷ cs) = omega (arith, woken-length cs)

-- What a look at the count leads to.
pub close_turn-cases :
    (x : Index)
    → ((x.in_flight ≡ 0) × (close_turn x ≡ returned))
      ⊎ ((0 < x.in_flight) × (close_turn x ≡ waiting))
unfolding close_turn is_idle
close_turn-cases x = elim (Bool-cases (x.in_flight == 0)) [
  | inl e ↦ inl ((==_iff x.in_flight 0).0 e, rw (close_turn, e) refl)
  | inr e ↦ inr (ground arith, rw (close_turn, e) refl)
]

module _ (x : Index) (cs : List Closer) (v : CloseInv x.closed x.in_flight cs) where
  -- A call that comes in: the index is open, so that no call of `Close` has been made.
  enters_CloseInv : x.closed ≡ false → CloseInv x.closed (x.in_flight + 1) cs
  enters_CloseInv h = elim v.called [
    | inr c ↦ ground arith
    | inl none_called ↦ record {
      called = v.called;
      sleeps = inr (omega arith);
      done = inl (no_closers cs none_called);
    }
  ]
    where
      no_closers : (ds : List Closer) → length ds ≡ 0 → total back ds ≡ 0
      no_closers [] h = refl
      no_closers (d ∷ ds) h = absurd (omega arith)

  -- A call that leaves: the last one wakes all that sleep.
  leaves_CloseInv : 0 < x.in_flight → CloseInv x.closed (x.in_flight - 1) (notify_closers x cs)
  unfolding notify_closers last_leaves
  leaves_CloseInv busy =
      let none_back : total back cs ≡ 0 = elim v.done [
        | inl z ↦ z
        | inr (_, idle) ↦ absurd (omega arith)
      ] in
      elim (Bool-cases (x.in_flight - 1 == 0)) [
        | inl e ↦
            rw (notify_closers, e)
              (record {
                called = rw (woken-length cs) v.called;
                sleeps = inl (woken_all cs);
                done = inl (woken-back cs ∙ none_back);
              })
        | inr e ↦
            rw (notify_closers, e)
              (record { called = v.called; sleeps = inr (ground arith); done = inl none_back })
      ]

  closes_CloseInv : CloseInv true x.in_flight (close_turn x ∷ cs)
  closes_CloseInv = elim (close_turn-cases x) [
    | inl (idle, e) ↦ rw e (record {
      called = inr refl;
      sleeps = elim v.sleeps [ inl z ↦ inl (omega arith) | inr busy ↦ inr busy ];
      done = inr (refl, idle);
    })
    | inr (busy, e) ↦ rw e (record {
      called = inr refl;
      sleeps = inr busy;
      done = elim v.done [ inl z ↦ inl (omega arith) | inr (_, idle) ↦ inr (refl, idle) ];
    })
  ]

  -- One call of `Close` changes its place, where the index is closed.
  changes_CloseInv :
      (xs ys : List Closer) (c d : Closer)
      → cs ≡ xs ++ c ∷ ys
      → (asleep d ≤ asleep c) ⊎ (0 < x.in_flight)
      → (back d ≤ back c) ⊎ (x.in_flight ≡ 0)
      → CloseInv x.closed x.in_flight (xs ++ d ∷ ys)
  changes_CloseInv xs ys c d at slept ended =
      let is_closed : x.closed ≡ true = elim v.called [
        | inl z ↦ absurd (omega (arith, ap length at, length-middle xs c ys))
        | inr e ↦ e
      ] in
      record {
        called = inr is_closed;
        sleeps = elim slept [
          | inr busy ↦ inr busy
          | inl fewer ↦ elim v.sleeps [
            | inr busy ↦ inr busy
            | inl z ↦ inl (omega (arith, total-change asleep cs xs ys c d at))
          ]
        ];
        done = elim ended [
          | inr idle ↦ inr (is_closed, idle)
          | inl fewer ↦ elim v.done [
            | inr over ↦ inr over
            | inl z ↦ inl (omega (arith, total-change back cs xs ys c d at))
          ]
        ];
      }

  close_looks_CloseInv :
      (xs ys : List Closer)
      → cs ≡ xs ++ looking ∷ ys
      → CloseInv x.closed x.in_flight (xs ++ close_turn x ∷ ys)
  close_looks_CloseInv xs ys at = elim (close_turn-cases x) [
    | inl (idle, e) ↦
        rw e (changes_CloseInv xs ys looking returned at (inl (omega arith)) (inr idle))
    | inr (busy, e) ↦
        rw e (changes_CloseInv xs ys looking waiting at (inr busy) (inl (omega arith)))
  ]

-- While a call is in progress, the count says so.
in_call :
    (s : System)
    → Inv s
    → (xs ys : List Op) (op : Op) → s.ops ≡ xs ++ op ∷ ys
    → 0 < s.index.in_flight
in_call s v xs ys op at = omega (arith, v.counted, ap length at, length-middle xs op ys)

Step-CloseOk : {s t : System} → Step s t → Inv s → CloseOk s → CloseOk t
unfolding append_record publish leave close
Step-CloseOk {s} (insert_enters id text x small e) i v =
    let (after, o) = enter-eq_some s.index x e in rw after (enters_CloseInv s.index s.closers v o)
Step-CloseOk (insert_refused id text e) i v = v
Step-CloseOk (appends xs ys id text wrote at room) i v = v
Step-CloseOk (publishes xs ys id text offset at) i v = v
Step-CloseOk {s} (insert_leaves xs ys id status at) i v =
    leaves_CloseInv s.index s.closers v (in_call s i xs ys (finished id status) at)
Step-CloseOk {s} (query_enters min_id limit x e) i v =
    let (after, o) = enter-eq_some s.index x e in rw after (enters_CloseInv s.index s.closers v o)
Step-CloseOk (query_refused min_id limit e) i v = v
Step-CloseOk (finds xs ys min_id limit at) i v = v
Step-CloseOk {s} (query_leaves xs ys offsets at) i v =
    leaves_CloseInv s.index s.closers v (in_call s i xs ys (fetched offsets) at)
Step-CloseOk {s} closes i v = closes_CloseInv s.index s.closers v
Step-CloseOk {s} (close_looks xs ys at) i v = close_looks_CloseInv s.index s.closers v xs ys at
Step-CloseOk {s} (close_wakes xs ys at) i v =
    changes_CloseInv s.index s.closers v xs ys waiting looking at (inl (omega arith))
      (inl (omega arith))

-- In whatever order calls interleave: a call of `Close` sleeps only while a call of `Insert` or
-- `Query` is in progress, so that the wake-up of the last of them is never lost; and it is back
-- only when the index is closed and no call is in progress.
pub Reach-CloseOk : {s : System} → Reach s → CloseOk s
unfolding start make_index
Reach-CloseOk here = record { called = inl refl; sleeps = inl refl; done = inl refl }
Reach-CloseOk (later r st) = Step-CloseOk st (Reach-Inv r) (Reach-CloseOk r)
