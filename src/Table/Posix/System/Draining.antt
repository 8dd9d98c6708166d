-- ===== src/Table/Posix/System/Draining.antt =====
-- Once `Close` has been called, the calls in progress end, and it returns.
use go_prep.Base.{
  Run, stay, before-Run, ℕ, zero, suc, ◌≤◌, ◌<◌, ◌≡◌, refl, ap, ◌∙◌, true, Option, none, some, List,
  [], ◌∷◌, ◌++◌, length, size_t_mod, arith, ◌⊎◌, inl, inr, All, total, total-middle, total-change,
}
use go_prep.Table.Bytes.{Bytes}
use go_prep.Table.Posix.FileData.{append, pwrite}
use go_prep.Table.Posix.Index.{Index, close, append_record, find_offsets}
use go_prep.Table.Posix.System.{
  System, Op, inserting, appended, finished, querying, fetched, after_append, Closer, waiting,
  looking, returned, close_turn, Step, appends, publishes, insert_leaves, finds, query_leaves,
  close_looks, Reach, later,
}
use go_prep.Table.Posix.System.Steps.{Reach-Inv}
use go_prep.Table.Posix.System.Closing.{asleep, Reach-CloseOk, close_turn-cases}

-- The turns that a call in progress still takes, at most.
abbrev pub turns : Op → ℕ
turns (inserting id text) = 3
turns (appended id text offset) = 2
turns (finished id status) = 1
turns (querying min_id limit) = 2
turns (fetched offsets) = 1

abbrev pub pending : System → ℕ
pending s = total turns s.ops

pub after_append-turns :
    (id : ℕ) (text : Bytes) (landed : Option ℕ) → turns (after_append id text landed) ≤ 2
after_append-turns id text none = omega arith
after_append-turns id text (some offset) = omega arith

-- An append is always possible: the write may fail.
failed_write :
    (id : ℕ) (text : Bytes) (x : Index)
    → (append_record id text none x).1.file_data.bytes ≡ x.file_data.bytes
unfolding append_record append pwrite
failed_write id text x = refl

close-closed : (x : Index) → (close x).closed ≡ true
unfolding close
close-closed x = refl

own_turns : (op : Op) → 0 < turns op
own_turns (inserting id text) = omega arith
own_turns (appended id text offset) = omega arith
own_turns (finished id code) = omega arith
own_turns (querying min_id limit) = omega arith
own_turns (fetched offsets) = omega arith

-- The call takes a step of its own: it is over, or has fewer turns left.
abbrev pub MovesOn : System → List Op → Op → List Op → Type 0
MovesOn s xs op ys =
    (t : System) × Step s t
    × ((t.ops ≡ xs ++ ys) ⊎ ((new : Op) × (t.ops ≡ xs ++ new ∷ ys) × (turns new < turns op)))

pub op-MovesOn :
    (s : System)
    → Reach s
    → (op : Op) (xs ys : List Op) → s.ops ≡ xs ++ op ∷ ys
    → MovesOn s xs op ys
op-MovesOn s r (inserting id text) xs ys at =
    let landed = (append_record id text none s.index).0 in
    let fits : length (append_record id text none s.index).1.file_data.bytes < size_t_mod =
      rw (failed_write id text s.index) (Reach-Inv r).sound.fits in
    (
      _,
      appends xs ys id text none at fits,
      inr (after_append id text landed, refl, omega (arith, after_append-turns id text landed)),
    )
op-MovesOn s r (appended id text offset) xs ys at =
    (_, publishes xs ys id text offset at, inr (finished id 0, refl, omega arith))
op-MovesOn s r (finished id code) xs ys at = (_, insert_leaves xs ys id code at, inl refl)
op-MovesOn s r (querying min_id limit) xs ys at = (
  _,
  finds xs ys min_id limit at,
  inr (fetched (find_offsets min_id limit s.index), refl, omega arith),
)
op-MovesOn s r (fetched offsets) xs ys at = (_, query_leaves xs ys offsets at, inl refl)

MovesOn-pending :
    (s : System) (xs ys : List Op) (op : Op)
    → s.ops ≡ xs ++ op ∷ ys
    → MovesOn s xs op ys
    → (t : System) × Step s t × (pending t < pending s)
MovesOn-pending s xs ys op at (t, st, inl gone) = (
  t,
  st,
  omega (
    arith,
    ap (total turns) at,
    ap (total turns) gone,
    total-middle turns xs ys op,
    own_turns op,
  ),
)
MovesOn-pending s xs ys op at (t, st, inr (new, now, less)) = (
  t,
  st,
  omega (
    arith,
    ap (total turns) at,
    ap (total turns) now,
    total-middle turns xs ys op,
    total-middle turns xs ys new,
  ),
)

-- The end: no call is in progress, and each call of `Close` is back.
abbrev pub Over : System → Type 0
Over s = (s.ops ≡ []) × All (λ c. c ≡ returned) s.closers

abbrev left : Closer → ℕ
left returned = 0
left c = 1

-- The first call of `Close` that is not back.
first_left :
    (cs : List Closer)
    → total asleep cs ≡ 0
    → All (λ c. c ≡ returned) cs
      ⊎ ((xs : List Closer) × (ys : List Closer) × (cs ≡ xs ++ looking ∷ ys))
first_left [] h = inl tt
first_left (waiting ∷ cs) h = absurd (omega arith)
first_left (looking ∷ cs) h = inr ([], cs, refl)
first_left (returned ∷ cs) h = elim (first_left cs (omega arith)) [
  | inl all ↦ inl (refl, all)
  | inr (xs, ys, at) ↦ inr (returned ∷ xs, ys, ap (◌∷◌ returned) at)
]

-- Once no call is in progress, no call of `Close` sleeps, and one that holds the lock returns.
pub idle-returned : (s : System) → Reach s → s.ops ≡ [] → close_turn s.index ≡ returned
idle-returned s r e =
    let idle : s.index.in_flight ≡ 0 = (Reach-Inv r).counted ∙ ap length e in
    elim (close_turn-cases s.index) [ inl (_, back) ↦ back | inr (busy, _) ↦ absurd (omega arith) ]

pub idle-awake : (s : System) → Reach s → s.ops ≡ [] → total asleep s.closers ≡ 0
idle-awake s r e = elim (Reach-CloseOk r).sleeps [
  | inl z ↦ z
  | inr busy ↦ absurd (omega (arith, (Reach-Inv r).counted, ap length e))
]

-- With no call in progress, one call of `Close` after the other returns.
closers-Return :
    (fuel : ℕ) (s : System)
    → Reach s
    → s.ops ≡ []
    → total left s.closers < fuel
    → (t : System) × Run Step s t × Over t
closers-Return zero s r e few = absurd (omega arith)
closers-Return (suc fuel) s r e few = elim (first_left s.closers (idle-awake s r e)) [
  | inl all ↦ (s, stay, (e, all))
  | inr (xs, ys, at) ↦
      let st = close_looks xs ys at in
      let (t, run, over) = closers-Return fuel _ (later r st) e (
        rw (idle-returned s r e)
          (omega (arith, total-change left s.closers xs ys looking returned at))) in
      (t, before-Run st run, over)
]

-- Either no call is in progress, or one of them moves on.
calls-cases :
    (s : System) → Reach s → (s.ops ≡ []) ⊎ ((t : System) × Step s t × (pending t < pending s))
calls-cases s r = by_ops s.ops refl
  where
    by_ops :
        (ops : List Op)
        → s.ops ≡ ops
        → (s.ops ≡ []) ⊎ ((t : System) × Step s t × (pending t < pending s))
    by_ops [] e = inl e
    by_ops (op ∷ ops) e = inr (MovesOn-pending s [] ops op e (op-MovesOn s r op [] ops e))

calls-End :
    (fuel : ℕ) (s : System) → Reach s → pending s < fuel → (t : System) × Run Step s t × Over t
calls-End zero s r few = absurd (omega arith)
calls-End (suc fuel) s r few = elim (calls-cases s r) [
  | inl e ↦ closers-Return (suc (total left s.closers)) s r e (omega arith)
  | inr (t, st, less) ↦
      let (u, run, over) = calls-End fuel t (later r st) (omega arith) in
      (u, before-Run st run, over)
]

-- Wherever the calls are, no deadlock lies ahead: a run of their steps leads to the state in which
-- no call is in progress, and every call of `Close` that has been made is back.
pub Close-Returns : (s : System) → Reach s → (t : System) × Run Step s t × Over t
Close-Returns s r = calls-End (suc (pending s)) s r (omega arith)
