-- ===== src/Table/Posix/System/Ending.antt =====
-- Once `Close` has been called, every schedule of the threads brings the calls in progress to their
-- end.
use go_prep.Base.{
  subst, Run, stay, step, ℕ, ◌+◌, ◌≤◌, ◌≡◌, refl, sym, ap, ◌∙◌, true, some, List, [], ◌∷◌, ◌++◌,
  arith, total, total-middle, total-change,
}
use go_prep.Table.Posix.Index.{Index, enter, leave, close, append_record, publish, find_offsets}
use go_prep.Table.Posix.System.{
  System, Op, inserting, appended, finished, querying, fetched, after_append, Closer, looking,
  returned, Step, insert_enters, insert_refused, appends, publishes, insert_leaves, query_enters,
  query_refused, finds, query_leaves, closes, close_looks, close_wakes, Reach, later,
}
use go_prep.Table.Posix.System.Invariant.{enter-eq_some}
use go_prep.Table.Posix.System.Closing.{asleep}
use go_prep.Table.Posix.System.Draining.{
  idle-returned, idle-awake, MovesOn, op-MovesOn, turns, pending, after_append-turns, Over,
  Close-Returns,
}

-- Whether a step is one of a call of `Insert` or `Query` that is in progress.
abbrev call_step : {s t : System} → Step s t → ℕ
call_step (appends xs ys id text wrote at room) = 1
call_step (publishes xs ys id text offset at) = 1
call_step (insert_leaves xs ys id code at) = 1
call_step (finds xs ys min_id limit at) = 1
call_step (query_leaves xs ys offsets at) = 1
call_step (insert_enters id text x small e) = 0
call_step (insert_refused id text e) = 0
call_step (query_enters min_id limit x e) = 0
call_step (query_refused min_id limit e) = 0
call_step closes = 0
call_step (close_looks xs ys at) = 0
call_step (close_wakes xs ys at) = 0

abbrev call_steps : {s t : System} → Run Step s t → ℕ
call_steps stay = 0
call_steps (step run st) = call_steps run + call_step st

refuses : (x y : Index) → x.closed ≡ true → enter x ≡ some y → ⊥
refuses x y c e = let o = sym (enter-eq_some x y e).1 ∙ c in ground arith

Step-Bounded :
    {s t : System} (st : Step s t) → s.index.closed ≡ true → call_step st + pending t ≤ pending s
Step-Bounded {s} (insert_enters id text x small e) c = absurd (refuses s.index x c e)
Step-Bounded (insert_refused id text e) c = omega arith
Step-Bounded {s} (appends xs ys id text wrote at room) c =
    let landed = (append_record id text wrote s.index).0 in
    omega (
      arith,
      total-change turns s.ops xs ys (inserting id text) (after_append id text landed) at,
      after_append-turns id text landed,
    )
Step-Bounded {s} (publishes xs ys id text offset at) c =
    omega (arith, total-change turns s.ops xs ys (appended id text offset) (finished id 0) at)
Step-Bounded {s} (insert_leaves xs ys id code at) c =
    omega (arith, ap (total turns) at, total-middle turns xs ys (finished id code))
Step-Bounded {s} (query_enters min_id limit x e) c = absurd (refuses s.index x c e)
Step-Bounded (query_refused min_id limit e) c = omega arith
Step-Bounded {s} (finds xs ys min_id limit at) c = omega (
  arith,
  total-change turns s.ops xs ys (querying min_id limit)
      (fetched (find_offsets min_id limit s.index)) at,
)
Step-Bounded {s} (query_leaves xs ys offsets at) c =
    omega (arith, ap (total turns) at, total-middle turns xs ys (fetched offsets))
Step-Bounded closes c = omega arith
Step-Bounded (close_looks xs ys at) c = omega arith
Step-Bounded (close_wakes xs ys at) c = omega arith

Step-closed : {s t : System} → Step s t → s.index.closed ≡ true → t.index.closed ≡ true
unfolding append_record publish leave close
Step-closed {s} (insert_enters id text x small e) c = absurd (refuses s.index x c e)
Step-closed (insert_refused id text e) c = c
Step-closed (appends xs ys id text wrote at room) c = c
Step-closed (publishes xs ys id text offset at) c = c
Step-closed (insert_leaves xs ys id code at) c = c
Step-closed {s} (query_enters min_id limit x e) c = absurd (refuses s.index x c e)
Step-closed (query_refused min_id limit e) c = c
Step-closed (finds xs ys min_id limit at) c = c
Step-closed (query_leaves xs ys offsets at) c = c
Step-closed closes c = refl
Step-closed (close_looks xs ys at) c = c
Step-closed (close_wakes xs ys at) c = c

Run-closed : {s t : System} (run : Run Step s t) → s.index.closed ≡ true → t.index.closed ≡ true
Run-closed stay c = c
Run-closed (step run st) c = Step-closed st (Run-closed run c)

Run-Bounded :
    {s t : System} (run : Run Step s t)
    → s.index.closed ≡ true
    → call_steps run + pending t ≤ pending s
Run-Bounded stay c = omega arith
Run-Bounded (step run st) c = omega (arith, Run-Bounded run c, Step-Bounded st (Run-closed run c))

Run-Reach : {s t : System} → Reach s → Run Step s t → Reach t
Run-Reach r stay = r
Run-Reach r (step run st) = later (Run-Reach r run) st

-- No call in progress waits for another one, and once none is left no call of `Close` has to wait.
pub record Draining (s t : System) (run : Run Step s t) : Type 0 where
  pub bounded : call_steps run + pending t ≤ pending s
  pub moves : (xs ys : List Op) (op : Op) → t.ops ≡ xs ++ op ∷ ys → MovesOn t xs op ys
  pub none_sleeps : t.ops ≡ [] → total asleep t.closers ≡ 0
  pub returns :
      (xs ys : List Closer)
      → t.ops ≡ []
      → t.closers ≡ xs ++ looking ∷ ys
      → Step t (record t { closers = xs ++ returned ∷ ys })
  pub leads_on : (u : System) × Run Step t u × Over u

-- Once `Close` has been called, every schedule drains the index: in each run that goes on from there
-- the calls in progress take at most as many steps as `pending` counts, three for an insert that
-- begins, whatever the other threads do; each of them can take its next step at any time; when none
-- is left, no call of `Close` sleeps, and each that holds the lock returns; and a run leads on to
-- the state in which no call is in progress and every call of `Close` is back.
pub closed-Draining :
    {s t : System} → Reach s → s.index.closed ≡ true → (run : Run Step s t) → Draining s t run
closed-Draining {s} {t} r c run =
    let reached = Run-Reach r run in
    record {
      bounded = Run-Bounded run c;
      moves = λ xs ys op at. op-MovesOn t reached op xs ys at;
      none_sleeps = idle-awake t reached;
      returns = λ xs ys idle at.
          subst (λ turn. Step t (record t { closers = xs ++ turn ∷ ys }))
            (idle-returned t reached idle) (close_looks xs ys at);
      leads_on = Close-Returns t reached;
    }
