-- ===== src/Table/Posix/System/Credit.antt =====
-- Each entry of the map is owed to an insert that has returned 0, or is about to.
use go_prep.Base.{
  ℕ, ◌+◌, ◌≤◌, ◌<◌, ◌≡◌, refl, ap, Option, none, some, List, ◌∷◌, ◌++◌, arith, inl, inr, All,
  All-map, Bool-cases, ◌==◌, if◌then◌else◌, total, total-middle, total-change,
}
use go_prep.Table.Bytes.{Bytes}
use go_prep.Table.OrderedMap.{Map, All-assign}
use go_prep.Table.Posix.Index.{make_index, leave, close, append_record, publish, find_offsets}
use go_prep.Table.Posix.System.{
  System, Op, inserting, appended, finished, querying, fetched, after_append, start, Step,
  insert_enters, insert_refused, appends, publishes, insert_leaves, query_enters, query_refused,
  finds, query_leaves, closes, close_looks, close_wakes, Reach, here, later,
}
use go_prep.Table.Posix.System.Invariant.{enter-eq_some}

abbrev pub same : ℕ → ℕ → ℕ
same id j = if j == id then 1 else 0

abbrev pub listed : ℕ → Op → ℕ
listed id (finished j status) = if status == 0 then same id j else 0
listed id op = 0

-- How many inserts of the id have put it into the map, and have returned or are about to.
abbrev pub credit : List Op → List ℕ → ℕ → ℕ
credit ops ids id = total (listed id) ops + total (same id) ids

abbrev pub Credited : List Op → List ℕ → Map → Type 0
Credited ops ids m = All (λ e. 0 < credit ops ids e.0) m

pub lasts :
    (ops ops' : List Op) (ids ids' : List ℕ) (m : Map)
    → ((id : ℕ) → credit ops ids id ≤ credit ops' ids' id)
    → Credited ops ids m
    → Credited ops' ids' m
lasts ops ops' ids ids' m more c = All-map (λ e h. omega (arith, more e.0)) m c

after_append-listed :
    (j id : ℕ) (text : Bytes) (landed : Option ℕ) → listed j (after_append id text landed) ≡ 0
after_append-listed j id text none = refl
after_append-listed j id text (some off) = refl

own_credit : (id : ℕ) → listed id (finished id 0) ≡ 1
own_credit id = ground arith

leaves-credit :
    (ops xs ys : List Op) (ids : List ℕ) (id status j : ℕ)
    → ops ≡ xs ++ finished id status ∷ ys
    → total (listed j) ops + total (same j) ids
      ≤ total (listed j) (xs ++ ys) + total (same j) (if status == 0 then id ∷ ids else ids)
leaves-credit ops xs ys ids id status j at =
    let whole = ap (total (listed j)) at in
    let parts = total-middle (listed j) xs ys (finished id status) in
    elim (Bool-cases (status == 0)) [ inl e ↦ rw e (ground arith) | inr e ↦ rw e (ground arith) ]

abbrev CreditOk : System → Type 0
CreditOk s = Credited s.ops s.acknowledged s.index.index_map

Step-CreditOk : {s t : System} → Step s t → CreditOk s → CreditOk t
unfolding append_record publish leave close
Step-CreditOk {s} (insert_enters id text x small e) c =
    let (after, _) = enter-eq_some s.index x e in
    rw after (lasts s.ops (inserting id text ∷ s.ops) _ s.acknowledged _ (λ j. omega arith) c)
Step-CreditOk (insert_refused id text e) c = c
Step-CreditOk {s} (appends xs ys id text wrote at room) c =
    let new = after_append id text (append_record id text wrote s.index).0 in
    lasts s.ops _ s.acknowledged _ s.index.index_map
      (λ j. omega (
        arith,
        total-change (listed j) s.ops xs ys (inserting id text) new at,
        after_append-listed j id text (append_record id text wrote s.index).0,
      ))
      c
Step-CreditOk {s} (publishes xs ys id text offset at) c =
    let changed =
      λ (j : ℕ). total-change (listed j) s.ops xs ys (appended id text offset) (finished id 0) at in
    All-assign _ id offset s.index.index_map (omega (arith, changed id, own_credit id))
      (lasts s.ops _ s.acknowledged _ s.index.index_map (λ j. omega (arith, changed j)) c)
Step-CreditOk {s} (insert_leaves xs ys id status at) c =
    lasts s.ops _ s.acknowledged _ s.index.index_map
      (λ j. leaves-credit s.ops xs ys s.acknowledged id status j at) c
Step-CreditOk {s} (query_enters min_id limit x e) c =
    let (after, _) = enter-eq_some s.index x e in
    rw after (lasts s.ops (querying min_id limit ∷ s.ops) _ s.acknowledged _ (λ j. omega arith) c)
Step-CreditOk (query_refused min_id limit e) c = c
Step-CreditOk {s} (finds xs ys min_id limit at) c =
    lasts s.ops _ s.acknowledged _ s.index.index_map
      (λ j. omega (
        arith,
        total-change (listed j) s.ops xs ys (querying min_id limit)
            (fetched (find_offsets min_id limit s.index)) at,
      ))
      c
Step-CreditOk {s} (query_leaves xs ys offsets at) c =
    lasts s.ops _ s.acknowledged _ s.index.index_map
      (λ j.
        omega (arith, ap (total (listed j)) at, total-middle (listed j) xs ys (fetched offsets)))
      c
Step-CreditOk closes c = c
Step-CreditOk (close_looks xs ys at) c = c
Step-CreditOk (close_wakes xs ys at) c = c

pub Reach-CreditOk : {s : System} → Reach s → CreditOk s
unfolding start make_index
Reach-CreditOk here = tt
Reach-CreditOk (later r st) = Step-CreditOk st (Reach-CreditOk r)
