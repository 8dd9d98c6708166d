-- ===== src/Table/Posix/Linear/Order.antt =====
-- The calls that have been made, in the order in which they stand in the sequence.
use mathlib.Core.List.{mem-append_right, mem-append_left}
use go_prep.Base.{
  arith, ℕ, ◌≡◌, refl, sym, ap, ◌∙◌, true, false, Option, none, some, List, [], ◌∷◌, ◌++◌,
  append_assoc, All-map, inl, inr, Run, stay, step,
}
use go_prep.Table.Bytes.{Bytes}
use go_prep.Table.Posix.FileData.{FileData, WriteResult}
use go_prep.Table.Posix.Reader.{Pread, Readable}
use go_prep.Table.Posix.Index.{Index, make_index, enter, leave, close, append_record, publish}
use go_prep.Table.Posix.System.{
  Op, inserting, appended, finished, querying, fetched, System, start, Step, insert_enters,
  insert_refused, appends, publishes, insert_leaves, query_enters, query_refused, finds,
  query_leaves, closes, close_looks, close_wakes, Reach, here, later,
}
use go_prep.Table.Posix.System.Invariant.{enter-eq_some}
use go_prep.Table.Posix.System.Steps.{Reach-Inv}
use go_prep.Table.Posix.Store.{empty_store, answer}
use go_prep.Table.Posix.Linear.{
  Event, takes_effect, shuts_out, add_append, let_in, shut_out, history, store_after, Hands, extend,
  Linearized, HasResult,
}
use go_prep.Table.Posix.Linear.Replay.{Accounted, Accounted-Explained, answer-refused, answer-none}
use go_prep.Table.Posix.Linear.Effects.{OpOk, Linear, HandedOk}
use go_prep.Table.Posix.Linear.Steps.{Step-Linear}
use go_prep.Table.Posix.Linear.Once.{Reach-Once}

Reach-Linear : {s : System} (r : Reach s) → Linear s (shut_out r) (let_in r)
unfolding start make_index empty_store
Reach-Linear here = record {
  aligned = tt;
  opened = refl;
  accounted = tt;
  in_calls = tt;
  returned_to = tt;
  handed_out = tt;
}
Reach-Linear (later r st) = Step-Linear st (shut_out r) (let_in r) (Reach-Inv r) (Reach-Linear r)

enter-refuses : (x : Index) → enter x ≡ none → x.closed ≡ true
unfolding enter
enter-refuses x e = ground arith

-- Behind the calls that were let in, the table answers those that were not as the index does, and
-- is closed when the index is.
abbrev Behind : FileData → List Event → System → List Event → Type 0
Behind f es s late = Accounted f (late ++ es) × ((store_after (late ++ es)).closed ≡ s.index.closed)

Step-Behind :
    {s t : System} (st : Step s t) (f : FileData) (late es : List Event)
    → Behind f es s late
    → Behind f es t (shuts_out st late)
unfolding answer append_record publish leave close
Step-Behind {s} (insert_enters id text x small e) f late es h =
    let (after, _) = enter-eq_some s.index x e in rw after h
Step-Behind {s} (insert_refused id text e) f late es h =
    let t = store_after (late ++ es) in
    let answered = answer-refused t (h.1 ∙ enter-refuses s.index e) id text in
    ((ap (λ p. p.0) answered, h.0), ap (λ p. p.1.closed) answered ∙ h.1)
Step-Behind (appends xs ys id text wrote at room) f late es h = h
Step-Behind (publishes xs ys id text offset at) f late es h = h
Step-Behind (insert_leaves xs ys id code at) f late es h = h
Step-Behind {s} (query_enters min_id limit x e) f late es h =
    let (after, _) = enter-eq_some s.index x e in rw after h
Step-Behind {s} (query_refused min_id limit e) f late es h =
    let t = store_after (late ++ es) in
    let answered = answer-none t (h.1 ∙ enter-refuses s.index e) min_id limit in
    (
      (
        record {
          entries = [];
          rows = [];
          own = refl;
          aligned = tt;
          answered = ap (λ p. p.0) answered;
        },
        h.0,
      ),
      ap (λ p. p.1.closed) answered ∙ h.1,
    )
Step-Behind (finds xs ys min_id limit at) f late es h = h
Step-Behind (query_leaves xs ys offsets at) f late es h = h
Step-Behind closes f late es h = ((refl, h.0), refl)
Step-Behind (close_looks xs ys at) f late es h = h
Step-Behind (close_wakes xs ys at) f late es h = h

Reach-Behind :
    {s : System} (r : Reach s) (f : FileData) (es : List Event)
    → Accounted f es
    → (store_after es).closed ≡ false
    → Behind f es s (shut_out r)
unfolding start make_index
Reach-Behind here f es h o = (h, o)
Reach-Behind (later r st) f es h o = Step-Behind st f (shut_out r) es (Reach-Behind r f es h o)

HandedOk-Hands :
    (late es : List Event) (offsets : List ℕ)
    → HandedOk late es offsets
    → Hands (late ++ es) offsets
HandedOk-Hands late es offsets (inl (min_id, limit, m)) = (min_id, limit, mem-append_left es m)
HandedOk-Hands late es offsets (inr (min_id, limit, m)) = (min_id, limit, mem-append_right late m)

OpOk-HasResult : (f : FileData) (es : List Event) (op : Op) → OpOk f es op → HasResult es op
OpOk-HasResult f es (inserting id text) h = tt
OpOk-HasResult f es (appended id text offset) h = tt
OpOk-HasResult f es (finished id code) h = h
OpOk-HasResult f es (querying min_id limit) h = tt
OpOk-HasResult f es (fetched offsets) h = h

add_append-later :
    (id : ℕ) (text : Bytes) (wrote : WriteResult) (landed : Option ℕ) (es : List Event)
    → (new : List Event) × (add_append id text wrote landed es ≡ new ++ es)
add_append-later id text wrote none es = (_ ∷ [], refl)
add_append-later id text wrote (some offset) es = ([], refl)

takes_effect-later :
    {s t : System} (st : Step s t) (es : List Event)
    → (new : List Event) × (takes_effect st es ≡ new ++ es)
takes_effect-later {s} (appends xs ys id text wrote at room) es =
    add_append-later id text wrote (append_record id text wrote s.index).0 es
takes_effect-later (insert_enters id text x small e) es = ([], refl)
takes_effect-later (insert_refused id text e) es = ([], refl)
takes_effect-later (publishes xs ys id text offset at) es = (_ ∷ [], refl)
takes_effect-later (insert_leaves xs ys id code at) es = ([], refl)
takes_effect-later (query_enters min_id limit x e) es = ([], refl)
takes_effect-later (query_refused min_id limit e) es = ([], refl)
takes_effect-later (finds xs ys min_id limit at) es = (_ ∷ [], refl)
takes_effect-later (query_leaves xs ys offsets at) es = ([], refl)
takes_effect-later closes es = ([], refl)
takes_effect-later (close_looks xs ys at) es = ([], refl)
takes_effect-later (close_wakes xs ys at) es = ([], refl)

let_in-later :
    {s t : System} (r : Reach s) (run : Run Step s t)
    → (new : List Event) × (let_in (extend r run) ≡ new ++ let_in r)
let_in-later r stay = ([], refl)
let_in-later r (step run st) =
    let (new, e) = let_in-later r run in
    let (newer, e') = takes_effect-later st (let_in (extend r run)) in
    (newer ++ new, e' ∙ ap (λ es. newer ++ es) e ∙ sym (append_assoc newer new (let_in r)))

-- In whatever order the parts of the calls interleave, and however their writes end, the calls are
-- calls of the table made one after the other, an insert at the step that publishes its offset or
-- fails to write, and a query at the step that copies the offsets: for each call in this sequence,
-- the table answers the status that the call returns, or the records that a loop over its iterator
-- gets, also from a file that has grown since. The calls of `Close`, and those that it has the
-- index refuse, stand behind those that were let in. Each insert that was let in is in the sequence
-- once, or has not taken effect yet; every call that has its result is in it, as are the inserts
-- that have returned 0 and the queries that have returned their iterators. Where the index goes on
-- from one state to a later one, the calls let in that took effect before the first state stand
-- before the others, and the inserts that have returned 0 in it are among them.
pub history-Linearized :
    {s t : System} (pread : Pread) (r : Reach s) (run : Run Step s t)
    → Readable pread t.index.file_data.bytes
    → Linearized pread r run
history-Linearized {s} {t} pread r run readable =
    let whole = extend r run in
    let v = Reach-Linear whole in
    let f = t.index.file_data in
    let behind = Reach-Behind whole f (let_in whole) v.accounted v.opened in
    let (new, e) = let_in-later r run in
    record {
      explained =
          Accounted-Explained pread f readable (Reach-Inv whole).sound (history whole) behind.0;
      results = All-map (OpOk-HasResult f (let_in whole)) t.ops v.in_calls;
      once = Reach-Once whole;
      returned_to = v.returned_to;
      handed_out =
          All-map (HandedOk-Hands (shut_out whole) (let_in whole)) t.iterators v.handed_out;
      recent = new;
      in_order = e;
      over = (Reach-Linear r).returned_to;
    }
