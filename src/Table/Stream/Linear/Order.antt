-- ===== src/Table/Stream/Linear/Order.antt =====
-- Inserts and queries of many threads on one index of index_and_iterator.cpp, in the order in which
-- they take effect.
use mathlib.Core.List.{mem-cons_self, mem-cons_of_mem}
use mathlib.Core.List.Perm
use go_prep.Base.{
  gather, gather_settle, false, ◌≡◌, refl, sym, ap, ◌∙◌, subst, List, [], ◌∷◌, ◌++◌, append_assoc,
  All, All-map, Perm, Run, stay, step,
}
use go_prep.Base.Int.{ℤ}
use go_prep.Table.Bytes.{Bytes}
use go_prep.Table.Stream.System.{
  System, Step, writes, publishes, queries, query_throws, Reach, here, later,
}
use go_prep.Table.Stream.Linear.{
  Event, inserted, queried, takes_effect, history, Hands, inserts_of, record_of, extend, Linearized,
}
use go_prep.Table.Stream.Linear.Replay.{Accounted-Explained}
use go_prep.Table.Stream.Linear.Steps.{Reach-Linear}

-- What holds also once a write has failed: which calls are in the sequence.
record Calls (s : System) (es : List Event) : Type 0 where
  handed_out : All (Hands es) s.found
  once : Perm s.asked (gather record_of s.pending ++ inserts_of es)

Hands-later : (e : Event) (es : List Event) (os : List ℤ) → Hands es os → Hands (e ∷ es) os
Hands-later e es os (min_id, limit, m) = (min_id, limit, mem-cons_of_mem e m)

Step-Calls :
    {s t : System} (st : Step s t) (es : List Event) → Calls s es → Calls t (takes_effect st es)
Step-Calls (writes id value landed small) es v = record {
  handed_out = v.handed_out;
  once = Perm.cons (id, value) v.once;
}
Step-Calls {s} (publishes xs ys id value offset at) es v = record {
  handed_out = All-map (Hands-later (inserted id value) es) s.found v.handed_out;
  once =
      gather_settle record_of s.asked (inserts_of es) xs ys (id, value, offset) (id, value) refl
        (subst (λ es'. Perm s.asked (gather record_of es' ++ inserts_of es)) at v.once);
}
Step-Calls (query_throws min_id limit opens e) es v = v
Step-Calls {s} (queries min_id limit opens i e) es v =
    let offsets = i.offsets in
    record {
      handed_out = (
        (min_id, limit, mem-cons_self),
        All-map (Hands-later (queried min_id limit offsets) es) s.found v.handed_out,
      );
      once = v.once;
    }

Reach-Calls : {bytes : Bytes} {s : System} (r : Reach bytes s) → Calls s (history r)
Reach-Calls (here opens x e) = record { handed_out = tt; once = Perm.refl [] }
Reach-Calls (later r st) = Step-Calls st (history r) (Reach-Calls r)

takes_effect-later :
    {s t : System} (st : Step s t) (es : List Event)
    → (new : List Event) × (takes_effect st es ≡ new ++ es)
takes_effect-later (writes id value landed small) es = ([], refl)
takes_effect-later (publishes xs ys id value offset at) es = (_ ∷ [], refl)
takes_effect-later (queries min_id limit opens i e) es = (_ ∷ [], refl)
takes_effect-later (query_throws min_id limit opens e) es = ([], refl)

history-later :
    {bytes : Bytes} {s t : System} (r : Reach bytes s) (run : Run Step s t)
    → (new : List Event) × (history (extend r run) ≡ new ++ history r)
history-later r stay = ([], refl)
history-later r (step run st) =
    let (new, e) = history-later r run in
    let (newer, e') = takes_effect-later st (history (extend r run)) in
    (newer ++ new, e' ∙ ap (λ es. newer ++ es) e ∙ sym (append_assoc newer new (history r)))

-- In whatever order inserts and queries of many threads interleave, as long as no write has failed:
-- they are inserts and queries of a table made one after the other, an insert at the step that puts
-- its offset into the map, and a query at the step that copies the offsets. A loop over the iterator
-- of each query gets, also from a file that has grown since, the first rows behind the bound that
-- the table had at this point of the sequence, each with its value up to the first newline. Each
-- call of `insert` is in the sequence once or is between its two locks, every iterator that was
-- returned belongs to a query of the sequence, and where the index goes on from one state to a later
-- one, the calls that took effect before the first state stand before the others.
pub stream-Linearized :
    {bytes : Bytes} {s t : System} (r : Reach bytes s) (run : Run Step s t)
    → t.index.out_file.failed ≡ false
    → Linearized r run
stream-Linearized {t = t} r run good =
    let whole = extend r run in
    let calls = Reach-Calls whole in
    let (new, e) = history-later r run in
    record {
      explained =
          Accounted-Explained t.index.out_file.bytes (history whole)
            (Reach-Linear whole good).accounted;
      handed_out = calls.handed_out;
      once = calls.once;
      recent = new;
      in_order = e;
    }
