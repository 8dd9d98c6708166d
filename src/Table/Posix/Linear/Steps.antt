-- ===== src/Table/Posix/Linear/Steps.antt =====
-- Each step keeps the sequence of calls true to the index.
use mathlib.Core.List.{mem-cons_self}
use go_prep.Base.{
  ℕ, ◌<◌, ◌≡◌, refl, some, List, [], ◌∷◌, ◌++◌, map, length, size_t_mod, ltb, inl, inr, select,
  take,
}
use go_prep.Base.Int.{ℤ, pos_part}
use go_prep.Table.Bytes.{Bytes}
use go_prep.Table.OrderedMap.{assign}
use go_prep.Table.Posix.FileData.{WriteResult, line, append}
use go_prep.Table.Posix.FileData.Append.{append-Extends, append-Stored}
use go_prep.Table.Posix.Index.{leave, close, append_record, publish, find_offsets}
use go_prep.Table.Posix.Index.Queries.{find_offsets-select}
use go_prep.Table.Posix.System.{
  System, Op, inserting, appended, finished, querying, fetched, after_append, Step, insert_enters,
  insert_refused, appends, publishes, insert_leaves, query_enters, query_refused, finds,
  query_leaves, closes, close_looks, close_wakes,
}
use go_prep.Table.Posix.System.Invariant.{Inv, enter-eq_some, op-OpKnown}
use go_prep.Table.Posix.Store.{inserts, queries, status, records, show_row}
use go_prep.Table.Posix.Store.Rows.{Holds}
use go_prep.Table.OrderedMap.Aligned.{Aligned-assign, Aligned-select, Aligned-take}
use go_prep.Table.Posix.Store.Refines.{append-landed}
use go_prep.Table.Posix.Linear.{
  gave, handed, Event, add_append, takes_effect, shuts_out, store_after,
}
use go_prep.Table.Posix.Linear.Replay.{answer-written, answer-failed, answer-queried}
use go_prep.Table.Posix.Linear.Effects.{
  Linear, begins, own_OpOk, changes, hands, acknowledges, grows, refuses, takes, remembers,
}

module _ (s : System) (i : Inv s) (late es : List Event) (v : Linear s late es)
    (xs ys : List Op) where
  appends-Linear :
      (id : ℕ) (text : Bytes) (wrote : WriteResult)
      → s.ops ≡ xs ++ inserting id text ∷ ys
      → length (append_record id text wrote s.index).1.file_data.bytes < size_t_mod
      → Linear
          (record s {
            index = (append_record id text wrote s.index).1;
            ops = xs ++ after_append id text (append_record id text wrote s.index).0 ∷ ys;
          })
          late
          (add_append id text wrote (append_record id text wrote s.index).0 es)
  unfolding append_record
  appends-Linear id text wrote at room =
      let f = s.index.file_data in
      let l = line id text in
      let g = (append f l wrote).1 in
      let grown = grows _ _ _ _ _ _ _ v g (append-Extends f l i.sound wrote room) in
      let small = (op-OpKnown s i xs ys (inserting id text) at).1 in
      elim (append-landed f l wrote) [
        | inl (whole, landed) ↦
            let stored =
              append-Stored ((id, text) ∷ []) f id text wrote f.write_offset i.sound room landed
                mem-cons_self small in
            rw landed (
              changes _ _ _ _ _ _ _ grown xs ys (inserting id text) at
                (appended id text f.write_offset) stored)
        | inr (short, landed) ↦
            let t = store_after es in
            let failed =
              takes _ _ _ _ _ _ _ grown (inserts id text wrote) (gave 2) (status 2) t
                s.index.index_map (answer-failed t v.opened id text wrote short) refl v.opened
                grown.aligned in
            rw landed (
              changes _ _ _ _ _ _ _ failed xs ys (inserting id text) at (finished id 2)
                (text, wrote, mem-cons_self))
      ]

  publishes-Linear :
      (id : ℕ) (text : Bytes) (offset : ℕ)
      → s.ops ≡ xs ++ appended id text offset ∷ ys
      → Linear
          (record s { index = publish id offset s.index; ops = xs ++ finished id 0 ∷ ys })
          late
          ((inserts id text (some (length (line id text))), gave 0) ∷ es)
  unfolding publish
  publishes-Linear id text offset at =
      let t = store_after es in
      let m = s.index.index_map in
      let holds = own_OpOk _ _ _ _ _ _ _ v xs ys (appended id text offset) at in
      let done =
        takes _ _ _ _ _ _ _ v (inserts id text (some (length (line id text)))) (gave 0) (status 0)
          (record t { rows = assign id text t.rows }) (assign id offset m)
          (answer-written t v.opened id text) refl v.opened
          (Aligned-assign (Holds s.index.file_data) id offset text m t.rows holds v.aligned) in
      changes _ _ _ _ _ _ _ done xs ys (appended id text offset) at (finished id 0)
        (text, some (length (line id text)), mem-cons_self)

  finds-Linear :
      (min_id : ℕ) (limit : ℤ)
      → s.ops ≡ xs ++ querying min_id limit ∷ ys
      → Linear
          (record s { ops = xs ++ fetched (find_offsets min_id limit s.index) ∷ ys })
          late
          ((queries min_id limit, handed (find_offsets min_id limit s.index)) ∷ es)
  finds-Linear min_id limit at =
      let t = store_after es in
      let f = s.index.file_data in
      let m = s.index.index_map in
      let found = take (pos_part limit) (select (λ e. ltb min_id e.0) m) in
      let rows = take (pos_part limit) (select (λ e. ltb min_id e.0) t.rows) in
      let done =
        takes _ _ _ _ _ _ _ v (queries min_id limit) (handed (find_offsets min_id limit s.index))
          (records (map show_row rows)) t m (answer-queried t v.opened min_id limit)
          (record {
            entries = found;
            rows = rows;
            own = find_offsets-select min_id limit s.index i.ordered;
            aligned =
                Aligned-take (Holds f) (pos_part limit) _ _
                  (Aligned-select (Holds f) (λ id. ltb min_id id) m t.rows v.aligned);
            answered = refl;
          })
          v.opened v.aligned in
      changes _ _ _ _ _ _ _ done xs ys (querying min_id limit) at
        (fetched (find_offsets min_id limit s.index)) (min_id, limit, mem-cons_self)

pub Step-Linear :
    {s t : System} (st : Step s t) (late es : List Event)
    → Inv s
    → Linear s late es
    → Linear t (shuts_out st late) (takes_effect st es)
unfolding leave close
Step-Linear {s} (insert_enters id text x small e) late es i v =
    let (after, _) = enter-eq_some s.index x e in
    rw after (begins _ _ _ _ _ _ _ v (inserting id text) tt)
Step-Linear {s} (insert_refused id text e) late es i v = refuses _ _ _ _ _ _ _ v _
Step-Linear {s} (appends xs ys id text wrote at room) late es i v =
    appends-Linear s i late es v xs ys id text wrote at room
Step-Linear {s} (publishes xs ys id text offset at) late es i v =
    publishes-Linear s i late es v xs ys id text offset at
Step-Linear {s} (insert_leaves xs ys id code at) late es i v =
    acknowledges _ _ _ _ _ _ _ v xs ys (finished id code) at id code
      (own_OpOk _ _ _ _ _ _ _ v xs ys (finished id code) at)
Step-Linear {s} (query_enters min_id limit x e) late es i v =
    let (after, _) = enter-eq_some s.index x e in
    rw after (begins _ _ _ _ _ _ _ v (querying min_id limit) tt)
Step-Linear {s} (query_refused min_id limit e) late es i v =
    remembers _ _ _ _ _ _ _ [] (refuses _ _ _ _ _ _ _ v _) (min_id, limit, mem-cons_self)
Step-Linear {s} (finds xs ys min_id limit at) late es i v =
    finds-Linear s i late es v xs ys min_id limit at
Step-Linear {s} (query_leaves xs ys offsets at) late es i v =
    hands _ _ _ _ _ _ _ v xs ys (fetched offsets) at offsets
      (own_OpOk _ _ _ _ _ _ _ v xs ys (fetched offsets) at)
Step-Linear closes late es i v = refuses _ _ _ _ _ _ _ v _
Step-Linear (close_looks xs ys at) late es i v = v
Step-Linear (close_wakes xs ys at) late es i v = v
