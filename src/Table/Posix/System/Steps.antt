-- ===== src/Table/Posix/System/Steps.antt =====
-- Every step keeps the invariant.
use go_prep.Base.{
  ℕ, ◌<◌, ◌≡◌, refl, subst, Option, none, some, List, [], ◌∷◌, ◌++◌, All, All-map, All-take,
  All-replace, All-select, length, size_t_mod, ltb,
}
use go_prep.Base.Int.{ℤ, pos_part}
use go_prep.Table.Bytes.{Bytes}
use go_prep.Table.OrderedMap.{Map, assign-Ordered, All-assign}
use go_prep.Table.Posix.FileData.{FileData, WriteResult, line, append}
use go_prep.Table.Posix.FileData.Laws.{Stored}
use go_prep.Table.Posix.FileData.Append.{append-Extends, append-IsSound, append-Stored}
use go_prep.Table.Posix.Index.{close, leave, append_record, publish, find_offsets}
use go_prep.Table.Posix.Index.Queries.{find_offsets-select, offsets_of}
use go_prep.Table.Posix.System.{
  System, Op, inserting, appended, finished, querying, fetched, after_append, Step, insert_enters,
  insert_refused, appends, publishes, insert_leaves, query_enters, query_refused, finds,
  query_leaves, closes, close_looks, close_wakes, Closer, Reach, here, later,
}
use go_prep.Table.Posix.System.Known.{Known, OpKnown, Later-file}
use go_prep.Table.Posix.System.Invariant.{
  Inv, start-Inv, lasting, enter-eq_some, asks_Inv, opens_Inv, op-OpKnown, replace_calls,
  replace_counted, remove_counted, remove_calls,
}

All-offsets_of {ℓ} : (P : ℕ → Type ℓ) (m : Map) → All (λ e. P e.1) m → All P (offsets_of m)
All-offsets_of P [] h = tt
All-offsets_of P (e ∷ m) h = (h.0, All-offsets_of P m h.1)

after_append-OpKnown :
    (asked : List (ℕ × Bytes)) (g : FileData) (id : ℕ) (text : Bytes) (landed : Option ℕ)
    → ((off : ℕ) → landed ≡ some off → Stored asked g id off)
    → OpKnown asked g (after_append id text landed)
after_append-OpKnown asked g id text none h = tt
after_append-OpKnown asked g id text (some off) h = h off refl

module _ (s : System) (v : Inv s) (xs ys : List Op) where
  appends_Inv :
      (id : ℕ) (text : Bytes) (wrote : WriteResult)
      → s.ops ≡ xs ++ inserting id text ∷ ys
      → length (append_record id text wrote s.index).1.file_data.bytes < size_t_mod
      → Inv (record s {
        index = (append_record id text wrote s.index).1;
        ops = xs ++ after_append id text (append_record id text wrote s.index).0 ∷ ys;
      })
  unfolding append_record
  appends_Inv id text wrote at room =
      let f = s.index.file_data in
      let l = line id text in
      let g = (append f l wrote).1 in
      let grown = Later-file s.asked f g (append-Extends f l v.sound wrote room) in
      let (published, in_calls, in_iterators) = lasting s s.asked g grown v in
      let was = op-OpKnown s v xs ys (inserting id text) at in
      let new =
        after_append-OpKnown s.asked g id text (append f l wrote).0 (λ off landed.
          append-Stored s.asked f id text wrote off v.sound room landed was.0 was.1) in
      record {
        sound = append-IsSound f l v.sound wrote room;
        ordered = v.ordered;
        published = published;
        in_calls =
            All-replace (OpKnown s.asked g) xs (inserting id text) _ ys new
              (subst (All (OpKnown s.asked g)) at in_calls);
        in_iterators = in_iterators;
        counted = replace_counted s v xs ys (inserting id text) at _;
      }

  publishes_Inv :
      (id : ℕ) (text : Bytes) (offset : ℕ)
      → s.ops ≡ xs ++ appended id text offset ∷ ys
      → Inv (record s { index = publish id offset s.index; ops = xs ++ finished id 0 ∷ ys })
  unfolding publish
  publishes_Inv id text offset at = record {
    sound = v.sound;
    ordered = assign-Ordered id offset s.index.index_map v.ordered;
    published =
        All-assign _ id offset s.index.index_map (op-OpKnown s v xs ys (appended id text offset) at)
          v.published;
    in_calls = replace_calls s v xs ys (appended id text offset) at (finished id 0) tt;
    in_iterators = v.in_iterators;
    counted = replace_counted s v xs ys (appended id text offset) at (finished id 0);
  }

  insert_leaves_Inv :
      (id status : ℕ) (acked : List ℕ) (cs : List Closer)
      → s.ops ≡ xs ++ finished id status ∷ ys
      → Inv (record s { index = leave s.index; ops = xs ++ ys; acknowledged = acked; closers = cs })
  unfolding leave
  insert_leaves_Inv id status acked cs at = record {
    sound = v.sound;
    ordered = v.ordered;
    published = v.published;
    in_calls = remove_calls s v xs ys (finished id status) at;
    in_iterators = v.in_iterators;
    counted = remove_counted s v xs ys (finished id status) at;
  }

  finds_Inv :
      (min_id : ℕ) (limit : ℤ)
      → s.ops ≡ xs ++ querying min_id limit ∷ ys
      → Inv (record s { ops = xs ++ fetched (find_offsets min_id limit s.index) ∷ ys })
  finds_Inv min_id limit at = record {
    sound = v.sound;
    ordered = v.ordered;
    published = v.published;
    in_calls = replace_calls s v xs ys (querying min_id limit) at _ known;
    in_iterators = v.in_iterators;
    counted = replace_counted s v xs ys (querying min_id limit) at (fetched _);
  }
    where
      P : ℕ → Type 0
      P = Known s.asked s.index.file_data

      known : All P (find_offsets min_id limit s.index)
      known = rw (find_offsets-select min_id limit s.index v.ordered) (
          All-offsets_of P _ (
            All-take (λ e. P e.1) (pos_part limit) _
              (All-select (λ e. P e.1) (λ e. ltb min_id e.0) s.index.index_map
                (All-map {P = λ e. Stored s.asked s.index.file_data e.0 e.1} (λ e r. (e.0, r))
                  s.index.index_map v.published))))

  query_leaves_Inv :
      (offsets : List ℕ) (cs : List Closer)
      → s.ops ≡ xs ++ fetched offsets ∷ ys
      → Inv (record s {
        index = leave s.index;
        ops = xs ++ ys;
        iterators = offsets ∷ s.iterators;
        closers = cs;
      })
  unfolding leave
  query_leaves_Inv offsets cs at = record {
    sound = v.sound;
    ordered = v.ordered;
    published = v.published;
    in_calls = remove_calls s v xs ys (fetched offsets) at;
    in_iterators = (op-OpKnown s v xs ys (fetched offsets) at, v.in_iterators);
    counted = remove_counted s v xs ys (fetched offsets) at;
  }

closers_Inv : (s : System) → Inv s → (cs : List Closer) → Inv (record s { closers = cs })
closers_Inv s v cs = record {
  sound = v.sound;
  ordered = v.ordered;
  published = v.published;
  in_calls = v.in_calls;
  in_iterators = v.in_iterators;
  counted = v.counted;
}

closes_Inv :
    (s : System)
    → Inv s
    → (cs : List Closer) → Inv (record s { index = close s.index; closers = cs })
unfolding close
closes_Inv s v cs = record {
  sound = v.sound;
  ordered = v.ordered;
  published = v.published;
  in_calls = v.in_calls;
  in_iterators = v.in_iterators;
  counted = v.counted;
}

Step-Inv : {s t : System} → Step s t → Inv s → Inv t
Step-Inv {s} (insert_enters id text x small e) v =
    rw ((enter-eq_some s.index x e).0) (asks_Inv s v id text small)
Step-Inv (insert_refused id text e) v = v
Step-Inv {s} (appends xs ys id text wrote at room) v = appends_Inv s v xs ys id text wrote at room
Step-Inv {s} (publishes xs ys id text offset at) v = publishes_Inv s v xs ys id text offset at
Step-Inv {s} (insert_leaves xs ys id status at) v = insert_leaves_Inv s v xs ys id status _ _ at
Step-Inv {s} (query_enters min_id limit x e) v =
    rw ((enter-eq_some s.index x e).0) (opens_Inv s v min_id limit)
Step-Inv (query_refused min_id limit e) v = record {
  sound = v.sound;
  ordered = v.ordered;
  published = v.published;
  in_calls = v.in_calls;
  in_iterators = (tt, v.in_iterators);
  counted = v.counted;
}
Step-Inv {s} (finds xs ys min_id limit at) v = finds_Inv s v xs ys min_id limit at
Step-Inv {s} (query_leaves xs ys offsets at) v = query_leaves_Inv s v xs ys offsets _ at
Step-Inv {s} closes v = closes_Inv s v _
Step-Inv {s} (close_looks xs ys at) v = closers_Inv s v _
Step-Inv {s} (close_wakes xs ys at) v = closers_Inv s v _

-- In whatever order the parts of the calls interleave, and however their writes end: the next
-- position is inside the file or at its end; every offset in the map, in a call in progress and in
-- an iterator has a whole record that `Insert` was called with, under its own id where the map has
-- it; the ids of the map ascend; and `inFlight` is the number of calls in progress.
pub Reach-Inv : {s : System} → Reach s → Inv s
Reach-Inv here = start-Inv
Reach-Inv (later r st) = Step-Inv st (Reach-Inv r)
