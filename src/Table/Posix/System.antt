-- ===== src/Table/Posix/System.antt =====
-- Threads over one index of iterator_plus_index.cpp: the calls in progress, interleaved in any
-- order. A step is a part of a call under one lock.
pub mod Known
pub mod Invariant
pub mod Steps
pub mod Safety
pub mod Closing
pub mod Draining
pub mod Ending
pub mod Visible
pub mod Credit
pub mod Quiet
pub mod Examples
use go_prep.Base.{
  map, if◌then◌else◌, ◌==◌, ℕ, ◌<◌, ◌≡◌, true, Option, none, some, List, [], ◌∷◌, ◌++◌, length,
  size_t_mod,
}
use go_prep.Base.Int.{ℤ}
use go_prep.Table.Bytes.{Bytes}
use go_prep.Table.Posix.FileData.{WriteResult}
use go_prep.Table.Posix.Index.{
  Index, make_index, enter, leave, last_leaves, close, is_idle, append_record, publish,
  find_offsets,
}

-- Where a call is, between its entry and its return; an insert that has finished has its id and what
-- it returns.
pub data Op : Type 0 where
  inserting : ℕ → Bytes → Op
  appended : ℕ → Bytes → ℕ → Op
  finished : ℕ → ℕ → Op
  querying : ℕ → ℤ → Op
  fetched : List ℕ → Op

abbrev pub after_append : ℕ → Bytes → Option ℕ → Op
after_append id text none = finished id 2
after_append id text (some offset) = appended id text offset

-- Where a call of `Close` is: asleep on `cv`, about to hold the lock again, or back.
pub data Closer : Type 0 where
  waiting : Closer
  looking : Closer
  returned : Closer

abbrev pub wake_closer : Closer → Closer
wake_closer waiting = looking
wake_closer c = c

-- The predicate of `cv.wait`, under the lock.
unfoldable pub close_turn : Index → Closer
close_turn x = if is_idle x then returned else waiting

-- What the guard's destructor does for the threads that sleep on `cv`.
unfoldable pub notify_closers : Index → List Closer → List Closer
notify_closers x closers = if last_leaves x then map wake_closer closers else closers

-- `iterators` are the offset lists of the iterators handed out, and `asked` the records that
-- `Insert` was called with; `acknowledged` are the ids for which it has returned 0.
pub record System : Type 0 where
  pub index : Index
  pub ops : List Op
  pub iterators : List (List ℕ)
  pub asked : List (ℕ × Bytes)
  pub acknowledged : List ℕ
  pub closers : List Closer

unfoldable pub start : System
start = record {
  index = make_index;
  ops = [];
  iterators = [];
  asked = [];
  acknowledged = [];
  closers = [];
}

-- A file keeps fewer than 2^64 bytes.
pub data Step (s : System) : System → Type 0 where
  insert_enters :
      (id : ℕ) (text : Bytes) (x : Index)
      → id < size_t_mod
      → enter s.index ≡ some x
      → Step s
          (record s { index = x; ops = inserting id text ∷ s.ops; asked = (id, text) ∷ s.asked })
  insert_refused : (id : ℕ) (text : Bytes) → enter s.index ≡ none → Step s s
  appends :
      (xs ys : List Op) (id : ℕ) (text : Bytes) (wrote : WriteResult)
      → s.ops ≡ xs ++ inserting id text ∷ ys
      → length (append_record id text wrote s.index).1.file_data.bytes < size_t_mod
      → Step s (record s {
        index = (append_record id text wrote s.index).1;
        ops = xs ++ after_append id text (append_record id text wrote s.index).0 ∷ ys;
      })
  publishes :
      (xs ys : List Op) (id : ℕ) (text : Bytes) (offset : ℕ)
      → s.ops ≡ xs ++ appended id text offset ∷ ys
      → Step s (record s { index = publish id offset s.index; ops = xs ++ finished id 0 ∷ ys })
  insert_leaves :
      (xs ys : List Op) (id status : ℕ)
      → s.ops ≡ xs ++ finished id status ∷ ys
      → Step s (record s {
        index = leave s.index;
        ops = xs ++ ys;
        acknowledged = if status == 0 then id ∷ s.acknowledged else s.acknowledged;
        closers = notify_closers s.index s.closers;
      })
  query_enters :
      (min_id : ℕ) (limit : ℤ) (x : Index)
      → enter s.index ≡ some x
      → Step s (record s { index = x; ops = querying min_id limit ∷ s.ops })
  query_refused :
      (min_id : ℕ) (limit : ℤ)
      → enter s.index ≡ none
      → Step s (record s { iterators = [] ∷ s.iterators })
  finds :
      (xs ys : List Op) (min_id : ℕ) (limit : ℤ)
      → s.ops ≡ xs ++ querying min_id limit ∷ ys
      → Step s (record s { ops = xs ++ fetched (find_offsets min_id limit s.index) ∷ ys })
  query_leaves :
      (xs ys : List Op) (offsets : List ℕ)
      → s.ops ≡ xs ++ fetched offsets ∷ ys
      → Step s (record s {
        index = leave s.index;
        ops = xs ++ ys;
        iterators = offsets ∷ s.iterators;
        closers = notify_closers s.index s.closers;
      })
  closes : Step s (record s { index = close s.index; closers = close_turn s.index ∷ s.closers })
  close_looks :
      (xs ys : List Closer)
      → s.closers ≡ xs ++ looking ∷ ys
      → Step s (record s { closers = xs ++ close_turn s.index ∷ ys })
  -- A condition variable may wake a thread on its own.
  close_wakes :
      (xs ys : List Closer)
      → s.closers ≡ xs ++ waiting ∷ ys
      → Step s (record s { closers = xs ++ looking ∷ ys })

pub data Reach : System → Type 0 where
  here : Reach start
  later : {s t : System} → Reach s → Step s t → Reach t

-- What `Close` waits for.
pub record Drained (x : Index) : Type 0 where
  pub is_closed : x.closed ≡ true
  pub idle : x.in_flight ≡ 0
