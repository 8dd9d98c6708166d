-- ===== src/Table/Stream/System.antt =====
-- The inserts and queries of many threads on one index of index_and_iterator.cpp, interleaved in
-- any order: a step is a part of a call under one lock. Of a record any number of bytes may land.
use go_prep.Base.{Bool, none, some, ℕ, ◌<◌, ◌≡◌, List, [], ◌∷◌, ◌++◌, length, size_t_mod}
use go_prep.Base.Int.{ℤ}
use go_prep.Table.Bytes.{Bytes}
use go_prep.Table.Stream.{Index, make_index, write_record, publish, Iterator, query}

-- `pending` are the records between the two locks of `insert`, with their offsets, `asked` the records that `insert` was
-- called with, and `found` the offsets of the iterators that queries returned.
pub record System : Type 0 where
  pub index : Index
  pub pending : List (ℕ × Bytes × ℤ)
  pub asked : List (ℕ × Bytes)
  pub found : List (List ℤ)

abbrev pub start : Index → System
start x = record { index = x; pending = []; asked = []; found = [] }

pub data Step (s : System) : System → Type 0 where
  writes :
      (id : ℕ) (value : Bytes) (landed : ℕ)
      → id < size_t_mod
      → Step s (record s {
        index = (write_record id value landed s.index).1;
        pending = (id, value, (write_record id value landed s.index).0) ∷ s.pending;
        asked = (id, value) ∷ s.asked;
      })
  publishes :
      (xs ys : List (ℕ × Bytes × ℤ)) (id : ℕ) (value : Bytes) (offset : ℤ)
      → s.pending ≡ xs ++ (id, value, offset) ∷ ys
      → Step s (record s { index = publish id offset s.index; pending = xs ++ ys })
  queries :
      (min_id : ℕ) (limit : ℤ) (opens : Bool) (i : Iterator)
      → query min_id limit opens s.index ≡ some i
      → Step s (record s { found = i.offsets ∷ s.found })
  query_throws :
      (min_id : ℕ) (limit : ℤ) (opens : Bool) → query min_id limit opens s.index ≡ none → Step s s

-- `bytes` is what the file had when it was opened; the stream starts at its end.
pub data Reach (bytes : Bytes) : System → Type 0 where
  here :
      (opens : Bool) (x : Index)
      → make_index opens bytes (length bytes) ≡ some x
      → Reach bytes (start x)
  later : {s t : System} → Reach bytes s → Step s t → Reach bytes t
