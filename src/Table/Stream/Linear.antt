-- ===== src/Table/Stream/Linear.antt =====
-- Threads over one index of index_and_iterator.cpp, as inserts and queries of a table made one after
-- the other.
pub mod Replay
pub mod Steps
pub mod Order
mod Examples
use go_prep.Base.{
  gather, ℕ, suc, ◌≡◌, false, Option, none, some, List, [], ◌∷◌, ◌++◌, map, if◌then◌else◌, ltb,
  length, take, select, Mem, Perm, All, Run, stay, step, zero,
}
use go_prep.Base.Int.{ℤ}
use go_prep.Table.Bytes.{Bytes}
use go_prep.Table.OrderedMap.{MapOf, assign}
use go_prep.Table.Stream.{Iterator, Record, get_line, has_next, next, fresh_iterator, to_size_t}
use go_prep.Table.Stream.System.{
  System, Step, writes, publishes, queries, query_throws, Reach, here, later,
}

-- An insert, or a query with the offsets of the iterator that it gives.
pub data Event : Type 0 where
  inserted : ℕ → Bytes → Event
  queried : ℕ → ℤ → List ℤ → Event

-- The calls, each at the step at which it takes effect, the last one first: an insert when its
-- offset is in the map, and a query when it copies the offsets, unless its iterator throws.
abbrev pub takes_effect : {s t : System} → Step s t → List Event → List Event
takes_effect (writes id value landed small) es = es
takes_effect (publishes xs ys id value offset at) es = inserted id value ∷ es
takes_effect (queries min_id limit opens i e) es = queried min_id limit i.offsets ∷ es
takes_effect (query_throws min_id limit opens e) es = es

abbrev pub history : {bytes : Bytes} {s : System} → Reach bytes s → List Event
history (here opens x e) = []
history (later r st) = takes_effect st (history r)

-- The rows of the table after the calls of a sequence: at first it has none, whatever the file has.
abbrev pub rows_after : List Event → MapOf Bytes
rows_after [] = []
rows_after (inserted id value ∷ es) = assign id value (rows_after es)
rows_after (queried min_id limit offsets ∷ es) = rows_after es

-- The first rows behind the bound.
abbrev pub rows_behind : ℕ → ℤ → MapOf Bytes → MapOf Bytes
rows_behind min_id limit rows = take (to_size_t limit) (select (λ e. ltb min_id e.0) rows)

abbrev pub show_row : ℕ × Bytes → Record
show_row e = record { id = some e.0; value = get_line e.1 }

abbrev add_record : Record → Option (List Record) → Option (List Record)
add_record r none = none
add_record r (some rs) = some (r ∷ rs)

-- The records that a loop over `hasNext` and `next` gets.
unfoldable pub read_all : ℕ → Bytes → Iterator → Option (List Record)
read_all zero file i = none
read_all (suc fuel) file i =
    if has_next i
    then elim (next file i) [
      | none ↦ none
      | some (r, moved) ↦ add_record r (read_all fuel file moved)
    ]
    else some []

-- A loop over the iterator of each query gets the rows that the table had when it was made.
abbrev pub Explained : Bytes → List Event → Type 0
Explained file [] = Unit
Explained file (inserted id value ∷ es) = Explained file es
Explained file (queried min_id limit offsets ∷ es) =
    (read_all (suc (length offsets)) file (fresh_iterator offsets)
      ≡ some (map show_row (rows_behind min_id limit (rows_after es))))
    × Explained file es

-- A query that gives an iterator over the offsets is in the sequence.
abbrev pub Hands : List Event → List ℤ → Type 0
Hands es offsets = (min_id : ℕ) × (limit : ℤ) × Mem (queried min_id limit offsets) es

-- The records of the inserts of a sequence, and of those that are between their two locks.
abbrev pub inserts_of : List Event → List (ℕ × Bytes)
inserts_of [] = []
inserts_of (inserted id value ∷ es) = (id, value) ∷ inserts_of es
inserts_of (queried min_id limit offsets ∷ es) = inserts_of es

abbrev pub record_of : ℕ × Bytes × ℤ → List (ℕ × Bytes)
record_of e = (e.0, e.1) ∷ []

abbrev pub extend : {bytes : Bytes} {s t : System} → Reach bytes s → Run Step s t → Reach bytes t
extend r stay = r
extend r (step run st) = later (extend r run) st

-- The calls are calls of the table in the order of `history`; a state `s` and a later one `t` have
-- their calls in the same order.
pub record Linearized {bytes : Bytes} {s t : System} (r : Reach bytes s) (run : Run Step s t)
    : Type 0 where
  pub explained : Explained t.index.out_file.bytes (history (extend r run))
  pub handed_out : All (Hands (history (extend r run))) t.found
  pub once : Perm t.asked (gather record_of t.pending ++ inserts_of (history (extend r run)))
  pub recent : List Event
  pub in_order : history (extend r run) ≡ recent ++ history r
