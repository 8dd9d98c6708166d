-- ===== src/Table/Posix/Linear.antt =====
-- Threads over one index of iterator_plus_index.cpp, as calls of the table made one after the other.
pub mod Replay
pub mod Effects
pub mod Steps
pub mod Once
pub mod Order
mod Examples
use go_prep.Base.{
  gather, Perm, ℕ, suc, ◌≡◌, Option, none, some, List, [], ◌∷◌, ◌++◌, Mem, All, Run, stay, step,
  length,
}
use go_prep.Base.Int.{ℤ}
use go_prep.Table.Bytes.{Bytes}
use go_prep.Table.Posix.FileData.{WriteResult, line}
use go_prep.Table.Posix.Reader.{Pread}
use go_prep.Table.Posix.Index.{append_record, find_offsets, iterator}
use go_prep.Table.Posix.Client.{print_all}
use go_prep.Table.Posix.System.{
  Op, inserting, appended, finished, fetched, System, Step, insert_enters, insert_refused, appends,
  publishes, insert_leaves, query_enters, query_refused, finds, query_leaves, closes, close_looks,
  close_wakes, Reach, here, later,
}
use go_prep.Table.Posix.Store.{
  Request, inserts, queries, Response, status, printed_or_nothing, answer, Store, empty_store,
}
use go_prep.Table.Posix.Store as Table

-- What a caller sees of a call: what it returns (0 where it returns nothing), or the offsets of the
-- iterator that it gets.
pub data Seen : Type 0 where
  gave : ℕ → Seen
  handed : List ℕ → Seen

abbrev pub Event : Type 0
Event = Request × Seen

abbrev pub add_append : ℕ → Bytes → WriteResult → Option ℕ → List Event → List Event
add_append id text wrote none es = (inserts id text wrote, gave 2) ∷ es
add_append id text wrote (some offset) es = es

-- The calls that the index lets in, each at the step at which it takes effect, the last one first:
-- an insert when its offset is in the map or its write has failed, and a query when it copies the
-- offsets.
abbrev pub takes_effect : {s t : System} → Step s t → List Event → List Event
takes_effect {s} (appends xs ys id text wrote at room) es =
    add_append id text wrote (append_record id text wrote s.index).0 es
takes_effect (publishes xs ys id text offset at) es =
    (inserts id text (some (length (line id text))), gave 0) ∷ es
takes_effect {s} (finds xs ys min_id limit at) es =
    (queries min_id limit, handed (find_offsets min_id limit s.index)) ∷ es
takes_effect (insert_enters id text x small e) es = es
takes_effect (insert_refused id text e) es = es
takes_effect (insert_leaves xs ys id code at) es = es
takes_effect (query_enters min_id limit x e) es = es
takes_effect (query_refused min_id limit e) es = es
takes_effect (query_leaves xs ys offsets at) es = es
takes_effect closes es = es
takes_effect (close_looks xs ys at) es = es
takes_effect (close_wakes xs ys at) es = es

-- The calls of `Close`, and those that it has the index refuse.
abbrev pub shuts_out : {s t : System} → Step s t → List Event → List Event
shuts_out (insert_refused id text e) es = (inserts id text none, gave 1) ∷ es
shuts_out (query_refused min_id limit e) es = (queries min_id limit, handed []) ∷ es
shuts_out closes es = (Table.closes, gave 0) ∷ es
shuts_out (insert_enters id text x small e) es = es
shuts_out (appends xs ys id text wrote at room) es = es
shuts_out (publishes xs ys id text offset at) es = es
shuts_out (insert_leaves xs ys id code at) es = es
shuts_out (query_enters min_id limit x e) es = es
shuts_out (finds xs ys min_id limit at) es = es
shuts_out (query_leaves xs ys offsets at) es = es
shuts_out (close_looks xs ys at) es = es
shuts_out (close_wakes xs ys at) es = es

abbrev pub let_in : {s : System} → Reach s → List Event
let_in here = []
let_in (later r st) = takes_effect st (let_in r)

abbrev pub shut_out : {s : System} → Reach s → List Event
shut_out here = []
shut_out (later r st) = shuts_out st (shut_out r)

-- All calls in one sequence, the last one first. A call that is let in has begun before `Close` was
-- called, so that it may come before a call that was refused.
abbrev pub history : {s : System} → Reach s → List Event
history r = shut_out r ++ let_in r

-- The table after the calls of a sequence.
abbrev pub store_after : List Event → Store
store_after [] = empty_store
store_after ((q, seen) ∷ es) = (answer q (store_after es)).1

-- What is seen is what the table answers; an iterator is read to its end.
abbrev pub Shows : Pread → Bytes → Seen → Response → Type 0
Shows pread file (gave code) r = r ≡ status code
Shows pread file (handed offsets) r =
    r ≡ printed_or_nothing (print_all (suc (length offsets)) pread file (iterator offsets))

abbrev pub Explained : Pread → Bytes → List Event → Type 0
Explained pread file [] = Unit
Explained pread file ((q, seen) ∷ es) =
    Shows pread file seen (answer q (store_after es)).0 × Explained pread file es

-- An insert of the id that returns the code is in the sequence.
abbrev pub Gives : List Event → ℕ → ℕ → Type 0
Gives es code id =
    (text : Bytes) × (wrote : WriteResult) × Mem (inserts id text wrote, gave code) es

-- So is a query that returns an iterator over the offsets.
abbrev pub Hands : List Event → List ℕ → Type 0
Hands es offsets = (min_id : ℕ) × (limit : ℤ) × Mem (queries min_id limit, handed offsets) es

-- A call in progress that has its result is in the sequence with it.
abbrev pub HasResult : List Event → Op → Type 0
HasResult es (finished id code) = Gives es code id
HasResult es (fetched offsets) = Hands es offsets
HasResult es op = Unit

-- The records of the inserts of a sequence, and of those that have not taken effect yet.
abbrev pub inserts_of : List Event → List (ℕ × Bytes)
inserts_of [] = []
inserts_of ((inserts id text wrote, seen) ∷ es) = (id, text) ∷ inserts_of es
inserts_of ((queries min_id limit, seen) ∷ es) = inserts_of es
inserts_of ((Table.closes, seen) ∷ es) = inserts_of es

abbrev pub record_of : Op → List (ℕ × Bytes)
record_of (inserting id text) = (id, text) ∷ []
record_of (appended id text offset) = (id, text) ∷ []
record_of op = []

abbrev pub extend : {s t : System} → Reach s → Run Step s t → Reach t
extend r stay = r
extend r (step run st) = later (extend r run) st

-- The calls are calls of the table in the order of `history`; a state `s` and a later one `t` have
-- those that were let in in the same order.
pub record Linearized (pread : Pread) {s t : System} (r : Reach s) (run : Run Step s t)
    : Type 0 where
  pub explained : Explained pread t.index.file_data.bytes (history (extend r run))
  pub results : All (HasResult (let_in (extend r run))) t.ops
  pub once : Perm t.asked (gather record_of t.ops ++ inserts_of (let_in (extend r run)))
  pub returned_to : All (Gives (let_in (extend r run)) 0) t.acknowledged
  pub handed_out : All (Hands (history (extend r run))) t.iterators
  pub recent : List Event
  pub in_order : let_in (extend r run) ≡ recent ++ let_in r
  pub over : All (Gives (let_in r) 0) s.acknowledged
