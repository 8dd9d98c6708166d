-- ===== src/Table/Posix/Index.antt =====
-- `indexImpl` of iterator_plus_index.cpp, and the iterators that its queries return.
pub mod Queries
use go_prep.Base.{
  ◌==◌, ℕ, suc, ◌+◌, ◌-◌, Bool, true, false, Option, none, some, List, [], ◌∷◌, if◌then◌else◌, ltb,
  push_back, length, get_or,
}
use go_prep.Base.Int.{ℤ, pos, ltb_ℤ}
use go_prep.Table.Bytes.{Bytes}
use go_prep.Table.OrderedMap.{Map, assign, upper_bound}
use go_prep.Table.Posix.FileData.{FileData, line, append, open_file, WriteResult}
use go_prep.Table.Posix.Reader.{Pread, Outcome, read_record_at}

pub record Index : Type 0 where
  pub index_map : Map
  pub file_data : FileData
  pub in_flight : ℕ
  pub closed : Bool

unfoldable pub make_index : Index
make_index = record { index_map = []; file_data = open_file; in_flight = 0; closed = false }

-- `none` is a refusal: the index is closed.
unfoldable pub enter : Index → Option Index
enter x = if x.closed then none else some (record x { in_flight = x.in_flight + 1 })

-- The destructor of the guard that `enter` is followed by.
unfoldable pub leave : Index → Index
leave x = record x { in_flight = x.in_flight - 1 }

-- Whether the destructor notifies `cv`.
unfoldable pub last_leaves : Index → Bool
last_leaves x = x.in_flight - 1 == 0

-- `Close` sets the flag, and then waits until no call is in progress.
unfoldable pub close : Index → Index
close x = record x { closed = true }

unfoldable pub is_idle : Index → Bool
is_idle x = x.in_flight == 0

-- The first part of `Insert`: the landing offset, if the append succeeds.
unfoldable pub append_record : ℕ → Bytes → WriteResult → Index → Option ℕ × Index
append_record id text wrote x =
    let (landed, f) = append x.file_data (line id text) wrote in
    (landed, record x { file_data = f })

-- The second part, under `idxMu`.
unfoldable pub publish : ℕ → ℕ → Index → Index
publish id offset x = record x { index_map = assign id offset x.index_map }

-- The loop of `Query` over the entries behind `minId`.
unfoldable pub snapshot : Map → ℤ → ℕ → List ℕ → List ℕ
snapshot [] limit count offsets = offsets
snapshot ((id, offset) ∷ entries) limit count offsets =
    let more = snapshot entries limit (count + 1) (push_back offsets offset) in
    if ltb_ℤ (pos count) limit then more else offsets

-- The offsets that a query finds, under `idxMu`.
unfoldable pub find_offsets : ℕ → ℤ → Index → List ℕ
unfolding snapshot
find_offsets min_id limit x = snapshot (upper_bound min_id x.index_map) limit 0 []

pub record Iterator : Type 0 where
  pub file_offsets : List ℕ
  pub cursor : ℕ
  pub closed : Bool

unfoldable pub iterator : List ℕ → Iterator
iterator offsets = record { file_offsets = offsets; cursor = 0; closed = false }

-- One call alone, from its entry to its return: 0 is success, 1 a closed index, 2 a failed write.
unfoldable pub insert : ℕ → Bytes → WriteResult → Index → ℕ × Index
unfolding append_record publish leave
insert id text wrote x = elim (enter x) [
  | none ↦ (1, x)
  | some entered ↦
      let (landed, written) = append_record id text wrote entered in
      elim landed [
        | none ↦ (2, leave written)
        | some offset ↦ (0, leave (publish id offset written))
      ]
]

-- A closed index gives an iterator over nothing.
unfoldable pub query : ℕ → ℤ → Index → Iterator × Index
unfolding iterator leave
query min_id limit x = elim (enter x) [
  | none ↦ (iterator [], x)
  | some entered ↦ (iterator (find_offsets min_id limit entered), leave entered)
]

unfoldable pub has_next : Iterator → Bool
has_next i = if i.closed then false else ltb i.cursor (length i.file_offsets)

-- `Next` gives `false` in all cases but `read` of a record that is filled.
pub data Next : Type 0 where
  iterator_closed : Next
  end_of_stream : Next
  read : Outcome → Next

-- The cursor moves on before the record is read.
unfoldable pub next : Pread → Bytes → Iterator → Next × Iterator
unfolding has_next
next pread file i =
    if i.closed
    then (iterator_closed, i)
    else (if has_next i
        then (
          read (read_record_at pread file (get_or i.file_offsets i.cursor 0)),
          record i { cursor = i.cursor + 1 },
        )
        else (end_of_stream, i))

unfoldable pub close_iterator : Iterator → Iterator
close_iterator i = record i { closed = true }
