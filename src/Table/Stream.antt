-- ===== src/Table/Stream.antt =====
-- index_and_iterator.cpp: an index over a table that is written and read through file streams.
pub mod Laws
pub mod System
pub mod Placed
pub mod Safety
pub mod Failure
pub mod Linear
mod Examples
use go_prep.Base.{
  is_empty, ℕ, ◌+◌, ◌-◌, ◌%◌, Bool, true, false, Option, none, some, List, [], ◌∷◌, ◌++◌,
  if◌then◌else◌, ◌==◌, ltb, leb, length, take, drop, push_back, get_or, size_t_mod,
}
use go_prep.Base.Int.{ℤ, pos, negsuc}
use go_prep.Table.Bytes.{
  Bytes, newline, tab, to_string, skip_space, Conversion, converted, invalid_argument, out_of_range,
  to_uint64,
}
use go_prep.Table.OrderedMap.{MapOf, assign, upper_bound}

-- `outFile`, opened to append: the bytes of the file, the position that `tellp` gives, and whether
-- an operation has failed.
pub record OutFile : Type 0 where
  pub bytes : Bytes
  pub position : ℕ
  pub failed : Bool

unfoldable pub tellp : OutFile → ℤ
tellp f = if f.failed then negsuc 0 else pos f.position

-- "id\tvalue\n"
unfoldable pub format : ℕ → Bytes → Bytes
format id value = to_string id ++ (tab ∷ (value ++ newline ∷ []))

-- Output and `flush`: of the bytes `landed` many reach the end of the file. A stream that has failed
-- writes no more.
unfoldable pub write : OutFile → Bytes → ℕ → OutFile
write f text landed =
    if f.failed
    then f
    else (if leb (length text) landed
        then record { bytes = f.bytes ++ text; position = length (f.bytes ++ text); failed = false }
        else record f { bytes = f.bytes ++ take landed text; failed = true })

pub record Index : Type 0 where
  pub id_to_offset_map : MapOf ℤ
  pub out_file : OutFile

-- The file keeps what it has; `position` is where the stream starts.
unfoldable pub opened_index : Bytes → ℕ → Index
opened_index bytes position = record {
  id_to_offset_map = [];
  out_file = record { bytes = bytes; position = position; failed = false };
}

-- The constructor; `none` is its exception, where the file does not open.
unfoldable pub make_index : Bool → Bytes → ℕ → Option Index
unfolding opened_index
make_index opens bytes position = if opens then some (opened_index bytes position) else none

-- The part of `insert` under `fileMutex`, and the offset that it hands on.
unfoldable pub write_record : ℕ → Bytes → ℕ → Index → ℤ × Index
unfolding tellp format write
write_record id value landed x =
    (tellp x.out_file, record x { out_file = write x.out_file (format id value) landed })

-- The part under `mapMutex`.
unfoldable pub publish : ℕ → ℤ → Index → Index
publish id offset x = record x { id_to_offset_map = assign id offset x.id_to_offset_map }

unfoldable pub insert : ℕ → Bytes → ℕ → Index → Index
unfolding write_record publish
insert id value landed x =
    let (offset, written) = write_record id value landed x in publish id offset written

-- `static_cast<size_t>(limit)`
unfoldable pub to_size_t : ℤ → ℕ
to_size_t (pos n) = n % size_t_mod
to_size_t (negsuc n) = size_t_mod - 1 - n % size_t_mod

-- The loop of `query` over the entries behind `minId`.
unfoldable pub collect : MapOf ℤ → ℕ → List ℤ → List ℤ
collect [] limit offsets = offsets
collect ((id, offset) ∷ entries) limit offsets =
    let more = collect entries limit (push_back offsets offset) in
    if ltb (length offsets) limit then more else offsets

-- `iteratorImpl`; `failed` is the state of its `inFile`, which is open.
pub record Iterator : Type 0 where
  pub offsets : List ℤ
  pub current_index : ℕ
  pub failed : Bool

abbrev pub fresh_iterator : List ℤ → Iterator
fresh_iterator offsets = record { offsets = offsets; current_index = 0; failed = false }

-- The constructor; `none` is its exception, where the file does not open.
unfoldable pub make_iterator : Bool → List ℤ → Option Iterator
make_iterator opens offsets = if opens then some (fresh_iterator offsets) else none

-- The part of `query` under `mapMutex`.
unfoldable pub collect_offsets : ℕ → ℤ → Index → List ℤ
unfolding collect to_size_t
collect_offsets min_id limit x =
    collect (upper_bound min_id x.id_to_offset_map) (to_size_t limit) []

unfoldable pub query : ℕ → ℤ → Bool → Index → Option Iterator
unfolding collect_offsets make_iterator
query min_id limit opens x = make_iterator opens (collect_offsets min_id limit x)

unfoldable pub has_next : Iterator → Bool
has_next i = ltb i.current_index (length i.offsets)

-- What `next` returns: an id that was never assigned is `none`.
pub record Record : Type 0 where
  pub id : Option ℕ
  pub value : Bytes

-- What `getline` takes.
abbrev pub get_line : Bytes → Bytes
get_line [] = []
get_line (b ∷ bs) = if b == newline then [] else b ∷ get_line bs

-- `get` and `getline` behind the id, and whether one of them fails.
unfoldable pub read_value : Bytes → Bytes × Bool
read_value [] = ([], true)
read_value (delimiter ∷ []) = ([], true)
read_value (delimiter ∷ b ∷ bs) = (get_line (b ∷ bs), false)

-- `inFile >> record.id`, and the rest if it succeeds. Without a character to read the id keeps what
-- it has; a field that is no number gives 0, and one that is too large the largest.
unfoldable pub read_fields : Bytes → Record × Bool
unfolding read_value
read_fields bs = elim (to_uint64 bs) [
  | converted n rest ↦ (record { id = some n; value = (read_value rest).0 }, (read_value rest).1)
  | invalid_argument ↦
      (record { id = if is_empty (skip_space bs) then none else some 0; value = [] }, true)
  | out_of_range ↦ (record { id = some (size_t_mod - 1); value = [] }, true)
]

-- `seekg` and what follows: on a stream that has failed, and at a negative position, nothing is
-- read.
unfoldable pub read_at : Bytes → ℤ → Bool → Record × Bool
unfolding read_fields
read_at file offset true = (record { id = none; value = [] }, true)
read_at file (pos n) false = read_fields (drop n file)
read_at file (negsuc n) false = (record { id = none; value = [] }, true)

-- `none` is the exception `std::out_of_range`.
unfoldable pub next : Bytes → Iterator → Option (Record × Iterator)
unfolding has_next read_at
next file i =
    let (r, failed) = read_at file (get_or i.offsets i.current_index (pos 0)) i.failed in
    if has_next i
    then some (r, record i { current_index = i.current_index + 1; failed = failed })
    else none
