-- ===== src/Table/Stream/Failure.antt =====
-- What a write that fails leads to: `insert` does not look at the state of its stream.
use go_prep.Base.{
  ℕ, ◌+◌, ◌<◌, ◌≡◌, refl, true, false, none, some, [], length, get_or, lt→ltb, arith, Bool,
}
use go_prep.Base.Int.{pos, negsuc}
use go_prep.Table.Bytes.{Bytes}
use go_prep.Table.OrderedMap.{lookup, lookup-assign}
use go_prep.Table.Stream.{
  Index, insert, write_record, publish, write, tellp, Iterator, read_at, next, has_next,
}

-- At a negative position nothing is read.
read_at-negative :
    (file : Bytes) (k : ℕ) (b : Bool)
    → read_at file (negsuc k) b ≡ (record { id = none; value = [] }, true)
unfolding read_at
read_at-negative file k true = refl
read_at-negative file k false = refl

-- After a write has failed, an insert leaves the file as it is and yet puts the id into the map, at
-- offset -1; and `next` at such an offset returns a record whose id was never assigned, and leaves
-- the iterator's stream failed.
pub insert-failed :
    (id : ℕ) (value : Bytes) (landed : ℕ) (x : Index) (file : Bytes) (i : Iterator)
    → x.out_file.failed ≡ true
    → i.current_index < length i.offsets
    → get_or i.offsets i.current_index (pos 0) ≡ negsuc 0
    → ((insert id value landed x).out_file ≡ x.out_file)
      × (lookup id (insert id value landed x).id_to_offset_map ≡ some (negsuc 0))
      × (next file i
          ≡ some (
            record { id = none; value = [] },
            record i { current_index = i.current_index + 1; failed = true },
          ))
unfolding insert write_record publish write tellp next has_next
insert-failed id value landed x file i broken more at = (
  rw broken refl,
  rw (broken, lookup-assign id (negsuc 0) id x.id_to_offset_map) (ground arith),
  rw (lt→ltb i.current_index (length i.offsets) more, at, read_at-negative file 0 i.failed) refl,
)
