-- ===== src/Table/Stream/Examples.antt =====
-- A run of an insert and a query on an empty file, and a stream that has failed.
use go_prep.Base.{
  ◌⊎◌, get_or, ℕ, ◌<◌, ◌≡◌, refl, true, false, none, some, [], ◌∷◌, map, Mem, length, take, drop,
  select, ltb, arith,
}
use go_prep.Base.Int.{ℤ, pos, negsuc}
use go_prep.Table.Bytes.{Bytes, newline, tab, to_string, digits}
use go_prep.Table.OrderedMap.{assign, upper_bound, lookup}
use go_prep.Table.Stream.{
  make_index, opened_index, Index, opened_index, write_record, format, publish, insert, collect,
  to_size_t, query, collect_offsets, Iterator, get_line, read_at, next,
}
use go_prep.Table.Stream.Laws.{read_at-format, collect_offsets-negative}
use go_prep.Table.Stream.System.{System, writes, publishes, queries, Reach, here, later}
use go_prep.Table.Stream.Safety.{StreamInv, Reach-StreamInv, next-written}
use go_prep.Table.Stream.Placed.{CutOff}
use go_prep.Table.Stream.Failure.{insert-failed}

abbrev hey : Bytes
hey = b'h' ∷ tab ∷ b'y' ∷ []

abbrev table : Bytes
table = b'5' ∷ newline ∷ b'1' ∷ b'2' ∷ tab ∷ b'h' ∷ tab ∷ b'y' ∷ newline ∷ []

there : take (length (format 12 hey)) (drop 2 table) ≡ format 12 hey
unfolding format to_string digits
there = refl

read_at-format_example :
    read_at table (pos 2) false ≡ (record { id = some 12; value = get_line hey }, false)
read_at-format_example = read_at-format table 2 12 hey (omega arith) there

abbrev some_index : Index
some_index = record {
  id_to_offset_map = (3, pos 40) ∷ (5, pos 0) ∷ (9, pos 20) ∷ [];
  out_file = record { bytes = table; position = 9; failed = false };
}

collect_offsets-negative_example :
    collect_offsets 3 (negsuc 0) some_index
    ≡ map (λ e. e.1) (select (λ e. ltb 3 e.0) some_index.id_to_offset_map)
collect_offsets-negative_example =
    collect_offsets-negative 3 0 some_index
      ((omega arith, (omega arith, tt)), ((omega arith, tt), (tt, tt))) (omega arith) (omega arith)

abbrev empty : Index
empty = record {
  id_to_offset_map = [];
  out_file = record { bytes = []; position = 0; failed = false };
}

abbrev opened : System
opened = record { index = empty; pending = []; asked = []; found = [] }

-- All bytes of a record land.
abbrev whole_write : ℕ → Bytes → Index → ℤ × Index
whole_write id value x = write_record id value (length (format id value)) x

abbrev written : System
written = record opened {
  index = (whole_write 12 hey empty).1;
  pending = (12, hey, (whole_write 12 hey empty).0) ∷ [];
  asked = (12, hey) ∷ [];
}

abbrev published : System
published = record written {
  index = publish 12 (whole_write 12 hey empty).0 written.index;
  pending = [];
}

abbrev queried : System
queried = record published { found = collect_offsets 3 (pos 5) published.index ∷ [] }

opened-Reach : Reach [] opened
unfolding make_index opened_index
opened-Reach = here true _ refl

queried-Reach : Reach [] queried
unfolding query
queried-Reach =
    later
      (later (later opened-Reach (writes 12 hey (length (format 12 hey)) (omega arith)))
        (publishes [] [] 12 hey (whole_write 12 hey empty).0 refl))
      (queries 3 (pos 5) true _ refl)

Reach-StreamInv_example : StreamInv queried
Reach-StreamInv_example = Reach-StreamInv queried-Reach

one : 0 < length (collect_offsets 3 (pos 5) published.index)
unfolding collect_offsets collect upper_bound assign publish write_record to_size_t
one = omega arith

abbrev cursor : Iterator
cursor = record {
  offsets = collect_offsets 3 (pos 5) published.index;
  current_index = 0;
  failed = false;
}

next-written_example :
    ((id : ℕ) × (value : Bytes) × Mem (id, value) queried.asked
      × (next queried.index.out_file.bytes cursor
          ≡ some (
            record { id = some id; value = get_line value },
            record cursor { current_index = 1; failed = false },
          )))
    ⊎ ((queried.index.out_file.failed ≡ true)
        × ((get_or cursor.offsets 0 (pos 0) ≡ negsuc 0)
            ⊎ ((id : ℕ) × CutOff queried.asked queried.index.out_file.bytes id
                  (get_or cursor.offsets 0 (pos 0)))))
next-written_example = next-written queried [] [] cursor queried-Reach refl refl one

abbrev broken : Index
broken = record empty { out_file = record { bytes = table; position = 9; failed = true } }

abbrev lost : Iterator
lost = record { offsets = negsuc 0 ∷ []; current_index = 0; failed = false }

insert-failed_example :
    ((insert 7 hey 6 broken).out_file ≡ broken.out_file)
    × (lookup 7 (insert 7 hey 6 broken).id_to_offset_map ≡ some (negsuc 0))
    × (next table lost
        ≡ some (record { id = none; value = [] }, record lost { current_index = 1; failed = true }))
insert-failed_example = insert-failed 7 hey 6 broken table lost refl (omega arith) refl
