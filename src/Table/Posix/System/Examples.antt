-- ===== src/Table/Posix/System/Examples.antt =====
-- A run of one insert and one query, and what its iterator reads; then a close.
use go_prep.Base.{
  stay, step, All, Run, ℕ, ◌+◌, ◌<◌, ◌≡◌, refl, true, false, none, some, List, [], ◌∷◌, ◌++◌, Mem,
  min, length, take, drop, size_t_mod, arith,
}
use go_prep.Base.Int.{pos}
use go_prep.Table.Bytes.{Bytes, to_string, digits}
use go_prep.Table.OrderedMap.{Map, Ordered, assign, upper_bound}
use go_prep.Table.Posix.Reader.{Pread, Readable, read_record_at, filled}
use go_prep.Table.Posix.FileData.{append, pwrite, write_at, line, open_file}
use go_prep.Table.Posix.FileData.Laws.{first_line}
use go_prep.Table.Posix.Index.{
  close, last_leaves, is_idle, Index, make_index, enter, leave, append_record, publish, snapshot,
  find_offsets, Iterator, next, read,
}
use go_prep.Table.Posix.System.{
  Step, System, inserting, appended, finished, querying, fetched, after_append, start,
  insert_enters, appends, publishes, insert_leaves, query_enters, finds, query_leaves, closes,
  close_turn, notify_closers, waiting, returned, Reach, here, later, Drained,
}
use go_prep.Table.Posix.System.Invariant.{Inv}
use go_prep.Table.Posix.System.Steps.{Reach-Inv}
use go_prep.Table.Posix.System.Safety.{next-inserted, Drained-stays}
use go_prep.Table.Posix.System.Closing.{CloseOk, Reach-CloseOk}
use go_prep.Table.Posix.System.Ending.{Draining, closed-Draining}
use go_prep.Table.Posix.System.Visible.{acknowledged-found}
use go_prep.Table.Posix.System.Quiet.{Among, IsAnswer, quiet-Answers}
use go_prep.Table.Posix.Index.Queries.{offsets_of}

abbrev pub hey : Bytes
hey = b'h' ∷ b'e' ∷ b'y' ∷ []

abbrev pub entered : Index → Index
entered x = record x { in_flight = x.in_flight + 1 }

may_enter : enter make_index ≡ some (entered make_index)
unfolding enter make_index
may_enter = refl

abbrev asking : System
asking = record start {
  index = entered make_index;
  ops = inserting 12 hey ∷ [];
  asked = (12, hey) ∷ [];
}

abbrev written : System
written = record asking {
  index = (append_record 12 hey (some 7) asking.index).1;
  ops = after_append 12 hey (append_record 12 hey (some 7) asking.index).0 ∷ [];
}

fits : length written.index.file_data.bytes < size_t_mod
unfolding append_record append pwrite write_at line to_string digits make_index open_file
fits = omega arith

landed : written.ops ≡ appended 12 hey 0 ∷ []
unfolding append_record append line to_string digits make_index open_file
landed = refl

abbrev listed : System
listed = record written { index = publish 12 0 written.index; ops = finished 12 0 ∷ [] }

abbrev pub inserted : System
inserted = record listed { index = leave listed.index; ops = []; acknowledged = 12 ∷ [] }

pub may_query : enter inserted.index ≡ some (entered inserted.index)
unfolding enter leave publish append_record make_index
may_query = refl

abbrev asking_for : System
asking_for = record inserted { index = entered inserted.index; ops = querying 3 (pos 5) ∷ [] }

abbrev offsets : List ℕ
offsets = find_offsets 3 (pos 5) asking_for.index

abbrev found : System
found = record asking_for { ops = fetched offsets ∷ [] }

abbrev answered : System
answered = record found { index = leave found.index; ops = []; iterators = offsets ∷ [] }

pub inserted-Reach : Reach inserted
unfolding start make_index notify_closers last_leaves publish append_record
inserted-Reach =
    later
      (later
        (later (later here (insert_enters 12 hey (entered make_index) (omega arith) may_enter))
          (appends [] [] 12 hey (some 7) refl fits))
        (publishes [] [] 12 hey 0 landed))
      (insert_leaves [] [] 12 0 refl)

answered-Reach : Reach answered
unfolding start notify_closers last_leaves leave publish append_record make_index
answered-Reach =
    later
      (later (later inserted-Reach (query_enters 3 (pos 5) (entered inserted.index) may_query))
        (finds [] [] 3 (pos 5) refl))
      (query_leaves [] [] offsets refl)

Reach-Inv_example : Inv answered
Reach-Inv_example = Reach-Inv answered-Reach

one : 0 < length offsets
unfolding find_offsets snapshot upper_bound assign publish leave append_record make_index
one = omega arith

-- A call reads at most 3 bytes.
abbrev pub slow_pread : Pread
slow_pread file count at = some (take (min count 3) (drop at file))

pub slow_pread-Readable : (file : Bytes) → Readable slow_pread file
slow_pread-Readable file = record {
  read = λ count at h. (min count 3, refl, omega arith, λ more. omega arith);
}

abbrev cursor : Iterator
cursor = record { file_offsets = offsets; cursor = 0; closed = false }

next-inserted_example :
    (id : ℕ) × (text : Bytes) × Mem (id, text) answered.asked
    × (next slow_pread answered.index.file_data.bytes cursor ≡ (
      read (filled (record { id = id; text = first_line text })),
      record cursor { cursor = 1 },
    ))
next-inserted_example =
    next-inserted answered slow_pread [] [] offsets cursor answered-Reach refl
      (slow_pread-Readable _) refl refl one

abbrev closed_system : System
closed_system = record start {
  index = record make_index { closed = true };
  closers = returned ∷ [];
}

closed_system-Drained : Drained closed_system.index
unfolding make_index
closed_system-Drained = record { is_closed = refl; idle = refl }

Drained-stays_example :
    (closed_system.index ≡ closed_system.index) × (enter closed_system.index ≡ none)
unfolding start make_index close close_turn is_idle
Drained-stays_example =
    Drained-stays {s = closed_system} (later here closes) closed_system-Drained closes

-- `Close` is called while a call of `Insert` is in progress, and sleeps.
abbrev waits : System
waits = record asking { index = close asking.index; closers = waiting ∷ [] }

waits-Reach : Reach waits
unfolding start make_index close close_turn is_idle
waits-Reach =
    later (later here (insert_enters 12 hey (entered make_index) (omega arith) may_enter)) closes

Reach-CloseOk_example : CloseOk waits
Reach-CloseOk_example = Reach-CloseOk waits-Reach

-- Its write fails.
abbrev failed : System
failed = record waits {
  index = (append_record 12 hey none waits.index).1;
  ops = after_append 12 hey (append_record 12 hey none waits.index).0 ∷ [];
}

failing : Run Step waits failed
unfolding append_record append pwrite make_index open_file close
failing = step stay (appends [] [] 12 hey none refl (omega arith))

closed-Draining_example : Draining waits failed failing
unfolding close
closed-Draining_example = closed-Draining waits-Reach refl failing

acknowledged-found_example :
    (offset : ℕ) × (xs : List ℕ) × (ys : List ℕ) × (text : Bytes) × (find_offsets 3
        (pos 5)
        answered.index
      ≡ xs ++ offset ∷ ys)
    × Mem (12, text) answered.asked
    × (read_record_at slow_pread answered.index.file_data.bytes offset
        ≡ filled (record { id = 12; text = first_line text }))
unfolding publish leave append_record make_index assign
acknowledged-found_example =
    acknowledged-found answered slow_pread 12 3 (pos 5) [] [] answered-Reach refl
      (slow_pread-Readable _) (omega arith) (omega arith)

quiet-Answers_example :
    (found : Map) × (find_offsets 3 (pos 5) answered.index ≡ offsets_of found)
    × Ordered found
    × All (IsAnswer answered slow_pread 3) found
    × ((id : ℕ)
        → Among id answered.acknowledged
        → 3 < id
        → (off : ℕ) × (us : Map) × (vs : Map) × (found ≡ us ++ (id, off) ∷ vs))
unfolding publish leave append_record make_index assign
quiet-Answers_example =
    quiet-Answers answered slow_pread answered-Reach refl (slow_pread-Readable _) 3 (pos 5)
      (omega arith)
