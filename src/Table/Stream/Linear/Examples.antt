-- ===== src/Table/Stream/Linear/Examples.antt =====
-- Two inserts whose writes and entries interleave with a query whose iterator cannot open the file,
-- and with one whose iterator can.
use go_prep.Base.{false, true, ◌≡◌, refl, [], ◌∷◌, Run, stay, step, length, ℕ, arith}
use go_prep.Base.Int.{ℤ, pos}
use go_prep.Table.Bytes.{Bytes, to_string}
use go_prep.Table.Stream.{
  make_index, query, make_iterator, Index, opened_index, format, write_record, write, publish,
  collect_offsets,
}
use go_prep.Table.Stream.System.{
  System, start, Step, writes, publishes, queries, query_throws, Reach, here, later,
}
use go_prep.Table.Stream.Linear.{Linearized}
use go_prep.Table.Stream.Linear.Order.{stream-Linearized}

abbrev yo : Bytes
yo = b'y' ∷ b'o' ∷ []

-- All bytes of a record land.
abbrev whole_write : ℕ → Bytes → Index → ℤ × Index
whole_write id value x = write_record id value (length (format id value)) x

abbrev offset : ℕ → Bytes → Index → ℤ
offset id value x = (whole_write id value x).0

abbrev first : System
first = record (start (opened_index [] 0)) {
  index = (whole_write 5 yo (start (opened_index [] 0)).index).1;
  pending = (5, yo, offset 5 yo (start (opened_index [] 0)).index) ∷ [];
  asked = (5, yo) ∷ [];
}

abbrev second : System
second = record first {
  index = (whole_write 12 yo first.index).1;
  pending = (12, yo, offset 12 yo first.index) ∷ first.pending;
  asked = (12, yo) ∷ first.asked;
}

-- The second insert overtakes the first one.
abbrev overtaken : System
overtaken = record second {
  index = publish 12 (offset 12 yo first.index) second.index;
  pending = first.pending;
}

overtaken-Reach : Reach [] overtaken
unfolding make_index
overtaken-Reach =
    later
      (later
        (later (here true (opened_index [] 0) refl)
          (writes 5 yo (length (format 5 yo)) (omega arith)))
        (writes 12 yo (length (format 12 yo)) (omega arith)))
      (publishes [] first.pending 12 yo (offset 12 yo first.index) refl)

abbrev queried : System
queried = record overtaken { found = collect_offsets 3 (pos 5) overtaken.index ∷ [] }

abbrev published : System
published = record queried {
  index = publish 5 (offset 5 yo (start (opened_index [] 0)).index) queried.index;
  pending = [];
}

run : Run Step overtaken published
unfolding query make_iterator
run =
    step (step (step stay (query_throws 3 (pos 5) false refl)) (queries 3 (pos 5) true _ refl))
      (publishes [] [] 5 yo (offset 5 yo (start (opened_index [] 0)).index) refl)

good : published.index.out_file.failed ≡ false
unfolding opened_index write_record write publish format to_string
good = refl

stream-Linearized_example : Linearized overtaken-Reach run
stream-Linearized_example = stream-Linearized overtaken-Reach run good
