-- ===== src/Table/Posix/Linear/Examples.antt =====
-- A query and an insert that begin before `Close` is called and go on after it, when another insert
-- is refused. The write of the first one falls short.
use go_prep.Base.{◌<◌, ◌≡◌, refl, none, some, [], ◌∷◌, Run, stay, step, length, size_t_mod, arith}
use go_prep.Base.Int.{pos}
use go_prep.Table.Bytes.{to_string, digits}
use go_prep.Table.Posix.FileData.{append, pwrite, write_at, line, open_file}
use go_prep.Table.Posix.Index.{
  make_index, enter, leave, close, append_record, publish, find_offsets,
}
use go_prep.Table.Posix.System.{
  System, inserting, fetched, querying, after_append, close_turn, start, Step, insert_enters,
  insert_refused, appends, query_enters, finds, closes,
}
use go_prep.Table.Posix.System.Examples.{
  inserted, inserted-Reach, hey, entered, may_query, slow_pread, slow_pread-Readable,
}
use go_prep.Table.Posix.Linear.{Linearized}
use go_prep.Table.Posix.Linear.Order.{history-Linearized}

abbrev asking_for : System
asking_for = record inserted { index = entered inserted.index; ops = querying 3 (pos 5) ∷ [] }

abbrev both : System
both = record asking_for {
  index = entered asking_for.index;
  ops = inserting 5 hey ∷ querying 3 (pos 5) ∷ [];
  asked = (5, hey) ∷ asking_for.asked;
}

abbrev found : System
found = record both { ops = inserting 5 hey ∷ fetched (find_offsets 3 (pos 5) both.index) ∷ [] }

abbrev closing : System
closing = record found { index = close found.index; closers = close_turn found.index ∷ [] }

abbrev short : System
short = record closing {
  index = (append_record 5 hey (some 2) closing.index).1;
  ops =
      after_append 5 hey (append_record 5 hey (some 2) closing.index).0
      ∷ fetched (find_offsets 3 (pos 5) both.index)
      ∷ [];
}

may_insert : enter asking_for.index ≡ some (entered asking_for.index)
unfolding enter leave publish append_record make_index
may_insert = refl

refused : enter closing.index ≡ none
unfolding enter close
refused = refl

room : length short.index.file_data.bytes < size_t_mod
unfolding append_record append pwrite write_at line to_string digits make_index open_file publish
    leave close
room = omega arith

run : Run Step inserted short
unfolding start
run =
    step
      (step
        (step
          (step
            (step (step stay (query_enters 3 (pos 5) (entered inserted.index) may_query))
              (insert_enters 5 hey (entered asking_for.index) (omega arith) may_insert))
            (finds (inserting 5 hey ∷ []) [] 3 (pos 5) refl))
          closes)
        (insert_refused 7 hey refused))
      (appends [] _ 5 hey (some 2) refl room)

history-Linearized_example : Linearized slow_pread inserted-Reach run
history-Linearized_example =
    history-Linearized slow_pread inserted-Reach run (slow_pread-Readable _)
