-- ===== src/Table/Posix/Client.antt =====
-- The client of `main` in iterator_plus_index.cpp: the loop over an iterator, and the rows of the
-- demo.
pub mod Prints
pub mod Demo
mod Examples
use go_prep.Base.{
  ℕ, zero, suc, ◌+◌, ◌*◌, Option, none, some, List, [], ◌∷◌, ◌++◌, if◌then◌else◌, ◌>>=◌, push_back,
  count_from,
}
use go_prep.Table.Bytes.{Bytes, to_string}
use go_prep.Table.Posix.Reader.{
  Pread, Record, filled, throws_invalid_argument, throws_out_of_range, does_not_end,
}
use go_prep.Table.Posix.Index.{Iterator, Next, read, has_next, next}

-- What the body of the loop prints; `none` is an exception, or a read that does not end.
abbrev pub printed : Next → Option (List Record)
printed (read (filled r)) = some (r ∷ [])
printed (read throws_invalid_argument) = none
printed (read throws_out_of_range) = none
printed (read does_not_end) = none
printed other = some []

-- `while (it->HasNext()) if (it->Next(r)) std::cout << ...`, on fuel: the records that are printed,
-- or `none` where the loop has not ended or an exception leaves it.
unfoldable pub print_all : ℕ → Pread → Bytes → Iterator → Option (List Record)
print_all zero pread file i = none
print_all (suc fuel) pread file i =
    let (r, moved) = next pread file i in
    let rest = print_all fuel pread file moved in
    if has_next i then printed r >>= (λ now. rest >>= λ later. some (now ++ later)) else some []

-- The row with an id, as a thread of the demo inserts it.
unfoldable pub row_text : ℕ → Bytes
row_text id = b'r' ∷ b'o' ∷ b'w' ∷ b'-' ∷ to_string id

-- The ids of the thread `t`, and those of the four threads.
unfoldable pub thread_ids : ℕ → List ℕ → List ℕ
thread_ids t ids = count_from 5 0 (λ k ids. push_back ids (t * 5 + k)) ids

unfoldable pub demo_ids : List ℕ
demo_ids = count_from 4 0 thread_ids []
