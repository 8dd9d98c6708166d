-- ===== src/Table/Posix/Examples.antt =====
-- The table over a file on a few records, with a system that reads 3 bytes at a time.
use mathlib.Core.List.{mem-cons_self}
use go_prep.Base.{
  ℕ, ◌<◌, ◌≡◌, refl, none, some, List, [], ◌∷◌, min, length, take, drop, size_t_mod, arith,
}
use go_prep.Table.Bytes.{Bytes, newline, space, to_string, digits}
use go_prep.Table.Posix.Reader.{Pread, Readable, filled, no_newline, parse_line, read_record_at}
use go_prep.Table.Posix.Reader.Laws.{line_of, read_record_at-line_of}
use go_prep.Table.Posix.FileData.{pwrite, write_at, FileData, line, append}
use go_prep.Table.Posix.FileData.Laws.{Stored, first_line, read_record_at-Stored}
use go_prep.Table.Posix.FileData.Append.{IsSound, append-Stored}

-- A call reads at most 3 bytes.
abbrev slow_pread : Pread
slow_pread file count at = some (take (min count 3) (drop at file))

slow_pread-Readable : (file : Bytes) → Readable slow_pread file
slow_pread-Readable file = record {
  read = λ count at h. (min count 3, refl, omega arith, λ more. omega arith);
}

abbrev hello : Bytes
hello = b'h' ∷ b'e' ∷ b'y' ∷ []

-- "12 hey\n" and a record that is not finished.
abbrev file : Bytes
file = b'1' ∷ b'2' ∷ space ∷ b'h' ∷ b'e' ∷ b'y' ∷ newline ∷ b'7' ∷ []

abbrev files : FileData
files = record { bytes = file; write_offset = 7 }

files-IsSound : IsSound files
files-IsSound = record { inside = omega arith; fits = omega arith }

read_record_at-line_of_example :
    read_record_at slow_pread file 0
    ≡ (elim (line_of (drop 0 file)) [ none ↦ no_newline | some line ↦ parse_line line ])
read_record_at-line_of_example =
    read_record_at-line_of slow_pread file (slow_pread-Readable file) (omega arith) 0 (omega arith)

-- "12 hey\n" again, as what `line` makes.
abbrev asked : List (ℕ × Bytes)
asked = (12, hello) ∷ []

hello-Stored : Stored asked files 12 0
unfolding line to_string digits
hello-Stored = record {
  text = hello;
  asked_for = mem-cons_self;
  small = omega arith;
  in_front_of_end = omega arith;
  there = refl;
}

read_record_at-Stored_example :
    read_record_at slow_pread file 0 ≡ filled (record { id = 12; text = first_line hello })
unfolding hello-Stored
read_record_at-Stored_example =
    read_record_at-Stored slow_pread asked files 12 0 (slow_pread-Readable file) (omega arith)
      (omega arith) hello-Stored

-- A write of 2 bytes only, and a whole one.
half-room : length (append files (line 7 hello) (some 2)).1.bytes < size_t_mod
unfolding append pwrite write_at line to_string digits
half-room = omega arith

whole-room : length (append files (line 12 hello) (some 7)).1.bytes < size_t_mod
unfolding append pwrite write_at line to_string digits
whole-room = omega arith

whole-lands : (append files (line 12 hello) (some 7)).0 ≡ some 7
unfolding append pwrite write_at line to_string digits
whole-lands = refl

append-Stored_example : Stored asked (append files (line 12 hello) (some 7)).1 12 7
append-Stored_example =
    append-Stored asked files 12 hello (some 7) 7 files-IsSound whole-room whole-lands mem-cons_self
      (omega arith)
