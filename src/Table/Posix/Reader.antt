-- ===== src/Table/Posix/Reader.antt =====
-- `readRecordAt` of iterator_plus_index.cpp. `pread` belongs to the operating system, and is a
-- parameter: the bytes that a call reads, or `none` for an error.
pub mod Laws
use go_prep.Base.{
  ℕ, zero, suc, ◌+◌, ◌%◌, ◌≤◌, ◌<◌, ◌≡◌, Option, none, some, List, [], ◌∷◌, ◌++◌, length, take,
  drop, size_t_mod,
}
use go_prep.Table.Bytes.{
  Bytes, find, newline, space, to_string, Conversion, converted, invalid_argument, out_of_range,
  to_uint64,
}

pub record Record : Type 0 where
  pub id : ℕ
  pub text : Bytes

abbrev pub Pread : Type 0
Pread = Bytes → ℕ → ℕ → Option Bytes

-- A file that can be read: a call reads some of the bytes from the position on, and at least one
-- before the end of the file.
pub record Readable (pread : Pread) (file : Bytes) : Type 0 where
  pub read :
      (count pos : ℕ)
      → 0 < count
      → (n : ℕ) × (pread file count pos ≡ some (take n (drop pos file)))
        × (n ≤ count)
        × (pos < length file → 0 < n)

-- The buffer and the position of its first newline, or why there is none.
pub data Scan : Type 0 where
  line_found : Bytes → ℕ → Scan
  read_error : Scan
  end_of_file : Scan
  out_of_fuel : Scan

-- What the call returns: `filled` is `true` and the record, the next three are `false`, and the
-- two after them are the exceptions of `std::stoull`.
pub data Outcome : Type 0 where
  filled : Record → Outcome
  error_reading : Outcome
  no_newline : Outcome
  no_space : Outcome
  throws_invalid_argument : Outcome
  throws_out_of_range : Outcome
  does_not_end : Outcome

pub with_id : Conversion → Bytes → Outcome
with_id (converted id rest) text = filled (record { id = id; text = text })
with_id invalid_argument text = throws_invalid_argument
with_id out_of_range text = throws_out_of_range

-- The id is before the first space, and the text behind it.
unfoldable pub parse_line : Bytes → Outcome
unfolding with_id
parse_line line = elim (find space line) [
  | none ↦ no_space
  | some sp ↦ with_id (to_uint64 (take sp line)) (drop (sp + 1) line)
]

module _ (pread : Pread) where
  -- The loop that appends chunks of 256 bytes until one brings a newline.
  pub scan : ℕ → Bytes → ℕ → Bytes → Scan
  scan zero file pos buf = out_of_fuel
  scan (suc fuel) file pos buf = elim (pread file 256 pos) [
    | none ↦ read_error
    | some [] ↦ end_of_file
    | some (b ∷ bs) ↦ elim (find newline (buf ++ b ∷ bs)) [
      | none ↦ scan fuel file ((pos + length (b ∷ bs)) % size_t_mod) (buf ++ b ∷ bs)
      | some nl ↦ line_found (buf ++ b ∷ bs) nl
    ]
  ]

  pub outcome : Scan → Outcome
  outcome (line_found buf nl) = parse_line (take nl buf)
  outcome read_error = error_reading
  outcome end_of_file = no_newline
  outcome out_of_fuel = does_not_end

  -- Each round but the last reads a byte of the file.
  pub read_record_at : Bytes → ℕ → Outcome
  unfolding scan outcome
  read_record_at file offset = outcome (scan (suc (length file)) file offset [])
