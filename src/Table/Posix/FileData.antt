-- ===== src/Table/Posix/FileData.antt =====
-- The file of iterator_plus_index.cpp: `FileData`, and the part of `Insert` that appends to it.
pub mod Laws
pub mod Append
use go_prep.Base.{
  ℕ, Bool, false, ◌+◌, ◌%◌, Option, none, some, List, [], ◌∷◌, ◌++◌, if◌then◌else◌, ◌==◌, length,
  take, drop, replicate, size_t_mod,
}
use go_prep.Table.Bytes.{Bytes, newline, space, to_string}

-- The bytes of the file, and the position of the next record.
pub record FileData : Type 0 where
  pub bytes : Bytes
  pub write_offset : ℕ

-- The constructor empties the file.
unfoldable pub open_file : FileData
open_file = record { bytes = []; write_offset = 0 }

-- "<id> <text>\n"
unfoldable pub line : ℕ → Bytes → Bytes
line id text = to_string id ++ (space ∷ (text ++ newline ∷ []))

-- `pwrite` puts bytes over those from the offset on; a gap behind the end is filled with zeros.
unfoldable pub write_at : Bytes → ℕ → Bytes → Bytes
write_at bytes offset written =
    take offset (bytes ++ replicate offset 0) ++ (written ++ drop (offset + length written) bytes)

-- How `pwrite` ends is up to the system: `none` is an error, and `some n` a write of `n` bytes.
abbrev pub WriteResult : Type 0
WriteResult = Option ℕ

unfoldable pub pwrite : Bytes → ℕ → Bytes → WriteResult → Bytes
unfolding write_at
pwrite bytes offset written none = bytes
pwrite bytes offset written (some n) = write_at bytes offset (take n written)

-- Whether all `size` bytes were written.
abbrev pub is_whole : WriteResult → ℕ → Bool
is_whole none size = false
is_whole (some n) size = n == size

-- Under `writeMu`: the landing offset, unless the write failed or fell short.
unfoldable pub append : FileData → Bytes → WriteResult → Option ℕ × FileData
unfolding pwrite
append f record_line wrote =
    let written = pwrite f.bytes f.write_offset record_line wrote in
    if is_whole wrote (length record_line)
    then (
      some f.write_offset,
      record { bytes = written; write_offset = (f.write_offset + length record_line) % size_t_mod },
    )
    else (none, record { bytes = written; write_offset = f.write_offset })
