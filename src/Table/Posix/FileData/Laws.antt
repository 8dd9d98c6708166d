-- ===== src/Table/Posix/FileData/Laws.antt =====
-- A record that stands in front of `write_offset` is read back, and survives every later append.
use go_prep.Base.{
  ℕ, ◌+◌, ◌≤◌, ◌<◌, ◌≡◌, refl, sym, ap, ◌∙◌, true, false, some, List, [], ◌∷◌, ◌++◌, append-nil,
  append_assoc, Mem, if◌then◌else◌, ◌==◌, arith, length, take, drop, replicate, size_t_mod,
  length-append, length-take, length-drop, take-append-drop, drop-part, take-prefix, piece-prefix,
  take-append, All, All-map,
}
use go_prep.Table.Bytes.{Bytes, newline, space, to_string, Lacks, is_digit, to_uint64, converted}
use go_prep.Table.Bytes.Laws.{IsDigit, to_string-IsDigit, find-append, to_uint64-to_string}
use go_prep.Table.Posix.Reader.{Pread, Readable, filled, parse_line, read_record_at}
use go_prep.Table.Posix.Reader.Laws.{line_of, in_front, read_record_at-line_of}
use go_prep.Table.Posix.FileData.{FileData, line, write_at}

-- A text up to its first newline.
abbrev pub first_line : Bytes → Bytes
first_line [] = []
first_line (b ∷ bs) = if b == newline then [] else b ∷ first_line bs

pub first_line_lem : (text : Bytes) → Lacks newline text → first_line text ≡ text
first_line_lem [] h = refl
first_line_lem (b ∷ bs) h = rw h.0 (ap (◌∷◌ b) (first_line_lem bs h.1))

line_of-text : (text rest : Bytes) → line_of (text ++ newline ∷ rest) ≡ some (first_line text)
line_of-text [] rest = refl
line_of-text (b ∷ bs) rest = ground (arith, line_of-text bs rest)

line_of-digits :
    (ds rest l : Bytes)
    → All IsDigit ds
    → line_of rest ≡ some l
    → line_of (ds ++ rest) ≡ some (ds ++ l)
line_of-digits [] rest l h e = e
line_of-digits (d ∷ ds) rest l h e =
    let digit : is_digit d ≡ true = h.0 in
    let other : (d == newline) ≡ false = ground arith in rw (other, line_of-digits ds rest l h.1 e)

parse_line-line :
    (id : ℕ) (text : Bytes)
    → id < size_t_mod
    → parse_line (to_string id ++ space ∷ text) ≡ filled (record { id = id; text = text })
unfolding parse_line
parse_line-line id text h =
    let ds = to_string id in
    let free : Lacks space ds =
      All-map {P = IsDigit} (λ b digit. ground arith) ds (to_string-IsDigit id) in
    let number : to_uint64 ds ≡ converted id [] =
      rw append-nil at (to_uint64-to_string id [] h tt) in
    let behind : drop (length ds + 1) (ds ++ space ∷ text) ≡ text =
      rw (append_assoc ds (space ∷ []) text) at (
        drop-part (length ds + 1) (ds ++ space ∷ []) text
          (omega (arith, length-append ds (space ∷ [])))) in
    rw (find-append space ds text free, parse_line, take-append ds (space ∷ text), behind, number)

-- The record of `id` and `text` stands at the offset, in front of `write_offset`.
pub record Stored (asked : List (ℕ × Bytes)) (f : FileData) (id off : ℕ) : Type 0 where
  pub text : Bytes
  pub asked_for : Mem (id, text) asked
  pub small : id < size_t_mod
  pub in_front_of_end : off + length (line id text) ≤ f.write_offset
  pub there : take (length (line id text)) (drop off f.bytes) ≡ line id text

line-append :
    (id : ℕ) (text rest : Bytes)
    → line id text ++ rest ≡ to_string id ++ (space ∷ (text ++ newline ∷ rest))
unfolding line
line-append id text rest =
    append_assoc (to_string id) (space ∷ (text ++ newline ∷ [])) rest
    ∙ ap (λ xs. to_string id ++ space ∷ xs) (append_assoc text (newline ∷ []) rest)

module _ (pread : Pread) where
  -- A stored record is read back, however the system splits its reads: the id, and the text up to
  -- its first newline.
  pub read_record_at-Stored :
      (asked : List (ℕ × Bytes)) (f : FileData) (id off : ℕ)
      → Readable pread f.bytes
      → length f.bytes < size_t_mod
      → off < size_t_mod
      → (r : Stored asked f id off)
      → read_record_at pread f.bytes off ≡ filled (record { id = id; text = first_line r.text })
  read_record_at-Stored asked f id off readable fits h r =
      let ds = to_string id in
      let rest = drop (length (line id r.text)) (drop off f.bytes) in
      let whole : drop off f.bytes ≡ ds ++ (space ∷ (r.text ++ newline ∷ rest)) =
        sym (take-append-drop (length (line id r.text)) (drop off f.bytes))
        ∙ ap (λ xs. xs ++ rest) r.there
        ∙ line-append id r.text rest in
      let first : line_of (drop off f.bytes) ≡ some (ds ++ space ∷ first_line r.text) =
        ap line_of whole
        ∙ line_of-digits ds _ _ (to_string-IsDigit id)
            (ap (in_front space) (line_of-text r.text rest)) in
      read_record_at-line_of pread f.bytes readable fits off h
      ∙ rw first (parse_line-line id (first_line r.text) r.small)

-- A write that starts inside the file or at its end.
module _ (bytes : Bytes) (offset : ℕ) (written : Bytes) (inside : offset ≤ length bytes) where
  write_at_lem :
      write_at bytes offset written
      ≡ take offset bytes ++ (written ++ drop (offset + length written) bytes)
  unfolding write_at
  write_at_lem = rw (take-prefix offset bytes (replicate offset 0) inside)

  length-front : length (take offset bytes) ≡ offset
  length-front = omega (arith, length-take offset bytes)

  -- Bytes in front of the offset stay.
  pub write_at-keeps :
      (off n : ℕ)
      → off + n ≤ offset
      → take n (drop off (write_at bytes offset written)) ≡ take n (drop off bytes)
  write_at-keeps off n k = rw write_at_lem (
      piece-prefix off n (take offset bytes) _ (omega (arith, length-front))
      ∙ sym
          (piece-prefix off n (take offset bytes) (drop offset bytes) (omega (arith, length-front)))
      ∙ ap (λ bs. take n (drop off bs)) (take-append-drop offset bytes))

  pub write_at-there : take (length written) (drop offset (write_at bytes offset written)) ≡ written
  write_at-there =
      rw
        (
          write_at_lem,
          drop-part offset (take offset bytes) (written ++ drop (offset + length written) bytes)
              length-front,
        )
        (take-append written (drop (offset + length written) bytes))

  pub length-write_at :
      (offset + length written ≤ length (write_at bytes offset written))
      × (length bytes ≤ length (write_at bytes offset written))
  length-write_at = rw write_at_lem (
      omega (
        arith,
        length-front,
        length-append (take offset bytes) (written ++ drop (offset + length written) bytes),
        length-append written (drop (offset + length written) bytes),
        length-drop (offset + length written) bytes,
      ))

  pub length-write_at_most : length (write_at bytes offset written) ≤ length bytes + length written
  length-write_at_most = rw write_at_lem (
      omega (
        arith,
        inside,
        length-front,
        length-append (take offset bytes) (written ++ drop (offset + length written) bytes),
        length-append written (drop (offset + length written) bytes),
        length-drop (offset + length written) bytes,
      ))
