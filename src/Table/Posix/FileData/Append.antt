-- ===== src/Table/Posix/FileData/Append.antt =====
-- What an append does to the records of the file, on every outcome of the write.
use go_prep.Base.{
  ℕ, ◌+◌, ◌%◌, ◌≤◌, ◌<◌, ◌≡◌, refl, sym, ap, ◌∙◌, true, false, none, some, List, Mem, ==_iff,
  Bool-cases, inl, inr, arith, length, take, drop, size_t_mod, take_all,
}
use go_prep.Table.Bytes.{Bytes}
use go_prep.Table.Posix.FileData.{FileData, line, write_at, pwrite, append, WriteResult, is_whole}
use go_prep.Table.Posix.FileData.Laws.{Stored, write_at-keeps, write_at-there, length-write_at}

-- The next position is inside the file or at its end, and the file's size fits.
pub record IsSound (f : FileData) : Type 0 where
  pub inside : f.write_offset ≤ length f.bytes
  pub fits : length f.bytes < size_t_mod

-- `g` has all that `f` has in front of its `write_offset`.
pub record Extends (f g : FileData) : Type 0 where
  pub moved : f.write_offset ≤ g.write_offset
  pub kept :
      (off n : ℕ) → off + n ≤ f.write_offset → take n (drop off g.bytes) ≡ take n (drop off f.bytes)

pub Stored-Extends :
    (asked : List (ℕ × Bytes)) (f g : FileData) (id off : ℕ)
    → Extends f g
    → Stored asked f id off
    → Stored asked g id off
Stored-Extends asked f g id off e r = record {
  text = r.text;
  asked_for = r.asked_for;
  small = r.small;
  in_front_of_end = omega (arith, r.in_front_of_end, e.moved);
  there = e.kept off (length (line id r.text)) r.in_front_of_end ∙ r.there;
}

module _ (f : FileData) (record_line : Bytes) (sound : IsSound f) where
  -- A write that fails or falls short leaves the next position where it is.
  append_short :
      (wrote : WriteResult)
      → is_whole wrote (length record_line) ≡ false
      → append f record_line wrote ≡ (
        none,
        record {
          bytes = pwrite f.bytes f.write_offset record_line wrote;
          write_offset = f.write_offset;
        },
      )
  unfolding append
  append_short wrote e = rw e

  append_whole :
      (wrote : WriteResult)
      → is_whole wrote (length record_line) ≡ true
      → length (pwrite f.bytes f.write_offset record_line wrote) < size_t_mod
      → append f record_line wrote ≡ (
        some f.write_offset,
        record {
          bytes = write_at f.bytes f.write_offset record_line;
          write_offset = f.write_offset + length record_line;
        },
      )
  unfolding append pwrite
  append_whole none e h = cc
  append_whole (some n) e h =
      let all : n ≡ length record_line = (==_iff n (length record_line)).0 e in
      let whole : take n record_line ≡ record_line = take_all n record_line (omega arith) in
      let grown = length-write_at f.bytes f.write_offset record_line sound.inside in
      let no_wrap : (f.write_offset + length record_line) % size_t_mod
          ≡ f.write_offset + length record_line =
        omega (arith, grown.0, ap (λ bs. length (write_at f.bytes f.write_offset bs)) whole) in
      rw (e, append, whole, no_wrap)

  append-bytes :
      (wrote : WriteResult)
      → (append f record_line wrote).1.bytes ≡ pwrite f.bytes f.write_offset record_line wrote
  unfolding append
  append-bytes wrote = elim (Bool-cases (is_whole wrote (length record_line))) [
    | inl e ↦ rw e
    | inr e ↦ rw e
  ]

  pwrite-keeps :
      (wrote : WriteResult) (off n : ℕ)
      → off + n ≤ f.write_offset
      → take n (drop off (pwrite f.bytes f.write_offset record_line wrote))
        ≡ take n (drop off f.bytes)
  unfolding pwrite
  pwrite-keeps none off n h = refl
  pwrite-keeps (some m) off n h =
      write_at-keeps f.bytes f.write_offset (take m record_line) sound.inside off n h

  pwrite-grows :
      (wrote : WriteResult)
      → length f.bytes ≤ length (pwrite f.bytes f.write_offset record_line wrote)
  unfolding pwrite
  pwrite-grows none = omega arith
  pwrite-grows (some m) =
      (length-write_at f.bytes f.write_offset (take m record_line) sound.inside).1

  module _ (wrote : WriteResult)
      (room : length (append f record_line wrote).1.bytes < size_t_mod) where
    room' : length (pwrite f.bytes f.write_offset record_line wrote) < size_t_mod
    room' = rw (append-bytes wrote) at room

    -- Every append, also one that fails half way, keeps the records that are there.
    pub append-Extends : Extends f (append f record_line wrote).1
    append-Extends = elim (Bool-cases (is_whole wrote (length record_line))) [
      | inl e ↦ record {
        moved = rw (append_whole wrote e room') (omega arith);
        kept = λ off n h. rw (append-bytes wrote) (pwrite-keeps wrote off n h);
      }
      | inr e ↦ record {
        moved = rw (append_short wrote e) (omega arith);
        kept = λ off n h. rw (append-bytes wrote) (pwrite-keeps wrote off n h);
      }
    ]

    pub append-IsSound : IsSound (append f record_line wrote).1
    append-IsSound = elim (Bool-cases (is_whole wrote (length record_line))) [
      | inl e ↦ record {
        inside =
            rw (append_whole wrote e room')
              (length-write_at f.bytes f.write_offset record_line sound.inside).0;
        fits = room;
      }
      | inr e ↦ record {
        inside = rw (append_short wrote e) (omega (arith, sound.inside, pwrite-grows wrote));
        fits = room;
      }
    ]

-- An append that gives an offset has stored its record there.
pub append-Stored :
    (asked : List (ℕ × Bytes)) (f : FileData) (id : ℕ) (text : Bytes) (wrote : WriteResult)
    (off : ℕ)
    → IsSound f
    → length (append f (line id text) wrote).1.bytes < size_t_mod
    → (append f (line id text) wrote).0 ≡ some off
    → Mem (id, text) asked
    → id < size_t_mod
    → Stored asked (append f (line id text) wrote).1 id off
append-Stored asked f id text wrote off sound room landed m small =
    elim (Bool-cases (is_whole wrote (length (line id text)))) [
      | inl e ↦
          let l = line id text in
          let whole = append_whole f l sound wrote e (room' f l sound wrote room) in
          let landing : f.write_offset ≡ off = cc (sym (ap (λ r. r.0) whole) ∙ landed) in
          rw (whole, ← landing)
            (record {
              text = text;
              asked_for = m;
              small = small;
              in_front_of_end = omega arith;
              there = write_at-there f.bytes f.write_offset l sound.inside;
            })
      | inr e ↦
          let short = append_short f (line id text) sound wrote e in
          cc (sym (ap (λ r. r.0) short) ∙ landed)
    ]
