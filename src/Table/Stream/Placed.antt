-- ===== src/Table/Stream/Placed.antt =====
-- What `insert` of index_and_iterator.cpp leaves at an offset, whole or in part, and that it lasts.
use mathlib.Core.List.{mem-cons_self, mem-cons_of_mem}
use go_prep.Base.{
  ℕ, ◌+◌, ◌≤◌, ◌<◌, ◌≡◌, refl, ◌∙◌, true, false, List, ◌∷◌, ◌++◌, Mem, piece-prefix, take_all,
  drop-append, leb, length, length-append, take, drop, size_t_mod, arith, Bool-cases, inl, inr, ◌⊎◌,
}
use go_prep.Base.Int.{ℤ, pos, negsuc}
use go_prep.Table.Bytes.{Bytes}
use go_prep.Table.Stream.{OutFile, write, tellp, format}

-- A record that `insert` was called with stands whole at the offset.
pub record Written (asked : List (ℕ × Bytes)) (bytes : Bytes) (id : ℕ) (offset : ℤ) : Type 0 where
  pub at : ℕ
  pub is_at : offset ≡ pos at
  pub value : Bytes
  pub asked_for : Mem (id, value) asked
  pub small : id < size_t_mod
  pub inside : at + length (format id value) ≤ length bytes
  pub there : take (length (format id value)) (drop at bytes) ≡ format id value

-- The record that the stream failed at: a part of it is the end of the file.
pub record CutOff (asked : List (ℕ × Bytes)) (bytes : Bytes) (id : ℕ) (offset : ℤ) : Type 0 where
  pub at : ℕ
  pub is_at : offset ≡ pos at
  pub value : Bytes
  pub asked_for : Mem (id, value) asked
  pub landed : ℕ
  pub cut : landed < length (format id value)
  pub there : drop at bytes ≡ take landed (format id value)

-- What `insert` leaves at an offset: its record, or, once the stream has failed, a part of it or
-- nothing.
abbrev pub Placed : List (ℕ × Bytes) → OutFile → ℕ → ℤ → Type 0
Placed asked f id offset =
    Written asked f.bytes id offset
    ⊎ ((f.failed ≡ true) × ((offset ≡ negsuc 0) ⊎ CutOff asked f.bytes id offset))

abbrev pub Known : List (ℕ × Bytes) → OutFile → ℤ → Type 0
Known asked f offset = (id : ℕ) × Placed asked f id offset

pub Written-longer :
    (asked : List (ℕ × Bytes)) (bytes more : Bytes) (id : ℕ) (offset : ℤ)
    → Written asked bytes id offset
    → Written asked (bytes ++ more) id offset
Written-longer asked bytes more id offset w = record {
  at = w.at;
  is_at = w.is_at;
  value = w.value;
  asked_for = w.asked_for;
  small = w.small;
  inside = omega (arith, w.inside, length-append bytes more);
  there = piece-prefix w.at (length (format id w.value)) bytes more w.inside ∙ w.there;
}

Written-asked :
    (e : ℕ × Bytes) (asked : List (ℕ × Bytes)) (bytes : Bytes) (id : ℕ) (offset : ℤ)
    → Written asked bytes id offset
    → Written (e ∷ asked) bytes id offset
Written-asked e asked bytes id offset w = record {
  at = w.at;
  is_at = w.is_at;
  value = w.value;
  asked_for = mem-cons_of_mem e w.asked_for;
  small = w.small;
  inside = w.inside;
  there = w.there;
}

Written-grows :
    (e : ℕ × Bytes) (asked : List (ℕ × Bytes)) (bytes more : Bytes) (id : ℕ) (offset : ℤ)
    → Written asked bytes id offset
    → Written (e ∷ asked) (bytes ++ more) id offset
Written-grows e asked bytes more id offset w =
    Written-asked e asked (bytes ++ more) id offset (Written-longer asked bytes more id offset w)

-- How a write ends: the stream had failed before, all bytes land, or it fails at a part of them.
pub data WriteEnd (f : OutFile) (text : Bytes) (landed : ℕ) : Type 0 where
  was_failed : f.failed ≡ true → write f text landed ≡ f → WriteEnd f text landed
  whole :
      f.failed ≡ false
      → write f text landed
        ≡ record { bytes = f.bytes ++ text; position = length (f.bytes ++ text); failed = false }
      → WriteEnd f text landed
  cut :
      f.failed ≡ false
      → landed < length text
      → write f text landed
        ≡ record { bytes = f.bytes ++ take landed text; position = f.position; failed = true }
      → WriteEnd f text landed

pub write_end : (f : OutFile) (text : Bytes) (landed : ℕ) → WriteEnd f text landed
unfolding write
write_end f text landed = elim (Bool-cases f.failed) [
  | inl e ↦ was_failed e (rw e refl)
  | inr e ↦ elim (Bool-cases (leb (length text) landed)) [
    | inl all ↦ whole e (rw (e, all) refl)
    | inr part ↦ cut e (ground arith) (rw (e, part) refl)
  ]
]

CutOff-asked :
    (e : ℕ × Bytes) (asked : List (ℕ × Bytes)) (bytes : Bytes) (id : ℕ) (offset : ℤ)
    → CutOff asked bytes id offset
    → CutOff (e ∷ asked) bytes id offset
CutOff-asked e asked bytes id offset c = record {
  at = c.at;
  is_at = c.is_at;
  value = c.value;
  asked_for = mem-cons_of_mem e c.asked_for;
  landed = c.landed;
  cut = c.cut;
  there = c.there;
}

-- What stands at an offset lasts over the next write.
pub Placed-write :
    (e : ℕ × Bytes) (asked : List (ℕ × Bytes)) (f : OutFile) (text : Bytes) (landed : ℕ)
    → (id : ℕ) (offset : ℤ) → Placed asked f id offset
    → Placed (e ∷ asked) (write f text landed) id offset
Placed-write e asked f text landed id offset (inl w) = elim (write_end f text landed) [
  | was_failed b same ↦ rw same (inl (Written-asked e asked f.bytes id offset w))
  | whole b all ↦ rw all (inl (Written-grows e asked f.bytes text id offset w))
  | cut b less part ↦ rw part (inl (Written-grows e asked f.bytes (take landed text) id offset w))
]
Placed-write e asked f text landed id offset (inr (b, lost)) = elim (write_end f text landed) [
  | was_failed b' same ↦ rw same (
      inr (
        b,
        elim lost [
          | inl negative ↦ inl negative
          | inr c ↦ inr (CutOff-asked e asked f.bytes id offset c)
        ],
      ))
  | whole b' all ↦ ground arith
  | cut b' less part ↦ ground arith
]

pub Placed-new :
    (id : ℕ) (value : Bytes) (asked : List (ℕ × Bytes)) (f : OutFile) (landed : ℕ)
    → id < size_t_mod
    → (f.failed ≡ true) ⊎ (f.position ≡ length f.bytes)
    → Placed ((id, value) ∷ asked) (write f (format id value) landed) id (tellp f)
unfolding tellp
Placed-new id value asked f landed small at_end = elim (write_end f (format id value) landed) [
  | was_failed b same ↦ rw (same, b) (inr (refl, inl refl))
  | whole b all ↦ elim at_end [
    | inl b' ↦ ground arith
    | inr e ↦ rw all (
        inl (record {
          at = length f.bytes;
          is_at = rw (b, e) refl;
          value = value;
          asked_for = mem-cons_self;
          small = small;
          inside = omega (arith, length-append f.bytes (format id value));
          there =
              rw (drop-append f.bytes (format id value))
                (take_all (length (format id value)) (format id value) (omega arith));
        }))
  ]
  | cut b less part ↦ elim at_end [
    | inl b' ↦ ground arith
    | inr e ↦ rw part (
        inr (
          refl,
          inr (record {
            at = length f.bytes;
            is_at = rw (b, e) refl;
            value = value;
            asked_for = mem-cons_self;
            landed = landed;
            cut = less;
            there = drop-append f.bytes (take landed (format id value));
          }),
        ))
  ]
]

pub write-at_end :
    (f : OutFile) (text : Bytes) (landed : ℕ)
    → (f.failed ≡ true) ⊎ (f.position ≡ length f.bytes)
    → ((write f text landed).failed ≡ true)
      ⊎ ((write f text landed).position ≡ length (write f text landed).bytes)
write-at_end f text landed h = elim (write_end f text landed) [
  | was_failed b same ↦ rw same (inl b)
  | whole b all ↦ rw all (inr refl)
  | cut b less part ↦ rw part (inl refl)
]
