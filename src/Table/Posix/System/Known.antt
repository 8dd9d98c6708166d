-- ===== src/Table/Posix/System/Known.antt =====
-- What is known of the offsets that the calls carry, and that it lasts.
use mathlib.Core.List.{mem-cons_of_mem}
use go_prep.Base.{ℕ, ◌<◌, refl, List, ◌∷◌, Mem, All, All-map, size_t_mod, arith}
use go_prep.Table.Bytes.{Bytes}
use go_prep.Table.Posix.FileData.{FileData}
use go_prep.Table.Posix.FileData.Laws.{Stored}
use go_prep.Table.Posix.FileData.Append.{Extends, Stored-Extends}
use go_prep.Table.Posix.System.{Op, inserting, appended, finished, querying, fetched}

-- Some record stands at the offset.
abbrev pub Known : List (ℕ × Bytes) → FileData → ℕ → Type 0
Known asked f off = (id : ℕ) × Stored asked f id off

abbrev pub OpKnown : List (ℕ × Bytes) → FileData → Op → Type 0
OpKnown asked f (inserting id text) = Mem (id, text) asked × (id < size_t_mod)
OpKnown asked f (appended id text off) = Stored asked f id off
OpKnown asked f (finished id status) = Unit
OpKnown asked f (querying min_id limit) = Unit
OpKnown asked f (fetched offsets) = All (Known asked f) offsets

-- More may be asked for, and the file may grow.
pub record Later (asked asked' : List (ℕ × Bytes)) (f g : FileData) : Type 0 where
  pub still : (e : ℕ × Bytes) → Mem e asked → Mem e asked'
  extends : Extends f g

Extends-refl : (f : FileData) → Extends f f
Extends-refl f = record { moved = omega arith; kept = λ off n h. refl }

pub Later-asked :
    (e : ℕ × Bytes) (asked : List (ℕ × Bytes)) (f : FileData) → Later asked (e ∷ asked) f f
Later-asked e asked f = record { still = λ d m. mem-cons_of_mem e m; extends = Extends-refl f }

pub Later-file : (asked : List (ℕ × Bytes)) (f g : FileData) → Extends f g → Later asked asked f g
Later-file asked f g e = record { still = λ d m. m; extends = e }

module _ (asked asked' : List (ℕ × Bytes)) (f g : FileData) (l : Later asked asked' f g) where
  pub Stored-Later : (id off : ℕ) → Stored asked f id off → Stored asked' g id off
  Stored-Later id off r =
      let r' = Stored-Extends asked f g id off l.extends r in
      record {
        text = r'.text;
        asked_for = l.still (id, r'.text) r'.asked_for;
        small = r'.small;
        in_front_of_end = r'.in_front_of_end;
        there = r'.there;
      }

  pub Known-Later : (off : ℕ) → Known asked f off → Known asked' g off
  Known-Later off (id, r) = (id, Stored-Later id off r)

  pub OpKnown-Later : (op : Op) → OpKnown asked f op → OpKnown asked' g op
  OpKnown-Later (inserting id text) h = (l.still (id, text) h.0, h.1)
  OpKnown-Later (appended id text off) h = Stored-Later id off h
  OpKnown-Later (finished id status) h = tt
  OpKnown-Later (querying min_id limit) h = tt
  OpKnown-Later (fetched offsets) h = All-map Known-Later offsets h
