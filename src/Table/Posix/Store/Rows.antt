-- ===== src/Table/Posix/Store/Rows.antt =====
-- When the index has the rows of a table.
use go_prep.Base.{ℕ, ◌≡◌, refl, sym, List, [], ◌∷◌, map, All-Mem, arith}
use go_prep.Table.Bytes.{Bytes}
use go_prep.Table.OrderedMap.{Map, MapOf}
use go_prep.Table.OrderedMap.Aligned.{Aligned, Aligned-map}
use go_prep.Table.Posix.FileData.{FileData}
use go_prep.Table.Posix.FileData.Laws.{Stored, read_record_at-Stored}
use go_prep.Table.Posix.FileData.Append.{IsSound, Extends, Stored-Extends}
use go_prep.Table.Posix.Reader.{Pread, Readable}
use go_prep.Table.Posix.Index.Queries.{offsets_of}
use go_prep.Table.Posix.Client.Prints.{Reads}
use go_prep.Table.Posix.Store.{show_row}

-- The file has the record of the row at the offset: one that was asked for, and nothing else was.
abbrev pub Holds : FileData → ℕ → Bytes → ℕ → Type 0
Holds f id text off = Stored ((id, text) ∷ []) f id off

pub Aligned-Extends :
    (f g : FileData) (m : Map) (t : MapOf Bytes)
    → Extends f g
    → Aligned (Holds f) m t
    → Aligned (Holds g) m t
Aligned-Extends f g m t e a =
    Aligned-map (Holds f) (Holds g)
      (λ id text off h. Stored-Extends ((id, text) ∷ []) f g id off e h) m t a

-- At the offsets of a map the rows of the table are read.
pub Aligned-Reads :
    (pread : Pread) (f : FileData) (m : Map) (t : MapOf Bytes)
    → Readable pread f.bytes
    → IsSound f
    → Aligned (Holds f) m t
    → Reads pread f.bytes (offsets_of m) (map show_row t)
Aligned-Reads pread f [] [] readable sound a = tt
Aligned-Reads pread f [] (d ∷ t) readable sound a = absurd a
Aligned-Reads pread f (c ∷ m) [] readable sound a = absurd a
Aligned-Reads pread f (c ∷ m) (d ∷ t) readable sound a =
    let asked : List (ℕ × Bytes) = (d.0, d.1) ∷ [] in
    let text : a.1.text ≡ d.1 =
      All-Mem (λ e. e.1 ≡ d.1) (d.0, a.1.text) asked (hlevel) (refl, tt) a.1.asked_for in
    (
      rw (sym text) (
          read_record_at-Stored pread asked f d.0 c.1 readable sound.fits
            (omega (arith, a.1.in_front_of_end, sound.inside, sound.fits)) a.1),
      Aligned-Reads pread f m t readable sound a.2,
    )
