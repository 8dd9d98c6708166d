-- ===== src/Table/Stream/Linear/Replay.antt =====
-- A loop over an iterator gets the rows whose records stand at its offsets, while the file grows.
use go_prep.Base.{
  true, length-map, ℕ, zero, suc, ◌+◌, ◌<◌, ◌≡◌, refl, ap, ◌∙◌, false, some, List, [], ◌∷◌, ◌++◌,
  map, length, get_or, ltb, arith, append_assoc, length-append, All-Mem, lt→ltb,
}
use go_prep.Base.Int.{ℤ, pos}
use go_prep.Table.Bytes.{Bytes}
use go_prep.Table.OrderedMap.{MapOf}
use go_prep.Table.OrderedMap.Aligned.{Aligned, Aligned-map}
use go_prep.Table.Stream.{fresh_iterator, Iterator, next, has_next, read_at}
use go_prep.Table.Stream.Laws.{read_at-format}
use go_prep.Table.Stream.Placed.{Written, Written-longer}
use go_prep.Table.Stream.Linear.{
  Event, inserted, queried, rows_after, rows_behind, show_row, read_all, Explained,
}

-- The file has the record of the row at the offset.
abbrev pub Stands : Bytes → ℕ → Bytes → ℤ → Type 0
Stands bytes id value offset = Written ((id, value) ∷ []) bytes id offset

read_at-Stands :
    (file : Bytes) (id : ℕ) (value : Bytes) (offset : ℤ)
    → Stands file id value offset
    → read_at file offset false ≡ (show_row (id, value), false)
read_at-Stands file id value offset w =
    let own : w.value ≡ value =
      All-Mem (λ e. e.1 ≡ value) (id, w.value) ((id, value) ∷ []) (hlevel) (refl, tt) w.asked_for in
    ap (λ o. read_at file o false) w.is_at
    ∙ read_at-format file w.at id w.value w.small w.there
    ∙ ap (λ v. (show_row (id, v), false)) own

get_or-middle :
    (us : List ℤ) (o : ℤ) (vs : List ℤ) (d : ℤ) → get_or (us ++ o ∷ vs) (length us) d ≡ o
get_or-middle [] o vs d = refl
get_or-middle (u ∷ us) o vs d = get_or-middle us o vs d

abbrev at_position : List ℤ → ℕ → Iterator
at_position offsets n = record { offsets = offsets; current_index = n; failed = false }

next-Stands :
    (file : Bytes) (us : List ℤ) (id : ℕ) (value : Bytes) (o : ℤ) (vs : List ℤ)
    → Stands file id value o
    → next file (at_position (us ++ o ∷ vs) (length us))
      ≡ some (show_row (id, value), at_position (us ++ o ∷ vs) (length us + 1))
unfolding next has_next
next-Stands file us id value o vs w =
    let more : ltb (length us) (length (us ++ o ∷ vs)) ≡ true =
      lt→ltb (length us) (length (us ++ o ∷ vs)) (omega (arith, length-append us (o ∷ vs))) in
    rw (get_or-middle us o vs (pos 0), read_at-Stands file id value o w, more) refl

read_from :
    (file : Bytes) (fuel : ℕ) (us : List ℤ) (entries : MapOf ℤ) (rows : MapOf Bytes)
    → Aligned (Stands file) entries rows
    → length entries < fuel
    → read_all fuel file (at_position (us ++ map (λ e. e.1) entries) (length us))
      ≡ some (map show_row rows)
unfolding read_all has_next
read_from file zero us entries rows a few = absurd (omega arith)
read_from file (suc fuel) us [] [] a few =
    let over : ltb (length us) (length (us ++ [])) ≡ false = ground (arith, length-append us []) in
    rw (read_all, over) refl
read_from file (suc fuel) us [] (d ∷ rows) a few = absurd a
read_from file (suc fuel) us (e ∷ entries) [] a few = absurd a
read_from file (suc fuel) us (e ∷ entries) (d ∷ rows) a few =
    let vs = map (λ c. c.1) entries in
    let more : ltb (length us) (length (us ++ e.1 ∷ vs)) ≡ true =
      lt→ltb (length us) (length (us ++ e.1 ∷ vs)) (omega (arith, length-append us (e.1 ∷ vs))) in
    let rest : read_all fuel file (at_position (us ++ e.1 ∷ vs) (length us + 1))
        ≡ some (map show_row rows) =
      let moved = read_from file fuel (us ++ e.1 ∷ []) entries rows a.2 (omega arith) in
      rw (append_assoc us (e.1 ∷ []) vs, length-append us (e.1 ∷ [])) at moved in
    rw (read_all, more, next-Stands file us d.0 d.1 e.1 vs a.1, rest) refl

-- Each query of the sequence found the rows of the table.
pub record Found (file : Bytes) (offsets : List ℤ) (rows : MapOf Bytes) : Type 0 where
  pub entries : MapOf ℤ
  pub own : offsets ≡ map (λ e. e.1) entries
  pub aligned : Aligned (Stands file) entries rows

abbrev pub Accounted : Bytes → List Event → Type 0
Accounted file [] = Unit
Accounted file (inserted id value ∷ es) = Accounted file es
Accounted file (queried min_id limit offsets ∷ es) =
    Found file offsets (rows_behind min_id limit (rows_after es)) × Accounted file es

pub Aligned-longer :
    (file more : Bytes) (m : MapOf ℤ) (t : MapOf Bytes)
    → Aligned (Stands file) m t
    → Aligned (Stands (file ++ more)) m t
Aligned-longer file more m t a =
    Aligned-map (Stands file) (Stands (file ++ more))
      (λ id value o w. Written-longer ((id, value) ∷ []) file more id o w) m t a

pub Accounted-longer :
    (file more : Bytes) (es : List Event) → Accounted file es → Accounted (file ++ more) es
Accounted-longer file more [] h = tt
Accounted-longer file more (inserted id value ∷ es) h = Accounted-longer file more es h
Accounted-longer file more (queried min_id limit offsets ∷ es) h = (
  record {
    entries = h.0.entries;
    own = h.0.own;
    aligned = Aligned-longer file more h.0.entries _ h.0.aligned;
  },
  Accounted-longer file more es h.1,
)

read_all-Found :
    (file : Bytes) (offsets : List ℤ) (rows : MapOf Bytes)
    → Found file offsets rows
    → read_all (suc (length offsets)) file (fresh_iterator offsets) ≡ some (map show_row rows)
read_all-Found file offsets rows h = rw h.own (
    read_from file (suc (length (map (λ e. e.1) h.entries))) [] h.entries rows h.aligned
      (omega (arith, length-map (λ e. e.1) h.entries)))

pub Accounted-Explained : (file : Bytes) (es : List Event) → Accounted file es → Explained file es
Accounted-Explained file [] h = tt
Accounted-Explained file (inserted id value ∷ es) h = Accounted-Explained file es h
Accounted-Explained file (queried min_id limit offsets ∷ es) h =
    (read_all-Found file offsets _ h.0, Accounted-Explained file es h.1)
