-- ===== src/Table/Posix/Client/Prints.antt =====
-- What the client prints.
use go_prep.Base.{
  length-map, All-Mem, ℕ, zero, suc, ◌+◌, ◌≤◌, ◌<◌, ◌≡◌, refl, sym, ap, ◌∙◌, subst, false, some,
  List, [], ◌∷◌, ◌++◌, map, length, drop, get_or, arith, ◌⊎◌, inl, inr, All, All-map, ltb, lt→ltb,
}
use go_prep.Base.Int.{ℤ, pos_part}
use go_prep.Table.Bytes.{Bytes}
use go_prep.Table.OrderedMap.{Map, Ordered}
use go_prep.Table.Posix.FileData.Laws.{first_line}
use go_prep.Table.Posix.Reader.{Pread, Readable, Record, read_record_at, filled}
use go_prep.Table.Posix.Index.{Iterator, iterator, has_next, next, enter, find_offsets, query}
use go_prep.Table.Posix.Index.Queries.{offsets_of}
use go_prep.Table.Posix.System.{System, Reach}
use go_prep.Table.Posix.System.Quiet.{Among, IsAnswer, quiet-Answers}
use go_prep.Table.Posix.Client.{print_all}

drop-cases :
    (xs : List ℕ) (n : ℕ)
    → ((length xs ≤ n) × (drop n xs ≡ []))
      ⊎ ((n < length xs) × (drop n xs ≡ get_or xs n 0 ∷ drop (suc n) xs))
drop-cases [] zero = inl (omega arith, refl)
drop-cases [] (suc n) = inl (omega arith, refl)
drop-cases (x ∷ xs) zero = inr (omega arith, refl)
drop-cases (x ∷ xs) (suc n) = elim (drop-cases xs n) [
  | inl (h, e) ↦ inl (omega arith, e)
  | inr (h, e) ↦ inr (omega arith, e)
]

module _ (pread : Pread) (file : Bytes) where
  -- At each offset stands the record.
  abbrev pub Reads : List ℕ → List Record → Type 0
  Reads [] [] = Unit
  Reads (o ∷ os) (r ∷ rs) = (read_record_at pread file o ≡ filled r) × Reads os rs
  Reads os rs = ⊥

  pub print_all-Reads :
      (fuel : ℕ) (i : Iterator) (rs : List Record)
      → i.closed ≡ false
      → Reads (drop i.cursor i.file_offsets) rs
      → length rs < fuel
      → print_all fuel pread file i ≡ some rs
  unfolding print_all has_next next
  print_all-Reads zero i rs opened h few = absurd (omega arith)
  print_all-Reads (suc fuel) i [] opened h few = elim (drop-cases i.file_offsets i.cursor) [
    | inl (at_end, e) ↦
        let over : ltb i.cursor (length i.file_offsets) ≡ false = ground arith in
        rw (print_all, opened, over) refl
    | inr (more, e) ↦ absurd (subst (λ os. Reads os []) e h)
  ]
  print_all-Reads (suc fuel) i (r ∷ rs) opened h few = elim (drop-cases i.file_offsets i.cursor) [
    | inl (at_end, e) ↦ absurd (subst (λ os. Reads os (r ∷ rs)) e h)
    | inr (more, e) ↦
        let h' = subst (λ os. Reads os (r ∷ rs)) e h in
        let moved : suc i.cursor ≡ i.cursor + 1 = omega arith in
        let rest =
          print_all-Reads fuel
            (record { file_offsets = i.file_offsets; cursor = i.cursor + 1; closed = false }) rs
            refl (subst (λ n. Reads (drop n i.file_offsets) rs) moved h'.1) (omega arith) in
        rw (print_all, opened, lt→ltb i.cursor (length i.file_offsets) more, h'.0, rest) refl
  ]

-- The line that is printed for an id, where one text belongs to each id.
abbrev pub shown : (ℕ → Bytes) → ℕ → Record
shown text_of id = record { id = id; text = first_line (text_of id) }

abbrev pub OwnText : (ℕ → Bytes) → ℕ × Bytes → Type 0
OwnText text_of e = e.1 ≡ text_of e.0

abbrev pub Ascending : List ℕ → Type 0
Ascending [] = Unit
Ascending (x ∷ xs) = All (λ y. x < y) xs × Ascending xs

ids_of : Map → List ℕ
ids_of m = map (λ e. e.0) m

All-ids_of {ℓ} : (P : ℕ → Type ℓ) (m : Map) → All (λ e. P e.0) m → All P (ids_of m)
unfolding ids_of
All-ids_of P [] h = tt
All-ids_of P (e ∷ m) h = (h.0, All-ids_of P m h.1)

ids_of-Ascending : (m : Map) → Ordered m → Ascending (ids_of m)
unfolding ids_of
ids_of-Ascending [] h = tt
ids_of-Ascending (e ∷ m) h = (All-ids_of (λ y. e.0 < y) m h.0, ids_of-Ascending m h.1)

ids_of-middle :
    (us : Map) (e : ℕ × ℕ) (vs : Map) → ids_of (us ++ e ∷ vs) ≡ ids_of us ++ e.0 ∷ ids_of vs
unfolding ids_of
ids_of-middle [] e vs = refl
ids_of-middle (u ∷ us) e vs = ap (◌∷◌ u.0) (ids_of-middle us e vs)

module _ (s : System) (pread : Pread) (text_of : ℕ → Bytes) (r : Reach s) (quiet : s.ops ≡ [])
    (readable : Readable pread s.index.file_data.bytes) (own : All (OwnText text_of) s.asked) where
  answers-Reads :
      (min_id : ℕ) (found : Map)
      → All (IsAnswer s pread min_id) found
      → Reads pread s.index.file_data.bytes (offsets_of found) (map (shown text_of) (ids_of found))
  unfolding ids_of
  answers-Reads min_id [] all = tt
  answers-Reads min_id (e ∷ found) all =
      let same = All-Mem (OwnText text_of) (e.0, all.0.text) s.asked (hlevel) own all.0.was_asked in
      (rw (sym same) all.0.reads, answers-Reads min_id found all.1)

  query-offsets :
      (min_id : ℕ) (limit : ℤ)
      → s.index.closed ≡ false
      → (query min_id limit s.index).0 ≡ iterator (find_offsets min_id limit s.index)
  unfolding query enter find_offsets
  query-offsets min_id limit opened = rw opened refl

  -- After calls of `Insert` with one text for each id, in whatever order they ran: while no call is
  -- in progress and the index is open, the loop over the iterator of a query with room for all
  -- entries ends, and prints the ids above the bound for which an insert has returned 0, exactly
  -- these, in ascending order, each with its text up to the first newline.
  pub print_all-acknowledged :
      (min_id : ℕ) (limit : ℤ)
      → s.index.closed ≡ false
      → length s.index.index_map ≤ pos_part limit
      → (ids : List ℕ) × Ascending ids
        × All (λ id. Among id s.acknowledged × (min_id < id)) ids
        × ((id : ℕ) → Among id s.acknowledged → min_id < id → Among id ids)
        × ((fuel : ℕ)
            → length ids < fuel
            → print_all fuel pread s.index.file_data.bytes (query min_id limit s.index).0
              ≡ some (map (shown text_of) ids))
  unfolding iterator ids_of
  print_all-acknowledged min_id limit opened room =
      let (found, offsets, ordered, all, covers) =
        quiet-Answers s pread r quiet readable min_id limit room in
      let file = s.index.file_data.bytes in
      let i = query-offsets min_id limit opened ∙ ap iterator offsets in
      (
        ids_of found,
        ids_of-Ascending found ordered,
        All-ids_of (λ id. Among id s.acknowledged × (min_id < id)) found
            (All-map (λ e h. (h.was_acknowledged, h.above)) found all),
        λ id among above.
            let (off, us, vs, at) = covers id among above in
            (ids_of us, ids_of vs, ap ids_of at ∙ ids_of-middle us (id, off) vs),
        λ fuel few. rw i (
            offsets-print fuel (offsets_of found) (map (shown text_of) (ids_of found))
              (answers-Reads min_id found all)
              (omega (arith, length-map (shown text_of) (ids_of found)))),
      )
    where
      offsets-print :
          (fuel : ℕ) (os : List ℕ) (rs : List Record)
          → Reads pread s.index.file_data.bytes os rs
          → length rs < fuel
          → print_all fuel pread s.index.file_data.bytes (iterator os) ≡ some rs
      offsets-print fuel os rs h few =
          print_all-Reads pread s.index.file_data.bytes fuel (iterator os) rs refl h few
