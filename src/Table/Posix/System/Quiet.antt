-- ===== src/Table/Posix/System/Quiet.antt =====
-- What a query answers while no call is in progress.
use go_prep.Base.{
  ℕ, ◌≤◌, ◌<◌, ◌≡◌, ap, ◌∙◌, subst, Bool, true, List, [], ◌∷◌, ◌++◌, length, arith, inl, inr, Mem,
  All, All-select, All-at, Bool-cases, ◌==◌, ==_iff, ltb, lt→ltb, ltb→lt, select, take, take_all,
  total,
}
use go_prep.Base.Int.{ℤ, pos_part}
use go_prep.Table.Bytes.{Bytes}
use go_prep.Table.OrderedMap.{Map, Ordered, lookup-select}
use go_prep.Table.Posix.FileData.Laws.{Stored, first_line, read_record_at-Stored}
use go_prep.Table.Posix.Reader.{Pread, Readable, read_record_at, filled}
use go_prep.Table.Posix.Index.{find_offsets}
use go_prep.Table.Posix.Index.Queries.{find_offsets-select, offsets_of}
use go_prep.Table.Posix.System.{System, Reach}
use go_prep.Table.Posix.System.Steps.{Reach-Inv}
use go_prep.Table.Posix.System.Visible.{Present, Reach-Visible, select-length}
use go_prep.Table.Posix.System.Credit.{same, listed, credit, Credited, Reach-CreditOk}

-- The id stands in the list.
abbrev pub Among : ℕ → List ℕ → Type 0
Among id ids = (us : List ℕ) × (vs : List ℕ) × (ids ≡ us ++ id ∷ vs)

same-Among : (id : ℕ) (ids : List ℕ) → 0 < total (same id) ids → Among id ids
same-Among id [] h = absurd (omega arith)
same-Among id (j ∷ ids) h = elim (Bool-cases (j == id)) [
  | inl e ↦ ([], ids, ap (λ k. k ∷ ids) ((==_iff j id).0 e))
  | inr e ↦ let (us, vs, at) = same-Among id ids (ground arith) in (j ∷ us, vs, ap (◌∷◌ j) at)
]

select-Ordered : (p : ℕ → Bool) (m : Map) → Ordered m → Ordered (select (λ e. p e.0) m)
select-Ordered p [] h = tt
select-Ordered p (e ∷ m) h = elim (Bool-cases (p e.0)) [
  | inl passes ↦
      rw passes (All-select (λ e'. e.0 < e'.0) (λ d. p d.0) m h.0, select-Ordered p m h.1)
  | inr fails ↦ rw fails (select-Ordered p m h.1)
]

select-passes : (p : ℕ → Bool) (m : Map) → All (λ e. p e.0 ≡ true) (select (λ e. p e.0) m)
select-passes p [] = tt
select-passes p (e ∷ m) = elim (Bool-cases (p e.0)) [
  | inl passes ↦ rw passes (passes, select-passes p m)
  | inr fails ↦ rw fails (select-passes p m)
]

-- What is found at an entry: an acknowledged id above the bound, and a record of it that reads back.
pub record IsAnswer (s : System) (pread : Pread) (min_id : ℕ) (e : ℕ × ℕ) : Type 0 where
  pub above : min_id < e.0
  pub was_acknowledged : Among e.0 s.acknowledged
  pub text : Bytes
  pub was_asked : Mem (e.0, text) s.asked
  pub reads :
      read_record_at pread s.index.file_data.bytes e.1
      ≡ filled (record { id = e.0; text = first_line text })

module _ (s : System) (pread : Pread) (r : Reach s) (quiet : s.ops ≡ [])
    (readable : Readable pread s.index.file_data.bytes) where
  entry-IsAnswer :
      (min_id : ℕ) (e : ℕ × ℕ)
      → Stored s.asked s.index.file_data e.0 e.1
      → 0 < credit s.ops s.acknowledged e.0
      → ltb min_id e.0 ≡ true
      → IsAnswer s pread min_id e
  entry-IsAnswer min_id e stored c h =
      let v = Reach-Inv r in
      let none_left : total (listed e.0) s.ops ≡ 0 = ap (total (listed e.0)) quiet in
      record {
        above = ltb→lt min_id e.0 h;
        was_acknowledged = same-Among e.0 s.acknowledged (omega arith);
        text = stored.text;
        was_asked = stored.asked_for;
        reads =
            read_record_at-Stored pread s.asked s.index.file_data e.0 e.1 readable v.sound.fits
              (omega (arith, stored.in_front_of_end, v.sound.inside, v.sound.fits)) stored;
      }

  entries-IsAnswer :
      (min_id : ℕ) (m : Map)
      → All (λ e. Stored s.asked s.index.file_data e.0 e.1) m
      → Credited s.ops s.acknowledged m
      → All (IsAnswer s pread min_id) (select (λ e. ltb min_id e.0) m)
  entries-IsAnswer min_id [] known c = tt
  entries-IsAnswer min_id (e ∷ m) known c = elim (Bool-cases (ltb min_id e.0)) [
    | inl passes ↦
        rw passes
          (entry-IsAnswer min_id e known.0 c.0 passes, entries-IsAnswer min_id m known.1 c.1)
    | inr fails ↦ rw fails (entries-IsAnswer min_id m known.1 c.1)
  ]

  -- Whatever calls ran before, in whatever order: while none is in progress, a query with room for
  -- all entries finds, in ascending order of the ids and each once, the offsets of exactly the ids
  -- above its bound for which an insert has returned 0; and at each of them stands a record of that
  -- id that `Insert` was called with, which is read back up to the first newline of its text.
  pub quiet-Answers :
      (min_id : ℕ) (limit : ℤ)
      → length s.index.index_map ≤ pos_part limit
      → (found : Map) × (find_offsets min_id limit s.index ≡ offsets_of found)
        × Ordered found
        × All (IsAnswer s pread min_id) found
        × ((id : ℕ)
            → Among id s.acknowledged
            → min_id < id
            → (off : ℕ) × (us : Map) × (vs : Map) × (found ≡ us ++ (id, off) ∷ vs))
  quiet-Answers min_id limit room =
      let v = Reach-Inv r in
      let m = s.index.index_map in
      let passing = select (λ d. ltb min_id d.0) m in
      let whole : take (pos_part limit) passing ≡ passing =
        take_all (pos_part limit) passing
          (omega (arith, room, select-length (λ d. ltb min_id d.0) m)) in
      (
        passing,
        find_offsets-select min_id limit s.index v.ordered ∙ ap offsets_of whole,
        select-Ordered (λ j. ltb min_id j) m v.ordered,
        entries-IsAnswer min_id m v.published (Reach-CreditOk r),
        λ id (us, vs, at) less. acknowledged_entry min_id id us vs at less,
      )
    where
      acknowledged_entry :
          (min_id id : ℕ) (us vs : List ℕ)
          → s.acknowledged ≡ us ++ id ∷ vs
          → min_id < id
          → (off : ℕ) × (xs : Map) × (ys : Map) × (select (λ d. ltb min_id d.0) s.index.index_map
              ≡ xs ++ (id, off) ∷ ys)
      acknowledged_entry min_id id us vs at less =
          let m = s.index.index_map in
          let (off, e) =
            All-at (Present m) us id vs
              (subst (All (Present m)) at (Reach-Visible r).returned_to) in
          let (xs, ys, split) =
            lookup-select (λ j. ltb min_id j) id off m (lt→ltb min_id id less) e in
          (off, xs, ys, split)
