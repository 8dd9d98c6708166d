-- ===== src/Table/Posix/Client/Examples.antt =====
-- A run of the demo in which the rows are inserted one after the other.
use go_prep.Base.{
  ℕ, zero, suc, ◌+◌, ◌*◌, ◌/◌, ◌%◌, ◌≤◌, ◌<◌, ◌≡◌, refl, sym, ap, subst, true, false, some, List,
  [], ◌∷◌, ◌++◌, map, length, length-append, take, take_all, drop, size_t_mod, arith, All, All-map,
  range, count_from, ltb, Bool-cases, inl, inr, ◌==◌,
}
use go_prep.Base.Int.{pos}
use go_prep.Table.Bytes.{Bytes, to_string, digits}
use go_prep.Table.Posix.FileData.{line, append, pwrite, open_file}
use go_prep.Table.Posix.FileData.Laws.{length-write_at_most}
use go_prep.Table.Posix.Reader.{Pread, Readable}
use go_prep.Table.Posix.Index.{Index, make_index, enter, leave, append_record, publish, query}
use go_prep.Table.Posix.System.{
  System, after_append, start, insert_enters, appends, publishes, insert_leaves, notify_closers,
  Reach, here, later,
}
use go_prep.Table.Posix.System.Steps.{Reach-Inv}
use go_prep.Table.Posix.System.Quiet.{Among}
use go_prep.Table.Posix.Client.{print_all, row_text, thread_ids, demo_ids}
use go_prep.Table.Posix.Client.Demo.{IsDemoRow, demo-Prints}

-- One insert alone, whose write succeeds.
abbrev entered : Index → Index
entered x = record x { in_flight = x.in_flight + 1 }

abbrev row_line : ℕ → Bytes
row_line id = line id (row_text id)

abbrev written : ℕ → Index → Index
written id x = (append_record id (row_text id) (some (length (row_line id))) (entered x)).1

abbrev listed : ℕ → Index → Index
listed id x = publish id x.file_data.write_offset (written id x)

abbrev after_insert : ℕ → System → System
after_insert id s = record s {
  index = leave (listed id s.index);
  asked = (id, row_text id) ∷ s.asked;
  acknowledged = id ∷ s.acknowledged;
  closers = notify_closers (listed id s.index) s.closers;
}

may_enter : (x : Index) → x.closed ≡ false → enter x ≡ some (entered x)
unfolding enter
may_enter x e = rw e refl

lands :
    (id : ℕ) (x : Index)
    → (append_record id (row_text id) (some (length (row_line id))) (entered x)).0
      ≡ some x.file_data.write_offset
unfolding append_record append
lands id x =
    let whole : (length (row_line id) == length (row_line id)) ≡ true = ground arith in
    rw whole refl

after_insert-Reach :
    (id : ℕ) (s : System)
    → Reach s
    → s.index.closed ≡ false
    → id < size_t_mod
    → length (written id s.index).file_data.bytes < size_t_mod
    → Reach (after_insert id s)
unfolding append_record publish
after_insert-Reach id s r opened small fits =
    let r1 =
      later r (insert_enters id (row_text id) (entered s.index) small (may_enter s.index opened)) in
    let r2 = later r1 (appends [] s.ops id (row_text id) (some (length (row_line id))) refl fits) in
    let r3 = later r2 (
      publishes [] s.ops id (row_text id) s.index.file_data.write_offset
        (ap (λ landed. after_append id (row_text id) landed ∷ s.ops) (lands id s.index))) in
    later r3 (insert_leaves [] s.ops id 0 refl)

-- A row takes at most 46 bytes.
length-digits : (fuel n : ℕ) → length (digits fuel n) ≤ fuel
unfolding digits
length-digits zero n = omega arith
length-digits (suc fuel) n = elim (Bool-cases (ltb n 10)) [
  | inl e ↦ rw e (omega arith)
  | inr e ↦ rw e (
      omega (
        arith,
        length-digits fuel (n / 10),
        length-append (digits fuel (n / 10)) ((n % 10 + b'0') ∷ []),
      ))
]

length-row_line : (id : ℕ) → length (row_line id) ≤ 46
unfolding line row_text to_string
length-row_line id = omega (
  arith,
  length-digits 20 id,
  length-append (digits 20 id) (b' ' ∷ (row_text id ++ b'\n' ∷ [])),
  length-append (digits 20 id) (b'\n' ∷ []),
)

length-written :
    (id : ℕ) (s : System)
    → Reach s
    → length (written id s.index).file_data.bytes ≤ length s.index.file_data.bytes + 46
unfolding append_record append pwrite
length-written id s r =
    let f = s.index.file_data in
    let whole : take (length (row_line id)) (row_line id) ≡ row_line id =
      take_all (length (row_line id)) (row_line id) (omega arith) in
    let test : (length (row_line id) == length (row_line id)) ≡ true = ground arith in
    rw (test, whole)
      (omega (
        arith,
        length-row_line id,
        length-write_at_most f.bytes f.write_offset (row_line id) (Reach-Inv r).sound.inside,
      ))

inserted : List ℕ → System
inserted [] = start
inserted (id ∷ ids) = after_insert id (inserted ids)

record Inserted (ids : List ℕ) (s : System) : Type 0 where
  reach : Reach s
  quiet : s.ops ≡ []
  opened : s.index.closed ≡ false
  short : length s.index.file_data.bytes ≤ length ids * 46
  rows : All IsDemoRow s.asked
  all : s.acknowledged ≡ ids

inserted-Inserted :
    (ids : List ℕ) → All (λ id. id < 20) ids → length ids ≤ 20 → Inserted ids (inserted ids)
unfolding inserted start make_index open_file leave publish append_record append pwrite
inserted-Inserted [] small few = record {
  reach = here;
  quiet = refl;
  opened = refl;
  short = omega arith;
  rows = tt;
  all = refl;
}
inserted-Inserted (id ∷ ids) small few =
    let v = inserted-Inserted ids small.1 (omega arith) in
    let size = length-written id (inserted ids) v.reach in
    record {
      reach =
          after_insert-Reach id (inserted ids) v.reach v.opened (omega (arith, small.0))
            (omega (arith, size, v.short));
      quiet = v.quiet;
      opened = v.opened;
      short = omega (arith, size, v.short);
      rows = ((small.0, refl), v.rows);
      all = ap (◌∷◌ id) v.all;
    }

-- A call reads all that it is asked for.
abbrev whole_pread : Pread
whole_pread file count at = some (take count (drop at file))

whole_pread-Readable : (file : Bytes) → Readable whole_pread file
whole_pread-Readable file = record { read = λ count at h. (count, refl, omega arith, λ more. h) }

done : System
done = inserted demo_ids

done-Inserted : Inserted demo_ids done
unfolding done demo_ids thread_ids count_from
done-Inserted = inserted-Inserted demo_ids (ground arith) (omega arith)

acknowledged : All (λ id. Among id done.acknowledged) demo_ids
acknowledged =
    subst (λ ids. All (λ id. Among id ids) demo_ids) (sym done-Inserted.all) (all_Among demo_ids)
  where
    all_Among : (ids : List ℕ) → All (λ id. Among id ids) ids
    all_Among [] = tt
    all_Among (id ∷ ids) = (
      ([], ids, refl),
      All-map (λ j (us, vs, at). (id ∷ us, vs, ap (◌∷◌ id) at)) ids (all_Among ids),
    )

demo-Prints_example :
    print_all 13 whole_pread done.index.file_data.bytes (query 7 (pos 100) done.index).0
    ≡ some (map (λ id. record { id = id; text = row_text id }) (range 8 12))
demo-Prints_example =
    demo-Prints done whole_pread done-Inserted.reach done-Inserted.rows done-Inserted.quiet
      done-Inserted.opened (whole_pread-Readable _) acknowledged
