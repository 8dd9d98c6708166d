-- ===== src/Table/Posix/Store/Queries.antt =====
-- A query of the index gives what the table says, and `Close` closes both.
use go_prep.Base.{
  length-map, ℕ, suc, ◌≡◌, refl, sym, ap, ◌∙◌, Bool, true, false, List, [], map, ltb, ◌==◌, length,
  arith, inl, inr, take, select, Bool-cases,
}
use go_prep.Base.Int.{ℤ, pos_part}
use go_prep.Table.Posix.Reader.{Pread, Readable, Record}
use go_prep.Table.Posix.Index.{Index, leave, find_offsets, iterator, query, close, is_idle}
use go_prep.Table.Posix.Index.Queries.{offsets_of, find_offsets-select}
use go_prep.Table.Posix.Client.Prints.{Reads, print_all-Reads}
use go_prep.Table.Posix.Store.{queries, closes, status, records, serve, Store, show_row, answer}
use go_prep.Table.Posix.Store.Rows.{Holds, Aligned-Reads}
use go_prep.Table.OrderedMap.Aligned.{Aligned-select, Aligned-take, Aligned-length}
use go_prep.Table.Posix.Store.Refines.{
  Refines, Agree, agrees, if_true, if_false, entered, enter-closed, enter-opened,
}

query-closed :
    (min_id : ℕ) (limit : ℤ) (x : Index) → x.closed ≡ true → query min_id limit x ≡ (iterator [], x)
unfolding query
query-closed min_id limit x c = rw (enter-closed x c, query) refl

query-opened :
    (min_id : ℕ) (limit : ℤ) (x : Index)
    → x.closed ≡ false
    → query min_id limit x ≡ (iterator (find_offsets min_id limit x), leave (entered x))
unfolding query find_offsets
query-opened min_id limit x o = rw (enter-opened x o, query) refl

-- A loop over the iterator gets the records that stand at its offsets.
served :
    (pread : Pread) (min_id : ℕ) (limit : ℤ) (x y : Index) (offsets : List ℕ) (rs : List Record)
    → query min_id limit x ≡ (iterator offsets, y)
    → Reads pread x.file_data.bytes offsets rs
    → length rs ≡ length offsets
    → serve pread (queries min_id limit) x ≡ (records rs, y)
unfolding serve iterator
served pread min_id limit x y offsets rs e h same =
    let printed =
      print_all-Reads pread x.file_data.bytes (suc (length offsets)) (iterator offsets) rs refl h
        (omega arith) in
    rw (e, serve, printed) refl

module _ (pread : Pread) (x : Index) (t : Store) (v : Refines x t) where
  pub queries-Agree :
      (min_id : ℕ) (limit : ℤ)
      → Readable pread x.file_data.bytes
      → Agree pread (queries min_id limit) x t
  unfolding answer leave
  queries-Agree min_id limit readable = elim (Bool-cases x.closed) [
    | inl c ↦
        agrees pread (queries min_id limit) x x t t (records [])
          (served pread min_id limit x x [] [] (query-closed min_id limit x c) tt refl)
          (if_true t.closed _ _ (sym v.same_closed ∙ c)) v
    | inr o ↦
        let p : ℕ → Bool = λ id. ltb min_id id in
        let found = take (pos_part limit) (select (λ e. p e.0) x.index_map) in
        let rows = take (pos_part limit) (select (λ e. p e.0) t.rows) in
        let lined =
          Aligned-take (Holds x.file_data) (pos_part limit) (select (λ e. p e.0) x.index_map)
            (select (λ e. p e.0) t.rows)
            (Aligned-select (Holds x.file_data) p x.index_map t.rows v.aligned) in
        let asked =
          query-opened min_id limit x o
          ∙ ap (λ os. (iterator os, leave (entered x)))
              (find_offsets-select min_id limit x v.ordered) in
        let same : length (map show_row rows) ≡ length (offsets_of found) =
          length-map show_row rows
          ∙ sym (Aligned-length (Holds x.file_data) found rows lined)
          ∙ sym (length-map (λ e. e.1) found) in
        agrees pread (queries min_id limit) x (leave (entered x)) t t (records (map show_row rows))
          (served pread min_id limit x (leave (entered x)) (offsets_of found) (map show_row rows)
            asked (Aligned-Reads pread x.file_data found rows readable v.sound lined) same)
          (if_false t.closed _ _ (sym v.same_closed ∙ o))
          (record {
            sound = v.sound;
            ordered = v.ordered;
            aligned = v.aligned;
            same_closed = v.same_closed;
            idle = omega (arith, v.idle);
          })
  ]

  pub closes-Agree : Agree pread closes x t
  unfolding serve answer is_idle close
  closes-Agree =
      let idle : (x.in_flight == 0) ≡ true = ground (arith, v.idle) in
      agrees pread closes x (close x) t (record t { closed = true }) (status 0)
        (ap (λ r. (r, close x)) (if_true (x.in_flight == 0) _ _ idle)) refl
        (record {
          sound = v.sound;
          ordered = v.ordered;
          aligned = v.aligned;
          same_closed = refl;
          idle = v.idle;
        })
