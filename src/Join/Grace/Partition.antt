-- ===== src/Join/Grace/Partition.antt =====
-- What each partition holds, and why joining them one by one is the join of the whole.
use mathlib.Core.List.{flat_map}
use mathlib.Core.List.Perm
use go_prep.Base.{
  ℕ, ◌%◌, ◌<◌, ◌≡◌, refl, sym, ap, ◌∙◌, Bool, true, inl, inr, List, [], ◌∷◌, ◌++◌, map,
  select-append, append-nil, append_assoc, some, Perm, arith, if◌then◌else◌, ◌==◌, Bool-cases,
  ==_iff, length, push_back, get_or, set, replicate, select, get_or-set, get_or-replicate,
  length-set, length-replicate, range, flat_map-append_pointwise, flat_map-nil,
  flat_map-range_single, perm_of_eq, fun_ext,
}
use go_prep.Base.Int.{ℤ, eqb_ℤ→eq}
use go_prep.Join.Row.{Row, JoinedRow, joined, same_key, matches, theta_join, theta_join-cons_left}
use go_prep.Join.Grace.{partition_row, partition_loop, partition_rows}

module _ (hash : ℤ → ℕ) (n : ℕ) (positive : 0 < n) where
  -- The rows that go to partition `p`.
  abbrev pub belongs : ℕ → Row → Bool
  belongs p row = hash row.key % n == p

  index_lt : (row : Row) → hash row.key % n < n
  index_lt row = grind arith

  written :
      (ps : List (List Row)) (row : Row) (q : ℕ)
      → (if hash row.key % n == q
          then push_back (get_or ps (hash row.key % n) []) row
          else get_or ps q [])
        ≡ get_or ps q [] ++ select (belongs q) (row ∷ [])
  written ps row q = elim (Bool-cases (hash row.key % n == q)) [
    | inl e ↦ rw (e, (==_iff (hash row.key % n) q).0 e)
    | inr e ↦ rw e (sym (append-nil (get_or ps q [])))
  ]

  partition_row_lem :
      (row : Row) (ps : List (List Row))
      → length ps ≡ n
      → (qs : List (List Row)) × (partition_row hash n row ps ≡ some qs)
        × (length qs ≡ n)
        × ((p : ℕ) → get_or qs p [] ≡ get_or ps p [] ++ select (belongs p) (row ∷ []))
  unfolding partition_row
  partition_row_lem row ps h =
      let p = hash row.key % n in
      (
        set ps p (push_back (get_or ps p []) row),
        ground arith,
        length-set ps p _ ∙ h,
        λ q.
            get_or-set ps p q (push_back (get_or ps p []) row) [] (omega (arith, index_lt row))
            ∙ written ps row q,
      )

  partition_loop_lem :
      (rows : List Row) (ps : List (List Row))
      → length ps ≡ n
      → (qs : List (List Row)) × (partition_loop hash n rows ps ≡ some qs)
        × ((p : ℕ) → get_or qs p [] ≡ get_or ps p [] ++ select (belongs p) rows)
  unfolding partition_loop
  partition_loop_lem [] ps h = (ps, refl, λ p. sym (append-nil _))
  partition_loop_lem (row ∷ rows) ps h =
      let (next, e, len, holds) = partition_row_lem row ps h in
      let (qs, f, rest) = partition_loop_lem rows next len in
      (
        qs,
        rw e f,
        λ p.
            rest p
            ∙ (rw (holds p, append_assoc (get_or ps p []))
                (sym (ap (◌++◌ (get_or ps p [])) (select-append (belongs p) (row ∷ []) rows)))),
      )

  -- With at least one partition, partition `p` holds the rows whose hash is `p`, in their order.
  pub partition_rows_lem :
      (rows : List Row)
      → (ps : List (List Row)) × (partition_rows hash rows n ≡ some ps)
        × ((p : ℕ) → get_or ps p [] ≡ select (belongs p) rows)
  unfolding partition_rows
  partition_rows_lem rows =
      let (ps, e, holds) = partition_loop_lem rows (replicate n []) (length-replicate n []) in
      (ps, e, λ p. holds p ∙ ap (λ xs. xs ++ select (belongs p) rows) (get_or-replicate n p []))

  -- Rows with the same key are in the same partition.
  select-belongs :
      (r : Row) (p : ℕ)
      → belongs p r ≡ true
      → (rows : List Row) → select (same_key r) (select (belongs p) rows) ≡ select (same_key r) rows
  select-belongs r p h [] = refl
  select-belongs r p h (s ∷ rows) = ground (arith, select-belongs r p h rows, eqb_ℤ→eq r.key s.key)

  abbrev pub part_join : List Row → List Row → ℕ → List JoinedRow
  part_join left right p = theta_join same_key (select (belongs p) left) (select (belongs p) right)

  -- A left row meets its partners in its own partition.
  part_join-cons :
      (r : Row) (left right : List Row) (p : ℕ)
      → part_join (r ∷ left) right p
        ≡ (if hash r.key % n == p then matches same_key r right else []) ++ part_join left right p
  part_join-cons r left right p = elim (Bool-cases (hash r.key % n == p)) [
    | inl e ↦ rw e (
        theta_join-cons_left same_key r (select (belongs p) left) (select (belongs p) right)
        ∙ ap (λ ss. map (joined r) ss ++ part_join left right p) (select-belongs r p e right))
    | inr e ↦ rw e
  ]

  -- The joins of the partitions make up the join of the whole.
  pub partitions-perm :
      (left right : List Row)
      → Perm (flat_map (part_join left right) (range 0 n)) (theta_join same_key left right)
  unfolding theta_join flat_map
  partitions-perm [] right = perm_of_eq (flat_map-nil (part_join [] right) (range 0 n) λ p. refl)
  partitions-perm (r ∷ left) right =
      Perm.trans
        (perm_of_eq (ap (λ f. flat_map f (range 0 n)) (fun_ext (part_join-cons r left right))))
        (Perm.trans (flat_map-append_pointwise _ (part_join left right) (range 0 n)) (
          rw
            (
              flat_map-range_single (matches same_key r right) (hash r.key % n) n 0 (omega arith)
                  (omega (arith, index_lt r)),
              theta_join-cons_left same_key r left right,
            )
            (Perm.append_left (matches same_key r right) (partitions-perm left right))))
