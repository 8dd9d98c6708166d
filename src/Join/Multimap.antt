-- ===== src/Join/Multimap.antt =====
-- `std::unordered_multimap<int, Row>` as the joins use it. The standard does not fix the order of
-- the rows in a range, so the joins take the table as an interface, whose laws are what it does fix.
use mathlib.Core.List.{flat_map}
use mathlib.Core.List.Perm
use go_prep.Base.{
  ◌≡◌, ◌≢◌, List, [], ◌∷◌, ◌++◌, map, append-nil, Perm, arith, inl, inr, Bool-cases, push_back,
  select, for_each, for_each-append, for_each-push, flat_map_congr,
}
use go_prep.Base.Int.{ℤ, eqb_ℤ, eqb_ℤ→eq}
use go_prep.Join.Row.{Row, JoinedRow, joined, same_key, theta_join}
use mathlib.Core.List.{perm_middle}

pub record UnorderedMultimap : Type 1 where
  pub Map : Type 0
  pub empty : Map
  pub emplace : Map → ℤ → Row → Map
  -- The rows from `range.first` up to `range.second`.
  pub equal_range : Map → ℤ → List Row
  pub equal_range-empty : (k : ℤ) → equal_range empty k ≡ []
  pub equal_range-emplace_same :
      (m : Map) (k : ℤ) (row : Row) → Perm (equal_range (emplace m k row) k) (row ∷ equal_range m k)
  pub equal_range-emplace_other :
      (m : Map) (j k : ℤ) (row : Row)
      → j ≢ k
      → Perm (equal_range (emplace m k row) j) (equal_range m j)

module _ (t : UnorderedMultimap) where
  open t use {Map, empty, emplace, equal_range}

  -- `for (const auto& row : rows) table.emplace(row.key, row);`
  unfoldable pub build : List Row → Map → Map
  build rows table = for_each rows (λ row m. emplace m row.key row) table

  -- The loop over the probing rows, with the loop over each range inside.
  unfoldable pub probe : List Row → Map → List JoinedRow → List JoinedRow
  probe rows table result =
      for_each rows (λ r. for_each (equal_range table r.key) λ s res. push_back res (joined r s))
        result

  emplace-equal_range :
      (m : Map) (k : ℤ) (row : Row)
      → Perm
          (equal_range (emplace m row.key row) k)
          (select (λ s. eqb_ℤ k s.key) (row ∷ []) ++ equal_range m k)
  emplace-equal_range m k row = elim (Bool-cases (eqb_ℤ k row.key)) [
    | inl e ↦ rw (e, eqb_ℤ→eq k row.key e) (t.equal_range-emplace_same m row.key row)
    | inr e ↦ rw e (t.equal_range-emplace_other m k row.key row λ same. ground arith)
  ]

  -- A range holds the rows of its key that were put in, and those that were there.
  build-equal_range :
      (rows : List Row) (m : Map) (k : ℤ)
      → Perm (equal_range (build rows m) k) (select (λ s. eqb_ℤ k s.key) rows ++ equal_range m k)
  unfolding build for_each
  build-equal_range [] m k = Perm.refl _
  build-equal_range (row ∷ rows) m k =
      Perm.trans (build-equal_range rows (emplace m row.key row) k) (
        Perm.trans (Perm.append_left _ (emplace-equal_range m k row))
          (elim (Bool-cases (eqb_ℤ k row.key)) [
            | inl e ↦ rw e (perm_middle (select (λ s. eqb_ℤ k s.key) rows) (equal_range m k))
            | inr e ↦ rw e (Perm.refl _)
          ]))

  pub probe-flat_map :
      (rows : List Row) (m : Map) (out : List JoinedRow)
      → probe rows m out ≡ out ++ flat_map (λ r. map (joined r) (equal_range m r.key)) rows
  unfolding probe
  probe-flat_map rows m =
      for_each-append (λ r. map (joined r) (equal_range m r.key)) _
        (λ r. for_each-push (joined r) (equal_range m r.key)) rows

  -- Building on one side and probing with the other is the equality join.
  pub probe-build-perm :
      (left right : List Row) (out : List JoinedRow)
      → Perm (probe left (build right empty) out) (out ++ theta_join same_key left right)
  unfolding theta_join
  probe-build-perm left right out =
      rw (probe-flat_map left (build right empty) out)
        (Perm.append_left out (flat_map_congr _ _ range left))
    where
      range :
          (r : Row)
          → Perm
              (map (joined r) (equal_range (build right empty) r.key))
              (map (joined r) (select (same_key r) right))
      range r =
          Perm.map (joined r)
            (rw (t.equal_range-empty r.key, append-nil) at (build-equal_range right empty r.key))
