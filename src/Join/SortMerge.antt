-- ===== src/Join/SortMerge.antt =====
-- `sortMergeJoin` of join-practice/sort-merge-join.cpp.
mod Runs
pub mod Laws
use go_prep.Base.{
  ℕ, zero, suc, ◌+◌, true, false, List, [], ◌∷◌, Option, none, some, ◌>>=◌, if◌then◌else◌, length,
  push_back, take, drop, for_each,
}
use go_prep.Base.Int.{ℤ, ltb_ℤ, eqb_ℤ}
use go_prep.Join.Row.{Row, JoinedRow, joined}
use go_prep.Join.MergeSort.{merge_sort}

-- How far `iEnd` and `jEnd` move on from `i` and `j`: over the rows whose key is `key`.
pub run_length : ℤ → List Row → ℕ
run_length key [] = 0
run_length key (x ∷ xs) = if eqb_ℤ x.key key then suc (run_length key xs) else 0

-- The two loops that emit the pairs of two runs.
pub cross_product : List Row → List Row → List JoinedRow → List JoinedRow
cross_product run_r run_s result =
    for_each run_r (λ a. for_each run_s λ b res. push_back res (joined a b)) result

-- The outer loop over `R[i..]` and `S[j..]`, on fuel: `none` means that it has not ended.
pub merge_loop : ℕ → List Row → List Row → List JoinedRow → Option (List JoinedRow)
unfolding run_length cross_product
merge_loop zero rs ss result = none
merge_loop (suc fuel) [] ss result = some result
merge_loop (suc fuel) (r ∷ rs) [] result = some result
merge_loop (suc fuel) (r ∷ rs) (s ∷ ss) result = elim (ltb_ℤ r.key s.key) [
  | true ↦ merge_loop fuel rs (s ∷ ss) result
  | false ↦ elim (ltb_ℤ s.key r.key) [
    | true ↦ merge_loop fuel (r ∷ rs) ss result
    | false ↦
        let i_end = run_length r.key (r ∷ rs) in
        let j_end = run_length r.key (s ∷ ss) in
        merge_loop fuel (drop i_end (r ∷ rs)) (drop j_end (s ∷ ss))
          (cross_product (take i_end (r ∷ rs)) (take j_end (s ∷ ss)) result)
  ]
]

-- The caller's vectors are left sorted.
pub record Joined : Type 0 where
  pub r : List Row
  pub s : List Row
  pub result : List JoinedRow

-- Each round takes a row off at least one side.
pub sort_merge_join : List Row → List Row → Option Joined
unfolding merge_loop
sort_merge_join r s = do
  r' ← merge_sort r
  s' ← merge_sort s
  result ← merge_loop (suc (length r' + length s')) r' s' []
  some (record { r = r'; s = s'; result = result })
