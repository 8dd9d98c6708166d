-- ===== src/Join/MergeSort.antt =====
-- `merge` and `mergeSort` of join-practice/sort-merge-join.cpp.
pub mod Order
mod Merge
pub mod Laws
use go_prep.Base.{
  ℕ, zero, suc, ◌+◌, ◌-◌, ◌/◌, ◌%◌, ◌^◌, true, false, List, [], ◌∷◌, ◌++◌, Option, none, some, leb,
  if◌then◌else◌, length, push_back, take, drop, size_t_mod, ◌>>=◌,
}
use go_prep.Base.Int.{leb_ℤ}
use go_prep.Join.Row.{Row}

-- The loop that takes the smaller head, a tie from the left half, and the two loops that append
-- what is left. The halves are `rows[i, mid)` and `rows[j, right)`.
pub merge_into : List Row → List Row → List Row → List Row
merge_into (x ∷ l) (y ∷ r) temp = elim (leb_ℤ x.key y.key) [
  | true ↦ merge_into l (y ∷ r) (push_back temp x)
  | false ↦ merge_into (x ∷ l) r (push_back temp y)
]
merge_into l r temp = temp ++ (l ++ r)

-- `rows[from, to)`
abbrev pub slice : List Row → ℕ → ℕ → List Row
slice rows from to = take (to - from) (drop from rows)

-- `std::copy` writes the merged rows over those from `left` on.
pub merge : List Row → ℕ → ℕ → ℕ → List Row
unfolding merge_into
merge rows left mid right =
    let temp = merge_into (slice rows left mid) (slice rows mid right) [] in
    take left rows ++ (temp ++ drop (left + length temp) rows)

-- `a - b` on `size_t`
abbrev pub sub_size_t : ℕ → ℕ → ℕ
sub_size_t a b = (a + size_t_mod - b) % size_t_mod

-- The recursion, on fuel: `none` means that it has not ended.
pub merge_sort_range : ℕ → List Row → ℕ → ℕ → Option (List Row)
unfolding merge
merge_sort_range zero rows left right = none
merge_sort_range (suc fuel) rows left right =
    let mid = left + sub_size_t right left / 2 in
    let halves = merge_sort_range fuel rows left mid >>= λ first.
    merge_sort_range fuel first mid right >>= λ second. some (merge second left mid right) in
    if leb (sub_size_t right left) 1 then some rows else halves

-- A range that is halved in each call is used up after as many calls as it has rows.
pub merge_sort : List Row → Option (List Row)
unfolding merge_sort_range
merge_sort rows = merge_sort_range (suc (length rows)) rows 0 (length rows)
