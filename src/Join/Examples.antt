-- ===== src/Join/Examples.antt =====
-- The joins on small inputs, with an unordered multimap that keeps a list of entries.
use mathlib.Core.List.Perm
use go_prep.Base.{
  ℕ, ◌≡◌, refl, none, some, List, [], ◌∷◌, map, Perm, arith, select, length, size_t_mod, Bool-cases,
  inl, inr, ◌<◌,
}
use go_prep.Base.Int.{ℤ, pos, eqb_ℤ, eqb_ℤ→eq, eqb_ℤ_refl, pos_part}
use go_prep.Join.Row.{Row, JoinedRow, same_key, theta_join}
use go_prep.Join.Multimap.{UnorderedMultimap}
use go_prep.Join.Hash.{hash_join}
use go_prep.Join.Nested.{nested_loop_join, nested_loop_join-perm}
use go_prep.Join.Grace.{grace_hash_join}
use go_prep.Join.Grace.Laws.{grace_hash_join-perm}
use go_prep.Join.MergeSort.{merge_sort}
use go_prep.Join.MergeSort.Order.{Sorts}
use go_prep.Join.MergeSort.Laws.{merge_sort-Sorts}
use go_prep.Join.SortMerge.{Joined, sort_merge_join}
use go_prep.Join.SortMerge.Laws.{sort_merge_join-theta_join}
use go_prep.Join.Block.{Table, rows, Progress, block_nested_loop_join}
use go_prep.Join.Agreement.{Agrees, bag, bag_join, joins-Agrees}
use go_prep.Join.Block.Completion.{block_nested_loop_join-Completes, block_nested_loop_join-stuck}

abbrev listed : UnorderedMultimap
listed = record {
  Map = List (ℤ × Row);
  empty = [];
  emplace = λ m k row. (k, row) ∷ m;
  equal_range = λ m k. map (λ e. e.1) (select (λ e. eqb_ℤ k e.0) m);
  equal_range-empty = λ k. refl;
  equal_range-emplace_same = λ m k row. rw (eqb_ℤ_refl k) (Perm.refl _);
  equal_range-emplace_other = λ m j k row h. elim (Bool-cases (eqb_ℤ j k)) [
    | inl e ↦ absurd (h (eqb_ℤ→eq j k e))
    | inr e ↦ rw e (Perm.refl _)
  ];
}

abbrev left_rows : List Row
left_rows =
    record { key = pos 2; payload = "alice" }
    ∷ record { key = pos 1; payload = "bob" }
    ∷ record { key = pos 2; payload = "carol" }
    ∷ []

abbrev right_rows : List Row
right_rows =
    record { key = pos 3; payload = "order-300" }
    ∷ record { key = pos 2; payload = "order-200" }
    ∷ record { key = pos 1; payload = "order-100" }
    ∷ record { key = pos 2; payload = "order-201" }
    ∷ []

abbrev few : length left_rows < size_t_mod
few = omega arith

abbrev few' : length right_rows < size_t_mod
few' = omega arith

sort_merge_join-theta_join_example :
    (j : Joined) × (sort_merge_join left_rows right_rows ≡ some j)
    × Sorts left_rows j.r
    × Sorts right_rows j.s
    × (j.result ≡ theta_join same_key j.r j.s)
    × Perm j.result (theta_join same_key left_rows right_rows)
sort_merge_join-theta_join_example = sort_merge_join-theta_join left_rows right_rows few few'

merge_sort-Sorts_example :
    (sorted : List Row) × (merge_sort left_rows ≡ some sorted) × Sorts left_rows sorted
merge_sort-Sorts_example = merge_sort-Sorts left_rows few

nested_loop_join-perm_example :
    Perm (nested_loop_join left_rows right_rows same_key) (theta_join same_key right_rows left_rows)
nested_loop_join-perm_example = nested_loop_join-perm left_rows right_rows same_key

abbrev hash_of : ℤ → ℕ
hash_of = pos_part

grace_hash_join-perm_example :
    (out : List JoinedRow) × (grace_hash_join hash_of listed left_rows right_rows 2 ≡ some out)
    × Perm out (theta_join same_key left_rows right_rows)
    × Perm out (hash_join listed left_rows right_rows)
grace_hash_join-perm_example =
    grace_hash_join-perm hash_of listed left_rows right_rows 2 (omega arith)

abbrev outer_pages : Table
outer_pages = left_rows ∷ right_rows ∷ left_rows ∷ []

abbrev inner_pages : Table
inner_pages = right_rows ∷ [] ∷ []

block_nested_loop_join-Completes_example :
    (t : Progress) × (block_nested_loop_join 4 outer_pages inner_pages same_key 2 5 ≡ some t)
    × Perm t.result (theta_join same_key (rows outer_pages) (rows inner_pages))
    × (t.page_io_count ≡ 12)
block_nested_loop_join-Completes_example =
    block_nested_loop_join-Completes outer_pages 2 (omega arith) (omega arith) (omega arith)
      inner_pages same_key 5

block_nested_loop_join-stuck_example :
    block_nested_loop_join 100 (left_rows ∷ []) inner_pages same_key 0 0 ≡ none
block_nested_loop_join-stuck_example =
    block_nested_loop_join-stuck 100 left_rows [] inner_pages same_key 0

joins-Agrees_example :
    Agrees hash_of listed
      (left_rows ∷ [])
      (right_rows ∷ [])
      2
      1
      (bag_join (bag (rows (left_rows ∷ []))) (bag (rows (right_rows ∷ []))))
joins-Agrees_example =
    joins-Agrees hash_of listed (left_rows ∷ []) (right_rows ∷ []) 2 1 (omega arith) (omega arith)
      (omega arith) (omega arith) (omega arith) (omega arith)
