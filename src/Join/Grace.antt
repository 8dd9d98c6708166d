-- ===== src/Join/Grace.antt =====
-- `partitionRows` and `graceHashJoin` of join-practice/hash-join.cpp.
mod Partition
pub mod Laws
use go_prep.Base.{
  ◌>>=◌, ℕ, ◌%◌, List, [], ◌∷◌, Option, none, some, if◌then◌else◌, ◌==◌, push_back, get_or, set,
  replicate, count_from,
}
use go_prep.Base.Int.{ℤ}
use go_prep.Join.Row.{Row, JoinedRow}
use go_prep.Join.Multimap.{UnorderedMultimap, build, probe}

-- The operator `%` on `size_t`; `none` is its fault, where the right operand is 0.
unfoldable remainder : ℕ → ℕ → Option ℕ
remainder a b = if b == 0 then none else some (a % b)

-- `hash` is `std::hash<int>`.
module _ (hash : ℤ → ℕ) where
  -- `partitions[h1(row.key) % numPartitions].push_back(row)`
  pub partition_row : ℕ → Row → List (List Row) → Option (List (List Row))
  unfolding remainder
  partition_row num_partitions row partitions = do
    p ← remainder (hash row.key) num_partitions
    some (set partitions p (push_back (get_or partitions p []) row))

  unfoldable pub partition_loop : ℕ → List Row → List (List Row) → Option (List (List Row))
  partition_loop num_partitions [] partitions = some partitions
  partition_loop num_partitions (row ∷ rows) partitions = do
    next ← partition_row num_partitions row partitions
    partition_loop num_partitions rows next

  unfoldable pub partition_rows : List Row → ℕ → Option (List (List Row))
  unfolding partition_loop partition_row
  partition_rows rows num_partitions =
      partition_loop num_partitions rows (replicate num_partitions [])

  unfoldable pub grace_hash_join :
      UnorderedMultimap → List Row → List Row → ℕ → Option (List JoinedRow)
  grace_hash_join t probe_side build_side num_partitions = do
    probe_partitions ← partition_rows probe_side num_partitions
    build_partitions ← partition_rows build_side num_partitions
    some (
        count_from num_partitions 0
          (λ p result.
            let hash_table = build t (get_or build_partitions p []) t.empty in
            probe t (get_or probe_partitions p []) hash_table result)
          [])
