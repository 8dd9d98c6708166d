-- ===== src/Aggregate.antt =====
-- hash-aggregation-operator.cpp: the aggregates and the operator that keeps one for each key.
pub mod Number
pub mod Table
pub mod Groups
pub mod Results
mod Examples
use Prim.Native.String.{String}
use go_prep.Base.{
  ℕ, ◌+◌, ◌%◌, Option, none, some, List, [], ◌∷◌, map, ◌==◌, if◌then◌else◌, size_t_mod, for_each,
}
use Number.{Double}
use Table.{UnorderedMap}

module _ (d : Double) where
  open d use {Number, zero, add, divide, of_uint64}

  -- The subclasses of `Aggregate`, with their fields.
  pub data Aggregate : Type 0 where
    count_agg : ℕ → Aggregate
    sum_agg : Number → Aggregate
    avg_agg : Number → ℕ → Aggregate

  pub accumulate : Aggregate → Number → Aggregate
  accumulate (count_agg count) value = count_agg ((count + 1) % size_t_mod)
  accumulate (sum_agg sum) value = sum_agg (add sum value)
  accumulate (avg_agg sum count) value = avg_agg (add sum value) ((count + 1) % size_t_mod)

  pub finalize : Aggregate → Number
  finalize (count_agg count) = of_uint64 count
  finalize (sum_agg sum) = sum
  finalize (avg_agg sum count) = if count == 0 then zero else divide sum (of_uint64 count)

  -- A fresh aggregate of the same class.
  pub clone : Aggregate → Aggregate
  clone (count_agg count) = count_agg 0
  clone (sum_agg sum) = sum_agg zero
  clone (avg_agg sum count) = avg_agg zero 0

  pub record ResultRow : Type 0 where
    pub key : String
    pub result : Number

  module _ (m : UnorderedMap Aggregate) where
    pub record HashAggregator : Type 0 where
      pub prototype : Aggregate
      pub table : m.Map

    pub hash_aggregator : Aggregate → HashAggregator
    hash_aggregator proto = record { prototype = proto; table = m.empty }

    -- A new key gets a fresh accumulator; then the value is folded into the key's accumulator.
    pub add_row : HashAggregator → String → Number → HashAggregator
    add_row a key value = elim (m.find a.table key) [
      | none ↦
          let fresh = clone a.prototype in
          record a { table = m.assign (m.emplace a.table key fresh) key (accumulate fresh value) }
      | some acc ↦ record a { table = m.assign a.table key (accumulate acc value) }
    ]

    pub get_results : HashAggregator → List ResultRow
    get_results a =
        map (λ (key, acc). record { key = key; result = finalize acc }) (m.entries a.table)
