-- ===== src/Aggregate/Groups.antt =====
-- The rows of one key, and what the aggregates mean over a list of values.
use Prim.Native.String.{String}
use text.Mathlib.Text.{◌==◌ as str_eq}
use text.Mathlib.TextEquality.{eq_iff}
use go_prep.Base.{
  ℕ, ◌+◌, ◌%◌, ◌<◌, ◌≡◌, refl, ◌∙◌, ap, none, some, List, [], ◌∷◌, length, if◌then◌else◌, arith,
  size_t_mod, for_each, Option-cases, inl, inr,
}
use go_prep.Aggregate.Number.{Double}
use go_prep.Aggregate.Table.{UnorderedMap}
use go_prep.Aggregate.{
  Aggregate, count_agg, sum_agg, avg_agg, accumulate, finalize, clone, HashAggregator, add_row,
}

module _ (d : Double) where
  open d use {Number, zero as zero_number, add, divide, of_uint64}

  abbrev add_all : Number → List Number → Number
  add_all acc [] = acc
  add_all acc (v ∷ vs) = add_all (add acc v) vs

  -- What an aggregate of a class is, over the values of a group: their number, their sum from 0.0
  -- in the order of the rows, or that sum over their number.
  abbrev pub aggregate_of : Aggregate d → List Number → Number
  aggregate_of (count_agg _) vs = of_uint64 (length vs)
  aggregate_of (sum_agg _) vs = add_all zero_number vs
  aggregate_of (avg_agg _ _) [] = zero_number
  aggregate_of (avg_agg _ _) (v ∷ vs) =
      divide (add_all zero_number (v ∷ vs)) (of_uint64 (length (v ∷ vs)))

  abbrev pub accumulate_all : Aggregate d → List Number → Aggregate d
  accumulate_all a [] = a
  accumulate_all a (v ∷ vs) = accumulate_all (accumulate d a v) vs

  accumulate_all-count :
      (c : ℕ) (vs : List Number)
      → c + length vs < size_t_mod
      → accumulate_all (count_agg c) vs ≡ count_agg (c + length vs)
  unfolding accumulate
  accumulate_all-count c [] h = ap count_agg (omega arith)
  accumulate_all-count c (v ∷ vs) h =
      let next : (c + 1) % size_t_mod ≡ c + 1 = omega arith in
      rw next (accumulate_all-count (c + 1) vs (omega arith) ∙ ap count_agg (omega arith))

  accumulate_all-sum :
      (s : Number) (vs : List Number) → accumulate_all (sum_agg s) vs ≡ sum_agg (add_all s vs)
  unfolding accumulate
  accumulate_all-sum s [] = refl
  accumulate_all-sum s (v ∷ vs) = accumulate_all-sum (add s v) vs

  accumulate_all-avg :
      (s : Number) (c : ℕ) (vs : List Number)
      → c + length vs < size_t_mod
      → accumulate_all (avg_agg s c) vs ≡ avg_agg (add_all s vs) (c + length vs)
  unfolding accumulate
  accumulate_all-avg s c [] h = ap (avg_agg s) (omega arith)
  accumulate_all-avg s c (v ∷ vs) h =
      let next : (c + 1) % size_t_mod ≡ c + 1 = omega arith in
      rw next (
        accumulate_all-avg (add s v) (c + 1) vs (omega arith)
        ∙ ap (avg_agg (add_all (add s v) vs)) (omega arith))

  -- Feeding the values of a group into a fresh clone, and finalizing, gives the group's aggregate,
  -- for every class, whatever state the prototype is in.
  pub finalize-accumulate_all :
      (proto : Aggregate d) (vs : List Number)
      → length vs < size_t_mod
      → finalize d (accumulate_all (clone d proto) vs) ≡ aggregate_of proto vs
  unfolding clone finalize
  finalize-accumulate_all (count_agg _) vs h =
      rw (accumulate_all-count 0 vs (omega arith)) (ap of_uint64 (omega arith))
  finalize-accumulate_all (sum_agg _) vs h = rw (accumulate_all-sum zero_number vs)
  finalize-accumulate_all (avg_agg _ _) [] h = refl
  finalize-accumulate_all (avg_agg _ _) (v ∷ vs) h =
      rw (accumulate_all-avg zero_number 0 (v ∷ vs) (omega arith)) (ground arith)

  -- The values of the rows of one key, in their order.
  abbrev pub values_of : String → List (String × Number) → List Number
  values_of k [] = []
  values_of k ((j, v) ∷ rows) = if str_eq j k then v ∷ values_of k rows else values_of k rows

  module _ (m : UnorderedMap (Aggregate d)) where
    -- Rows are fed one by one.
    unfoldable pub add_rows : List (String × Number) → HashAggregator d m → HashAggregator d m
    unfolding for_each
    add_rows rows a = for_each rows (λ (key, value) s. add_row d m s key value) a

    -- The accumulator that a key has, or would get.
    abbrev current : HashAggregator d m → String → Aggregate d
    current a k = elim (m.find a.table k) [ none ↦ clone d a.prototype | some acc ↦ acc ]

    pub add_row-find :
        (a : HashAggregator d m) (key j : String) (value : Number)
        → m.find (add_row d m a key value).table j
          ≡ (if str_eq key j then some (accumulate d (current a j) value) else m.find a.table j)
    unfolding add_row
    add_row-find a key j value = elim (Option-cases (m.find a.table key)) [
      | inl e ↦
          let fresh = clone d a.prototype in
          let filled = m.emplace a.table key fresh in
          ground (
            arith,
            eq_iff key j,
            eq_iff key key,
            m.find-emplace a.table key key fresh e,
            m.find-emplace a.table key j fresh e,
            m.find-assign filled key j fresh (accumulate d fresh value),
          )
      | inr (acc, e) ↦
          ground (arith, eq_iff key j, m.find-assign a.table key j acc (accumulate d acc value) e)
    ]

    pub prototype-add_row :
        (a : HashAggregator d m) (key : String) (value : Number)
        → (add_row d m a key value).prototype ≡ a.prototype
    unfolding add_row
    prototype-add_row a key value = ground arith
