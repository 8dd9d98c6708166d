-- ===== src/Aggregate/Results.antt =====
-- The operator against the grouping that it computes.
use Prim.Native.String.{String}
use text.Mathlib.Text.{◌==◌ as str_eq}
use go_prep.Base.{
  ◌≤◌, ◌<◌, ◌≡◌, refl, ◌∙◌, ap, Option, none, some, List, [], ◌∷◌, map, length, if◌then◌else◌,
  arith, size_t_mod, Bool-cases, inl, inr,
}
use go_prep.Aggregate.Number.{Double}
use go_prep.Aggregate.Table.{UnorderedMap, entry_of, Distinct}
use go_prep.Aggregate.Groups.{
  aggregate_of, accumulate_all, finalize-accumulate_all, values_of, add_rows, add_row-find,
  prototype-add_row,
}
use go_prep.Aggregate.{
  Aggregate, accumulate, finalize, clone, HashAggregator, hash_aggregator, add_row, ResultRow,
  get_results,
}

module _ (d : Double) where
  open d use {Number}

  -- The result of a key in a list of result rows.
  abbrev pub result_of : String → List (ResultRow d) → Option Number
  result_of k [] = none
  result_of k (r ∷ rs) = if str_eq r.key k then some r.result else result_of k rs

  -- No two rows have the same key.
  abbrev pub OneRowEach : List (ResultRow d) → Type 0
  OneRowEach [] = Unit
  OneRowEach (r ∷ rs) = (result_of r.key rs ≡ none) × OneRowEach rs

  -- What a group with these values is shown as: no row, if it is empty.
  abbrev pub group_result : Aggregate d → List Number → Option Number
  group_result proto [] = none
  group_result proto (v ∷ vs) = some (aggregate_of d proto (v ∷ vs))

  abbrev finalized : Option (Aggregate d) → Option Number
  finalized none = none
  finalized (some acc) = some (finalize d acc)

  abbrev to_rows : List (String × Aggregate d) → List (ResultRow d)
  to_rows = map (λ (key, acc). record { key = key; result = finalize d acc })

  result_of-to_rows :
      (k : String) (entries : List (String × Aggregate d))
      → result_of k (to_rows entries) ≡ finalized (entry_of k entries)
  result_of-to_rows k [] = refl
  result_of-to_rows k ((j, acc) ∷ entries) = ground (arith, result_of-to_rows k entries)

  to_rows-OneRowEach :
      (entries : List (String × Aggregate d)) → Distinct entries → OneRowEach (to_rows entries)
  to_rows-OneRowEach [] h = tt
  to_rows-OneRowEach ((j, acc) ∷ entries) h =
      (result_of-to_rows j entries ∙ ap finalized h.0, to_rows-OneRowEach entries h.1)

  -- An accumulator after more values, where a missing one starts as `fresh`.
  abbrev grouped : Option (Aggregate d) → Aggregate d → List Number → Option (Aggregate d)
  grouped found fresh [] = found
  grouped none fresh (v ∷ vs) = some (accumulate_all d fresh (v ∷ vs))
  grouped (some acc) fresh (v ∷ vs) = some (accumulate_all d acc (v ∷ vs))

  grouped-some :
      (acc fresh : Aggregate d) (vs : List Number)
      → grouped (some acc) fresh vs ≡ some (accumulate_all d acc vs)
  grouped-some acc fresh [] = refl
  grouped-some acc fresh (v ∷ vs) = refl

  grouped-step :
      (o : Option (Aggregate d)) (fresh : Aggregate d) (v : Number) (vs : List Number)
      → grouped (some (accumulate d (elim o [ none ↦ fresh | some acc ↦ acc ]) v)) fresh vs
        ≡ grouped o fresh (v ∷ vs)
  grouped-step none fresh v vs = grouped-some (accumulate d fresh v) fresh vs
  grouped-step (some acc) fresh v vs = grouped-some (accumulate d acc v) fresh vs

  finalized-grouped :
      (proto : Aggregate d) (vs : List Number)
      → length vs < size_t_mod
      → finalized (grouped none (clone d proto) vs) ≡ group_result proto vs
  finalized-grouped proto [] h = refl
  finalized-grouped proto (v ∷ vs) h = ap some (finalize-accumulate_all d proto (v ∷ vs) h)

  length-values_of :
      (k : String) (rows : List (String × Number)) → length (values_of d k rows) ≤ length rows
  length-values_of k [] = omega arith
  length-values_of k ((j, v) ∷ rows) = ground (arith, length-values_of k rows)

  module _ (m : UnorderedMap (Aggregate d)) where
    find-add_rows :
        (rows : List (String × Number)) (a : HashAggregator d m) (k : String)
        → m.find (add_rows d m rows a).table k
          ≡ grouped (m.find a.table k) (clone d a.prototype) (values_of d k rows)
    unfolding add_rows
    find-add_rows [] a k = refl
    find-add_rows ((j, v) ∷ rows) a k =
        let later = find-add_rows rows (add_row d m a j v) k in
        elim (Bool-cases (str_eq j k)) [
          | inl e ↦
              later
              ∙ rw (add_row-find d m a j k v, prototype-add_row d m a j v, e)
                  (grouped-step (m.find a.table k) (clone d a.prototype) v (values_of d k rows))
          | inr e ↦ later ∙ rw (add_row-find d m a j k v, prototype-add_row d m a j v, e)
        ]

    -- After any rows, the result has one row for each key that stood in a row, and no other: it
    -- shows the aggregate of the values that came with the key, in their order. The prototype's own
    -- state plays no part.
    pub get_results-groups :
        (proto : Aggregate d) (rows : List (String × Number))
        → length rows < size_t_mod
        → let results = get_results d m (add_rows d m rows (hash_aggregator d m proto)) in
          ((k : String) → result_of k results ≡ group_result proto (values_of d k rows))
          × OneRowEach results
    unfolding get_results hash_aggregator
    get_results-groups proto rows h = (
      λ k.
          result_of-to_rows k _
          ∙ rw (m.entries-find, find-add_rows rows (hash_aggregator d m proto) k, m.find-empty k)
              (finalized-grouped proto (values_of d k rows)
                (omega (arith, length-values_of k rows))),
      to_rows-OneRowEach _ (m.entries-Distinct _),
    )
