-- ===== src/Aggregate/Examples.antt =====
-- The operator on a few rows, with a hash table that keeps a list of entries, newest first, and
-- whole numbers for `double`.
use Prim.Native.String.{String}
use text.Mathlib.Text.{◌==◌ as str_eq}
use text.Mathlib.TextEquality.{eq_iff}
use go_prep.Base.{
  ℕ, ◌+◌, ◌/◌, ◌≡◌, refl, none, List, [], ◌∷◌, if◌then◌else◌, arith, Bool-cases, inl, inr,
}
use go_prep.Aggregate.Number.{Double}
use go_prep.Aggregate.Table.{UnorderedMap, entry_of, Distinct}
use go_prep.Aggregate.{Aggregate, avg_agg, hash_aggregator, get_results}
use go_prep.Aggregate.Groups.{values_of, add_rows}
use go_prep.Aggregate.Results.{result_of, group_result, OneRowEach, get_results-groups}

abbrev whole : Double
whole = record {
  Number = ℕ;
  zero = 0;
  add = λ a b. a + b;
  divide = λ a b. a / b;
  of_uint64 = λ n. n;
}

module _ {V : Type 0} where
  abbrev without : String → List (String × V) → List (String × V)
  without k [] = []
  without k ((j, v) ∷ m) = if str_eq j k then without k m else (j, v) ∷ without k m

  -- The newest entry of each key.
  abbrev newest : List (String × V) → List (String × V)
  newest [] = []
  newest ((k, v) ∷ m) = (k, v) ∷ without k (newest m)

  entry_of-without :
      (k j : String) (m : List (String × V))
      → entry_of j (without k m) ≡ (if str_eq k j then none else entry_of j m)
  entry_of-without k j [] = ground arith
  entry_of-without k j ((i, v) ∷ m) =
      ground (arith, entry_of-without k j m, eq_iff i k, eq_iff i j, eq_iff k j)

  without-Distinct : (k : String) (m : List (String × V)) → Distinct m → Distinct (without k m)
  without-Distinct k [] h = tt
  without-Distinct k ((j, v) ∷ m) h = elim (Bool-cases (str_eq j k)) [
    | inl e ↦ rw e (without-Distinct k m h.1)
    | inr e ↦ rw e (
      ground (arith, entry_of-without k j m, eq_iff j k, eq_iff k j, h.0),
      without-Distinct k m h.1,
    )
  ]

  newest-Distinct : (m : List (String × V)) → Distinct (newest m)
  newest-Distinct [] = tt
  newest-Distinct ((k, v) ∷ m) = (
    ground (arith, entry_of-without k k (newest m), eq_iff k k),
    without-Distinct k (newest m) (newest-Distinct m),
  )

  entry_of-newest : (m : List (String × V)) (k : String) → entry_of k (newest m) ≡ entry_of k m
  entry_of-newest [] k = refl
  entry_of-newest ((j, v) ∷ m) k =
      ground (arith, entry_of-without j k (newest m), entry_of-newest m k)

abbrev listed : (V : Type 0) → UnorderedMap V
listed V = record {
  Map = List (String × V);
  empty = [];
  find = λ m k. entry_of k m;
  emplace = λ m k v. (k, v) ∷ m;
  assign = λ m k v. (k, v) ∷ m;
  entries = newest;
  find-empty = λ k. refl;
  find-emplace = λ m k j v h. refl;
  find-assign = λ m k j u v h. refl;
  entries-Distinct = newest-Distinct;
  entries-find = entry_of-newest;
}

abbrev sales : List (String × ℕ)
sales = ("north", 4) ∷ ("south", 10) ∷ ("north", 8) ∷ []

-- A prototype that has already been used.
abbrev average : Aggregate whole
average = avg_agg 7 3

get_results-groups_example :
    let results = get_results whole (listed (Aggregate whole)) (
      add_rows whole
        (listed (Aggregate whole))
        sales
        (hash_aggregator whole (listed (Aggregate whole)) average)) in
    ((k : String)
      → result_of whole k results ≡ group_result whole average (values_of whole k sales))
    × OneRowEach whole results
get_results-groups_example =
    get_results-groups whole (listed (Aggregate whole)) average sales (omega arith)
