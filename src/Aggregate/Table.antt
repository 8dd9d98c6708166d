-- ===== src/Aggregate/Table.antt =====
-- `std::unordered_map<std::string, V>` as the operator uses it. The order in which it is traversed
-- is not fixed, so the operator takes it as an interface.
use Prim.Native.String.{String}
use text.Mathlib.Text.{◌==◌ as str_eq}
use go_prep.Base.{◌≡◌, Option, none, some, List, [], ◌∷◌, if◌then◌else◌}

-- The value of a key in a list of entries.
abbrev pub entry_of {ℓ} : {V : Type ℓ} → String → List (String × V) → Option V
entry_of k [] = none
entry_of k ((j, v) ∷ entries) = if str_eq j k then some v else entry_of k entries

-- No key stands twice.
abbrev pub Distinct {ℓ} : {V : Type ℓ} → List (String × V) → Type ℓ
Distinct [] = Unit
Distinct ((j, v) ∷ entries) = (entry_of j entries ≡ none) × Distinct entries

pub record UnorderedMap (V : Type 0) : Type 1 where
  pub Map : Type 0
  pub empty : Map
  pub find : Map → String → Option V
  -- Insertion of a key that is not there.
  pub emplace : Map → String → V → Map
  -- A write through an iterator at a key that is there.
  pub assign : Map → String → V → Map
  -- What a traversal meets.
  pub entries : Map → List (String × V)
  pub find-empty : (k : String) → find empty k ≡ none
  pub find-emplace :
      (t : Map) (k j : String) (v : V)
      → find t k ≡ none
      → find (emplace t k v) j ≡ (if str_eq k j then some v else find t j)
  pub find-assign :
      (t : Map) (k j : String) (u v : V)
      → find t k ≡ some u
      → find (assign t k v) j ≡ (if str_eq k j then some v else find t j)
  pub entries-Distinct : (t : Map) → Distinct (entries t)
  pub entries-find : (t : Map) (k : String) → entry_of k (entries t) ≡ find t k
