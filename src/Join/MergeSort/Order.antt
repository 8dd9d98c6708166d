-- ===== src/Join/MergeSort/Order.antt =====
-- Rows in ascending order of their keys, and what a stable sort is.
use go_prep.Base.{◌≡◌, List, [], ◌∷◌, Perm, length, select, All}
use go_prep.Base.Int.{ℤ, eqb_ℤ, ◌≤ℤ◌}
use go_prep.Join.Row.{Row}

abbrev pub IsSorted : List Row → Type 0
IsSorted [] = Unit {0}
IsSorted (x ∷ xs) = All (λ y. x.key ≤ℤ y.key) xs × IsSorted xs

-- The rows of one key, in order.
abbrev pub of_key : ℤ → List Row → List Row
of_key k = select (λ x. eqb_ℤ k x.key)

-- `s` is the stable sort of `xs`: ascending, a rearrangement, and rows of equal key keep their
-- order.
pub record Sorts (xs s : List Row) : Type 0 where
  pub ascending : IsSorted s
  pub rearranged : Perm s xs
  pub as_long : length s ≡ length xs
  pub stable : (k : ℤ) → of_key k s ≡ of_key k xs
