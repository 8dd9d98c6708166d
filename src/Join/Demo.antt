-- ===== src/Join/Demo.antt =====
-- The demo in `main` of join-practice/nested-loop-join-variations.cpp.
use go_prep.Base.{◌≡◌, refl, List, [], ◌∷◌, for_each}
use go_prep.Base.Int.{pos}
use go_prep.Join.Row.{Row, JoinedRow, joined, same_key}
use go_prep.Join.Nested.{nested_loop_join}

abbrev row_A : Row
row_A = record { key = pos 1; payload = "order_A" }

abbrev row_C : Row
row_C = record { key = pos 1; payload = "order_C" }

abbrev row_B : Row
row_B = record { key = pos 2; payload = "order_B" }

abbrev alice : Row
alice = record { key = pos 1; payload = "Alice" }

abbrev bob : Row
bob = record { key = pos 2; payload = "Bob" }

abbrev orders : List Row
orders = row_A ∷ row_B ∷ row_C ∷ []

abbrev customers : List Row
customers = alice ∷ bob ∷ []

-- The pairs that `main` prints, one on each line.
unfoldable printed_pairs : List JoinedRow
printed_pairs = nested_loop_join orders customers same_key

-- The customers stand on the left.
printed_pairs_lem : printed_pairs ≡ joined alice row_A ∷ joined bob row_B ∷ joined alice row_C ∷ []
unfolding printed_pairs nested_loop_join for_each
printed_pairs_lem = refl
