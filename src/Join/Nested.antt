-- ===== src/Join/Nested.antt =====
-- `nestedLoopJoin` of join-practice/nested-loop-join-variations.cpp.
use mathlib.Core.List.{flat_map}
use mathlib.Core.List.Perm
use go_prep.Base.{
  ◌≡◌, refl, sym, Bool, List, [], ◌∷◌, map, Perm, arith, if◌then◌else◌, push_back, select, for_each,
  for_each-append, perm_of_eq,
}
use go_prep.Join.Row.{
  Row, JoinedRow, joined, theta_join, for_each-select, theta_join-append_right,
  theta_join-nil_right,
}

-- The result's left row is the inner one, and the predicate is given the inner row first.
unfoldable pub nested_loop_join : List Row → List Row → (Row → Row → Bool) → List JoinedRow
nested_loop_join outer inner predicate =
    for_each outer
      (λ outer_row. for_each inner λ inner_row res.
        if predicate inner_row outer_row then push_back res (joined inner_row outer_row) else res)
      []

-- The pairs that one round of the outer loop emits.
abbrev round : (Row → Row → Bool) → List Row → Row → List JoinedRow
round p inner o = map (λ i. joined i o) (select (λ i. p i o) inner)

nested_loop_join-rounds :
    (outer inner : List Row) (p : Row → Row → Bool)
    → nested_loop_join outer inner p ≡ flat_map (round p inner) outer
unfolding nested_loop_join
nested_loop_join-rounds outer inner p =
    for_each-append (round p inner) _ (λ o. for_each-select (λ i. p i o) (λ i. joined i o) inner)
      outer []

round-theta_join :
    (p : Row → Row → Bool) (inner : List Row) (o : Row)
    → theta_join p inner (o ∷ []) ≡ round p inner o
unfolding theta_join flat_map
round-theta_join p [] o = refl
round-theta_join p (i ∷ inner) o = ground (arith, round-theta_join p inner o)

rounds-perm :
    (p : Row → Row → Bool) (inner outer : List Row)
    → Perm (flat_map (round p inner) outer) (theta_join p inner outer)
unfolding flat_map
rounds-perm p inner [] = perm_of_eq (sym (theta_join-nil_right p inner))
rounds-perm p inner (o ∷ outer) =
    Perm.trans
      (Perm.append (perm_of_eq (sym (round-theta_join p inner o))) (rounds-perm p inner outer))
      (Perm.symm (theta_join-append_right p inner (o ∷ []) outer))

-- The join emits exactly the pairs of an inner row on the left and an outer row on the right
-- that the predicate accepts, in this order of its arguments, each as often as it occurs.
pub nested_loop_join-perm :
    (outer inner : List Row) (p : Row → Row → Bool)
    → Perm (nested_loop_join outer inner p) (theta_join p inner outer)
nested_loop_join-perm outer inner p =
    rw (nested_loop_join-rounds outer inner p) (rounds-perm p inner outer)
