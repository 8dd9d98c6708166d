-- ===== src/Join/Agreement.antt =====
-- All joins of join-practice/ by equal keys are one operation on tables, once the order of the rows
-- is forgotten.
use mathlib.Core.List.Perm
use mathlib.Core.List.{flat_map}
use mathlib.Core.Quot
use mathlib.Core.Quot.{Quot, Quot-set}
use go_prep.Base.{
  ℕ, suc, ◌<◌, ◌≤◌, ◌^◌, ◌≡◌, refl, ap, ◌∙◌, List, [], ◌∷◌, ◌++◌, map, some, Perm, length,
  size_t_mod, Bool-cases, inl, inr, true, false, map_append, perm_of_eq, arith,
}
use go_prep.Base.Int.{ℤ}
use go_prep.Join.Row.{
  Row, JoinedRow, joined, same_key, matches, theta_join, theta_join-perm, theta_join-append_right,
  theta_join-nil_right, theta_join-cons_left,
}
use go_prep.Join.Multimap.{UnorderedMultimap}
use go_prep.Join.Nested.{nested_loop_join, nested_loop_join-perm}
use go_prep.Join.Block.{Table, rows, Progress, block_nested_loop_join}
use go_prep.Join.Block.Completion.{block_nested_loop_join-Completes}
use go_prep.Join.Hash.{
  hash_join, hash_join-perm, index_nested_loop_join, index_nested_loop_join-perm,
}
use go_prep.Join.Grace.{grace_hash_join}
use go_prep.Join.Grace.Laws.{grace_hash_join-perm}
use go_prep.Join.SortMerge.{Joined, sort_merge_join}
use go_prep.Join.SortMerge.Laws.{sort_merge_join-theta_join}

-- Rows with their number, without their order.
abbrev Bag : Type 0 → Type 0
Bag A = Quot {α = List A} Perm

abbrev pub bag : {A : Type 0} → List A → Bag A
bag = Quot.mk

-- The equality join of a table with a bag of rows, and of two bags.
unfoldable pub join_with : List Row → Bag Row → Bag JoinedRow
join_with left =
    Quot.lift Quot-set (λ right. bag (theta_join same_key left right))
      λ s s' k. Quot.sound (theta_join-perm same_key (Perm.refl left) k)

pub join_with-perm : {r r' : List Row} (q : Bag Row) → Perm r r' → join_with r q ≡ join_with r' q
unfolding join_with
join_with-perm {r} {r'} q h =
    Quot.ind {β = λ q. join_with r q ≡ join_with r' q} (λ q. Quot-set _ _)
      (λ s. Quot.sound (theta_join-perm same_key h (Perm.refl s))) q

unfoldable pub bag_join : Bag Row → Bag Row → Bag JoinedRow
unfolding join_with
bag_join p q = Quot.lift Quot-set (λ left. join_with left q) (λ r r' h. join_with-perm q h) p

same_key_comm : (a b : Row) → same_key a b ≡ same_key b a
same_key_comm a b = ground arith

abbrev pub swap : JoinedRow → JoinedRow
swap j = joined j.right j.left

matches-swap :
    (a : Row) (s : List Row) → map swap (theta_join same_key s (a ∷ [])) ≡ matches same_key a s
unfolding theta_join flat_map
matches-swap a [] = refl
matches-swap a (b ∷ s) = elim (Bool-cases (same_key b a)) [
  | inl e ↦
      let e' : same_key a b ≡ true = same_key_comm a b ∙ e in
      rw (e, e') (ap (◌∷◌ (joined a b)) (matches-swap a s))
  | inr e ↦ let e' : same_key a b ≡ false = same_key_comm a b ∙ e in rw (e, e') (matches-swap a s)
]

-- Which table is the left one makes no difference but for the sides of the pairs.
theta_join-swap :
    (r s : List Row) → Perm (map swap (theta_join same_key s r)) (theta_join same_key r s)
unfolding theta_join flat_map
theta_join-swap [] s = perm_of_eq (ap (map swap) (theta_join-nil_right same_key s))
theta_join-swap (a ∷ r) s =
    let parts = theta_join-append_right same_key s (a ∷ []) r in
    Perm.trans (Perm.map swap parts) (
      Perm.trans
        (perm_of_eq (
          map_append swap (theta_join same_key s (a ∷ [])) (theta_join same_key s r)
          ∙ ap (λ m. m ++ map swap (theta_join same_key s r)) (matches-swap a s)))
        (rw (theta_join-cons_left same_key a r s)
          (Perm.append_left (matches same_key a s) (theta_join-swap r s))))

bag_join-bag :
    {out : List JoinedRow} (r s : List Row)
    → Perm out (theta_join same_key r s)
    → bag out ≡ bag_join (bag r) (bag s)
unfolding bag_join join_with
bag_join-bag r s h = Quot.sound h

-- What each join emits.
pub record Agrees (hash : ℤ → ℕ) (t : UnorderedMultimap) (outer inner : Table) (n b : ℕ)
    (answer : Bag JoinedRow) : Type 0 where
  by_nested_loop : bag (nested_loop_join (rows inner) (rows outer) same_key) ≡ answer
  by_blocks :
      (p : Progress) × (block_nested_loop_join (suc (length outer)) outer inner same_key b 0
        ≡ some p)
      × (bag p.result ≡ answer)
  by_index : bag (index_nested_loop_join t (rows outer) (rows inner)) ≡ answer
  by_hash : bag (hash_join t (rows outer) (rows inner)) ≡ answer
  by_hash_swapped : bag (map swap (hash_join t (rows inner) (rows outer))) ≡ answer
  by_partitions :
      (out : List JoinedRow) × (grace_hash_join hash t (rows outer) (rows inner) n ≡ some out)
      × (bag out ≡ answer)
  by_sorting :
      (j : Joined) × (sort_merge_join (rows outer) (rows inner) ≡ some j) × (bag j.result ≡ answer)

module _ (hash : ℤ → ℕ) (t : UnorderedMultimap) where
  -- On the same two tables, with at least one partition, at least one page per block, and sizes
  -- that fit, all joins by equal keys end, and emit the same bag of pairs, which depends on the bags of the rows only: nested
  -- loops with the tables in the order of their sides, in blocks, over an index, by a hash table on
  -- either side, by partitions, and by sorting.
  pub joins-Agrees :
      (outer inner : Table) (n b : ℕ)
      → 0 < n
      → 0 < b
      → b < size_t_mod
      → length outer ≤ 2 ^ 63
      → length (rows outer) < size_t_mod
      → length (rows inner) < size_t_mod
      → Agrees hash t outer inner n b (bag_join (bag (rows outer)) (bag (rows inner)))
  joins-Agrees outer inner n b some_partition some_page block_fits pages_fit fit fit' =
      let r = rows outer in
      let s = rows inner in
      let (p, ended, emitted, _) =
        block_nested_loop_join-Completes outer b some_page block_fits pages_fit inner same_key 0 in
      let (out, succeeds, pairs, _) = grace_hash_join-perm hash t r s n some_partition in
      let (j, sorted, _, _, _, merged) = sort_merge_join-theta_join r s fit fit' in
      record {
        by_nested_loop = bag_join-bag r s (nested_loop_join-perm s r same_key);
        by_blocks = (p, ended, bag_join-bag r s emitted);
        by_index = bag_join-bag r s (index_nested_loop_join-perm t r s);
        by_hash = bag_join-bag r s (hash_join-perm t r s);
        by_hash_swapped =
            bag_join-bag r s
              (Perm.trans (Perm.map swap (hash_join-perm t s r)) (theta_join-swap r s));
        by_partitions = (out, succeeds, bag_join-bag r s pairs);
        by_sorting = (j, sorted, bag_join-bag r s merged);
      }
