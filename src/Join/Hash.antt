-- ===== src/Join/Hash.antt =====
-- `hashJoin` of join-practice/hash-join.cpp, and `indexNestedLoopJoin` of
-- join-practice/nested-loop-join-variations.cpp, which differ in their names for the two sides.
use go_prep.Base.{List, [], Perm}
use go_prep.Join.Row.{Row, JoinedRow, same_key, theta_join}
use go_prep.Join.Multimap.{UnorderedMultimap, build, probe, probe-build-perm}

module _ (t : UnorderedMultimap) where
  pub hash_join : List Row → List Row → List JoinedRow
  hash_join probe_side build_side =
      let hash_table = build t build_side t.empty in probe t probe_side hash_table []

  pub index_nested_loop_join : List Row → List Row → List JoinedRow
  index_nested_loop_join outer inner = let index = build t inner t.empty in probe t outer index []

  -- Whatever order the table keeps within a key, the join emits every pair of a probing row and a
  -- build row with the same key, and no other, each as often as it occurs.
  pub hash_join-perm :
      (probe_side build_side : List Row)
      → Perm (hash_join probe_side build_side) (theta_join same_key probe_side build_side)
  unfolding hash_join
  hash_join-perm probe_side build_side = probe-build-perm t probe_side build_side []

  -- The same for the join over an index: the left rows are the outer ones.
  pub index_nested_loop_join-perm :
      (outer inner : List Row)
      → Perm (index_nested_loop_join outer inner) (theta_join same_key outer inner)
  unfolding index_nested_loop_join
  index_nested_loop_join-perm outer inner = probe-build-perm t outer inner []
