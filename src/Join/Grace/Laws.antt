-- ===== src/Join/Grace/Laws.antt =====
-- The partitioned join against the plain one.
use mathlib.Core.List.{flat_map}
use mathlib.Core.List.Perm
use go_prep.Base.{
  ℕ, ◌<◌, ◌≡◌, sym, ap, ◌∙◌, List, [], ◌++◌, some, Perm, get_or, range, flat_map_congr, count_from,
  count_from-append,
}
use go_prep.Base.Int.{ℤ}
use go_prep.Join.Row.{Row, JoinedRow, same_key, theta_join}
use go_prep.Join.Multimap.{UnorderedMultimap, build, probe, probe-flat_map, probe-build-perm}
use go_prep.Join.Hash.{hash_join, hash_join-perm}
use go_prep.Join.Grace.{grace_hash_join}
use go_prep.Join.Grace.Partition.{partition_rows_lem, partitions-perm, part_join}

module _ (hash : ℤ → ℕ) (t : UnorderedMultimap) where
  -- One round of the loop over the partitions, from an empty result.
  abbrev round : List (List Row) → List (List Row) → ℕ → List JoinedRow
  round probes builds p = probe t (get_or probes p []) (build t (get_or builds p []) t.empty) []

  rounds-eq :
      (probes builds : List (List Row)) (n : ℕ)
      → count_from n 0
          (λ p result. probe t (get_or probes p []) (build t (get_or builds p []) t.empty) result)
          []
        ≡ flat_map (round probes builds) (range 0 n)
  rounds-eq probes builds n =
      count_from-append (round probes builds) _
        (λ p out.
          probe-flat_map t (get_or probes p []) (build t (get_or builds p []) t.empty) out
          ∙ ap (◌++◌ out) (
              sym
                (probe-flat_map t (get_or probes p []) (build t (get_or builds p []) t.empty) [])))
        n 0 []

  -- With at least one partition the join succeeds, and emits the same pairs as `hashJoin`, whatever
  -- the hash function is.
  pub grace_hash_join-perm :
      (probe_side build_side : List Row) (n : ℕ)
      → 0 < n
      → (out : List JoinedRow) × (grace_hash_join hash t probe_side build_side n ≡ some out)
        × Perm out (theta_join same_key probe_side build_side)
        × Perm out (hash_join t probe_side build_side)
  unfolding grace_hash_join
  grace_hash_join-perm probe_side build_side n h =
      let (probes, e, holds) = partition_rows_lem hash n h probe_side in
      let (builds, f, holds') = partition_rows_lem hash n h build_side in
      let pairs : Perm (flat_map (round probes builds) (range 0 n))
          (theta_join same_key probe_side build_side) =
        Perm.trans
          (flat_map_congr (round probes builds) (part_join hash n h probe_side build_side)
            (λ p. rw (holds p, holds' p) (probe-build-perm t _ _ [])) (range 0 n))
          (partitions-perm hash n h probe_side build_side) in
      (
        flat_map (round probes builds) (range 0 n),
        rw (e, f) (ap some (rounds-eq probes builds n)),
        pairs,
        Perm.trans pairs (Perm.symm (hash_join-perm t probe_side build_side)),
      )
