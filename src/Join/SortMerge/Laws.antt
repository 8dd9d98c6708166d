-- ===== src/Join/SortMerge/Laws.antt =====
-- The merging join against the relational one.
use mathlib.Core.List.{flat_map}
use go_prep.Base.{
  ℕ, zero, suc, ◌+◌, ◌<◌, ◌≡◌, refl, sym, ap, ◌∙◌, true, List, [], ◌∷◌, ◌++◌, append-nil,
  append_assoc, some, Perm, arith, inl, inr, Bool-cases, length, take, drop, select-nil, All,
  All-map, take-append-drop, length-drop, size_t_mod, ◌>>=◌,
}
use go_prep.Base.Int.{ℤ, eqb_ℤ, ltb_ℤ, ◌≤ℤ◌, eqb_ℤ_refl}
use go_prep.Join.Row.{
  Row, JoinedRow, same_key, theta_join, theta_join-append_left, theta_join-cons_left,
  theta_join-nil_right, theta_join-perm,
}
use go_prep.Join.MergeSort.Order.{IsSorted, Sorts}
use go_prep.Join.MergeSort.Laws.{merge_sort-Sorts}
use go_prep.Join.SortMerge.Runs.{
  HasKey, Above, run-HasKey, rest-Above, theta_join-skip_run, cross_product-theta_join,
}
use go_prep.Join.SortMerge.{run_length, cross_product, merge_loop, sort_merge_join, Joined}

drop-IsSorted : (n : ℕ) (xs : List Row) → IsSorted xs → IsSorted (drop n xs)
drop-IsSorted zero xs h = h
drop-IsSorted (suc n) [] h = tt
drop-IsSorted (suc n) (x ∷ xs) h = drop-IsSorted n xs h.1

-- The least row of the left side has no partner.
skip_left :
    (r : Row) (rs ss : List Row)
    → All (Above r.key) ss
    → theta_join same_key (r ∷ rs) ss ≡ theta_join same_key rs ss
skip_left r rs ss h = rw (
  theta_join-cons_left same_key r rs ss,
  select-nil (same_key r) ss (All-map {P = Above r.key} (λ s up. ground arith) ss h),
)

All-Above :
    (r s : Row) (ss : List Row)
    → ltb_ℤ r.key s.key ≡ true
    → IsSorted (s ∷ ss)
    → All (Above r.key) (s ∷ ss)
All-Above r s ss e h = (e, All-map {P = λ y. s.key ≤ℤ y.key} (λ y le. ground arith) ss h.0)

emit_runs :
    (k : ℤ) (r1 r2 s1 s2 : List Row) (out : List JoinedRow)
    → All (HasKey k) r1
    → All (Above k) r2
    → All (HasKey k) s1
    → All (Above k) s2
    → cross_product r1 s1 out ++ theta_join same_key r2 s2
      ≡ out ++ theta_join same_key (r1 ++ r2) (s1 ++ s2)
emit_runs k r1 r2 s1 s2 out hr1 hr2 hs1 hs2 = rw (
  cross_product-theta_join k r1 s1 s2 out hr1 hs1 hs2,
  ← theta_join-skip_run k r2 s1 s2 hr2
      (All-map {P = HasKey k} {Q = λ x. x.key ≤ℤ k} (λ x e. ground arith) s1 hs1),
  append_assoc out,
  ← theta_join-append_left same_key r1 r2 (s1 ++ s2),
)

-- The round at two equal keys emits the pairs of the two runs, and leaves the rest.
equal_keys :
    (r s : Row) (rs ss : List Row) (out : List JoinedRow)
    → eqb_ℤ s.key r.key ≡ true
    → IsSorted (r ∷ rs)
    → IsSorted (s ∷ ss)
    → let i = run_length r.key (r ∷ rs) in
      let j = run_length r.key (s ∷ ss) in
      cross_product (take i (r ∷ rs)) (take j (s ∷ ss)) out
        ++ theta_join same_key (drop i (r ∷ rs)) (drop j (s ∷ ss))
      ≡ out ++ theta_join same_key (r ∷ rs) (s ∷ ss)
equal_keys r s rs ss out e hr hs =
    rw (take-append-drop, take-append-drop) at
      (emit_runs r.key _ _ _ _ out (run-HasKey r.key (r ∷ rs))
        (rest-Above r.key (r ∷ rs) hr (omega arith, hr.0)) (run-HasKey r.key (s ∷ ss))
        (rest-Above r.key (s ∷ ss) hs
          (ground arith, All-map {P = λ y. s.key ≤ℤ y.key} (λ y le. ground arith) ss hs.0)))

run_length_pos :
    (k : ℤ) (x : Row) (xs : List Row) → eqb_ℤ x.key k ≡ true → 0 < run_length k (x ∷ xs)
unfolding run_length
run_length_pos k x xs e = rw e (omega arith)

-- On sorted sides the loop emits exactly the relational join, in its order.
merge_loop-theta_join :
    (fuel : ℕ) (rs ss : List Row) (out : List JoinedRow)
    → length rs + length ss < fuel
    → IsSorted rs
    → IsSorted ss
    → merge_loop fuel rs ss out ≡ some (out ++ theta_join same_key rs ss)
unfolding merge_loop
merge_loop-theta_join zero rs ss out h hr hs = absurd (omega arith)
merge_loop-theta_join (suc f) [] ss out h hr hs = unfold theta_join flat_map in rw (append-nil out)
merge_loop-theta_join (suc f) (r ∷ rs) [] out h hr hs =
    rw (theta_join-nil_right same_key (r ∷ rs), append-nil out)
merge_loop-theta_join (suc f) (r ∷ rs) (s ∷ ss) out h hr hs =
    elim (Bool-cases (ltb_ℤ r.key s.key)) [
      | inl e ↦
          rw (e, merge_loop, skip_left r rs (s ∷ ss) (All-Above r s ss e hs))
            (merge_loop-theta_join f rs (s ∷ ss) out (omega arith) hr.1 hs)
      | inr e ↦ elim (Bool-cases (ltb_ℤ s.key r.key)) [
        | inl e' ↦
            rw (e, merge_loop, e')
              (merge_loop-theta_join f (r ∷ rs) ss out (omega arith) hr hs.1
                ∙ ap (λ js. some (out ++ js))
                    (sym (
                      theta_join-skip_run s.key (r ∷ rs) (s ∷ []) ss (All-Above s r rs e' hr)
                        (omega arith, tt))))
        | inr e' ↦
            let same : eqb_ℤ s.key r.key ≡ true = ground arith in
            let i = run_length r.key (r ∷ rs) in
            let j = run_length r.key (s ∷ ss) in
            rw (e, merge_loop, e')
              (merge_loop-theta_join f (drop i (r ∷ rs)) (drop j (s ∷ ss)) _
                  (omega (
                    arith,
                    length-drop i (r ∷ rs),
                    length-drop j (s ∷ ss),
                    run_length_pos r.key r rs (eqb_ℤ_refl r.key),
                    run_length_pos r.key s ss same,
                  ))
                  (drop-IsSorted i (r ∷ rs) hr) (drop-IsSorted j (s ∷ ss) hs)
                ∙ ap some (equal_keys r s rs ss out same hr hs))
      ]
    ]

-- `sortMergeJoin` ends. It leaves both vectors stably sorted, and emits the equality join of the
-- sorted vectors, in its order: the pairs that the equality join of the inputs has, each as often
-- as there.
pub sort_merge_join-theta_join :
    (r s : List Row)
    → length r < size_t_mod
    → length s < size_t_mod
    → (j : Joined) × (sort_merge_join r s ≡ some j)
      × Sorts r j.r
      × Sorts s j.s
      × (j.result ≡ theta_join same_key j.r j.s)
      × Perm j.result (theta_join same_key r s)
unfolding sort_merge_join
sort_merge_join-theta_join r s hr hs =
    let (r', er, sr) = merge_sort-Sorts r hr in
    let (s', es, ss) = merge_sort-Sorts s hs in
    (
      record { r = r'; s = s'; result = theta_join same_key r' s' },
      rw (er, es)
          (ap (λ m. m >>= λ result. some (record { r = r'; s = s'; result = result }))
            (merge_loop-theta_join (suc (length r' + length s')) r' s' [] (omega arith) sr.ascending
              ss.ascending)),
      sr,
      ss,
      refl,
      theta_join-perm same_key sr.rearranged ss.rearranged,
    )
