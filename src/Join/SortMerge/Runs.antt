-- ===== src/Join/SortMerge/Runs.antt =====
-- Runs of one key in sorted rows, and which rows of the other side they meet.
use mathlib.Core.List.{flat_map}
use go_prep.Base.{
  ◌≡◌, refl, ap, ◌∙◌, true, List, [], ◌∷◌, ◌++◌, map, append-nil, arith, inl, inr, Bool-cases, take,
  drop, select, select-append, select-nil, select_all, All, All-map, for_each-append, for_each-push,
}
use go_prep.Base.Int.{ℤ, eqb_ℤ, ltb_ℤ, ◌≤ℤ◌}
use go_prep.Join.Row.{Row, JoinedRow, joined, same_key, theta_join}
use go_prep.Join.MergeSort.Order.{IsSorted}
use go_prep.Join.SortMerge.{run_length, cross_product}

abbrev pub HasKey : ℤ → Row → Type 0
HasKey k x = eqb_ℤ x.key k ≡ true

abbrev pub Above : ℤ → Row → Type 0
Above k x = ltb_ℤ k x.key ≡ true

-- The run holds the key, and behind it all rows of a sorted vector are above the key.
pub run-HasKey : (k : ℤ) (xs : List Row) → All (HasKey k) (take (run_length k xs) xs)
unfolding run_length
run-HasKey k [] = tt
run-HasKey k (x ∷ xs) = elim (Bool-cases (eqb_ℤ x.key k)) [
  | inl e ↦ rw e (e, run-HasKey k xs)
  | inr e ↦ rw e tt
]

pub rest-Above :
    (k : ℤ) (xs : List Row)
    → IsSorted xs
    → All (λ x. k ≤ℤ x.key) xs
    → All (Above k) (drop (run_length k xs) xs)
unfolding run_length
rest-Above k [] h low = tt
rest-Above k (x ∷ xs) h low = elim (Bool-cases (eqb_ℤ x.key k)) [
  | inl e ↦ rw e (rest-Above k xs h.1 low.1)
  | inr e ↦ rw e (ground arith, All-map {P = λ y. x.key ≤ℤ y.key} (λ y le. ground arith) xs h.0)
]

-- A row meets nothing above it, and all of the run of its key.
select-Above :
    (r : Row) (k : ℤ) (xs : List Row) → HasKey k r → All (Above k) xs → select (same_key r) xs ≡ []
select-Above r k xs e h =
    select-nil (same_key r) xs (All-map {P = Above k} (λ x up. ground arith) xs h)

select-HasKey :
    (r : Row) (k : ℤ) (xs : List Row) → HasKey k r → All (HasKey k) xs → select (same_key r) xs ≡ xs
select-HasKey r k xs e h =
    select_all (same_key r) xs (All-map {P = HasKey k} (λ x same. ground arith) xs h)

-- Rows above a key meet none of its run.
pub theta_join-skip_run :
    (k : ℤ) (rs run ss : List Row)
    → All (Above k) rs
    → All (λ x. x.key ≤ℤ k) run
    → theta_join same_key rs (run ++ ss) ≡ theta_join same_key rs ss
unfolding theta_join flat_map
theta_join-skip_run k [] run ss h low = refl
theta_join-skip_run k (r ∷ rs) run ss h low = rw (
  select-append (same_key r) run ss,
  select-nil (same_key r) run
      (All-map {P = λ x. x.key ≤ℤ k} (λ x le. let up : Above k r = h.0 in ground arith) run low),
  theta_join-skip_run k rs run ss h.1 low,
)

run_pairs :
    (k : ℤ) (run_r run_s ss : List Row)
    → All (HasKey k) run_r
    → All (HasKey k) run_s
    → All (Above k) ss
    → flat_map (λ a. map (joined a) run_s) run_r ≡ theta_join same_key run_r (run_s ++ ss)
unfolding theta_join flat_map
run_pairs k [] run_s ss h same above = refl
run_pairs k (r ∷ run_r) run_s ss h same above = rw (
  select-append (same_key r) run_s ss,
  select-HasKey r k run_s h.0 same,
  select-Above r k ss h.0 above,
  append-nil run_s,
  run_pairs k run_r run_s ss h.1 same above,
)

-- The run of a key meets the run of that key on the other side, and no row above it.
pub cross_product-theta_join :
    (k : ℤ) (run_r run_s ss : List Row) (out : List JoinedRow)
    → All (HasKey k) run_r
    → All (HasKey k) run_s
    → All (Above k) ss
    → cross_product run_r run_s out ≡ out ++ theta_join same_key run_r (run_s ++ ss)
unfolding cross_product
cross_product-theta_join k run_r run_s ss out h same above =
    for_each-append (λ a. map (joined a) run_s) _ (λ a. for_each-push (joined a) run_s) run_r out
    ∙ ap (◌++◌ out) (run_pairs k run_r run_s ss h same above)
