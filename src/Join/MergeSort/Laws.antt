-- ===== src/Join/MergeSort/Laws.antt =====
-- The recursion over ranges sorts its range, leaves the rest, and ends.
use mathlib.Core.List.Perm
use go_prep.Base.{
  take-part, drop-part, ℕ, zero, suc, ◌+◌, ◌-◌, ◌/◌, ◌≤◌, ◌<◌, ◌≡◌, refl, ap, ◌∙◌, List, [], ◌∷◌,
  ◌++◌, append-nil, append_assoc, some, arith, Bool-cases, inl, inr, leb, ◌>>=◌, leb→le, size_t_mod,
  length, take, drop, length-append, length-take, length-drop, take-append-drop,
}
use go_prep.Join.Row.{Row}
use go_prep.Join.MergeSort.Order.{Sorts}
use go_prep.Join.MergeSort.Merge.{merge_into-Sorts}
use go_prep.Join.MergeSort.{merge_into, slice, merge, sub_size_t, merge_sort_range, merge_sort}

sub_size_t_lem : (a b : ℕ) → b ≤ a → a < size_t_mod → sub_size_t a b ≡ a - b
sub_size_t_lem a b h k = omega arith

short-Sorts : (xs : List Row) → length xs ≤ 1 → Sorts xs xs
short-Sorts [] h = record {
  ascending = tt;
  rearranged = Perm.refl [];
  as_long = refl;
  stable = λ k. refl;
}
short-Sorts (x ∷ []) h = record {
  ascending = (tt, tt);
  rearranged = Perm.refl _;
  as_long = refl;
  stable = λ k. refl;
}
short-Sorts (x ∷ y ∷ xs) h = absurd (omega arith)

-- `merge` replaces two neighbouring ranges by the merged rows.
module _ (p a b s : List Row) (left mid right : ℕ) (at_left : length p ≡ left)
    (at_mid : length p + length a ≡ mid) (at_right : length p + length a + length b ≡ right)
    (as_long : length (merge_into a b []) ≡ length a + length b) where
  abbrev all_rows : List Row
  all_rows = p ++ (a ++ (b ++ s))

  slice-first : slice all_rows left mid ≡ a
  slice-first =
      rw (drop-part left p (a ++ (b ++ s)) at_left)
        (take-part (mid - left) a (b ++ s) (omega arith))

  slice-second : slice all_rows mid right ≡ b
  slice-second =
      rw
        (
          ← append_assoc p a (b ++ s),
          drop-part mid (p ++ a) (b ++ s) (omega (arith, length-append p a)),
        )
        (take-part (right - mid) b s (omega arith))

  rest_after : drop (left + length (merge_into a b [])) all_rows ≡ s
  rest_after =
      rw (as_long, ← append_assoc a b s, ← append_assoc p (a ++ b) s)
        (drop-part (left + (length a + length b)) (p ++ (a ++ b)) s
          (omega (arith, length-append p (a ++ b), length-append a b)))

  merge_parts : merge all_rows left mid right ≡ p ++ (merge_into a b [] ++ s)
  unfolding merge
  merge_parts = rw (slice-first, slice-second, rest_after, take-part left p (a ++ (b ++ s)) at_left)

-- Any range of a vector is sorted in place.
abbrev SortsRange : ℕ → List Row → List Row → List Row → ℕ → ℕ → Type 0
SortsRange fuel p xs s left right =
    (ys : List Row) × (merge_sort_range fuel (p ++ (xs ++ s)) left right ≡ some (p ++ (ys ++ s)))
    × Sorts xs ys

sort_halves :
    (f : ℕ) (p a b s : List Row) (left mid right : ℕ)
    → length p ≡ left
    → length p + length a ≡ mid
    → length p + length a + length b ≡ right
    → SortsRange f p a (b ++ s) left mid
    → ((c : List Row) → length c ≡ length a → SortsRange f (p ++ c) b s mid right)
    → (ys : List Row) × ((merge_sort_range f (p ++ (a ++ (b ++ s))) left mid >>= λ first.
          merge_sort_range f first mid right >>= λ second. some (merge second left mid right))
        ≡ some (p ++ (ys ++ s)))
      × Sorts (a ++ b) ys
sort_halves f p a b s left mid right at_left at_mid at_right (c, first, sc) second =
    let (d, e, sd) = second c sc.as_long in
    let both = merge_into-Sorts sc sd in
    (
      merge_into c d [],
      rw (first, ← append_assoc p c (b ++ s), e, append_assoc p c (d ++ s))
          (ap some (
            merge_parts p c d s left mid right at_left (omega (arith, sc.as_long))
              (omega (arith, sc.as_long, sd.as_long))
              (omega (arith, both.as_long, sc.as_long, sd.as_long, length-append a b)))),
      both,
    )

regroup : (n : ℕ) (p xs s : List Row) → p ++ (take n xs ++ (drop n xs ++ s)) ≡ p ++ (xs ++ s)
regroup n p xs s = rw (← append_assoc (take n xs) (drop n xs) s, take-append-drop n xs)

fits_parts :
    (p a b s : List Row)
    → length p + length a + length b + length s < size_t_mod
    → length (p ++ (a ++ (b ++ s))) < size_t_mod
fits_parts p a b s h =
    omega (arith, length-append p (a ++ (b ++ s)), length-append a (b ++ s), length-append b s)

sort_range :
    (fuel : ℕ) (p xs s : List Row) (left right : ℕ)
    → length p ≡ left
    → length p + length xs ≡ right
    → length (p ++ (xs ++ s)) < size_t_mod
    → length xs < fuel
    → SortsRange fuel p xs s left right
unfolding merge_sort_range
sort_range zero p xs s left right at_left at_right fits h = absurd (omega arith)
sort_range (suc f) p xs s left right at_left at_right fits h =
    elim (Bool-cases (leb (length xs) 1)) [
      | inl short ↦ (xs, rw (width, short), short-Sorts xs (leb→le _ _ short))
      | inr long ↦
          let a = take half xs in
          let b = drop half xs in
          let len_a : length a ≡ half = omega (arith, length-take half xs) in
          let len_b : length b ≡ length xs - half = omega (arith, length-drop half xs) in
          let many : 1 < length xs = ground arith in
          let total : length p + length xs + length s < size_t_mod =
            omega (arith, length-append p (xs ++ s), length-append xs s) in
          rw (width, long)
            (rw (regroup half p xs s, take-append-drop) at
              (sort_halves f p a b s left (left + half) right at_left (omega arith) (omega arith)
                (sort_range f p a (b ++ s) left (left + half) at_left (omega arith)
                  (fits_parts p a b s (omega arith)) (omega arith))
                (λ c len_c.
                  sort_range f (p ++ c) b s (left + half) right (omega (arith, length-append p c))
                    (omega (arith, length-append p c))
                    (rw (append_assoc p c (b ++ s)) (fits_parts p c b s (omega arith)))
                    (omega arith))))
    ]
  where
    half : ℕ
    half = length xs / 2

    width : sub_size_t right left ≡ length xs
    width =
        sub_size_t_lem right left (omega arith)
          (omega (arith, length-append p (xs ++ s), length-append xs s))
        ∙ omega arith

-- `mergeSort` ends, and leaves the vector in ascending order of the keys: the same rows, those of
-- one key in the order in which they came.
pub merge_sort-Sorts :
    (rows : List Row)
    → length rows < size_t_mod
    → (sorted : List Row) × (merge_sort rows ≡ some sorted) × Sorts rows sorted
unfolding merge_sort
merge_sort-Sorts rows h =
    let (sorted, e, laws) =
      sort_range (suc (length rows)) [] rows [] 0 (length rows) refl (omega arith)
        (rw (append-nil rows) h) (omega arith) in
    (sorted, rw (append-nil rows, append-nil sorted) at e, laws)
