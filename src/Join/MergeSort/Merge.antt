-- ===== src/Join/MergeSort/Merge.antt =====
-- The merging loop, through a twin without an accumulator.
use mathlib.Core.List.Perm
use mathlib.Core.List.{perm_middle}
use go_prep.Base.{
  ◌+◌, ◌≡◌, refl, sym, ap, ◌∙◌, true, false, List, [], ◌∷◌, ◌++◌, append-nil, append_assoc, Perm,
  arith, Bool-cases, inl, inr, length, select-nil, select-append, length-append, All, All-map,
}
use go_prep.Base.Int.{ℤ, eqb_ℤ, leb_ℤ, ◌≤ℤ◌}
use go_prep.Join.Row.{Row}
use go_prep.Join.MergeSort.Order.{IsSorted, of_key, Sorts}
use go_prep.Join.MergeSort.{merge_into}

zip_sorted : List Row → List Row → List Row
zip_sorted [] r = r
zip_sorted (x ∷ l) [] = x ∷ l
zip_sorted (x ∷ l) (y ∷ r) = elim (leb_ℤ x.key y.key) [
  | true ↦ x ∷ zip_sorted l (y ∷ r)
  | false ↦ y ∷ zip_sorted (x ∷ l) r
]

module _ (x y : Row) (l r : List Row) where
  zip_sorted_left : leb_ℤ x.key y.key ≡ true → zip_sorted (x ∷ l) (y ∷ r) ≡ x ∷ zip_sorted l (y ∷ r)
  unfolding zip_sorted
  zip_sorted_left e = ground arith

  zip_sorted_right :
      leb_ℤ x.key y.key ≡ false → zip_sorted (x ∷ l) (y ∷ r) ≡ y ∷ zip_sorted (x ∷ l) r
  unfolding zip_sorted
  zip_sorted_right e = ground arith

merge_into-zip_sorted : (l r temp : List Row) → merge_into l r temp ≡ temp ++ zip_sorted l r
unfolding merge_into zip_sorted
merge_into-zip_sorted [] r temp = refl
merge_into-zip_sorted (x ∷ l) [] temp = rw (append-nil l)
merge_into-zip_sorted (x ∷ l) (y ∷ r) temp = elim (Bool-cases (leb_ℤ x.key y.key)) [
  | inl e ↦
      rw (e, merge_into, zip_sorted)
        (merge_into-zip_sorted l (y ∷ r) _ ∙ append_assoc temp (x ∷ []) _)
  | inr e ↦
      rw (e, merge_into, zip_sorted)
        (merge_into-zip_sorted (x ∷ l) r _ ∙ append_assoc temp (y ∷ []) _)
]

All-zip_sorted {ℓ} :
    (P : Row → Type ℓ) (l r : List Row) → All P l → All P r → All P (zip_sorted l r)
unfolding zip_sorted
All-zip_sorted P [] r h k = k
All-zip_sorted P (x ∷ l) [] h k = h
All-zip_sorted P (x ∷ l) (y ∷ r) h k = elim (Bool-cases (leb_ℤ x.key y.key)) [
  | inl e ↦ rw (zip_sorted_left x y l r e) (h.0, All-zip_sorted P l (y ∷ r) h.1 k)
  | inr e ↦ rw (zip_sorted_right x y l r e) (k.0, All-zip_sorted P (x ∷ l) r h k.1)
]

-- A row below the head of a sorted list is below all of it.
below_all :
    (x y : Row) (r : List Row)
    → x.key ≤ℤ y.key
    → All (λ z. y.key ≤ℤ z.key) r
    → All (λ z. x.key ≤ℤ z.key) (y ∷ r)
below_all x y r h k = (h, All-map (λ z le. omega arith) r k)

zip_sorted-IsSorted : (l r : List Row) → IsSorted l → IsSorted r → IsSorted (zip_sorted l r)
unfolding zip_sorted
zip_sorted-IsSorted [] r h k = k
zip_sorted-IsSorted (x ∷ l) [] h k = h
zip_sorted-IsSorted (x ∷ l) (y ∷ r) h k = elim (Bool-cases (leb_ℤ x.key y.key)) [
  | inl e ↦ rw (zip_sorted_left x y l r e) (
    All-zip_sorted (λ z. x.key ≤ℤ z.key) l (y ∷ r) h.0 (below_all x y r (ground arith) k.0),
    zip_sorted-IsSorted l (y ∷ r) h.1 k,
  )
  | inr e ↦ rw (zip_sorted_right x y l r e) (
    All-zip_sorted (λ z. y.key ≤ℤ z.key) (x ∷ l) r (below_all y x l (ground arith) h.0) k.0,
    zip_sorted-IsSorted (x ∷ l) r h k.1,
  )
]

zip_sorted-perm : (l r : List Row) → Perm (zip_sorted l r) (l ++ r)
unfolding zip_sorted
zip_sorted-perm [] r = Perm.refl r
zip_sorted-perm (x ∷ l) [] = rw (append-nil l) (Perm.refl (x ∷ l))
zip_sorted-perm (x ∷ l) (y ∷ r) = elim (Bool-cases (leb_ℤ x.key y.key)) [
  | inl e ↦ rw (zip_sorted_left x y l r e) (Perm.cons x (zip_sorted-perm l (y ∷ r)))
  | inr e ↦
      rw (zip_sorted_right x y l r e)
        (Perm.trans (Perm.cons y (zip_sorted-perm (x ∷ l) r)) (Perm.symm (perm_middle (x ∷ l) r)))
]

length-zip_sorted : (l r : List Row) → length (zip_sorted l r) ≡ length l + length r
unfolding zip_sorted
length-zip_sorted [] r = omega arith
length-zip_sorted (x ∷ l) [] = omega arith
length-zip_sorted (x ∷ l) (y ∷ r) =
    ground (arith, length-zip_sorted l (y ∷ r), length-zip_sorted (x ∷ l) r)

-- Rows above `y` have another key.
of_key_above :
    (k : ℤ) (x y : Row) (l : List Row)
    → leb_ℤ x.key y.key ≡ false
    → IsSorted (x ∷ l)
    → eqb_ℤ k y.key ≡ true
    → of_key k (x ∷ l) ≡ []
of_key_above k x y l above h e =
    select-nil (λ z. eqb_ℤ k z.key) (x ∷ l)
      (All-map {P = λ z. x.key ≤ℤ z.key} (λ z le. ground arith) (x ∷ l) (omega arith, h.0))

of_key-zip_sorted :
    (k : ℤ) (l r : List Row) → IsSorted l → of_key k (zip_sorted l r) ≡ of_key k l ++ of_key k r
unfolding zip_sorted
of_key-zip_sorted k [] r h = refl
of_key-zip_sorted k (x ∷ l) [] h = sym (append-nil (of_key k (x ∷ l)))
of_key-zip_sorted k (x ∷ l) (y ∷ r) h = elim (Bool-cases (leb_ℤ x.key y.key)) [
  | inl e ↦ rw (zip_sorted_left x y l r e) (
      select-append (λ z. eqb_ℤ k z.key) (x ∷ []) (zip_sorted l (y ∷ r))
      ∙ ap (◌++◌ (of_key k (x ∷ []))) (of_key-zip_sorted k l (y ∷ r) h.1)
      ∙ sym (append_assoc (of_key k (x ∷ [])) (of_key k l) (of_key k (y ∷ r)))
      ∙ ap (λ zs. zs ++ of_key k (y ∷ r)) (sym (select-append (λ z. eqb_ℤ k z.key) (x ∷ []) l)))
  | inr e ↦ rw (zip_sorted_right x y l r e) (elim (Bool-cases (eqb_ℤ k y.key)) [
    | inl same ↦ rw (same, of_key-zip_sorted k (x ∷ l) r h, of_key_above k x y l e h same)
    | inr other ↦ rw other (of_key-zip_sorted k (x ∷ l) r h)
  ])
]

-- Merging two sorted halves sorts the whole.
pub merge_into-Sorts :
    {xs ys a b : List Row} → Sorts xs a → Sorts ys b → Sorts (xs ++ ys) (merge_into a b [])
merge_into-Sorts {xs} {ys} {a} {b} h k = rw (merge_into-zip_sorted a b []) (record {
  ascending = zip_sorted-IsSorted a b h.ascending k.ascending;
  rearranged = Perm.trans (zip_sorted-perm a b) (Perm.append h.rearranged k.rearranged);
  as_long = length-zip_sorted a b ∙ omega (arith, h.as_long, k.as_long, length-append xs ys);
  stable = λ key.
      of_key-zip_sorted key a b h.ascending
      ∙ rw (h.stable key, k.stable key) (sym (select-append (λ x. eqb_ℤ key x.key) xs ys));
})
