-- ===== src/Base/Entries.antt =====
-- What holds of all entries of a list, and of each of them.
use Prim.Native.Nat.{ℕ, zero, suc, ◌<◌}
use mathlib.Core.Path.{◌≡◌, refl, sym, ap, subst}
use mathlib.Core.Bool.{Bool}
use mathlib.Core.List.{map, List, [], ◌∷◌, ◌++◌, Mem, Memᴰ}
use mathlib.Core.Logic.{inl, inr, ∥∥₁_elim}
use native.Mathlib.Omega.{arith}
use go_prep.Base.Tests.{Bool-cases}
use go_prep.Base.Lists.{length, get_or, take, select, All, All-append}

module _ {ℓ κ} {A : Type ℓ} (P : A → Type κ) where
  pub All-split : (xs ys : List A) → All P (xs ++ ys) → All P xs × All P ys
  All-split [] ys h = (tt, h)
  All-split (x ∷ xs) ys h = let (l, r) = All-split xs ys h.1 in ((h.0, l), r)

  -- One element, and what is left when it is replaced or taken out.
  pub All-at : (xs : List A) (x : A) (ys : List A) → All P (xs ++ x ∷ ys) → P x
  All-at xs x ys h = (All-split xs (x ∷ ys) h).1.0

  pub All-replace :
      (xs : List A) (x y : A) (ys : List A) → P y → All P (xs ++ x ∷ ys) → All P (xs ++ y ∷ ys)
  All-replace xs x y ys new h =
      let (l, r) = All-split xs (x ∷ ys) h in All-append P xs (y ∷ ys) l (new, r.1)

  pub All-remove : (xs : List A) (x : A) (ys : List A) → All P (xs ++ x ∷ ys) → All P (xs ++ ys)
  All-remove xs x ys h = let (l, r) = All-split xs (x ∷ ys) h in All-append P xs ys l r.1

  pub All-select : (p : A → Bool) (xs : List A) → All P xs → All P (select p xs)
  All-select p [] h = tt
  All-select p (x ∷ xs) h = elim (Bool-cases (p x)) [
    | inl e ↦ rw (e, select) (h.0, All-select p xs h.1)
    | inr e ↦ rw (e, select) (All-select p xs h.1)
  ]

  pub All-take : (n : ℕ) (xs : List A) → All P xs → All P (take n xs)
  All-take zero xs h = tt
  All-take (suc n) [] h = tt
  All-take (suc n) (x ∷ xs) h = (h.0, All-take n xs h.1)

  All-Mem_raw : (x : A) (xs : List A) → All P xs → Memᴰ x xs → P x
  All-Mem_raw x [] all m = elim m [ ]
  All-Mem_raw x (y ∷ xs) all (Memᴰ.head h) = subst P (sym h) all.0
  All-Mem_raw x (y ∷ xs) all (Memᴰ.tail m) = All-Mem_raw x xs all.1 m

  pub All-Mem : (x : A) (xs : List A) → IsProp (P x) → All P xs → Mem x xs → P x
  All-Mem x xs prop all m = ∥∥₁_elim m prop (All-Mem_raw x xs all)

  pub All-get_or : (xs : List A) (i : ℕ) (d : A) → i < length xs → All P xs → P (get_or xs i d)
  All-get_or [] i d h all = absurd (omega arith)
  All-get_or (x ∷ xs) zero d h all = all.0
  All-get_or (x ∷ xs) (suc i) d h all = All-get_or xs i d (omega arith) all.1

pub length-map {ℓ κ} :
    {A : Type ℓ} {B : Type κ} (f : A → B) (xs : List A) → length (map f xs) ≡ length xs
length-map f [] = refl
length-map f (x ∷ xs) = ap suc (length-map f xs)
