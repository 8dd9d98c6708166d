-- ===== src/Base/Counts.antt =====
-- Sums over a list, which count the elements of a kind.
use Prim.Native.Nat.{ℕ, ◌+◌}
use mathlib.Core.Path.{◌≡◌, refl, ap, ◌∙◌}
use mathlib.Core.Logic.{∥∥₁_elim}
use mathlib.Core.List.{List, [], ◌∷◌, ◌++◌, Perm, Permᴰ}
use native.Mathlib.Nat.{ℕ_set}
use native.Mathlib.Omega.{arith}

abbrev pub total {ℓ} : {A : Type ℓ} → (A → ℕ) → List A → ℕ
total f [] = 0
total f (x ∷ xs) = f x + total f xs

pub total-middle {ℓ} :
    {A : Type ℓ} (f : A → ℕ) (xs ys : List A) (x : A)
    → total f (xs ++ x ∷ ys) ≡ f x + total f (xs ++ ys)
total-middle f [] ys x = refl
total-middle f (z ∷ xs) ys x = omega (arith, total-middle f xs ys x)

-- One thread of a list changes its place.
pub total-change {ℓ} :
    {A : Type ℓ} (f : A → ℕ) (zs xs ys : List A) (x y : A)
    → zs ≡ xs ++ x ∷ ys
    → total f zs + f y ≡ total f (xs ++ y ∷ ys) + f x
total-change f zs xs ys x y at =
    omega (arith, ap (total f) at, total-middle f xs ys x, total-middle f xs ys y)

pub total-append {ℓ} :
    {A : Type ℓ} (f : A → ℕ) (xs ys : List A) → total f (xs ++ ys) ≡ total f xs + total f ys
total-append f [] ys = omega arith
total-append f (x ∷ xs) ys = omega (arith, total-append f xs ys)

total-perm_raw {ℓ} :
    {A : Type ℓ} (f : A → ℕ) {xs ys : List A} → Permᴰ xs ys → total f xs ≡ total f ys
total-perm_raw f Permᴰ.nil = refl
total-perm_raw f (Permᴰ.cons e d) = omega (arith, ap f e, total-perm_raw f d)
total-perm_raw f (Permᴰ.swap {a = a} {b = b} {l = l} e d) = omega (arith, ap f e, ap f d)
total-perm_raw f (Permᴰ.trans d e) = total-perm_raw f d ∙ total-perm_raw f e

pub total-perm {ℓ} :
    {A : Type ℓ} (f : A → ℕ) {xs ys : List A} → Perm xs ys → total f xs ≡ total f ys
total-perm f {xs} {ys} h = ∥∥₁_elim h (ℕ_set (total f xs) (total f ys)) (total-perm_raw f)
