-- ===== src/Base/Loops.antt =====
-- The loops of the program: over a collection, and counted.
use Prim.Native.Nat.{ℕ, zero, suc, ◌+◌, ◌≤◌, ◌<◌}
use mathlib.Core.Logic.{inl, inr}
use mathlib.Core.Path.{◌≡◌, refl, sym, ap, ◌∙◌}
use mathlib.Core.List.{List, [], ◌∷◌, ◌++◌, map, append-nil, append_assoc, flat_map, Perm, Permᴰ}
use mathlib.Core.List.Perm
use mathlib.Core.Logic.{∥∥₁_elim}
use native.Mathlib.Omega.{arith}
use mathlib.Core.Bool.{Bool}
use go_prep.Base.Tests.{if◌then◌else◌, ◌==◌, Bool-cases, ==_iff}
use go_prep.Base.Lists.{push_back, select, perm_append_comm, perm_interchange, perm_of_eq}

-- `for (auto& x : xs) body`, where `body x s` is the state after the body.
unfoldable pub for_each {ℓ κ} : {A : Type ℓ} {S : Type κ} → List A → (A → S → S) → S → S
for_each [] body s = s
for_each (x ∷ xs) body s = for_each xs body (body x s)

-- `for (i = start; i < start + n; ++i) body`
unfoldable pub count_from {ℓ} : {S : Type ℓ} → ℕ → ℕ → (ℕ → S → S) → S → S
count_from zero first step state = state
count_from (suc n) first step state = count_from n (first + 1) step (step first state)

module _ {ℓ κ} {A : Type ℓ} {B : Type κ} where
  pub map_append : (f : A → B) (xs ys : List A) → map f (xs ++ ys) ≡ map f xs ++ map f ys
  map_append f [] ys = refl
  map_append f (x ∷ xs) ys = ap (◌∷◌ (f x)) (map_append f xs ys)

  -- A loop whose body only appends is a concatenation.
  pub for_each-append :
      (f : A → List B) (body : A → List B → List B)
      → ((a : A) (out : List B) → body a out ≡ out ++ f a)
      → (xs : List A) (out : List B) → for_each xs body out ≡ out ++ flat_map f xs
  unfolding for_each flat_map
  for_each-append f body step [] out = sym (append-nil out)
  for_each-append f body step (x ∷ xs) out =
      for_each-append f body step xs (body x out)
      ∙ rw (step x out, append_assoc out (f x) (flat_map f xs))

  pub for_each-push :
      (f : A → B) (xs : List A) (out : List B)
      → for_each xs (λ x res. push_back res (f x)) out ≡ out ++ map f xs
  unfolding for_each
  for_each-push f [] out = sym (append-nil out)
  for_each-push f (x ∷ xs) out =
      for_each-push f xs (push_back out (f x)) ∙ append_assoc out (f x ∷ []) (map f xs)

  pub flat_map-append :
      (f : A → List B) (xs ys : List A) → flat_map f (xs ++ ys) ≡ flat_map f xs ++ flat_map f ys
  unfolding flat_map
  flat_map-append f [] ys = refl
  flat_map-append f (x ∷ xs) ys = rw (flat_map-append f xs ys, append_assoc (f x))

  -- Element by element, then all together.
  pub flat_map_congr :
      (f g : A → List B)
      → ((a : A) → Perm (f a) (g a))
      → (xs : List A) → Perm (flat_map f xs) (flat_map g xs)
  unfolding flat_map
  flat_map_congr f g h [] = Perm.nil
  flat_map_congr f g h (x ∷ xs) = Perm.append (h x) (flat_map_congr f g h xs)

  pub flat_map-append_pointwise :
      (f g : A → List B) (xs : List A)
      → Perm (flat_map (λ a. f a ++ g a) xs) (flat_map f xs ++ flat_map g xs)
  unfolding flat_map
  flat_map-append_pointwise f g [] = Perm.nil
  flat_map-append_pointwise f g (x ∷ xs) =
      Perm.trans (Perm.append_left (f x ++ g x) (flat_map-append_pointwise f g xs))
        (perm_interchange (f x) (g x) (flat_map f xs) (flat_map g xs))

  flat_map-perm_raw :
      (f : A → List B) {xs ys : List A} → Permᴰ xs ys → Perm (flat_map f xs) (flat_map f ys)
  unfolding flat_map
  flat_map-perm_raw f Permᴰ.nil = Perm.nil
  flat_map-perm_raw f (Permᴰ.cons e d) = Perm.append (perm_of_eq (ap f e)) (flat_map-perm_raw f d)
  flat_map-perm_raw f (Permᴰ.swap {a = a} {b = b} {l = l} e d) =
      rw
        (
          ← e,
          ← d,
          ← append_assoc (f a) (f b) (flat_map f l),
          ← append_assoc (f b) (f a) (flat_map f l),
        )
        (Perm.append_right (flat_map f l) (perm_append_comm (f a) (f b)))
  flat_map-perm_raw f (Permᴰ.trans d e) = Perm.trans (flat_map-perm_raw f d) (flat_map-perm_raw f e)

  pub flat_map-perm :
      (f : A → List B) {xs ys : List A} → Perm xs ys → Perm (flat_map f xs) (flat_map f ys)
  flat_map-perm f h = ∥∥₁_elim h squash₁ (flat_map-perm_raw f)

  pub flat_map-nil : (f : A → List B) (xs : List A) → ((a : A) → f a ≡ []) → flat_map f xs ≡ []
  unfolding flat_map
  flat_map-nil f [] h = refl
  flat_map-nil f (x ∷ xs) h = rw (h x) (flat_map-nil f xs h)

module _ {ℓ} {A : Type ℓ} (p : A → Bool) where
  select-flat_map : (xs : List A) → select p xs ≡ flat_map (λ x. if p x then x ∷ [] else []) xs
  unfolding flat_map
  select-flat_map [] = refl
  select-flat_map (x ∷ xs) = ground (arith, select-flat_map xs)

  pub perm_select : {xs ys : List A} → Perm xs ys → Perm (select p xs) (select p ys)
  perm_select {xs} {ys} h = rw (select-flat_map xs, select-flat_map ys) (flat_map-perm _ h)

-- The numbers from `start` on, `n` of them.
abbrev pub range : ℕ → ℕ → List ℕ
range start zero = []
range start (suc n) = start ∷ range (start + 1) n

-- A counted loop whose body only appends.
pub count_from-append {ℓ} :
    {B : Type ℓ} (f : ℕ → List B) (body : ℕ → List B → List B)
    → ((i : ℕ) (out : List B) → body i out ≡ out ++ f i)
    → (n start : ℕ) (out : List B) → count_from n start body out ≡ out ++ flat_map f (range start n)
unfolding count_from flat_map
count_from-append f body step zero start out = sym (append-nil out)
count_from-append f body step (suc n) start out =
    count_from-append f body step n (start + 1) (body start out)
    ∙ rw (step start out, append_assoc out (f start))

flat_map-range_none {ℓ} :
    {B : Type ℓ} (xs : List B) (i n start : ℕ)
    → i < start
    → flat_map (λ j. if i == j then xs else []) (range start n) ≡ []
unfolding flat_map
flat_map-range_none xs i zero start h = refl
flat_map-range_none xs i (suc n) start h = ground (arith, flat_map-range_none xs i n (start + 1))

-- Over the numbers below `n`, a part that only `i` has is counted once.
pub flat_map-range_single {ℓ} :
    {B : Type ℓ} (xs : List B) (i n start : ℕ)
    → start ≤ i
    → i < start + n
    → flat_map (λ j. if i == j then xs else []) (range start n) ≡ xs
unfolding flat_map
flat_map-range_single xs i zero start h k = absurd (omega arith)
flat_map-range_single xs i (suc n) start h k = elim (Bool-cases (i == start)) [
  | inl e ↦
      let found : i ≡ start = (==_iff i start).0 e in
      rw (e, flat_map-range_none xs i n (start + 1) (omega arith)) (append-nil xs)
  | inr e ↦ rw e (flat_map-range_single xs i n (start + 1) (ground arith) (omega arith))
]
