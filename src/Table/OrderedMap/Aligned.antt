-- ===== src/Table/OrderedMap/Aligned.antt =====
-- Two maps with the same ids, each value of one related to the value of the other.
use go_prep.Base.{
  ℕ, zero, suc, ◌≡◌, refl, ap, Bool, [], ◌∷◌, ltb, ◌==◌, length, inl, inr, take, select, Bool-cases,
}
use go_prep.Table.OrderedMap.{MapOf, assign}

-- The ids stand in the same order.
abbrev pub Aligned : {V W : Type 0} → (ℕ → W → V → Type 0) → MapOf V → MapOf W → Type 0
Aligned R [] [] = Unit
Aligned R (e ∷ m) (d ∷ t) = (e.0 ≡ d.0) × R d.0 d.1 e.1 × Aligned R m t
Aligned R m t = ⊥

pub Aligned-map :
    {V W : Type 0}
    → (R S : ℕ → W → V → Type 0) → ((id : ℕ) (w : W) (v : V) → R id w v → S id w v)
    → (m : MapOf V) (t : MapOf W) → Aligned R m t
    → Aligned S m t
Aligned-map R S f [] [] a = tt
Aligned-map R S f [] (d ∷ t) a = absurd a
Aligned-map R S f (c ∷ m) [] a = absurd a
Aligned-map R S f (c ∷ m) (d ∷ t) a = (a.0, f d.0 d.1 c.1 a.1, Aligned-map R S f m t a.2)

module _ {V W : Type 0} (R : ℕ → W → V → Type 0) where
  pub Aligned-assign :
      (id : ℕ) (v : V) (w : W) (m : MapOf V) (t : MapOf W)
      → R id w v
      → Aligned R m t
      → Aligned R (assign id v m) (assign id w t)
  unfolding assign
  Aligned-assign id v w [] [] h a = (refl, h, tt)
  Aligned-assign id v w [] (d ∷ t) h a = absurd a
  Aligned-assign id v w (c ∷ m) [] h a = absurd a
  Aligned-assign id v w (c ∷ m) (d ∷ t) h a = elim (Bool-cases (ltb id d.0)) [
    | inl e ↦ rw (a.0, e, assign) (refl, h, (refl, a.1, a.2))
    | inr e ↦ elim (Bool-cases (id == d.0)) [
      | inl e' ↦ rw (a.0, e, e', assign) (refl, h, a.2)
      | inr e' ↦ rw (a.0, e, e', assign) (refl, a.1, Aligned-assign id v w m t h a.2)
    ]
  ]

  pub Aligned-select :
      (p : ℕ → Bool) (m : MapOf V) (t : MapOf W)
      → Aligned R m t
      → Aligned R (select (λ e. p e.0) m) (select (λ e. p e.0) t)
  Aligned-select p [] [] a = tt
  Aligned-select p [] (d ∷ t) a = absurd a
  Aligned-select p (c ∷ m) [] a = absurd a
  Aligned-select p (c ∷ m) (d ∷ t) a = elim (Bool-cases (p d.0)) [
    | inl e ↦ rw (a.0, e) (refl, a.1, Aligned-select p m t a.2)
    | inr e ↦ rw (a.0, e) (Aligned-select p m t a.2)
  ]

  pub Aligned-take :
      (n : ℕ) (m : MapOf V) (t : MapOf W) → Aligned R m t → Aligned R (take n m) (take n t)
  Aligned-take zero m t a = tt
  Aligned-take (suc n) [] [] a = tt
  Aligned-take (suc n) [] (d ∷ t) a = absurd a
  Aligned-take (suc n) (c ∷ m) [] a = absurd a
  Aligned-take (suc n) (c ∷ m) (d ∷ t) a = (a.0, a.1, Aligned-take n m t a.2)

  pub Aligned-length : (m : MapOf V) (t : MapOf W) → Aligned R m t → length m ≡ length t
  Aligned-length [] [] a = refl
  Aligned-length [] (d ∷ t) a = absurd a
  Aligned-length (c ∷ m) [] a = absurd a
  Aligned-length (c ∷ m) (d ∷ t) a = ap suc (Aligned-length m t a.2)
