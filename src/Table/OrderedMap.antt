-- ===== src/Table/OrderedMap.antt =====
-- `std::map<uint64_t, V>`, from an id to an offset, as the list that an iterator walks over.
pub mod Aligned
use go_prep.Base.{
  Bool, true, ◌++◌, sym, ap, ap₂, subst, ==_iff, ℕ, ◌<◌, ◌≡◌, refl, Option, none, some, List, [],
  ◌∷◌, if◌then◌else◌, ltb, ltb→lt, ◌==◌, arith, select, All, All-map, Bool-cases, inl, inr,
  select_all,
}

abbrev pub MapOf : Type 0 → Type 0
MapOf V = List (ℕ × V)

abbrev pub Map : Type 0
Map = MapOf ℕ

-- `m[k] = v`
unfoldable pub assign : {V : Type 0} → ℕ → V → MapOf V → MapOf V
assign k v [] = (k, v) ∷ []
assign k v ((j, w) ∷ m) =
    if ltb k j then (k, v) ∷ (j, w) ∷ m else (if k == j then (k, v) ∷ m else (j, w) ∷ assign k v m)

-- The entries from `m.upper_bound(k)` on.
unfoldable pub upper_bound : {V : Type 0} → ℕ → MapOf V → MapOf V
upper_bound k [] = []
upper_bound k ((j, w) ∷ m) = if ltb k j then (j, w) ∷ m else upper_bound k m

unfoldable pub lookup : {V : Type 0} → ℕ → MapOf V → Option V
lookup k [] = none
lookup k ((j, w) ∷ m) = if j == k then some w else lookup k m

-- What is found passes each property of the entries, and each selection that lets its key pass.
pub All-lookup {ℓ} :
    {V : Type 0}
    → (P : ℕ × V → Type ℓ) (k : ℕ) (v : V) (m : MapOf V) → All P m
    → lookup k m ≡ some v
    → P (k, v)
unfolding lookup
All-lookup P k v [] all e = ground arith
All-lookup P k v ((j, w) ∷ m) all e = elim (Bool-cases (j == k)) [
  | inl same ↦
      let found : w ≡ v = ground arith in
      subst P (ap₂ (λ i u. (i, u)) ((==_iff j k).0 same) found) all.0
  | inr other ↦ All-lookup P k v m all.1 (ground arith)
]

pub lookup-select :
    {V : Type 0}
    → (p : ℕ → Bool) (k : ℕ) (v : V) (m : MapOf V) → p k ≡ true
    → lookup k m ≡ some v
    → (us : MapOf V) × (vs : MapOf V) × (select (λ e. p e.0) m ≡ us ++ (k, v) ∷ vs)
unfolding lookup
lookup-select p k v [] h e = ground arith
lookup-select p k v ((j, w) ∷ m) h e = elim (Bool-cases (j == k)) [
  | inl same ↦
      let found : w ≡ v = ground arith in
      let entry = ap₂ (λ i u. (i, u)) ((==_iff j k).0 same) found in
      let passes = subst (λ i. p i ≡ true) (sym ((==_iff j k).0 same)) h in
      ([], select (λ e. p e.0) m, rw passes (ap (λ d. d ∷ select (λ e. p e.0) m) entry))
  | inr other ↦
      let (us, vs, at) = lookup-select p k v m h (ground arith) in
      elim (Bool-cases (p j)) [
        | inl passes ↦ ((j, w) ∷ us, vs, rw passes (ap (◌∷◌ (j, w)) at))
        | inr fails ↦ (us, vs, rw fails at)
      ]
]

-- Ascending keys, none twice.
abbrev pub Ordered : {V : Type 0} → MapOf V → Type 0
Ordered [] = Unit {0}
Ordered (e ∷ m) = All (λ e'. e.0 < e'.0) m × Ordered m

pub lookup-assign :
    {V : Type 0}
    → (k : ℕ) (v : V) (j : ℕ) (m : MapOf V)
    → lookup j (assign k v m) ≡ (if k == j then some v else lookup j m)
unfolding lookup assign
lookup-assign k v j [] = refl
lookup-assign k v j ((i, w) ∷ m) = ground (arith, lookup-assign k v j m)

pub All-assign {ℓ} :
    {V : Type 0}
    → (P : ℕ × V → Type ℓ) (k : ℕ) (v : V) (m : MapOf V) → P (k, v)
    → All P m
    → All P (assign k v m)
unfolding assign
All-assign P k v [] h all = (h, tt)
All-assign P k v ((j, w) ∷ m) h all = elim (Bool-cases (ltb k j)) [
  | inl e ↦ rw (e, assign) (h, all)
  | inr e ↦ elim (Bool-cases (k == j)) [
    | inl e' ↦ rw (e, e', assign) (h, all.1)
    | inr e' ↦ rw (e, e', assign) (all.0, All-assign P k v m h all.1)
  ]
]

pub assign-Ordered :
    {V : Type 0} → (k : ℕ) (v : V) (m : MapOf V) → Ordered m → Ordered (assign k v m)
unfolding assign
assign-Ordered k v [] h = (tt, tt)
assign-Ordered k v ((j, w) ∷ m) h = elim (Bool-cases (ltb k j)) [
  | inl e ↦
      let below : k < j = ltb→lt k j e in
      rw (e, assign) ((below, All-map {P = λ e'. j < e'.0} (λ e' lt. omega arith) m h.0), h)
  | inr e ↦ elim (Bool-cases (k == j)) [
    | inl e' ↦
        let same : k ≡ j = ground arith in
        rw (e, e', assign) (All-map {P = λ e'. j < e'.0} (λ e' lt. omega arith) m h.0, h.1)
    | inr e' ↦
        let above : j < k = ground arith in
        rw (e, e', assign) (All-assign (λ e'. j < e'.0) k v m above h.0, assign-Ordered k v m h.1)
  ]
]

-- In an ordered map these are all the entries with a greater key.
pub upper_bound-select :
    {V : Type 0} → (k : ℕ) (m : MapOf V) → Ordered m → upper_bound k m ≡ select (λ e. ltb k e.0) m
unfolding upper_bound
upper_bound-select k [] h = refl
upper_bound-select k ((j, w) ∷ m) h = elim (Bool-cases (ltb k j)) [
  | inl e ↦ rw (
    e,
    select_all (λ e'. ltb k e'.0) m (All-map {P = λ e'. j < e'.0} (λ e' lt. ground arith) m h.0),
  )
  | inr e ↦ rw e (upper_bound-select k m h.1)
]
