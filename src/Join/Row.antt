-- ===== src/Join/Row.antt =====
-- The rows of join-practice/*.cpp, which each file declares alike, and the relational meaning
-- of a join: all pairs of a left and a right row that satisfy a condition.
use Prim.Native.String.{String}
use mathlib.Core.List.{flat_map}
use mathlib.Core.List.Perm
use go_prep.Base.{
  ◌≡◌, refl, sym, ap, ◌∙◌, Bool, List, [], ◌∷◌, ◌++◌, map, append-nil, append_assoc, Perm,
  if◌then◌else◌, Bool-cases, inl, inr, push_back, map_append, select, select-append, for_each,
  fun_ext, flat_map-append, flat_map-append_pointwise, flat_map-perm, flat_map_congr, perm_select,
  perm_of_eq,
}
use go_prep.Base.Int.{ℤ, eqb_ℤ}

pub record Row : Type 0 where
  pub key : ℤ
  pub payload : String

pub record JoinedRow : Type 0 where
  pub left : Row
  pub right : Row

abbrev pub joined : Row → Row → JoinedRow
joined a b = record { left = a; right = b }

-- The condition of an equality join.
abbrev pub same_key : Row → Row → Bool
same_key r s = eqb_ℤ r.key s.key

-- The pairs of one left row.
abbrev pub matches : (Row → Row → Bool) → Row → List Row → List JoinedRow
matches p r right = map (joined r) (select (p r) right)

-- What a join means: every pair that satisfies the condition, once for each of its occurrences.
unfoldable pub theta_join : (Row → Row → Bool) → List Row → List Row → List JoinedRow
theta_join p left right = flat_map (λ r. matches p r right) left

module _ {ℓ κ} {A : Type ℓ} {B : Type κ} where
  -- A loop that emits one result for each element that passes a test.
  pub for_each-select :
      (q : A → Bool) (f : A → B) (xs : List A) (out : List B)
      → for_each xs (λ x res. if q x then push_back res (f x) else res) out
        ≡ out ++ map f (select q xs)
  unfolding for_each
  for_each-select q f [] out = sym (append-nil out)
  for_each-select q f (x ∷ xs) out = elim (Bool-cases (q x)) [
    | inl e ↦ rw e (for_each-select q f xs (push_back out (f x)) ∙ append_assoc out (f x ∷ []) _)
    | inr e ↦ rw e (for_each-select q f xs out)
  ]

module _ (p : Row → Row → Bool) where
  matches-append :
      (r : Row) (s t : List Row) → matches p r (s ++ t) ≡ matches p r s ++ matches p r t
  matches-append r s t =
      rw (select-append (p r) s t) (map_append (joined r) (select (p r) s) (select (p r) t))

  pub theta_join-append_left :
      (r r' s : List Row) → theta_join p (r ++ r') s ≡ theta_join p r s ++ theta_join p r' s
  unfolding theta_join
  theta_join-append_left r r' s = flat_map-append (λ a. matches p a s) r r'

  pub theta_join-append_right :
      (r s t : List Row) → Perm (theta_join p r (s ++ t)) (theta_join p r s ++ theta_join p r t)
  unfolding theta_join
  theta_join-append_right r s t =
      Perm.trans (perm_of_eq (ap (λ f. flat_map f r) (fun_ext λ a. matches-append a s t)))
        (flat_map-append_pointwise (λ a. matches p a s) (λ a. matches p a t) r)

  matches-perm : (r : Row) {s t : List Row} → Perm s t → Perm (matches p r s) (matches p r t)
  matches-perm r h = Perm.map (joined r) (perm_select (p r) h)

  -- A join does not depend on the order of its inputs, but for the order of its result.
  pub theta_join-perm :
      {r r' s s' : List Row} → Perm r r' → Perm s s' → Perm (theta_join p r s) (theta_join p r' s')
  unfolding theta_join
  theta_join-perm {r} {r'} {s} {s'} h k =
      Perm.trans (flat_map-perm (λ a. matches p a s) h)
        (flat_map_congr (λ a. matches p a s) (λ a. matches p a s') (λ a. matches-perm a k) r')

  pub theta_join-nil_right : (r : List Row) → theta_join p r [] ≡ []
  unfolding theta_join flat_map
  theta_join-nil_right [] = refl
  theta_join-nil_right (a ∷ r) = theta_join-nil_right r

  -- A left row without a partner adds nothing.
  pub theta_join-cons_left :
      (a : Row) (r s : List Row) → theta_join p (a ∷ r) s ≡ matches p a s ++ theta_join p r s
  unfolding theta_join flat_map
  theta_join-cons_left a r s = refl
