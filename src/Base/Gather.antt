-- ===== src/Base/Gather.antt =====
-- What the elements of a list contribute, all together, when one of them changes or goes.
use mathlib.Core.Path.{◌≡◌, refl, sym, ap, subst, ◌∙◌}
use mathlib.Core.List.{List, [], ◌∷◌, ◌++◌, append_assoc, Perm, perm_middle}
use mathlib.Core.List.Perm

module _ {A B : Type 0} where
  abbrev pub gather : (A → List B) → List A → List B
  gather f [] = []
  gather f (x ∷ xs) = f x ++ gather f xs

  module _ (f : A → List B) where
    gather-append : (xs ys : List A) → gather f (xs ++ ys) ≡ gather f xs ++ gather f ys
    gather-append [] ys = refl
    gather-append (x ∷ xs) ys =
        ap (λ l. f x ++ l) (gather-append xs ys) ∙ sym (append_assoc (f x) (gather f xs) _)

    pub gather_replace :
        (xs ys : List A) (old new : A)
        → f new ≡ f old
        → gather f (xs ++ new ∷ ys) ≡ gather f (xs ++ old ∷ ys)
    gather_replace xs ys old new e =
        gather-append xs (new ∷ ys)
        ∙ ap (λ l. gather f xs ++ (l ++ gather f ys)) e
        ∙ sym (gather-append xs (old ∷ ys))

    pub gather_leave :
        (xs ys : List A) (old : A) → f old ≡ [] → gather f (xs ++ old ∷ ys) ≡ gather f (xs ++ ys)
    gather_leave xs ys old e =
        gather-append xs (old ∷ ys)
        ∙ ap (λ l. gather f xs ++ (l ++ gather f ys)) e
        ∙ sym (gather-append xs ys)

    -- An element that goes hands its only contribution on.
    pub gather_settle :
        (all done : List B) (xs ys : List A) (old : A) (b : B)
        → f old ≡ b ∷ []
        → Perm all (gather f (xs ++ old ∷ ys) ++ done)
        → Perm all (gather f (xs ++ ys) ++ b ∷ done)
    gather_settle all done xs ys old b e h =
        let from : gather f (xs ++ old ∷ ys) ++ done ≡ gather f xs ++ b ∷ (gather f ys ++ done) =
          ap (λ l. l ++ done)
            (gather-append xs (old ∷ ys) ∙ ap (λ l. gather f xs ++ (l ++ gather f ys)) e)
          ∙ append_assoc (gather f xs) (b ∷ gather f ys) done in
        let to : gather f (xs ++ ys) ++ b ∷ done ≡ gather f xs ++ (gather f ys ++ b ∷ done) =
          ap (λ l. l ++ b ∷ done) (gather-append xs ys)
          ∙ append_assoc (gather f xs) (gather f ys) (b ∷ done) in
        Perm.trans (subst (Perm all) from h) (
          subst (Perm (gather f xs ++ b ∷ (gather f ys ++ done))) (sym to)
            (Perm.append_left (gather f xs) (Perm.symm (perm_middle (gather f ys) done))))
