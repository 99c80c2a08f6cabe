-- ===== src/Prelude/Sort.antt =====
-- ORDER BY: a stable sort by a Boolean order.
use mathlib.Core.Logic.{inl, inr}
use mathlib.Core.Bool.{Bool}
use mathlib.Core.List.{List, [], ◌∷◌, Perm}
use mathlib.Core.List.Perm
use linkbit.Prelude.Logic.{if◌then◌else◌, Bool-cases}

module _ {ℓ} {A : Type ℓ} (after : A → A → Bool) where
  -- `a` goes behind the entries that it comes after.
  pub insert_by : A → List A → List A
  insert_by a [] = a ∷ []
  insert_by a (x ∷ xs) = let rest = insert_by a xs in if after a x then x ∷ rest else a ∷ x ∷ xs

  unfoldable pub sort_by : List A → List A
  unfolding insert_by
  sort_by [] = []
  sort_by (x ∷ xs) = insert_by x (sort_by xs)

  insert_by-perm : (a : A) (xs : List A) → Perm (insert_by a xs) (a ∷ xs)
  unfolding insert_by
  insert_by-perm a [] = Perm.refl _
  insert_by-perm a (x ∷ xs) = elim (Bool-cases (after a x)) [
    | inl e ↦ rw (e, insert_by) (Perm.trans (Perm.cons x (insert_by-perm a xs)) (Perm.swap a x xs))
    | inr e ↦ rw (e, insert_by) (Perm.refl _)
  ]

  -- No row is lost and none is made up.
  pub sort_by-perm : (xs : List A) → Perm (sort_by xs) xs
  unfolding sort_by
  sort_by-perm [] = Perm.refl []
  sort_by-perm (x ∷ xs) = Perm.trans (insert_by-perm x (sort_by xs)) (Perm.cons x (sort_by-perm xs))
