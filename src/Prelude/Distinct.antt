-- ===== src/Prelude/Distinct.antt =====
-- Columns of a table in which no text stands twice.
use mathlib.Core.Path.{◌≡◌, refl, ◌∙◌}
use mathlib.Core.Logic.{inl, inr}
use mathlib.Core.Bool.{Bool, true, false, ◌||◌}
use mathlib.Core.List.{List, [], ◌∷◌, ◌++◌}
use Prim.Native.String.{String}
use native.Mathlib.Omega.{arith}
use text.Mathlib.Text.{◌==◌}
use text.Mathlib.TextEquality.{eq_iff}
use linkbit.Prelude.Logic.{if◌then◌else◌, Bool-cases, any}
use linkbit.Prelude.Select.{update_rows, delete_rows}

module _ {ℓ} {A : Type ℓ} (key : A → String) where
  abbrev pub has : String → List A → Bool
  has k = any (λ r. key r == k)

  abbrev pub Distinct : List A → Type 0
  Distinct [] = Unit
  Distinct (x ∷ xs) = (has (key x) xs ≡ false) × Distinct xs

  has-concat :
      (k : String) (xs : List A) (x : A) → has k (xs ++ x ∷ []) ≡ (has k xs || (key x == k))
  has-concat k [] x = ground arith
  has-concat k (y ∷ xs) x = ground (arith, has-concat k xs x)

  -- INSERT of a row with a new key.
  pub concat-Distinct :
      (xs : List A) (x : A) → has (key x) xs ≡ false → Distinct xs → Distinct (xs ++ x ∷ [])
  concat-Distinct [] x h d = (refl, tt)
  concat-Distinct (y ∷ xs) x h (new, d) = (
    rw (has-concat (key y) xs x) (ground (arith, eq_iff (key x) (key y), eq_iff (key y) (key x))),
    concat-Distinct xs x (ground arith) d,
  )

  module _ (test : A → Bool) where
    has-delete_rows :
        (k : String) (xs : List A) → has k xs ≡ false → has k (delete_rows test xs) ≡ false
    unfolding delete_rows
    has-delete_rows k [] h = refl
    has-delete_rows k (x ∷ xs) h = ground (arith, has-delete_rows k xs)

    pub delete_rows-Distinct : (xs : List A) → Distinct xs → Distinct (delete_rows test xs)
    unfolding delete_rows
    delete_rows-Distinct [] d = tt
    delete_rows-Distinct (x ∷ xs) (new, d) = elim (Bool-cases (test x)) [
      | inl e ↦ rw (e, delete_rows) (delete_rows-Distinct xs d)
      | inr e ↦ rw (e, delete_rows) (has-delete_rows (key x) xs new, delete_rows-Distinct xs d)
    ]

    module _ (f : A → A) (same : (a : A) → key (f a) ≡ key a) where
      key-if : (b : Bool) (x : A) → key (if b then f x else x) ≡ key x
      key-if true x = same x
      key-if false x = refl

      has-update_rows : (k : String) (xs : List A) → has k (update_rows test f xs) ≡ has k xs
      unfolding update_rows
      has-update_rows k [] = refl
      has-update_rows k (x ∷ xs) = rw (key-if (test x) x, has-update_rows k xs)

      -- UPDATE of other columns.
      pub update_rows-Distinct : (xs : List A) → Distinct xs → Distinct (update_rows test f xs)
      unfolding update_rows
      update_rows-Distinct [] d = tt
      update_rows-Distinct (x ∷ xs) (new, d) =
          (rw (key-if (test x) x) (has-update_rows (key x) xs ∙ new), update_rows-Distinct xs d)
