-- ===== src/Prelude/Select.antt =====
-- Rows of a table: WHERE clauses as Boolean tests.
use Prim.Native.Nat.{ℕ, ◌+◌}
use mathlib.Core.Path.{◌≡◌, refl}
use mathlib.Core.Bool.{Bool, true, false}
use mathlib.Core.Option.{Option, none, some}
use mathlib.Core.List.{List, [], ◌∷◌, ◌++◌}
use native.Mathlib.Omega.{arith}
use linkbit.Prelude.Logic.{if◌then◌else◌, any}

module _ {ℓ} {A : Type ℓ} (test : A → Bool) where
  -- SELECT, the first row
  unfoldable pub find_row : List A → Option A
  find_row [] = none
  find_row (x ∷ xs) = if test x then some x else find_row xs

  -- UPDATE
  unfoldable pub update_rows : (A → A) → List A → List A
  update_rows f [] = []
  update_rows f (x ∷ xs) = (if test x then f x else x) ∷ update_rows f xs

  -- DELETE
  unfoldable pub delete_rows : List A → List A
  delete_rows [] = []
  delete_rows (x ∷ xs) = let rest = delete_rows xs in if test x then rest else x ∷ rest

  -- SELECT COUNT(*)
  unfoldable pub count_rows : List A → ℕ
  count_rows [] = 0
  count_rows (x ∷ xs) = (if test x then 1 else 0) + count_rows xs

  pub find_row-test : (xs : List A) {x : A} → find_row xs ≡ some x → test x ≡ true
  unfolding find_row
  find_row-test [] e = cc
  find_row-test (y ∷ xs) {x} e = ground (arith, find_row-test xs {x = x})

  pub find_row-none : (xs : List A) → any test xs ≡ false → find_row xs ≡ none
  unfolding find_row
  find_row-none [] e = refl
  find_row-none (y ∷ xs) e = ground (arith, find_row-none xs)

  pub find_row-append :
      (xs : List A) (x : A) → find_row xs ≡ none → test x ≡ true → find_row (xs ++ x ∷ []) ≡ some x
  unfolding find_row
  find_row-append [] x e t = ground arith
  find_row-append (y ∷ xs) x e t = ground (arith, find_row-append xs x)

  pub any-of_find_row : (xs : List A) {x : A} → find_row xs ≡ some x → any test xs ≡ true
  unfolding find_row
  any-of_find_row [] e = cc
  any-of_find_row (y ∷ xs) {x} e = ground (arith, any-of_find_row xs {x = x})
