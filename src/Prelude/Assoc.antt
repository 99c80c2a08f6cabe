-- ===== src/Prelude/Assoc.antt =====
-- Go's `map[string]V` as an association list. A map is ranged over in no fixed order, so nothing
-- is stated of the order of the entries.
use Prim.Native.String.{String}
use mathlib.Core.Path.{◌≡◌, subst}
use mathlib.Core.Logic.{inl, inr}
use mathlib.Core.Option.{Option, none, some}
use mathlib.Core.List.{List, [], ◌∷◌}
use native.Mathlib.Omega.{arith}
use text.Mathlib.Text.{◌==◌}
use text.Mathlib.TextEquality.{eq_iff}
use linkbit.Prelude.Logic.{if◌then◌else◌, All, Bool-cases}

abbrev pub Assoc {ℓ} : Type ℓ → Type ℓ
Assoc V = List (String × V)

module _ {ℓ} {V : Type ℓ} where
  -- `m[k]`
  unfoldable pub lookup : String → Assoc V → Option V
  lookup k [] = none
  lookup k ((j, v) ∷ m) = if j == k then some v else lookup k m

  -- `delete(m, k)`
  unfoldable pub delete : String → Assoc V → Assoc V
  delete k [] = []
  delete k ((j, v) ∷ m) = let rest = delete k m in if j == k then rest else (j, v) ∷ rest

  -- `m[k] = v`
  unfoldable pub put : String → V → Assoc V → Assoc V
  put k v m = (k, v) ∷ delete k m

  pub lookup-delete :
      (k j : String) (m : Assoc V) → lookup j (delete k m) ≡ (if k == j then none else lookup j m)
  unfolding lookup delete
  lookup-delete k j [] = ground arith
  lookup-delete k j ((i, v) ∷ m) =
      ground (arith, lookup-delete k j m, eq_iff i k, eq_iff i j, eq_iff k j)

  pub lookup-put :
      (k j : String) (v : V) (m : Assoc V)
      → lookup j (put k v m) ≡ (if k == j then some v else lookup j m)
  unfolding lookup put
  lookup-put k j v m = ground (arith, lookup-delete k j m, eq_iff k j)

  -- No key stands twice.
  abbrev pub Unique : Assoc V → Type ℓ
  Unique [] = Unit
  Unique ((k, v) ∷ m) = (lookup k m ≡ none) × Unique m

  pub delete-Unique : (k : String) (m : Assoc V) → Unique m → Unique (delete k m)
  unfolding delete
  delete-Unique k [] u = tt
  delete-Unique k ((j, v) ∷ m) u =
      ground (arith, delete-Unique k m u.1, lookup-delete k j m, eq_iff j k, eq_iff k j)

  pub put-Unique : (k : String) (v : V) (m : Assoc V) → Unique m → Unique (put k v m)
  unfolding put
  put-Unique k v m u = (ground (arith, lookup-delete k k m, eq_iff k k), delete-Unique k m u)

module _ {ℓ κ} {V : Type ℓ} (P : String × V → Type κ) where
  pub All-delete : (k : String) (m : Assoc V) → All P m → All P (delete k m)
  unfolding delete
  All-delete k [] h = tt
  All-delete k ((j, v) ∷ m) (p, h) = elim (Bool-cases (j == k)) [
    | inl e ↦ rw (e, delete) (All-delete k m h)
    | inr e ↦ rw (e, delete) (p, All-delete k m h)
  ]

  pub All-put : (k : String) (v : V) (m : Assoc V) → P (k, v) → All P m → All P (put k v m)
  unfolding put
  All-put k v m p h = (p, All-delete k m h)

  pub All-lookup : (k : String) (m : Assoc V) {v : V} → All P m → lookup k m ≡ some v → P (k, v)
  unfolding lookup
  All-lookup k [] h e = cc
  All-lookup k ((j, w) ∷ m) (p, h) e = elim (Bool-cases (j == k)) [
    | inl t ↦ subst (λ x. P x) (ground (arith, eq_iff j k)) p
    | inr t ↦ All-lookup k m h (rw (t, lookup) at e)
  ]
