-- ===== src/Agent/Outcome.antt =====
-- A value or an error, as internal/agent returns them.
use linkbit.Prelude.{◌≡◌, refl, ◌⊎◌, inl, inr}

pub data Outcome (E A : Type 0) : Type 0 where
  value : A → Outcome E A
  failure : E → Outcome E A

pub Outcome-cases :
    {E A : Type 0} (r : Outcome E A) → ((a : A) × (r ≡ value a)) ⊎ ((e : E) × (r ≡ failure e))
Outcome-cases (value a) = inl (a, refl)
Outcome-cases (failure e) = inr (e, refl)

pub value-failure : {E A : Type 0} {e : E} {a : A} → ¬ (value a ≡ failure e)
value-failure h = cc

pub value-injective : {E A : Type 0} {a b : A} → ◌≡◌ {A = Outcome E A} (value a) (value b) → a ≡ b
value-injective h = cc
