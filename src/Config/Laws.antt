-- ===== src/Config/Laws.antt =====
-- internal/config/config.go: the durations that time.NewTicker is given.
use linkbit.Prelude.{
  ℕ, ℤ, pos, negsuc, ap, ◌∙◌, ◌≡◌, ◌≢◌, refl, inl, inr, String, true, false, some, ◌<◌, ◌≤◌, ◌*◌,
  ◌==◌, Bool-cases, Option-cases, arith, eq_iff,
}
use linkbit.Net.{atoi}
use linkbit.Controller.Enrolment.{duration_bits}
use linkbit.Config.{Getenv, is_positive, at_most_zero, getenv_duration}

-- The greatest number of seconds whose nanoseconds fit into 63 bits.
abbrev pub max_seconds : ℕ
max_seconds = 9223372036

duration-positive :
    (n : ℤ)
    → at_most_zero n ≡ false
    → ((m : ℕ) → n ≡ pos m → m ≤ max_seconds)
    → is_positive (duration_bits n) ≡ true
unfolding duration_bits
duration-positive (pos n) h b = ground (arith, b n refl)
duration-positive (negsuc n) h b = ground arith

-- A duration that is configured is positive, where the fallback is and the text is not a number of
-- more than 9223372036 seconds.
pub getenv_duration-positive :
    (env : Getenv) (key : String) (fallback : ℕ)
    → is_positive fallback ≡ true
    → ((n : ℕ) → atoi (env key) ≡ some (pos n) → n ≤ max_seconds)
    → is_positive (getenv_duration env key fallback) ≡ true
unfolding getenv_duration
getenv_duration-positive env key fallback f b = elim (Bool-cases (env key == "")) [
  | inl e ↦ rw e f
  | inr e ↦ elim (Option-cases (atoi (env key))) [
    | inl a ↦ rw (e, a) f
    | inr (n, a) ↦ elim (Bool-cases (at_most_zero n)) [
      | inl z ↦ rw (e, a, z) f
      | inr z ↦ rw (e, a, z) (duration-positive n z (λ m p. b m (a ∙ ap some p)))
    ]
  ]
]

-- A number of seconds from 9223372037 up to twice that comes out with its sign bit set, so that it is
-- no period for a ticker.
pub getenv_duration-wraps :
    (env : Getenv) (key : String) (fallback n : ℕ)
    → env key ≢ ""
    → atoi (env key) ≡ some (pos n)
    → max_seconds < n
    → n ≤ 2 * max_seconds
    → is_positive (getenv_duration env key fallback) ≡ false
unfolding getenv_duration duration_bits
getenv_duration-wraps env key fallback n e a l h = ground (arith, eq_iff (env key) "")
