-- ===== src/Agent/Service/Cases.antt =====
-- internal/agent/agent.go: how far a run comes.
use linkbit.Prelude.{
  ℕ, suc, ◌≡◌, refl, inl, inr, Bool, none, some, List, [], ◌∷◌, Option-cases, if◌then◌else◌,
}
use linkbit.Models.{DeviceRegistrationResponse}
use linkbit.Agent.Outcome.{Outcome, value, failure, Outcome-cases}
use linkbit.Agent.Service.{
  Calls, Service, Call, Logged, Event, ended, RunError, enrol, bring_up, serve, settle, run,
}

abbrev pub count : (Call → Bool) → List Call → ℕ
count p [] = 0
count p (x ∷ log) = if p x then suc (count p log) else count p log

module _ {W : Type 0} (calls : Calls W) (s : Service) (events : List Event) (w : W) where
  abbrev pub enrolled : Outcome RunError DeviceRegistrationResponse × Logged W
  enrolled = enrol calls s (w, [])

  pub data Ran : Type 0 where
    not_enrolled :
        (e : RunError)
        → enrolled.0 ≡ failure e
        → run calls s events w ≡ (ended (some e), enrolled.1)
        → Ran
    not_up :
        (r : DeviceRegistrationResponse) (e : RunError)
        → enrolled.0 ≡ value r
        → (bring_up calls s r enrolled.1).0 ≡ some e
        → run calls s events w ≡ (ended (some e), (bring_up calls s r enrolled.1).1)
        → Ran
    up :
        (r : DeviceRegistrationResponse)
        → enrolled.0 ≡ value r
        → (bring_up calls s r enrolled.1).0 ≡ none
        → run calls s events w
          ≡ settle calls s (serve calls s r events (bring_up calls s r enrolled.1).1)
        → Ran

  pub run-Ran : Ran
  unfolding run
  run-Ran = elim (Outcome-cases enrolled.0) [
    | inr (e, x) ↦ not_enrolled e x (rw (run, x) refl)
    | inl (r, x) ↦ elim (Option-cases (bring_up calls s r enrolled.1).0) [
      | inr (e, y) ↦ not_up r e x y (rw (run, x, y) refl)
      | inl y ↦ up r x y (rw (run, x, y) refl)
    ]
  ]

  pub run-failed :
      (e : RunError) → enrolled.0 ≡ failure e → run calls s events w ≡ (ended (some e), enrolled.1)
  unfolding run
  run-failed e x = rw (run, x) refl
