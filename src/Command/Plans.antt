-- ===== src/Command/Plans.antt =====
-- A script against the list of the commands that it means to run.
use linkbit.Prelude.{
  ◌≡◌, refl, ap, ◌∙◌, Bool, true, false, ◌&&◌, not, none, some, List, [], ◌∷◌, ◌++◌, inl, inr,
  arith, Bool-cases, if◌then◌else◌,
}
use mathlib.Core.Path.{fun_ext}
use linkbit.Command.{Command, Runner, command_failed, Script, done, must, attempt, ◌>>◌}

-- A command, and whether its failure ends the script.
pub record PlanStep : Type 0 where
  pub vital : Bool
  pub command : Command

abbrev pub vital_step : Command → PlanStep
vital_step c = record { vital = true; command = c }

abbrev pub optional_step : Command → PlanStep
optional_step c = record { vital = false; command = c }

-- The plan, run to its end or to the first vital command that fails.
unfoldable pub exec : List PlanStep → Script
exec [] runner trace = (none, trace)
exec (s ∷ ss) runner trace =
    let rest = exec ss runner (s.command ∷ trace) in
    if s.vital && not (runner trace s.command)
    then (some command_failed, s.command ∷ trace)
    else rest

pub record Follows (script : Script) (plan : List PlanStep) : Type 0 where
  pub runs : (runner : Runner) (trace : List Command) → script runner trace ≡ exec plan runner trace

pub done-Follows : Follows done []
unfolding exec
done-Follows = record { runs = λ r t. refl }

pub must-Follows : (c : Command) → Follows (must c) (vital_step c ∷ [])
unfolding exec must
must-Follows c = record { runs = λ r t. ground arith }

pub attempt-Follows : (c : Command) → Follows (attempt c) (optional_step c ∷ [])
unfolding exec attempt
attempt-Follows c = record { runs = λ r t. refl }

exec-append :
    (p q : List PlanStep) (runner : Runner) (trace : List Command)
    → (exec p >> exec q) runner trace ≡ exec (p ++ q) runner trace
unfolding exec ◌>>◌
exec-append [] q runner trace = refl
exec-append (s ∷ p) q runner trace = ground (arith, exec-append p q runner (s.command ∷ trace))

pub >>-Follows :
    (a b : Script) (p q : List PlanStep) → Follows a p → Follows b q → Follows (a >> b) (p ++ q)
>>-Follows a b p q fa fb = record {
  runs = λ r t.
      ap (λ (x : Script). (x >> b) r t) (fun_ext λ r'. fun_ext (fa.runs r'))
      ∙ ap (λ (y : Script). (exec p >> y) r t) (fun_ext λ r'. fun_ext (fb.runs r'))
      ∙ exec-append p q r t;
}

-- The commands of a plan, latest first, before those of the trace.
abbrev pub all_run : List PlanStep → List Command → List Command
all_run [] trace = trace
all_run (s ∷ ss) trace = all_run ss (s.command ∷ trace)

-- A plan that reports no error was run to its end, in order.
pub exec-none :
    (plan : List PlanStep) (runner : Runner) (trace : List Command)
    → (exec plan runner trace).0 ≡ none
    → (exec plan runner trace).1 ≡ all_run plan trace
unfolding exec
exec-none [] runner trace h = refl
exec-none (s ∷ ss) runner trace h = elim (Bool-cases (s.vital && not (runner trace s.command))) [
  | inl e ↦ absurd (ground arith)
  | inr e ↦ rw (e, exec) (exec-none ss runner (s.command ∷ trace) (rw (e, exec) at h))
]
