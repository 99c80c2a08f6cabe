-- ===== src/Command.antt =====
-- The commands that the agent (internal/agent/wireguard.go, CommandRunner) and the hub
-- (internal/controller/wireguard_hub.go, runCommand) run. A command is its name and arguments. What
-- the system answers is a parameter, which may depend on all that was run before; the trace has the
-- latest command first.
pub mod Plans
use linkbit.Prelude.{String, Bool, true, false, Option, none, some, List, ◌∷◌, if◌then◌else◌}

abbrev pub Command : Type 0
Command = List String

-- True where the command succeeds.
abbrev pub Runner : Type 0
Runner = List Command → Command → Bool

pub data CommandError : Type 0 where
  interface_required virtual_ip_required linux_only private_key_required : CommandError
  key_file_failed command_failed : CommandError

-- A piece of code that runs commands and returns an error or nil.
abbrev pub Script : Type 0
Script = Runner → List Command → Option CommandError × List Command

-- `return nil`, `return err`
abbrev pub done : Script
done runner trace = (none, trace)

abbrev pub refuse : CommandError → Script
refuse e runner trace = (some e, trace)

-- `if err := run(…); err != nil { return err }`
unfoldable pub must : Command → Script
must c runner trace = (if runner trace c then none else some command_failed, c ∷ trace)

-- `_ = run(…)`
unfoldable pub attempt : Command → Script
attempt c runner trace = (none, c ∷ trace)

infixr 20 ◌>>◌
unfoldable pub ◌>>◌ : Script → Script → Script
◌>>◌ a b runner trace =
    let (e, after) = a runner trace in elim e [ none ↦ b runner after | some x ↦ (some x, after) ]
