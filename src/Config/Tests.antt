-- ===== src/Config/Tests.antt =====
-- Environments and what is made of them.
use linkbit.Prelude.{◌≡◌, refl, true, false, ◌==◌, if◌then◌else◌}
use linkbit.Net.{atoi, unsigned, digits}
use linkbit.Controller.Enrolment.{duration_bits}
use linkbit.Config.{Getenv, seconds, getenv_duration, getenv_bool, parse_bool, load_controller}

abbrev minute : Getenv
minute key = if key == "LINKBIT_HEARTBEAT_SECONDS" then "60" else ""

minute_test : getenv_duration minute "LINKBIT_HEARTBEAT_SECONDS" (seconds 30) ≡ seconds 60
unfolding getenv_duration atoi unsigned digits duration_bits
minute_test = refl

bool_test : getenv_bool (λ key. "yes") "LINKBIT_RUN_ONCE" false ≡ false
unfolding getenv_bool parse_bool
bool_test = refl

no_pepper_test : (load_controller minute).1 ≡ true
unfolding load_controller
no_pepper_test = refl
