-- ===== src/Agent/Health.antt =====
-- internal/agent/health.go: the report of a device's health.
use linkbit.Prelude.{
  pos, String, Bool, not, ◌||◌, Option, none, some, List, [], ◌∷◌, ◌==◌, if◌then◌else◌,
}
use linkbit.Models.{DeviceRegistrationResponse, DeviceHealthReport, device_status_online}
use linkbit.Agent.Outcome.{value, failure}
use linkbit.Agent.Http.{Wire, ClientError}
use linkbit.Agent.Client.{HttpRegistrationClient, Decoders, report_health}

-- `client` tells whether there is one.
pub record ControllerHealthReporter : Type 0 where
  pub client : Bool
  pub endpoint : String

abbrev pub new_controller_health_reporter : Bool → List String → ControllerHealthReporter
new_controller_health_reporter client [] = record { client = client; endpoint = "" }
new_controller_health_reporter client (e ∷ es) = record { client = client; endpoint = e }

abbrev pub report_of : ControllerHealthReporter → DeviceHealthReport
report_of r = record {
  status = device_status_online;
  latency_ms = pos 0;
  peers_reachable = pos 0;
  peers_total = pos 0;
  endpoint = r.endpoint;
}

-- The error, and the world.
unfoldable pub check_and_report :
    {World Body : Type 0}
    → Wire World Body
    → Decoders Body
    → ControllerHealthReporter
    → HttpRegistrationClient
    → DeviceRegistrationResponse
    → World
    → Option ClientError × World
unfolding report_health
check_and_report wire decoders r c registration w =
    if not r.client || (registration.device.id == "")
    then (none, w)
    else let (answer, w') = report_health wire decoders c (report_of r) w in
      elim answer [ value device ↦ (none, w') | failure e ↦ (some e, w') ]
