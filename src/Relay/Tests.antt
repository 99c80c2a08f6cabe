-- ===== src/Relay/Tests.antt =====
-- Runs of a relay.
use linkbit.Prelude.{◌≡◌, refl, String, Bool, true, false, is_some, List, [], ◌∷◌, All}
use linkbit.Config.{RelayConfig}
use linkbit.Controller.Sample.{server, env, world}
use linkbit.Relay.{Node, loop}
use linkbit.Relay.Answers.{Moment}
use linkbit.Relay.Forgotten.{has_relay, ticks, loop-forgotten}

abbrev cfg : RelayConfig
cfg = record {
  controller_url = "http://c";
  api_key = "lb_relay";
  relay_id = "r";
  name = "relay";
  public_url = "https://r";
  region = "eu";
  listen_addr = ":8443";
  heartbeat = 30000000000;
}

abbrev node : Node
node = record { cfg = cfg; derp = true }

abbrev any_url : String → Bool
any_url url = true

abbrev moments : List Moment
moments = record { env = env; now = 5 } ∷ record { env = env; now = 6 } ∷ []

loop-forgotten_example :
    let (end, beats, w') = loop node (ticks server any_url node moments) world in
    All (λ e. is_some e ≡ true) beats × (has_relay server any_url "http://c" "r" w' ≡ false)
loop-forgotten_example = loop-forgotten server any_url node moments world refl
