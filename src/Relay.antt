-- ===== src/Relay.antt =====
-- internal/relay/relay.go: a relay registers once and then sends heartbeats. Each tick comes with the
-- wire that its request finds.
pub mod Answers
pub mod Loop
pub mod Forgotten
mod Tests
use Prim.Native.String.{◌++◌ as append}
use linkbit.Prelude.{
  ℕ, String, Bool, true, false, ◌||◌, Option, none, some, List, [], ◌∷◌, ◌==◌, if◌then◌else◌,
}
use linkbit.Models.{RelayNode, relay_status_healthy}
use linkbit.Config.{RelayConfig, is_positive}
use linkbit.Agent.Outcome.{Outcome, value, failure}
use linkbit.Agent.Http.{HttpRequest, Wire, ClientError, relay_payload, fetch}

-- The fields of Node that decide something; `derp` tells whether there is a DERP service.
pub record Node : Type 0 where
  pub cfg : RelayConfig
  pub derp : Bool

pub data NodeError : Type 0 where
  configuration_required cancelled derp_error : NodeError
  client_error : ClientError → NodeError

unfoldable pub new_node : RelayConfig → Bool → Outcome NodeError Node
new_node cfg derp =
    if (cfg.controller_url == "")
      || (cfg.api_key == "")
      || (cfg.relay_id == "")
      || (cfg.public_url == "")
    then failure configuration_required
    else value (record { cfg = cfg; derp = derp })

abbrev pub empty_relay : RelayNode ℕ
empty_relay = record {
  id = "";
  name = "";
  region = "";
  public_url = "";
  ipv4 = "";
  ipv6 = "";
  status = "";
  load = 0;
  last_seen_at = 0;
  registered = 0;
}

abbrev pub registration_of : Node → RelayNode ℕ
registration_of n = record empty_relay {
  id = n.cfg.relay_id;
  name = n.cfg.name;
  region = n.cfg.region;
  public_url = n.cfg.public_url;
}

abbrev pub heartbeat_of : Node → RelayNode ℕ
heartbeat_of n = record empty_relay { id = n.cfg.relay_id; status = relay_status_healthy }

abbrev pub post_request : Node → String → RelayNode ℕ → HttpRequest
post_request n path payload = record {
  method = "POST";
  url = append n.cfg.controller_url path;
  headers =
      ("Content-Type", "application/json")
      ∷ ("X-Linkbit-API-Key", n.cfg.api_key)
      ∷ ("X-Linkbit-Relay-ID", n.cfg.relay_id)
      ∷ [];
  payload = relay_payload payload;
}

abbrev pub error_of : {A : Type 0} → Outcome ClientError A → Option ClientError
error_of (value a) = none
error_of (failure e) = some e

-- The body of the reply is not read.
abbrev pub unread : {Body : Type 0} → Body → Option (Unit {0})
unread body = some tt

module _ {World Body : Type 0} where
  unfoldable pub post :
      Wire World Body → Node → String → RelayNode ℕ → World → Option ClientError × World
  unfolding fetch
  post wire n path payload w =
      let (r, w') = fetch wire unread (post_request n path payload) w in (error_of r, w')

  unfoldable pub register : Wire World Body → Node → World → Option ClientError × World
  unfolding post
  register wire n w = post wire n "/api/v1/relays/register" (registration_of n) w

  unfoldable pub heartbeat : Wire World Body → Node → World → Option ClientError × World
  unfolding post
  heartbeat wire n w = post wire n "/api/v1/relays/heartbeat" (heartbeat_of n) w

-- What the select of the loop receives; `derp_ended` tells whether Start has returned an error.
pub data Event (World Body : Type 0) : Type 0 where
  tick : Wire World Body → Event World Body
  derp_ended : Bool → Event World Body
  done : Event World Body

pub data End : Type 0 where
  ended : Option NodeError → End
  panicked waiting : End

module _ {World Body : Type 0} (n : Node) where
  -- The end, the errors of the heartbeats in their order, and the world. Without a DERP service, nothing
  -- comes from it.
  unfoldable pub loop : List (Event World Body) → World → End × List (Option ClientError) × World
  unfolding heartbeat
  loop [] w = (waiting, [], w)
  loop (done ∷ events) w = (ended (some cancelled), [], w)
  loop (derp_ended failed ∷ events) w =
      let rest = loop events w in
      if n.derp then (ended (if failed then some derp_error else none), [], w) else rest
  loop (tick wire ∷ events) w =
      let (e, w') = heartbeat wire n w in
      let (end, beats, w'') = loop events w' in (end, e ∷ beats, w'')

  unfoldable pub run :
      Wire World Body → List (Event World Body) → World → End × List (Option ClientError) × World
  unfolding register loop
  run wire events w =
      let (e, w') = register wire n w in
      elim e [
        | some x ↦ (ended (some (client_error x)), [], w')
        | none ↦ if is_positive n.cfg.heartbeat then loop events w' else (panicked, [], w')
      ]
