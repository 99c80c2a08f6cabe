-- ===== src/Relay/Answers.antt =====
-- internal/controller/server.go for relays: the two patterns of Handler that they use, behind the check
-- of their key.
use linkbit.Prelude.{ℕ, String, Bool, ◌&&◌, Option, none, some, [], ◌∷◌, ◌==◌, if◌then◌else◌}
use linkbit.Models.{RelayNode}
use linkbit.Controller.Server.{Server, World, Env, Response, replied, failed, no_content}
use linkbit.Controller.Guard.{require_api_key_scopes}
use linkbit.Controller.Admin.{relay_register, relay_heartbeat}
use linkbit.Controller.Routes.{RelayRoute, register_relay, heartbeat as heartbeat_route}
use linkbit.Agent.Http.{Payload, relay_payload, HttpRequest, Reply, Wire}
use linkbit.Agent.Wire.{header}
use linkbit.Agent.Wire.Paths.{strip_prefix}

-- What decodeJSON makes of a relay's body.
abbrev pub relay_in : Payload → Option (RelayNode ℕ)
relay_in (relay_payload relay) = some relay
relay_in _ = none

-- The two patterns of Handler for relays.
unfoldable pub relay_route : String → HttpRequest → Option RelayRoute
unfolding strip_prefix
relay_route base q = elim (strip_prefix base q.url) [
  | none ↦ none
  | some path ↦
      if (q.method == "POST") && (path == "/api/v1/relays/register")
      then some (register_relay (relay_in q.payload))
      else if (q.method == "POST") && (path == "/api/v1/relays/heartbeat")
      then some (heartbeat_route (relay_in q.payload))
      else none
]

abbrev pub answered : ℕ → Option (Reply (Unit {0}))
answered status = some (record { status = status; body = tt })

abbrev pub answer_of : {A : Type 0} → Response A × World → Option (Reply (Unit {0})) × World
answer_of (replied status a, w) = (answered status, w)
answer_of (failed status message, w) = (answered status, w)
answer_of (no_content, w) = (answered 204, w)

-- What the system does in a request, and when.
pub record Moment : Type 0 where
  pub env : Env
  pub now : ℕ

module _ (s : Server) (valid : String → Bool) (base : String) where
  unfoldable pub relay_answer : Moment → RelayRoute → World → Option (Reply (Unit {0})) × World
  relay_answer m (register_relay req) w = answer_of (relay_register s m.env m.now req w)
  relay_answer m (heartbeat_route req) w = answer_of (relay_heartbeat s m.env m.now req w)

  unfoldable pub relay_wire : Moment → Wire World (Unit {0})
  unfolding relay_route relay_answer
  relay_wire m = record {
    new_request = valid;
    send = λ q w. elim (relay_route base q) [
      | none ↦ (answered 404, w)
      | some route ↦
          require_api_key_scopes s m.env.fault m.now (answered 401) (relay_answer m route)
            ("admin" ∷ "relay" ∷ []) (header "X-Linkbit-API-Key" q.headers) w
    ];
  }
