-- ===== src/Agent/Http.antt =====
-- The calls of net/http that internal/agent and internal/relay make: a request is built, sent, and
-- answered or not. What stands at the other end is a parameter, with a state of its own.
use linkbit.Prelude.{ℕ, String, Bool, ◌||◌, Option, none, some, List, ltb, if◌then◌else◌}
use linkbit.Models.{
  DeviceRegistrationRequest, DeviceHealthReport, TcpRelaySessionRequest, RelayNode,
}
use linkbit.Agent.Outcome.{Outcome, value, failure}

-- The value that json.Marshal turns into the body of a request.
pub data Payload : Type 0 where
  no_payload : Payload
  registration_payload : DeviceRegistrationRequest → Payload
  health_payload : DeviceHealthReport → Payload
  session_payload : TcpRelaySessionRequest → Payload
  relay_payload : RelayNode ℕ → Payload

pub record HttpRequest : Type 0 where
  pub method : String
  pub url : String
  pub headers : List (String × String)
  pub payload : Payload

pub record Reply (Body : Type 0) : Type 0 where
  pub status : ℕ
  pub body : Body

-- `new_request` tells whether the URL parses, and `send` gives none where no reply comes.
pub record Wire (World Body : Type 0) : Type 0 where
  pub new_request : String → Bool
  pub send : HttpRequest → World → Option (Reply Body) × World

pub data ClientError : Type 0 where
  url_required credentials_required bad_request no_reply bad_body : ClientError
  bad_status : ℕ → ClientError

-- `resp.StatusCode < 200 || resp.StatusCode > 299`
abbrev pub is_failure : ℕ → Bool
is_failure status = ltb status 200 || ltb 299 status

-- From the look at the status to the decoding of the body.
abbrev pub accept :
    {Body A : Type 0} → (Body → Option A) → Option (Reply Body) → Outcome ClientError A
accept decode none = failure no_reply
accept decode (some reply) =
    if is_failure reply.status
    then failure (bad_status reply.status)
    else elim (decode reply.body) [ none ↦ failure bad_body | some a ↦ value a ]

-- From http.NewRequestWithContext on.
unfoldable pub fetch :
    {World Body A : Type 0}
    → Wire World Body
    → (Body → Option A)
    → HttpRequest
    → World
    → Outcome ClientError A × World
fetch wire decode q w =
    if wire.new_request q.url
    then (let (reply, w') = wire.send q w in (accept decode reply, w'))
    else (failure bad_request, w)
