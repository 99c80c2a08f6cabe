-- ===== src/Agent/RelayTarget/Closing.antt =====
-- internal/agent/tcp_relay.go: every connection that is opened for a session is closed.
use linkbit.Prelude.{
  ℤ, ◌≡◌, String, Bool, true, false, Option, List, [], ◌∷◌, not, ◌||◌, is_some, arith,
}
use linkbit.Models.{TcpRelaySession}
use linkbit.Agent.Outcome.{Outcome, value, failure}
use linkbit.Agent.Http.{ClientError}
use linkbit.Agent.RelayTarget.{
  ConnCall, local_opened, relay_opened, proxied, local_closed, relay_closed, HandleError, handle,
  forward,
}

abbrev pub did : (ConnCall → Bool) → List ConnCall → Bool
did p [] = false
did p (x ∷ log) = p x || did p log

abbrev pub opens_local : ConnCall → Bool
opens_local local_opened = true
opens_local _ = false

abbrev pub closes_local : ConnCall → Bool
closes_local local_closed = true
closes_local _ = false

abbrev pub opens_relay : ConnCall → Bool
opens_relay relay_opened = true
opens_relay _ = false

abbrev pub closes_relay : ConnCall → Bool
closes_relay relay_closed = true
closes_relay _ = false

abbrev pub joins : ConnCall → Bool
joins proxied = true
joins _ = false

-- A connection of either side is closed exactly if it was opened, and bytes are copied exactly if
-- there was no error.
abbrev pub IsClosed : Option HandleError × List ConnCall → Type 0
IsClosed (e, log) =
    (did closes_local log ≡ did opens_local log)
    × (did closes_relay log ≡ did opens_relay log)
    × (did joins log ≡ not (is_some e))

-- At the end of a session's handler, on either side and whichever call has failed, exactly the
-- connections that were opened are closed, and bytes were copied exactly if nothing failed.
pub handle-IsClosed :
    (dial : ℤ → Bool) (attach : String → Bool) (session : TcpRelaySession)
    (created : Outcome ClientError TcpRelaySession)
    → IsClosed (handle dial attach session) × IsClosed (forward created attach)
unfolding handle forward
handle-IsClosed dial attach session (failure e) = ground arith
handle-IsClosed dial attach session (value made) = ground arith
