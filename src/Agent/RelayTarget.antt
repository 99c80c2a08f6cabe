-- ===== src/Agent/RelayTarget.antt =====
-- internal/agent/tcp_relay.go, TCPRelayTarget and TCPForwarder: the sessions that the agent handles.
-- Each handler is a goroutine, so what happens is a sequence of steps: an offer of a session, and the
-- end of a handler. The calls for a session are answered by arguments.
pub mod Steps
pub mod Retry
pub mod Closing
mod Tests
use linkbit.Prelude.{
  ℕ, suc, ℤ, String, Bool, true, false, not, ◌||◌, Option, none, some, List, [], ◌∷◌, ◌==◌,
  if◌then◌else◌,
}
use linkbit.Models.{TcpRelaySession}
use linkbit.Net.{in_port_range}
use linkbit.Config.{is_positive, seconds}
use linkbit.Agent.Outcome.{Outcome, value, failure}
use linkbit.Agent.Http.{ClientError}

-- `poll` is a time.Duration, `active` the keys of the map, and `handling` the ids of the goroutines.
pub record TcpRelayTarget : Type 0 where
  pub poll : ℕ
  pub active : List String
  pub handling : List String

unfoldable pub new_tcp_relay_target : ℕ → TcpRelayTarget
new_tcp_relay_target poll = record {
  poll = if is_positive poll then poll else seconds 2;
  active = [];
  handling = [];
}

abbrev pub has : String → List String → Bool
has id [] = false
has id (x ∷ xs) = (x == id) || has id xs

-- `delete(t.active, id)`
abbrev pub without : String → List String → List String
without id [] = []
without id (x ∷ xs) = let rest = without id xs in if x == id then rest else x ∷ rest

unfoldable pub mark_active : String → TcpRelayTarget → Bool × TcpRelayTarget
mark_active id t =
    if has id t.active then (false, t) else (true, record t { active = id ∷ t.active })

unfoldable pub clear_active : String → TcpRelayTarget → TcpRelayTarget
clear_active id t = record t { active = without id t.active }

-- One turn of the loop over the sessions: the goroutine starts where the mark was new.
unfoldable pub offer : TcpRelaySession → TcpRelayTarget → TcpRelayTarget
unfolding mark_active
offer session t =
    let (fresh, t') = mark_active session.id t in
    if fresh then record t' { handling = session.id ∷ t'.handling } else t'

-- One goroutine with that id is gone.
abbrev pub without_one : String → List String → List String
without_one id [] = []
without_one id (x ∷ xs) = let rest = without_one id xs in if x == id then xs else x ∷ rest

-- The deferred clearActive at the end of a handler.
unfoldable pub finish : String → TcpRelayTarget → TcpRelayTarget
unfolding clear_active
finish id t = record (clear_active id t) { handling = without_one id t.handling }

unfoldable pub offer_all : List TcpRelaySession → TcpRelayTarget → TcpRelayTarget
unfolding offer
offer_all [] t = t
offer_all (session ∷ sessions) t = offer_all sessions (offer session t)

-- What the poll of PendingRelaySessions gave.
abbrev pub Polled : Type 0
Polled = Outcome ClientError (List TcpRelaySession)

unfoldable pub check : Polled → TcpRelayTarget → Option ClientError × TcpRelayTarget
unfolding offer_all
check (failure e) t = (some e, t)
check (value sessions) t = (none, offer_all sessions t)

-- What comes to Run: the end of a poll, the end of a handler, the end of the context.
pub data Arrival : Type 0 where
  polled : Polled → Arrival
  finished : String → Arrival
  cancelled : Arrival

-- Run, with the number of pauses that it makes.
unfoldable pub run : List Arrival → TcpRelayTarget → ℕ × TcpRelayTarget
unfolding check finish
run [] t = (0, t)
run (cancelled ∷ arrivals) t = (0, t)
run (finished id ∷ arrivals) t = run arrivals (finish id t)
run (polled answer ∷ arrivals) t =
    let (e, t') = check answer t in
    let (pauses, t'') = run arrivals t' in
    elim e [ none ↦ (pauses, t'') | some x ↦ (suc pauses, t'') ]

-- What happens to the connections of a session, latest first.
pub data ConnCall : Type 0 where
  local_opened relay_opened proxied local_closed relay_closed : ConnCall

pub data HandleError : Type 0 where
  invalid_port dial_failed session_failed attach_failed : HandleError

-- proxyConns: whichever side ends first, both are closed once.
abbrev pub proxy_conns : List ConnCall → List ConnCall
proxy_conns log = relay_closed ∷ local_closed ∷ proxied ∷ log

-- `dial` and `attach` tell whether the calls succeed.
unfoldable pub handle :
    (ℤ → Bool) → (String → Bool) → TcpRelaySession → Option HandleError × List ConnCall
handle dial attach session =
    if not (in_port_range session.target_port)
    then (some invalid_port, [])
    else if not (dial session.target_port)
    then (some dial_failed, [])
    else if not (attach session.id)
    then (some attach_failed, local_closed ∷ local_opened ∷ [])
    else (none, local_closed ∷ relay_closed ∷ proxy_conns (relay_opened ∷ local_opened ∷ []))

-- TCPForwarder's handle, for a connection that was accepted.
unfoldable pub forward :
    Outcome ClientError TcpRelaySession → (String → Bool) → Option HandleError × List ConnCall
forward (failure e) attach = (some session_failed, local_closed ∷ local_opened ∷ [])
forward (value session) attach =
    if not (attach session.id)
    then (some attach_failed, local_closed ∷ local_opened ∷ [])
    else (none, local_closed ∷ relay_closed ∷ proxy_conns (relay_opened ∷ local_opened ∷ []))

pub data ListenError : Type 0 where
  address_required target_required listen_failed accept_failed context_ended : ListenError

-- What Accept gives: a connection, or an error with whether the context has ended.
pub data Accepted : Type 0 where
  connection : Outcome ClientError TcpRelaySession → Accepted
  accept_error : Bool → Accepted

-- The error of ListenAndServe, none while it goes on, and the connections that were handled.
unfoldable pub accept_all :
    List Accepted → Option ListenError × List (Outcome ClientError TcpRelaySession)
accept_all [] = (none, [])
accept_all (accept_error over ∷ rest) = (some (if over then context_ended else accept_failed), [])
accept_all (connection c ∷ rest) = let (e, handled) = accept_all rest in (e, c ∷ handled)

unfoldable pub listen_and_serve :
    Bool
    → String
    → String
    → ℤ
    → List Accepted
    → Option ListenError × List (Outcome ClientError TcpRelaySession)
unfolding accept_all
listen_and_serve listens listen_addr target target_port arrivals =
    if listen_addr == ""
    then (some address_required, [])
    else if (target == "") || not (in_port_range target_port)
    then (some target_required, [])
    else if not listens
    then (some listen_failed, [])
    else accept_all arrivals
