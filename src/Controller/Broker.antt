-- ===== src/Controller/Broker.antt =====
-- internal/controller/tcp_relay.go: the broker that joins the two streams of a relay session.
-- `time.Now()` and `uuid.NewString()` are arguments. A `net.Conn` is a handle, and what the broker
-- does to connections is recorded: `closed` lists the handles closed, `proxied` the pairs handed to
-- proxyTCPRelay. `wakes` counts the wake channels closed, and so names the current one. Each
-- operation runs under the broker's lock, so a concurrent run is a sequence of operations.
mod Table
pub mod Invariant
pub mod Accounting
pub mod Sessions
pub mod Waiting
pub mod Joining
mod Tests
use linkbit.Prelude.{
  ℕ, ℤ, suc, ◌+◌, ◌*◌, String, Bool, true, false, not, ◌&&◌, ◌||◌, Option, none, some, List, [],
  ◌∷◌, ◌++◌, ltb, ◌==◌, if◌then◌else◌, is_some,
}
use linkbit.Prelude.Assoc.{Assoc, lookup, delete, put}
use linkbit.Models.{Device, TcpRelaySession}

pub record TcpRelaySessionState : Type 0 where
  pub session : TcpRelaySession
  pub client : Option ℕ
  pub agent : Option ℕ

pub record TcpRelayBroker : Type 0 where
  pub sessions : Assoc TcpRelaySessionState
  pub wakes : ℕ
  pub closed : List ℕ
  pub proxied : List (ℕ × ℕ)

pub data Error : Type 0 where
  not_found source_mismatch target_mismatch client_attached agent_attached : Error
  expired client_rejected agent_rejected : Error

abbrev pub new_tcp_relay_broker : TcpRelayBroker
new_tcp_relay_broker = record { sessions = []; wakes = 0; closed = []; proxied = [] }

-- Two minutes, in nanoseconds.
abbrev pub tcp_relay_session_ttl : ℕ
tcp_relay_session_ttl = 120 * 1000000000

-- `conn.Close()` on a connection that may be nil.
abbrev pub conns : Option ℕ → List ℕ
conns none = []
conns (some c) = c ∷ []

-- `now.After(state.session.ExpiresAt)`
abbrev pub is_expired : ℕ → TcpRelaySessionState → Bool
is_expired now st = ltb st.session.expires_at now

-- What cleanupLocked keeps of the sessions, and the connections that it closes.
pub live_sessions : ℕ → Assoc TcpRelaySessionState → Assoc TcpRelaySessionState
live_sessions now [] = []
live_sessions now ((id, st) ∷ m) =
    let rest = live_sessions now m in if is_expired now st then rest else (id, st) ∷ rest

pub expired_conns : ℕ → Assoc TcpRelaySessionState → List ℕ
expired_conns now [] = []
expired_conns now ((id, st) ∷ m) =
    let rest = expired_conns now m in
    if is_expired now st then conns st.client ++ (conns st.agent ++ rest) else rest

pub cleanup_locked : ℕ → TcpRelayBroker → TcpRelayBroker
unfolding live_sessions expired_conns
cleanup_locked now b = record b {
  sessions = live_sessions now b.sessions;
  closed = expired_conns now b.sessions ++ b.closed;
}

pub signal_locked : TcpRelayBroker → TcpRelayBroker
signal_locked b = record b { wakes = suc b.wakes }

abbrev pub new_session : String → ℕ → Device ℕ → Device ℕ → ℤ → TcpRelaySession
new_session id now source target port = record {
  id = id;
  source_device_id = source.id;
  target_device_id = target.id;
  target_name = target.name;
  target_virtual_ip = target.virtual_ip;
  target_port = port;
  protocol = "tcp";
  expires_at = now + tcp_relay_session_ttl;
}

unfoldable pub create :
    String → ℕ → Device ℕ → Device ℕ → ℤ → TcpRelayBroker → TcpRelaySession × TcpRelayBroker
unfolding signal_locked put
create id now source target port b =
    let session = new_session id now source target port in
    let state : TcpRelaySessionState = record { session = session; client = none; agent = none } in
    let b' : TcpRelayBroker = record b { sessions = put id state b.sessions } in
    (session, signal_locked (cleanup_locked now b'))

pub pending_sessions : String → Assoc TcpRelaySessionState → List TcpRelaySession
pending_sessions target [] = []
pending_sessions target ((id, st) ∷ m) =
    let rest = pending_sessions target m in
    if st.session.target_device_id == target && not (is_some st.agent)
    then st.session ∷ rest
    else rest

pub pending : String → ℕ → TcpRelayBroker → List TcpRelaySession × TcpRelayBroker
unfolding pending_sessions
pending target now b = let b' = cleanup_locked now b in (pending_sessions target b'.sessions, b')

-- PendingWait in the three steps between which other operations may run: the first look, the read
-- of the wake channel, and the look after the wait. `parked n` waits on the channel number `n`.
pub data Wait : Type 0 where
  answered : List TcpRelaySession → Wait
  subscribing : Wait
  parked : ℕ → Wait

pub wait_begin : String → Bool → ℕ → TcpRelayBroker → Wait × TcpRelayBroker
unfolding pending
wait_begin target waits now b =
    let (out, b') = pending target now b in
    (elim out [ x ∷ xs ↦ answered (x ∷ xs) | [] ↦ if waits then subscribing else answered [] ], b')

pub wait_subscribe : TcpRelayBroker → Wait
wait_subscribe b = parked b.wakes

-- The wait on channel `n` ends by a wake-up once that channel is closed; it ends in any case when
-- the timer or the context does.
pub is_woken : ℕ → TcpRelayBroker → Bool
is_woken n b = ltb n b.wakes

pub wait_end : String → ℕ → TcpRelayBroker → Wait × TcpRelayBroker
unfolding pending
wait_end target now b = let (out, b') = pending target now b in (answered out, b')

-- `client` tells the client's stream from the agent's.
validate_state : TcpRelaySessionState → String → Bool → Option Error
validate_state st device_id client =
    if client && not (st.session.source_device_id == device_id)
    then some source_mismatch
    else if not client && not (st.session.target_device_id == device_id)
    then some target_mismatch
    else if client && is_some st.client
    then some client_attached
    else if not client && is_some st.agent
    then some agent_attached
    else none

pub validate : String → String → Bool → ℕ → TcpRelayBroker → Option Error × TcpRelayBroker
unfolding validate_state
validate session_id device_id client now b =
    let b' = cleanup_locked now b in
    (
      elim (lookup session_id b'.sessions) [
        | none ↦ some not_found
        | some st ↦ validate_state st device_id client
      ],
      b',
    )

abbrev close : ℕ → TcpRelayBroker → TcpRelayBroker
close conn b = record b { closed = conn ∷ b.closed }

-- The end of `attach`: a session with both streams leaves the table, and its streams are joined.
pub settle : String → TcpRelaySessionState → TcpRelayBroker → TcpRelayBroker
settle session_id st b = elim st.client [
  | none ↦ record b { sessions = put session_id st b.sessions }
  | some c ↦ elim st.agent [
    | none ↦ record b { sessions = put session_id st b.sessions }
    | some a ↦ record b { sessions = delete session_id b.sessions; proxied = (c, a) ∷ b.proxied }
  ]
]

attach_state :
    String
    → String
    → ℕ
    → Bool
    → TcpRelaySessionState
    → TcpRelayBroker
    → Option Error × TcpRelayBroker
attach_state session_id device_id conn true st b =
    if not (st.session.source_device_id == device_id) || is_some st.client
    then (some client_rejected, close conn b)
    else (none, settle session_id (record st { client = some conn }) b)
attach_state session_id device_id conn false st b =
    if not (st.session.target_device_id == device_id) || is_some st.agent
    then (some agent_rejected, close conn b)
    else (none, settle session_id (record st { agent = some conn }) b)

pub attach : String → String → ℕ → Bool → ℕ → TcpRelayBroker → Option Error × TcpRelayBroker
unfolding attach_state
attach session_id device_id conn client now b = elim (lookup session_id b.sessions) [
  | none ↦ (some not_found, close conn b)
  | some st ↦
      if is_expired now st
      then (some expired, close conn (record b { sessions = delete session_id b.sessions }))
      else attach_state session_id device_id conn client st b
]

-- One call of the broker.
pub data Call : Type 0 where
  creates : String → ℕ → Device ℕ → Device ℕ → ℤ → Call
  attaches : String → String → ℕ → Bool → ℕ → Call
  polls : String → ℕ → Call
  validates : String → String → Bool → ℕ → Call

pub step : TcpRelayBroker → Call → TcpRelayBroker
step b (creates id now source target port) = (create id now source target port b).1
step b (attaches sid dev conn client now) = (attach sid dev conn client now b).1
step b (polls target now) = (pending target now b).1
step b (validates sid dev client now) = (validate sid dev client now b).1

pub run : TcpRelayBroker → List Call → TcpRelayBroker
run b [] = b
run b (c ∷ cs) = run (step b c) cs
