-- ===== src/Controller/Broker/Joining.antt =====
-- internal/controller/tcp_relay.go: a session from its creation to the joining of its streams.
use linkbit.Prelude.{
  ℕ, ℤ, ◌≤◌, ◌≡◌, refl, ap, ◌∙◌, String, IsIn, Bool, true, false, Option, none, some, List, [], ◌∷◌,
  arith, eq_iff, eq_refl, if◌then◌else◌,
}
use linkbit.Prelude.Assoc.{Assoc, lookup, put, Unique, put-Unique}
use linkbit.Models.{Device, TcpRelaySession}
use linkbit.Controller.Broker.Table.{lookup_live, live_sessions-Unique, keep_live}
use linkbit.Controller.Broker.Sessions.{
  with_streams, pending_exact, lookup-put_self, lookup-delete_self, attach_client, attach_agent,
}
use linkbit.Controller.Broker.{
  TcpRelaySessionState, TcpRelayBroker, cleanup_locked, create, new_session, signal_locked, pending,
  Wait, answered, subscribing, wait_begin, validate, validate_state, settle, attach,
}

-- The session is in the table, without its client's stream.
pub record IsWaiting (s : TcpRelaySession) (agent : Option ℕ) (b : TcpRelayBroker) : Type 0 where
  pub unique : Unique b.sessions
  pub entry : lookup s.id b.sessions ≡ some (with_streams s none agent)

lookup-IsIn :
    (k : String) (st : TcpRelaySessionState) (m : Assoc TcpRelaySessionState)
    → lookup k m ≡ some st
    → IsIn (k, st) m
unfolding lookup
lookup-IsIn k st [] h = cc
lookup-IsIn k st ((j, x) ∷ m) h = ground (arith, lookup-IsIn k st m, eq_iff j k)

module _ (s : TcpRelaySession) (agent : Option ℕ) where
  live-IsWaiting :
      (now : ℕ) (b : TcpRelayBroker)
      → IsWaiting s agent b
      → now ≤ s.expires_at
      → IsWaiting s agent (cleanup_locked now b)
  unfolding cleanup_locked
  live-IsWaiting now b h t = record {
    unique = live_sessions-Unique now b.sessions h.unique;
    entry = lookup_live s.id now b.sessions h.unique ∙ ap (keep_live now) h.entry ∙ ground arith;
  }

  pub validate-client :
      (now : ℕ) (b : TcpRelayBroker)
      → IsWaiting s agent b
      → now ≤ s.expires_at
      → ((validate s.id s.source_device_id true now b).0 ≡ none)
        × IsWaiting s agent (validate s.id s.source_device_id true now b).1
        × ((validate s.id s.source_device_id true now b).1.proxied ≡ b.proxied)
  unfolding validate validate_state cleanup_locked
  validate-client now b h t =
      let left = live-IsWaiting now b h t in
      (rw (validate, left.entry) (ground (arith, eq_refl s.source_device_id)), left, refl)

pub validate-agent :
    (s : TcpRelaySession) (now : ℕ) (b : TcpRelayBroker)
    → IsWaiting s none b
    → now ≤ s.expires_at
    → ((validate s.id s.target_device_id false now b).0 ≡ none)
      × IsWaiting s none (validate s.id s.target_device_id false now b).1
      × ((validate s.id s.target_device_id false now b).1.proxied ≡ b.proxied)
unfolding validate validate_state cleanup_locked
validate-agent s now b h t =
    let left = live-IsWaiting s none now b h t in
    (rw (validate, left.entry) (ground (arith, eq_refl s.target_device_id)), left, refl)

pub create-IsWaiting :
    (id : String) (now : ℕ) (source target : Device ℕ) (port : ℤ) (b : TcpRelayBroker)
    → Unique b.sessions
    → let (s, b') = create id now source target port b in
      IsWaiting s none b' × (b'.proxied ≡ b.proxied)
unfolding create signal_locked cleanup_locked
create-IsWaiting id now source target port b u =
    let s = new_session id now source target port in
    let st = with_streams s none none in
    let made : TcpRelayBroker = record b { sessions = put id st b.sessions } in
    let left =
      live-IsWaiting s none now made
        (record {
          unique = put-Unique id st b.sessions u;
          entry = lookup-put_self id st b.sessions;
        })
        (omega arith) in
    (record { unique = left.unique; entry = left.entry }, refl)

begin-answered :
    (s : TcpRelaySession) (waits : Bool) (out : List TcpRelaySession)
    → IsIn s out
    → ◌≡◌ {A = Wait}
        (elim out [ x ∷ xs ↦ answered (x ∷ xs) | [] ↦ if waits then subscribing else answered [] ])
        (answered out)
begin-answered s waits [] h = absurd h
begin-answered s waits (x ∷ xs) h = refl

-- The target's poll finds the session at once, and leaves it in the table.
pub wait_begin-IsWaiting :
    (s : TcpRelaySession) (waits : Bool) (now : ℕ) (b : TcpRelayBroker)
    → IsWaiting s none b
    → now ≤ s.expires_at
    → (found : List TcpRelaySession) × ((wait_begin s.target_device_id waits now b).0
        ≡ answered found)
      × IsIn s found
      × IsWaiting s none (wait_begin s.target_device_id waits now b).1
      × ((wait_begin s.target_device_id waits now b).1.proxied ≡ b.proxied)
unfolding wait_begin pending cleanup_locked
wait_begin-IsWaiting s waits now b h t =
    let offered : IsIn s (pending s.target_device_id now b).0 =
      (pending_exact s.target_device_id now b s).1 (record {
        entry = (s.id, with_streams s none none);
        here = lookup-IsIn s.id (with_streams s none none) b.sessions h.entry;
        session = refl;
        live = ground arith;
        addressed = refl;
        waiting = refl;
      }) in
    let left = live-IsWaiting s none now b h t in
    (
      (pending s.target_device_id now b).0,
      begin-answered s waits (pending s.target_device_id now b).0 offered,
      offered,
      left,
      refl,
    )

-- The agent's stream, and then the client's: the two are joined and the session leaves the table.
pub attach-agent :
    (s : TcpRelaySession) (a now : ℕ) (b : TcpRelayBroker)
    → IsWaiting s none b
    → now ≤ s.expires_at
    → ((attach s.id s.target_device_id a false now b).0 ≡ none)
      × IsWaiting s (some a) (attach s.id s.target_device_id a false now b).1
      × ((attach s.id s.target_device_id a false now b).1.proxied ≡ b.proxied)
unfolding settle
attach-agent s a now b h t = rw (attach_agent s.id s none a now b h.entry t) (
  refl,
  record {
    unique = put-Unique s.id (with_streams s none (some a)) b.sessions h.unique;
    entry = lookup-put_self s.id (with_streams s none (some a)) b.sessions;
  },
  refl,
)

pub attach-client :
    (s : TcpRelaySession) (c a now : ℕ) (b : TcpRelayBroker)
    → IsWaiting s (some a) b
    → now ≤ s.expires_at
    → ((attach s.id s.source_device_id c true now b).0 ≡ none)
      × ((attach s.id s.source_device_id c true now b).1.proxied ≡ (c, a) ∷ b.proxied)
      × (lookup s.id (attach s.id s.source_device_id c true now b).1.sessions ≡ none)
unfolding settle
attach-client s c a now b h t =
    rw (attach_client s.id s (some a) c now b h.entry t)
      (refl, refl, lookup-delete_self s.id b.sessions)
