-- ===== src/Controller/Broker/Sessions.antt =====
-- What the calls of internal/controller/tcp_relay.go answer.
use linkbit.Prelude.{
  ℕ, ◌≤◌, ◌≡◌, ◌↔◌, refl, sym, ap, inl, inr, String, IsIn, Bool, true, false, not, ◌&&◌, Option,
  none, some, [], ◌∷◌, arith, ◌==◌, eq_iff, eq_refl, if◌then◌else◌, is_some, Bool-cases,
  Option-cases,
}
use mathlib.Core.Path.{subst}
use linkbit.Prelude.Assoc.{Assoc, lookup, delete, put, Unique, lookup-delete, lookup-put}
use linkbit.Models.{TcpRelaySession}
use linkbit.Controller.Broker.Table.{lookup_live}
use linkbit.Controller.Broker.{
  TcpRelaySessionState, TcpRelayBroker, is_expired, live_sessions, cleanup_locked, pending_sessions,
  pending, validate_state, validate, settle, attach_state, attach,
}

-- A session of the table that a target's agent may still take: it has not expired, it is for that
-- target, and no agent is there.
pub record IsOffered (target : String) (now : ℕ) (m : Assoc TcpRelaySessionState)
    (s : TcpRelaySession) : Type 0 where
  pub entry : String × TcpRelaySessionState
  pub here : IsIn entry m
  pub session : entry.1.session ≡ s
  pub live : is_expired now entry.1 ≡ false
  pub addressed : entry.1.session.target_device_id ≡ target
  pub waiting : entry.1.agent ≡ none

abbrev is_open : String → TcpRelaySessionState → Bool
is_open target st = (st.session.target_device_id == target) && not (is_some st.agent)

none_of_not_is_some : {A : Type 0} (o : Option A) → is_some o ≡ false → o ≡ none
none_of_not_is_some none h = refl
none_of_not_is_some (some a) h = cc

pending_sound :
    (target : String) (now : ℕ) (m : Assoc TcpRelaySessionState) (s : TcpRelaySession)
    → IsIn s (pending_sessions target (live_sessions now m))
    → IsOffered target now m s
unfolding pending_sessions live_sessions
pending_sound target now [] s h = absurd h
pending_sound target now ((k, st) ∷ m) s h = elim (Bool-cases (is_expired now st)) [
  | inl x ↦ later (pending_sound target now m s (rw (x, live_sessions) at h))
  | inr x ↦
      let h' : IsIn s (pending_sessions target ((k, st) ∷ live_sessions now m)) =
        rw (x, live_sessions) at h in
      elim (Bool-cases (is_open target st)) [
        | inl o ↦
            let h'' : IsIn s (st.session ∷ pending_sessions target (live_sessions now m)) =
              rw (o, pending_sessions) at h' in
            elim h'' [
              | inl e ↦ record {
                entry = (k, st);
                here = inl refl;
                session = sym e;
                live = x;
                addressed = ground (arith, eq_iff st.session.target_device_id target);
                waiting = none_of_not_is_some st.agent (ground arith);
              }
              | inr r ↦ later (pending_sound target now m s r)
            ]
        | inr o ↦ later (pending_sound target now m s (rw (o, pending_sessions) at h'))
      ]
]
  where
    later : IsOffered target now m s → IsOffered target now ((k, st) ∷ m) s
    later o = record {
      entry = o.entry;
      here = inr o.here;
      session = o.session;
      live = o.live;
      addressed = o.addressed;
      waiting = o.waiting;
    }

pending_complete :
    (target : String) (now : ℕ) (m : Assoc TcpRelaySessionState) (e : String × TcpRelaySessionState)
    → IsIn e m
    → is_expired now e.1 ≡ false
    → e.1.session.target_device_id ≡ target
    → e.1.agent ≡ none
    → IsIn e.1.session (pending_sessions target (live_sessions now m))
unfolding pending_sessions live_sessions
pending_complete target now [] e i x t a = absurd i
pending_complete target now ((k, st) ∷ m) e (inl p) x t a =
    let x' : is_expired now st ≡ false = rw p at x in
    let o : is_open target st ≡ true = ground (arith, eq_iff st.session.target_device_id target) in
    rw (x', live_sessions) (rw (o, pending_sessions) (inl (ap (λ q. q.1.session) p)))
pending_complete target now ((k, st) ∷ m) e (inr i) x t a =
    let rest = pending_complete target now m e i x t a in
    elim (Bool-cases (is_expired now st)) [
      | inl y ↦ rw (y, live_sessions) rest
      | inr y ↦ elim (Bool-cases (is_open target st)) [
        | inl o ↦ rw (y, live_sessions) (rw (o, pending_sessions) (inr rest))
        | inr o ↦ rw (y, live_sessions) (rw (o, pending_sessions) rest)
      ]
    ]

-- A target's poll answers exactly the sessions of the table that have not expired, are for that
-- target, and have no agent yet.
pub pending_exact :
    (target : String) (now : ℕ) (b : TcpRelayBroker) (s : TcpRelaySession)
    → IsIn s (pending target now b).0 ↔ IsOffered target now b.sessions s
unfolding pending cleanup_locked
pending_exact target now b s = (
  pending_sound target now b.sessions s,
  λ o.
      subst (λ q. IsIn q (pending_sessions target (live_sessions now b.sessions))) o.session
        (pending_complete target now b.sessions o.entry o.here o.live o.addressed o.waiting),
)

attach_state-validate_state :
    (id device : String) (conn : ℕ) (client : Bool) (st : TcpRelaySessionState) (b : TcpRelayBroker)
    → ((attach_state id device conn client st b).0 ≡ none)
      ↔ (validate_state st device client ≡ none)
unfolding attach_state validate_state
attach_state-validate_state id device conn true st b = ((λ h. ground arith), (λ h. ground arith))
attach_state-validate_state id device conn false st b = ((λ h. ground arith), (λ h. ground arith))

-- A look at a session and the attachment that follows it agree, where no call and no time comes
-- between them: the stream is accepted exactly if the look found nothing wrong.
pub attach-validate :
    (id device : String) (conn : ℕ) (client : Bool) (now : ℕ) (b : TcpRelayBroker)
    → Unique b.sessions
    → ((attach id device conn client now (validate id device client now b).1).0 ≡ none)
      ↔ ((validate id device client now b).0 ≡ none)
unfolding validate attach cleanup_locked
attach-validate id device conn client now b u =
    elim (Option-cases (lookup id (live_sessions now b.sessions))) [
      | inl e ↦ rw (e, attach, validate) ((λ h. cc), (λ h. cc))
      | inr (st, e) ↦
          let x : is_expired now st ≡ false = ground (arith, lookup_live id now b.sessions u) in
          rw (e, attach, validate) (rw x (attach_state-validate_state id device conn client st _))
    ]

-- A stream is accepted exactly if it is the source's as the client, or the target's as the agent, of a
-- session in the table that has not expired and has no such stream yet.
pub attach-accepts_iff :
    (id device : String) (conn : ℕ) (client : Bool) (now : ℕ) (b : TcpRelayBroker)
    → ((attach id device conn client now b).0 ≡ none) ↔ (
        (st : TcpRelaySessionState) × (lookup id b.sessions ≡ some st)
        × (is_expired now st ≡ false)
        × ((if client then st.session.source_device_id else st.session.target_device_id) ≡ device)
        × ((if client then st.client else st.agent) ≡ none))
unfolding attach attach_state
attach-accepts_iff id device conn true now b = elim (Option-cases (lookup id b.sessions)) [
  | inl e ↦ rw (e, attach) ((λ h. cc), (λ r. cc (r.1)))
  | inr (st, e) ↦ (
    (λ h. (
      st,
      e,
      ground arith,
      ground (arith, eq_iff st.session.source_device_id device),
      none_of_not_is_some st.client (ground arith),
    )),
    (λ r. ground (arith, eq_iff st.session.source_device_id device)),
  )
]
attach-accepts_iff id device conn false now b = elim (Option-cases (lookup id b.sessions)) [
  | inl e ↦ rw (e, attach) ((λ h. cc), (λ r. cc (r.1)))
  | inr (st, e) ↦ (
    (λ h. (
      st,
      e,
      ground arith,
      ground (arith, eq_iff st.session.target_device_id device),
      none_of_not_is_some st.agent (ground arith),
    )),
    (λ r. ground (arith, eq_iff st.session.target_device_id device)),
  )
]

abbrev pub with_streams : TcpRelaySession → Option ℕ → Option ℕ → TcpRelaySessionState
with_streams s client agent = record { session = s; client = client; agent = agent }

pub attach_client :
    (id : String) (s : TcpRelaySession) (agent : Option ℕ) (c now : ℕ) (b : TcpRelayBroker)
    → lookup id b.sessions ≡ some (with_streams s none agent)
    → now ≤ s.expires_at
    → attach id s.source_device_id c true now b
      ≡ (none, settle id (with_streams s (some c) agent) b)
unfolding attach attach_state
attach_client id s agent c now b e h = rw (e, attach) (ground (arith, eq_refl s.source_device_id))

pub attach_agent :
    (id : String) (s : TcpRelaySession) (client : Option ℕ) (a now : ℕ) (b : TcpRelayBroker)
    → lookup id b.sessions ≡ some (with_streams s client none)
    → now ≤ s.expires_at
    → attach id s.target_device_id a false now b
      ≡ (none, settle id (with_streams s client (some a)) b)
unfolding attach attach_state
attach_agent id s client a now b e h = rw (e, attach) (ground (arith, eq_refl s.target_device_id))

pub lookup-put_self :
    (id : String) (st : TcpRelaySessionState) (m : Assoc TcpRelaySessionState)
    → lookup id (put id st m) ≡ some st
lookup-put_self id st m = simp (lookup-put, eq_refl)

pub lookup-delete_self :
    (id : String) (m : Assoc TcpRelaySessionState) → lookup id (delete id m) ≡ none
lookup-delete_self id m = simp (lookup-delete, eq_refl)

-- Both orders of the two streams of a session that is in the table with neither of them join them, up
-- to the time at which it expires: both are accepted, the pair is handed over client first, and the
-- session leaves the table.
pub attach-attach :
    (id : String) (s : TcpRelaySession) (c a now later : ℕ) (b : TcpRelayBroker)
    → lookup id b.sessions ≡ some (record { session = s; client = none; agent = none })
    → later ≤ s.expires_at
    → now ≤ later
    → let client_first =
        attach id s.target_device_id a false later (attach id s.source_device_id c true now b).1 in
      let agent_first =
        attach id s.source_device_id c true later (attach id s.target_device_id a false now b).1 in
      (client_first.0 ≡ none)
      × (client_first.1.proxied ≡ (c, a) ∷ b.proxied)
      × (lookup id client_first.1.sessions ≡ none)
      × (agent_first.0 ≡ none)
      × (agent_first.1.proxied ≡ (c, a) ∷ b.proxied)
      × (lookup id agent_first.1.sessions ≡ none)
unfolding settle
attach-attach id s c a now later b e h k =
    rw
      (
        attach_client id s none c now b e (omega arith),
        attach_agent id s none a now b e (omega arith),
      )
      (rw
        (
          attach_agent id s (some c) a later (settle id (with_streams s (some c) none) b)
              (lookup-put_self id (with_streams s (some c) none) b.sessions) h,
          attach_client id s (some a) c later (settle id (with_streams s none (some a)) b)
              (lookup-put_self id (with_streams s none (some a)) b.sessions) h,
        )
        (refl, refl, lookup-delete_self id _, refl, refl, lookup-delete_self id _))
