-- ===== src/Controller/Broker/Invariant.antt =====
-- What the table of internal/controller/tcp_relay.go keeps to over any sequence of calls.
use linkbit.Prelude.{
  ℕ, ◌≡◌, refl, sym, not, ◌||◌, ℤ, ◌∙◌, inl, inr, String, Bool, true, false, ◌&&◌, Option, none,
  some, List, [], ◌∷◌, arith, ◌==◌, eq_iff, is_some, All, IsIn, Bool-cases, Option-cases,
}
use linkbit.Prelude.Assoc.{
  Assoc, lookup, delete, put, Unique, delete-Unique, put-Unique, All-delete, All-put, All-lookup,
}
use linkbit.Models.{Device, TcpRelaySession}
use linkbit.Controller.Broker.Table.{live_sessions-Unique}
use linkbit.Controller.Broker.{
  TcpRelaySessionState, TcpRelayBroker, new_tcp_relay_broker, is_expired, live_sessions,
  cleanup_locked, new_session, create, pending, validate, settle, attach_state, attach, Call,
  creates, attaches, polls, validates, step, run,
}

-- A connection that is there belongs to the device.
abbrev pub Owned : (ℕ → String) → Option ℕ → String → Type 0
Owned owner none device = Unit
Owned owner (some c) device = owner c ≡ device

module _ (owner : ℕ → String) (history : List TcpRelaySession) where
  -- An entry is a session that was created, under its id, whose streams are of its own two devices
  -- and are not both there.
  pub record IsEntry (e : String × TcpRelaySessionState) : Type 0 where
    pub key : e.1.session.id ≡ e.0
    pub origin : IsIn e.1.session history
    pub client : Owned owner e.1.client e.1.session.source_device_id
    pub agent : Owned owner e.1.agent e.1.session.target_device_id
    pub waiting : (is_some e.1.client && is_some e.1.agent) ≡ false

  -- A joined pair links the source of a session that was created to the target of that session.
  pub record Joins (p : ℕ × ℕ) : Type 0 where
    pub session : TcpRelaySession
    pub origin : IsIn session history
    pub client : owner p.0 ≡ session.source_device_id
    pub agent : owner p.1 ≡ session.target_device_id

  pub record Inv (b : TcpRelayBroker) : Type 0 where
    pub unique : Unique b.sessions
    pub entries : All IsEntry b.sessions
    pub joined : All Joins b.proxied

All-live_sessions :
    (P : String × TcpRelaySessionState → Type 0) (now : ℕ) (m : Assoc TcpRelaySessionState)
    → All P m
    → All P (live_sessions now m)
unfolding live_sessions
All-live_sessions P now [] h = tt
All-live_sessions P now ((k, st) ∷ m) (p, h) = elim (Bool-cases (is_expired now st)) [
  | inl e ↦ rw (e, live_sessions) (All-live_sessions P now m h)
  | inr e ↦ rw (e, live_sessions) (p, All-live_sessions P now m h)
]

All-imp :
    {A : Type 0} (P Q : A → Type 0) (f : (a : A) → P a → Q a) (xs : List A) → All P xs → All Q xs
All-imp P Q f [] h = tt
All-imp P Q f (x ∷ xs) (p, h) = (f x p, All-imp P Q f xs h)

module _ (owner : ℕ → String) (history : List TcpRelaySession) where
  cleanup_locked-Inv :
      (now : ℕ) (b : TcpRelayBroker)
      → Inv owner history b
      → Inv owner history (cleanup_locked now b)
  unfolding cleanup_locked
  cleanup_locked-Inv now b v = record {
    unique = live_sessions-Unique now b.sessions v.unique;
    entries = All-live_sessions (IsEntry owner history) now b.sessions v.entries;
    joined = v.joined;
  }

  extend-Inv :
      (s : TcpRelaySession) (b : TcpRelayBroker) → Inv owner history b → Inv owner (s ∷ history) b
  extend-Inv s b v = record {
    unique = v.unique;
    entries =
        All-imp (IsEntry owner history) (IsEntry owner (s ∷ history))
          (λ e h. record {
            key = h.key;
            origin = inr h.origin;
            client = h.client;
            agent = h.agent;
            waiting = h.waiting;
          })
          b.sessions v.entries;
    joined =
        All-imp (Joins owner history) (Joins owner (s ∷ history))
          (λ p h. record {
            session = h.session;
            origin = inr h.origin;
            client = h.client;
            agent = h.agent;
          })
          b.proxied v.joined;
  }

  abbrev with_streams : TcpRelaySession → Option ℕ → Option ℕ → TcpRelaySessionState
  with_streams s client agent = record { session = s; client = client; agent = agent }

  keep-Inv :
      (id : String) (st : TcpRelaySessionState) (b : TcpRelayBroker)
      → IsEntry owner history (id, st)
      → Inv owner history b
      → Inv owner history (record b { sessions = put id st b.sessions })
  keep-Inv id st b entry v = record {
    unique = put-Unique id st b.sessions v.unique;
    entries = All-put (IsEntry owner history) id st b.sessions entry v.entries;
    joined = v.joined;
  }

  drop-Inv :
      (id : String) (b : TcpRelayBroker)
      → Inv owner history b
      → Inv owner history (record b { sessions = delete id b.sessions })
  drop-Inv id b v = record {
    unique = delete-Unique id b.sessions v.unique;
    entries = All-delete (IsEntry owner history) id b.sessions v.entries;
    joined = v.joined;
  }

  settle-Inv :
      (id : String) (s : TcpRelaySession) (client agent : Option ℕ) (b : TcpRelayBroker)
      → s.id ≡ id
      → IsIn s history
      → Owned owner client s.source_device_id
      → Owned owner agent s.target_device_id
      → Inv owner history b
      → Inv owner history (settle id (with_streams s client agent) b)
  unfolding settle
  settle-Inv id s none agent b key origin oc oa v =
      keep-Inv id (with_streams s none agent) b
        (record { key = key; origin = origin; client = oc; agent = oa; waiting = refl }) v
  settle-Inv id s (some c) none b key origin oc oa v =
      keep-Inv id (with_streams s (some c) none) b
        (record { key = key; origin = origin; client = oc; agent = oa; waiting = refl }) v
  settle-Inv id s (some c) (some a) b key origin oc oa v =
      let dropped : Inv owner history (record b { sessions = delete id b.sessions }) =
        drop-Inv id b v in
      record {
        unique = dropped.unique;
        entries = dropped.entries;
        joined = (record { session = s; origin = origin; client = oc; agent = oa }, v.joined);
      }

  closed-Inv :
      (cs : List ℕ) (b : TcpRelayBroker)
      → Inv owner history b
      → Inv owner history (record b { closed = cs })
  closed-Inv cs b v = record { unique = v.unique; entries = v.entries; joined = v.joined }

  attach_state-Inv :
      (id device : String) (conn : ℕ) (client : Bool) (st : TcpRelaySessionState)
      (b : TcpRelayBroker)
      → owner conn ≡ device
      → IsEntry owner history (id, st)
      → Inv owner history b
      → Inv owner history (attach_state id device conn client st b).1
  unfolding attach_state
  attach_state-Inv id device conn true st b own e v =
      elim (Bool-cases (not (st.session.source_device_id == device) || is_some st.client)) [
        | inl r ↦ rw (r, attach_state) (closed-Inv (conn ∷ b.closed) b v)
        | inr r ↦
            rw (r, attach_state)
              (settle-Inv id st.session (some conn) st.agent b e.key e.origin
                (own ∙ sym (ground (arith, eq_iff st.session.source_device_id device))) e.agent v)
      ]
  attach_state-Inv id device conn false st b own e v =
      elim (Bool-cases (not (st.session.target_device_id == device) || is_some st.agent)) [
        | inl r ↦ rw (r, attach_state) (closed-Inv (conn ∷ b.closed) b v)
        | inr r ↦
            rw (r, attach_state)
              (settle-Inv id st.session st.client (some conn) b e.key e.origin e.client
                (own ∙ sym (ground (arith, eq_iff st.session.target_device_id device))) v)
      ]

  attach-Inv :
      (id device : String) (conn : ℕ) (client : Bool) (now : ℕ) (b : TcpRelayBroker)
      → owner conn ≡ device
      → Inv owner history b
      → Inv owner history (attach id device conn client now b).1
  unfolding attach
  attach-Inv id device conn client now b own v = elim (Option-cases (lookup id b.sessions)) [
    | inl e ↦ rw (e, attach) (closed-Inv (conn ∷ b.closed) b v)
    | inr (st, e) ↦ elim (Bool-cases (is_expired now st)) [
      | inl x ↦ rw (e, attach) (rw x (closed-Inv (conn ∷ b.closed) _ (drop-Inv id b v)))
      | inr x ↦
          rw (e, attach)
            (rw x (
              attach_state-Inv id device conn client st b own
                (All-lookup (IsEntry owner history) id b.sessions v.entries e) v))
    ]
  ]

create-Inv :
    (owner : ℕ → String) (history : List TcpRelaySession) (id : String) (now : ℕ)
    (source target : Device ℕ) (port : ℤ) (b : TcpRelayBroker)
    → Inv owner history b
    → Inv owner
        (new_session id now source target port ∷ history)
        (create id now source target port b).1
unfolding create
create-Inv owner history id now source target port b v =
    let s = new_session id now source target port in
    let w : Inv owner (s ∷ history) (
        cleanup_locked now (record b {
          sessions = put id (record { session = s; client = none; agent = none }) b.sessions;
        })) =
      cleanup_locked-Inv owner (s ∷ history) now _ (
        keep-Inv owner (s ∷ history) id _ b
          (record { key = refl; origin = inl refl; client = tt; agent = tt; waiting = refl })
          (extend-Inv owner history s b v)) in
    record { unique = w.unique; entries = w.entries; joined = w.joined }

-- The sessions that the calls create, latest first, after those of `history`.
pub sessions_of : List TcpRelaySession → List Call → List TcpRelaySession
sessions_of history [] = history
sessions_of history (creates id now source target port ∷ cs) =
    sessions_of (new_session id now source target port ∷ history) cs
sessions_of history (attaches _ _ _ _ _ ∷ cs) = sessions_of history cs
sessions_of history (polls _ _ ∷ cs) = sessions_of history cs
sessions_of history (validates _ _ _ _ ∷ cs) = sessions_of history cs

-- Each connection is attached for the device that it belongs to, which is what the handlers'
-- authentication of the device gives.
abbrev pub IsHonest : (ℕ → String) → Call → Type 0
IsHonest owner (attaches _ device conn _ _) = owner conn ≡ device
IsHonest owner _ = Unit

run-Inv :
    (owner : ℕ → String) (cs : List Call) (history : List TcpRelaySession) (b : TcpRelayBroker)
    → All (IsHonest owner) cs
    → Inv owner history b
    → Inv owner (sessions_of history cs) (run b cs)
unfolding run step sessions_of pending validate
run-Inv owner [] history b h v = v
run-Inv owner (creates id now source target port ∷ cs) history b h v =
    run-Inv owner cs _ _ h.1 (create-Inv owner history id now source target port b v)
run-Inv owner (attaches sid dev conn client now ∷ cs) history b h v =
    run-Inv owner cs history _ h.1 (attach-Inv owner history sid dev conn client now b h.0 v)
run-Inv owner (polls target now ∷ cs) history b h v =
    run-Inv owner cs history _ h.1 (cleanup_locked-Inv owner history now b v)
run-Inv owner (validates sid dev client now ∷ cs) history b h v =
    run-Inv owner cs history _ h.1 (cleanup_locked-Inv owner history now b v)

-- From an empty broker and after any sequence of calls in which each stream is attached for the
-- device that owns it: every id is in the table once, every entry is a session that was created, is
-- held under its own id, holds no stream but its source's as the client and its target's as the
-- agent, and not both; and every pair that was joined links the source to the target of one session
-- that was created.
pub run-new-Inv :
    (owner : ℕ → String) (cs : List Call)
    → All (IsHonest owner) cs
    → Inv owner (sessions_of [] cs) (run new_tcp_relay_broker cs)
run-new-Inv owner cs h =
    run-Inv owner cs [] new_tcp_relay_broker h (record { unique = tt; entries = tt; joined = tt })
