-- ===== src/Controller/Broker/Table.antt =====
-- cleanupLocked on the table of sessions of internal/controller/tcp_relay.go.
use linkbit.Prelude.{
  ℕ, ◌≡◌, refl, inl, inr, String, Option, none, some, [], ◌∷◌, arith, eq_iff, if◌then◌else◌,
  Bool-cases,
}
use linkbit.Prelude.Assoc.{Assoc, lookup, Unique}
use linkbit.Controller.Broker.{TcpRelaySessionState, is_expired, live_sessions}

pub lookup-live_sessions :
    (k : String) (now : ℕ) (m : Assoc TcpRelaySessionState)
    → lookup k m ≡ none
    → lookup k (live_sessions now m) ≡ none
unfolding lookup live_sessions
lookup-live_sessions k now [] h = refl
lookup-live_sessions k now ((j, st) ∷ m) h = ground (arith, lookup-live_sessions k now m)

pub live_sessions-Unique :
    (now : ℕ) (m : Assoc TcpRelaySessionState) → Unique m → Unique (live_sessions now m)
unfolding live_sessions
live_sessions-Unique now [] u = tt
live_sessions-Unique now ((k, st) ∷ m) (absent, u) = elim (Bool-cases (is_expired now st)) [
  | inl e ↦ rw (e, live_sessions) (live_sessions-Unique now m u)
  | inr e ↦
      rw (e, live_sessions) (lookup-live_sessions k now m absent, live_sessions-Unique now m u)
]

abbrev pub keep_live : ℕ → Option TcpRelaySessionState → Option TcpRelaySessionState
keep_live now none = none
keep_live now (some st) = if is_expired now st then none else some st

-- Exactly the sessions that have expired go.
pub lookup_live :
    (k : String) (now : ℕ) (m : Assoc TcpRelaySessionState)
    → Unique m
    → lookup k (live_sessions now m) ≡ keep_live now (lookup k m)
unfolding lookup live_sessions
lookup_live k now [] u = refl
lookup_live k now ((j, s) ∷ m) (absent, u) =
    ground (arith, lookup_live k now m u, lookup-live_sessions k now m, eq_iff j k)
