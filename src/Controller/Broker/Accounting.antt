-- ===== src/Controller/Broker/Accounting.antt =====
-- Where the connections of internal/controller/tcp_relay.go go: each one that the broker is handed
-- is kept in an entry, closed, or joined to another.
use linkbit.Prelude.{
  ℕ, ℤ, ◌+◌, ◌≡◌, refl, inl, inr, String, Bool, true, false, none, some, List, [], ◌∷◌, ◌++◌, arith,
  eqb, ◌==◌, eq_iff, if◌then◌else◌, Bool-cases, Option-cases,
}
use mathlib.Core.Path.{subst}
use linkbit.Prelude.Assoc.{Assoc, lookup, delete, put, Unique, delete-Unique, put-Unique}
use linkbit.Models.{Device}
use linkbit.Controller.Broker.Table.{live_sessions-Unique}
use linkbit.Controller.Broker.{
  TcpRelaySessionState, TcpRelayBroker, conns, is_expired, live_sessions, expired_conns,
  cleanup_locked, new_session, create, settle, attach_state, attach, new_tcp_relay_broker, pending,
  validate, Call, creates, attaches, polls, validates, step, run,
}

abbrev pub count : ℕ → List ℕ → ℕ
count c [] = 0
count c (x ∷ xs) = (if eqb x c then 1 else 0) + count c xs

count-append : (c : ℕ) (xs ys : List ℕ) → count c (xs ++ ys) ≡ count c xs + count c ys
count-append c [] ys = omega arith
count-append c (x ∷ xs) ys = omega (arith, count-append c xs ys)

abbrev pub count_pairs : ℕ → List (ℕ × ℕ) → ℕ
count_pairs c [] = 0
count_pairs c ((x, y) ∷ ps) = count c (x ∷ y ∷ []) + count_pairs c ps

-- How often the entry, the table and the whole broker have the connection `c`.
abbrev pub in_entry : ℕ → TcpRelaySessionState → ℕ
in_entry c st = count c (conns st.client) + count c (conns st.agent)

abbrev pub in_table : ℕ → Assoc TcpRelaySessionState → ℕ
in_table c [] = 0
in_table c ((k, st) ∷ m) = in_entry c st + in_table c m

abbrev pub total : ℕ → TcpRelayBroker → ℕ
total c b = in_table c b.sessions + count c b.closed + count_pairs c b.proxied

in_table_absent :
    (c : ℕ) (k : String) (m : Assoc TcpRelaySessionState)
    → lookup k m ≡ none
    → in_table c (delete k m) ≡ in_table c m
unfolding lookup delete
in_table_absent c k [] h = refl
in_table_absent c k ((j, st) ∷ m) h = elim (Bool-cases (j == k)) [
  | inl e ↦ absurd (ground arith)
  | inr e ↦ rw (e, delete) (omega (arith, in_table_absent c k m (rw (e, lookup) at h)))
]

in_table-delete :
    (c : ℕ) (k : String) (m : Assoc TcpRelaySessionState) {st : TcpRelaySessionState}
    → Unique m
    → lookup k m ≡ some st
    → in_table c (delete k m) + in_entry c st ≡ in_table c m
unfolding lookup delete
in_table-delete c k [] u h = cc
in_table-delete c k ((j, s) ∷ m) {st} (absent, u) h = elim (Bool-cases (j == k)) [
  | inl e ↦
      let same : s ≡ st = ground arith in
      rw (e, delete)
        (subst (λ x. in_table c (delete k m) + in_entry c x ≡ in_entry c s + in_table c m) same
          (omega (
            arith,
            in_table_absent c k m (subst (λ x. lookup x m ≡ none) ((eq_iff j k).0 e) absent),
          )))
  | inr e ↦ rw (e, delete) (omega (arith, in_table-delete c k m u (rw (e, lookup) at h)))
]

in_table-live :
    (c now : ℕ) (m : Assoc TcpRelaySessionState)
    → in_table c (live_sessions now m) + count c (expired_conns now m) ≡ in_table c m
unfolding live_sessions expired_conns
in_table-live c now [] = omega arith
in_table-live c now ((k, st) ∷ m) = elim (Bool-cases (is_expired now st)) [
  | inl e ↦
      rw (e, live_sessions, expired_conns)
        (omega (
          arith,
          count-append c (conns st.client) (conns st.agent ++ expired_conns now m),
          count-append c (conns st.agent) (expired_conns now m),
          in_table-live c now m,
        ))
  | inr e ↦ rw (e, live_sessions, expired_conns) (omega (arith, in_table-live c now m))
]

cleanup_locked-total : (c now : ℕ) (b : TcpRelayBroker) → total c (cleanup_locked now b) ≡ total c b
unfolding cleanup_locked
cleanup_locked-total c now b =
    omega (
      arith,
      count-append c (expired_conns now b.sessions) b.closed,
      in_table-live c now b.sessions,
    )

create-total :
    (c : ℕ) (id : String) (now : ℕ) (source target : Device ℕ) (port : ℤ) (b : TcpRelayBroker)
    → lookup id b.sessions ≡ none
    → total c (create id now source target port b).1 ≡ total c b
unfolding create put
create-total c id now source target port b fresh =
    omega (arith, cleanup_locked-total c now _, in_table_absent c id b.sessions fresh)

settle-total :
    (c : ℕ) (id : String) (st old : TcpRelaySessionState) (b : TcpRelayBroker)
    → Unique b.sessions
    → lookup id b.sessions ≡ some old
    → total c (settle id st b) + in_entry c old ≡ total c b + in_entry c st
unfolding settle put
settle-total c id st old b u e = ground (arith, in_table-delete c id b.sessions u e)

attach_state-total :
    (c : ℕ) (id device : String) (conn : ℕ) (client : Bool) (st : TcpRelaySessionState)
    (b : TcpRelayBroker)
    → Unique b.sessions
    → lookup id b.sessions ≡ some st
    → total c (attach_state id device conn client st b).1 ≡ total c b + count c (conn ∷ [])
unfolding attach_state
attach_state-total c id device conn true st b u e =
    ground (arith, settle-total c id (record st { client = some conn }) st b u e)
attach_state-total c id device conn false st b u e =
    ground (arith, settle-total c id (record st { agent = some conn }) st b u e)

-- What the entry of an expired session holds, when a stream is attached to that session.
unfoldable pub abandoned : ℕ → String → ℕ → TcpRelayBroker → ℕ
abandoned c id now b = elim (lookup id b.sessions) [
  | none ↦ 0
  | some st ↦ if is_expired now st then in_entry c st else 0
]

attach-total :
    (c : ℕ) (id device : String) (conn : ℕ) (client : Bool) (now : ℕ) (b : TcpRelayBroker)
    → Unique b.sessions
    → total c (attach id device conn client now b).1 + abandoned c id now b
      ≡ total c b + count c (conn ∷ [])
unfolding attach abandoned
attach-total c id device conn client now b u = elim (Option-cases (lookup id b.sessions)) [
  | inl e ↦ rw (e, attach, abandoned) (omega arith)
  | inr (st, e) ↦ elim (Bool-cases (is_expired now st)) [
    | inl x ↦ rw (e, attach, abandoned) (rw x (omega (arith, in_table-delete c id b.sessions u e)))
    | inr x ↦
        rw (e, attach, abandoned)
          (rw x (omega (arith, attach_state-total c id device conn client st b u e)))
  ]
]

settle-Unique :
    (id : String) (st : TcpRelaySessionState) (b : TcpRelayBroker)
    → Unique b.sessions
    → Unique (settle id st b).sessions
unfolding settle
settle-Unique id st b u =
    ground (arith, put-Unique id st b.sessions u, delete-Unique id b.sessions u)

attach_state-Unique :
    (id device : String) (conn : ℕ) (client : Bool) (st : TcpRelaySessionState) (b : TcpRelayBroker)
    → Unique b.sessions
    → Unique (attach_state id device conn client st b).1.sessions
unfolding attach_state
attach_state-Unique id device conn true st b u =
    ground (arith, settle-Unique id (record st { client = some conn }) b u)
attach_state-Unique id device conn false st b u =
    ground (arith, settle-Unique id (record st { agent = some conn }) b u)

attach-Unique :
    (id device : String) (conn : ℕ) (client : Bool) (now : ℕ) (b : TcpRelayBroker)
    → Unique b.sessions
    → Unique (attach id device conn client now b).1.sessions
unfolding attach
attach-Unique id device conn client now b u = elim (Option-cases (lookup id b.sessions)) [
  | inl e ↦ rw (e, attach) u
  | inr (st, e) ↦ elim (Bool-cases (is_expired now st)) [
    | inl x ↦ rw (e, attach) (rw x (delete-Unique id b.sessions u))
    | inr x ↦ rw (e, attach) (rw x (attach_state-Unique id device conn client st b u))
  ]
]

-- The connections that a call hands to the broker, and those that it leaves in no place.
abbrev pub handed : ℕ → Call → ℕ
handed c (attaches _ _ conn _ _) = count c (conn ∷ [])
handed c _ = 0

abbrev pub lost : ℕ → TcpRelayBroker → Call → ℕ
lost c b (attaches id _ _ _ now) = abandoned c id now b
lost c b _ = 0

-- `uuid.NewString()` gives no id that is in the table.
abbrev pub IsFresh : TcpRelayBroker → Call → Type 0
IsFresh b (creates id _ _ _ _) = lookup id b.sessions ≡ none
IsFresh b _ = Unit

step-total :
    (c : ℕ) (b : TcpRelayBroker) (call : Call)
    → Unique b.sessions
    → IsFresh b call
    → total c (step b call) + lost c b call ≡ total c b + handed c call
unfolding step pending validate
step-total c b (creates id now source target port) u fresh =
    omega (arith, create-total c id now source target port b fresh)
step-total c b (attaches id device conn client now) u fresh =
    attach-total c id device conn client now b u
step-total c b (polls target now) u fresh = omega (arith, cleanup_locked-total c now b)
step-total c b (validates id device client now) u fresh =
    omega (arith, cleanup_locked-total c now b)

step-Unique : (b : TcpRelayBroker) (call : Call) → Unique b.sessions → Unique (step b call).sessions
unfolding step create cleanup_locked pending validate
step-Unique b (creates id now source target port) u =
    live_sessions-Unique now (put id state b.sessions) (put-Unique id state b.sessions u)
  where
    state : TcpRelaySessionState
    state = record { session = new_session id now source target port; client = none; agent = none }
step-Unique b (attaches id device conn client now) u = attach-Unique id device conn client now b u
step-Unique b (polls target now) u = live_sessions-Unique now b.sessions u
step-Unique b (validates id device client now) u = live_sessions-Unique now b.sessions u

abbrev pub AllFresh : TcpRelayBroker → List Call → Type 0
AllFresh b [] = Unit
AllFresh b (call ∷ cs) = IsFresh b call × AllFresh (step b call) cs

abbrev pub all_handed : ℕ → List Call → ℕ
all_handed c [] = 0
all_handed c (call ∷ cs) = handed c call + all_handed c cs

abbrev pub all_lost : ℕ → TcpRelayBroker → List Call → ℕ
all_lost c b [] = 0
all_lost c b (call ∷ cs) = lost c b call + all_lost c (step b call) cs

run_from-total :
    (c : ℕ) (b : TcpRelayBroker) (cs : List Call)
    → Unique b.sessions
    → AllFresh b cs
    → total c (run b cs) + all_lost c b cs ≡ total c b + all_handed c cs
unfolding run
run_from-total c b [] u fresh = omega arith
run_from-total c b (call ∷ cs) u (f, fresh) =
    omega (
      arith,
      step-total c b call u f,
      run_from-total c (step b call) cs (step-Unique b call u) fresh,
    )

-- Over any run from an empty broker in which each new session has an id that is not in the table: a
-- connection is attached exactly as often as it ends up in an entry, closed, joined in a pair, or
-- lost. It is lost exactly where it waits in the entry of an expired session and another stream is
-- then attached to that session.
pub run-total :
    (c : ℕ) (cs : List Call)
    → AllFresh new_tcp_relay_broker cs
    → total c (run new_tcp_relay_broker cs) + all_lost c new_tcp_relay_broker cs ≡ all_handed c cs
run-total c cs fresh = omega (arith, run_from-total c new_tcp_relay_broker cs tt fresh)
