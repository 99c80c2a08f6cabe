-- ===== src/Controller/Broker/Waiting.antt =====
-- The wake-ups of PendingWait in internal/controller/tcp_relay.go.
use linkbit.Prelude.{
  ℕ, suc, ◌+◌, ◌≤◌, ◌≡◌, refl, inl, none, ◌∙◌, String, IsIn, Bool, true, false, List, [], ◌∷◌,
  arith, ℤ,
}
use linkbit.Prelude.Assoc.{put}
use linkbit.Models.{Device}
use linkbit.Controller.Broker.{
  TcpRelayBroker, TcpRelaySessionState, subscribing, parked, cleanup_locked, signal_locked,
  new_session, create, pending, wait_begin, wait_subscribe, is_woken, live_sessions, is_expired,
  attach, settle, attach_state, validate, Call, creates, attaches, polls, validates, step, run,
  tcp_relay_session_ttl,
}
use linkbit.Controller.Broker.Sessions.{pending_exact}

abbrev pub has_create : List Call → Bool
has_create [] = false
has_create (creates _ _ _ _ _ ∷ cs) = true
has_create (attaches _ _ _ _ _ ∷ cs) = has_create cs
has_create (polls _ _ ∷ cs) = has_create cs
has_create (validates _ _ _ _ ∷ cs) = has_create cs

attach-wakes :
    (id device : String) (conn : ℕ) (client : Bool) (now : ℕ) (b : TcpRelayBroker)
    → (attach id device conn client now b).1.wakes ≡ b.wakes
unfolding attach attach_state settle
attach-wakes id device conn true now b = ground arith
attach-wakes id device conn false now b = ground arith

wakes_suc : TcpRelayBroker → Call → ℕ
wakes_suc b (creates _ _ _ _ _) = suc b.wakes
wakes_suc b _ = b.wakes

step-wakes : (b : TcpRelayBroker) (call : Call) → (step b call).wakes ≡ wakes_suc b call
unfolding step create signal_locked cleanup_locked pending validate wakes_suc
step-wakes b (creates id now source target port) = refl
step-wakes b (attaches id device conn client now) = attach-wakes id device conn client now b
step-wakes b (polls target now) = refl
step-wakes b (validates id device client now) = refl

wakes-le : (b : TcpRelayBroker) (cs : List Call) → b.wakes ≤ (run b cs).wakes
unfolding run wakes_suc
wakes-le b [] = omega arith
wakes-le b (call ∷ cs) = ground (arith, step-wakes b call, wakes-le (step b call) cs)

is_woken_from :
    (n : ℕ) (b : TcpRelayBroker) (cs : List Call)
    → b.wakes ≡ n
    → is_woken n (run b cs) ≡ has_create cs
unfolding is_woken run wakes_suc
is_woken_from n b [] e = ground arith
is_woken_from n b (creates id now source target port ∷ cs) e = ground (
  arith,
  step-wakes b (creates id now source target port),
  wakes-le (step b (creates id now source target port)) cs,
)
is_woken_from n b (attaches id device conn client now ∷ cs) e =
    is_woken_from n (step b (attaches id device conn client now)) cs
      (step-wakes b (attaches id device conn client now) ∙ e)
is_woken_from n b (polls target now ∷ cs) e =
    is_woken_from n (step b (polls target now)) cs (step-wakes b (polls target now) ∙ e)
is_woken_from n b (validates id device client now ∷ cs) e =
    is_woken_from n (step b (validates id device client now)) cs
      (step-wakes b (validates id device client now) ∙ e)

-- A waiter that has read the wake channel is woken exactly by the calls that create a session,
-- whichever calls come after its read.
pub is_woken-run :
    (b : TcpRelayBroker) (cs : List Call)
    → (n : ℕ) × (wait_subscribe b ≡ parked n) × (is_woken n (run b cs) ≡ has_create cs)
unfolding wait_subscribe
is_woken-run b cs = (b.wakes, refl, is_woken_from b.wakes b cs refl)

-- A session created between a waiter's first look and its read of the wake channel does not wake it:
-- the waiter found nothing, it parks on the channel opened after the creation, that channel is not
-- closed, and yet the session is on offer to it until it expires.
pub create-wakes_nobody :
    (target_id id : String) (now created later : ℕ) (source target : Device ℕ) (port : ℤ)
    (b : TcpRelayBroker)
    → (pending target_id now b).0 ≡ []
    → target.id ≡ target_id
    → created ≤ later
    → later ≤ created + tcp_relay_session_ttl
    → let (w, b1) = wait_begin target_id true now b in
      let (s, b2) = create id created source target port b1 in
      (w ≡ subscribing)
      × (n : ℕ) × (wait_subscribe b2 ≡ parked n)
      × (is_woken n b2 ≡ false)
      × IsIn s (pending target_id later b2).0
unfolding wait_begin wait_subscribe is_woken create signal_locked cleanup_locked live_sessions put
create-wakes_nobody target_id id now created later source target port b empty t le le' =
    let st : TcpRelaySessionState = record {
      session = new_session id created source target port;
      client = none;
      agent = none;
    } in
    let fresh : is_expired created st ≡ false = ground arith in
    (
      rw (empty, wait_begin),
      suc b.wakes,
      refl,
      ground arith,
      (pending_exact target_id later
            (create id created source target port (wait_begin target_id true now b).1).1
            st.session).1
          (record {
            entry = (id, st);
            here = rw (fresh, live_sessions) (inl refl);
            session = refl;
            live = ground arith;
            addressed = t;
            waiting = refl;
          }),
    )
