-- ===== src/Controller/Broker/Tests.antt =====
-- Runs of the broker of internal/controller/tcp_relay.go.
use linkbit.Prelude.{
  ℕ, pos, ◌≡◌, refl, String, IsIn, true, false, none, some, List, [], ◌∷◌, ◌+◌, arith, eqb, ◌↔◌,
  if◌then◌else◌,
}
use linkbit.Prelude.Assoc.{lookup, delete, put}
use linkbit.Models.{Device, TcpRelaySession}
use linkbit.Controller.Broker.{
  TcpRelayBroker, TcpRelaySessionState, new_tcp_relay_broker, new_session, create, pending,
  wait_begin, subscribing, parked, wait_subscribe, is_woken, validate, attach, Call, creates,
  attaches, run, is_expired, live_sessions, expired_conns, cleanup_locked, step, signal_locked,
  attach_state, settle, validate_state, pending_sessions,
}
use linkbit.Controller.Broker.Invariant.{Inv, sessions_of, run-new-Inv}
use linkbit.Controller.Broker.Accounting.{total, abandoned, run-total}
use linkbit.Controller.Broker.Sessions.{attach-accepts_iff, attach-attach}
use linkbit.Controller.Broker.Waiting.{is_woken-run, create-wakes_nobody}

broker : Unit {0}
unfolding lookup delete put create signal_locked cleanup_locked live_sessions expired_conns step run
    attach attach_state settle validate validate_state pending pending_sessions abandoned wait_begin
    wait_subscribe is_woken
broker = tt

abbrev device : String → Device ℕ
device id = record {
  id = id;
  user_id = "u";
  group_id = "default";
  name = id;
  virtual_ip = "10.88.0.9";
  public_key = "key";
  endpoint = "";
  token_hash = "h";
  device_token = "";
  status = "online";
  last_seen_at = 1;
  created_at = 1;
  fingerprint = "";
}

abbrev opened : Call
opened = creates "s" 10 (device "alice") (device "bob") (pos 22)

abbrev calls : List Call
calls = opened ∷ attaches "s" "alice" 7 true 11 ∷ attaches "s" "bob" 8 false 12 ∷ []

-- The client waits, the session expires, and the agent comes too late.
abbrev too_late : List Call
too_late = opened ∷ attaches "s" "alice" 7 true 11 ∷ attaches "s" "bob" 8 false 200000000000 ∷ []

abbrev session : TcpRelaySession
session = new_session "s" 10 (device "alice") (device "bob") (pos 22)

abbrev waiting : TcpRelayBroker
waiting = run new_tcp_relay_broker (opened ∷ [])

calls_join :
    ((run new_tcp_relay_broker calls).proxied ≡ (7, 8) ∷ [])
    × ((run new_tcp_relay_broker calls).sessions ≡ [])
    × ((run new_tcp_relay_broker too_late).proxied ≡ [])
    × ((run new_tcp_relay_broker too_late).closed ≡ 8 ∷ [])
    × ((run new_tcp_relay_broker too_late).sessions ≡ [])
unfolding broker
calls_join = (refl, refl, refl, refl, refl)

abbrev owner : ℕ → String
owner n = if eqb n 7 then "alice" else "bob"

run-new-Inv_example : Inv owner (sessions_of [] calls) (run new_tcp_relay_broker calls)
run-new-Inv_example = run-new-Inv owner calls (tt, (refl, (refl, tt)))

-- The waiting client's stream is the one that is lost.
run-total_example : total 7 (run new_tcp_relay_broker too_late) + 1 ≡ 1
unfolding broker
run-total_example = run-total 7 too_late (refl, (tt, (tt, tt)))

attach-accepts_iff_example : ((attach "s" "bob" 8 false 20 waiting).0 ≡ none) ↔ (
    (st : TcpRelaySessionState) × (lookup "s" waiting.sessions ≡ some st)
    × (is_expired 20 st ≡ false)
    × (st.session.target_device_id ≡ "bob")
    × (st.agent ≡ none))
attach-accepts_iff_example = attach-accepts_iff "s" "bob" 8 false 20 waiting

attach-attach_example :
    let client_first = attach "s" "bob" 8 false 30 (attach "s" "alice" 7 true 20 waiting).1 in
    let agent_first = attach "s" "alice" 7 true 30 (attach "s" "bob" 8 false 20 waiting).1 in
    (client_first.0 ≡ none)
    × (client_first.1.proxied ≡ (7, 8) ∷ [])
    × (lookup "s" client_first.1.sessions ≡ none)
    × (agent_first.0 ≡ none)
    × (agent_first.1.proxied ≡ (7, 8) ∷ [])
    × (lookup "s" agent_first.1.sessions ≡ none)
unfolding broker
attach-attach_example = attach-attach "s" session 7 8 20 30 waiting refl (omega arith) (omega arith)

is_woken-run_example :
    (n : ℕ) × (wait_subscribe waiting ≡ parked n) × (is_woken n (run waiting calls) ≡ true)
is_woken-run_example = is_woken-run waiting calls

create-wakes_nobody_example :
    let (w, b1) = wait_begin "bob" true 5 new_tcp_relay_broker in
    let (s, b2) = create "s" 10 (device "alice") (device "bob") (pos 22) b1 in
    (w ≡ subscribing)
    × (n : ℕ) × (wait_subscribe b2 ≡ parked n)
    × (is_woken n b2 ≡ false)
    × IsIn s (pending "bob" 20 b2).0
unfolding broker
create-wakes_nobody_example =
    create-wakes_nobody "bob" "s" 5 10 20 (device "alice") (device "bob") (pos 22)
      new_tcp_relay_broker refl refl (omega arith) (omega arith)
