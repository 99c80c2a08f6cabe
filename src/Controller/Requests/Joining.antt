-- ===== src/Controller/Requests/Joining.antt =====
-- internal/controller/tcp_relay.go: a relay session from the request that opens it to the joining of
-- its two streams, through the handlers.
use mathlib.Core.Path.{subst}
use linkbit.Prelude.{
  ℕ, ◌≤◌, ◌≡◌, refl, sym, ap, ◌∙◌, inl, inr, String, IsIn, Bool, true, false, none, some, List, ◌∷◌,
  arith,
}
use linkbit.Prelude.Text.{trim_space}
use linkbit.Prelude.Assoc.{lookup, Unique}
use linkbit.Models.{Device, TcpRelaySession, TcpRelaySessionRequest}
use linkbit.Store.{Db}
use linkbit.Store.Devices.{list_devices}
use linkbit.Store.Policies.{list_policies}
use linkbit.Controller.Broker.{create, answered, validate, attach, wait_begin}
use linkbit.Controller.Broker.Joining.{
  IsWaiting, create-IsWaiting, wait_begin-IsWaiting, validate-agent, validate-client, attach-agent,
  attach-client,
}
use linkbit.Controller.Peers.{resolve_relay_target}
use linkbit.Controller.Server.{
  Server, World, Env, replied, authenticate_device_credentials, authenticated,
}
use linkbit.Controller.Requests.Sessions.{Authenticated-cases, Resolved-cases}
use linkbit.Controller.Requests.{
  session_create, relay_pending, relay_stream, device_of, Polled, Streamed,
}

-- A request of a device for a session: what the system does in it, the two readings of the clock, the
-- ids of its query and header, and its token.
pub record Visit : Type 0 where
  pub env : Env
  pub checked_at : ℕ
  pub at : ℕ
  pub query : String
  pub header : String
  pub token : String

-- It is by that device, which shows its token, and not late.
pub record IsBy (s : Server) (id : String) (deadline : ℕ) (db : Db) (v : Visit) : Type 0 where
  pub named : device_of v.query v.header ≡ id
  pub device : Device ℕ
  pub shown : authenticate_device_credentials s v.env.fault id v.token db ≡ authenticated device
  pub checked_in_time : v.checked_at ≤ deadline
  pub in_time : v.at ≤ deadline

module _ (s : Server) where
  pending-by :
      (v : Visit) (waits : Bool) (id : String) (deadline : ℕ) (w : World)
      → IsBy s id deadline w.db v
      → relay_pending s v.env waits v.at v.query v.header v.token w ≡ (
        Polled.polled (wait_begin id waits v.at w.broker).0,
        record w { broker = (wait_begin id waits v.at w.broker).1 },
      )
  unfolding relay_pending
  pending-by v waits id deadline w h = ground (arith, h.named, h.shown)

  stream-by :
      (v : Visit) (client : Bool) (id device : String) (conn deadline : ℕ) (w : World)
      → IsBy s device deadline w.db v
      → (validate id device client v.checked_at w.broker).0 ≡ none
      → let b = (validate id device client v.checked_at w.broker).1 in
        relay_stream s v.env client v.checked_at v.at v.query v.header v.token id (some conn) w ≡ (
          Streamed.handed (attach id device conn client v.at b).0,
          record w { broker = (attach id device conn client v.at b).1 },
        )
  unfolding relay_stream
  stream-by v client id device conn deadline w h ok = ground (arith, h.named, h.shown, ok)

  create-made :
      (equal_fold : String → String → Bool) (env : Env) (now : ℕ) (fresh token : String)
      (req : TcpRelaySessionRequest) (w : World) (status : ℕ) (session : TcpRelaySession)
      → (session_create s env equal_fold now fresh token (some req) w).0 ≡ replied status session
      → (source : Device ℕ) × (target : Device ℕ) × (session
          ≡ (create fresh now source target req.target_port w.broker).0)
        × ((session_create s env equal_fold now fresh token (some req) w).1
            ≡ record w { broker = (create fresh now source target req.target_port w.broker).1 })
  unfolding session_create
  create-made equal_fold env now fresh token req w status session h =
      let answer =
        authenticate_device_credentials s env.fault (trim_space req.source_device_id) token w.db in
      elim (Authenticated-cases answer) [
        | inl (code, m, a) ↦ absurd (ground (arith, a))
        | inr (source, a) ↦
            elim (Resolved-cases (
              resolve_relay_target equal_fold source (trim_space req.target)
                (list_devices s.codec env.fault w.db) (list_policies s.codec env.fault w.db))) [
                  | inl (m, r) ↦ absurd (ground (arith, a, r))
                  | inr (inl (target, r)) ↦ absurd (ground (arith, a, r))
                  | inr (inr (target, r)) ↦
                      (source, target, ground (arith, a, r), ground (arith, a, r))
                ]
      ]

  opened-IsWaiting :
      (equal_fold : String → String → Bool) (env : Env) (now : ℕ) (fresh token : String)
      (req : TcpRelaySessionRequest) (w : World) (status : ℕ) (session : TcpRelaySession)
      → Unique w.broker.sessions
      → (session_create s env equal_fold now fresh token (some req) w).0 ≡ replied status session
      → let w' = (session_create s env equal_fold now fresh token (some req) w).1 in
        IsWaiting session none w'.broker × (w'.broker.proxied ≡ w.broker.proxied) × (w'.db ≡ w.db)
  opened-IsWaiting equal_fold env now fresh token req w status session u h =
      let (source, target, made, left) =
        create-made equal_fold env now fresh token req w status session h in
      let (waiting, proxied) =
        create-IsWaiting fresh now source target req.target_port w.broker u in
      (
        subst (λ (v : World). IsWaiting session none v.broker) (sym left)
            (subst
              (λ x. IsWaiting x none (create fresh now source target req.target_port w.broker).1)
              (sym made) waiting),
        ap (λ (v : World). v.broker.proxied) left ∙ proxied,
        ap (λ (v : World). v.db) left,
      )

  polled-IsWaiting :
      (v : Visit) (waits : Bool) (session : TcpRelaySession) (w : World)
      → IsBy s session.target_device_id session.expires_at w.db v
      → IsWaiting session none w.broker
      → let (answer, w') = relay_pending s v.env waits v.at v.query v.header v.token w in
        ((found : List TcpRelaySession) × (answer ≡ Polled.polled (answered found))
          × IsIn session found)
        × IsWaiting session none w'.broker
        × (w'.broker.proxied ≡ w.broker.proxied)
        × (w'.db ≡ w.db)
  polled-IsWaiting v waits session w by h =
      let (found, e, i, left, p) = wait_begin-IsWaiting session waits v.at w.broker h by.in_time in
      rw (pending-by v waits session.target_device_id session.expires_at w by)
        ((found, ap (λ a. Polled.polled a) e, i), left, p, refl)

  agent-IsWaiting :
      (v : Visit) (session : TcpRelaySession) (a : ℕ) (w : World)
      → IsBy s session.target_device_id session.expires_at w.db v
      → IsWaiting session none w.broker
      → let (answer, w') =
          relay_stream s v.env false v.checked_at v.at v.query v.header v.token session.id
            (some a)
            w in
        (answer ≡ Streamed.handed none)
        × IsWaiting session (some a) w'.broker
        × (w'.broker.proxied ≡ w.broker.proxied)
        × (w'.db ≡ w.db)
  agent-IsWaiting v session a w by h =
      let (ok, left, p) = validate-agent session v.checked_at w.broker h by.checked_in_time in
      let b = (validate session.id session.target_device_id false v.checked_at w.broker).1 in
      let (e, left', p') = attach-agent session a v.at b left by.in_time in
      rw (stream-by v false session.id session.target_device_id a session.expires_at w by ok)
        (ap (λ x. Streamed.handed x) e, left', p' ∙ p, refl)

  client-joined :
      (v : Visit) (session : TcpRelaySession) (c a : ℕ) (w : World)
      → IsBy s session.source_device_id session.expires_at w.db v
      → IsWaiting session (some a) w.broker
      → let (answer, w') =
          relay_stream s v.env true v.checked_at v.at v.query v.header v.token session.id
            (some c)
            w in
        (answer ≡ Streamed.handed none)
        × (w'.broker.proxied ≡ (c, a) ∷ w.broker.proxied)
        × (lookup session.id w'.broker.sessions ≡ none)
  client-joined v session c a w by h =
      let (ok, left, p) =
        validate-client session (some a) v.checked_at w.broker h by.checked_in_time in
      let b = (validate session.id session.source_device_id true v.checked_at w.broker).1 in
      let (e, p', gone) = attach-client session c a v.at b left by.in_time in
      rw (stream-by v true session.id session.source_device_id c session.expires_at w by ok)
        (ap (λ x. Streamed.handed x) e, p' ∙ ap (λ ps. (c, a) ∷ ps) p, gone)

  -- A relayed connection is set up through the handlers: once a session was opened, with 201, the
  -- target's poll finds it, its agent's stream and then the source's client's stream are accepted, and
  -- the two are joined and the session leaves the table. Each of the three requests shows the device's
  -- token and comes before the session expires; no session stood twice in the table.
  pub session_create-joined :
      (equal_fold : String → String → Bool) (env : Env) (now : ℕ) (fresh token : String)
      (req : TcpRelaySessionRequest) (w : World) (status : ℕ) (session : TcpRelaySession)
      (waits : Bool) (c a : ℕ) (poll agent client : Visit)
      → Unique w.broker.sessions
      → (session_create s env equal_fold now fresh token (some req) w).0 ≡ replied status session
      → IsBy s session.target_device_id session.expires_at w.db poll
      → IsBy s session.target_device_id session.expires_at w.db agent
      → IsBy s session.source_device_id session.expires_at w.db client
      → let w1 = (session_create s env equal_fold now fresh token (some req) w).1 in
        let (answer, w2) =
          relay_pending s poll.env waits poll.at poll.query poll.header poll.token w1 in
        let (agent_end, w3) =
          relay_stream s agent.env false agent.checked_at agent.at agent.query agent.header
            agent.token session.id
            (some a)
            w2 in
        let (client_end, w4) =
          relay_stream s client.env true client.checked_at client.at client.query client.header
            client.token session.id
            (some c)
            w3 in
        ((found : List TcpRelaySession) × (answer ≡ Polled.polled (answered found))
          × IsIn session found)
        × (agent_end ≡ Streamed.handed none)
        × (client_end ≡ Streamed.handed none)
        × (w4.broker.proxied ≡ (c, a) ∷ w.broker.proxied)
        × (lookup session.id w4.broker.sessions ≡ none)
  session_create-joined equal_fold env now fresh token req w status session waits c a poll agent
        client u h by_poll by_agent by_client =
      let w1 = (session_create s env equal_fold now fresh token (some req) w).1 in
      let w2 = (relay_pending s poll.env waits poll.at poll.query poll.header poll.token w1).1 in
      let w3 =
        (relay_stream s agent.env false agent.checked_at agent.at agent.query agent.header
          agent.token session.id (some a) w2).1 in
      let target = IsBy s session.target_device_id session.expires_at in
      let source = IsBy s session.source_device_id session.expires_at in
      let (i1, p1, d1) = opened-IsWaiting equal_fold env now fresh token req w status session u h in
      let (found, i2, p2, d2) =
        polled-IsWaiting poll waits session w1 (subst (λ db. target db poll) (sym d1) by_poll) i1 in
      let (e3, i3, p3, d3) =
        agent-IsWaiting agent session a w2 (subst (λ db. target db agent) (sym (d2 ∙ d1)) by_agent)
          i2 in
      let (e4, p4, gone) =
        client-joined client session c a w3
          (subst (λ db. source db client) (sym (d3 ∙ (d2 ∙ d1))) by_client) i3 in
      (found, e3, e4, p4 ∙ ap (λ ps. (c, a) ∷ ps) (p3 ∙ (p2 ∙ p1)), gone)
