-- ===== src/Relay/Forgotten.antt =====
-- internal/relay/relay.go against internal/controller/server.go: a relay that was deleted.
use linkbit.Prelude.{
  ℕ, ◌≡◌, refl, ap, ◌∙◌, inl, inr, String, Bool, true, false, some, is_some, List, [], ◌∷◌, ◌==◌,
  any, All, Bool-cases, arith,
}
use linkbit.Models.{RelayNode}
use linkbit.Store.{Db, Fault, heartbeat_relay_row}
use linkbit.Store.Keys.{touch_api_key}
use linkbit.Store.Relays.{heartbeat_relay}
use linkbit.Controller.Server.{Server, World}
use linkbit.Controller.Guard.{verify_api_key_scope, require_api_key_scopes}
use linkbit.Controller.Admin.{relay_heartbeat}
use linkbit.Controller.Routes.{heartbeat as heartbeat_route}
use linkbit.Agent.Outcome.{failure}
use linkbit.Agent.Http.{HttpRequest, Wire, ClientError, bad_status, bad_request, fetch, is_failure}
use linkbit.Relay.Answers.{relay_route, answered, Moment, relay_answer, relay_wire}
use linkbit.Agent.Wire.{header}
use linkbit.Agent.Wire.Paths.{strip_prefix-append}
use linkbit.Relay.{
  Node, Event, tick, unread, post_request, heartbeat_of, post, heartbeat, loop, error_of,
}

module _ (s : Server) (valid : String → Bool) (base : String) where
  abbrev pub has_relay : String → World → Bool
  has_relay id w = any (λ (r : RelayNode String). r.id == id) w.db.relays

  verify-relays :
      (fault : Fault) (now : ℕ) (key : String) (scopes : List String) (db : Db)
      → (verify_api_key_scope s fault now key scopes db).1.relays ≡ db.relays
  unfolding verify_api_key_scope touch_api_key
  verify-relays fault now key scopes db = ground arith

  -- The controller refuses the heartbeat of a relay that it does not have, and stores nothing.
  heartbeat-refused :
      (m : Moment) (relay : RelayNode ℕ) (w : World)
      → has_relay relay.id w ≡ false
      → (status : ℕ) × (relay_answer s valid base m (heartbeat_route (some relay)) w
          ≡ (answered status, w))
        × (is_failure status ≡ true)
  unfolding relay_answer relay_heartbeat heartbeat_relay
  heartbeat-refused m relay w h = elim (Bool-cases (relay.id == "")) [
    | inl e ↦ (400, ground arith, refl)
    | inr e ↦ elim (Bool-cases (m.env.fault heartbeat_relay_row)) [
      | inl f ↦ (500, ground arith, refl)
      | inr f ↦ (404, ground arith, refl)
    ]
  ]

  send-heartbeat :
      (m : Moment) (q : HttpRequest) (relay : RelayNode ℕ) (w : World)
      → relay_route base q ≡ some (heartbeat_route (some relay))
      → (relay_wire s valid base m).send q w
        ≡ require_api_key_scopes s m.env.fault m.now
            (answered 401)
            (relay_answer s valid base m (heartbeat_route (some relay)))
            ("admin" ∷ "relay" ∷ [])
            (header "X-Linkbit-API-Key" q.headers)
            w
  unfolding relay_wire
  send-heartbeat m q relay w r = rw (relay_wire, r) refl

  -- The check refuses it too, or lets it pass to a refusal.
  required-refused :
      (m : Moment) (relay : RelayNode ℕ) (key : String) (w : World)
      → has_relay relay.id w ≡ false
      → (status : ℕ) × (after : World) × (require_api_key_scopes s m.env.fault m.now
            (answered 401)
            (relay_answer s valid base m (heartbeat_route (some relay)))
            ("admin" ∷ "relay" ∷ [])
            key
            w
          ≡ (answered status, after))
        × (is_failure status ≡ true)
        × (has_relay relay.id after ≡ false)
  unfolding require_api_key_scopes
  required-refused m relay key w h =
      let checked = verify_api_key_scope s m.env.fault m.now key ("admin" ∷ "relay" ∷ []) w.db in
      let after : World = record w { db = checked.1 } in
      let same : checked.1.relays ≡ w.db.relays =
        verify-relays m.env.fault m.now key ("admin" ∷ "relay" ∷ []) w.db in
      let still : has_relay relay.id after ≡ false =
        ap (any (λ (x : RelayNode String). x.id == relay.id)) same ∙ h in
      elim (Bool-cases checked.0) [
        | inr e ↦ (401, after, rw (require_api_key_scopes, e) refl, refl, still)
        | inl e ↦
            let (status, a, b) = heartbeat-refused m relay after still in
            (status, after, rw (require_api_key_scopes, e) a, b, still)
      ]

  send-refused :
      (m : Moment) (q : HttpRequest) (relay : RelayNode ℕ) (w : World)
      → relay_route base q ≡ some (heartbeat_route (some relay))
      → has_relay relay.id w ≡ false
      → (status : ℕ) × (((relay_wire s valid base m).send q w).0 ≡ answered status)
        × (is_failure status ≡ true)
        × (has_relay relay.id ((relay_wire s valid base m).send q w).1 ≡ false)
  send-refused m q relay w r h =
      let (status, after, a, b, c) =
        required-refused m relay (header "X-Linkbit-API-Key" q.headers) w h in
      let sent = send-heartbeat m q relay w r ∙ a in
      (status, ap (λ z. z.0) sent, b, ap (λ z. has_relay relay.id z.1) sent ∙ c)

  fetch-refused :
      (wire : Wire World (Unit {0})) (q : HttpRequest) (w : World) (status : ℕ)
      → (wire.send q w).0 ≡ answered status
      → is_failure status ≡ true
      → (e : ClientError) × ((fetch wire unread q w).0 ≡ failure e)
  unfolding fetch
  fetch-refused wire q w status a b = elim (Bool-cases (wire.new_request q.url)) [
    | inl e ↦ (bad_status status, rw (fetch, e, a, b) refl)
    | inr e ↦ (bad_request, rw (fetch, e) refl)
  ]

  fetch-world :
      (wire : Wire World (Unit {0})) (q : HttpRequest) (w : World) (id : String)
      → has_relay id w ≡ false
      → has_relay id (wire.send q w).1 ≡ false
      → has_relay id (fetch wire unread q w).1 ≡ false
  unfolding fetch
  fetch-world wire q w id a b = elim (Bool-cases (wire.new_request q.url)) [
    | inl e ↦ rw (fetch, e) b
    | inr e ↦ rw (fetch, e) a
  ]

route-heartbeat :
    (n : Node)
    → relay_route n.cfg.controller_url (post_request n "/api/v1/relays/heartbeat" (heartbeat_of n))
      ≡ some (heartbeat_route (some (heartbeat_of n)))
unfolding relay_route
route-heartbeat n =
    rw (relay_route, strip_prefix-append n.cfg.controller_url "/api/v1/relays/heartbeat") refl

-- The ticks of a relay, each at a moment of the controller.
abbrev pub ticks : Server → (String → Bool) → Node → List Moment → List (Event World (Unit {0}))
ticks s valid n [] = []
ticks s valid n (m ∷ ms) = tick (relay_wire s valid n.cfg.controller_url m) ∷ ticks s valid n ms

module _ (s : Server) (valid : String → Bool) (n : Node) where
  forgotten-once :
      (m : Moment) (w : World)
      → has_relay s valid n.cfg.controller_url n.cfg.relay_id w ≡ false
      → ((e : ClientError) × ((heartbeat (relay_wire s valid n.cfg.controller_url m) n w).0
            ≡ some e))
        × (has_relay s valid n.cfg.controller_url n.cfg.relay_id
              (heartbeat (relay_wire s valid n.cfg.controller_url m) n w).1
            ≡ false)
  unfolding heartbeat post
  forgotten-once m w h =
      let base = n.cfg.controller_url in
      let q = post_request n "/api/v1/relays/heartbeat" (heartbeat_of n) in
      let (status, a, b, c) =
        send-refused s valid base m q (heartbeat_of n) w (route-heartbeat n) h in
      let (e, x) = fetch-refused s valid base (relay_wire s valid base m) q w status a b in
      (
        (e, ap error_of x),
        fetch-world s valid base (relay_wire s valid base m) q w n.cfg.relay_id h c,
      )

  -- A relay that the controller has deleted, or never had, is refused every heartbeat from then on and
  -- does not come back by them, however long it runs: it registers only when it starts.
  pub loop-forgotten :
      (ms : List Moment) (w : World)
      → has_relay s valid n.cfg.controller_url n.cfg.relay_id w ≡ false
      → let (end, beats, w') = loop n (ticks s valid n ms) w in
        All (λ e. is_some e ≡ true) beats
        × (has_relay s valid n.cfg.controller_url n.cfg.relay_id w' ≡ false)
  unfolding loop
  loop-forgotten [] w h = (tt, h)
  loop-forgotten (m ∷ ms) w h =
      let ((e, x), k) = forgotten-once m w h in
      let (later, end) =
        loop-forgotten ms (heartbeat (relay_wire s valid n.cfg.controller_url m) n w).1 k in
      ((ap is_some x, later), end)
