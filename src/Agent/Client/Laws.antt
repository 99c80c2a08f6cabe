-- ===== src/Agent/Client/Laws.antt =====
-- internal/agent/client.go: what a call that succeeds was answered, and when nothing is sent.
use linkbit.Prelude.{
  ℕ, ◌≡◌, refl, sym, ap, ◌∙◌, inl, inr, String, true, false, ◌||◌, Option, none, some, ◌==◌, ◌≤◌,
  Option-cases, Bool-cases, arith,
}
use linkbit.Models.{Device, DeviceRegistrationResponse, DeviceHealthReport}
use linkbit.Agent.Outcome.{value, failure, value-failure, value-injective}
use linkbit.Agent.Http.{
  HttpRequest, Reply, Wire, ClientError, credentials_required, accept, fetch, is_failure,
}
use linkbit.Agent.Client.{
  HttpRegistrationClient, Decoders, set_device_credentials, lacks_address, registration_request,
  report_health, get_network_config, register, pending_relay_sessions, config_request,
  health_request,
}

-- A reply whose status is from 200 to 299 and whose body decodes to a value.
pub record Accepted {Body A : Type 0} (decode : Body → Option A) (reply : Option (Reply Body))
    (a : A) : Type 0 where
  pub status : ℕ
  pub body : Body
  pub replied : reply ≡ some (record { status = status; body = body })
  pub low : 200 ≤ status
  pub high : status ≤ 299
  pub decoded : decode body ≡ some a

module _ {Body A : Type 0} (decode : Body → Option A) where
  accept-Accepted :
      (reply : Option (Reply Body)) (a : A)
      → accept decode reply ≡ value a
      → Accepted decode reply a
  accept-Accepted none a h = absurd (value-failure (sym h))
  accept-Accepted (some reply) a h = elim (Bool-cases (is_failure reply.status)) [
    | inl f ↦ absurd (value-failure (sym (rw f at h)))
    | inr f ↦ elim (Option-cases (decode reply.body)) [
      | inl n ↦ absurd (value-failure (sym (rw (f, n) at h)))
      | inr (b, y) ↦ record {
        status = reply.status;
        body = reply.body;
        replied = refl;
        low = ground arith;
        high = ground arith;
        decoded = y ∙ ap some (value-injective (rw (f, y) at h));
      }
    ]
  ]

  pub fetch-value :
      {World : Type 0} (wire : Wire World Body) (q : HttpRequest) (w : World) (a : A)
      → (fetch wire decode q w).0 ≡ value a
      → (accept decode (wire.send q w).0 ≡ value a)
        × (fetch wire decode q w ≡ (value a, (wire.send q w).1))
  unfolding fetch
  fetch-value wire q w a h = elim (Bool-cases (wire.new_request q.url)) [
    | inl e ↦ (rw (fetch, e) at h, rw e (ap (λ r. (r, (wire.send q w).1)) (rw (fetch, e) at h)))
    | inr e ↦ absurd (value-failure (sym (rw (fetch, e) at h)))
  ]

module _ {World Body : Type 0} (wire : Wire World Body) (decoders : Decoders Body)
    (c : HttpRegistrationClient) where
  pub register-value :
      (key name : String) (w : World) (r : DeviceRegistrationResponse)
      → (register wire decoders c key name w).0 ≡ value r
      → (accept decoders.registration (wire.send (registration_request c key name) w).0 ≡ value r)
        × (register wire decoders c key name w ≡ (
          value r,
          set_device_credentials r.device.id r.device.device_token c,
          (wire.send (registration_request c key name) w).1,
        ))
  unfolding register
  register-value key name w r h = elim (Bool-cases (c.controller_url == "")) [
    | inl e ↦ absurd (value-failure (sym (rw (register, e) at h)))
    | inr e ↦
        let (x, y) =
          fetch-value decoders.registration wire (registration_request c key name) w r
            (rw (register, e) at h) in
        (x, rw (e, y) refl)
  ]

  -- A registration that succeeds was answered with a status from 200 to 299 and leaves the client with
  -- the answer's device and token.
  pub register-Accepted :
      (key name : String) (w : World) (r : DeviceRegistrationResponse)
      → (register wire decoders c key name w).0 ≡ value r
      → Accepted decoders.registration (wire.send (registration_request c key name) w).0 r
        × ((register wire decoders c key name w).1
            ≡ set_device_credentials r.device.id r.device.device_token c)
  register-Accepted key name w r h =
      let (x, y) = register-value key name w r h in
      (accept-Accepted decoders.registration _ r x, ap (λ z. z.1) y)

  pub health-value :
      (report : DeviceHealthReport) (w : World) (device : Device ℕ)
      → (report_health wire decoders c report w).0 ≡ value device
      → (accept decoders.device (wire.send (health_request c report) w).0 ≡ value device)
        × (report_health wire decoders c report w
            ≡ (value device, (wire.send (health_request c report) w).1))
  unfolding report_health
  health-value report w device h = elim (Bool-cases (lacks_address c)) [
    | inl e ↦ absurd (value-failure (sym (rw (report_health, e) at h)))
    | inr e ↦
        let (x, y) =
          fetch-value decoders.device wire (health_request c report) w device
            (rw (report_health, e) at h) in
        (x, rw e y)
  ]

  -- A registration that fails leaves the client as it was.
  pub register-failed :
      (key name : String) (w : World) (e : ClientError)
      → (register wire decoders c key name w).0 ≡ failure e
      → (register wire decoders c key name w).1 ≡ c
  unfolding register
  register-failed key name w e h = ground arith

  -- Without a URL, a device or a token, nothing is sent for a report or a configuration, and without
  -- a device or a token none for the sessions that wait.
  pub unsent :
      (query_escape : String → String) (report : DeviceHealthReport) (w : World)
      → (c.device_id == "") || (c.device_token == "") ≡ true
      → (report_health wire decoders c report w ≡ (failure credentials_required, w))
        × (get_network_config wire decoders c w ≡ (failure credentials_required, w))
        × (pending_relay_sessions wire decoders query_escape c w
            ≡ (failure credentials_required, w))
  unfolding report_health get_network_config pending_relay_sessions
  unsent query_escape report w h = ground arith

  pub config-value :
      (w : World)
      → lacks_address c ≡ false
      → wire.new_request (config_request c).url ≡ true
      → (get_network_config wire decoders c w).0
        ≡ accept decoders.config (wire.send (config_request c) w).0
  unfolding get_network_config fetch
  config-value w l v = rw (l, v) refl
