-- ===== src/Agent/Wire/Health.antt =====
-- internal/agent/health.go against internal/controller/server.go: what a report of an agent does to
-- its device.
use Prim.Native.String.{◌++◌ as append}
use linkbit.Prelude.{
  ℕ, ◌≡◌, ◌≢◌, refl, sym, ap, ◌∙◌, inl, inr, String, Bool, true, false, none, some, ◌==◌,
  if◌then◌else◌, Bool-cases, arith, eq_iff, Option,
}
use linkbit.Prelude.Text.{trim_space}
use linkbit.Models.{Device, DeviceHealthReport, DeviceRegistrationResponse, device_status_online}
use linkbit.Net.{contains_char}
use linkbit.Store.{Fault, select_device_by_token}
use linkbit.Store.Rows.{CodecLaws, IsRead}
use linkbit.Store.Unique.{IsKeyed}
use linkbit.Controller.Server.{
  Server, World, Response, replied, failed, no_content, authenticate_device_credentials,
  authenticated,
}
use linkbit.Controller.Requests.{device_health}
use linkbit.Controller.Requests.Health.{device_health-authenticate}
use linkbit.Controller.Routes.{report_health as health_route}
use linkbit.Agent.Outcome.{value, value-failure, value-injective, Outcome-cases}
use linkbit.Agent.Http.{health_payload, accept, is_failure}
use linkbit.Agent.Client.{HttpRegistrationClient, report_health, health_request}
use linkbit.Agent.Client.Laws.{health-value}
use linkbit.Agent.State.Laws.{some-none}
use linkbit.Agent.Health.{ControllerHealthReporter, check_and_report, report_of}
use linkbit.Agent.Wire.{
  decode_device, device_body, no_hash, decoders, reply_of, Moment, controller_wire, device_call,
  route_of, answer,
}
use linkbit.Agent.Wire.Paths.{strip_prefix-append, first_segment-append}
use linkbit.Agent.Wire.Sends.{route-path, reply_of-world}

call-health :
    (path_value : String → Option String) (id : String) (report : DeviceHealthReport)
    → path_value id ≡ some id
    → device_call path_value "POST" (id, "/health") (health_payload report)
      ≡ some (health_route id (some report))
unfolding device_call
call-health path_value id report v = ground (arith, v)

route-health :
    (path_value : String → Option String) (c : HttpRegistrationClient) (report : DeviceHealthReport)
    → contains_char b'/' c.device_id ≡ false
    → path_value c.device_id ≡ some c.device_id
    → route_of path_value c.controller_url (health_request c report)
      ≡ some (health_route c.device_id (some report))
route-health path_value c report h v =
    let id = c.device_id in
    route-path path_value c.controller_url (append "/api/v1/devices/" (append id "/health"))
      (append id "/health") id "/health" (health_request c report)
      (strip_prefix-append c.controller_url (append "/api/v1/devices/" (append id "/health")))
      (strip_prefix-append "/api/v1/devices/" (append id "/health"))
      (first_segment-append id "health" h)
    ∙ call-health path_value id report v

accept-device :
    (answer : Response (Device ℕ)) (w : World) (device : Device ℕ)
    → accept decode_device (reply_of device_body (answer, w)).0 ≡ value device
    → (status : ℕ) × (sent : Device ℕ) × (answer ≡ replied status sent) × (device ≡ no_hash sent)
accept-device (replied status sent) w device h = elim (Bool-cases (is_failure status)) [
  | inl f ↦ absurd (value-failure (sym (rw f at h)))
  | inr f ↦ (status, sent, refl, sym (value-injective (rw f at h)))
]
accept-device (failed status message) w device h = ground arith
accept-device no_content w device h = ground arith

module _ (path_value : String → Option String) (valid : String → Bool) (s : Server) where
  send-health :
      (m : Moment) (c : HttpRegistrationClient) (report : DeviceHealthReport) (w : World)
      → contains_char b'/' c.device_id ≡ false
      → path_value c.device_id ≡ some c.device_id
      → (controller_wire s m path_value valid c.controller_url).send (health_request c report) w
        ≡ reply_of device_body
            (device_health s m.env m.checked_at c.device_id c.device_token (some report) w)
  unfolding controller_wire answer
  send-health m c report w h v = rw (controller_wire, route-health path_value c report h v) refl

  check-value :
      (m : Moment) (r : ControllerHealthReporter) (c : HttpRegistrationClient)
      (registration : DeviceRegistrationResponse) (w : World)
      → let wire = controller_wire s m path_value valid c.controller_url in
        (check_and_report wire decoders r c registration w).0 ≡ none
        → r.client ≡ true
        → registration.device.id ≢ ""
        → (device : Device ℕ) × ((report_health wire decoders c (report_of r) w).0 ≡ value device)
          × ((check_and_report wire decoders r c registration w).1
              ≡ (report_health wire decoders c (report_of r) w).1)
  unfolding check_and_report
  check-value m r c registration w h client named =
      let wire = controller_wire s m path_value valid c.controller_url in
      let n : (registration.device.id == "") ≡ false =
        ground (arith, eq_iff registration.device.id "") in
      elim (Outcome-cases (report_health wire decoders c (report_of r) w).0) [
        | inl (device, e) ↦ (device, e, rw (check_and_report, client, n, e) refl)
        | inr (x, e) ↦ absurd (some-none (rw (check_and_report, client, n, e) at h))
      ]

  -- Where the agent's reporter has a client, the registration it is given has the id of a device, and
  -- it ends without an error, the controller has stored that the device which the client's credentials
  -- authenticate is online, at the reporter's endpoint where it has one, and was seen at that time; and
  -- the credentials still authenticate it. The ids of the devices are distinct, the id in the
  -- credentials has no slash and is read from a path as it is, the text of the time is read back, and
  -- the look-ups do not fail.
  pub report-authenticate :
      CodecLaws s.codec
      → (m : Moment) (fault fault' : Fault) (r : ControllerHealthReporter)
        (c : HttpRegistrationClient) (registration : DeviceRegistrationResponse) (w : World)
      → let (error, w') =
          check_and_report
            (controller_wire s m path_value valid c.controller_url)
            decoders
            r
            c
            registration
            w in
        error ≡ none
        → r.client ≡ true
        → registration.device.id ≢ ""
        → contains_char b'/' c.device_id ≡ false
        → path_value c.device_id ≡ some c.device_id
        → IsRead s.codec m.checked_at
        → IsKeyed w.db
        → fault select_device_by_token ≡ false
        → fault' select_device_by_token ≡ false
        → (old : Device ℕ) × (authenticate_device_credentials s fault c.device_id c.device_token
              w.db
            ≡ authenticated old)
          × (authenticate_device_credentials s fault' c.device_id c.device_token w'.db
              ≡ authenticated (record old {
                status = device_status_online;
                endpoint =
                    if trim_space r.endpoint == "" then old.endpoint else trim_space r.endpoint;
                last_seen_at = m.checked_at;
              }))
  report-authenticate laws m fault fault' r c registration w h client named slash plain read k f
        f' =
      let wire = controller_wire s m path_value valid c.controller_url in
      let report = report_of r in
      let health = device_health s m.env m.checked_at c.device_id c.device_token (some report) w in
      let (device, e, same) = check-value m r c registration w h client named in
      let (x, y) = health-value wire decoders c report w device e in
      let sent = send-health m c report w slash plain in
      let (status, d, answered, z) =
        accept-device health.0 health.1 device
          (sym (ap (λ a. accept decode_device a.0) sent) ∙ x) in
      let (old, before, seen_now, after) =
        device_health-authenticate s laws m.env fault fault' m.checked_at c.device_id c.device_token
          report w status d read k answered f f' in
      let world : (check_and_report wire decoders r c registration w).1 ≡ health.1 =
        same ∙ ap (λ a. a.1) y ∙ ap (λ a. a.1) sent ∙ reply_of-world device_body health in
      (
        old,
        before,
        ap (λ (v : World). authenticate_device_credentials s fault' c.device_id c.device_token v.db)
              world
            ∙ after
            ∙ ap authenticated seen_now,
      )
