-- ===== src/Controller/Requests/Health.antt =====
-- handleDeviceHealth of internal/controller/server.go, with authenticateDeviceCredentials after it.
use linkbit.Prelude.{
  ℕ, ◌≡◌, refl, sym, ap, ◌∙◌, inl, inr, String, false, some, ◌==◌, if◌then◌else◌, arith,
}
use linkbit.Prelude.Text.{trim_space}
use linkbit.Prelude.Select.{find_row}
use linkbit.Models.{Device, DeviceHealthReport, device_status_online}
use linkbit.Auth.{hash_api_key, Hashed, Hashed-cases}
use linkbit.Store.{Codec, Fault, Result, select_device_by_token}
use linkbit.Store.Rows.{CodecLaws, IsRead, format_time, scan_device}
use linkbit.Store.Rows.Laws.{parse-format_time}
use linkbit.Store.Unique.{IsKeyed}
use linkbit.Store.Devices.{
  update_device_health, get_device_by_id_and_token_hash, has_token, reported,
}
use linkbit.Store.Devices.Health.{update_device_health-row}
use linkbit.Controller.Server.{
  Server, World, Env, replied, authenticate_device_credentials, authenticated,
}
use linkbit.Controller.Requests.{device_health}

-- The device after a report.
abbrev pub seen : ℕ → DeviceHealthReport → Device ℕ → Device ℕ
seen now report device = record device {
  status = if report.status == "" then device_status_online else report.status;
  endpoint =
      if trim_space report.endpoint == "" then device.endpoint else trim_space report.endpoint;
  last_seen_at = now;
}

abbrev trimmed : DeviceHealthReport → DeviceHealthReport
trimmed report = record report { endpoint = trim_space report.endpoint }

scan-reported :
    (codec : Codec)
    → CodecLaws codec
    → (now : ℕ) (report : DeviceHealthReport) (row : Device String) → IsRead codec now
    → scan_device codec (reported (format_time codec now) (trimmed report) row)
      ≡ seen now report (scan_device codec row)
unfolding scan_device
scan-reported codec laws now report row read = simp (parse-format_time codec laws now read)

module _ (s : Server) where
  -- An answer with 200 is that of an update that was stored.
  health-updated :
      (env : Env) (now : ℕ) (id token : String) (report : DeviceHealthReport) (w : World)
      (status : ℕ) (device : Device ℕ)
      → (device_health s env now id token (some report) w).0 ≡ replied status device
      → (digest : String) × (hash_api_key s.hmac_hex token s.api_key_pepper ≡ Hashed.ok digest)
        × ((id == "") ≡ false)
        × ((token == "") ≡ false)
        × ((update_device_health s.codec env.fault id digest (trimmed report) now w.db).0
            ≡ Result.ok device)
        × ((device_health s env now id token (some report) w).1.db
            ≡ (update_device_health s.codec env.fault id digest (trimmed report) now w.db).1)
  unfolding device_health
  health-updated env now id token report w status device h =
      elim (Hashed-cases (hash_api_key s.hmac_hex token s.api_key_pepper)) [
        | inl (digest, e) ↦ (digest, e, ground arith, ground arith, ground arith, ground arith)
        | inr (x, e) ↦ absurd (ground arith)
      ]

  pub authenticate-found :
      (fault : Fault) (id token digest : String) (w : World) (row : Device String)
      → hash_api_key s.hmac_hex token s.api_key_pepper ≡ Hashed.ok digest
      → (id == "") ≡ false
      → (token == "") ≡ false
      → fault select_device_by_token ≡ false
      → find_row (has_token id digest) w.db.devices ≡ some row
      → authenticate_device_credentials s fault id token w.db
        ≡ authenticated (scan_device s.codec row)
  unfolding authenticate_device_credentials get_device_by_id_and_token_hash
  authenticate-found fault id token digest w row a b c d e = rw (b, c, a, d, e) refl

  -- A report that is answered with 200 was made with the credentials of a device. The answer is that
  -- device with the report's status (online where it has none), the report's endpoint where it has
  -- one, and the time of the report; and it is what the credentials authenticate from then on. The
  -- ids of the devices are distinct, the text of the time is read back, and the look-ups do not fail.
  pub device_health-authenticate :
      CodecLaws s.codec
      → (env : Env) (fault fault' : Fault) (now : ℕ) (id token : String)
        (report : DeviceHealthReport) (w : World) (status : ℕ) (device : Device ℕ)
      → IsRead s.codec now
      → IsKeyed w.db
      → (device_health s env now id token (some report) w).0 ≡ replied status device
      → fault select_device_by_token ≡ false
      → fault' select_device_by_token ≡ false
      → (old : Device ℕ) × (authenticate_device_credentials s fault id token w.db
          ≡ authenticated old)
        × (device ≡ seen now report old)
        × (authenticate_device_credentials s fault' id token
              (device_health s env now id token (some report) w).1.db
            ≡ authenticated device)
  device_health-authenticate laws env fault fault' now id token report w status device read k h f
        f' =
      let (digest, e, i, t, u, after) = health-updated env now id token report w status device h in
      let (row, found, left, made) =
        update_device_health-row s.codec env.fault id digest (trimmed report) now w.db device k u in
      let new = scan-reported s.codec laws now report row read in
      let stored = reported (format_time s.codec now) (trimmed report) row in
      let w' = (device_health s env now id token (some report) w).1 in
      (
        scan_device s.codec row,
        authenticate-found fault id token digest w row e i t f found,
        made ∙ new,
        authenticate-found fault' id token digest w' stored e i t f'
              (ap (λ db. find_row (has_token id digest) db.devices) after ∙ left)
            ∙ ap authenticated (sym made),
      )
