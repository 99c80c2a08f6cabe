-- ===== src/Store/Devices.antt =====
-- internal/store/sqlite/store.go: devices. `now` is `time.Now().UTC()`.
pub mod Health
use linkbit.Prelude.{ℕ, String, Bool, none, some, List, map, any, ◌||◌, ◌&&◌, ◌==◌, if◌then◌else◌}
use linkbit.Prelude.Sort.{sort_by}
use linkbit.Prelude.Select.{find_row, update_rows, delete_rows}
use linkbit.Models.{Device, DeviceHealthReport, device_status_online}
use linkbit.Store.{
  Codec, Db, Fault, insert_device, delete_device_row, select_device_by_token, update_device_row,
  select_device, select_devices, Result, ok, err, no_rows, constraint_failed, statement_failed,
  insert_row, older,
}
use linkbit.Store.Rows.{format_time, device_row, scan_device}

abbrev pub has_token : String → String → Device String → Bool
has_token id token_hash r = (r.id == id) && (r.token_hash == token_hash)

abbrev pub clashes : Device ℕ → Device String → Bool
clashes device r = (r.id == device.id) || (r.virtual_ip == device.virtual_ip)

-- The row that a health report leaves.
abbrev pub reported : String → DeviceHealthReport → Device String → Device String
reported now report r = record r {
  status = if report.status == "" then device_status_online else report.status;
  endpoint = if report.endpoint == "" then r.endpoint else report.endpoint;
  last_seen_at = now;
}

module _ (codec : Codec) (fault : Fault) where
  unfoldable pub create_device : Device ℕ → Db → Result (Unit {0}) × Db
  create_device device db =
      if fault insert_device
      then (err statement_failed, db)
      else elim (insert_row (clashes device) (device_row codec device) db.devices) [
        | none ↦ (err constraint_failed, db)
        | some devices ↦ (ok tt, record db { devices = devices })
      ]

  unfoldable pub delete_device : String → Db → Result (Unit {0}) × Db
  delete_device id db =
      if fault delete_device_row
      then (err statement_failed, db)
      else if any (λ (r : Device String). r.id == id) db.devices
      then (
        ok tt,
        record db { devices = delete_rows (λ (r : Device String). r.id == id) db.devices },
      )
      else (err no_rows, db)

  unfoldable pub get_device_by_id_and_token_hash : String → String → Db → Result (Device ℕ)
  get_device_by_id_and_token_hash id token_hash db =
      if fault select_device_by_token
      then err statement_failed
      else elim (find_row (has_token id token_hash) db.devices) [
        | none ↦ err no_rows
        | some row ↦ ok (scan_device codec row)
      ]

  unfoldable pub get_device : String → Db → Result (Device ℕ)
  get_device id db =
      if fault select_device
      then err statement_failed
      else elim (find_row (λ (r : Device String). r.id == id) db.devices) [
        | none ↦ err no_rows
        | some row ↦ ok (scan_device codec row)
      ]

  unfoldable pub update_device_health :
      String → String → DeviceHealthReport → ℕ → Db → Result (Device ℕ) × Db
  unfolding get_device
  update_device_health id token_hash report now db =
      if fault update_device_row
      then (err statement_failed, db)
      else if any (has_token id token_hash) db.devices
      then (let db' : Db = record db {
        devices =
            update_rows (has_token id token_hash) (reported (format_time codec now) report)
              db.devices;
      } in
          (get_device id db', db'))
      else (err no_rows, db)

  unfoldable pub list_devices : Db → Result (List (Device ℕ))
  list_devices db =
      if fault select_devices
      then err statement_failed
      else ok (
          map (scan_device codec)
            (sort_by (older (λ (r : Device String). r.created_at)) db.devices))
