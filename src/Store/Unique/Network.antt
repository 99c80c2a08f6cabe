-- ===== src/Store/Unique/Network.antt =====
-- Relays, devices and policies keep their keys.
use linkbit.Prelude.{ℕ, refl, String, arith, ◌==◌}
use linkbit.Prelude.Distinct.{concat-Distinct, delete_rows-Distinct, update_rows-Distinct}
use linkbit.Models.{PolicyRow, RelayNode, Device, DeviceHealthReport, relay_status_healthy}
use linkbit.Store.{Codec, Db, Fault}
use linkbit.Store.Rows.{format_time, relay_row, device_row, policy_row}
use linkbit.Store.Relays.{upsert_relay, delete_relay, heartbeat_relay, refreshed}
use linkbit.Store.Devices.{create_device, delete_device, update_device_health, has_token, reported}
use linkbit.Store.Policies.{Policy, create_policy, delete_policy}
use linkbit.Store.Unique.{relay_id, device_id, device_ip, policy_id, IsKeyed, any_of_or}

module _ (codec : Codec) (fault : Fault) where
  pub upsert_relay-IsKeyed :
      (relay : RelayNode ℕ) (db : Db) → IsKeyed db → IsKeyed (upsert_relay codec fault relay db).1
  unfolding upsert_relay relay_row
  upsert_relay-IsKeyed relay db k = ground (
    arith,
    update_rows-Distinct relay_id (λ (r : RelayNode String). r.id == relay.id)
        (refreshed (relay_row codec relay)) (λ r. refl) db.relays k.relays,
    concat-Distinct relay_id db.relays (relay_row codec relay),
  )

  pub delete_relay-IsKeyed :
      (id : String) (db : Db) → IsKeyed db → IsKeyed (delete_relay codec fault id db).1
  unfolding delete_relay
  delete_relay-IsKeyed id db k = ground (
    arith,
    delete_rows-Distinct relay_id (λ (r : RelayNode String). r.id == id) db.relays k.relays,
  )

  pub heartbeat_relay-IsKeyed :
      (id : String) (load now : ℕ) (db : Db)
      → IsKeyed db
      → IsKeyed (heartbeat_relay codec fault id load now db).1
  unfolding heartbeat_relay
  heartbeat_relay-IsKeyed id load now db k = ground (
    arith,
    update_rows-Distinct relay_id (λ (r : RelayNode String). r.id == id)
        (λ r. record r {
          status = relay_status_healthy;
          load = load;
          last_seen_at = format_time codec now;
        })
        (λ r. refl) db.relays k.relays,
  )

  pub create_device-IsKeyed :
      (d : Device ℕ) (db : Db) → IsKeyed db → IsKeyed (create_device codec fault d db).1
  unfolding create_device device_row
  create_device-IsKeyed d db k = ground (
    arith,
    any_of_or (λ (r : Device String). r.id == d.id) (λ r. r.virtual_ip == d.virtual_ip) db.devices,
    concat-Distinct device_id db.devices (device_row codec d),
    concat-Distinct device_ip db.devices (device_row codec d),
  )

  pub delete_device-IsKeyed :
      (id : String) (db : Db) → IsKeyed db → IsKeyed (delete_device codec fault id db).1
  unfolding delete_device
  delete_device-IsKeyed id db k = ground (
    arith,
    delete_rows-Distinct device_id (λ (r : Device String). r.id == id) db.devices k.devices,
    delete_rows-Distinct device_ip (λ (r : Device String). r.id == id) db.devices k.device_ips,
  )

  pub update_device_health-IsKeyed :
      (id token : String) (report : DeviceHealthReport) (now : ℕ) (db : Db)
      → IsKeyed db
      → IsKeyed (update_device_health codec fault id token report now db).1
  unfolding update_device_health
  update_device_health-IsKeyed id token report now db k = ground (
    arith,
    update_rows-Distinct device_id (has_token id token) (reported (format_time codec now) report)
        (λ r. refl) db.devices k.devices,
    update_rows-Distinct device_ip (has_token id token) (reported (format_time codec now) report)
        (λ r. refl) db.devices k.device_ips,
  )

  pub create_policy-IsKeyed :
      (p : Policy) (db : Db) → IsKeyed db → IsKeyed (create_policy codec fault p db).1
  unfolding create_policy policy_row
  create_policy-IsKeyed p db k =
      ground (arith, concat-Distinct policy_id db.policies (policy_row codec p))

  pub delete_policy-IsKeyed :
      (id : String) (db : Db) → IsKeyed db → IsKeyed (delete_policy codec fault id db).1
  unfolding delete_policy
  delete_policy-IsKeyed id db k =
      ground (
        arith,
        delete_rows-Distinct policy_id (λ (r : PolicyRow). r.id == id) db.policies k.policies,
      )
