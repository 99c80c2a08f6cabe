-- ===== src/Store/Devices/Health.antt =====
-- UpdateDeviceHealth of internal/store/sqlite/store.go: the row that a report leaves.
use linkbit.Prelude.{
  ℕ, ◌≡◌, refl, inl, inr, String, Bool, true, some, List, [], ◌∷◌, ◌==◌, any, Bool-cases, arith,
  eq_iff,
}
use linkbit.Prelude.Select.{find_row, update_rows}
use linkbit.Prelude.Distinct.{Distinct, has, update_rows-Distinct}
use linkbit.Models.{Device, DeviceHealthReport}
use linkbit.Store.{Codec, Db, Fault, ok}
use linkbit.Store.Rows.{format_time, scan_device}
use linkbit.Store.Unique.{device_id, IsKeyed}
use linkbit.Store.Devices.{update_device_health, get_device, has_token, reported}

module _ {A : Type 0} (test : A → Bool) where
  find_row-update_rows :
      (f : A → A)
      → ((x : A) → test (f x) ≡ test x)
      → (xs : List A) (x : A) → find_row test xs ≡ some x
      → find_row test (update_rows test f xs) ≡ some (f x)
  unfolding find_row update_rows
  find_row-update_rows f same [] x h = ground arith
  find_row-update_rows f same (y ∷ xs) x h =
      ground (arith, same y, find_row-update_rows f same xs x)

  any-find_row : (xs : List A) → any test xs ≡ true → (x : A) × (find_row test xs ≡ some x)
  unfolding find_row
  any-find_row [] h = ground arith
  any-find_row (y ∷ xs) h = elim (Bool-cases (test y)) [
    | inl e ↦ (y, rw e refl)
    | inr e ↦ rw (find_row, e) (any-find_row xs (rw e at h))
  ]

find_row-has :
    (id token_hash : String) (rows : List (Device String)) (row : Device String)
    → find_row (has_token id token_hash) rows ≡ some row
    → has device_id id rows ≡ true
unfolding find_row
find_row-has id token_hash [] row h = ground arith
find_row-has id token_hash (r ∷ rows) row h = ground (arith, find_row-has id token_hash rows row)

-- In a table with distinct ids, the row of an id and a digest is that of the id.
find_row-id :
    (id token_hash : String) (rows : List (Device String)) (row : Device String)
    → Distinct device_id rows
    → find_row (has_token id token_hash) rows ≡ some row
    → find_row (λ (r : Device String). r.id == id) rows ≡ some row
unfolding find_row
find_row-id id token_hash [] row d h = ground arith
find_row-id id token_hash (r ∷ rows) row (new, d) h = ground (
  arith,
  find_row-has id token_hash rows row,
  find_row-id id token_hash rows row d,
  eq_iff r.id id,
)

module _ (codec : Codec) (fault : Fault) where
  -- What a report that is stored did: to the one row of the device.
  pub update_device_health-row :
      (id token_hash : String) (report : DeviceHealthReport) (now : ℕ) (db : Db) (device : Device ℕ)
      → IsKeyed db
      → (update_device_health codec fault id token_hash report now db).0 ≡ ok device
      → let after = (update_device_health codec fault id token_hash report now db).1 in
        let stored = reported (format_time codec now) report in
        (row : Device String) × (find_row (has_token id token_hash) db.devices ≡ some row)
        × (find_row (has_token id token_hash) after.devices ≡ some (stored row))
        × (device ≡ scan_device codec (stored row))
  unfolding update_device_health get_device
  update_device_health-row id token_hash report now db device k h =
      let test = has_token id token_hash in
      let stored = reported (format_time codec now) report in
      let rows = update_rows test stored db.devices in
      let known : any test db.devices ≡ true = ground arith in
      let (row, found) = any-find_row test db.devices known in
      let left = find_row-update_rows test stored (λ x. refl) db.devices row found in
      let by_id =
        find_row-id id token_hash rows (stored row)
          (update_rows-Distinct device_id test stored (λ x. refl) db.devices k.devices) left in
      (row, found, ground arith, ground arith)
