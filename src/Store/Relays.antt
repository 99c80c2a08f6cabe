-- ===== src/Store/Relays.antt =====
-- internal/store/sqlite/store.go: relay nodes. `now` is `time.Now().UTC()`.
use text.Mathlib.Text.{is_lt}
use Prim.Native.String.{compare}
use linkbit.Prelude.{
  ℕ, String, Bool, none, some, List, [], ◌∷◌, ◌++◌, map, any, ◌||◌, ◌&&◌, ◌==◌, if◌then◌else◌,
}
use linkbit.Prelude.Sort.{sort_by}
use linkbit.Prelude.Select.{find_row, update_rows, delete_rows}
use linkbit.Models.{RelayNode, relay_status_healthy}
use linkbit.Store.{
  Codec, Db, Fault, upsert_relay_row, delete_relay_row, heartbeat_relay_row, select_relay,
  select_relays, Result, ok, err, no_rows, statement_failed,
}
use linkbit.Store.Rows.{format_time, relay_row, scan_relay}

-- DO UPDATE SET: all but the id and the time of the first registration.
abbrev pub refreshed : RelayNode String → RelayNode String → RelayNode String
refreshed excluded r = record excluded { id = r.id; registered = r.registered }

-- ORDER BY region, name
abbrev later : RelayNode String → RelayNode String → Bool
later a b =
    is_lt (compare b.region a.region) || ((a.region == b.region) && is_lt (compare b.name a.name))

module _ (codec : Codec) (fault : Fault) where
  unfoldable pub upsert_relay : RelayNode ℕ → Db → Result (Unit {0}) × Db
  upsert_relay relay db = if fault upsert_relay_row then (err statement_failed, db) else (
    ok tt,
    record db {
      relays =
          if any (λ (r : RelayNode String). r.id == relay.id) db.relays
          then update_rows (λ (r : RelayNode String). r.id == relay.id)
              (refreshed (relay_row codec relay)) db.relays
          else db.relays ++ relay_row codec relay ∷ [];
    },
  )

  -- The number of rows deleted is not looked at.
  unfoldable pub delete_relay : String → Db → Result (Unit {0}) × Db
  delete_relay id db = if fault delete_relay_row then (err statement_failed, db) else (
    ok tt,
    record db { relays = delete_rows (λ (r : RelayNode String). r.id == id) db.relays },
  )

  unfoldable pub get_relay : String → Db → Result (RelayNode ℕ)
  get_relay id db =
      if fault select_relay
      then err statement_failed
      else elim (find_row (λ (r : RelayNode String). r.id == id) db.relays) [
        | none ↦ err no_rows
        | some row ↦ ok (scan_relay codec row)
      ]

  unfoldable pub heartbeat_relay : String → ℕ → ℕ → Db → Result (RelayNode ℕ) × Db
  unfolding get_relay
  heartbeat_relay id load now db =
      if fault heartbeat_relay_row
      then (err statement_failed, db)
      else if any (λ (r : RelayNode String). r.id == id) db.relays
      then (let db' : Db = record db {
        relays =
            update_rows (λ (r : RelayNode String). r.id == id)
              (λ r. record r {
                status = relay_status_healthy;
                load = load;
                last_seen_at = format_time codec now;
              })
              db.relays;
      } in
          (get_relay id db', db'))
      else (err no_rows, db)

  unfoldable pub list_relays : Db → Result (List (RelayNode ℕ))
  list_relays db =
      if fault select_relays
      then err statement_failed
      else ok (map (scan_relay codec) (sort_by later db.relays))
