-- ===== src/Store/Users.antt =====
-- internal/store/sqlite/store.go: users and groups.
use linkbit.Prelude.{ℕ, String, none, some, List, [], ◌∷◌, ◌++◌, map, any, ◌==◌, if◌then◌else◌}
use linkbit.Prelude.Sort.{sort_by}
use linkbit.Prelude.Select.{find_row}
use linkbit.Models.{User, DeviceGroup}
use linkbit.Store.{
  Codec, Db, Fault, migrate_schema, seed_defaults, insert_user, select_users, select_user,
  insert_group, select_groups, select_group, Result, ok, err, no_rows, constraint_failed,
  statement_failed, insert_row, older,
}
use linkbit.Store.Rows.{format_time, user_row, scan_user, group_row, scan_group}

-- The rows that Migrate inserts where they are missing.
abbrev pub default_user : String → User String
default_user now = record {
  id = "default-user";
  name = "Default User";
  email = "";
  role = "admin";
  created_at = now;
}

abbrev pub default_group : String → DeviceGroup String
default_group now = record {
  id = "default";
  name = "Default";
  description = "Default Linkbit device group";
  created_at = now;
}

module _ (codec : Codec) (fault : Fault) where
  -- The tables are there from the start: CREATE TABLE and ALTER TABLE change no row.
  unfoldable pub migrate : ℕ → Db → Result (Unit {0}) × Db
  migrate now db =
      if fault migrate_schema
      then (err statement_failed, db)
      else if fault seed_defaults
      then (err statement_failed, db)
      else (
        ok tt,
        record db {
          users =
              if any (λ (r : User String). r.id == "default-user") db.users
              then db.users
              else db.users ++ default_user (format_time codec now) ∷ [];
          groups =
              if any (λ (r : DeviceGroup String). r.id == "default") db.groups
              then db.groups
              else db.groups ++ default_group (format_time codec now) ∷ [];
        },
      )

  unfoldable pub create_user : User ℕ → Db → Result (Unit {0}) × Db
  create_user user db =
      if fault insert_user
      then (err statement_failed, db)
      else elim (insert_row (λ (r : User String). r.id == user.id) (user_row codec user) db.users) [
        | none ↦ (err constraint_failed, db)
        | some users ↦ (ok tt, record db { users = users })
      ]

  unfoldable pub list_users : Db → Result (List (User ℕ))
  list_users db =
      if fault select_users
      then err statement_failed
      else ok (map (scan_user codec) (sort_by (older (λ (r : User String). r.created_at)) db.users))

  unfoldable pub get_user : String → Db → Result (User ℕ)
  get_user id db =
      if fault select_user
      then err statement_failed
      else elim (find_row (λ (r : User String). r.id == id) db.users) [
        | none ↦ err no_rows
        | some row ↦ ok (scan_user codec row)
      ]

  unfoldable pub create_group : DeviceGroup ℕ → Db → Result (Unit {0}) × Db
  create_group group db =
      if fault insert_group
      then (err statement_failed, db)
      else elim (insert_row (λ (r : DeviceGroup String). r.id == group.id) (group_row codec group)
          db.groups) [
            | none ↦ (err constraint_failed, db)
            | some groups ↦ (ok tt, record db { groups = groups })
          ]

  unfoldable pub list_groups : Db → Result (List (DeviceGroup ℕ))
  list_groups db =
      if fault select_groups
      then err statement_failed
      else ok (
          map (scan_group codec)
            (sort_by (older (λ (r : DeviceGroup String). r.created_at)) db.groups))

  unfoldable pub get_group : String → Db → Result (DeviceGroup ℕ)
  get_group id db =
      if fault select_group
      then err statement_failed
      else elim (find_row (λ (r : DeviceGroup String). r.id == id) db.groups) [
        | none ↦ err no_rows
        | some row ↦ ok (scan_group codec row)
      ]
