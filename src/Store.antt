-- ===== src/Store.antt =====
-- internal/store/sqlite/store.go: the database. A table is the list of its rows in the order of
-- insertion, and each statement of the file is a function on the tables. What SQLite itself decides
-- is a parameter: `fault` says which statements of a request fail for a reason of their own (a full
-- disk, a lock, a context that ended), which leaves the tables as they were. The schema's primary
-- keys and UNIQUE columns are checked here. The number of rows that an update changed is at hand: the
-- error that RowsAffected may return is one the driver never gives.
pub mod Rows
pub mod Write
pub mod Unique
pub mod Revoked
pub mod Sample
mod Tests
pub mod Users
pub mod Relays
pub mod Keys
pub mod Devices
pub mod Policies
pub mod Overview
use text.Mathlib.Text.{is_lt}
use Prim.Native.String.{compare}
use linkbit.Prelude.{
  ◌≡◌, ◌⊎◌, refl, inl, inr, ℕ, String, Bool, true, false, ◌||◌, Option, none, some, List, [], ◌∷◌,
  ◌++◌, any, if◌then◌else◌, ◌==◌,
}
use linkbit.Models.{
  PolicyRow, InvitationRow, User, DeviceGroup, RelayNode, Invitation, ApiKey, Device, NetworkPolicy,
}

-- The library's text of a time and of a list of ports: time.RFC3339Nano and encoding/json.
pub record Codec : Type 0 where
  pub format : ℕ → String
  pub parse : String → Option ℕ
  pub marshal : Option (List String) → String
  pub unmarshal : String → Option (Option (List String))

-- The rows, with the columns as text.
pub record Db : Type 0 where
  pub users : List (User String)
  pub groups : List (DeviceGroup String)
  pub relays : List (RelayNode String)
  pub invitations : List InvitationRow
  pub api_keys : List (ApiKey String)
  pub devices : List (Device String)
  pub policies : List PolicyRow

-- The statements of the methods of `Store`.
pub data Statement : Type 0 where
  migrate_schema seed_defaults insert_user select_users select_user insert_group select_groups
        select_group :
      Statement
  insert_api_key select_api_key touch_api_key_row revoke_api_key_row select_api_keys : Statement
  upsert_relay_row delete_relay_row heartbeat_relay_row select_relay select_relays : Statement
  insert_invitation select_invitation mark_invitation_row : Statement
  insert_device delete_device_row select_device_by_token update_device_row select_device : Statement
  select_devices insert_policy delete_policy_row select_policies : Statement
  count_devices count_online count_relays count_healthy count_policies average_load : Statement

abbrev pub Fault : Type 0
Fault = Statement → Bool

-- `no_rows` is sql.ErrNoRows.
pub data StoreError : Type 0 where
  no_rows constraint_failed statement_failed bad_column : StoreError

pub data Result {ℓ} (A : Type ℓ) : Type ℓ where
  ok : A → Result A
  err : StoreError → Result A

-- internal/store/store.go, IsNotFound
abbrev pub is_not_found : StoreError → Bool
is_not_found no_rows = true
is_not_found _ = false

-- INSERT of a row that may not clash with one that is there.
abbrev pub insert_row {ℓ} : {A : Type ℓ} → (A → Bool) → A → List A → Option (List A)
insert_row clashes row rows = if any clashes rows then none else some (rows ++ row ∷ [])

-- ORDER BY key DESC, where SQLite compares the bytes of the texts.
abbrev pub older {ℓ} : {A : Type ℓ} → (A → String) → A → A → Bool
older key a b = is_lt (compare (key a) (key b))

pub Result-cases {ℓ} :
    {A : Type ℓ} → (r : Result A) → ((a : A) × (r ≡ ok a)) ⊎ ((e : StoreError) × (r ≡ err e))
Result-cases (ok a) = inl (a, refl)
Result-cases (err e) = inr (e, refl)
