-- ===== src/Agent/State.antt =====
-- internal/agent/state.go, FileStateStore: the agent's state in a file. The file system is what
-- stands at the path, the temporary files beside it, and the calls of the system that fail.
pub mod Laws
mod Tests
use linkbit.Prelude.{
  ℕ, String, Bool, true, false, ◌||◌, Option, none, some, List, [], ◌∷◌, ◌==◌, if◌then◌else◌,
}
use linkbit.Models.{Device, DeviceRegistrationResponse}
use linkbit.Agent.Outcome.{Outcome, value, failure}

pub data StateError : Type 0 where
  path_required id_and_token_required no_device_credentials : StateError
  not_exist malformed io_failed key_failed : StateError

pub record AgentState : Type 0 where
  pub response : DeviceRegistrationResponse
  pub wire_guard_private_key : String
  pub wire_guard_public_key : String
  pub fingerprint : String
  pub saved_at : ℕ

-- `var state agentState`
abbrev pub zero_device : Device ℕ
zero_device = record {
  id = "";
  user_id = "";
  group_id = "";
  name = "";
  virtual_ip = "";
  public_key = "";
  endpoint = "";
  token_hash = "";
  device_token = "";
  status = "";
  last_seen_at = 0;
  created_at = 0;
  fingerprint = "";
}

abbrev pub zero_response : DeviceRegistrationResponse
zero_response = record { device = zero_device; relays = []; message = "" }

abbrev pub zero_state : AgentState
zero_state = record {
  response = zero_response;
  wire_guard_private_key = "";
  wire_guard_public_key = "";
  fingerprint = "";
  saved_at = 0;
}

-- encoding/json between a state and the text of a file; none where it returns an error.
pub record StateCodec : Type 1 where
  pub Document : Type 0
  pub marshal : AgentState → Option Document
  pub unmarshal : Document → Option AgentState

-- A temporary file is none as long as its text is not complete.
pub record Disk (D : Type 0) : Type 0 where
  pub file : Option D
  pub temps : List (Option D)

-- The calls of the system that fail, each by its name.
pub record DiskFault : Type 0 where
  pub open_file : Bool
  pub mkdir_all : Bool
  pub create_temp : Bool
  pub chmod : Bool
  pub write : Bool
  pub close : Bool
  pub rename : Bool
  pub remove : Bool

abbrev pub lacks_credentials : DeviceRegistrationResponse → Bool
lacks_credentials r = (r.device.id == "") || (r.device.device_token == "")

-- `existing.DeviceRegistrationResponse = state` and the two lines after it
abbrev pub to_save : DeviceRegistrationResponse → DeviceRegistrationResponse
to_save r = record r { device = record r.device { token_hash = "" }; message = "device state" }

-- What `err != nil && !errors.Is(err, os.ErrNotExist)` lets pass.
unfoldable pub or_zero : Outcome StateError AgentState → Outcome StateError AgentState
or_zero (value s) = value s
or_zero (failure not_exist) = value zero_state
or_zero (failure e) = failure e

-- The first temporary file is the one that was made last.
abbrev pub without_first {ℓ} : {A : Type ℓ} → List A → List A
without_first [] = []
without_first (x ∷ xs) = xs

module _ (c : StateCodec) where
  unfoldable pub read_agent_state : DiskFault → Disk c.Document → Outcome StateError AgentState
  read_agent_state f d = if f.open_file then failure io_failed else elim d.file [
    | none ↦ failure not_exist
    | some text ↦ elim (c.unmarshal text) [ none ↦ failure malformed | some s ↦ value s ]
  ]

  -- Between the making of the temporary file and its renaming.
  unfoldable pub fill_temp :
      DiskFault → AgentState → Disk c.Document → Option StateError × Disk c.Document
  fill_temp f s d =
      if f.chmod
      then (some io_failed, record d { temps = none ∷ d.temps })
      else elim (c.marshal s) [
        | none ↦ (some io_failed, record d { temps = none ∷ d.temps })
        | some text ↦
            if f.write
            then (some io_failed, record d { temps = none ∷ d.temps })
            else if f.close || f.rename
            then (some io_failed, record d { temps = some text ∷ d.temps })
            else (none, record d { file = some text })
      ]

  -- The deferred os.Remove of the temporary file, which is gone where it was renamed.
  abbrev pub remove_temp :
      DiskFault → Option StateError × Disk c.Document → Option StateError × Disk c.Document
  remove_temp f (none, d) = (none, d)
  remove_temp f (some e, d) =
      (some e, if f.remove then d else record d { temps = without_first d.temps })

  unfoldable pub write_agent_state :
      DiskFault → String → ℕ → AgentState → Disk c.Document → Option StateError × Disk c.Document
  unfolding fill_temp
  write_agent_state f path now s d =
      if path == ""
      then (some path_required, d)
      else if f.mkdir_all || f.create_temp
      then (some io_failed, d)
      else remove_temp f (fill_temp f (record s { saved_at = now }) d)

  unfoldable pub load :
      DiskFault → String → Disk c.Document → Outcome StateError DeviceRegistrationResponse
  unfolding read_agent_state
  load f path d = if path == "" then failure path_required else elim (read_agent_state f d) [
    | failure e ↦ failure e
    | value s ↦
        if lacks_credentials s.response then failure no_device_credentials else value s.response
  ]

  unfoldable pub save :
      DiskFault
      → String
      → ℕ
      → DeviceRegistrationResponse
      → Disk c.Document
      → Option StateError × Disk c.Document
  unfolding read_agent_state write_agent_state or_zero
  save f path now r d =
      if path == ""
      then (some path_required, d)
      else if lacks_credentials r
      then (some id_and_token_required, d)
      else elim (or_zero (read_agent_state f d)) [
        | failure e ↦ (some e, d)
        | value existing ↦ write_agent_state f path now (record existing { response = to_save r }) d
      ]
