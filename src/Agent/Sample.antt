-- ===== src/Agent/Sample.antt =====
-- Example data: files that are JSON or torn, a stand-in for the keys' arithmetic, and a device.
use linkbit.Prelude.{ℕ, ◌≢◌, refl, String, true, false, Option, none, some, List, [], ◌∷◌}
use linkbit.Config.{AgentConfig}
use linkbit.Models.{Device, DeviceRegistrationResponse}
use linkbit.Agent.State.{AgentState, StateCodec, Disk, DiskFault, zero_device}
use linkbit.Agent.State.Laws.{as_stored, StateLaws, IsCalm}
use linkbit.Agent.Identity.{Crypto}
use linkbit.Agent.Identity.Choice.{CryptoLaws}

pub data Document : Type 0 where
  json : AgentState → Document
  torn : Document

abbrev pub unmarshal_document : Document → Option AgentState
unmarshal_document (json s) = some s
unmarshal_document torn = none

abbrev pub sample_state_codec : StateCodec
sample_state_codec = record {
  Document = Document;
  marshal = λ s. some (json (as_stored s));
  unmarshal = unmarshal_document;
}

pub sample_state_laws : StateLaws sample_state_codec
sample_state_laws = record { unmarshal-marshal = λ s text e. cc }

pub sample_marshals : (s : AgentState) → sample_state_codec.marshal s ≢ none
sample_marshals s e = cc

abbrev pub calm : DiskFault
calm = record {
  open_file = false;
  mkdir_all = false;
  create_temp = false;
  chmod = false;
  write = false;
  close = false;
  rename = false;
  remove = false;
}

pub calm-IsCalm : IsCalm calm
calm-IsCalm = record {
  mkdir_all = refl;
  create_temp = refl;
  chmod = refl;
  write = refl;
  close = refl;
  rename = refl;
}

-- Every text stands for 32 bytes.
abbrev pub zeros : List ℕ
zeros =
    0 ∷ 0 ∷ 0 ∷ 0 ∷ 0 ∷ 0 ∷ 0 ∷ 0 ∷ 0 ∷ 0 ∷ 0 ∷ 0 ∷ 0 ∷ 0 ∷ 0 ∷ 0 ∷ 0 ∷ 0 ∷ 0 ∷ 0 ∷ 0 ∷ 0 ∷ 0 ∷ 0
    ∷ 0 ∷ 0 ∷ 0 ∷ 0 ∷ 0 ∷ 0 ∷ 0 ∷ 0 ∷ []

abbrev pub encode_sample : List ℕ → String
encode_sample [] = ""
encode_sample (b ∷ bytes) = "key"

abbrev pub sample_crypto : Crypto
sample_crypto = record {
  encode = encode_sample;
  decode = λ s. some zeros;
  encode_raw_url = λ bytes. "print";
  sum256 = λ s. zeros;
  x25519 = λ bytes. some zeros;
}

pub sample_crypto_laws : CryptoLaws sample_crypto
sample_crypto_laws = record { encode-nonempty = λ b bytes. refl; x25519-nonempty = λ bytes e. cc }

abbrev pub sample_device : Device ℕ
sample_device = record zero_device { id = "dev"; device_token = "token"; name = "laptop" }

abbrev pub sample_response : DeviceRegistrationResponse
sample_response = record { device = sample_device; relays = []; message = "registered" }

abbrev pub empty_disk : Disk Document
empty_disk = record { file = none; temps = [] }

abbrev pub cfg : AgentConfig
cfg = record {
  controller_url = "http://c";
  enrollment_key = "lb_invite";
  device_name = "laptop";
  health_every = 30000000000;
  relay_enabled = true;
  relay_poll_every = 2000000000;
  wire_guard_interface = "linkbit0";
  wire_guard_private_key = "";
  wire_guard_public_key = "";
  wire_guard_dry_run = false;
  state_path = "state";
  device_fingerprint = "";
  endpoint = "";
  run_once = false;
}
