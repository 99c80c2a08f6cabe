-- ===== src/Controller/Start.antt =====
-- internal/controller/server.go, NewServer: what a controller starts with, from its configuration and
-- the bootstrap key. `itoa` is strconv.Itoa, `derive` the public key of the hub's private key.
use linkbit.Prelude.{
  ℤ, ◌≡◌, ◌↔◌, ◌⊎◌, refl, inl, inr, String, Bool, true, not, Option, none, some, if◌then◌else◌,
  arith,
}
use linkbit.Prelude.Text.{trim_space}
use linkbit.Auth.{AuthError, hash_api_key, verify_api_key, Hashed, Hashed-cases}
use linkbit.Auth.Laws.{verify-hash}
use linkbit.Store.{Codec}
use linkbit.Config.{ControllerConfig}
use linkbit.Controller.Hub.{
  HubConfig, WireGuardHub, HubError, NewHub, no_hub, hub_error, hub, new_wire_guard_hub,
}
use linkbit.Controller.DerpMap.{DerpLibrary}
use linkbit.Controller.Server.{Server}

pub data StartError : Type 0 where
  store_required : StartError
  bootstrap_key : AuthError → StartError
  wire_guard_hub : HubError → StartError

pub data Started : Type 0 where
  refused : StartError → Started
  started : Server → Started

-- The fields that the hub reads.
abbrev pub hub_config : (ℤ → String) → ControllerConfig → HubConfig
hub_config itoa cfg = record {
  enabled = cfg.hub_wire_guard_enabled;
  iface = cfg.hub_wire_guard_iface;
  ip = cfg.hub_wire_guard_ip;
  network = cfg.hub_wire_guard_network;
  port = cfg.hub_wire_guard_port;
  port_text = itoa cfg.hub_wire_guard_port;
  key = cfg.hub_wire_guard_key;
  endpoint = cfg.hub_wire_guard_endpoint;
  public_url = cfg.public_url;
}

module _ (codec : Codec) (hmac_hex : String → String → String) (contains : String → String → Bool)
    (url_host : String → Option String) (is_ip : String → Bool) (itoa : ℤ → String)
    (derive : String → Option String) (derp : DerpLibrary) where
  -- `storage` tells whether there is a store.
  unfoldable pub new_server : ControllerConfig → String → Bool → Started
  new_server cfg bootstrap_api_key storage =
      if not storage
      then refused store_required
      else elim (hash_api_key hmac_hex bootstrap_api_key cfg.api_key_pepper) [
        | Hashed.err e ↦ refused (bootstrap_key e)
        | Hashed.ok digest ↦ elim (new_wire_guard_hub url_host is_ip derive (hub_config itoa cfg)) [
          | hub_error e ↦ refused (wire_guard_hub e)
          | no_hub ↦ started (record {
            codec = codec;
            hmac_hex = hmac_hex;
            contains = contains;
            api_key_pepper = cfg.api_key_pepper;
            admin_digest = digest;
            hub = none;
            public_url = cfg.public_url;
            listen_addr = cfg.listen_addr;
            log_level = cfg.log_level;
            web_dir = cfg.web_dir;
            derp = derp;
          })
          | hub h ↦ started (record {
            codec = codec;
            hmac_hex = hmac_hex;
            contains = contains;
            api_key_pepper = cfg.api_key_pepper;
            admin_digest = digest;
            hub = some h;
            public_url = cfg.public_url;
            listen_addr = cfg.listen_addr;
            log_level = cfg.log_level;
            web_dir = cfg.web_dir;
            derp = derp;
          })
        ]
      ]

  NewHub-cases :
      (n : NewHub)
      → (n ≡ no_hub) ⊎ ((e : HubError) × (n ≡ hub_error e)) ⊎ ((h : WireGuardHub) × (n ≡ hub h))
  NewHub-cases no_hub = inl refl
  NewHub-cases (hub_error e) = inr (inl (e, refl))
  NewHub-cases (hub h) = inr (inr (h, refl))

  started-fields :
      (cfg : ControllerConfig) (bootstrap digest : String) (storage : Bool) (s : Server)
      → new_server cfg bootstrap storage ≡ started s
      → hash_api_key hmac_hex bootstrap cfg.api_key_pepper ≡ Hashed.ok digest
      → (s.hmac_hex ≡ hmac_hex)
        × (s.api_key_pepper ≡ cfg.api_key_pepper)
        × (s.admin_digest ≡ digest)
  unfolding new_server
  started-fields cfg bootstrap digest storage s h e =
      elim (NewHub-cases (new_wire_guard_hub url_host is_ip derive (hub_config itoa cfg))) [
        | inl n ↦ ground (arith, e, n)
        | inr (inl (x, n)) ↦ absurd (ground (arith, e, n))
        | inr (inr (x, n)) ↦ ground (arith, e, n)
      ]

  -- The controller that starts takes a key for its bootstrap key exactly if the two are the same up to
  -- white space at their ends, where the HMAC tells the two apart.
  pub new_server-verify :
      (cfg : ControllerConfig) (bootstrap presented : String) (storage : Bool) (s : Server)
      → new_server cfg bootstrap storage ≡ started s
      → (hmac_hex cfg.api_key_pepper (trim_space presented)
            ≡ hmac_hex cfg.api_key_pepper (trim_space bootstrap)
          → trim_space presented ≡ trim_space bootstrap)
      → (verify_api_key s.hmac_hex presented s.admin_digest s.api_key_pepper ≡ true)
        ↔ (trim_space presented ≡ trim_space bootstrap)
  unfolding new_server
  new_server-verify cfg bootstrap presented storage s h apart =
      elim (Hashed-cases (hash_api_key hmac_hex bootstrap cfg.api_key_pepper)) [
        | inl (digest, e) ↦
            let known =
              verify-hash hmac_hex cfg.api_key_pepper bootstrap presented digest apart e in
            let (a, b, c) = started-fields cfg bootstrap digest storage s h e in rw (a, b, c) known
        | inr (x, e) ↦ absurd (ground arith)
      ]
