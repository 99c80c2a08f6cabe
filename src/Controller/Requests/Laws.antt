-- ===== src/Controller/Requests/Laws.antt =====
-- What the requests of devices leave alone, and what a relay session stands on.
use linkbit.Prelude.{ℕ, ◌≡◌, refl, String, Bool, Option, none, some, arith}
use linkbit.Models.{TcpRelaySessionRequest}
use linkbit.Controller.Server.{Server, World, Env}
use linkbit.Controller.Requests.{device_network_config, session_create, relay_pending, relay_stream}

module _ (s : Server) (env : Env) (w : World) where
  pub device_network_config-db :
      (id token : String) → (device_network_config s env id token w).1.db ≡ w.db
  unfolding device_network_config
  device_network_config-db id token = ground arith

  pub session_create-db :
      (equal_fold : String → String → Bool) (now : ℕ) (fresh token : String)
      (req : Option TcpRelaySessionRequest)
      → (session_create s env equal_fold now fresh token req w).1.db ≡ w.db
  unfolding session_create
  session_create-db equal_fold now fresh token none = refl
  session_create-db equal_fold now fresh token (some req) = ground arith

  pub relay_pending-db :
      (waits : Bool) (now : ℕ) (query header token : String)
      → (relay_pending s env waits now query header token w).1.db ≡ w.db
  unfolding relay_pending
  relay_pending-db waits now query header token = ground arith

  pub relay_stream-db :
      (client : Bool) (checked_at now : ℕ) (query header token id : String) (conn : Option ℕ)
      → (relay_stream s env client checked_at now query header token id conn w).1.db ≡ w.db
  unfolding relay_stream
  relay_stream-db client checked_at now query header token id conn = ground arith
