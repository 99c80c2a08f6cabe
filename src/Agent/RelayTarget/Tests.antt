-- ===== src/Agent/RelayTarget/Tests.antt =====
-- Runs of the relay target.
use linkbit.Prelude.{ℤ, pos, ◌≡◌, refl, String, Bool, true, false, some, [], ◌∷◌, ◌++◌}
use linkbit.Models.{TcpRelaySession}
use linkbit.Agent.Outcome.{value}
use linkbit.Agent.RelayTarget.{
  TcpRelayTarget, new_tcp_relay_target, mark_active, offer, finish, run, polled, dial_failed,
  invalid_port, context_ended, connection, accept_error, handle, accept_all, listen_and_serve,
}
use linkbit.Agent.RelayTarget.Steps.{IsSingle, Steps, here, next, offers, finishes, Steps-IsSingle}
use linkbit.Agent.RelayTarget.Retry.{retries, retries-unpaused}

abbrev session : TcpRelaySession
session = record {
  id = "one";
  source_device_id = "a";
  target_device_id = "b";
  target_name = "b";
  target_virtual_ip = "10.88.0.3";
  target_port = pos 22;
  protocol = "tcp";
  expires_at = 9;
}

abbrev target : TcpRelayTarget
target = new_tcp_relay_target 5

-- Offered twice, then done.
served : Steps target (finish "one" (offer session (offer session target)))
unfolding offer mark_active new_tcp_relay_target
served =
    next (next (next here (offers session target)) (offers session (offer session target)))
      (finishes "one" (offer session (offer session target)) refl)

Steps-IsSingle_example : IsSingle (finish "one" (offer session (offer session target)))
Steps-IsSingle_example =
    Steps-IsSingle 5 (finish "one" (offer session (offer session target))) served

abbrev refuses : ℤ → Bool
refuses port = false

abbrev attaches : String → Bool
attaches id = true

retries-unpaused_example :
    ((handle refuses attaches session).0 ≡ some dial_failed)
    × (run (retries 3 session) target ≡ (0, target))
    × (run (retries 3 session ++ polled (value (session ∷ [])) ∷ []) target
        ≡ (0, record target { active = "one" ∷ []; handling = "one" ∷ [] }))
unfolding new_tcp_relay_target
retries-unpaused_example = retries-unpaused 3 session target refuses attaches refl refl refl refl

handle_test :
    (handle refuses attaches (record session { target_port = pos 65536 })).0 ≡ some invalid_port
unfolding handle
handle_test = refl

listen_test :
    listen_and_serve true ":22" "b" (pos 22) (connection (value session) ∷ accept_error true ∷ [])
    ≡ (some context_ended, value session ∷ [])
unfolding listen_and_serve accept_all
listen_test = refl
