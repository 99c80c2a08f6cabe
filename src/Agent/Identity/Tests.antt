-- ===== src/Agent/Identity/Tests.antt =====
-- Runs of EnsureIdentity.
use linkbit.Prelude.{◌≡◌, refl, none, some, arith, eq_iff}
use linkbit.Agent.Outcome.{value}
use linkbit.Agent.State.{or_zero, read_agent_state, fill_temp, write_agent_state, load}
use linkbit.Agent.Identity.{
  Identity, generate_wire_guard_private_key, wire_guard_public_key, fingerprint_from_public_key,
  choose_private, choose_public, choose_identity, initial_state, keep_identity, ensure_identity,
}
use linkbit.Agent.Identity.Laws.{ensure-again}
use linkbit.Agent.State.Laws.{as_stored}
use linkbit.Agent.Identity.Pairs.{no_keys}
use linkbit.Agent.Sample.{
  sample_state_codec, sample_state_laws, sample_marshals, calm, calm-IsCalm, sample_crypto,
  sample_crypto_laws, zeros, empty_disk,
}

-- What the runs below compute with.
runs : Unit {0}
unfolding read_agent_state or_zero write_agent_state fill_temp load generate_wire_guard_private_key
    wire_guard_public_key fingerprint_from_public_key choose_private choose_public choose_identity
    initial_state keep_identity ensure_identity
runs = tt

abbrev identity : Identity
identity = record { private_key = "key"; public_key = "key"; fingerprint = "lb-print" }

ensure-again_example :
    (ensure_identity sample_crypto sample_state_codec calm none 9 "state" no_keys
      (ensure_identity sample_crypto sample_state_codec calm
        (some zeros)
        3
        "state"
        no_keys
        empty_disk).1).0
    ≡ value identity
unfolding runs
ensure-again_example =
    ensure-again sample_crypto sample_state_codec sample_crypto_laws sample_state_laws calm calm
      (some zeros) none 3 9 "state" no_keys identity empty_disk
      (λ s m. sample_marshals (record (as_stored s) { saved_at = 9 }))
      (λ e. ground (arith, (eq_iff "state" "").1 e)) (λ e. cc) calm-IsCalm refl refl
