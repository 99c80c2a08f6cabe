-- ===== src/Agent/Program/Tests.antt =====
-- Starts of the agent.
use linkbit.Prelude.{◌≡◌, refl, String, Bool, true, none, some, [], ◌∷◌}
use linkbit.Agent.Http.{Wire}
use linkbit.Agent.Client.{Decoders}
use linkbit.Agent.State.{Disk, zero_state, load, read_agent_state}
use linkbit.Agent.Service.{tick, done}
use linkbit.Agent.Program.Restarts.{Start, main_all, main_all-kept}
use linkbit.Agent.Sample.{
  Document, json, sample_state_codec, sample_state_laws, calm, sample_crypto, zeros,
  sample_response, empty_disk, cfg,
}

abbrev any_url : String → Bool
any_url url = true

abbrev silent : Wire (Unit {0}) (Unit {0})
silent = record { new_request = any_url; send = λ q w. (none, w) }

abbrev decoders : Decoders (Unit {0})
decoders = record {
  registration = λ body. none;
  device = λ body. none;
  config = λ body. none;
  session = λ body. none;
  sessions = λ body. none;
}

abbrev start : Start (Unit {0}) (Unit {0})
start = record {
  sys = record {
    wire = silent;
    decoders = decoders;
    runner = λ trace c. true;
    key_file = none;
    linux = true;
  };
  faults = record { identity = calm; loading = calm; saving = calm };
  random = some zeros;
  now = 3;
  events = tick ∷ done ∷ [];
}

abbrev registered_disk : Disk Document
registered_disk = record empty_disk {
  file = some (json (record zero_state { response = sample_response }));
}

main_all-kept_example :
    main_all sample_crypto sample_state_codec cfg (start ∷ start ∷ []) (registered_disk, tt) ≡ 0
unfolding load read_agent_state
main_all-kept_example =
    main_all-kept sample_crypto sample_state_codec cfg sample_state_laws (start ∷ start ∷ [])
      registered_disk tt calm sample_response (refl, (refl, tt)) refl
