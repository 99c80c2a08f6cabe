-- ===== src/Agent/Service/Tests.antt =====
-- Runs of the agent's service.
use linkbit.Prelude.{
  ◌≡◌, ◌≢◌, ◌≤◌, refl, inl, true, false, none, some, List, [], ◌∷◌, arith, eq_iff, if◌then◌else◌,
}
use linkbit.Agent.Outcome.{value, failure}
use linkbit.Agent.Http.{no_reply}
use linkbit.Agent.State.{
  Disk, malformed, not_exist, load, save, read_agent_state, or_zero, write_agent_state, fill_temp,
}
use linkbit.Agent.Service.{
  Calls, Service, Event, tick, done, ended, waiting, state_error, load_device, save_device,
  register_device, enrol, network_of, apply_network, bring_up, tear_down, report, loop, start_relay,
  serve, run,
}
use linkbit.Agent.Service.Cases.{count}
use linkbit.Agent.Service.Tunnel.{is_applied, is_destroyed, is_waiting, run-Balanced}
use linkbit.Agent.Service.Loop.{is_reported, ticks_before, loop_end, run-terminates, run-reports}
use linkbit.Agent.Service.Again.{is_registered}
use linkbit.Agent.Service.File.{with_file, run-malformed}
use linkbit.Agent.Sample.{
  Document, torn, sample_state_codec, calm, sample_response, empty_disk, cfg,
}

-- A controller that registers everyone, and answers no report.
abbrev rest : Calls (Unit {0})
rest = record {
  load = λ v. failure not_exist;
  save = λ r v. (none, v);
  credentials = none;
  register = λ key name v. (value sample_response, v);
  configuration = none;
  relays = false;
  apply = λ network v. (none, v);
  destroy = λ v. (none, v);
  check_and_report = λ r v. (some no_reply, v);
}

abbrev calls : Calls (Disk Document × Unit {0})
calls = with_file sample_state_codec calm calm "state" 3 rest

abbrev service : Service
service = record { cfg = cfg; registration = true; tunnel = true; health = true; state = true }

abbrev fresh : Disk Document × Unit {0}
fresh = (empty_disk, tt)

abbrev two_ticks : List Event
two_ticks = tick ∷ tick ∷ done ∷ []

runs : Unit {0}
unfolding load save read_agent_state or_zero write_agent_state fill_temp load_device save_device
    register_device enrol network_of apply_network bring_up tear_down report loop start_relay serve
    run
runs = tt

run-Balanced_example :
    let (e, (w', log)) = run calls service two_ticks fresh in
    (count is_applied log ≤ 1)
    × (count is_destroyed log ≡ (if is_waiting e then 0 else count is_applied log))
run-Balanced_example = run-Balanced calls service two_ticks fresh

run-terminates_example : (run calls service two_ticks fresh).0 ≢ waiting
run-terminates_example = run-terminates calls service two_ticks fresh (inl refl)

run-reports_example :
    let (e, (w', log)) = run calls service two_ticks fresh in
    (count is_reported log ≡ ticks_before two_ticks) × (e ≡ loop_end two_ticks)
unfolding runs
run-reports_example =
    run-reports calls service two_ticks fresh sample_response refl refl refl refl refl

abbrev torn_disk : Disk Document
torn_disk = record empty_disk { file = some torn }

run-malformed_example :
    let (e, ((d', v'), log)) = run calls service two_ticks (torn_disk, tt) in
    (e ≡ ended (some (state_error malformed))) × (d' ≡ torn_disk) × (count is_registered log ≡ 1)
run-malformed_example =
    run-malformed sample_state_codec calm calm "state" 3 rest service two_ticks torn_disk torn tt
      sample_response refl refl (λ e. ground (arith, (eq_iff "lb_invite" "").1 e))
      (λ e. ground (arith, (eq_iff "state" "").1 e)) refl refl refl refl refl refl
