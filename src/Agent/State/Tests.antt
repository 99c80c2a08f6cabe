-- ===== src/Agent/State/Tests.antt =====
-- Runs of the agent's state file.
use linkbit.Prelude.{◌≡◌, refl, true, some, [], ◌∷◌}
use linkbit.Agent.Outcome.{failure}
use linkbit.Agent.State.{
  DiskFault, zero_state, not_exist, malformed, read_agent_state, fill_temp, write_agent_state, load,
}
use linkbit.Agent.State.Laws.{Written, write-Written}
use linkbit.Agent.Sample.{json, torn, sample_state_codec, calm, empty_disk}

-- The file cannot be renamed, nor the temporary file removed.
abbrev stuck : DiskFault
stuck = record calm { rename = true; remove = true }

write-Written_example :
    Written sample_state_codec stuck
      (record zero_state { saved_at = 3 })
      empty_disk
      (write_agent_state sample_state_codec stuck "state" 3 zero_state empty_disk)
write-Written_example = write-Written sample_state_codec stuck "state" 3 zero_state empty_disk

stuck_test :
    (write_agent_state sample_state_codec stuck "state" 3 zero_state empty_disk).1
    ≡ record empty_disk { temps = some (json (record zero_state { saved_at = 3 })) ∷ [] }
unfolding write_agent_state fill_temp
stuck_test = refl

torn_test :
    load sample_state_codec calm "state" (record empty_disk { file = some torn })
    ≡ failure malformed
unfolding load read_agent_state
torn_test = refl

absent_test : load sample_state_codec calm "state" empty_disk ≡ failure not_exist
unfolding load read_agent_state
absent_test = refl
