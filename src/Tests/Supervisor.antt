-- ===== src/Tests/Supervisor.antt =====
-- The theorems on the Xray supervisor, at runs of its threads.
use lenker_panel.Base.{◌≡◌, refl, inl, true, false, arith}
use lenker_panel.Agent.Supervisor.{
  ended, waiting, preparing, stopping, opened, closed, System, new_xray_supervisor, close_stop,
  call_prepare_start, prepare_started, prepare_failed, call_stop,
}
use lenker_panel.Agent.Supervisor.Steps.{
  IsDone, Step, prepare_called, stop_called, start_succeeds, Reach, here, next, begin,
}
use lenker_panel.Agent.Supervisor.Invariant.{IsConsistent, Reach-IsConsistent}
use lenker_panel.Agent.Supervisor.Waiting.{wait_ends, failed_start_blocks}

abbrev running_system : System
running_system = prepare_started 0 7 "xray.json" (call_prepare_start "xray.json" begin)

abbrev stopping_system : System
stopping_system = call_stop running_system

runs : Reach begin stopping_system
unfolding call_prepare_start prepare_started close_stop new_xray_supervisor
runs =
    next
      (next (next here (prepare_called "xray.json" refl))
        (start_succeeds 0 7 "xray.json" false (omega arith) refl (inl refl)))
      (stop_called refl)

Reach-IsConsistent_example : IsConsistent stopping_system
Reach-IsConsistent_example = Reach-IsConsistent runs

stops : stopping_system.caller ≡ stopping
unfolding call_stop
stops = refl

supervises : stopping_system.goroutine ≡ waiting 1
unfolding call_stop prepare_started
supervises = refl

wait_ends_example :
    (stopping_system.supervisor.stop_ch ≡ closed)
    × ((z : System) × Step stopping_system z
        × (z.goroutine ≡ ended)
        × (z.supervisor.state ≡ "stopped")
        × (z.alive ≡ false)
        × IsDone z)
wait_ends_example = wait_ends runs (inl stops) (λ e. ground (arith, supervises, e))

failed_start_blocks_example :
    ((call_prepare_start "b.json" (prepare_failed "a.json" begin)).caller ≡ preparing "b.json" true)
    × ((call_prepare_start "b.json" (prepare_failed "a.json" begin)).supervisor.done ≡ opened)
failed_start_blocks_example = failed_start_blocks begin "a.json" "b.json" refl here
