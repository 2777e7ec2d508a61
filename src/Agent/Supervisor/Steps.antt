-- ===== src/Agent/Supervisor/Steps.antt =====
-- The steps of the supervisor's threads, of the process and of the clock, in any order.
use lenker_panel.Base.{◌≡◌, ◌≢◌, ◌⊎◌, ℕ, ◌<◌, String, Bool, true, false, Time}
use lenker_panel.Agent.Supervisor.{
  opened, closed, ended, waiting, backing_off, idle, preparing, stopping, System,
  new_xray_supervisor, call_prepare_start, prepare_started, prepare_failed, call_stop, see_stop,
  see_stop_in_backoff, see_crash, restart, restart_failed,
}

-- `done` is nil or closed: nobody waits for it
abbrev pub IsDone : System → Type 0
IsDone y = y.supervisor.done ≢ opened

pub data Step (y : System) : System → Type 0 where
  prepare_called :
      (config_path : String) → y.caller ≡ idle → Step y (call_prepare_start config_path y)
  stop_called : y.caller ≡ idle → Step y (call_stop y)
  -- PrepareStart goes on, if it need not wait or `done` is closed; a process has a positive pid
  start_succeeds :
      (now : Time) (pid : ℕ) (config_path : String) (waits : Bool)
      → 0 < pid
      → y.caller ≡ preparing config_path waits
      → (waits ≡ false) ⊎ IsDone y
      → Step y (prepare_started now pid config_path y)
  start_fails :
      (config_path : String) (waits : Bool)
      → y.caller ≡ preparing config_path waits
      → (waits ≡ false) ⊎ IsDone y
      → Step y (prepare_failed config_path y)
  stop_returns : y.caller ≡ stopping → IsDone y → Step y (record y { caller = idle })
  -- supervise sees the closed channel, before or after the end of the process, or in its backoff
  stop_seen :
      (now : Time) (backoff : ℕ)
      → y.goroutine ≡ waiting backoff
      → y.supervisor.stop_ch ≡ closed
      → Step y (see_stop now y)
  stop_seen_in_backoff :
      (now : Time) (backoff : ℕ)
      → y.goroutine ≡ backing_off backoff
      → y.supervisor.stop_ch ≡ closed
      → Step y (see_stop_in_backoff now y)
  process_ends : y.alive ≡ true → Step y (record y { alive = false })
  crash_seen :
      (now : Time) (message : String) (backoff : ℕ)
      → y.goroutine ≡ waiting backoff
      → y.alive ≡ false
      → y.supervisor.stop_ch ≢ closed
      → Step y (see_crash now message backoff y)
  -- the timer may win although the channel is closed
  restarts :
      (now : Time) (pid backoff : ℕ)
      → 0 < pid
      → y.goroutine ≡ backing_off backoff
      → Step y (restart now pid backoff y)
  restart_fails : (backoff : ℕ) → y.goroutine ≡ backing_off backoff → Step y (restart_failed y)

pub data Reach (y : System) : System → Type 0 where
  here : Reach y y
  next : {t u : System} → Reach y t → Step t u → Reach y u

-- a supervisor as NewXraySupervisor makes it
abbrev pub begin : System
begin = record { supervisor = new_xray_supervisor; goroutine = ended; alive = false; caller = idle }
