-- ===== src/Agent/Supervisor.antt =====
-- The supervisor of the Xray process, services/node-agent/internal/agent/xray_supervisor.go: its
-- record, and what each of its threads does from one blocking operation to the next. One caller at a
-- time calls PrepareStart and Stop, as the agent does; supervise runs in a goroutine of its own, and
-- the process may end at any time. A channel is nil, open or closed.
pub mod Steps
pub mod Invariant
pub mod Waiting
use lenker_panel.Base.{
  ℕ, ◌+◌, ◌-◌, ◌*◌, String, Bool, true, false, not, ◌&&◌, Option, none, some, List, [], ◌∷◌, ◌++◌,
  pos, Time, is_zero, ltb, length, drop, append, if◌then◌else◌,
}
use lenker_panel.Agent.Model.{RuntimeEvent}
use lenker_panel.Agent.Runtime.{or_time}
use lenker_panel.Agent.Service.{limited}
use lenker_panel.Agent.Applying.{event}

pub data Channel : Type 0 where
  absent opened closed : Channel

pub record XraySupervisor : Type 0 where
  pub pid : ℕ
  pub config_path : String
  pub state : String
  pub stop_ch : Channel
  pub stopped : Bool
  pub done : Channel
  pub events : List RuntimeEvent

-- supervise: it has ended, it waits for the process or the stop, or it waits for its backoff in seconds
pub data Goroutine : Type 0 where
  ended : Goroutine
  waiting : (backoff : ℕ) → Goroutine
  backing_off : (backoff : ℕ) → Goroutine

-- the caller: PrepareStart before it goes on, if it waits for `done` or not, or Stop, which waits
pub data Caller : Type 0 where
  idle : Caller
  preparing : (config_path : String) (waits : Bool) → Caller
  stopping : Caller

-- `alive` is whether the process that was started last still runs
pub record System : Type 0 where
  pub supervisor : XraySupervisor
  pub goroutine : Goroutine
  pub alive : Bool
  pub caller : Caller

-- NewXraySupervisor
unfoldable pub new_xray_supervisor : XraySupervisor
new_xray_supervisor = record {
  pid = 0;
  config_path = "";
  state = "stopped";
  stop_ch = absent;
  stopped = false;
  done = absent;
  events = [];
}

-- appendEvent
unfoldable pub record_event :
    (now : Time) (type status message : String) → XraySupervisor → XraySupervisor
unfolding limited
record_event now type status message s = record s {
  events = limited (s.events ++ event type status (pos 0) message now ∷ []);
}

-- `s.stopCh != nil && !s.stopped`
abbrev pub is_stoppable : XraySupervisor → Bool
is_stoppable s = elim s.stop_ch [ absent ↦ false | opened ↦ not s.stopped | closed ↦ not s.stopped ]

-- `s.stopped = true; close(s.stopCh)`
unfoldable pub close_stop : XraySupervisor → XraySupervisor
close_stop s = if is_stoppable s then record s { stopped = true; stop_ch = closed } else s

-- startProcess, where the process has started with this pid
unfoldable pub started : (now : Time) (pid : ℕ) → XraySupervisor → XraySupervisor
unfolding record_event
started now pid s =
    record_event now "process_started" "started" "xray process started"
      (record s { pid = pid; state = "running" })

-- startProcess, where it has not
unfoldable pub start_failed : XraySupervisor → XraySupervisor
start_failed s = record s { state = "failed"; pid = 0 }

-- the channels that PrepareStart makes
unfoldable pub with_channels : (config_path : String) → XraySupervisor → XraySupervisor
with_channels config_path s = record s {
  config_path = config_path;
  stop_ch = opened;
  stopped = false;
  done = opened;
}

-- supervise ends: the state, the event, and the deferred close of `done`
unfoldable pub stopped_state : (now : Time) → XraySupervisor → XraySupervisor
unfolding record_event
stopped_state now s =
    record_event now "process_stopped" "stopped" "xray process stopped"
      (record s { state = "stopped"; pid = 0; done = closed })

-- in the backoff, the pid is left as it is
unfoldable pub stopped_in_backoff : (now : Time) → XraySupervisor → XraySupervisor
unfolding record_event
stopped_in_backoff now s =
    record_event now "process_stopped" "stopped" "xray process stopped during backoff"
      (record s { state = "stopped"; done = closed })

unfoldable pub crashed_state : (now : Time) (message : String) → XraySupervisor → XraySupervisor
unfolding record_event
crashed_state now message s =
    record_event now "process_crashed" "crashed" message
      (record s { state = "restarting"; pid = 0 })

-- `backoff *= 2`, at most the maximum
unfoldable pub doubled : ℕ → ℕ
doubled backoff = if ltb 30 (backoff * 2) then 30 else backoff * 2

-- PrepareStart up to its wait
unfoldable pub call_prepare_start : String → System → System
unfolding close_stop
call_prepare_start config_path y = record y {
  supervisor = close_stop y.supervisor;
  caller = preparing config_path (is_stoppable y.supervisor);
}

-- PrepareStart after its wait
unfoldable pub prepare_started : (now : Time) (pid : ℕ) (config_path : String) → System → System
unfolding started with_channels
prepare_started now pid config_path y = record y {
  supervisor = started now pid (with_channels config_path y.supervisor);
  goroutine = waiting 1;
  alive = true;
  caller = idle;
}

unfoldable pub prepare_failed : (config_path : String) → System → System
unfolding start_failed with_channels
prepare_failed config_path y = record y {
  supervisor = start_failed (with_channels config_path y.supervisor);
  caller = idle;
}

-- Stop up to its wait
unfoldable pub call_stop : System → System
unfolding close_stop
call_stop y = record y { supervisor = close_stop y.supervisor; caller = stopping }

-- supervise, where it sees that stopCh is closed; gracefulStop ends the process
unfoldable pub see_stop : (now : Time) → System → System
unfolding stopped_state
see_stop now y = record y {
  supervisor = stopped_state now y.supervisor;
  goroutine = ended;
  alive = false;
}

unfoldable pub see_stop_in_backoff : (now : Time) → System → System
unfolding stopped_in_backoff
see_stop_in_backoff now y = record y {
  supervisor = stopped_in_backoff now y.supervisor;
  goroutine = ended;
}

unfoldable pub see_crash : (now : Time) (message : String) (backoff : ℕ) → System → System
unfolding crashed_state
see_crash now message backoff y = record y {
  supervisor = crashed_state now message y.supervisor;
  goroutine = backing_off backoff;
}

unfoldable pub restart : (now : Time) (pid backoff : ℕ) → System → System
unfolding started record_event doubled
restart now pid backoff y = record y {
  supervisor =
      record_event now "process_restarted" "restarted" "xray process restarted"
        (started now pid y.supervisor);
  goroutine = waiting (doubled backoff);
  alive = true;
}

unfoldable pub restart_failed : System → System
unfolding start_failed
restart_failed y = record y {
  supervisor = record (start_failed y.supervisor) { done = closed };
  goroutine = ended;
}
