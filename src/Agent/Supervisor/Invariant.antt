-- ===== src/Agent/Supervisor/Invariant.antt =====
-- What holds of the supervisor in every state that its threads can reach.
use lenker_panel.Base.{
  ◌≡◌, ◌≢◌, ◌⊎◌, Bool-cases, inl, inr, refl, ◌∙◌, str_eq, eq_iff, ℕ, ◌<◌, ◌≤◌, String, Bool, true,
  false, Time, length, arith, [], ◌∷◌, ◌++◌, pos,
}
use mathlib.Core.Path.{subst}
use lenker_panel.Agent.Applying.{event}
use lenker_panel.Agent.Service.Trail.{limited-length}
use lenker_panel.Agent.Supervisor.{
  opened, closed, XraySupervisor, Goroutine, ended, waiting, backing_off, Caller, idle, preparing,
  stopping, System, new_xray_supervisor, is_stoppable, close_stop, started, start_failed,
  with_channels, stopped_state, crashed_state, record_event, doubled, call_prepare_start,
  prepare_started, prepare_failed, call_stop, see_stop, see_stop_in_backoff, stopped_in_backoff,
  see_crash, restart, restart_failed,
}
use lenker_panel.Agent.Supervisor.Steps.{
  IsDone, Step, prepare_called, stop_called, start_succeeds, start_fails, stop_returns, stop_seen,
  stop_seen_in_backoff, process_ends, crash_seen, restarts, restart_fails, Reach, here, next, begin,
}

-- What the goroutine does, against what the supervisor says. Where it runs, `done` is open, and a
-- process can only run while it waits; then the state is running, with a pid. Otherwise there is no
-- pid. The backoff is from 1 to 30 seconds.
abbrev pub Matches : Goroutine → XraySupervisor → Bool → Type 0
Matches ended s alive = (alive ≡ false) × (s.pid ≡ 0) × (s.state ≢ "running")
Matches (waiting b) s alive =
    (s.done ≡ opened) × (s.state ≡ "running") × (0 < s.pid) × (0 < b) × (b ≤ 30)
Matches (backing_off b) s alive =
    (s.done ≡ opened)
    × (alive ≡ false)
    × (s.state ≡ "restarting")
    × (s.pid ≡ 0)
    × (0 < b)
    × (b ≤ 30)

abbrev Running : Goroutine → Type 0 → Type 0
Running ended P = Unit
Running (waiting b) P = P
Running (backing_off b) P = P

-- Where nobody has called, a goroutine that runs has not been told to stop; a caller that does not wait
-- has no goroutine beside it; one that waits has told it to stop.
abbrev pub Serves : Caller → Goroutine → XraySupervisor → Type 0
Serves idle g s = Running g ((s.stop_ch ≡ opened) × (s.stopped ≡ false))
Serves (preparing path true) g s = s.stop_ch ≡ closed
Serves (preparing path false) g s = g ≡ ended
Serves stopping g s = Running g (s.stop_ch ≡ closed)

pub record IsConsistent (y : System) : Type 0 where
  pub matches : Matches y.goroutine y.supervisor y.alive
  pub serves : Serves y.caller y.goroutine y.supervisor
  pub few_events : length y.supervisor.events ≤ 20

close_stop-Matches :
    (g : Goroutine) (s : XraySupervisor) (alive : Bool)
    → Matches g s alive
    → Matches g (close_stop s) alive
unfolding close_stop
close_stop-Matches g s alive h = elim (Bool-cases (is_stoppable s)) [
  | inl e ↦ rw e (kept g h)
  | inr e ↦ rw e h
]
  where
    kept :
        (g : Goroutine)
        → Matches g s alive
        → Matches g (record s { stopped = true; stop_ch = closed }) alive
    kept ended h = h
    kept (waiting b) h = h
    kept (backing_off b) h = h

close_stop-events : (s : XraySupervisor) → (close_stop s).events ≡ s.events
unfolding close_stop
close_stop-events s = ground arith

stoppable : (s : XraySupervisor) → s.stop_ch ≡ opened → s.stopped ≡ false → is_stoppable s ≡ true
stoppable s e f = rw (e, f) refl

closed_by : (s : XraySupervisor) → is_stoppable s ≡ true → (close_stop s).stop_ch ≡ closed
unfolding close_stop
closed_by s e = rw e refl

prepare-Serves :
    (path : String) (g : Goroutine) (s : XraySupervisor)
    → Serves idle g s
    → Serves (preparing path (is_stoppable s)) g (close_stop s)
prepare-Serves path ended s h = elim (Bool-cases (is_stoppable s)) [
  | inl e ↦ rw e (closed_by s e)
  | inr e ↦ rw e refl
]
prepare-Serves path (waiting b) s h = let e = stoppable s h.0 h.1 in rw e (closed_by s e)
prepare-Serves path (backing_off b) s h = let e = stoppable s h.0 h.1 in rw e (closed_by s e)

stop-Serves :
    (g : Goroutine) (s : XraySupervisor) → Serves idle g s → Serves stopping g (close_stop s)
stop-Serves ended s h = tt
stop-Serves (waiting b) s h = closed_by s (stoppable s h.0 h.1)
stop-Serves (backing_off b) s h = closed_by s (stoppable s h.0 h.1)

-- where `done` is not open, the goroutine has ended
done-ended :
    (g : Goroutine) (s : XraySupervisor) (alive : Bool)
    → Matches g s alive
    → s.done ≢ opened
    → g ≡ ended
done-ended ended s alive h d = refl
done-ended (waiting b) s alive h d = absurd (d h.0)
done-ended (backing_off b) s alive h d = absurd (d h.0)

alone :
    (path : String) (waits : Bool) (y : System)
    → IsConsistent y
    → y.caller ≡ preparing path waits
    → (waits ≡ false) ⊎ IsDone y
    → y.goroutine ≡ ended
alone path false y h e d = subst (λ c. Serves c y.goroutine y.supervisor) e h.serves
alone path true y h e (inl d) = cc
alone path true y h e (inr d) = done-ended y.goroutine y.supervisor y.alive h.matches d

doubled-bounds : (b : ℕ) → 0 < b → (0 < doubled b) × (doubled b ≤ 30)
unfolding doubled
doubled-bounds b h = ground arith

-- what is known where the goroutine is this one
at_goroutine :
    (g : Goroutine) (y : System)
    → IsConsistent y
    → y.goroutine ≡ g
    → Matches g y.supervisor y.alive × Serves y.caller g y.supervisor
at_goroutine g y h e =
    subst (λ x. Matches x y.supervisor y.alive × Serves y.caller x y.supervisor) e
      (h.matches, h.serves)

text_ne : (a b : String) → str_eq a b ≡ false → a ≢ b
text_ne a b h = λ e. ground (arith, (eq_iff a b).1 e)

ended-Serves :
    (c : Caller) (g : Goroutine) (s s' : XraySupervisor)
    → Serves c g s
    → s'.stop_ch ≡ s.stop_ch
    → Serves c ended s'
ended-Serves idle g s s' h e = tt
ended-Serves (preparing path true) g s s' h e = e ∙ h
ended-Serves (preparing path false) g s s' h e = refl
ended-Serves stopping g s s' h e = tt

crashed-Serves :
    (c : Caller) (b : ℕ) (s s' : XraySupervisor)
    → Serves c (waiting b) s
    → s'.stop_ch ≡ s.stop_ch
    → s'.stopped ≡ s.stopped
    → Serves c (backing_off b) s'
crashed-Serves idle b s s' h e f = (e ∙ h.0, f ∙ h.1)
crashed-Serves (preparing path true) b s s' h e f = e ∙ h
crashed-Serves (preparing path false) b s s' h e f = cc
crashed-Serves stopping b s s' h e f = e ∙ h

restarted-Serves :
    (c : Caller) (b b' : ℕ) (s s' : XraySupervisor)
    → Serves c (backing_off b) s
    → s'.stop_ch ≡ s.stop_ch
    → s'.stopped ≡ s.stopped
    → Serves c (waiting b') s'
restarted-Serves idle b b' s s' h e f = (e ∙ h.0, f ∙ h.1)
restarted-Serves (preparing path true) b b' s s' h e f = e ∙ h
restarted-Serves (preparing path false) b b' s s' h e f = cc
restarted-Serves stopping b b' s s' h e f = e ∙ h

dead-Matches :
    (g : Goroutine) (s : XraySupervisor) (alive : Bool) → Matches g s alive → Matches g s false
dead-Matches ended s alive h = (refl, h.1, h.2)
dead-Matches (waiting b) s alive h = h
dead-Matches (backing_off b) s alive h = (h.0, refl, h.2, h.3, h.4, h.5)

record_event-few :
    (now : Time) (type status message : String) (s : XraySupervisor)
    → length (record_event now type status message s).events ≤ 20
unfolding record_event
record_event-few now type status message s =
    limited-length (s.events ++ event type status (pos 0) message now ∷ [])

Step-IsConsistent : {y z : System} → Step y z → IsConsistent y → IsConsistent z
unfolding call_prepare_start call_stop prepare_started started record_event with_channels
    prepare_failed start_failed see_stop stopped_state see_stop_in_backoff stopped_in_backoff
    see_crash crashed_state restart restart_failed
Step-IsConsistent {y} (prepare_called path e) h = record {
  matches = close_stop-Matches y.goroutine y.supervisor y.alive h.matches;
  serves =
      prepare-Serves path y.goroutine y.supervisor
        (subst (λ c. Serves c y.goroutine y.supervisor) e h.serves);
  few_events = rw (close_stop-events y.supervisor) h.few_events;
}
Step-IsConsistent {y} (stop_called e) h = record {
  matches = close_stop-Matches y.goroutine y.supervisor y.alive h.matches;
  serves =
      stop-Serves y.goroutine y.supervisor
        (subst (λ c. Serves c y.goroutine y.supervisor) e h.serves);
  few_events = rw (close_stop-events y.supervisor) h.few_events;
}
Step-IsConsistent {y} (start_succeeds now pid path waits p e d) h = record {
  matches = (refl, refl, p, omega arith, omega arith);
  serves = (refl, refl);
  few_events = record_event-few now "process_started" "started" "xray process started" y.supervisor;
}
Step-IsConsistent {y} (start_fails path waits e d) h =
    let g = alone path waits y h e d in
    let a = at_goroutine ended y h g in
    record {
      matches = rw g (a.0.0, refl, text_ne "failed" "running" refl);
      serves = rw g tt;
      few_events = h.few_events;
    }
Step-IsConsistent {y} (stop_returns e d) h = record {
  matches = h.matches;
  serves = rw (done-ended y.goroutine y.supervisor y.alive h.matches d) tt;
  few_events = h.few_events;
}
Step-IsConsistent {y} (stop_seen now b e c) h = record {
  matches = (refl, refl, text_ne "stopped" "running" refl);
  serves = ended-Serves y.caller y.goroutine y.supervisor _ h.serves refl;
  few_events = record_event-few now "process_stopped" "stopped" "xray process stopped" y.supervisor;
}
Step-IsConsistent {y} (stop_seen_in_backoff now b e c) h =
    let at = at_goroutine (backing_off b) y h e in
    record {
      matches = (at.0.1, at.0.3, text_ne "stopped" "running" refl);
      serves = ended-Serves y.caller y.goroutine y.supervisor _ h.serves refl;
      few_events =
          record_event-few now "process_stopped" "stopped" "xray process stopped during backoff"
            y.supervisor;
    }
Step-IsConsistent {y} (process_ends e) h = record {
  matches = dead-Matches y.goroutine y.supervisor y.alive h.matches;
  serves = h.serves;
  few_events = h.few_events;
}
Step-IsConsistent {y} (crash_seen now m b e a c) h =
    let at = at_goroutine (waiting b) y h e in
    record {
      matches = (at.0.0, a, refl, refl, at.0.3, at.0.4);
      serves = crashed-Serves y.caller b y.supervisor _ at.1 refl refl;
      few_events = record_event-few now "process_crashed" "crashed" m y.supervisor;
    }
Step-IsConsistent {y} (restarts now pid b p e) h =
    let at = at_goroutine (backing_off b) y h e in
    let bounds = doubled-bounds b at.0.4 in
    record {
      matches = (at.0.0, refl, p, bounds.0, bounds.1);
      serves = restarted-Serves y.caller b (doubled b) y.supervisor _ at.1 refl refl;
      few_events =
          record_event-few now "process_restarted" "restarted" "xray process restarted"
            (started now pid y.supervisor);
    }
Step-IsConsistent {y} (restart_fails b e) h =
    let at = at_goroutine (backing_off b) y h e in
    record {
      matches = (at.0.1, refl, text_ne "failed" "running" refl);
      serves = ended-Serves y.caller y.goroutine y.supervisor _ h.serves refl;
      few_events = h.few_events;
    }

begin-IsConsistent : IsConsistent begin
unfolding new_xray_supervisor
begin-IsConsistent = record {
  matches = (refl, refl, text_ne "stopped" "running" refl);
  serves = tt;
  few_events = omega arith;
}

-- In every state that the threads of a new supervisor reach, in whatever order they run: a process runs
-- only while the goroutine waits for it, and then the state is running with a positive pid; otherwise
-- there is no pid; the backoff stays from 1 to 30 seconds, and there are at most twenty events.
pub Reach-IsConsistent : {y : System} → Reach begin y → IsConsistent y
Reach-IsConsistent here = begin-IsConsistent
Reach-IsConsistent (next r s) = Step-IsConsistent s (Reach-IsConsistent r)
