-- ===== src/Agent/Supervisor/Waiting.antt =====
-- Whether the waits of PrepareStart and Stop end.
use lenker_panel.Base.{
  ◌≡◌, ◌≢◌, ◌⊎◌, inl, inr, refl, sym, ap, ◌∙◌, String, Bool, true, false, arith,
}
use mathlib.Core.Path.{subst}
use lenker_panel.Agent.Supervisor.{
  opened, closed, Goroutine, ended, waiting, backing_off, Caller, idle, preparing, stopping, System,
  XraySupervisor, close_stop, start_failed, with_channels, call_prepare_start, prepare_failed,
  see_stop, see_stop_in_backoff, stopped_in_backoff, stopped_state, record_event,
}
use lenker_panel.Agent.Supervisor.Steps.{
  IsDone, Step, prepare_called, stop_called, start_succeeds, start_fails, stop_returns, stop_seen,
  stop_seen_in_backoff, process_ends, crash_seen, restarts, restart_fails, Reach, here, next, begin,
}
use lenker_panel.Agent.Supervisor.Invariant.{Matches, Serves, Reach-IsConsistent}

-- the caller waits for `done`
abbrev pub Waits : Caller → Type 0
Waits c = (c ≡ stopping) ⊎ ((path : String) × (c ≡ preparing path true))

told :
    (c : Caller) (g : Goroutine) (s : XraySupervisor)
    → Waits c
    → g ≢ ended
    → Serves c g s
    → s.stop_ch ≡ closed
told c ended s w running h = absurd (running refl)
told c (waiting b) s (inl e) running h = subst (λ t. Serves t (waiting b) s) e h
told c (waiting b) s (inr (path, e)) running h = subst (λ t. Serves t (waiting b) s) e h
told c (backing_off b) s (inl e) running h = subst (λ t. Serves t (backing_off b) s) e h
told c (backing_off b) s (inr (path, e)) running h = subst (λ t. Serves t (backing_off b) s) e h

closed_ne : closed ≢ opened
closed_ne = λ e. ground arith

stop-Step :
    (g : Goroutine) (y : System)
    → y.goroutine ≡ g
    → g ≢ ended
    → y.supervisor.stop_ch ≡ closed
    → Matches g y.supervisor y.alive
    → (z : System) × Step y z
      × (z.goroutine ≡ ended)
      × (z.supervisor.state ≡ "stopped")
      × (z.alive ≡ false)
      × IsDone z
unfolding see_stop stopped_state see_stop_in_backoff stopped_in_backoff record_event
stop-Step ended y e running c m = absurd (running refl)
stop-Step (waiting b) y e running c m = (_, stop_seen 0 b e c, refl, refl, refl, closed_ne)
stop-Step (backing_off b) y e running c m =
    (_, stop_seen_in_backoff 0 b e c, refl, refl, m.1, closed_ne)

-- While Stop or PrepareStart waits for a goroutine that runs, its stop channel is closed, and there is
-- a step after which it has ended, the supervisor is stopped, no process runs and the wait is over. So
-- it is in every state that a new supervisor reaches.
pub wait_ends :
    {y : System}
    → Reach begin y
    → Waits y.caller
    → y.goroutine ≢ ended
    → (y.supervisor.stop_ch ≡ closed)
      × ((z : System) × Step y z
          × (z.goroutine ≡ ended)
          × (z.supervisor.state ≡ "stopped")
          × (z.alive ≡ false)
          × IsDone z)
wait_ends {y} r w running =
    let h = Reach-IsConsistent r in
    let closing = told y.caller y.goroutine y.supervisor w running h.serves in
    (closing, stop-Step y.goroutine y refl running closing h.matches)

-- PrepareStart waits for a goroutine that is not there
abbrev pub IsStuck : String → System → Type 0
IsStuck path y =
    (y.caller ≡ preparing path true) × (y.goroutine ≡ ended) × (y.supervisor.done ≡ opened)

unfoldable waits_of : Caller → Bool
waits_of idle = false
waits_of (preparing path waits) = waits
waits_of stopping = false

stays :
    (path p : String) (waits : Bool) (y : System)
    → IsStuck path y
    → y.caller ≡ preparing p waits
    → ¬ ((waits ≡ false) ⊎ IsDone y)
unfolding waits_of
stays path p waits y h e (inl f) =
    let waits_both = sym (ap waits_of h.0) ∙ ap waits_of e ∙ f in ground (arith, waits_both)
stays path p waits y h e (inr d) = d h.2

Step-IsStuck : {y z : System} (path : String) → Step y z → IsStuck path y → IsStuck path z
Step-IsStuck path (prepare_called p e) h = cc
Step-IsStuck path (stop_called e) h = cc
Step-IsStuck {y} path (start_succeeds now pid p waits q e d) h = absurd (stays path p waits y h e d)
Step-IsStuck {y} path (start_fails p waits e d) h = absurd (stays path p waits y h e d)
Step-IsStuck path (stop_returns e d) h = cc
Step-IsStuck path (stop_seen now b e c) h = cc
Step-IsStuck path (stop_seen_in_backoff now b e c) h = cc
Step-IsStuck path (process_ends e) h = h
Step-IsStuck path (crash_seen now m b e a c) h = cc
Step-IsStuck path (restarts now pid b p e) h = cc
Step-IsStuck path (restart_fails b e) h = cc

Reach-IsStuck : {y z : System} (path : String) → Reach y z → IsStuck path y → IsStuck path z
Reach-IsStuck path here h = h
Reach-IsStuck path (next r s) h = Step-IsStuck path s (Reach-IsStuck path r h)

-- After a PrepareStart whose process did not start, with no goroutine beside it, the next PrepareStart
-- never returns: whatever the threads do, it waits for ever for a channel that nobody closes.
pub failed_start_blocks :
    (y : System) {z : System} (path path' : String)
    → y.goroutine ≡ ended
    → Reach (call_prepare_start path' (prepare_failed path y)) z
    → (z.caller ≡ preparing path' true) × (z.supervisor.done ≡ opened)
unfolding call_prepare_start prepare_failed start_failed with_channels close_stop
failed_start_blocks y path path' e r =
    let stuck = Reach-IsStuck path' r (refl, e, refl) in (stuck.0, stuck.2)
