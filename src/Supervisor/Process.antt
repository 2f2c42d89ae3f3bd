-- ===== src/Supervisor/Process.antt =====
-- One process under supervision: `terminate_child` and `monitor_child` of supervisor.rs. What the
-- operating system and the timers answer is a list, in the order in which the select yields it.
use run_on_mine.Prelude.{
  ℕ, ◌+◌, Bool, true, false, ◌||◌, Option, none, some, List, [], ◌∷◌, leb, if◌then◌else◌,
}
use run_on_mine.Supervisor.Restart.{
  SupervisorFailure, process_exit, process_status, CleanupState, not_required, complete, uncertain,
  RestartPolicy, saturating_succ, ChildOutcome, child_stopped, child_exited, child_unhealthy,
}

-- An answer of `try_wait` after the kill; a process that runs on carries the clock read next.
pub data Poll : Type 0 where
  poll_exited poll_error : Poll
  poll_running : ℕ → Poll

-- The polls of `terminate_child` until its deadline; `none` while they have not ended it.
unfoldable pub await_exit : ℕ → List Poll → Option CleanupState
await_exit deadline [] = none
await_exit deadline (poll_exited ∷ polls) = some complete
await_exit deadline (poll_error ∷ polls) = some (uncertain true)
await_exit deadline (poll_running now ∷ polls) =
    if leb deadline now then some (uncertain true) else await_exit deadline polls

-- Whether the kill was sent, the clock then, and the polls after it.
pub record Termination : Type 0 where
  pub kill_sent : Bool
  pub killed_at : ℕ
  pub polls : List Poll

unfoldable pub terminate_child : Termination → ℕ → Option CleanupState
unfolding await_exit
terminate_child termination timeout =
    if termination.kill_sent
    then await_exit (termination.killed_at + timeout) termination.polls
    else some (uncertain true)

-- What the select of `monitor_child` yields. `long_enough` is `elapsed() >= STABLE_RUNTIME`; an
-- event that may end the process carries the termination that would follow.
pub data ChildEvent : Type 0 where
  event_exited : (success long_enough : Bool) → ChildEvent
  event_running : ChildEvent
  event_status_error : (long_enough : Bool) → Termination → ChildEvent
  -- whether the channel is closed or says stop
  event_stop_changed : Bool → Termination → ChildEvent
  event_health : (healthy long_enough : Bool) → Termination → ChildEvent

abbrev pub exit_failure : Bool → Option SupervisorFailure
exit_failure true = none
exit_failure false = some (record {
  category = process_exit;
  retryable = true;
  detail = "connector process exited with an error";
})

abbrev pub status_failure : SupervisorFailure
status_failure = record {
  category = process_status;
  retryable = true;
  detail = "connector process status could not be read";
}

abbrev pub after_cleanup : (CleanupState → ChildOutcome) → Option CleanupState → Option ChildOutcome
after_cleanup outcome none = none
after_cleanup outcome (some state) = some (outcome state)

-- `none` while the process is still being watched, or its termination awaited.
unfoldable pub monitor_child :
    RestartPolicy
    → (healthy_once : Bool) → (failed_health_checks : ℕ) → List ChildEvent
    → Option ChildOutcome
unfolding terminate_child
monitor_child policy healthy_once failures [] = none
monitor_child policy healthy_once failures (event_exited success long_enough ∷ events) =
    some (child_exited success (exit_failure success) (healthy_once || long_enough) not_required)
monitor_child policy healthy_once failures (event_running ∷ events) =
    monitor_child policy healthy_once failures events
monitor_child policy healthy_once failures (event_status_error long_enough termination ∷ events) =
    after_cleanup (child_exited false (some status_failure) (healthy_once || long_enough))
      (terminate_child termination policy.shutdown_timeout)
monitor_child policy healthy_once failures (event_stop_changed stop termination ∷ events) =
    let rest = monitor_child policy healthy_once failures events in
    if stop
    then after_cleanup child_stopped (terminate_child termination policy.shutdown_timeout)
    else rest
monitor_child policy healthy_once failures (event_health true long_enough termination ∷ events) =
    monitor_child policy true 0 events
monitor_child policy healthy_once failures (event_health false long_enough termination ∷ events) =
    let rest = monitor_child policy healthy_once (saturating_succ failures) events in
    if leb policy.unhealthy_threshold (saturating_succ failures)
    then after_cleanup (child_unhealthy (healthy_once || long_enough))
        (terminate_child termination policy.shutdown_timeout)
    else rest
