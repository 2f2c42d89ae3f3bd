-- ===== src/Examples/SupervisorCases.antt =====
-- The supervisor on concrete rounds: tests, and a case for each theorem.
use run_on_mine.Prelude.{◌≤◌, ◌≡◌, refl, true, false, none, some, List, [], ◌∷◌, arith}
use run_on_mine.Supervisor.Restart.{
  CleanupState, not_required, orphan_risk, RestartPolicy, validate, delay_for_restart,
  permits_restart, saturating_succ, ChildOutcome, child_exited, decide_child_outcome,
  decide_exit_outcome, update_restart_count,
}
use run_on_mine.Supervisor.Process.{
  poll_running, Termination, terminate_child, event_exited, event_running, exit_failure,
}
use run_on_mine.Supervisor.Run.{Round, run_supervisor}
use run_on_mine.Supervisor.Backoff.{delay_for_restart-grows}
use run_on_mine.Supervisor.Ending.{
  decide_child_outcome-continues, TerminalLast, run_supervisor-TerminalLast,
}
use run_on_mine.Supervisor.Termination.{terminate_child-ends}

-- The default policy, with a bound of two restarts.
abbrev policy : RestartPolicy
policy = record {
  restart_on_clean_exit = true;
  max_restarts = some 2;
  initial_backoff = 1000000000;
  maximum_backoff = 60000000000;
  backoff_multiplier = 2;
  startup_grace = 3000000000;
  health_interval = 5000000000;
  unhealthy_threshold = 3;
  shutdown_timeout = 10000000000;
}

policy_valid : validate policy ≡ true
unfolding validate
policy_valid = refl

third_delay : delay_for_restart policy 3 ≡ 4000000000
unfolding delay_for_restart
third_delay = refl

delay_for_restart-grows_example :
    (1000000000 ≤ delay_for_restart policy 3)
    × (delay_for_restart policy 3 ≤ delay_for_restart policy 50)
    × (delay_for_restart policy 50 ≤ 60000000000)
delay_for_restart-grows_example =
    delay_for_restart-grows policy policy_valid (omega arith) 3 50 (omega arith)

abbrev crash : ChildOutcome
crash = child_exited false (exit_failure false) false not_required

restarted : decide_child_outcome crash policy 0 ≡ (none, 1)
unfolding decide_exit_outcome update_restart_count permits_restart
restarted = refl

decide_child_outcome-continues_example :
    (orphan_risk not_required ≡ false) × (permits_restart policy 1 ≡ true) × (1 ≡ saturating_succ 0)
decide_child_outcome-continues_example = decide_child_outcome-continues crash policy 0 1 restarted

-- A process that exits with an error, and a round in which none can be started.
abbrev crashing : Round
crashing = record {
  stop_requested = false;
  spawned = some (some 42);
  events = event_running ∷ event_exited false false ∷ [];
  stopped_in_backoff = false;
}

abbrev unspawned : Round
unspawned = record crashing { spawned = none; events = [] }

abbrev rounds : List Round
rounds = crashing ∷ unspawned ∷ crashing ∷ []

run_supervisor-TerminalLast_example : TerminalLast (run_supervisor policy 1 0 rounds)
run_supervisor-TerminalLast_example = run_supervisor-TerminalLast policy 1 0 rounds

abbrev termination : Termination
termination = record {
  kill_sent = true;
  killed_at = 0;
  polls = poll_running 0 ∷ poll_running 25000000 ∷ poll_running 50000000 ∷ [];
}

terminate_child-ends_example :
    (state : CleanupState) × (terminate_child termination 40000000 ≡ some state)
terminate_child-ends_example =
    terminate_child-ends termination 40000000 (omega arith, (omega arith, (omega arith, tt)))
      (omega arith)
