-- ===== src/Supervisor/Restart.antt =====
-- The restart policy and the decisions after a process ends: supervisor.rs. A `Duration` is a number
-- of nanoseconds and a `u32` a number below 2 ^ 32; what saturates is cut off at its greatest value.
use run_on_mine.Prelude.{
  ℕ, ◌+◌, ◌-◌, ◌*◌, ◌^◌, String, Bool, true, false, not, ◌&&◌, ◌||◌, Option, none, some, min, leb,
  ltb, if◌then◌else◌,
}
use run_on_mine.Prelude.Eq.{◌==◌, nat_eq}

pub data SupervisorFailureCategory : Type 0 where
  spawn process_exit process_status readiness shutdown cleanup : SupervisorFailureCategory

pub record SupervisorFailure : Type 0 where
  pub category : SupervisorFailureCategory
  pub retryable : Bool
  pub detail : String

-- `uncertain` carries the orphan risk.
pub data CleanupState : Type 0 where
  not_required complete : CleanupState
  uncertain : Bool → CleanupState

abbrev pub orphan_risk : CleanupState → Bool
orphan_risk (uncertain risk) = risk
orphan_risk _ = false

pub data ProcessState : Type 0 where
  starting : ℕ → ProcessState
  running : Option ℕ → ℕ → ProcessState
  backoff : ℕ → ℕ → ProcessState
  stopped : CleanupState → ProcessState
  failed : SupervisorFailure → CleanupState → ProcessState

pub record RestartPolicy : Type 0 where
  pub restart_on_clean_exit : Bool
  pub max_restarts : Option ℕ
  pub initial_backoff : ℕ
  pub maximum_backoff : ℕ
  pub backoff_multiplier : ℕ
  pub startup_grace : ℕ
  pub health_interval : ℕ
  pub unhealthy_threshold : ℕ
  pub shutdown_timeout : ℕ

abbrev pub u32_max : ℕ
u32_max = 4294967295

abbrev pub u64_max : ℕ
u64_max = 18446744073709551615

-- `Duration::MAX`: all of a `u64` of seconds, and 999,999,999 nanoseconds
abbrev pub duration_max : ℕ
duration_max = 18446744073709551615999999999

unfoldable pub validate : RestartPolicy → Bool
validate policy = not (
    policy.initial_backoff == 0
    || ltb policy.maximum_backoff policy.initial_backoff
    || ltb policy.backoff_multiplier 1
    || policy.health_interval == 0
    || ltb policy.unhealthy_threshold 1
    || policy.shutdown_timeout == 0)

abbrev pub saturating_succ : ℕ → ℕ
saturating_succ n = min (n + 1) u32_max

unfoldable pub delay_for_restart : RestartPolicy → ℕ → ℕ
delay_for_restart policy restart =
    let exponent = min (restart - 1) 31 in
    let factor = min (policy.backoff_multiplier ^ exponent) u32_max in
    min (min (policy.initial_backoff * factor) duration_max) policy.maximum_backoff

abbrev pub permits : Option ℕ → ℕ → Bool
permits none restarts = true
permits (some maximum) restarts = leb restarts maximum

unfoldable pub permits_restart : RestartPolicy → ℕ → Bool
permits_restart policy restarts = permits policy.max_restarts restarts

pub data ChildOutcome : Type 0 where
  child_stopped : CleanupState → ChildOutcome
  -- success, failure, stable, cleanup
  child_exited : Bool → Option SupervisorFailure → Bool → CleanupState → ChildOutcome
  -- stable, cleanup
  child_unhealthy : Bool → CleanupState → ChildOutcome

unfoldable pub update_restart_count : Bool → ℕ → ℕ
update_restart_count stable restarts = saturating_succ (if stable then 0 else restarts)

abbrev pub cleanup_failure : CleanupState → String → ProcessState
cleanup_failure state detail =
    failed (record { category = cleanup; retryable = false; detail = detail }) state

abbrev pub failure_or : Option SupervisorFailure → SupervisorFailure → SupervisorFailure
failure_or none otherwise = otherwise
failure_or (some failure) otherwise = failure

-- The state that ends the supervisor, if there is one, and the new count of restarts.
unfoldable pub decide_exit_outcome :
    Bool
    → Option SupervisorFailure
    → Bool
    → CleanupState
    → RestartPolicy
    → ℕ
    → Option ProcessState × ℕ
unfolding update_restart_count permits_restart
decide_exit_outcome success failure stable state policy restarts =
    if orphan_risk state
    then (
      some (cleanup_failure state "connector cleanup could not prove process-group termination"),
      restarts,
    )
    else if success && not policy.restart_on_clean_exit
    then (some (stopped state), restarts)
    else if permits_restart policy (update_restart_count stable restarts)
    then (none, update_restart_count stable restarts)
    else (
      some (
          failed
            (failure_or failure (record {
              category = process_exit;
              retryable = false;
              detail = "connector process exited";
            }))
            state),
      update_restart_count stable restarts,
    )

unfoldable pub decide_unhealthy_outcome :
    Bool → CleanupState → RestartPolicy → ℕ → Option ProcessState × ℕ
unfolding update_restart_count permits_restart
decide_unhealthy_outcome stable state policy restarts =
    if orphan_risk state
    then (
      some (cleanup_failure state "unhealthy connector cleanup left uncertain orphan risk"),
      restarts,
    )
    else if permits_restart policy (update_restart_count stable restarts)
    then (none, update_restart_count stable restarts)
    else (
      some (
          failed
            (record {
              category = readiness;
              retryable = false;
              detail = "connector failed its readiness check";
            })
            state),
      update_restart_count stable restarts,
    )

abbrev pub decide_child_outcome : ChildOutcome → RestartPolicy → ℕ → Option ProcessState × ℕ
decide_child_outcome (child_stopped state) policy restarts = (some (stopped state), restarts)
decide_child_outcome (child_exited success failure stable state) policy restarts =
    decide_exit_outcome success failure stable state policy restarts
decide_child_outcome (child_unhealthy stable state) policy restarts =
    decide_unhealthy_outcome stable state policy restarts
