-- ===== src/Supervisor/Run.antt =====
-- The loop of `run_supervisor` of supervisor.rs, over what each round of it meets, and the states
-- that it publishes.
use run_on_mine.Prelude.{ℕ, ◌/◌, Bool, false, Option, none, some, List, [], ◌∷◌, min, if◌then◌else◌}
use run_on_mine.Supervisor.Restart.{
  spawn, not_required, ProcessState, starting, running, backoff, stopped, failed, RestartPolicy,
  u64_max, saturating_succ, delay_for_restart, permits_restart, ChildOutcome, decide_child_outcome,
}
use run_on_mine.Supervisor.Process.{ChildEvent, monitor_child}

-- What one round meets: the stop flag at its head, the process that `spawn_grouped` gives (its
-- identifier may be missing) or `none` where it fails, what `monitor_child` sees, and whether the
-- stop channel ended the wait for the next round.
pub record Round : Type 0 where
  pub stop_requested : Bool
  pub spawned : Option (Option ℕ)
  pub events : List ChildEvent
  pub stopped_in_backoff : Bool

-- The milliseconds that `wait_backoff` publishes.
unfoldable pub delay_ms : RestartPolicy → ℕ → ℕ
unfolding delay_for_restart
delay_ms policy restarts = min (delay_for_restart policy restarts / 1000000) u64_max

abbrev pub spawn_failure : ProcessState
spawn_failure =
    failed
      (record {
        category = spawn;
        retryable = false;
        detail = "connector process could not be started";
      })
      not_required

-- The wait of `wait_backoff`, and what follows it unless it was stopped.
abbrev pub wait_backoff : RestartPolicy → ℕ → Round → List ProcessState → List ProcessState
wait_backoff policy restarts round next =
    backoff (saturating_succ restarts) (delay_ms policy restarts)
    ∷ (if round.stopped_in_backoff then stopped not_required ∷ [] else next)

abbrev pub after_decision :
    RestartPolicy → Round → (ℕ → List ProcessState) → Option ProcessState × ℕ → List ProcessState
after_decision policy round next (some terminal, restarts) = terminal ∷ []
after_decision policy round next (none, restarts) =
    wait_backoff policy restarts round (next restarts)

abbrev pub after_child :
    RestartPolicy → Round → ℕ → (ℕ → List ProcessState) → Option ChildOutcome → List ProcessState
after_child policy round restarts next none = []
after_child policy round restarts next (some outcome) =
    after_decision policy round next (decide_child_outcome outcome policy restarts)

abbrev pub after_spawn :
    RestartPolicy
    → Round
    → (attempt restarts : ℕ) → (ℕ → List ProcessState)
    → Option (Option ℕ)
    → List ProcessState
after_spawn policy round attempt restarts next none =
    if permits_restart policy (saturating_succ restarts)
    then wait_backoff policy (saturating_succ restarts) round (next (saturating_succ restarts))
    else spawn_failure ∷ []
after_spawn policy round attempt restarts next (some pid) =
    running pid attempt
    ∷ after_child policy round restarts next (monitor_child policy false 0 round.events)

-- The published states; a list of rounds that ends before the loop does leaves it waiting.
unfoldable pub run_supervisor :
    RestartPolicy → (attempt restarts : ℕ) → List Round → List ProcessState
run_supervisor policy attempt restarts [] = []
run_supervisor policy attempt restarts (round ∷ rounds) =
    let next = λ (count : ℕ). run_supervisor policy (saturating_succ attempt) count rounds in
    if round.stop_requested
    then stopped not_required ∷ []
    else starting attempt ∷ after_spawn policy round attempt restarts next round.spawned
