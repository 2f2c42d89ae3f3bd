-- ===== src/Supervisor/Ending.antt =====
-- How the supervisor ends: what it restarts after, and that it comes to a final state.
use run_on_mine.Prelude.{
  ℕ, ◌≡◌, refl, sym, ap, subst, Bool, true, false, not, ◌&&◌, Option, none, some, List, [], ◌∷◌,
  if-elim, if◌then◌else◌,
}
use run_on_mine.Supervisor.Restart.{
  CleanupState, not_required, orphan_risk, ProcessState, starting, stopped, failed, RestartPolicy,
  saturating_succ, permits_restart, ChildOutcome, child_stopped, child_exited, child_unhealthy,
  update_restart_count, decide_exit_outcome, decide_unhealthy_outcome, decide_child_outcome,
}
use run_on_mine.Supervisor.Process.{monitor_child}
use run_on_mine.Supervisor.Run.{
  Round, spawn_failure, wait_backoff, after_decision, after_child, after_spawn, run_supervisor,
}

abbrev pub cleanup_of : ChildOutcome → CleanupState
cleanup_of (child_stopped state) = state
cleanup_of (child_exited success failure stable state) = state
cleanup_of (child_unhealthy stable state) = state

abbrev pub is_stable : ChildOutcome → Bool
is_stable (child_stopped state) = false
is_stable (child_exited success failure stable state) = stable
is_stable (child_unhealthy stable state) = stable

passed :
    (b : Bool) (terminal : ProcessState) (n : ℕ) (rest : Option ProcessState × ℕ) (count : ℕ)
    → (if b then (some terminal, n) else rest) ≡ (none, count)
    → (b ≡ false) × (rest ≡ (none, count))
passed true terminal n rest count h = cc
passed false terminal n rest count h = (refl, h)

permitted :
    (b : Bool) (n : ℕ) (terminal : ProcessState) (count : ℕ)
    → ◌≡◌ {A = Option ProcessState × ℕ} (if b then (none, n) else (some terminal, n)) (none, count)
    → (b ≡ true) × (n ≡ count)
permitted true n terminal count h = (refl, ap (λ o. o.1) h)
permitted false n terminal count h = cc

-- The supervisor goes on to another process only if the last one's cleanup left no orphan risk and
-- the new count of restarts is within the policy; the count is one more, or one after a stable run.
pub decide_child_outcome-continues :
    (outcome : ChildOutcome) (policy : RestartPolicy) (restarts count : ℕ)
    → decide_child_outcome outcome policy restarts ≡ (none, count)
    → (orphan_risk (cleanup_of outcome) ≡ false)
      × (permits_restart policy count ≡ true)
      × (count ≡ saturating_succ (if is_stable outcome then 0 else restarts))
unfolding decide_exit_outcome decide_unhealthy_outcome update_restart_count
decide_child_outcome-continues (child_stopped state) policy restarts count h = cc
decide_child_outcome-continues (child_exited success failure stable state) policy restarts count h =
    let count_next = update_restart_count stable restarts in
    let (safe, rest) = passed (orphan_risk state) _ restarts _ count h in
    let (_, last) =
      passed (success && not policy.restart_on_clean_exit) (stopped state) restarts _ count rest in
    let (allowed, same) = permitted (permits_restart policy count_next) count_next _ count last in
    (safe, subst (λ n. permits_restart policy n ≡ true) same allowed, sym same)
decide_child_outcome-continues (child_unhealthy stable state) policy restarts count h =
    let count_next = update_restart_count stable restarts in
    let (safe, last) = passed (orphan_risk state) _ restarts _ count h in
    let (allowed, same) = permitted (permits_restart policy count_next) count_next _ count last in
    (safe, subst (λ n. permits_restart policy n ≡ true) same allowed, sym same)

abbrev pub is_terminal : ProcessState → Bool
is_terminal (stopped state) = true
is_terminal (failed failure state) = true
is_terminal _ = false

abbrev pub is_starting : ProcessState → Bool
is_starting (starting attempt) = true
is_starting _ = false

-- Nothing is published after a terminal state.
abbrev pub TerminalLast : List ProcessState → Type 0
TerminalLast [] = Unit
TerminalLast (s ∷ rest) = (is_terminal s ≡ true → rest ≡ []) × TerminalLast rest

-- The last published state is a terminal one.
abbrev pub Ended : List ProcessState → Type 0
Ended [] = ⊥
Ended (s ∷ []) = is_terminal s ≡ true
Ended (s ∷ t ∷ rest) = Ended (t ∷ rest)

pub Ended-cons : (s : ProcessState) (states : List ProcessState) → Ended states → Ended (s ∷ states)
Ended-cons s [] h = absurd h
Ended-cons s (t ∷ rest) h = h

wait_backoff-TerminalLast :
    (policy : RestartPolicy) (restarts : ℕ) (round : Round) (next : List ProcessState)
    → TerminalLast next
    → TerminalLast (wait_backoff policy restarts round next)
wait_backoff-TerminalLast policy restarts round next h = (
  λ impossible. cc,
  if-elim TerminalLast round.stopped_in_backoff (stopped not_required ∷ []) next
      (λ _. (λ _. refl, tt)) (λ _. h),
)

after_decision-TerminalLast :
    (policy : RestartPolicy) (round : Round) (next : ℕ → List ProcessState)
    (decision : Option ProcessState × ℕ)
    → ((count : ℕ) → TerminalLast (next count))
    → TerminalLast (after_decision policy round next decision)
after_decision-TerminalLast policy round next (some terminal, restarts) h = (λ _. refl, tt)
after_decision-TerminalLast policy round next (none, restarts) h =
    wait_backoff-TerminalLast policy restarts round (next restarts) (h restarts)

after_child-TerminalLast :
    (policy : RestartPolicy) (round : Round) (restarts : ℕ) (next : ℕ → List ProcessState)
    (outcome : Option ChildOutcome)
    → ((count : ℕ) → TerminalLast (next count))
    → TerminalLast (after_child policy round restarts next outcome)
after_child-TerminalLast policy round restarts next none h = tt
after_child-TerminalLast policy round restarts next (some outcome) h =
    after_decision-TerminalLast policy round next (decide_child_outcome outcome policy restarts) h

after_spawn-TerminalLast :
    (policy : RestartPolicy) (round : Round) (attempt restarts : ℕ) (next : ℕ → List ProcessState)
    (spawned : Option (Option ℕ))
    → ((count : ℕ) → TerminalLast (next count))
    → TerminalLast (after_spawn policy round attempt restarts next spawned)
after_spawn-TerminalLast policy round attempt restarts next none h =
    if-elim TerminalLast (permits_restart policy (saturating_succ restarts))
      (wait_backoff policy (saturating_succ restarts) round (next (saturating_succ restarts)))
      (spawn_failure ∷ [])
      (λ _.
        wait_backoff-TerminalLast policy (saturating_succ restarts) round
          (next (saturating_succ restarts)) (h (saturating_succ restarts)))
      (λ _. (λ _. refl, tt))
after_spawn-TerminalLast policy round attempt restarts next (some pid) h = (
  λ impossible. cc,
  after_child-TerminalLast policy round restarts next (monitor_child policy false 0 round.events) h,
)

-- Whatever the rounds meet, the supervisor publishes nothing after a terminal state: a stopped or
-- failed supervisor starts no process again, and an orphan risk is its last word.
pub run_supervisor-TerminalLast :
    (policy : RestartPolicy) (attempt restarts : ℕ) (rounds : List Round)
    → TerminalLast (run_supervisor policy attempt restarts rounds)
unfolding run_supervisor
run_supervisor-TerminalLast policy attempt restarts [] = tt
run_supervisor-TerminalLast policy attempt restarts (round ∷ rounds) =
    let next = λ (count : ℕ). run_supervisor policy (saturating_succ attempt) count rounds in
    if-elim TerminalLast round.stop_requested (stopped not_required ∷ [])
      (starting attempt ∷ after_spawn policy round attempt restarts next round.spawned)
      (λ _. (λ _. refl, tt))
      (λ _. (
        λ impossible. cc,
        after_spawn-TerminalLast policy round attempt restarts next round.spawned
            (λ count. run_supervisor-TerminalLast policy (saturating_succ attempt) count rounds),
      ))
