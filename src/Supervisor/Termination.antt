-- ===== src/Supervisor/Termination.antt =====
-- The loops of the supervisor end: the restarts under a bound, and the wait for a killed process.
use run_on_mine.Prelude.{
  ℕ, ◌+◌, ◌*◌, ◌≤◌, ◌<◌, ◌≡◌, ◌⊎◌, refl, true, false, Option, none, some, List, [], ◌∷◌, length,
  count_where, leb, arith, inl, inr, Bool-cases,
}
use run_on_mine.Supervisor.Restart.{
  CleanupState, complete, uncertain, ProcessState, RestartPolicy, ChildOutcome,
}
use run_on_mine.Supervisor.Process.{
  Poll, poll_exited, poll_error, poll_running, await_exit, Termination, terminate_child,
  monitor_child,
}
use run_on_mine.Supervisor.Run.{Round}
use run_on_mine.Supervisor.Ending.{is_stable, is_terminal, is_starting, Ended}

-- A decision that ends the supervisor publishes a terminal state.
unfoldable EndsTerminal : Option ProcessState × ℕ → Type 0
EndsTerminal (none, count) = Unit
EndsTerminal (some s, count) = is_terminal s ≡ true

-- The states come to an end, and the processes started are within the bound.
pub record Finishes (maximum restarts : ℕ) (states : List ProcessState) : Type 0 where
  pub ends : Ended states
  pub starts : count_where is_starting states + restarts ≤ maximum + 1

-- A round that starts no process, or whose process ends without having run stably.
abbrev pub EndsUnstable : RestartPolicy → Round → Type 0
EndsUnstable policy round =
    (round.spawned ≡ none)
    ⊎ ((outcome : ChildOutcome) × (monitor_child policy false 0 round.events ≡ some outcome)
        × (is_stable outcome ≡ false))

-- The next round, behind a count that is one more.
abbrev NextFinishes : ℕ → ℕ → (ℕ → List ProcessState) → Type 0
NextFinishes maximum restarts next =
    restarts + 1 ≤ maximum → Finishes maximum (restarts + 1) (next (restarts + 1))

-- Polls that follow a sleep, each at least 25 milliseconds after the clock read before it.
abbrev pub Paced : ℕ → List Poll → Type 0
Paced now [] = Unit
Paced now (poll_running later ∷ polls) = (now + 25000000 ≤ later) × Paced later polls
Paced now (_ ∷ polls) = Unit

no-time : (deadline now : ℕ) → deadline ≤ now + 25000000 * 0 → now < deadline → ⊥
no-time deadline now enough early = omega arith

await_exit-ends :
    (deadline now : ℕ) (polls : List Poll)
    → Paced now polls
    → deadline ≤ now + 25000000 * length polls
    → now < deadline
    → (state : CleanupState) × (await_exit deadline polls ≡ some state)
unfolding await_exit
await_exit-ends deadline now [] paced enough early = absurd (no-time deadline now enough early)
await_exit-ends deadline now (poll_exited ∷ polls) paced enough early = (complete, refl)
await_exit-ends deadline now (poll_error ∷ polls) paced enough early = (uncertain true, refl)
await_exit-ends deadline now (poll_running later ∷ polls) paced enough early =
    elim (Bool-cases (leb deadline later)) [
      | inl t ↦ (uncertain true, rw t)
      | inr f ↦
          let (state, ended) =
            await_exit-ends deadline later polls paced.1 (omega (arith, paced.0, enough))
              (ground arith) in
          (state, rw f ended)
    ]

-- The polls after a kill: the first comes at once, each later one behind a sleep.
abbrev pub PacedFrom : ℕ → List Poll → Type 0
PacedFrom killed_at [] = Unit
PacedFrom killed_at (poll_running now ∷ polls) = (killed_at ≤ now) × Paced now polls
PacedFrom killed_at (_ ∷ polls) = Unit

no-poll : (timeout : ℕ) → timeout + 25000000 ≤ 25000000 * 0 → ⊥
no-poll timeout enough = omega arith

first_poll-ends :
    (killed_at timeout : ℕ) (polls : List Poll)
    → PacedFrom killed_at polls
    → timeout + 25000000 ≤ 25000000 * length polls
    → (state : CleanupState) × (await_exit (killed_at + timeout) polls ≡ some state)
unfolding await_exit
first_poll-ends killed_at timeout [] paced enough = absurd (no-poll timeout enough)
first_poll-ends killed_at timeout (poll_exited ∷ polls) paced enough = (complete, refl)
first_poll-ends killed_at timeout (poll_error ∷ polls) paced enough = (uncertain true, refl)
first_poll-ends killed_at timeout (poll_running now ∷ polls) paced enough =
    elim (Bool-cases (leb (killed_at + timeout) now)) [
      | inl t ↦ (uncertain true, rw t)
      | inr f ↦
          let (state, ended) =
            await_exit-ends (killed_at + timeout) now polls paced.1 (omega (arith, paced.0, enough))
              (ground arith) in
          (state, rw f ended)
    ]

-- The termination of a process comes to an end, whatever the process does: the first poll comes at
-- once, each later one at least 25 milliseconds after the one before, and one poll more than the
-- timeout has such periods is enough.
pub terminate_child-ends :
    (termination : Termination) (timeout : ℕ)
    → PacedFrom termination.killed_at termination.polls
    → timeout + 25000000 ≤ 25000000 * length termination.polls
    → (state : CleanupState) × (terminate_child termination timeout ≡ some state)
unfolding terminate_child
terminate_child-ends termination timeout paced enough = elim (Bool-cases termination.kill_sent) [
  | inl t ↦
      let (state, ended) =
        first_poll-ends termination.killed_at timeout termination.polls paced enough in
      (state, rw t ended)
  | inr f ↦ (uncertain true, rw f)
]
