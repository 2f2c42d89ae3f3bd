-- ===== src/Authorization/Ending.antt =====
-- The waiting loop of approval_flow.rs ends at the first turn whose clock has reached the deadline.
use run_on_mine.Prelude.{
  ℕ, ◌≤◌, ◌≢◌, refl, ◌⊎◌, inl, inr, subst, Bool, true, false, Option, none, some, List, [], ◌∷◌,
  arith, leb, String, if-elim, Result, ok, err,
}
use run_on_mine.Prelude.Members.{In}
use run_on_mine.Audit.Event.{AuditApi}
use run_on_mine.Approval.Tables.{StateTables}
use run_on_mine.Approval.Store.{find_row}
use run_on_mine.Approval.Finality.{apply_ops}
use run_on_mine.Authorization.Recording.{McpError, AuditContext}
use run_on_mine.Authorization.Waiting.{
  Poll, Reply, status_or_expired, complete_existing_status, complete_timeout, after_status,
  poll_once, wait_for_approval,
}

too_early : (a b : ℕ) → a ≤ b → leb a b ≢ false
too_early a b late early = ground arith

-- The call does not wait on.
abbrev pub Replies : Option Reply × StateTables → Type 0
Replies end = end.0 ≢ none

module _ (api : AuditApi) (text_length : String → ℕ) (audit_key : List ℕ) (deadline : ℕ)
    (id : String) (context : AuditContext) where
  after_status-Replies :
      (poll : Poll) (seen : Result McpError Bool × StateTables)
      → deadline ≤ poll.instant
      → Replies (after_status api text_length audit_key deadline id context poll seen)
  after_status-Replies poll (err e, tables) late = λ h. cc
  after_status-Replies poll (ok true, tables) late = λ h. cc
  after_status-Replies poll (ok false, tables) late =
      let end =
        complete_timeout api text_length audit_key id context poll
          (apply_ops api text_length audit_key poll.between tables) in
      if-elim Replies (leb deadline poll.instant) (some end.0, end.1) (none, tables) (λ _ h. cc)
        (λ early. absurd (too_early deadline poll.instant late early))

  poll_once-Replies :
      (poll : Poll) (tables : StateTables)
      → deadline ≤ poll.instant
      → Replies (poll_once api text_length audit_key deadline id context poll tables)
  unfolding poll_once
  poll_once-Replies poll tables late =
      let seen = apply_ops api text_length audit_key poll.before tables in
      let status_end =
        complete_existing_status api text_length audit_key
          (status_or_expired (find_row id seen.approvals)) context poll.before_record poll.recorded
          seen in
      if-elim Replies poll.readable
        (after_status api text_length audit_key deadline id context poll status_end)
        (some (err McpError.status_unreadable), seen)
        (λ _. after_status-Replies poll status_end late) (λ _ h. cc)

  turn-Replies :
      (polls : List Poll) (end : Option Reply × StateTables)
      → (Replies end
          ⊎ ((middle : StateTables)
              → Replies
                  (wait_for_approval api text_length audit_key deadline id context polls middle)))
      → Replies (elim end.0 [
        | some reply ↦ (some reply, end.1)
        | none ↦ wait_for_approval api text_length audit_key deadline id context polls end.1
      ])
  turn-Replies polls (some reply, after) _ = λ h. cc
  turn-Replies polls (none, after) (inl now) = absurd (now refl)
  turn-Replies polls (none, after) (inr later) = later after

  -- A wait that has a turn at or after its deadline does not go on: it has replied at the end of
  -- that turn at the latest, whatever happened in the turns before it.
  pub wait_for_approval-Replies :
      (polls : List Poll) (poll : Poll) (tables : StateTables)
      → In poll polls
      → deadline ≤ poll.instant
      → Replies (wait_for_approval api text_length audit_key deadline id context polls tables)
  unfolding wait_for_approval
  wait_for_approval-Replies [] poll tables m late = absurd m
  wait_for_approval-Replies (first ∷ polls) poll tables (inl e) late =
      turn-Replies polls (poll_once api text_length audit_key deadline id context first tables)
        (inl (poll_once-Replies first tables (subst (λ (p : Poll). deadline ≤ p.instant) e late)))
  wait_for_approval-Replies (first ∷ polls) poll tables (inr m) late =
      turn-Replies polls (poll_once api text_length audit_key deadline id context first tables)
        (inr (λ middle. wait_for_approval-Replies polls poll middle m late))
