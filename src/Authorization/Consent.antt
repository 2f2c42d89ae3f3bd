-- ===== src/Authorization/Consent.antt =====
-- What the waiting loop of approval_flow.rs lets through: only a call whose request the loop read as
-- approved.
use run_on_mine.Prelude.{
  ℕ, ◌≡◌, ◌≢◌, ◌⊎◌, inl, inr, refl, sym, ap, ◌∙◌, subst, String, Bool, true, false, Option, none,
  some, List, [], ◌∷◌, arith, leb, if-elim, Result, ok, err,
}
use run_on_mine.Audit.Event.{AuditApi}
use run_on_mine.Approval.Principal.{ApprovalStatus, approved, expired}
use run_on_mine.Approval.Tables.{ApprovalRow, StateTables}
use run_on_mine.Approval.Store.{find_row}
use run_on_mine.Approval.Finality.{apply_ops}
use run_on_mine.Authorization.Recording.{McpError, AuditContext}
use run_on_mine.Authorization.Waiting.{
  Poll, Reply, status_or_expired, complete_existing_status, complete_timeout, after_status,
  poll_once, wait_for_approval,
}
use run_on_mine.Authorization.Statuses.{
  IsRead, complete_existing_status-ok, complete_existing_status-waits, status-IsRead,
  complete_timeout-ok, some-ok,
}

module _ (api : AuditApi) (text_length : String → ℕ) (audit_key : List ℕ) where
  -- The tables in which the loop reads its row: at the start of a turn, and, once the deadline is
  -- reached, behind the operations that come before the time-out.
  abbrev pub Moments : ℕ → List Poll → StateTables → StateTables → Type 0
  Moments deadline [] tables read = ⊥
  Moments deadline (poll ∷ polls) tables read =
      let now = apply_ops api text_length audit_key poll.before tables in
      (read ≡ now)
      ⊎ ((leb deadline poll.instant ≡ true)
          × (read ≡ apply_ops api text_length audit_key poll.between now))
      ⊎ Moments deadline polls now read

  -- The row was approved in the tables of a moment at which the loop read it, and the call was
  -- recorded in the tables that the loop leaves.
  abbrev pub IsConsented :
      ℕ → String → AuditContext → List Poll → StateTables → StateTables → Type 0
  IsConsented deadline id context polls tables after =
      (read : StateTables) × Moments deadline polls tables read
      × IsRead api text_length audit_key id context read after

  -- The two moments of one turn, whose status was read in `seen`.
  abbrev Read : ℕ → String → AuditContext → Poll → StateTables → StateTables → Type 0
  Read deadline id context poll seen after =
      IsRead api text_length audit_key id context seen after
      ⊎ ((leb deadline poll.instant ≡ true)
          × IsRead api text_length audit_key id context
              (apply_ops api text_length audit_key poll.between seen) after)

  after_status-ok :
      (deadline : ℕ) (id : String) (context : AuditContext) (poll : Poll)
      (tables after : StateTables) (seen : Result McpError Bool × StateTables)
      → ((middle : StateTables)
          → seen ≡ (ok true, middle)
          → IsRead api text_length audit_key id context tables middle)
      → ((middle : StateTables) → seen ≡ (ok false, middle) → middle ≡ tables)
      → after_status api text_length audit_key deadline id context poll seen ≡ (some (ok tt), after)
      → Read deadline id context poll tables after
  after_status-ok deadline id context poll tables after (err e, middle) a w = λ h. cc
  after_status-ok deadline id context poll tables after (ok true, middle) a w =
      λ h. inl (a after (ground arith))
  after_status-ok deadline id context poll tables after (ok false, middle) a w =
      let before = apply_ops api text_length audit_key poll.between middle in
      let end = complete_timeout api text_length audit_key id context poll before in
      if-elim
        (λ (end : Option Reply × StateTables).
          end ≡ (some (ok tt), after) → Read deadline id context poll tables after)
        (leb deadline poll.instant) (some end.0, end.1) (none, middle)
        (λ late h. inr (
          late,
          subst
              (λ (t : StateTables).
                IsRead api text_length audit_key id context
                  (apply_ops api text_length audit_key poll.between t) after)
              (w middle refl)
              (complete_timeout-ok api text_length audit_key id context poll before after
                (some-ok api text_length audit_key end (ok tt, after) h)),
        ))
        (λ _ h. cc)

  expired-approved : ◌≢◌ {A = ApprovalStatus} expired approved
  expired-approved h = cc

  after_status-row_ok :
      (deadline : ℕ) (id : String) (context : AuditContext) (poll : Poll)
      (tables after : StateTables) (found : Option ApprovalRow)
      → find_row id tables.approvals ≡ found
      → after_status api text_length audit_key deadline id context poll (
          complete_existing_status api text_length audit_key
            (status_or_expired found)
            context
            poll.before_record
            poll.recorded
            tables)
        ≡ (some (ok tt), after)
      → Read deadline id context poll tables after
  after_status-row_ok deadline id context poll tables after none f =
      after_status-ok deadline id context poll tables after
        (complete_existing_status api text_length audit_key expired context poll.before_record
          poll.recorded tables)
        (λ middle h. absurd (
          expired-approved (
            complete_existing_status-ok api text_length audit_key expired context poll.before_record
              poll.recorded tables (ap (λ end. end.0) h))))
        (λ middle.
          complete_existing_status-waits api text_length audit_key expired context
            poll.before_record poll.recorded tables middle)
  after_status-row_ok deadline id context poll tables after (some row) f =
      after_status-ok deadline id context poll tables after
        (complete_existing_status api text_length audit_key row.status context poll.before_record
          poll.recorded tables)
        (λ middle.
          status-IsRead api text_length audit_key id row.status context poll.before_record
            poll.recorded tables tables middle row f refl)
        (λ middle.
          complete_existing_status-waits api text_length audit_key row.status context
            poll.before_record poll.recorded tables middle)

  poll_once-ok :
      (deadline : ℕ) (id : String) (context : AuditContext) (poll : Poll)
      (tables after : StateTables)
      → poll_once api text_length audit_key deadline id context poll tables ≡ (some (ok tt), after)
      → Read deadline id context poll (apply_ops api text_length audit_key poll.before tables) after
  unfolding poll_once
  poll_once-ok deadline id context poll tables after =
      let seen = apply_ops api text_length audit_key poll.before tables in
      let found = find_row id seen.approvals in
      if-elim
        (λ (end : Option Reply × StateTables).
          end ≡ (some (ok tt), after) → Read deadline id context poll seen after)
        poll.readable
        (after_status api text_length audit_key deadline id context poll (
          complete_existing_status api text_length audit_key (status_or_expired found) context
            poll.before_record poll.recorded seen))
        (some (err McpError.status_unreadable), seen)
        (λ _. after_status-row_ok deadline id context poll seen after found refl) (λ _ h. cc)

  after_status-waits :
      (deadline : ℕ) (id : String) (context : AuditContext) (poll : Poll)
      (tables after : StateTables) (seen : Result McpError Bool × StateTables)
      → ((middle : StateTables) → seen ≡ (ok false, middle) → middle ≡ tables)
      → after_status api text_length audit_key deadline id context poll seen ≡ (none, after)
      → after ≡ tables
  after_status-waits deadline id context poll tables after (err e, middle) w = λ h. cc
  after_status-waits deadline id context poll tables after (ok true, middle) w = λ h. cc
  after_status-waits deadline id context poll tables after (ok false, middle) w =
      let end =
        complete_timeout api text_length audit_key id context poll
          (apply_ops api text_length audit_key poll.between middle) in
      if-elim (λ (end : Option Reply × StateTables). end ≡ (none, after) → after ≡ tables)
        (leb deadline poll.instant) (some end.0, end.1) (none, middle) (λ _ h. cc)
        (λ _ h. sym (ap (λ (o : Option Reply × StateTables). o.1) h) ∙ w middle refl)

  -- A turn that is followed by another leaves the tables as it read them.
  poll_once-waits :
      (deadline : ℕ) (id : String) (context : AuditContext) (poll : Poll)
      (tables after : StateTables)
      → poll_once api text_length audit_key deadline id context poll tables ≡ (none, after)
      → after ≡ apply_ops api text_length audit_key poll.before tables
  unfolding poll_once
  poll_once-waits deadline id context poll tables after =
      let seen = apply_ops api text_length audit_key poll.before tables in
      let status = status_or_expired (find_row id seen.approvals) in
      let status_end =
        complete_existing_status api text_length audit_key status context poll.before_record
          poll.recorded seen in
      if-elim (λ (end : Option Reply × StateTables). end ≡ (none, after) → after ≡ seen)
        poll.readable (after_status api text_length audit_key deadline id context poll status_end)
        (some (err McpError.status_unreadable), seen)
        (λ _. after_status-waits deadline id context poll seen after status_end (λ middle.
          complete_existing_status-waits api text_length audit_key status context poll.before_record
            poll.recorded seen middle))
        (λ _ h. cc)

  Read-IsConsented :
      (deadline : ℕ) (id : String) (context : AuditContext) (poll : Poll) (polls : List Poll)
      (tables after : StateTables)
      → Read deadline id context poll (apply_ops api text_length audit_key poll.before tables) after
      → IsConsented deadline id context (poll ∷ polls) tables after
  Read-IsConsented deadline id context poll polls tables after (inl r) =
      (apply_ops api text_length audit_key poll.before tables, inl refl, r)
  Read-IsConsented deadline id context poll polls tables after (inr (late, r)) = (
    apply_ops api text_length audit_key poll.between
        (apply_ops api text_length audit_key poll.before tables),
    inr (inl (late, refl)),
    r,
  )

  turn-ok :
      (deadline : ℕ) (id : String) (context : AuditContext) (poll : Poll) (polls : List Poll)
      (tables after : StateTables) (end : Option Reply × StateTables)
      → (end ≡ (some (ok tt), after) → IsConsented deadline id context (poll ∷ polls) tables after)
      → ((middle : StateTables)
          → end ≡ (none, middle)
          → wait_for_approval api text_length audit_key deadline id context polls middle
            ≡ (some (ok tt), after)
          → IsConsented deadline id context (poll ∷ polls) tables after)
      → (elim end.0 [
        | some reply ↦ (some reply, end.1)
        | none ↦ wait_for_approval api text_length audit_key deadline id context polls end.1
      ])
        ≡ (some (ok tt), after)
      → IsConsented deadline id context (poll ∷ polls) tables after
  turn-ok deadline id context poll polls tables after (some reply, middle) now later h = now h
  turn-ok deadline id context poll polls tables after (none, middle) now later h =
      later middle refl h

  later-IsConsented :
      (deadline : ℕ) (id : String) (context : AuditContext) (poll : Poll) (polls : List Poll)
      (tables middle after : StateTables)
      → middle ≡ apply_ops api text_length audit_key poll.before tables
      → IsConsented deadline id context polls middle after
      → IsConsented deadline id context (poll ∷ polls) tables after
  later-IsConsented deadline id context poll polls tables middle after same (read, when, r) =
      (read, inr (inr (subst (λ t. Moments deadline polls t read) same when)), r)

  -- Whatever other callers and the owner do between its jobs, the wait lets the call through only
  -- when it has read the row of its request as approved, in the tables of the start of one of its
  -- turns or of a time-out that came too late; and a call for a capability that needs a reliable
  -- audit was recorded as allowed by the last append.
  pub wait_for_approval-ok :
      (deadline : ℕ) (id : String) (context : AuditContext) (polls : List Poll)
      (tables after : StateTables)
      → wait_for_approval api text_length audit_key deadline id context polls tables
        ≡ (some (ok tt), after)
      → IsConsented deadline id context polls tables after
  unfolding wait_for_approval
  wait_for_approval-ok deadline id context [] tables after h = cc
  wait_for_approval-ok deadline id context (poll ∷ polls) tables after h =
      turn-ok deadline id context poll polls tables after
        (poll_once api text_length audit_key deadline id context poll tables)
        (λ now.
          Read-IsConsented deadline id context poll polls tables after
            (poll_once-ok deadline id context poll tables after now))
        (λ middle goes_on rest.
          later-IsConsented deadline id context poll polls tables middle after
            (poll_once-waits deadline id context poll tables middle goes_on)
            (wait_for_approval-ok deadline id context polls middle after rest))
        h
