-- ===== src/Authorization/Statuses.antt =====
-- What a status, and the store's answer to a time-out, let through in approval_flow.rs.
use run_on_mine.Prelude.{
  ◌⊎◌, inl, inr, Bool-cases, ℕ, ◌≡◌, ◌≢◌, refl, ap, ◌∙◌, inl, inr, String, Bool, true, false,
  Option, none, some, List, arith, if-elim, Result, ok, err,
}
use run_on_mine.Audit.Event.{AuditEvent, AuditOutcome, AuditApi}
use run_on_mine.Approval.Principal.{
  ApprovalStatus, pending, approved, denied, expired, ApprovalTimeoutResult, expired_now, existing,
}
use run_on_mine.Audit.Retention.{append_audit}
use run_on_mine.Approval.Tables.{ApprovalRow, StateTables}
use run_on_mine.Approval.Store.{StoreError, find_row, complete_approval_timeout}
use run_on_mine.Approval.Finality.{StoreOp, apply_ops}
use run_on_mine.Approval.Timeouts.{Ends, complete_approval_timeout-Ends}
use run_on_mine.Authorization.Recording.{
  append_required-reliable, capability_requires_reliable_audit, McpError, Stamp, AuditContext,
  new_event, record_required,
}
use run_on_mine.Authorization.Waiting.{
  Poll, Reply, recorded_as, complete_existing_status, or_still_pending, after_completion,
  complete_timeout,
}

-- The owner's approval of the request stands in the tables.
abbrev pub IsApproved : String → StateTables → Type 0
IsApproved id tables =
    (row : ApprovalRow) × (find_row id tables.approvals ≡ some row) × (row.status ≡ approved)

-- A call for a capability that needs a reliable audit was recorded as allowed, by the last append.
abbrev pub IsRecorded : AuditApi → (String → ℕ) → List ℕ → AuditContext → StateTables → Type 0
IsRecorded api text_length audit_key context after =
    (capability_requires_reliable_audit context.capability ≡ false)
    ⊎ ((stamp : Stamp) × (before : StateTables) × (hash : String) × (append_audit api text_length
            audit_key stamp.now (new_event context AuditOutcome.allowed context.summary stamp)
            before.audit
          ≡ (ok hash, after.audit)))

-- The owner's approval of the request stood in the tables that were read, and the call was recorded
-- in those that are left.
abbrev pub IsRead :
    AuditApi → (String → ℕ) → List ℕ → String → AuditContext → StateTables → StateTables → Type 0
IsRead api text_length audit_key id context read after =
    IsApproved id read × IsRecorded api text_length audit_key context after

module _ (api : AuditApi) (text_length : String → ℕ) (audit_key : List ℕ) where
  pub recorded_as-approvals :
      {A : Type 0} (value : Result McpError A) (record_end : Reply × StateTables)
      → (recorded_as api text_length audit_key value record_end).1.approvals
        ≡ record_end.1.approvals
  recorded_as-approvals value (ok _, tables) = refl
  recorded_as-approvals value (err e, tables) = refl

  pub denial-not_ok :
      (record_end : Reply × StateTables)
      → (recorded_as api text_length audit_key {A = Bool}
          (err McpError.denied_by_owner)
          record_end).0
        ≢ ok true
  denial-not_ok (ok _, tables) h = cc
  denial-not_ok (err e, tables) h = cc

  pub complete_existing_status-ok :
      (status : ApprovalStatus) (context : AuditContext) (meanwhile : List StoreOp) (stamp : Stamp)
      (tables : StateTables)
      → (complete_existing_status api text_length audit_key status context meanwhile stamp tables).0
        ≡ ok true
      → status ≡ approved
  unfolding complete_existing_status
  complete_existing_status-ok approved context meanwhile stamp tables h = refl
  complete_existing_status-ok denied context meanwhile stamp tables h = absurd (denial-not_ok _ h)
  complete_existing_status-ok expired context meanwhile stamp tables h = cc
  complete_existing_status-ok pending context meanwhile stamp tables h = cc

  pub recorded_as-not_waiting :
      (value : McpError) (record_end : Reply × StateTables) (after : StateTables)
      → recorded_as api text_length audit_key {A = Bool} (err value) record_end ≢ (ok false, after)
  recorded_as-not_waiting value (ok _, tables) after h = cc
  recorded_as-not_waiting value (err e, tables) after h = cc

  pub recorded_as-not_waiting_on :
      (record_end : Reply × StateTables) (after : StateTables)
      → recorded_as api text_length audit_key (ok true) record_end ≢ (ok false, after)
  recorded_as-not_waiting_on (ok _, tables) after h = cc
  recorded_as-not_waiting_on (err e, tables) after h = cc

  -- A status that does not settle the call leaves the tables as they were read.
  pub complete_existing_status-waits :
      (status : ApprovalStatus) (context : AuditContext) (meanwhile : List StoreOp) (stamp : Stamp)
      (tables after : StateTables)
      → complete_existing_status api text_length audit_key status context meanwhile stamp tables
        ≡ (ok false, after)
      → after ≡ tables
  unfolding complete_existing_status
  complete_existing_status-waits approved context meanwhile stamp tables after h =
      absurd (recorded_as-not_waiting_on _ after h)
  complete_existing_status-waits denied context meanwhile stamp tables after h =
      absurd (recorded_as-not_waiting _ _ after h)
  complete_existing_status-waits expired context meanwhile stamp tables after h = cc
  complete_existing_status-waits pending context meanwhile stamp tables after h = cc

  pub or_still_pending-ok :
      (status_end : Result McpError Bool × StateTables) (after : StateTables)
      → or_still_pending api text_length audit_key status_end ≡ (ok tt, after)
      → status_end ≡ (ok true, after)
  or_still_pending-ok (ok true, tables) after h = ground arith
  or_still_pending-ok (ok false, tables) after h = cc
  or_still_pending-ok (err e, tables) after h = cc

  error-not_true :
      (e : McpError) (a b : StateTables)
      → ◌≢◌ {A = Result McpError Bool × StateTables} (err e, a) (ok true, b)
  error-not_true e a b h = cc

  false-not_true :
      (a b : StateTables) → ◌≢◌ {A = Result McpError Bool × StateTables} (ok false, a) (ok true, b)
  false-not_true a b h = cc

  pub record_required-IsRecorded :
      (context : AuditContext) (stamp : Stamp) (tables after : StateTables)
      → record_required api text_length audit_key context AuditOutcome.allowed context.summary stamp
          tables
        ≡ (ok tt, after)
      → IsRecorded api text_length audit_key context after
  record_required-IsRecorded context stamp tables after h =
      elim (Bool-cases (capability_requires_reliable_audit context.capability)) [
        | inr f ↦ inl f
        | inl t ↦
            let (hash, e) =
              append_required-reliable api text_length audit_key
                (new_event context AuditOutcome.allowed context.summary stamp) context.capability
                stamp tables t (ap (λ end. end.0) h) in
            inr (
              stamp,
              tables,
              hash,
              e ∙ ap (λ (end : Reply × StateTables). (ok hash, end.1.audit)) h,
            )
      ]

  recorded_as-inv :
      (record_end : Reply × StateTables) (after : StateTables)
      → recorded_as api text_length audit_key (ok true) record_end ≡ (ok true, after)
      → record_end ≡ (ok tt, after)
  recorded_as-inv (ok tt, tables) after h = ground arith
  recorded_as-inv (err e, tables) after h = cc

  complete_existing_status-IsRecorded :
      (status : ApprovalStatus) (context : AuditContext) (meanwhile : List StoreOp) (stamp : Stamp)
      (tables after : StateTables)
      → complete_existing_status api text_length audit_key status context meanwhile stamp tables
        ≡ (ok true, after)
      → IsRecorded api text_length audit_key context after
  unfolding complete_existing_status
  complete_existing_status-IsRecorded approved context meanwhile stamp tables after h =
      let before = apply_ops api text_length audit_key meanwhile tables in
      record_required-IsRecorded context stamp before after (
        recorded_as-inv
          (record_required api text_length audit_key context AuditOutcome.allowed context.summary
            stamp before)
          after h)
  complete_existing_status-IsRecorded denied context meanwhile stamp tables after h =
      absurd (denial-not_ok _ (ap (λ end. end.0) h))
  complete_existing_status-IsRecorded expired context meanwhile stamp tables after h =
      absurd (error-not_true McpError.timed_out tables after h)
  complete_existing_status-IsRecorded pending context meanwhile stamp tables after h =
      absurd (false-not_true tables after h)

  -- A status that completes as a success is an approval in the tables that it was read from.
  pub status-IsRead :
      (id : String) (status : ApprovalStatus) (context : AuditContext) (meanwhile : List StoreOp)
      (stamp : Stamp) (read tables after : StateTables) (row : ApprovalRow)
      → find_row id read.approvals ≡ some row
      → row.status ≡ status
      → complete_existing_status api text_length audit_key status context meanwhile stamp tables
        ≡ (ok true, after)
      → IsRead api text_length audit_key id context read after
  status-IsRead id status context meanwhile stamp read tables after row f s h =
      let a =
        complete_existing_status-ok status context meanwhile stamp tables (ap (λ end. end.0) h) in
      (
        (row, f, s ∙ a),
        complete_existing_status-IsRecorded status context meanwhile stamp tables after h,
      )

  -- The row that the store reports when a time-out comes too late.
  pub existing-row :
      (id : String) (event : AuditEvent) (now : ℕ) (tables after : StateTables)
      (status : ApprovalStatus)
      → Ends api text_length audit_key id event now tables (ok (some (existing status)), after)
      → (row : ApprovalRow) × (find_row id tables.approvals ≡ some row) × (row.status ≡ status)
  unfolding Ends
  existing-row id event now tables after status (inl (h, e)) = cc
  existing-row id event now tables after status (inr (n, same, found)) = found

  pub existing-ok :
      (id : String) (event : AuditEvent) (now : ℕ) (tables middle after : StateTables)
      (context : AuditContext) (meanwhile : List StoreOp) (stamp : Stamp) (status : ApprovalStatus)
      → Ends api text_length audit_key id event now tables (ok (some (existing status)), middle)
      → or_still_pending api text_length audit_key
          (complete_existing_status api text_length audit_key status context meanwhile stamp middle)
        ≡ (ok tt, after)
      → IsRead api text_length audit_key id context tables after
  existing-ok id event now tables middle after context meanwhile stamp status ends h =
      let (row, f, s) = existing-row id event now tables middle status ends in
      status-IsRead id status context meanwhile stamp tables middle after row f s (
        or_still_pending-ok
          (complete_existing_status api text_length audit_key status context meanwhile stamp middle)
          after h)

  pub not_ok :
      (e : McpError) (a b : StateTables) → ◌≢◌ {A = Reply × StateTables} (err e, a) (ok tt, b)
  not_ok e a b h = cc

  pub after_completion-ok :
      (id : String) (event : AuditEvent) (now : ℕ) (tables after : StateTables)
      (context : AuditContext) (meanwhile : List StoreOp) (stamp : Stamp)
      (completion : Result StoreError (Option ApprovalTimeoutResult) × StateTables)
      → Ends api text_length audit_key id event now tables completion
      → after_completion api text_length audit_key context meanwhile stamp completion
        ≡ (ok tt, after)
      → IsRead api text_length audit_key id context tables after
  after_completion-ok id event now tables after context meanwhile stamp (err e, middle) ends h =
      absurd (not_ok _ middle after h)
  after_completion-ok id event now tables after context meanwhile stamp (ok none, middle) ends h =
      absurd (not_ok _ middle after h)
  after_completion-ok id event now tables after context meanwhile stamp
        (ok (some expired_now), middle) ends h =
      absurd (not_ok _ middle after h)
  after_completion-ok id event now tables after context meanwhile stamp
        (ok (some (existing expired)), middle) ends h =
      absurd (not_ok _ middle after h)
  after_completion-ok id event now tables after context meanwhile stamp
        (ok (some (existing pending)), middle) ends h =
      existing-ok id event now tables middle after context meanwhile stamp pending ends h
  after_completion-ok id event now tables after context meanwhile stamp
        (ok (some (existing approved)), middle) ends h =
      existing-ok id event now tables middle after context meanwhile stamp approved ends h
  after_completion-ok id event now tables after context meanwhile stamp
        (ok (some (existing denied)), middle) ends h =
      existing-ok id event now tables middle after context meanwhile stamp denied ends h

  pub complete_timeout-ok :
      (id : String) (context : AuditContext) (poll : Poll) (tables after : StateTables)
      → complete_timeout api text_length audit_key id context poll tables ≡ (ok tt, after)
      → IsRead api text_length audit_key id context tables after
  unfolding complete_timeout
  complete_timeout-ok id context poll tables after =
      let event =
        new_event context AuditOutcome.timed_out "local approval timed out" poll.timeout in
      let completion =
        complete_approval_timeout api text_length audit_key id event poll.timeout.now tables in
      if-elim
        (λ (end : Reply × StateTables).
          end ≡ (ok tt, after) → IsRead api text_length audit_key id context tables after)
        poll.completes
        (after_completion api text_length audit_key context poll.before_last_record poll.recorded
          completion)
        (err McpError.timeout_not_completed, tables)
        (λ _.
          after_completion-ok id event poll.timeout.now tables after context poll.before_last_record
            poll.recorded completion
            (complete_approval_timeout-Ends api text_length audit_key id event poll.timeout.now
              tables))
        (λ _ h. cc)

  pub some-ok :
      (a b : Reply × StateTables)
      → ◌≡◌ {A = Option Reply × StateTables} (some a.0, a.1) (some b.0, b.1)
      → a ≡ b
  some-ok a b h = ground arith
