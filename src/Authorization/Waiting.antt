-- ===== src/Authorization/Waiting.antt =====
-- `ApprovalFlow` of crates/runonmine-mcp/src/approval_flow.rs. The owner and other calls work on
-- the same tables, so each turn of the waiting loop carries the operations that run before each of
-- its own jobs: the read of the status, the record of what was read, the time-out and the record of
-- what the time-out found; what wakes the loop, a notification or the recovery poll, only decides when a turn comes.
use run_on_mine.Prelude.{
  ℕ, ◌+◌, String, Bool, true, false, not, Option, none, some, List, [], ◌∷◌, leb, if◌then◌else◌,
  Result, ok, err,
}
use run_on_mine.Audit.Event.{AuditOutcome, AuditApi}
use run_on_mine.Approval.Principal.{
  ApprovalStatus, pending, approved, denied, expired, ApprovalTimeoutResult, expired_now, existing,
  ApprovalDecision, ApprovalPrincipal,
}
use run_on_mine.Approval.Tables.{ApprovalRow, StateTables, new_request}
use run_on_mine.Approval.Store.{
  StoreError, find_row, insert_approval, resolve_approval, complete_approval_timeout,
}
use run_on_mine.Approval.Finality.{StoreOp, apply_ops}
use run_on_mine.Authorization.Recording.{
  McpError, invalid_timeout, request_not_created, status_unreadable, timeout_not_completed,
  approval_missing, still_pending, timed_out, denied_by_owner, Stamp, AuditContext, new_event,
  record_required,
}

-- One turn of the loop in `wait_for_approval`.
pub record Poll : Type 0 where
  pub before : List StoreOp
  pub readable : Bool
  pub before_record : List StoreOp
  pub recorded : Stamp
  pub instant : ℕ
  pub between : List StoreOp
  pub completes : Bool
  pub timeout : Stamp
  pub before_last_record : List StoreOp

abbrev pub Reply : Type 0
Reply = Result McpError (Unit {0})

-- What an insertion of a request and its record read from outside.
pub record Opening : Type 0 where
  pub id : String
  pub requested_at : ℕ
  pub created_at : ℕ
  pub argument_summary : String
  pub timeout_fits : Bool
  pub inserts : Bool
  pub before_record : List StoreOp
  pub recorded : Stamp
  pub before_denial : List StoreOp
  pub denies : Bool
  pub denied_at : ℕ
  pub instant : ℕ

-- The status of a missing row
abbrev pub status_or_expired : Option ApprovalRow → ApprovalStatus
status_or_expired none = expired
status_or_expired (some row) = row.status

module _ (api : AuditApi) (text_length : String → ℕ) (audit_key : List ℕ) where
  -- `?` on the record, with the value behind it
  abbrev pub recorded_as {ℓ} :
      {A : Type ℓ} → Result McpError A → Reply × StateTables → Result McpError A × StateTables
  recorded_as value (ok _, tables) = (value, tables)
  recorded_as value (err e, tables) = (err e, tables)

  -- `meanwhile` is what others do between the read of the status and the record.
  unfoldable pub complete_existing_status :
      ApprovalStatus
      → AuditContext
      → List StoreOp
      → Stamp
      → StateTables
      → Result McpError Bool × StateTables
  complete_existing_status approved context meanwhile stamp tables = recorded_as (ok true) (
      record_required api text_length audit_key context AuditOutcome.allowed context.summary stamp
        (apply_ops api text_length audit_key meanwhile tables))
  complete_existing_status denied context meanwhile stamp tables =
      recorded_as (err denied_by_owner) (
        record_required api text_length audit_key context AuditOutcome.denied
          "denied by the machine owner" stamp
          (apply_ops api text_length audit_key meanwhile tables))
  complete_existing_status expired context meanwhile stamp tables = (err timed_out, tables)
  complete_existing_status pending context meanwhile stamp tables = (ok false, tables)

  abbrev pub or_still_pending : Result McpError Bool × StateTables → Reply × StateTables
  or_still_pending (ok true, tables) = (ok tt, tables)
  or_still_pending (ok false, tables) = (err still_pending, tables)
  or_still_pending (err e, tables) = (err e, tables)

  -- The match on what the store answered to the time-out.
  abbrev pub after_completion :
      AuditContext
      → List StoreOp
      → Stamp
      → Result StoreError (Option ApprovalTimeoutResult) × StateTables
      → Reply × StateTables
  after_completion context meanwhile stamp (err e, tables) = (err timeout_not_completed, tables)
  after_completion context meanwhile stamp (ok none, tables) = (err approval_missing, tables)
  after_completion context meanwhile stamp (ok (some expired_now), tables) = (err timed_out, tables)
  after_completion context meanwhile stamp (ok (some (existing expired)), tables) =
      (err timed_out, tables)
  after_completion context meanwhile stamp (ok (some (existing status)), tables) =
      or_still_pending (complete_existing_status status context meanwhile stamp tables)

  unfoldable pub complete_timeout : String → AuditContext → Poll → StateTables → Reply × StateTables
  complete_timeout approval_id context poll tables =
      let event =
        new_event context AuditOutcome.timed_out "local approval timed out" poll.timeout in
      if poll.completes
      then after_completion context poll.before_last_record poll.recorded (
          complete_approval_timeout api text_length audit_key approval_id event poll.timeout.now
            tables)
      else (err timeout_not_completed, tables)

  -- The end of a turn that read a status; `none` is another turn.
  abbrev pub after_status :
      ℕ
      → String
      → AuditContext
      → Poll
      → Result McpError Bool × StateTables
      → Option Reply × StateTables
  after_status deadline id context poll (err e, tables) = (some (err e), tables)
  after_status deadline id context poll (ok true, tables) = (some (ok tt), tables)
  after_status deadline id context poll (ok false, tables) =
      if leb deadline poll.instant
      then (let (reply, after) =
            complete_timeout id context poll
              (apply_ops api text_length audit_key poll.between tables) in
          (some reply, after))
      else (none, tables)

  -- One turn
  unfoldable pub poll_once :
      ℕ → String → AuditContext → Poll → StateTables → Option Reply × StateTables
  poll_once deadline id context poll tables =
      let seen = apply_ops api text_length audit_key poll.before tables in
      if poll.readable
      then after_status deadline id context poll (
          complete_existing_status (status_or_expired (find_row id seen.approvals)) context
            poll.before_record poll.recorded seen)
      else (some (err status_unreadable), seen)

  -- The loop, over the turns that come; `none` while the call still waits.
  unfoldable pub wait_for_approval :
      ℕ → String → AuditContext → List Poll → StateTables → Option Reply × StateTables
  wait_for_approval deadline id context [] tables = (none, tables)
  wait_for_approval deadline id context (poll ∷ polls) tables =
      let (reply, after) = poll_once deadline id context poll tables in
      elim reply [
        | some reply ↦ (some reply, after)
        | none ↦ wait_for_approval deadline id context polls after
      ]

  -- Behind the insertion: the record of the pending question, and the denial if that fails.
  abbrev pub after_insert :
      ℕ → AuditContext → Opening → List Poll → Reply × StateTables → Option Reply × StateTables
  after_insert timeout context opening polls (ok _, tables) =
      wait_for_approval (opening.instant + timeout) opening.id context polls tables
  after_insert timeout context opening polls (err e, tables) =
      if opening.denies
      then (
        some (err e),
        (resolve_approval opening.id ApprovalDecision.deny opening.denied_at opening.denied_at
            (apply_ops api text_length audit_key opening.before_denial tables)).1,
      )
      else (some (err e), tables)

  abbrev pub after_creation :
      ℕ
      → AuditContext
      → Opening
      → List Poll
      → StateTables
      → Result StoreError StateTables
      → Option Reply × StateTables
  after_creation timeout context opening polls tables (err _) =
      (some (err request_not_created), tables)
  after_creation timeout context opening polls tables (ok inserted) =
      after_insert timeout context opening polls (
        record_required api text_length audit_key context AuditOutcome.pending_approval
          context.summary opening.recorded
          (apply_ops api text_length audit_key opening.before_record inserted))

  unfoldable pub request_with :
      (fingerprint : ApprovalPrincipal → String)
      → ApprovalPrincipal
      → ℕ
      → AuditContext
      → Opening
      → List Poll
      → StateTables
      → Option Reply × StateTables
  request_with fingerprint principal timeout context opening polls tables =
      let request =
        new_request fingerprint opening.id opening.created_at context.connector_id principal
          context.tool_name opening.argument_summary context.argument_hash
          (opening.requested_at + timeout) in
      if not opening.timeout_fits
      then (some (err invalid_timeout), tables)
      else if not opening.inserts
      then (some (err request_not_created), tables)
      else after_creation timeout context opening polls tables (insert_approval request tables)
