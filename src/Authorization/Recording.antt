-- ===== src/Authorization/Recording.antt =====
-- Audit records of a call: `AuditRecorder` and `append_required` of crates/runonmine-mcp/src/audit.rs
-- and the tables of validation.rs. A record that `tokio::spawn` appends later is not awaited and
-- does not take part here; `Stamp` is what one awaited append reads from outside.
use run_on_mine.Prelude.{
  ℕ, ◌≡◌, ◌≢◌, refl, String, Bool, true, false, none, List, arith, if◌then◌else◌, if-elim, Result,
  ok, err,
}
use run_on_mine.Policy.Model.{
  Capability, system_read, files_read, files_write, shell_exec, browser_read, browser_act,
  desktop_control, platform_native, admin_exec,
}
use run_on_mine.Audit.Event.{AuditEvent, AuditOutcome, AuditTables, AuditApi, AuditError}
use run_on_mine.Audit.Retention.{append_audit}
use run_on_mine.Approval.Tables.{StateTables}

pub data McpError : Type 0 where
  rate_limited configuration_unavailable denied_by_policy audit_unavailable : McpError
  invalid_timeout request_not_created status_unreadable timeout_not_completed : McpError
  approval_missing still_pending timed_out denied_by_owner : McpError

unfoldable pub capability_name : Capability → String
capability_name system_read = "system_read"
capability_name files_read = "files_read"
capability_name files_write = "files_write"
capability_name shell_exec = "shell_exec"
capability_name browser_read = "browser_read"
capability_name browser_act = "browser_act"
capability_name desktop_control = "desktop_control"
capability_name platform_native = "platform_native"
capability_name admin_exec = "admin_exec"

unfoldable pub capability_requires_reliable_audit : Capability → Bool
capability_requires_reliable_audit files_write = true
capability_requires_reliable_audit shell_exec = true
capability_requires_reliable_audit browser_act = true
capability_requires_reliable_audit desktop_control = true
capability_requires_reliable_audit platform_native = true
capability_requires_reliable_audit admin_exec = true
capability_requires_reliable_audit _ = false

-- The fresh identifier and the clocks of an append, and whether the database takes the job.
pub record Stamp : Type 0 where
  pub id : String
  pub timestamp : ℕ
  pub now : ℕ
  pub available : Bool

-- What a call's audit records share.
pub record AuditContext : Type 0 where
  pub connector_id : String
  pub tool_name : String
  pub capability : Capability
  pub argument_hash : String
  pub summary : String

-- `AuditEvent::new`
unfoldable pub new_event : AuditContext → AuditOutcome → String → Stamp → AuditEvent
unfolding capability_name
new_event context outcome summary stamp = record {
  id = stamp.id;
  timestamp = stamp.timestamp;
  connector_id = context.connector_id;
  tool_name = context.tool_name;
  capability = capability_name context.capability;
  outcome = outcome;
  argument_hash = context.argument_hash;
  summary = summary;
  duration_ms = none;
  output_bytes = none;
}

module _ (api : AuditApi) (text_length : String → ℕ) (audit_key : List ℕ) where
  -- The match on the sink's result.
  abbrev pub after_append :
      Capability
      → StateTables
      → Result AuditError String × AuditTables
      → Result McpError (Unit {0}) × StateTables
  after_append capability tables (ok hash, audit) = (ok tt, record tables { audit = audit })
  after_append capability tables (err e, audit) =
      if capability_requires_reliable_audit capability
      then (err audit_unavailable, record tables { audit = audit })
      else (ok tt, record tables { audit = audit })

  unfoldable pub append_required :
      AuditEvent → Capability → Stamp → StateTables → Result McpError (Unit {0}) × StateTables
  append_required event capability stamp tables =
      if stamp.available
      then after_append capability tables
          (append_audit api text_length audit_key stamp.now event tables.audit)
      else after_append capability tables (err AuditError.constraint, tables.audit)

  -- `AuditRecorder::record_required`, with the summary of this record.
  abbrev pub record_required :
      AuditContext
      → AuditOutcome
      → String
      → Stamp
      → StateTables
      → Result McpError (Unit {0}) × StateTables
  record_required context outcome summary stamp tables =
      append_required (new_event context outcome summary stamp) context.capability stamp tables

  after_append-approvals :
      (capability : Capability) (tables : StateTables)
      (appended : Result AuditError String × AuditTables)
      → (after_append capability tables appended).1.approvals ≡ tables.approvals
  after_append-approvals capability tables (ok hash, audit) = refl
  after_append-approvals capability tables (err e, audit) = ground arith

  -- A record changes the audit tables alone.
  pub append_required-approvals :
      (event : AuditEvent) (capability : Capability) (stamp : Stamp) (tables : StateTables)
      → (append_required event capability stamp tables).1.approvals ≡ tables.approvals
  unfolding append_required
  append_required-approvals event capability stamp tables = ground (
    arith,
    after_append-approvals capability tables
        (append_audit api text_length audit_key stamp.now event tables.audit),
    after_append-approvals capability tables (err AuditError.constraint, tables.audit),
  )

  after_append-ok :
      (capability : Capability) (tables : StateTables)
      (appended : Result AuditError String × AuditTables)
      → capability_requires_reliable_audit capability ≡ true
      → (after_append capability tables appended).0 ≡ ok tt
      → (hash : String) × (appended ≡ (ok hash, (after_append capability tables appended).1.audit))
  after_append-ok capability tables (ok hash, audit) r h = (hash, refl)
  after_append-ok capability tables (err e, audit) r h = absurd (ground arith)

  refused-err :
      (capability : Capability) (tables : StateTables)
      → capability_requires_reliable_audit capability ≡ true
      → (after_append capability tables (err AuditError.constraint, tables.audit)).0 ≢ ok tt
  refused-err capability tables r h = ground arith

  -- For a capability that needs a reliable audit, success means that the record was appended.
  pub append_required-reliable :
      (event : AuditEvent) (capability : Capability) (stamp : Stamp) (tables : StateTables)
      → capability_requires_reliable_audit capability ≡ true
      → (append_required event capability stamp tables).0 ≡ ok tt
      → (hash : String) × (append_audit api text_length audit_key stamp.now event tables.audit
          ≡ (ok hash, (append_required event capability stamp tables).1.audit))
  unfolding append_required
  append_required-reliable event capability stamp tables r =
      let appended = append_audit api text_length audit_key stamp.now event tables.audit in
      let refused : Result AuditError String × AuditTables =
        (err AuditError.constraint, tables.audit) in
      if-elim
        (λ (end : Result McpError (Unit {0}) × StateTables).
          end.0 ≡ ok tt → (hash : String) × (appended ≡ (ok hash, end.1.audit)))
        stamp.available (after_append capability tables appended)
        (after_append capability tables refused) (λ _. after_append-ok capability tables appended r)
        (λ _ h. absurd (refused-err capability tables r h))
