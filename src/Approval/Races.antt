-- ===== src/Approval/Races.antt =====
-- A time-out that comes behind the owner's decision.
use run_on_mine.Prelude.{
  ℕ, ◌≤◌, ◌≡◌, ◌≢◌, refl, sym, ap, ◌∙◌, subst, String, eq_iff, Bool, true, Option, some, List, [],
  ◌∷◌, find, update_where, count_where, arith, ok,
}
use run_on_mine.Audit.Event.{AuditEvent, AuditApi}
use run_on_mine.Approval.Principal.{ApprovalStatus, pending, existing, ApprovalDecision}
use run_on_mine.Approval.Tables.{ApprovalRow, StateTables}
use run_on_mine.Approval.Store.{
  has_id, find_row, status_of, is_open, settle, resolve_approval, complete_approval_timeout,
}
use run_on_mine.Audit.Event.{timed_out}
use run_on_mine.Approval.Store.{has_id}
use run_on_mine.Approval.Lifecycle.{HasUniqueId, resolve_approval-approvals, status_of-settled}

-- The event is the audit record of a time-out of this row's call.
abbrev pub IsTimeoutOf : AuditEvent → ApprovalRow → Type 0
IsTimeoutOf event row =
    (event.outcome ≡ timed_out)
    × (event.connector_id ≡ row.key.connector_id)
    × (event.tool_name ≡ row.key.tool_name)
    × (event.argument_hash ≡ row.key.argument_hash)

count_where-here :
    (p : ApprovalRow → Bool) (row : ApprovalRow) (rows : List ApprovalRow)
    → count_where p (row ∷ rows) ≤ 1
    → p row ≡ true
    → count_where p rows ≡ 0
unfolding count_where
count_where-here p row rows h t = ground arith

none_open :
    (id : String) (now : ℕ) (rows : List ApprovalRow)
    → count_where (has_id id) rows ≡ 0
    → count_where (is_open id now) rows ≡ 0
unfolding count_where
none_open id now [] h = refl
none_open id now (row ∷ rows) h = ground (arith, none_open id now rows)

-- Under one identifier the row that a lookup finds is the row that the update settles.
find_row-settled :
    (id : String) (status : ApprovalStatus) (now : ℕ) (decision : Option ApprovalDecision)
    (rows : List ApprovalRow) (row : ApprovalRow)
    → count_where (has_id id) rows ≤ 1
    → count_where (is_open id now) rows ≡ 1
    → find_row id rows ≡ some row
    → find_row id (update_where (is_open id now) (settle status now decision) rows)
      ≡ some (settle status now decision row)
unfolding find_row find update_where count_where
find_row-settled id status now decision [] row u c f = cc
find_row-settled id status now decision (r ∷ rows) row u c f =
    ground (arith, find_row-settled id status now decision rows row, none_open id now rows)

resolve-changed :
    (id : String) (decision : ApprovalDecision) (now granted_at : ℕ) (tables after : StateTables)
    → resolve_approval id decision now granted_at tables ≡ (true, after)
    → count_where (is_open id now) tables.approvals ≡ 1
unfolding resolve_approval
resolve-changed id decision now granted_at tables after h = ground arith

existing-outcome :
    (api : AuditApi) (text_length : String → ℕ) (audit_key : List ℕ) (id : String)
    (event : AuditEvent) (later : ℕ) (tables : StateTables) (row : ApprovalRow)
    → IsTimeoutOf event row
    → row.status ≢ pending
    → find_row id tables.approvals ≡ some row
    → complete_approval_timeout api text_length audit_key id event later tables
      ≡ (ok (some (existing row.status)), tables)
unfolding complete_approval_timeout
existing-outcome api text_length audit_key id event later tables row (o, c, t, a) n f =
    rw (f, o)
      (ground (
        arith,
        eq_iff event.connector_id row.key.connector_id,
        eq_iff event.tool_name row.key.tool_name,
        eq_iff event.argument_hash row.key.argument_hash,
      ))

-- When the owner's decision comes first, the waiting call's time-out reports that decision, changes
-- nothing and appends no audit record.
pub complete_approval_timeout-after_decision :
    (api : AuditApi) (text_length : String → ℕ) (audit_key : List ℕ) (id : String)
    (decision : ApprovalDecision) (now granted_at : ℕ) (tables after : StateTables)
    (row : ApprovalRow) (event : AuditEvent) (later : ℕ)
    → HasUniqueId id tables
    → find_row id tables.approvals ≡ some row
    → resolve_approval id decision now granted_at tables ≡ (true, after)
    → IsTimeoutOf event row
    → complete_approval_timeout api text_length audit_key id event later after
      ≡ (ok (some (existing (status_of decision))), after)
complete_approval_timeout-after_decision api text_length audit_key id decision now granted_at tables
      after row event later u f h e =
    existing-outcome api text_length audit_key id event later after
      (settle (status_of decision) now (some decision) row) e (status_of-settled decision)
      (subst (λ rows. find_row id rows ≡ some (settle (status_of decision) now (some decision) row))
        (sym (resolve_approval-approvals id decision now granted_at tables)
          ∙ ap (λ outcome. outcome.1.approvals) h)
        (find_row-settled id (status_of decision) now (some decision) tables.approvals row u
          (resolve-changed id decision now granted_at tables after h) f))
