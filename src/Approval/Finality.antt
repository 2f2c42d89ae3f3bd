-- ===== src/Approval/Finality.antt =====
-- Settled rows are final: no operation of storage.rs changes a row that is not pending.
use run_on_mine.Prelude.{
  ℕ, ◌≡◌, ◌≢◌, refl, sym, subst, String, str_eq, eq_iff, false, not, Option, none, some, List, [],
  ◌∷◌, any, update_where, arith, ◌⊎◌, inl, inr, Bool-cases, Result, ok, err,
}
use run_on_mine.Audit.Event.{AuditError}
use run_on_mine.Prelude.Members.{In, In-filter, In-append_left}
use run_on_mine.Audit.Event.{AuditEvent, AuditTables, AuditApi}
use run_on_mine.Audit.Chain.{append_audit_row}
use run_on_mine.Approval.Principal.{pending, denied, expired, ApprovalDecision, deny}
use run_on_mine.Approval.Tables.{GrantKey, ApprovalRow, StateTables, ApprovalRequest, row_of}
use run_on_mine.Approval.Store.{
  is_pending, has_id, find_row, insert_approval, status_of, is_open, settle, resolve_approval,
  grant_allows, emergency_lock, clear_connector, delete_persistent_grant, clear_persistent_grants,
  time_out, expired_with, is_pending_row, complete_approval_timeout,
}
use run_on_mine.Approval.Lifecycle.{In-update_where, resolve_approval-approvals}

-- One job of the database worker on the tables; a job that fails leaves them as they were.
pub data StoreOp : Type 0 where
  insert : ApprovalRequest → StoreOp
  resolve : String → ApprovalDecision → ℕ → ℕ → StoreOp
  ask_grant : GrantKey → ℕ → StoreOp
  lock : ℕ → StoreOp
  clear : String → StoreOp
  revoke : GrantKey → StoreOp
  forget : Option String → StoreOp
  finish : String → AuditEvent → ℕ → StoreOp

abbrev pub or_unchanged : {E : Type 0} → StateTables → Result E StateTables → StateTables
or_unchanged tables (ok after) = after
or_unchanged tables (err e) = tables

module _ (api : AuditApi) (text_length : String → ℕ) (audit_key : List ℕ) where
  unfoldable pub apply_op : StoreOp → StateTables → StateTables
  apply_op (insert request) tables = or_unchanged tables (insert_approval request tables)
  apply_op (resolve id decision now granted_at) tables =
      (resolve_approval id decision now granted_at tables).1
  apply_op (ask_grant key now) tables = (grant_allows key now tables).1
  apply_op (lock now) tables = (emergency_lock now tables).1
  apply_op (clear connector_id) tables = (clear_connector connector_id tables).1
  apply_op (revoke key) tables = (delete_persistent_grant key tables).1
  apply_op (forget connector_id) tables = (clear_persistent_grants connector_id tables).1
  apply_op (finish id event now) tables =
      (complete_approval_timeout api text_length audit_key id event now tables).1

  unfoldable pub apply_ops : List StoreOp → StateTables → StateTables
  unfolding apply_op
  apply_ops [] tables = tables
  apply_ops (op ∷ ops) tables = apply_ops ops (apply_op op tables)

  -- `op` is the removal of everything that belongs to the row's connector.
  abbrev pub ClearsRow : ApprovalRow → StoreOp → Type 0
  ClearsRow row (clear connector_id) = row.key.connector_id ≡ connector_id
  ClearsRow row _ = ⊥

  insert-keeps :
      (request : ApprovalRequest) (tables : StateTables) (row : ApprovalRow)
      → In row tables.approvals
      → In row (or_unchanged tables (insert_approval request tables)).approvals
  unfolding insert_approval
  insert-keeps request tables row m = elim (Bool-cases (any (has_id request.id) tables.approvals)) [
    | inl t ↦ rw t m
    | inr f ↦ rw f (In-append_left tables.approvals (row_of request ∷ []) row m)
  ]

  not_open :
      (id : String) (now : ℕ) (row : ApprovalRow)
      → row.status ≢ pending
      → is_open id now row ≡ false
  not_open id now row n = ground arith

  -- The approvals that a time-out leaves are those before, or those with the row settled.
  abbrev pub TimedOut : String → ℕ → StateTables → StateTables → Type 0
  TimedOut id timestamp tables after =
      (after.approvals ≡ tables.approvals)
      ⊎ (after.approvals
          ≡ update_where (is_pending_row id) (settle expired timestamp none) tables.approvals)

  expired_with-TimedOut :
      (id : String) (timestamp now : ℕ) (tables : StateTables)
      (appended : Result AuditError ((String × ℕ) × AuditTables))
      → TimedOut id timestamp tables
          (expired_with api text_length audit_key now tables
            (update_where (is_pending_row id) (settle expired timestamp none) tables.approvals)
            appended).1
  expired_with-TimedOut id timestamp now tables (ok ((_, s), audit)) = inr refl
  expired_with-TimedOut id timestamp now tables (err e) = inl refl

  time_out-TimedOut :
      (id : String) (event : AuditEvent) (now : ℕ) (found : Option ApprovalRow)
      (tables : StateTables)
      → TimedOut id event.timestamp tables
          (time_out api text_length audit_key id event now found tables).1
  time_out-TimedOut id event now none tables = inl refl
  time_out-TimedOut id event now (some r) tables = ground (
    arith,
    expired_with-TimedOut id event.timestamp now tables
        (append_audit_row api audit_key event tables.audit),
  )

  complete-TimedOut :
      (id : String) (event : AuditEvent) (now : ℕ) (tables : StateTables)
      → TimedOut id event.timestamp tables
          (complete_approval_timeout api text_length audit_key id event now tables).1
  unfolding complete_approval_timeout
  complete-TimedOut id event now tables =
      ground (arith, time_out-TimedOut id event now (find_row id tables.approvals) tables)

  TimedOut-keeps :
      (id : String) (timestamp : ℕ) (tables after : StateTables) (row : ApprovalRow)
      → TimedOut id timestamp tables after
      → row.status ≢ pending
      → In row tables.approvals
      → In row after.approvals
  TimedOut-keeps id timestamp tables after row (inl e) n m = subst (In row) (sym e) m
  TimedOut-keeps id timestamp tables after row (inr e) n m = subst (In row) (sym e) (
      In-update_where (is_pending_row id) (settle expired timestamp none) tables.approvals row m
        (ground arith))

  -- A settled row stays as it is under every operation but the removal of its connector.
  pub apply_op-settled :
      (op : StoreOp) (tables : StateTables) (row : ApprovalRow)
      → row.status ≢ pending
      → In row tables.approvals
      → ¬ ClearsRow row op
      → In row (apply_op op tables).approvals
  unfolding apply_op grant_allows emergency_lock clear_connector delete_persistent_grant
      clear_persistent_grants
  apply_op-settled (insert request) tables row n m c = insert-keeps request tables row m
  apply_op-settled (resolve id decision now granted_at) tables row n m c =
      subst (In row) (sym (resolve_approval-approvals id decision now granted_at tables)) (
        In-update_where (is_open id now) (settle (status_of decision) now (some decision))
          tables.approvals row m (not_open id now row n))
  apply_op-settled (ask_grant key now) tables row n m c = m
  apply_op-settled (lock now) tables row n m c =
      In-update_where (λ r. is_pending r.status) (settle denied now (some deny)) tables.approvals
        row m (ground arith)
  apply_op-settled (clear connector_id) tables row n m c =
      In-filter (λ r. not (str_eq r.key.connector_id connector_id)) tables.approvals row m
        (ground (arith, eq_iff row.key.connector_id connector_id))
  apply_op-settled (revoke key) tables row n m c = m
  apply_op-settled (forget none) tables row n m c = m
  apply_op-settled (forget (some connector_id)) tables row n m c = m
  apply_op-settled (finish id event now) tables row n m c =
      TimedOut-keeps id event.timestamp tables
        (complete_approval_timeout api text_length audit_key id event now tables).1 row
        (complete-TimedOut id event now tables) n m

  abbrev pub NoneClears : ApprovalRow → List StoreOp → Type 0
  NoneClears row [] = Unit
  NoneClears row (op ∷ ops) = (¬ ClearsRow row op) × NoneClears row ops

  -- A row that is approved, denied or expired stays exactly as it is through any sequence of
  -- operations that does not remove its connector's authorization.
  pub settled-final :
      (ops : List StoreOp) (tables : StateTables) (row : ApprovalRow)
      → row.status ≢ pending
      → In row tables.approvals
      → NoneClears row ops
      → In row (apply_ops ops tables).approvals
  unfolding apply_ops
  settled-final [] tables row n m c = m
  settled-final (op ∷ ops) tables row n m (c, cs) =
      settled-final ops (apply_op op tables) row n (apply_op-settled op tables row n m c) cs
