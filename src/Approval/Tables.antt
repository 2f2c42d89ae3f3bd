-- ===== src/Approval/Tables.antt =====
-- The rows of the approval tables of storage.rs and the values that callers see. The four columns
-- that are the primary key of both grant tables stand together in `GrantKey`; a status and a
-- decision are kept as the values whose names the columns hold.
use run_on_mine.Prelude.{ℕ, ◌*◌, ◌^◌, String, str_eq, Bool, ◌&&◌, Option, none, List}
use run_on_mine.Audit.Event.{AuditTables}
use run_on_mine.Approval.Principal.{
  ApprovalStatus, pending, ApprovalDecision, ApprovalPrincipal, storage_kind, oauth_client_id,
  oauth_subject,
}

pub record GrantKey : Type 0 where
  pub connector_id : String
  pub principal_fingerprint : String
  pub tool_name : String
  pub argument_hash : String

unfoldable pub key_beq : GrantKey → GrantKey → Bool
key_beq a b =
    str_eq a.connector_id b.connector_id
    && str_eq a.principal_fingerprint b.principal_fingerprint
    && str_eq a.tool_name b.tool_name
    && str_eq a.argument_hash b.argument_hash

pub record StoredPrincipal : Type 0 where
  pub principal_kind : String
  pub oauth_client_id : Option String
  pub oauth_subject : Option String

pub record ApprovalRow : Type 0 where
  pub id : String
  pub key : GrantKey
  pub principal : StoredPrincipal
  pub argument_summary : String
  pub status : ApprovalStatus
  pub created_at : ℕ
  pub expires_at : ℕ
  pub resolved_at : Option ℕ
  pub decision : Option ApprovalDecision

pub record TemporaryGrant : Type 0 where
  pub key : GrantKey
  pub principal : StoredPrincipal
  pub expires_at : ℕ

pub record PersistentGrantRow : Type 0 where
  pub key : GrantKey
  pub principal : StoredPrincipal
  pub argument_summary : String
  pub created_at : ℕ

pub record StateTables : Type 0 where
  pub approvals : List ApprovalRow
  pub temporary_grants : List TemporaryGrant
  pub persistent_grants : List PersistentGrantRow
  pub audit : AuditTables

pub record ApprovalRequest : Type 0 where
  pub id : String
  pub connector_id : String
  pub principal : ApprovalPrincipal
  pub principal_fingerprint : String
  pub tool_name : String
  pub argument_summary : String
  pub argument_hash : String
  pub status : ApprovalStatus
  pub created_at : ℕ
  pub expires_at : ℕ
  pub resolved_at : Option ℕ
  pub decision : Option ApprovalDecision

-- `ApprovalRequest::new`, given the fresh identifier, the clock and the fingerprint of a principal.
unfoldable pub new_request :
    (fingerprint : ApprovalPrincipal → String) (id : String) (now : ℕ) (connector_id : String)
    (principal : ApprovalPrincipal) (tool_name argument_summary argument_hash : String)
    (expires_at : ℕ)
    → ApprovalRequest
new_request fingerprint id now connector_id principal tool_name argument_summary argument_hash
      expires_at =
    record {
      id = id;
      connector_id = connector_id;
      principal = principal;
      principal_fingerprint = fingerprint principal;
      tool_name = tool_name;
      argument_summary = argument_summary;
      argument_hash = argument_hash;
      status = pending;
      created_at = now;
      expires_at = expires_at;
      resolved_at = none;
      decision = none;
    }

-- The columns that `INSERT INTO approvals` writes.
unfoldable pub row_of : ApprovalRequest → ApprovalRow
unfolding storage_kind oauth_client_id oauth_subject
row_of request = record {
  id = request.id;
  key = record {
    connector_id = request.connector_id;
    principal_fingerprint = request.principal_fingerprint;
    tool_name = request.tool_name;
    argument_hash = request.argument_hash;
  };
  principal = record {
    principal_kind = storage_kind request.principal;
    oauth_client_id = oauth_client_id request.principal;
    oauth_subject = oauth_subject request.principal;
  };
  argument_summary = request.argument_summary;
  status = request.status;
  created_at = request.created_at;
  expires_at = request.expires_at;
  resolved_at = none;
  decision = none;
}

-- ten minutes in nanoseconds
abbrev pub ten_minutes : ℕ
ten_minutes = 10 * 60 * 10 ^ 9
