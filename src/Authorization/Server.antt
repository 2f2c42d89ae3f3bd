-- ===== src/Authorization/Server.antt =====
-- `authorize_resolved` of crates/runonmine-mcp/src/mcp/server.rs, the gate of every tool call. The
-- record of a refusal by the rate limit is appended by a spawned task and is left out; `none` as a
-- reply is a call that still waits for the owner.
use run_on_mine.Prelude.{
  ℕ, String, Bool, false, Option, none, some, List, map, if◌then◌else◌, Result, ok, err,
}
use run_on_mine.Policy.Model.{
  PolicyMode, UrlApi, PrincipalContext, ResourceContext, ConnectorConfig,
}
use run_on_mine.Policy.Engine.{evaluate_context}
use run_on_mine.RateLimit.{PrincipalRateLimiter, RateError, check_at}
use run_on_mine.Audit.Event.{AuditOutcome, AuditApi}
use run_on_mine.Approval.Principal.{ApprovalPrincipal}
use run_on_mine.Approval.Tables.{GrantKey, StateTables}
use run_on_mine.Approval.Store.{grant_allows}
use run_on_mine.Authorization.Access.{
  oauth, RequestAccess, rate_limit_key, approval_principal, load_enabled_connector,
}
use run_on_mine.Authorization.Decision.{
  PreApprovalDecision, allow, deny, ask, pre_approval_decision,
}
use run_on_mine.Approval.Finality.{StoreOp, apply_ops}
use run_on_mine.Authorization.Recording.{
  rate_limited, configuration_unavailable, denied_by_policy, Stamp, AuditContext, record_required,
}
use run_on_mine.Authorization.Waiting.{Poll, Reply, Opening, request_with}

-- What a call of the gate reads from outside: its clocks, the configuration file as loaded, the
-- success of the grant lookup, what others do between that lookup and the job behind the decision,
-- and the turns of a wait.
pub record Surroundings (Url : Type 0) : Type 0 where
  pub instant : ℕ
  pub config : Option (List (ConnectorConfig Url))
  pub reads_grant : Bool
  pub now : ℕ
  pub meanwhile : List StoreOp
  pub recorded : Stamp
  pub opening : Opening
  pub polls : List Poll

pub record ServerState : Type 0 where
  pub rate_limiter : PrincipalRateLimiter
  pub tables : StateTables

-- `ResolvedAuthorization`, with the hash and the identity of the connector as its audit context.
pub record ResolvedAuthorization (Url : Type 0) : Type 0 where
  pub resources : List (ResourceContext Url)
  pub context : AuditContext

abbrev pub key_of_access : Option RequestAccess → String
key_of_access none = "stdio"
key_of_access (some access) = rate_limit_key access

abbrev pub principal_of_access : Option RequestAccess → ApprovalPrincipal
principal_of_access none = ApprovalPrincipal.local_stdio
principal_of_access (some access) = approval_principal access

abbrev pub policy_principal : Option RequestAccess → PrincipalContext
policy_principal none = PrincipalContext.local
policy_principal (some access) = elim access.principal [
  | oauth client_id subject _ ↦ PrincipalContext.oauth client_id subject
  | _ ↦ PrincipalContext.local
]

module _ (urls : UrlApi) where
  open urls use {Url}

  unfoldable pub authorization_modes :
      ConnectorConfig Url → Option RequestAccess → ResolvedAuthorization Url → List PolicyMode
  authorization_modes connector access request =
      map
        (λ resource.
          (evaluate_context urls connector request.context.tool_name request.context.capability
            (record { principal = policy_principal access; resource = resource })).mode)
        request.resources

  module _ (api : AuditApi) (text_length : String → ℕ) (audit_key : List ℕ)
      (fingerprint : ApprovalPrincipal → String) (timeout : ℕ) where
    abbrev pub grant_key : String → ApprovalPrincipal → ResolvedAuthorization Url → GrantKey
    grant_key connector_id principal request = record {
      connector_id = connector_id;
      principal_fingerprint = fingerprint principal;
      tool_name = request.context.tool_name;
      argument_hash = request.context.argument_hash;
    }

    -- A lookup that fails grants nothing.
    unfoldable pub exact_grant_allows :
        String
        → ApprovalPrincipal
        → ResolvedAuthorization Url
        → Surroundings Url
        → StateTables
        → Bool × StateTables
    exact_grant_allows connector_id principal request around tables =
        if around.reads_grant
        then grant_allows (grant_key connector_id principal request) around.now tables
        else (false, tables)

    abbrev pub denied_reply : Reply × StateTables → Option Reply × StateTables
    denied_reply (ok _, tables) = (some (err denied_by_policy), tables)
    denied_reply (err e, tables) = (some (err e), tables)

    abbrev pub allowed_reply : Reply × StateTables → Option Reply × StateTables
    allowed_reply (reply, tables) = (some reply, tables)

    -- The match on the decision.
    abbrev pub after_decision :
        PreApprovalDecision
        → ApprovalPrincipal
        → ResolvedAuthorization Url
        → Surroundings Url
        → StateTables
        → Option Reply × StateTables
    after_decision allow principal request around tables = allowed_reply (
        record_required api text_length audit_key request.context AuditOutcome.allowed
          request.context.summary around.recorded tables)
    after_decision deny principal request around tables = denied_reply (
        record_required api text_length audit_key request.context AuditOutcome.denied
          request.context.summary around.recorded tables)
    after_decision ask principal request around tables =
        request_with api text_length audit_key fingerprint principal timeout request.context
          around.opening around.polls tables

    -- Behind the rate limit
    unfoldable pub authorize_connector :
        Option (ConnectorConfig Url)
        → Option RequestAccess
        → ResolvedAuthorization Url
        → Surroundings Url
        → StateTables
        → Option Reply × StateTables
    authorize_connector none access request around tables =
        (some (err configuration_unavailable), tables)
    authorize_connector (some connector) access request around tables =
        let principal = principal_of_access access in
        let (granted, cleared) = exact_grant_allows connector.id principal request around tables in
        after_decision
          (pre_approval_decision (authorization_modes connector access request) granted) principal
          request around (apply_ops api text_length audit_key around.meanwhile cleared)

    abbrev pub after_rate_limit :
        Result RateError (Unit {0})
        → Option RequestAccess
        → ResolvedAuthorization Url
        → Surroundings Url
        → StateTables
        → Option Reply × StateTables
    after_rate_limit (err _) access request around tables = (some (err rate_limited), tables)
    after_rate_limit (ok _) access request around tables =
        authorize_connector (load_enabled_connector urls around.config request.context.connector_id)
          access request around tables

    unfoldable pub authorize_resolved :
        Option RequestAccess
        → ResolvedAuthorization Url
        → Surroundings Url
        → ServerState
        → Option Reply × ServerState
    authorize_resolved access request around state =
        let (checked, limiter) =
          check_at state.rate_limiter (key_of_access access) around.instant in
        let (reply, tables) = after_rate_limit checked access request around state.tables in
        (reply, record { rate_limiter = limiter; tables = tables })
