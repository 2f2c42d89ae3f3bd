-- ===== src/Authorization/Soundness.antt =====
-- What a tool call that `authorize_resolved` lets through has passed.
use run_on_mine.Prelude.{
  ℕ, ◌+◌, ◌≡◌, ◌≢◌, refl, sym, ap, ◌∙◌, ◌⊎◌, inl, inr, String, Bool, true, not, Option, none, some,
  List, arith, if◌then◌else◌, if-elim, Result, ok, err,
}
use run_on_mine.Prelude.Members.{All, In}
use run_on_mine.Policy.Model.{PolicyMode, UrlApi, ConnectorConfig}
use run_on_mine.RateLimit.{RateError, check_at}
use run_on_mine.Audit.Event.{AuditOutcome, AuditApi}
use run_on_mine.Approval.Principal.{ApprovalPrincipal}
use run_on_mine.Approval.Tables.{StateTables, ApprovalRequest, new_request}
use run_on_mine.Approval.Finality.{apply_ops}
use run_on_mine.Approval.Store.{StoreError, insert_approval}
use run_on_mine.Authorization.Access.{RequestAccess, load_enabled_connector}
use run_on_mine.Authorization.Decision.{
  PreApprovalDecision, allow, deny, ask, pre_approval_decision, pre_approval_decision_iff,
}
use run_on_mine.Authorization.Recording.{
  AuditContext, invalid_timeout, request_not_created, record_required,
}
use run_on_mine.Authorization.Waiting.{
  Poll, Reply, Opening, after_insert, after_creation, request_with,
}
use run_on_mine.Authorization.Consent.{Moments, wait_for_approval-ok}
use run_on_mine.Authorization.Statuses.{IsApproved, IsRecorded, record_required-IsRecorded}
use run_on_mine.Authorization.Server.{
  Surroundings, ServerState, ResolvedAuthorization, key_of_access, allowed_reply,
  principal_of_access, authorization_modes, exact_grant_allows, denied_reply, after_decision,
  authorize_connector, after_rate_limit, authorize_resolved,
}

module _ (api : AuditApi) (text_length : String → ℕ) (audit_key : List ℕ) where
  -- What a wait that let its call through rests on: the request was stored, its pending question
  -- recorded, and then its row read as approved, at one of the moments of the wait.
  abbrev pub WasApproved :
      ApprovalRequest → ℕ → AuditContext → Opening → List Poll → StateTables → StateTables → Type 0
  WasApproved request timeout context opening polls tables read =
      (inserted stored : StateTables) × (insert_approval request tables ≡ ok inserted)
      × (record_required api text_length audit_key context AuditOutcome.pending_approval
            context.summary opening.recorded
            (apply_ops api text_length audit_key opening.before_record inserted)
          ≡ (ok tt, stored))
      × Moments api text_length audit_key (opening.instant + timeout) polls stored read
      × IsApproved opening.id read

  abbrev pub IsAnswered :
      ApprovalRequest → ℕ → AuditContext → Opening → List Poll → StateTables → StateTables → Type 0
  IsAnswered request timeout context opening polls tables after =
      ((read : StateTables) × WasApproved request timeout context opening polls tables read)
      × IsRecorded api text_length audit_key context after

  after_insert-ok :
      (request : ApprovalRequest) (timeout : ℕ) (context : AuditContext) (opening : Opening)
      (polls : List Poll) (tables inserted : StateTables) (recorded : Reply × StateTables)
      (after : StateTables)
      → insert_approval request tables ≡ ok inserted
      → record_required api text_length audit_key context AuditOutcome.pending_approval
          context.summary opening.recorded
          (apply_ops api text_length audit_key opening.before_record inserted)
        ≡ recorded
      → after_insert api text_length audit_key timeout context opening polls recorded
        ≡ (some (ok tt), after)
      → IsAnswered request timeout context opening polls tables after
  after_insert-ok request timeout context opening polls tables inserted (ok _, stored) after i r h =
      let (read, when, (approval, last)) =
        wait_for_approval-ok api text_length audit_key (opening.instant + timeout) opening.id
          context polls stored after h in
      ((read, (inserted, stored, i, r, when, approval)), last)
  after_insert-ok request timeout context opening polls tables inserted (err e, stored) after i r
        h =
      absurd (ground arith)

  after_creation-ok :
      (request : ApprovalRequest) (timeout : ℕ) (context : AuditContext) (opening : Opening)
      (polls : List Poll) (tables after : StateTables) (inserted : Result StoreError StateTables)
      → insert_approval request tables ≡ inserted
      → after_creation api text_length audit_key timeout context opening polls tables inserted
        ≡ (some (ok tt), after)
      → IsAnswered request timeout context opening polls tables after
  after_creation-ok request timeout context opening polls tables after (err e) i h = cc
  after_creation-ok request timeout context opening polls tables after (ok inserted) i h =
      after_insert-ok request timeout context opening polls tables inserted
        (record_required api text_length audit_key context AuditOutcome.pending_approval
          context.summary opening.recorded
          (apply_ops api text_length audit_key opening.before_record inserted))
        after i refl h

  -- The request that a question to the owner stores.
  abbrev pub request_of :
      (ApprovalPrincipal → String)
      → ApprovalPrincipal
      → ℕ
      → AuditContext
      → Opening
      → ApprovalRequest
  request_of fingerprint principal timeout context opening =
      new_request fingerprint opening.id opening.created_at context.connector_id principal
        context.tool_name opening.argument_summary context.argument_hash
        (opening.requested_at + timeout)

  -- A question to the owner lets a call through only when the request that it stored was read as
  -- approved, and records it where the capability needs that.
  pub request_with-ok :
      (fingerprint : ApprovalPrincipal → String) (principal : ApprovalPrincipal) (timeout : ℕ)
      (context : AuditContext) (opening : Opening) (polls : List Poll) (tables after : StateTables)
      → request_with api text_length audit_key fingerprint principal timeout context opening polls
          tables
        ≡ (some (ok tt), after)
      → IsAnswered
          (request_of fingerprint principal timeout context opening)
          timeout
          context
          opening
          polls
          tables
          after
  unfolding request_with
  request_with-ok fingerprint principal timeout context opening polls tables after =
      let request = request_of fingerprint principal timeout context opening in
      let P : Option Reply × StateTables → Type 0 = λ end.
        end ≡ (some (ok tt), after)
        → IsAnswered request timeout context opening polls tables after in
      let created =
        after_creation api text_length audit_key timeout context opening polls tables
          (insert_approval request tables) in
      let refused : Option Reply × StateTables = (some (err request_not_created), tables) in
      if-elim P (not opening.timeout_fits) (some (err invalid_timeout), tables)
        (if not opening.inserts then refused else created) (λ _ h. cc)
        (λ _.
          if-elim P (not opening.inserts) refused created (λ _ h. cc)
            (λ _.
              after_creation-ok request timeout context opening polls tables after
                (insert_approval request tables) refl))

-- The conditions under which the gate opens; `granted` is the answer of the grant lookup, and
-- `approved_in` says of some tables that the owner's approval was read in them.
pub record IsPermitted (api : AuditApi) (text_length : String → ℕ) (audit_key : List ℕ)
    (context : AuditContext) (modes : List PolicyMode) (granted : Bool)
    (approved_in : StateTables → Type 0) (after : StateTables) : Type 0 where
  pub no_denial : ¬ In PolicyMode.deny modes
  pub consent :
      All (λ m. m ≡ PolicyMode.allow) modes
      ⊎ (granted ≡ true)
      ⊎ ((read : StateTables) × approved_in read)
  pub recorded : IsRecorded api text_length audit_key context after

module _ (urls : UrlApi) (api : AuditApi) (text_length : String → ℕ) (audit_key : List ℕ)
    (fingerprint : ApprovalPrincipal → String) (timeout : ℕ) where
  -- The owner's approval of the request that this call stored.
  abbrev pub OwnerApproved :
      ApprovalPrincipal
      → ResolvedAuthorization urls.Url
      → Surroundings urls.Url
      → StateTables
      → StateTables
      → Type 0
  OwnerApproved principal request around tables read =
      WasApproved api text_length audit_key
        (request_of api text_length audit_key fingerprint principal timeout request.context
          around.opening)
        timeout request.context around.opening around.polls tables read

  denied-not_ok :
      (recorded : Reply × StateTables) (after : StateTables)
      → denied_reply urls api text_length audit_key fingerprint timeout recorded
        ≢ (some (ok tt), after)
  denied-not_ok (ok _, tables) after h = cc
  denied-not_ok (err e, tables) after h = cc

  allowed-inv :
      (recorded : Reply × StateTables) (after : StateTables)
      → allowed_reply urls api text_length audit_key fingerprint timeout recorded
        ≡ (some (ok tt), after)
      → recorded ≡ (ok tt, after)
  allowed-inv (reply, tables) after h = ground arith

  ask-deny : ask ≢ deny
  ask-deny h = cc

  undecided :
      (modes : List PolicyMode) (granted : Bool)
      → pre_approval_decision modes granted ≡ ask
      → ¬ In PolicyMode.deny modes
  undecided modes granted d m =
      absurd (ask-deny (sym d ∙ (pre_approval_decision_iff modes granted).0.1 m))

  permission :
      (modes : List PolicyMode) (granted : Bool) (principal : ApprovalPrincipal)
      (request : ResolvedAuthorization urls.Url) (around : Surroundings urls.Url)
      (tables after : StateTables) (decision : PreApprovalDecision)
      → pre_approval_decision modes granted ≡ decision
      → after_decision urls api text_length audit_key fingerprint timeout decision principal request
          around tables
        ≡ (some (ok tt), after)
      → IsPermitted api text_length audit_key request.context modes granted
          (OwnerApproved principal request around tables)
          after
  permission modes granted principal request around tables after allow d h =
      let (no_denial, how) = (pre_approval_decision_iff modes granted).1.0 d in
      record {
        no_denial = no_denial;
        consent = elim how [ inl g ↦ inr (inl g) | inr all ↦ inl all ];
        recorded =
            record_required-IsRecorded api text_length audit_key request.context around.recorded
              tables after
              (allowed-inv
                (record_required api text_length audit_key request.context AuditOutcome.allowed
                  request.context.summary around.recorded tables)
                after h);
      }
  permission modes granted principal request around tables after deny d h =
      absurd (denied-not_ok _ after h)
  permission modes granted principal request around tables after ask d h =
      let (approval, recorded) =
        request_with-ok api text_length audit_key fingerprint principal timeout request.context
          around.opening around.polls tables after h in
      record {
        no_denial = undecided modes granted d;
        consent = inr (inr approval);
        recorded = recorded;
      }

  connector-permission :
      (loaded : Option (ConnectorConfig urls.Url)) (access : Option RequestAccess)
      (request : ResolvedAuthorization urls.Url) (around : Surroundings urls.Url)
      (tables after : StateTables)
      → authorize_connector urls api text_length audit_key fingerprint timeout loaded access request
          around tables
        ≡ (some (ok tt), after)
      → (connector : ConnectorConfig urls.Url) × (loaded ≡ some connector)
        × IsPermitted api text_length audit_key request.context
            (authorization_modes urls connector access request)
            (exact_grant_allows urls api text_length audit_key fingerprint timeout connector.id
              (principal_of_access access)
              request
              around
              tables).0
            (OwnerApproved (principal_of_access access) request around (
              apply_ops api text_length audit_key around.meanwhile
                (exact_grant_allows urls api text_length audit_key fingerprint timeout connector.id
                  (principal_of_access access)
                  request
                  around
                  tables).1))
            after
  unfolding authorize_connector
  connector-permission none access request around tables after h = cc
  connector-permission (some connector) access request around tables after h =
      let granted =
        exact_grant_allows urls api text_length audit_key fingerprint timeout connector.id
          (principal_of_access access) request around tables in
      (
        connector,
        refl,
        permission (authorization_modes urls connector access request) granted.0
            (principal_of_access access) request around
            (apply_ops api text_length audit_key around.meanwhile granted.1) after
            (pre_approval_decision (authorization_modes urls connector access request) granted.0)
            refl h,
      )

  rate-permission :
      (checked : Result RateError (Unit {0})) (access : Option RequestAccess)
      (request : ResolvedAuthorization urls.Url) (around : Surroundings urls.Url)
      (tables after : StateTables)
      → after_rate_limit urls api text_length audit_key fingerprint timeout checked access request
          around tables
        ≡ (some (ok tt), after)
      → (checked ≡ ok tt)
        × (authorize_connector urls api text_length audit_key fingerprint timeout
              (load_enabled_connector urls around.config request.context.connector_id)
              access
              request
              around
              tables
            ≡ (some (ok tt), after))
  rate-permission (ok tt) access request around tables after h = (refl, h)
  rate-permission (err e) access request around tables after h = cc

  -- When the gate lets a call through: the rate limit admitted it, the connector is configured and
  -- enabled, the policy denies none of the call's resources, and the policy allows all of them, or a
  -- grant stands for exactly this connector, caller, tool and argument hash, or the request that this
  -- call stored was read as approved while the call waited; and a call for a capability that needs a reliable audit was
  -- recorded as allowed by the last append to the audit log.
  pub authorize_resolved-ok :
      (access : Option RequestAccess) (request : ResolvedAuthorization urls.Url)
      (around : Surroundings urls.Url) (state after : ServerState)
      → authorize_resolved urls api text_length audit_key fingerprint timeout access request around
          state
        ≡ (some (ok tt), after)
      → ((check_at state.rate_limiter (key_of_access access) around.instant).0 ≡ ok tt)
        × ((connector : ConnectorConfig urls.Url) × (load_enabled_connector urls around.config
                request.context.connector_id
              ≡ some connector)
            × IsPermitted api text_length audit_key request.context
                (authorization_modes urls connector access request)
                (exact_grant_allows urls api text_length audit_key fingerprint timeout connector.id
                  (principal_of_access access)
                  request
                  around
                  state.tables).0
                (OwnerApproved (principal_of_access access) request around (
                  apply_ops api text_length audit_key around.meanwhile
                    (exact_grant_allows urls api text_length audit_key fingerprint timeout
                      connector.id
                      (principal_of_access access)
                      request
                      around
                      state.tables).1))
                after.tables)
  unfolding authorize_resolved
  authorize_resolved-ok access request around state after h =
      let (admitted, behind) =
        rate-permission (check_at state.rate_limiter (key_of_access access) around.instant).0 access
          request around state.tables after.tables
          (ap (λ (end : Option Reply × ServerState). (end.0, end.1.tables)) h) in
      (
        admitted,
        connector-permission
            (load_enabled_connector urls around.config request.context.connector_id) access request
            around state.tables after.tables behind,
      )
