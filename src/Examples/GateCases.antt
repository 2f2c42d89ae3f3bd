-- ===== src/Examples/GateCases.antt =====
-- The gate's theorems at a shell call that a rule allows, and at one that the owner approves.
use run_on_mine.Prelude.{
  ℕ, ◌≡◌, refl, arith, inl, String, true, Option, none, some, List, [], ◌∷◌, any, count_where, find,
  update_where, filter, ok,
}
use Prim.Native.String.{count}
use run_on_mine.Prelude.Seq.{last}
use run_on_mine.Policy.Model.{
  allow, custom, local_stdio, UrlApi, PrincipalMatcher, ResourceMatcher, ResourceContext,
  ConnectorConfig, shell_exec,
}
use run_on_mine.Policy.Matching.{rule_matches, principal_matches, resource_matches}
use run_on_mine.Policy.Engine.{
  evaluate_context, matching_rule, apply_remote_safety_ceiling, is_remote, get, modes,
}
use run_on_mine.RateLimit.{new, check_at, prune, insert, pop_expired, cutoff_at}
use run_on_mine.Audit.Chain.{
  audit_anchor, insert_row, update_audit_tail, audit_optional_u64_to_i64, append_audit_row,
}
use run_on_mine.Audit.Mac.{record_mac, tail_mac}
use run_on_mine.Audit.Retention.{append_audit}
use run_on_mine.Approval.Principal.{ApprovalPrincipal, for_ten_minutes}
use run_on_mine.Approval.Tables.{StateTables}
use run_on_mine.Approval.Store.{find_row, resolve_approval, grant_allows, upsert_temporary}
use run_on_mine.Approval.Finality.{resolve, apply_ops, apply_op}
use run_on_mine.Authorization.Access.{RequestAccess, load_enabled_connector}
use run_on_mine.Authorization.Decision.{pre_approval_decision}
use run_on_mine.Authorization.Recording.{
  Stamp, AuditContext, new_event, capability_requires_reliable_audit, append_required,
  append_required-reliable,
}
use run_on_mine.Authorization.Waiting.{Poll, poll_once, complete_existing_status, wait_for_approval}
use run_on_mine.Authorization.Consent.{IsConsented, wait_for_approval-ok}
use run_on_mine.Authorization.Ending.{Replies, wait_for_approval-Replies}
use run_on_mine.Authorization.Server.{
  Surroundings, ServerState, ResolvedAuthorization, key_of_access, principal_of_access,
  authorization_modes, exact_grant_allows, authorize_connector, authorize_resolved,
}
use run_on_mine.Authorization.Soundness.{OwnerApproved, IsPermitted, authorize_resolved-ok}
use run_on_mine.Examples.AuditData.{api, sample, one_row}
use run_on_mine.Examples.ApprovalCases.{asked, answered}

abbrev key : List ℕ
key = 7 ∷ []

abbrev stamp : Stamp
stamp = record { id = "e1"; timestamp = 5; now = 5; available = true }

abbrev context : AuditContext
context = record {
  connector_id = "c1";
  tool_name = "shell_exec";
  capability = shell_exec;
  argument_hash = "h";
  summary = "run ls";
}

abbrev approving : Poll
approving = record {
  before = resolve "a1" for_ten_minutes 20 21 ∷ [];
  readable = true;
  before_record = [];
  recorded = stamp;
  instant = 50;
  between = [];
  completes = true;
  timeout = stamp;
  before_last_record = [];
}

abbrev approved_tables : StateTables
approved_tables = record answered { audit = one_row }

owner_approves :
    wait_for_approval api count key 100 "a1" context (approving ∷ []) asked
    ≡ (some (ok tt), approved_tables)
unfolding wait_for_approval poll_once complete_existing_status find_row apply_ops apply_op
    resolve_approval count_where update_where upsert_temporary find append_required append_audit
    append_audit_row audit_anchor new_event audit_optional_u64_to_i64 insert_row any
    update_audit_tail last record_mac tail_mac
owner_approves = refl

wait_for_approval-ok_example :
    IsConsented api count key 100 "a1" context (approving ∷ []) asked approved_tables
wait_for_approval-ok_example =
    wait_for_approval-ok api count key 100 "a1" context (approving ∷ []) asked approved_tables
      owner_approves

abbrev late : Poll
late = record approving { before = []; instant = 100 }

wait_for_approval-Replies_example :
    Replies (wait_for_approval api count key 100 "a1" context (late ∷ approving ∷ []) asked)
wait_for_approval-Replies_example =
    wait_for_approval-Replies api count key 100 "a1" context (late ∷ approving ∷ []) late asked
      (inl refl) (omega arith)

record_taken : (append_required api count key sample shell_exec stamp asked).0 ≡ ok tt
unfolding append_required append_audit append_audit_row audit_anchor any insert_row
    update_audit_tail audit_optional_u64_to_i64 last record_mac tail_mac
record_taken = refl

append_required-reliable_example :
    (hash : String) × (append_audit api count key 5 sample asked.audit
      ≡ (ok hash, (append_required api count key sample shell_exec stamp asked).1.audit))
unfolding capability_requires_reliable_audit
append_required-reliable_example =
    append_required-reliable api count key sample shell_exec stamp asked refl record_taken

abbrev urls : UrlApi
urls = record {
  Url = String × Option String × Option ℕ;
  scheme = λ url. url.0;
  host_str = λ url. url.1;
  port_or_known_default = λ url. url.2;
}

abbrev connector : ConnectorConfig urls.Url
connector = record {
  id = "c1";
  name = "laptop";
  kind = local_stdio;
  enabled = true;
  policy_preset = custom;
  pack_overrides = [];
  tool_overrides = [];
  policy_rules =
      record {
        mode = allow;
        principal = PrincipalMatcher.any;
        resource = ResourceMatcher.any;
        tool = some "shell_exec";
        capability = none;
      }
      ∷ [];
}

abbrev around : Surroundings urls.Url
around = record {
  instant = 100;
  config = some (connector ∷ []);
  reads_grant = true;
  now = 5;
  meanwhile = [];
  recorded = stamp;
  opening = record {
    id = "a2";
    requested_at = 5;
    created_at = 5;
    argument_summary = "ls";
    timeout_fits = true;
    inserts = true;
    before_record = [];
    recorded = stamp;
    before_denial = [];
    denies = true;
    denied_at = 5;
    instant = 100;
  };
  polls = [];
}

abbrev request : ResolvedAuthorization urls.Url
request = record { resources = ResourceContext.command (108 ∷ 115 ∷ []) ∷ []; context = context }

abbrev started : ServerState
started = record { rate_limiter = new 2; tables = asked }

abbrev fingerprint : ApprovalPrincipal → String
fingerprint principal = "stdio"

abbrev no_access : Option RequestAccess
no_access = none

abbrev served : ServerState
served = record {
  rate_limiter = (check_at (new 2) "stdio" 100).1;
  tables = record asked { audit = one_row };
}

rule_allows :
    authorize_resolved urls api count key fingerprint 60 no_access request around started
    ≡ (some (ok tt), served)
unfolding authorize_resolved check_at new prune insert pop_expired cutoff_at authorize_connector
    load_enabled_connector find pre_approval_decision authorization_modes evaluate_context
    apply_remote_safety_ceiling matching_rule rule_matches principal_matches resource_matches
    exact_grant_allows grant_allows filter get modes is_remote append_required append_audit
    append_audit_row audit_anchor new_event audit_optional_u64_to_i64 insert_row any
    update_audit_tail last record_mac tail_mac apply_ops
rule_allows = refl

authorize_resolved-ok_example :
    ((check_at started.rate_limiter (key_of_access no_access) around.instant).0 ≡ ok tt)
    × ((connector : ConnectorConfig urls.Url) × (load_enabled_connector urls around.config
            request.context.connector_id
          ≡ some connector)
        × IsPermitted api count key request.context
            (authorization_modes urls connector no_access request)
            (exact_grant_allows urls api count key fingerprint 60 connector.id
              (principal_of_access no_access)
              request
              around
              started.tables).0
            (OwnerApproved urls api count key fingerprint 60
              (principal_of_access no_access)
              request
              around
              (apply_ops api count key around.meanwhile
                (exact_grant_allows urls api count key fingerprint 60 connector.id
                  (principal_of_access no_access)
                  request
                  around
                  started.tables).1))
            served.tables)
authorize_resolved-ok_example =
    authorize_resolved-ok urls api count key fingerprint 60 no_access request around started served
      rule_allows
