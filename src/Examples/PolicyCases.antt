-- ===== src/Examples/PolicyCases.antt =====
-- The policy theorems at a remote connector with two rules, and the gate's combination of modes.
use run_on_mine.Prelude.{
  ℕ, zero, suc, ◌≡◌, ◌≢◌, ◌↔◌, refl, arith, String, str_eq, eq_iff, subst, some-injective, true,
  false, Option, none, some, List, [], ◌∷◌, ◌++◌, ◌⊎◌, ◌≤◌, ok,
}
use run_on_mine.Prelude.Members.{All, In}
use run_on_mine.Policy.Model.{
  Capability-discrete, custom, cloudflare_quick, UrlApi, PrincipalMatcher, PrincipalContext,
  ResourceMatcher, ResourceContext, PolicyRule, PolicyContext, ConnectorConfig, resource_rule,
  PolicyDecision, shell_exec, files_read, deny, ask, allow,
}
use run_on_mine.Policy.Matching.{
  rule_matches, principal_matches, resource_matches, command_prefix_matches,
}
use run_on_mine.Policy.Engine.{evaluate_context, matching_rule, rule_specificity, is_remote}
use run_on_mine.Policy.Selection.{RuleAt, Matches, matching_rule-none}
use run_on_mine.Policy.Tightening.{evaluate_context-remote}
use run_on_mine.Policy.Commands.{IsCommandOf, command_prefix_matches_iff, filesystem_prefix_iff}
use run_on_mine.Approval.Principal.{ApprovalPrincipal, from_storage, IsComplete}
use run_on_mine.Authorization.Decision.{
  PreApprovalDecision, pre_approval_decision, pre_approval_decision_iff,
}

-- URLs by their scheme, host and port.
abbrev urls : UrlApi
urls = record {
  Url = String × Option String × Option ℕ;
  scheme = λ url. url.0;
  host_str = λ url. url.1;
  port_or_known_default = λ url. url.2;
}

abbrev allow_shell : PolicyRule urls.Url
allow_shell = record {
  mode = allow;
  principal = PrincipalMatcher.any;
  resource = ResourceMatcher.any;
  tool = some "shell_exec";
  capability = none;
}

abbrev deny_shell : PolicyRule urls.Url
deny_shell = record {
  mode = deny;
  principal = PrincipalMatcher.any;
  resource = ResourceMatcher.any;
  tool = none;
  capability = some shell_exec;
}

abbrev connector : ConnectorConfig urls.Url
connector = record {
  id = "c1";
  name = "laptop";
  kind = cloudflare_quick;
  enabled = true;
  policy_preset = custom;
  pack_overrides = [];
  tool_overrides = [];
  policy_rules = allow_shell ∷ deny_shell ∷ [];
}

abbrev context : PolicyContext urls.Url
context = record { principal = PrincipalContext.local; resource = ResourceContext.nothing }

abbrev shell_denied : PolicyDecision
shell_denied = record { mode = deny; source = resource_rule }

no_file_rule : matching_rule urls connector "fs_read" files_read context ≡ none
unfolding matching_rule Capability-discrete principal_matches resource_matches
no_file_rule = refl

evaluate_context-remote_example :
    (evaluate_context urls connector "shell_exec" shell_exec context).mode ≢ allow
unfolding is_remote
evaluate_context-remote_example =
    evaluate_context-remote urls connector "shell_exec" shell_exec context refl refl

deny_shell-Matches : Matches urls connector "shell_exec" shell_exec context deny_shell
unfolding rule_matches Capability-discrete principal_matches resource_matches
deny_shell-Matches = refl

one_of :
    (other rule : PolicyRule urls.Url)
    → some rule ≡ some other
    → rule_specificity urls rule ≤ 1
    → rule_specificity urls other ≤ 1
one_of other rule s h =
    subst (λ (r : PolicyRule urls.Url). rule_specificity urls r ≤ 1) (some-injective rule other s) h

as_specific :
    (j : ℕ) (other : PolicyRule urls.Url)
    → RuleAt urls connector j other
    → Matches urls connector "shell_exec" shell_exec context other
    → rule_specificity urls other ≤ rule_specificity urls deny_shell
unfolding rule_specificity
as_specific zero other s m = one_of other allow_shell s (omega arith)
as_specific (suc zero) other s m = one_of other deny_shell s (omega arith)
as_specific (suc (suc j)) other s m = cc

no_rule_for_files :
    (j : ℕ) (other : PolicyRule urls.Url)
    → RuleAt urls connector j other
    → ¬ Matches urls connector "fs_read" files_read context other
no_rule_for_files j other s =
    matching_rule-none urls connector "fs_read" files_read context j other no_file_rule s

-- "ls" and "ls -l"
command_prefix_matches_iff_example :
    (command_prefix_matches (108 ∷ 115 ∷ []) (108 ∷ 115 ∷ 32 ∷ 45 ∷ 108 ∷ []) ≡ true)
    ↔ IsCommandOf (108 ∷ 115 ∷ []) (108 ∷ 115 ∷ 32 ∷ 45 ∷ 108 ∷ [])
command_prefix_matches_iff_example =
    command_prefix_matches_iff (108 ∷ 115 ∷ []) (108 ∷ 115 ∷ 32 ∷ 45 ∷ 108 ∷ [])

abbrev notes : List String
notes = "/" ∷ "home" ∷ "notes" ∷ []

filesystem_prefix_iff_example :
    (resource_matches urls
        (ResourceMatcher.filesystem_prefix ("/" ∷ "home" ∷ []))
        (ResourceContext.filesystem notes)
      ≡ true)
    ↔ ((rest : List String) × (notes ≡ ("/" ∷ "home" ∷ []) ++ rest))
filesystem_prefix_iff_example = filesystem_prefix_iff urls ("/" ∷ "home" ∷ []) notes

pre_approval_decision_iff_example :
    ((pre_approval_decision (allow ∷ ask ∷ []) true ≡ PreApprovalDecision.deny)
      ↔ In deny (allow ∷ ask ∷ []))
    × ((pre_approval_decision (allow ∷ ask ∷ []) true ≡ PreApprovalDecision.allow) ↔ (
        ¬ In deny (allow ∷ ask ∷ []) × ((true ≡ true) ⊎ All (λ m. m ≡ allow) (allow ∷ ask ∷ []))))
pre_approval_decision_iff_example = pre_approval_decision_iff (allow ∷ ask ∷ []) true

nonempty : (name : String) → str_eq name "" ≡ false → name ≢ ""
nonempty name f e = ground (arith, eq_iff name "")

named : IsComplete (ApprovalPrincipal.oauth "client" "owner")
named = (nonempty "client" refl, nonempty "owner" refl)

stored_owner :
    from_storage "oauth" (some "client") (some "owner")
    ≡ ok (ApprovalPrincipal.oauth "client" "owner")
unfolding from_storage
stored_owner = refl
