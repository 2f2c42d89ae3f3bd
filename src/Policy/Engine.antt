-- ===== src/Policy/Engine.antt =====
-- `PolicyEngine` of policy.rs: the selection of a rule, the overrides and presets behind it, and
-- the ceiling for connectors that can be reached from outside the machine.
use run_on_mine.Prelude.{
  ℕ, suc, ◌+◌, String, Bool, true, false, ◌&&◌, ◌||◌, Option, none, some, List, [], ◌∷◌, map,
  filter, leb, ltb, ◌==◌, if◌then◌else◌,
}
use run_on_mine.Prelude.Eq.{Eq, string_eq}
use run_on_mine.Policy.Model.{
  Capability, system_read, files_read, files_write, shell_exec, browser_read, browser_act,
  desktop_control, platform_native, admin_exec, PolicyMode, deny, ask, allow, PolicyPreset, safe,
  developer, full, custom, ConnectorKind, cloudflare_quick, cloudflare_oauth, open_ai_tunnel,
  UrlApi, PrincipalMatcher, PrincipalContext, ResourceMatcher, ResourceContext, PolicyRule,
  PolicyContext, ConnectorConfig, resource_rule, tool_override, pack_override, preset, default_deny,
  remote_safety_ceiling, PolicyDecision,
}
use run_on_mine.Policy.Matching.{capability_eq, rule_matches}

-- `BTreeMap::get`, over the map's entries
module _ {ℓ κ} {K : Type ℓ} {V : Type κ} ⦃e : Eq K⦄ where
  unfoldable pub get : K → List (K × V) → Option V
  get k [] = none
  get k ((j, v) ∷ m) = if e.beq j k then some v else get k m

abbrev pub all_capabilities : List Capability
all_capabilities =
    system_read ∷ files_read ∷ files_write ∷ shell_exec ∷ browser_read ∷ browser_act
    ∷ desktop_control ∷ platform_native ∷ admin_exec ∷ []

unfoldable pub modes : PolicyPreset → List (Capability × PolicyMode)
modes safe =
    (system_read, allow)
    ∷ (files_read, allow)
    ∷ (files_write, ask)
    ∷ (shell_exec, ask)
    ∷ (browser_read, allow)
    ∷ (browser_act, ask)
    ∷ (desktop_control, ask)
    ∷ (platform_native, ask)
    ∷ (admin_exec, deny)
    ∷ []
modes developer =
    (system_read, allow)
    ∷ (files_read, allow)
    ∷ (files_write, allow)
    ∷ (shell_exec, allow)
    ∷ (browser_read, allow)
    ∷ (browser_act, ask)
    ∷ (desktop_control, ask)
    ∷ (platform_native, ask)
    ∷ (admin_exec, deny)
    ∷ []
modes full = map (λ capability. (capability, allow)) all_capabilities
modes custom = []

abbrev pub principal_weight : PrincipalMatcher → ℕ
principal_weight PrincipalMatcher.any = 0
principal_weight _ = 1

abbrev pub option_weight {ℓ} : {A : Type ℓ} → Option A → ℕ
option_weight none = 0
option_weight (some _) = 1

unfoldable pub mode_priority : PolicyMode → ℕ
mode_priority deny = 3
mode_priority ask = 2
mode_priority allow = 1

-- The key of `max_by_key`: specificity, priority of the mode, index.
pub record Rank : Type 0 where
  pub specificity : ℕ
  pub priority : ℕ
  pub index : ℕ

-- The derived order of a tuple is lexicographic.
unfoldable pub rank_le : Rank → Rank → Bool
rank_le a b =
    ltb a.specificity b.specificity
    || a.specificity == b.specificity
      && (ltb a.priority b.priority || a.priority == b.priority && leb a.index b.index)

module _ {ℓ} {A : Type ℓ} where
  -- `Iterator::enumerate`, from a given index
  unfoldable pub enumerate : ℕ → List A → List (ℕ × A)
  enumerate n [] = []
  enumerate n (x ∷ xs) = (n, x) ∷ enumerate (suc n) xs

  -- `Iterator::max_by_key` keeps the later of two elements with equal keys.
  unfoldable pub max_from : (A → Rank) → A → List A → A
  unfolding rank_le
  max_from key best [] = best
  max_from key best (x ∷ xs) = max_from key (if rank_le (key best) (key x) then x else best) xs

  unfoldable pub max_by_key : (A → Rank) → List A → Option A
  unfolding max_from
  max_by_key key [] = none
  max_by_key key (x ∷ xs) = some (max_from key x xs)

unfoldable pub is_remote : ConnectorKind → Bool
is_remote cloudflare_quick = true
is_remote cloudflare_oauth = true
is_remote open_ai_tunnel = true
is_remote _ = false

abbrev pub is_allow : PolicyMode → Bool
is_allow allow = true
is_allow _ = false

-- The `match` that picks `capped_mode`; `none` is its early return of the decision.
unfoldable pub capped_mode : Capability → PolicyMode → Option PolicyMode
capped_mode admin_exec mode = some deny
capped_mode files_write allow = some ask
capped_mode shell_exec allow = some ask
capped_mode browser_act allow = some ask
capped_mode desktop_control allow = some ask
capped_mode platform_native allow = some ask
capped_mode _ _ = none

abbrev pub mode_beq : PolicyMode → PolicyMode → Bool
mode_beq deny deny = true
mode_beq ask ask = true
mode_beq allow allow = true
mode_beq _ _ = false

abbrev pub cap : Option PolicyMode → PolicyDecision → PolicyDecision
cap none decision = decision
cap (some mode) decision =
    if mode_beq mode decision.mode
    then decision
    else record { mode = mode; source = remote_safety_ceiling }

module _ (urls : UrlApi) where
  open urls use {Url}

  abbrev pub resource_weight : ResourceMatcher Url → ℕ
  resource_weight ResourceMatcher.any = 0
  resource_weight _ = 1

  unfoldable pub rule_specificity : PolicyRule Url → ℕ
  rule_specificity rule =
      principal_weight rule.principal
      + resource_weight rule.resource
      + option_weight rule.tool
      + option_weight rule.capability

  abbrev pub rule_rank : ℕ × PolicyRule Url → Rank
  unfolding rule_specificity mode_priority
  rule_rank (index, rule) = record {
    specificity = rule_specificity rule;
    priority = mode_priority rule.mode;
    index = index;
  }

  abbrev pub rule_decision : Option (ℕ × PolicyRule Url) → Option PolicyDecision
  rule_decision none = none
  rule_decision (some (_, rule)) = some (record { mode = rule.mode; source = resource_rule })

  unfoldable pub matching_rule :
      ConnectorConfig Url → String → Capability → PolicyContext Url → Option PolicyDecision
  unfolding enumerate filter rule_matches max_by_key rule_specificity mode_priority
  matching_rule connector tool_name capability context = rule_decision (
      max_by_key rule_rank (
        filter (λ entry. rule_matches urls tool_name capability context entry.1)
          (enumerate 0 connector.policy_rules)))

  unfoldable pub apply_remote_safety_ceiling :
      ConnectorConfig Url → Capability → PolicyDecision → PolicyDecision
  unfolding is_remote capped_mode
  apply_remote_safety_ceiling connector capability decision =
      if is_remote connector.kind
      then cap (capped_mode capability decision.mode) decision
      else decision

  -- The chain of `else if let` behind `matching_rule`.
  abbrev pub first_decision :
      Option PolicyDecision
      → Option PolicyMode
      → Option PolicyMode
      → Option PolicyMode
      → PolicyDecision
  first_decision (some decision) _ _ _ = decision
  first_decision none (some mode) _ _ = record { mode = mode; source = tool_override }
  first_decision none none (some mode) _ = record { mode = mode; source = pack_override }
  first_decision none none none (some mode) = record { mode = mode; source = preset }
  first_decision none none none none = record { mode = deny; source = default_deny }

  unfoldable pub evaluate_context :
      ConnectorConfig Url → String → Capability → PolicyContext Url → PolicyDecision
  evaluate_context connector tool_name capability context =
      apply_remote_safety_ceiling connector capability (
        first_decision (matching_rule connector tool_name capability context)
          (get tool_name connector.tool_overrides) (get capability connector.pack_overrides)
          (get capability (modes connector.policy_preset)))

  -- `evaluate_context` for a local caller and no resource
  unfoldable pub evaluate : ConnectorConfig Url → String → Capability → PolicyDecision
  unfolding evaluate_context
  evaluate connector tool_name capability =
      evaluate_context connector tool_name capability
        (record { principal = PrincipalContext.local; resource = ResourceContext.nothing })
