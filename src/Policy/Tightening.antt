-- ===== src/Policy/Tightening.antt =====
-- What a denial and the remote safety ceiling guarantee of every evaluation.
use run_on_mine.Prelude.{
  ℕ, ◌≤◌, ◌≡◌, ◌≢◌, refl, inl, inr, Bool, true, false, String, Option, none, some, arith,
  Option-cases, subst, ap, sym, ◌∙◌,
}
use run_on_mine.Prelude.Eq.{string_eq}
use run_on_mine.Policy.Matching.{capability_eq}
use run_on_mine.Policy.Model.{
  Capability, PolicyMode, deny, ask, allow, UrlApi, PolicyRule, PolicyContext, ConnectorConfig,
  PolicyDecision, files_write, shell_exec, browser_act, desktop_control, platform_native,
  admin_exec, custom,
}
use run_on_mine.Policy.Engine.{
  Rank, rank_le, rule_rank, rule_specificity, mode_priority, matching_rule, evaluate_context, get,
  is_remote, apply_remote_safety_ceiling, first_decision, modes,
}
use run_on_mine.Policy.Selection.{RuleAt, Matches, matching_rule-IsSelected, matching_rule-none}

-- The capabilities that a remote connector never has without asking.
abbrev pub is_dangerous : Capability → Bool
is_dangerous files_write = true
is_dangerous shell_exec = true
is_dangerous browser_act = true
is_dangerous desktop_control = true
is_dangerous platform_native = true
is_dangerous admin_exec = true
is_dangerous _ = false

module _ (urls : UrlApi) (connector : ConnectorConfig urls.Url) (capability : Capability) where
  ceiling_tightens :
      (decision : PolicyDecision)
      → mode_priority decision.mode
        ≤ mode_priority (apply_remote_safety_ceiling urls connector capability decision).mode
  unfolding mode_priority apply_remote_safety_ceiling
  ceiling_tightens decision = ground arith

  ceiling_caps :
      (decision : PolicyDecision)
      → is_remote connector.kind ≡ true
      → is_dangerous capability ≡ true
      → (apply_remote_safety_ceiling urls connector capability decision).mode ≢ allow
  unfolding apply_remote_safety_ceiling
  ceiling_caps decision h k e = ground arith

  ceiling_denies_admin :
      (decision : PolicyDecision)
      → is_remote connector.kind ≡ true
      → capability ≡ admin_exec
      → (apply_remote_safety_ceiling urls connector capability decision).mode ≡ deny
  unfolding apply_remote_safety_ceiling
  ceiling_denies_admin decision h k = ground arith

ceiling_keeps_deny :
    (urls : UrlApi) (connector : ConnectorConfig urls.Url) (capability : Capability)
    (decision : PolicyDecision)
    → decision.mode ≡ deny
    → (apply_remote_safety_ceiling urls connector capability decision).mode ≡ deny
unfolding apply_remote_safety_ceiling
ceiling_keeps_deny urls connector capability decision h = ground arith

priority_of_rank :
    (a b : Rank) → rank_le a b ≡ true → b.specificity ≤ a.specificity → a.priority ≤ b.priority
unfolding rank_le
priority_of_rank a b h k = ground arith

nothing_decides :
    (urls : UrlApi) (rule : Option PolicyDecision) (tool pack base : Option PolicyMode)
    → rule ≡ none
    → tool ≡ none
    → pack ≡ none
    → base ≡ none
    → (first_decision urls rule tool pack base).mode ≡ deny
nothing_decides urls rule tool pack base r t p b = ground arith

custom_silent : (capability : Capability) → get capability (modes custom) ≡ none
unfolding get modes
custom_silent capability = refl

deny_of_priority : (mode : PolicyMode) → 3 ≤ mode_priority mode → mode ≡ deny
unfolding mode_priority
deny_of_priority deny h = refl
deny_of_priority ask h = absurd (omega arith)
deny_of_priority allow h = absurd (omega arith)

module _ (urls : UrlApi) (connector : ConnectorConfig urls.Url) (tool_name : String)
    (capability : Capability) (context : PolicyContext urls.Url) where
  -- On a connector that is reachable from outside, no rule, override or preset yields more than a
  -- local question for a capability that writes, executes or controls.
  pub evaluate_context-remote :
      is_remote connector.kind ≡ true
      → is_dangerous capability ≡ true
      → (evaluate_context urls connector tool_name capability context).mode ≢ allow
  unfolding evaluate_context
  evaluate_context-remote h k = ceiling_caps urls connector capability _ h k

  selected_denies :
      (index : ℕ) (rule : PolicyRule urls.Url)
      → RuleAt urls connector index rule
      → Matches urls connector tool_name capability context rule
      → rule.mode ≡ deny
      → ((j : ℕ) (other : PolicyRule urls.Url)
          → RuleAt urls connector j other
          → Matches urls connector tool_name capability context other
          → rule_specificity urls other ≤ rule_specificity urls rule)
      → (d : PolicyDecision) → matching_rule urls connector tool_name capability context ≡ some d
      → d.mode ≡ deny
  unfolding mode_priority rule_specificity
  selected_denies index rule stored matching denies top d s =
      let (i, r, sel, e) =
        matching_rule-IsSelected urls connector tool_name capability context d s in
      let p : 3 ≤ mode_priority r.mode =
        subst (λ m. mode_priority m ≤ mode_priority r.mode) denies
          (priority_of_rank (rule_rank urls (index, rule)) (rule_rank urls (i, r))
            (sel.best index rule stored matching) (top i r sel.stored sel.matching)) in
      ap (λ (x : PolicyDecision). x.mode) e ∙ deny_of_priority r.mode p

  -- A matching denial that no matching rule outranks in specificity decides the evaluation.
  evaluate_context-deny :
      (index : ℕ) (rule : PolicyRule urls.Url)
      → RuleAt urls connector index rule
      → Matches urls connector tool_name capability context rule
      → rule.mode ≡ deny
      → ((j : ℕ) (other : PolicyRule urls.Url)
          → RuleAt urls connector j other
          → Matches urls connector tool_name capability context other
          → rule_specificity urls other ≤ rule_specificity urls rule)
      → (evaluate_context urls connector tool_name capability context).mode ≡ deny
  unfolding evaluate_context
  evaluate_context-deny index rule stored matching denies top =
      ceiling_keeps_deny urls connector capability _
        (elim (Option-cases (matching_rule urls connector tool_name capability context)) [
          | inl n ↦ absurd (
              matching_rule-none urls connector tool_name capability context index rule n stored
                matching)
          | inr (d, s) ↦ rw s (selected_denies index rule stored matching denies top d s)
        ])

  no_rule :
      ((j : ℕ) (other : PolicyRule urls.Url)
        → RuleAt urls connector j other
        → ¬ Matches urls connector tool_name capability context other)
      → matching_rule urls connector tool_name capability context ≡ none
  no_rule h = elim (Option-cases (matching_rule urls connector tool_name capability context)) [
    | inl n ↦ n
    | inr (d, s) ↦
        let (i, r, sel, e) =
          matching_rule-IsSelected urls connector tool_name capability context d s in
        absurd (h i r sel.stored sel.matching)
  ]

  -- Where no rule matches and nothing is configured for the tool or the capability, a custom
  -- policy denies by default.
  evaluate_context-default :
      ((j : ℕ) (other : PolicyRule urls.Url)
        → RuleAt urls connector j other
        → ¬ Matches urls connector tool_name capability context other)
      → get tool_name connector.tool_overrides ≡ none
      → get capability connector.pack_overrides ≡ none
      → connector.policy_preset ≡ custom
      → (evaluate_context urls connector tool_name capability context).mode ≡ deny
  unfolding evaluate_context
  evaluate_context-default h t p c = ceiling_keeps_deny urls connector capability _ (
      nothing_decides urls _ _ _ _ (no_rule h) t p
        (subst (λ q. get capability (modes q) ≡ none) (sym c) (custom_silent capability)))

-- On such a connector administrator execution is denied, whatever is configured.
evaluate_context-remote_admin :
    (urls : UrlApi) (connector : ConnectorConfig urls.Url) (tool_name : String)
    (context : PolicyContext urls.Url)
    → is_remote connector.kind ≡ true
    → (evaluate_context urls connector tool_name admin_exec context).mode ≡ deny
unfolding evaluate_context
evaluate_context-remote_admin urls connector tool_name context h =
    ceiling_denies_admin urls connector admin_exec _ h refl
