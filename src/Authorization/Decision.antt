-- ===== src/Authorization/Decision.antt =====
-- `pre_approval_decision` of authorization.rs: one decision for all the resources of a call.
use run_on_mine.Prelude.{◌≡◌, ◌↔◌, ◌⊎◌, Bool, true, ◌||◌, List, [], ◌∷◌, arith, if◌then◌else◌}
use run_on_mine.Prelude.Members.{All, In}
use run_on_mine.Policy.Model.{PolicyMode}
use run_on_mine.Policy.Engine.{is_allow}

pub data PreApprovalDecision : Type 0 where
  allow deny ask : PreApprovalDecision

-- The loop over the modes with the value of `combined`.
unfoldable pub combine : PolicyMode → Bool → List PolicyMode → PreApprovalDecision
combine combined grant_allows [] =
    if grant_allows || is_allow combined then PreApprovalDecision.allow else PreApprovalDecision.ask
combine combined grant_allows (PolicyMode.deny ∷ modes) = PreApprovalDecision.deny
combine combined grant_allows (PolicyMode.ask ∷ modes) = combine PolicyMode.ask grant_allows modes
combine combined grant_allows (PolicyMode.allow ∷ modes) = combine combined grant_allows modes

unfoldable pub pre_approval_decision : List PolicyMode → Bool → PreApprovalDecision
unfolding combine
pre_approval_decision modes grant_allows = combine PolicyMode.allow grant_allows modes

combine-deny :
    (combined : PolicyMode) (grant : Bool) (modes : List PolicyMode)
    → (combine combined grant modes ≡ PreApprovalDecision.deny) ↔ In PolicyMode.deny modes
unfolding combine
combine-deny combined grant [] = ground arith
combine-deny combined grant (PolicyMode.deny ∷ modes) = ground arith
combine-deny combined grant (PolicyMode.ask ∷ modes) =
    ground (arith, combine-deny PolicyMode.ask grant modes)
combine-deny combined grant (PolicyMode.allow ∷ modes) =
    ground (arith, combine-deny combined grant modes)

combine-allow :
    (combined : PolicyMode) (grant : Bool) (modes : List PolicyMode)
    → (combine combined grant modes ≡ PreApprovalDecision.allow) ↔ (
        ¬ In PolicyMode.deny modes
        × ((grant ≡ true)
            ⊎ ((combined ≡ PolicyMode.allow) × All (λ m. m ≡ PolicyMode.allow) modes)))
unfolding combine
combine-allow combined grant [] = ground arith
combine-allow combined grant (PolicyMode.deny ∷ modes) = ground arith
combine-allow combined grant (PolicyMode.ask ∷ modes) =
    ground (arith, combine-allow PolicyMode.ask grant modes)
combine-allow combined grant (PolicyMode.allow ∷ modes) =
    ground (arith, combine-allow combined grant modes)

-- A call is denied exactly when the policy denies one of its resources, grant or not; it goes on
-- without a question exactly when no resource is denied and either a grant stands or the policy
-- allows every resource; otherwise the owner is asked.
pub pre_approval_decision_iff :
    (modes : List PolicyMode) (grant : Bool)
    → ((pre_approval_decision modes grant ≡ PreApprovalDecision.deny) ↔ In PolicyMode.deny modes)
      × ((pre_approval_decision modes grant ≡ PreApprovalDecision.allow)
          ↔ (¬ In PolicyMode.deny modes × ((grant ≡ true) ⊎ All (λ m. m ≡ PolicyMode.allow) modes)))
unfolding pre_approval_decision
pre_approval_decision_iff modes grant = (
  combine-deny PolicyMode.allow grant modes,
  ground (arith, combine-allow PolicyMode.allow grant modes),
)
