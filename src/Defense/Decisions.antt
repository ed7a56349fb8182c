-- ===== src/Defense/Decisions.antt =====
-- What packages/core/src/adaptive-defense/defense-engine.ts decides.
use gyges_research_layer.Base.{
  ◌<◌, true, ◌&&◌, ◌||◌, ◌≡◌, ◌↔◌, ◌⊎◌, List, [], ◌∷◌, some, arith, eq_iff, any, String, Some,
}
use gyges_research_layer.Base.Map.{elem}
use gyges_research_layer.Vocabulary.{RiskLevel}
use gyges_research_layer.Defense.{
  AdaptiveDefensePolicy, AdaptiveDefenseEvaluationInput, AdaptiveDefenseDecision,
  DynamicRiskEscalation, anomaly_match, incident_match, decision, evaluate, escalate, risk_order,
}

-- A common element.
abbrev pub Shares : List String → List String → Type 0
Shares xs ys = Some (λ x. Some (λ y. y ≡ x) ys) xs

-- The policy is enabled and one of its triggers was observed.
pub record Fires (i : AdaptiveDefenseEvaluationInput) (p : AdaptiveDefensePolicy) : Type 0 where
  pub is_enabled : p.enabled ≡ true
  pub trigger :
      Shares p.trigger_anomaly_types i.anomalies ⊎ Shares p.trigger_incident_severities i.incidents

elem_iff : (x : String) (ys : List String) → (elem x ys ≡ true) ↔ Some (λ y. y ≡ x) ys
unfolding elem
elem_iff x [] = ground arith
elem_iff x (y ∷ ys) = ground (arith, eq_iff y x, elem_iff x ys)

any_iff : (xs ys : List String) → (any (λ x. elem x ys) xs ≡ true) ↔ Shares xs ys
unfolding any
any_iff [] ys = ground arith
any_iff (x ∷ xs) ys = ground (arith, elem_iff x ys, any_iff xs ys)

Fires-iff :
    (i : AdaptiveDefenseEvaluationInput) (p : AdaptiveDefensePolicy)
    → ((p.enabled && (anomaly_match i p || incident_match i p)) ≡ true) ↔ Fires i p
unfolding anomaly_match incident_match
Fires-iff i p = ground (
  arith,
  any_iff p.trigger_anomaly_types i.anomalies,
  any_iff p.trigger_incident_severities i.incidents,
)

-- A decision is among those returned exactly when it is the decision of a registered policy that is
-- enabled and has an observed anomaly type or incident severity among its triggers.
pub evaluate_iff :
    (i : AdaptiveDefenseEvaluationInput) (ps : List AdaptiveDefensePolicy)
    (d : AdaptiveDefenseDecision)
    → Some (λ e. e ≡ d) (evaluate i ps) ↔ Some (λ p. Fires i p × (decision i p ≡ d)) ps
unfolding evaluate
evaluate_iff i [] d = (λ h. h, λ h. h)
evaluate_iff i (p ∷ ps) d = ground (arith, Fires-iff i p, evaluate_iff i ps d)

-- An escalation is made exactly when the target is higher than the current level, and then it goes
-- from the one to the other.
pub escalate_iff {ℓ} :
    {R : Type ℓ} (current target : RiskLevel) (reason : R) (e : DynamicRiskEscalation R)
    → (escalate current target reason ≡ some e) ↔ (
        (risk_order current < risk_order target)
        × (e.original_risk ≡ current)
        × (e.escalated_risk ≡ target)
        × (e.reason ≡ reason))
unfolding escalate
escalate_iff current target reason e = ground arith
