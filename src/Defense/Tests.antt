-- ===== src/Defense/Tests.antt =====
-- The defense engine on concrete observations.
use gyges_research_layer.Base.{true, false, ◌≡◌, ◌↔◌, refl, String, List, [], ◌∷◌, none, Some, any}
use gyges_research_layer.Base.Map.{elem}
use gyges_research_layer.Vocabulary.{low, high}
use gyges_research_layer.RateLimiter.{escalate_risk}
use gyges_research_layer.Defense.{
  AdaptiveDefensePolicy, AdaptiveDefenseEvaluationInput, DynamicRiskEscalation, decision, evaluate,
  anomaly_match, incident_match,
}
use gyges_research_layer.Defense.Decisions.{Fires, evaluate_iff}

abbrev bursts : AdaptiveDefensePolicy
bursts = record {
  id = "bursts";
  trigger_anomaly_types = "request_burst" ∷ [];
  trigger_incident_severities = "critical" ∷ [];
  resulting_action = escalate_risk;
  cooldown_ms = none;
  escalation_risk_level = none;
  enabled = true;
}

abbrev policies : List AdaptiveDefensePolicy
policies = bursts ∷ record bursts { id = "off"; enabled = false } ∷ []

abbrev seen : AdaptiveDefenseEvaluationInput
seen = record { anomalies = []; incidents = "warning" ∷ "critical" ∷ [] }

one_decision : evaluate seen policies ≡ decision seen bursts ∷ []
unfolding evaluate anomaly_match incident_match any elem
one_decision = refl

evaluate_iff_example :
    Some (λ e. e ≡ decision seen bursts) (evaluate seen policies)
    ↔ Some (λ p. Fires seen p × (decision seen p ≡ decision seen bursts)) policies
evaluate_iff_example = evaluate_iff seen policies (decision seen bursts)

abbrev raised : DynamicRiskEscalation String
raised = record { original_risk = low; escalated_risk = high; reason = "burst" }
