-- ===== src/Boundary/Tests.antt =====
-- The privacy boundary on concrete flows.
use gyges_research_layer.Base.{◌≡◌, ◌↔◌, refl, true, false, [], ◌∷◌, none, some, All}
use gyges_research_layer.Base.Map
use gyges_research_layer.Base.Map.{elem}
use gyges_research_layer.Vocabulary.{search, fetch_html, RiskLevel}
use gyges_research_layer.Boundary.Engine.{
  CorrelationRiskLevel, allow, require_approval, PrivacyBoundaryRule,
  PrivacyBoundaryEvaluationInput, PrivacyBoundaryEngine, new, register_rule, rule_key, source_of,
  violations, under_rule, scan, evaluate,
}
use gyges_research_layer.Boundary.Verdict.{Covers, Passes, evaluate-Passes_iff, evaluate-Covers}
use gyges_research_layer.Boundary.Rules.{registers, step, run, run-evaluate}

abbrev research_self : PrivacyBoundaryRule
research_self = record {
  id = "research-self";
  source_compartment_id = "research";
  target_compartment_id = "research";
  max_allowed_risk = CorrelationRiskLevel.low;
  action_on_violation = require_approval;
}

abbrev press_self : PrivacyBoundaryRule
press_self = record research_self {
  id = "press-self";
  source_compartment_id = "press";
  target_compartment_id = "press";
}

abbrev started : PrivacyBoundaryEngine
started = run new (registers research_self ∷ [])

-- A risky search after a fetch, whose context must not be carried over.
abbrev flow : PrivacyBoundaryEvaluationInput
flow = record {
  agent_id = "a";
  source_compartment_id = none;
  target_compartment_id = "research";
  tool = search;
  risk_level = RiskLevel.medium;
  routing_isolation_level = none;
  allow_cross_tool_reuse = some false;
  previous_tool = some fetch_html;
}

needs_approval : (evaluate flow started).action ≡ require_approval
unfolding evaluate run step register_rule elem Map.get Map.set under_rule scan
needs_approval = refl

has_rule : Map.get (rule_key (source_of flow) "research") started.rules ≡ some research_self
unfolding run step register_rule elem Map.get Map.set
has_rule = refl

is_known : elem "research" started.known_compartments ≡ true
unfolding run step register_rule elem Map.get
is_known = refl

evaluate-Passes_iff_example : ((evaluate flow started).action ≡ allow) ↔ Passes flow started
evaluate-Passes_iff_example = evaluate-Passes_iff flow started

evaluate-Covers_example :
    All
      (Covers research_self ((evaluate flow started).action, (evaluate flow started).risk_level))
      (violations flow research_self)
evaluate-Covers_example =
    evaluate-Covers flow research_self started (record { stored = has_rule; known = is_known })

run-evaluate_example :
    evaluate flow (run started (registers press_self ∷ registers research_self ∷ []))
    ≡ evaluate flow started
run-evaluate_example =
    run-evaluate flow research_self started (registers press_self ∷ registers research_self ∷ [])
      (tt, (tt, tt)) (record { stored = has_rule; known = is_known })
