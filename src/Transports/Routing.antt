-- ===== src/Transports/Routing.antt =====
-- The routing of packages/core/src/transport-policy/engine.ts, and what the privacy boundary makes of it.
use gyges_research_layer.Base.{◌≡◌, ◌≢◌, ◌↔◌, ◌⊎◌, true, some, ok, arith, inl, inr, Option-cases}
use gyges_research_layer.Base.Map
use gyges_research_layer.Base.Map.{Map}
use gyges_research_layer.Vocabulary.{CapabilityTool, RiskLevel, high}
use gyges_research_layer.Boundary.Engine.{
  strict, allow, PrivacyBoundaryEvaluationInput, PrivacyBoundaryEngine, evaluate,
}
use gyges_research_layer.Boundary.Verdict.{evaluate-Passes_iff}
use gyges_research_layer.Transports.Policy.{TransportPolicyRule, RoutingDecision, rule_key, resolve}

-- Where an execution is routed, the rule stored for its tool and risk says so: the transport and the
-- isolation are that rule's, and the session is rotated exactly when the rule forbids its reuse, the
-- risk is high and the rule rotates on that, or the isolation is strict.
pub resolve_lem :
    (tool : CapabilityTool) (risk : RiskLevel) (rules : Map TransportPolicyRule)
    (d : RoutingDecision)
    → resolve tool risk rules ≡ ok d
    → (r : TransportPolicyRule) × (Map.get (rule_key tool risk) rules ≡ some r)
      × (d.transport_kind ≡ r.preferred_transport)
      × (d.isolation_level ≡ r.isolation_policy.level)
      × ((d.should_rotate_session ≡ true) ↔ (
          (r.isolation_policy.forbid_session_reuse ≡ true)
          ⊎ ((risk ≡ high) × (r.isolation_policy.force_rotate_on_high_risk ≡ true))
          ⊎ (r.isolation_policy.level ≡ strict)))
unfolding resolve
resolve_lem tool risk rules d h = elim (Option-cases (Map.get (rule_key tool risk) rules)) [
  | inl e ↦ absurd (ground (arith, e, h))
  | inr (r, e) ↦ (r, e, ground (arith, e, h), ground (arith, e, h), ground (arith, e, h))
]

-- An execution that is routed in strict isolation rotates the session, and the privacy boundary, told
-- of that isolation, lets it pass under no rules.
pub resolve-evaluate :
    (tool : CapabilityTool) (risk : RiskLevel) (rules : Map TransportPolicyRule)
    (d : RoutingDecision) (i : PrivacyBoundaryEvaluationInput) (e : PrivacyBoundaryEngine)
    → resolve tool risk rules ≡ ok d
    → d.isolation_level ≡ strict
    → i.routing_isolation_level ≡ some d.isolation_level
    → (d.should_rotate_session ≡ true) × ((evaluate i e).action ≢ allow)
resolve-evaluate tool risk rules d i e h s t =
    let found = resolve_lem tool risk rules d h in
    (ground (arith, found, s), λ p. ((evaluate-Passes_iff i e).0 p).calm.0 (ground (arith, s, t)))
