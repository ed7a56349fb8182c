-- ===== src/Firewall/Permits.antt =====
-- What a policy of packages/core/src/policy-engine asks of a request that it is found for.
use gyges_research_layer.Base.{
  ℕ, ◌≤◌, ◌≡◌, true, Option, none, some, ok, Result-cases, inl, inr, arith, any,
}
use gyges_research_layer.Vocabulary.{CapabilityTool, RiskLevel, tool_eq}
use gyges_research_layer.Firewall.Sanitizer.{Value, SanitizerOptions, sanitize_input}
use gyges_research_layer.Firewall.Clean.{IsClean, sanitize_node-Clean}
use gyges_research_layer.Firewall.Policy.{CapabilityPolicy, risk_rank, decide}

module _ (serialized : Value → Option ℕ) where
  -- What a policy asks of a request for it.
  pub record Permits (o : SanitizerOptions) (tool : CapabilityTool) (risk : RiskLevel)
      (input : Value) (policy : CapabilityPolicy) : Type 0 where
    pub value : Value
    pub permitted : any (tool_eq tool) policy.allowed_tools ≡ true
    pub within : risk_rank risk ≤ risk_rank policy.max_risk_level
    pub sanitized : sanitize_input serialized o input ≡ ok value

  pub decide-Permits :
      (o : SanitizerOptions) (t : CapabilityTool) (l : RiskLevel) (i : Value) (p : CapabilityPolicy)
      → (decide serialized o t l i (some p)).allowed ≡ true
      → Permits o t l i p
  unfolding decide
  decide-Permits o t l i p h = elim (Result-cases (sanitize_input serialized o i)) [
    | inl (x, e) ↦ absurd (ground (arith, e, h))
    | inr (v, e) ↦ record {
      value = v;
      permitted = ground (arith, h);
      within = ground (arith, h);
      sanitized = e;
    }
  ]

  pub sanitize_input-Clean :
      (o : SanitizerOptions) (v w : Value) → sanitize_input serialized o v ≡ ok w → IsClean o w
  unfolding sanitize_input
  sanitize_input-Clean o v w h = (sanitize_node-Clean o v w (ground (arith, h))).0

  pub decide_input :
      (o : SanitizerOptions) (t : CapabilityTool) (l : RiskLevel) (i : Value)
      (p : Option CapabilityPolicy) (v : Value)
      → (decide serialized o t l i p).sanitized_input ≡ some v
      → (sanitize_input serialized o i ≡ ok v) × ((decide serialized o t l i p).allowed ≡ true)
  unfolding decide
  decide_input o t l i none v h = absurd (ground (arith, h))
  decide_input o t l i (some p) v h = ground (arith, h)
