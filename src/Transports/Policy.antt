-- ===== src/Transports/Policy.antt =====
-- packages/core/src/transport-policy/types.ts and engine.ts. Of a request only the tool and the risk
-- level are consulted.
use gyges_research_layer.Base.{
  Bool, true, false, ◌&&◌, String, [], none, some, Result, ok, err, if◌then◌else◌,
}
use gyges_research_layer.Base.Map
use gyges_research_layer.Base.Map.{Map}
use gyges_research_layer.Vocabulary.{
  CapabilityTool, search, fetch_html, fetch_json, RiskLevel, low, medium, high, TransportKind,
}
use gyges_research_layer.Boundary.Engine.{IsolationLevel, no_isolation, strict}
use Prim.Native.String.{◌++◌ as joined}

pub data RoutingReason : Type 0 where
  default_transport forced_rotation strict_isolation risk_escalation reuse_allowed : RoutingReason

pub record IsolationPolicy : Type 0 where
  pub level : IsolationLevel
  pub force_rotate_on_high_risk : Bool
  pub forbid_session_reuse : Bool
  pub allow_cross_tool_reuse : Bool

pub record TransportPolicyRule : Type 0 where
  pub tool : CapabilityTool
  pub risk_level : RiskLevel
  pub preferred_transport : TransportKind
  pub isolation_policy : IsolationPolicy

pub record RoutingDecision : Type 0 where
  pub transport_kind : TransportKind
  pub should_rotate_session : Bool
  pub isolation_level : IsolationLevel
  pub reason : RoutingReason

pub data TransportPolicyErrorKind : Type 0 where
  duplicate_rule no_rule : TransportPolicyErrorKind

abbrev pub tool_text : CapabilityTool → String
tool_text search = "search"
tool_text fetch_html = "fetch_html"
tool_text fetch_json = "fetch_json"

abbrev pub risk_text : RiskLevel → String
risk_text low = "low"
risk_text medium = "medium"
risk_text high = "high"

abbrev pub rule_key : CapabilityTool → RiskLevel → String
rule_key tool risk = joined (tool_text tool) (joined ":" (risk_text risk))

abbrev pub is_high : RiskLevel → Bool
is_high high = true
is_high _ = false

abbrev pub is_strict : IsolationLevel → Bool
is_strict strict = true
is_strict _ = false

abbrev pub is_none : IsolationLevel → Bool
is_none no_isolation = true
is_none _ = false

unfoldable pub register_rule :
    TransportPolicyRule
    → Map TransportPolicyRule
    → Result TransportPolicyErrorKind (Map TransportPolicyRule)
register_rule r rules =
    if Map.has (rule_key r.tool r.risk_level) rules
    then err duplicate_rule
    else ok (Map.set (rule_key r.tool r.risk_level) r rules)

-- Whether the session is rotated, and why.
abbrev pub rotation : RiskLevel → IsolationPolicy → Bool × RoutingReason
rotation risk p =
    if p.forbid_session_reuse
    then (true, forced_rotation)
    else if is_high risk && p.force_rotate_on_high_risk
    then (true, forced_rotation)
    else if is_strict p.level
    then (true, strict_isolation)
    else if is_high risk
    then (false, risk_escalation)
    else if is_none p.level
    then (false, default_transport)
    else (false, reuse_allowed)

abbrev pub routed : RiskLevel → TransportPolicyRule → RoutingDecision
routed risk r = record {
  transport_kind = r.preferred_transport;
  should_rotate_session = (rotation risk r.isolation_policy).0;
  isolation_level = r.isolation_policy.level;
  reason = (rotation risk r.isolation_policy).1;
}

unfoldable pub resolve :
    CapabilityTool
    → RiskLevel
    → Map TransportPolicyRule
    → Result TransportPolicyErrorKind RoutingDecision
resolve tool risk rules = elim (Map.get (rule_key tool risk) rules) [
  | none ↦ err no_rule
  | some r ↦ ok (routed risk r)
]

unfoldable pub clear_rules : Map TransportPolicyRule → Map TransportPolicyRule
clear_rules rules = []
