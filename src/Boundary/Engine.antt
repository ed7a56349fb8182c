-- ===== src/Boundary/Engine.antt =====
-- packages/core/src/privacy-boundary/types.ts and engine.ts. The texts of reasons are kept as data;
-- the literal 'none' is `no_risk` and `no_isolation`.
use gyges_research_layer.Base.{
  ℕ, Bool, true, false, not, ◌&&◌, String, str_eq, List, [], ◌∷◌, ◌++◌, map, Option, none, some,
  Result, ok, err, ltb, leb, if◌then◌else◌, or_else,
}
use gyges_research_layer.Base.Map
use gyges_research_layer.Base.Map.{Map, elem}
use gyges_research_layer.Vocabulary.{CapabilityTool, RiskLevel, tool_eq}
use Prim.Native.String.{◌++◌ as joined}

pub data CorrelationRiskLevel : Type 0 where
  no_risk low medium high : CorrelationRiskLevel

pub data PrivacyBoundaryAction : Type 0 where
  allow rotate_session require_approval block : PrivacyBoundaryAction

pub data CorrelationSignal : Type 0 where
  same_compartment cross_compartment cross_tool_reuse risk_escalation : CorrelationSignal
  strict_isolation_required unknown_compartment : CorrelationSignal

-- packages/core/src/transport-policy/types.ts.
pub data IsolationLevel : Type 0 where
  no_isolation session compartment strict : IsolationLevel

pub record PrivacyBoundaryRule : Type 0 where
  pub id : String
  pub source_compartment_id : String
  pub target_compartment_id : String
  pub max_allowed_risk : CorrelationRiskLevel
  pub action_on_violation : PrivacyBoundaryAction

pub data Reason : Type 0 where
  unknown_target : String → Reason
  no_rule within : String → String → Reason
  enforced : PrivacyBoundaryAction → List CorrelationSignal → String → String → Reason

pub record PrivacyBoundaryDecision : Type 0 where
  pub action : PrivacyBoundaryAction
  pub risk_level : CorrelationRiskLevel
  pub signals : List CorrelationSignal
  pub reason : Reason

pub record BoundaryViolation : Type 0 where
  pub rule_id : String
  pub signal : CorrelationSignal
  pub risk_level : CorrelationRiskLevel

pub record PrivacyBoundaryEvaluationInput : Type 0 where
  pub agent_id : String
  pub source_compartment_id : Option String
  pub target_compartment_id : String
  pub tool : CapabilityTool
  pub risk_level : RiskLevel
  pub routing_isolation_level : Option IsolationLevel
  pub allow_cross_tool_reuse : Option Bool
  pub previous_tool : Option CapabilityTool

-- The two sets are lists of their members.
pub record PrivacyBoundaryEngine : Type 0 where
  pub rules : Map PrivacyBoundaryRule
  pub rule_ids : List String
  pub known_compartments : List String

abbrev pub rule_key : String → String → String
rule_key source target = joined source (joined "\0" target)

abbrev pub risk_rank : CorrelationRiskLevel → ℕ
risk_rank no_risk = 0
risk_rank CorrelationRiskLevel.low = 1
risk_rank CorrelationRiskLevel.medium = 2
risk_rank CorrelationRiskLevel.high = 3

abbrev pub action_rank : PrivacyBoundaryAction → ℕ
action_rank allow = 0
action_rank rotate_session = 1
action_rank require_approval = 2
action_rank block = 3

abbrev pub to_correlation_risk : RiskLevel → CorrelationRiskLevel
to_correlation_risk RiskLevel.low = CorrelationRiskLevel.low
to_correlation_risk RiskLevel.medium = CorrelationRiskLevel.medium
to_correlation_risk RiskLevel.high = CorrelationRiskLevel.high

abbrev pub max_risk : CorrelationRiskLevel → CorrelationRiskLevel → CorrelationRiskLevel
max_risk a b = if leb (risk_rank b) (risk_rank a) then a else b

abbrev pub max_action : PrivacyBoundaryAction → PrivacyBoundaryAction → PrivacyBoundaryAction
max_action a b = if leb (action_rank b) (action_rank a) then a else b

abbrev pub new : PrivacyBoundaryEngine
new = record { rules = []; rule_ids = []; known_compartments = [] }

-- `Set.add`.
abbrev pub with_member : String → List String → List String
with_member k ks = if elem k ks then ks else ks ++ k ∷ []

-- An id that is taken, or a pair of compartments that is.
pub data DuplicateRule : Type 0 where
  duplicate_id : String → DuplicateRule
  duplicate_pair : String → String → DuplicateRule

unfoldable pub register_rule :
    PrivacyBoundaryRule → PrivacyBoundaryEngine → Result DuplicateRule PrivacyBoundaryEngine
register_rule r e =
    let key = rule_key r.source_compartment_id r.target_compartment_id in
    if elem r.id e.rule_ids
    then err (duplicate_id r.id)
    else if Map.has key e.rules
    then err (duplicate_pair r.source_compartment_id r.target_compartment_id)
    else ok (record {
      rules = Map.set key r e.rules;
      rule_ids = with_member r.id e.rule_ids;
      known_compartments =
          with_member r.target_compartment_id
            (with_member r.source_compartment_id e.known_compartments);
    })

unfoldable pub clear_rules : PrivacyBoundaryEngine → PrivacyBoundaryEngine
clear_rules e = new

abbrev pub source_of : PrivacyBoundaryEvaluationInput → String
source_of i = or_else i.source_compartment_id i.target_compartment_id

abbrev pub is_same : PrivacyBoundaryEvaluationInput → Bool
is_same i = str_eq (source_of i) i.target_compartment_id

abbrev pub is_escalated : PrivacyBoundaryEvaluationInput → PrivacyBoundaryRule → Bool
is_escalated i r = ltb (risk_rank r.max_allowed_risk) (risk_rank (to_correlation_risk i.risk_level))

abbrev pub is_other_tool : CapabilityTool → Option CapabilityTool → Bool
is_other_tool t none = false
is_other_tool t (some p) = not (tool_eq p t)

abbrev pub is_forbidden : Option Bool → Bool
is_forbidden none = false
is_forbidden (some b) = not b

abbrev pub is_reused : PrivacyBoundaryEvaluationInput → Bool
is_reused i = is_other_tool i.tool i.previous_tool && is_forbidden i.allow_cross_tool_reuse

abbrev pub is_strict : Option IsolationLevel → Bool
is_strict (some strict) = true
is_strict _ = false

abbrev pub when : {A : Type 0} → Bool → A → List A
when b x = if b then x ∷ [] else []

abbrev pub violation :
    PrivacyBoundaryRule → CorrelationSignal → CorrelationRiskLevel → BoundaryViolation
violation r s l = record { rule_id = r.id; signal = s; risk_level = l }

abbrev pub escalation_risk : RiskLevel → CorrelationRiskLevel
escalation_risk RiskLevel.high = CorrelationRiskLevel.high
escalation_risk _ = CorrelationRiskLevel.medium

abbrev pub violations :
    PrivacyBoundaryEvaluationInput → PrivacyBoundaryRule → List BoundaryViolation
violations i r =
    when (not (is_same i)) (violation r cross_compartment CorrelationRiskLevel.high)
    ++ when (is_escalated i r) (violation r risk_escalation (escalation_risk i.risk_level))
    ++ when (is_reused i) (violation r cross_tool_reuse CorrelationRiskLevel.medium)
    ++ when (is_strict i.routing_isolation_level)
        (violation r strict_isolation_required CorrelationRiskLevel.medium)

abbrev pub signals_of :
    PrivacyBoundaryEvaluationInput → PrivacyBoundaryRule → List CorrelationSignal
signals_of i r =
    (if is_same i then same_compartment else cross_compartment)
      ∷ when (is_escalated i r) risk_escalation
    ++ when (is_reused i) cross_tool_reuse
    ++ when (is_strict i.routing_isolation_level) strict_isolation_required

abbrev pub stricter : PrivacyBoundaryAction → PrivacyBoundaryAction
stricter block = block
stricter _ = rotate_session

abbrev pub action_for_violation : CorrelationSignal → PrivacyBoundaryRule → PrivacyBoundaryAction
action_for_violation strict_isolation_required r = stricter r.action_on_violation
action_for_violation cross_tool_reuse r = stricter r.action_on_violation
action_for_violation _ r = r.action_on_violation

-- The loop over the violations.
unfoldable pub scan :
    PrivacyBoundaryRule
    → PrivacyBoundaryAction × CorrelationRiskLevel
    → List BoundaryViolation
    → PrivacyBoundaryAction × CorrelationRiskLevel
scan r a [] = a
scan r a (v ∷ vs) =
    scan r (max_action a.0 (action_for_violation v.signal r), max_risk a.1 v.risk_level) vs

-- The decision under the rule that is found.
unfoldable pub under_rule :
    PrivacyBoundaryEvaluationInput
    → PrivacyBoundaryRule
    → List BoundaryViolation
    → PrivacyBoundaryDecision
under_rule i r [] = record {
  action = allow;
  risk_level = max_risk CorrelationRiskLevel.low (to_correlation_risk i.risk_level);
  signals = signals_of i r;
  reason = within (source_of i) i.target_compartment_id;
}
under_rule i r (v ∷ vs) =
    let (action, risk) = scan r (allow, no_risk) (v ∷ vs) in
    record {
      action = action;
      risk_level = risk;
      signals = signals_of i r;
      reason = enforced action (map (λ v. v.signal) (v ∷ vs)) (source_of i) i.target_compartment_id;
    }

abbrev pub blocked : CorrelationSignal → Reason → PrivacyBoundaryDecision
blocked s why = record {
  action = block;
  risk_level = CorrelationRiskLevel.high;
  signals = s ∷ [];
  reason = why;
}

unfoldable pub evaluate :
    PrivacyBoundaryEvaluationInput → PrivacyBoundaryEngine → PrivacyBoundaryDecision
evaluate i e =
    if not (elem i.target_compartment_id e.known_compartments)
    then blocked unknown_compartment (unknown_target i.target_compartment_id)
    else elim (Map.get (rule_key (source_of i) i.target_compartment_id) e.rules) [
      | none ↦
          blocked (if is_same i then unknown_compartment else cross_compartment)
            (no_rule (source_of i) i.target_compartment_id)
      | some r ↦ under_rule i r (violations i r)
    ]
