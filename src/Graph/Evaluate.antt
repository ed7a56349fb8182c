-- ===== src/Graph/Evaluate.antt =====
-- packages/core/src/capability-graph/engine.ts: `evaluatePath`, in the steps that its comment numbers.
use gyges_research_layer.Base.{
  ℕ, ◌+◌, max, Bool, true, false, ◌&&◌, String, str_eq, List, [], ◌∷◌, Option, none, some, ltb,
  if◌then◌else◌, length, last, find,
}
use gyges_research_layer.Base.Map
use gyges_research_layer.Base.Map.{Map}
use gyges_research_layer.Vocabulary.{CapabilityTool, tool_eq}
use gyges_research_layer.Graph.Types.{
  ExecutionPathRisk, high, blocked, CapabilityPathAction, allow, require_approval, force_rotation,
  block, CapabilityTransitionRule, DependencyIsolationPolicy, Reason, no_policy, first_capability,
  same_tool, high_risk_path, path_too_long, no_rule, cross_tool_escalation, tool_change, permitted,
  exceeds_risk, CapabilityPathDecision, RequestInput, PathEntry, CapabilityGraphEngine,
  risk_level_rank, execution_path_risk_rank, path_risk_for_rank, path_of,
}

-- A policy id that is missing or empty gives no policy.
unfoldable pub policy_from :
    String → Map String → Map DependencyIsolationPolicy → Option DependencyIsolationPolicy
policy_from cid index policies = elim (Map.get cid index) [
  | none ↦ none
  | some id ↦ if str_eq id "" then none else Map.get id policies
]

unfoldable pub policy_of : String → CapabilityGraphEngine → Option DependencyIsolationPolicy
policy_of cid g = policy_from cid g.policy_by_compartment g.isolation_policies

-- The highest rank on the path and of the request.
unfoldable pub path_rank : ℕ → List PathEntry → ℕ
path_rank rank [] = rank
path_rank rank (e ∷ es) = path_rank (max rank (risk_level_rank e.risk_level)) es

unfoldable pub find_enabled_rule :
    CapabilityTool → CapabilityTool → CapabilityGraphEngine → Option CapabilityTransitionRule
unfolding find Map.values
find_enabled_rule from to g =
    find (λ r. r.enabled && tool_eq r.from_tool from && tool_eq r.to_tool to)
      (Map.values g.transition_rules)

abbrev pub decided : CapabilityPathAction → ExecutionPathRisk → Reason → CapabilityPathDecision
decided action risk reason = record {
  action = action;
  risk = risk;
  reason = reason;
  related_node_ids = [];
  related_edge_ids = [];
}

abbrev pub blocked_for : Reason → CapabilityPathDecision
blocked_for reason = decided block blocked reason

abbrev pub is_high : ExecutionPathRisk → Bool
is_high high = true
is_high _ = false

abbrev pub is_block : CapabilityPathAction → Bool
is_block block = true
is_block _ = false

-- Steps 7 to 10: a tool change for which a rule is enabled.
unfoldable pub evaluate_change :
    DependencyIsolationPolicy
    → RequestInput
    → ExecutionPathRisk
    → PathEntry
    → CapabilityTransitionRule
    → CapabilityPathDecision
evaluate_change p i path_risk previous rule =
    if ltb (execution_path_risk_rank rule.max_allowed_risk) (risk_level_rank i.risk_level)
    then decided rule.action_on_violation
        (if is_block rule.action_on_violation then blocked else path_risk)
        (exceeds_risk previous.tool i.tool rule.max_allowed_risk)
    else if p.forbid_cross_tool_escalation
        && ltb (risk_level_rank previous.risk_level) (risk_level_rank i.risk_level)
    then decided force_rotation path_risk (cross_tool_escalation previous.tool i.tool)
    else if p.require_approval_on_tool_change
    then decided require_approval path_risk (tool_change previous.tool i.tool)
    else decided allow path_risk (permitted previous.tool i.tool)

-- Steps 4 to 6: the path has a last entry.
unfoldable pub evaluate_next :
    DependencyIsolationPolicy
    → RequestInput
    → ExecutionPathRisk
    → PathEntry
    → CapabilityGraphEngine
    → CapabilityPathDecision
evaluate_next p i path_risk previous g =
    if tool_eq previous.tool i.tool
    then if p.block_on_high_risk_path && is_high path_risk
      then blocked_for high_risk_path
      else decided allow path_risk same_tool
    else elim (find_enabled_rule previous.tool i.tool g) [
      | none ↦ blocked_for (no_rule previous.tool i.tool)
      | some rule ↦
          if p.block_on_high_risk_path && is_high path_risk
          then blocked_for high_risk_path
          else evaluate_change p i path_risk previous rule
    ]

-- Steps 2 and 3, over the compartment's path.
unfoldable pub evaluate_on :
    DependencyIsolationPolicy
    → RequestInput
    → List PathEntry
    → CapabilityGraphEngine
    → CapabilityPathDecision
evaluate_on p i path g =
    let path_risk = path_risk_for_rank (path_rank (risk_level_rank i.risk_level) path) in
    if ltb p.max_path_length (length path + 1)
    then blocked_for (path_too_long (length path + 1) p.max_path_length)
    else elim (last path) [
      | none ↦ decided allow path_risk first_capability
      | some previous ↦ evaluate_next p i path_risk previous g
    ]

unfoldable pub evaluate_path : RequestInput → CapabilityGraphEngine → CapabilityPathDecision
evaluate_path i g = elim (policy_of i.compartment_id g) [
  | none ↦ blocked_for no_policy
  | some p ↦
      if p.enabled then evaluate_on p i (path_of i.compartment_id g) g else blocked_for no_policy
]
