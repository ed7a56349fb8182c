-- ===== src/Graph/Types.antt =====
-- packages/core/src/capability-graph/types.ts: the types of the execution-capability graph, and the
-- state of `CapabilityGraphEngine`.
use gyges_research_layer.Base.{ℕ, Bool, String, List, [], Option, leb, if◌then◌else◌, or_else}
use gyges_research_layer.Base.Map
use gyges_research_layer.Base.Map.{Map}
use gyges_research_layer.Vocabulary.{CapabilityTool, RiskLevel}

pub data CapabilityNodeKind : Type 0 where
  request capability approval execution sandbox privacy_boundary : CapabilityNodeKind

pub data ExecutionPathRisk : Type 0 where
  low medium high blocked : ExecutionPathRisk

pub data CapabilityPathAction : Type 0 where
  allow require_approval force_rotation block : CapabilityPathAction

pub data CapabilityEdgeRelation : Type 0 where
  requested approved executed blocked depends_on transitioned_to : CapabilityEdgeRelation

pub record CapabilityNode : Type 0 where
  pub id : String
  pub kind : CapabilityNodeKind
  pub agent_id : Option String
  pub compartment_id : Option String
  pub tool : Option CapabilityTool
  pub risk_level : Option RiskLevel
  pub created_at : ℕ

pub record CapabilityEdge : Type 0 where
  pub id : String
  pub from_node_id : String
  pub to_node_id : String
  pub relation : CapabilityEdgeRelation
  pub created_at : ℕ

pub record CapabilityTransitionRule : Type 0 where
  pub id : String
  pub from_tool : CapabilityTool
  pub to_tool : CapabilityTool
  pub max_allowed_risk : ExecutionPathRisk
  pub action_on_violation : CapabilityPathAction
  pub enabled : Bool

pub record DependencyIsolationPolicy : Type 0 where
  pub id : String
  pub compartment_id : String
  pub max_path_length : ℕ
  pub forbid_cross_tool_escalation : Bool
  pub require_approval_on_tool_change : Bool
  pub block_on_high_risk_path : Bool
  pub enabled : Bool

pub data Reason : Type 0 where
  no_policy first_capability same_tool high_risk_path : Reason
  path_too_long : ℕ → ℕ → Reason
  no_rule cross_tool_escalation tool_change permitted : CapabilityTool → CapabilityTool → Reason
  exceeds_risk : CapabilityTool → CapabilityTool → ExecutionPathRisk → Reason

pub record CapabilityPathDecision : Type 0 where
  pub action : CapabilityPathAction
  pub risk : ExecutionPathRisk
  pub reason : Reason
  pub related_node_ids : List String
  pub related_edge_ids : List String

-- What `recordCapabilityRequest`, `recordTransition` and `evaluatePath` take; a transition's
-- `fromTool` is not read by the code.
pub record RequestInput : Type 0 where
  pub agent_id : String
  pub compartment_id : String
  pub tool : CapabilityTool
  pub risk_level : RiskLevel

pub record PathEntry : Type 0 where
  pub node_id : String
  pub tool : CapabilityTool
  pub risk_level : RiskLevel

pub record CapabilityGraphEngine : Type 0 where
  pub nodes : Map CapabilityNode
  pub edges : Map CapabilityEdge
  pub transition_rules : Map CapabilityTransitionRule
  pub isolation_policies : Map DependencyIsolationPolicy
  pub policy_by_compartment : Map String
  pub paths : Map (List PathEntry)

-- `new CapabilityGraphEngine()`, and what `clear` leaves.
unfoldable pub empty : CapabilityGraphEngine
empty = record {
  nodes = [];
  edges = [];
  transition_rules = [];
  isolation_policies = [];
  policy_by_compartment = [];
  paths = [];
}

abbrev pub risk_level_rank : RiskLevel → ℕ
risk_level_rank RiskLevel.low = 1
risk_level_rank RiskLevel.medium = 2
risk_level_rank RiskLevel.high = 3

abbrev pub execution_path_risk_rank : ExecutionPathRisk → ℕ
execution_path_risk_rank low = 1
execution_path_risk_rank medium = 2
execution_path_risk_rank high = 3
execution_path_risk_rank blocked = 4

unfoldable pub path_risk_for_rank : ℕ → ExecutionPathRisk
path_risk_for_rank rank = if leb 3 rank then high else if leb 2 rank then medium else low

abbrev pub path_of : String → CapabilityGraphEngine → List PathEntry
path_of cid g = or_else (Map.get cid g.paths) []
