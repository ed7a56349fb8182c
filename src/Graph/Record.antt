-- ===== src/Graph/Record.antt =====
-- packages/core/src/capability-graph/engine.ts: the recording of requests and transitions.
use gyges_research_layer.Base.{
  ℕ, Bool, true, false, not, ◌&&◌, ◌||◌, String, str_eq, List, [], ◌∷◌, Option, none, some,
  if◌then◌else◌, last, keep, is_some,
}
use gyges_research_layer.Base.Map
use gyges_research_layer.Base.Map.{Map}
use gyges_research_layer.Vocabulary.{CapabilityTool, tool_eq}
use gyges_research_layer.Graph.Types.{
  CapabilityNodeKind, request, capability, approval, CapabilityPathAction, allow, require_approval,
  force_rotation, CapabilityEdgeRelation, approved, blocked, transitioned_to, CapabilityNode,
  CapabilityEdge, CapabilityPathDecision, RequestInput, CapabilityGraphEngine, path_of,
}
use gyges_research_layer.Graph.Store.{create_node, link_from, advance_path}
use gyges_research_layer.Graph.Evaluate.{evaluate_path}

unfoldable pub record_capability_request :
    ℕ → String → String → RequestInput → CapabilityGraphEngine → CapabilityGraphEngine
record_capability_request now node_id edge_id i g =
    advance_path node_id i
      (link_from (last (path_of i.compartment_id g)) edge_id node_id transitioned_to now
        (create_node capability now node_id i g)).0

-- A decision on which the path advances.
abbrev pub admits : CapabilityPathAction → Bool
admits allow = true
admits force_rotation = true
admits _ = false

abbrev pub refused_kind : CapabilityPathAction → CapabilityNodeKind
refused_kind require_approval = approval
refused_kind _ = request

abbrev pub refused_relation : CapabilityPathAction → CapabilityEdgeRelation
refused_relation require_approval = approved
refused_relation _ = blocked

-- The node and the edge of a transition; `admitted` says whether the path advances too.
unfoldable pub record_node :
    Bool
    → CapabilityNodeKind
    → CapabilityEdgeRelation
    → ℕ
    → String
    → String
    → RequestInput
    → CapabilityGraphEngine
    → CapabilityGraphEngine × List String
record_node admitted kind relation now node_id edge_id i g =
    let (g', edge_ids) =
      link_from (last (path_of i.compartment_id g)) edge_id node_id relation now
        (create_node kind now node_id i g) in
    (if admitted then advance_path node_id i g' else g', edge_ids)

abbrev pub related :
    String
    → CapabilityPathDecision
    → CapabilityGraphEngine × List String
    → CapabilityGraphEngine × CapabilityPathDecision
related node_id d (g, edge_ids) =
    (g, record d { related_node_ids = node_id ∷ []; related_edge_ids = edge_ids })

unfoldable pub record_transition :
    ℕ
    → String
    → String
    → RequestInput
    → CapabilityGraphEngine
    → CapabilityGraphEngine × CapabilityPathDecision
record_transition now node_id edge_id i g =
    let d = evaluate_path i g in
    related node_id d (
      if admits d.action
      then record_node true capability transitioned_to now node_id edge_id i g
      else record_node false (refused_kind d.action) (refused_relation d.action) now node_id edge_id
          i g)

pub record CapabilityGraphFilter : Type 0 where
  pub agent_id : Option String
  pub compartment_id : Option String
  pub tool : Option CapabilityTool

-- `filter.x === undefined || node.x === filter.x`.
abbrev pub text_passes : Option String → Option String → Bool
text_passes none x = true
text_passes (some f) none = false
text_passes (some f) (some x) = str_eq x f

abbrev pub tool_passes : Option CapabilityTool → Option CapabilityTool → Bool
tool_passes none x = true
tool_passes (some f) none = false
tool_passes (some f) (some x) = tool_eq x f

unfoldable pub node_passes : CapabilityGraphFilter → CapabilityNode → Bool
node_passes f n =
    text_passes f.agent_id n.agent_id
    && text_passes f.compartment_id n.compartment_id
    && tool_passes f.tool n.tool

unfoldable pub list_nodes : CapabilityGraphFilter → CapabilityGraphEngine → List CapabilityNode
unfolding node_passes keep Map.values
list_nodes f g = keep (node_passes f) (Map.values g.nodes)

abbrev pub end_passes : CapabilityGraphFilter → Option CapabilityNode → Bool
end_passes f none = false
end_passes f (some n) = node_passes f n

unfoldable pub list_edges : CapabilityGraphFilter → CapabilityGraphEngine → List CapabilityEdge
unfolding node_passes keep Map.values
list_edges f g =
    keep
      (λ e.
        not (is_some f.agent_id || is_some f.compartment_id || is_some f.tool)
        || end_passes f (Map.get e.from_node_id g.nodes)
        || end_passes f (Map.get e.to_node_id g.nodes))
      (Map.values g.edges)
