-- ===== src/Graph/Store.antt =====
-- packages/core/src/capability-graph/engine.ts: nodes, edges, rules and policies of the graph.
use gyges_research_layer.Base.{
  ℕ, not, String, List, [], ◌∷◌, ◌++◌, Option, none, some, Result, ok, err, if◌then◌else◌,
}
use gyges_research_layer.Base.Map
use gyges_research_layer.Base.Map.{Map}
use gyges_research_layer.Graph.Types.{
  CapabilityNodeKind, CapabilityEdgeRelation, CapabilityNode, CapabilityEdge,
  CapabilityTransitionRule, DependencyIsolationPolicy, RequestInput, PathEntry,
  CapabilityGraphEngine, path_of,
}

pub data GraphError : Type 0 where
  duplicate_node duplicate_edge unknown_source unknown_target duplicate_rule duplicate_policy :
      String → GraphError
  compartment_taken : String → GraphError

unfoldable pub add_node :
    CapabilityNode → CapabilityGraphEngine → Result GraphError CapabilityGraphEngine
add_node n g =
    if Map.has n.id g.nodes
    then err (duplicate_node n.id)
    else ok (record g { nodes = Map.set n.id n g.nodes })

unfoldable pub add_edge :
    CapabilityEdge → CapabilityGraphEngine → Result GraphError CapabilityGraphEngine
add_edge e g =
    if Map.has e.id g.edges
    then err (duplicate_edge e.id)
    else if not (Map.has e.from_node_id g.nodes)
    then err (unknown_source e.from_node_id)
    else if not (Map.has e.to_node_id g.nodes)
    then err (unknown_target e.to_node_id)
    else ok (record g { edges = Map.set e.id e g.edges })

unfoldable pub register_transition_rule :
    CapabilityTransitionRule → CapabilityGraphEngine → Result GraphError CapabilityGraphEngine
register_transition_rule r g =
    if Map.has r.id g.transition_rules
    then err (duplicate_rule r.id)
    else ok (record g { transition_rules = Map.set r.id r g.transition_rules })

unfoldable pub register_isolation_policy :
    DependencyIsolationPolicy → CapabilityGraphEngine → Result GraphError CapabilityGraphEngine
register_isolation_policy p g =
    if Map.has p.id g.isolation_policies
    then err (duplicate_policy p.id)
    else if Map.has p.compartment_id g.policy_by_compartment
    then err (compartment_taken p.compartment_id)
    else ok (record g {
      isolation_policies = Map.set p.id p g.isolation_policies;
      policy_by_compartment = Map.set p.compartment_id p.id g.policy_by_compartment;
    })

-- A node of this kind for the request; `createNode` stores it.
abbrev pub node_for : CapabilityNodeKind → ℕ → String → RequestInput → CapabilityNode
node_for kind now id i = record {
  id = id;
  kind = kind;
  agent_id = some i.agent_id;
  compartment_id = some i.compartment_id;
  tool = some i.tool;
  risk_level = some i.risk_level;
  created_at = now;
}

unfoldable pub create_node :
    CapabilityNodeKind → ℕ → String → RequestInput → CapabilityGraphEngine → CapabilityGraphEngine
create_node kind now id i g = record g { nodes = Map.set id (node_for kind now id i) g.nodes }

unfoldable pub create_edge :
    String
    → String
    → String
    → CapabilityEdgeRelation
    → ℕ
    → CapabilityGraphEngine
    → CapabilityGraphEngine
create_edge id from to relation now g = record g {
  edges =
      Map.set id
        (record {
          id = id;
          from_node_id = from;
          to_node_id = to;
          relation = relation;
          created_at = now;
        })
        g.edges;
}

-- The edge from the previous entry of the path, if there is one.
unfoldable pub link_from :
    Option PathEntry
    → String
    → String
    → CapabilityEdgeRelation
    → ℕ
    → CapabilityGraphEngine
    → CapabilityGraphEngine × List String
unfolding create_edge
link_from none edge_id node_id relation now g = (g, [])
link_from (some previous) edge_id node_id relation now g =
    (create_edge edge_id previous.node_id node_id relation now g, edge_id ∷ [])

abbrev pub entry_for : String → RequestInput → PathEntry
entry_for node_id i = record { node_id = node_id; tool = i.tool; risk_level = i.risk_level }

unfoldable pub advance_path : String → RequestInput → CapabilityGraphEngine → CapabilityGraphEngine
advance_path node_id i g = record g {
  paths = Map.set i.compartment_id (path_of i.compartment_id g ++ entry_for node_id i ∷ []) g.paths;
}
