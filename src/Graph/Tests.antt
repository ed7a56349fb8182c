-- ===== src/Graph/Tests.antt =====
-- The capability graph on concrete requests.
use gyges_research_layer.Base.{true, false, ◌≡◌, refl, List, [], ◌∷◌, ok, arith, find}
use gyges_research_layer.Base.Map
use gyges_research_layer.Vocabulary.{CapabilityTool, search, fetch_html, RiskLevel}
use gyges_research_layer.Graph.Types.{
  capability, executed, block, CapabilityNode, CapabilityEdge, RequestInput, CapabilityGraphEngine,
  ExecutionPathRisk, empty, path_of, path_risk_for_rank,
}
use gyges_research_layer.Graph.Store.{
  add_node, add_edge, create_node, create_edge, link_from, advance_path, node_for, entry_for,
}
use gyges_research_layer.Graph.Evaluate.{
  policy_from, policy_of, path_rank, find_enabled_rule, evaluate_change, evaluate_next, evaluate_on,
  evaluate_path,
}
use gyges_research_layer.Graph.Record.{admits, record_node, record_transition}
use gyges_research_layer.Graph.Verdict.{Admissible, evaluate_path-Admissible}
use gyges_research_layer.Graph.Paths.{Transition, transitions, PathOk, transitions-PathOk}
use gyges_research_layer.Graph.Wellformed.{IsGraph, add_node-IsGraph}

abbrev asks : CapabilityTool → RequestInput
asks tool = record {
  agent_id = "a";
  compartment_id = "press";
  tool = tool;
  risk_level = RiskLevel.low;
}

-- A policy for paths of three and one rule, from search to fetch_html.
abbrev ready : CapabilityGraphEngine
ready = record empty {
  transition_rules =
      (
        "r",
        record {
          id = "r";
          from_tool = search;
          to_tool = fetch_html;
          max_allowed_risk = ExecutionPathRisk.medium;
          action_on_violation = block;
          enabled = true;
        },
      )
      ∷ [];
  isolation_policies =
      (
        "i",
        record {
          id = "i";
          compartment_id = "press";
          max_path_length = 3;
          forbid_cross_tool_escalation = true;
          require_approval_on_tool_change = false;
          block_on_high_risk_path = true;
          enabled = true;
        },
      )
      ∷ [];
  policy_by_compartment = ("press", "i") ∷ [];
}

abbrev asked : List Transition
asked =
    record { now = 1; node_id = "n1"; edge_id = "e1"; input = asks search }
    ∷ record { now = 2; node_id = "n2"; edge_id = "e2"; input = asks fetch_html }
    ∷ record { now = 3; node_id = "n3"; edge_id = "e3"; input = asks search }
    ∷ []

-- The change back to search has no rule, and is not on the path.
two_steps :
    path_of "press" (transitions ready asked)
    ≡ entry_for "n1" (asks search) ∷ entry_for "n2" (asks fetch_html) ∷ []
unfolding transitions record_transition record_node create_node link_from create_edge advance_path
    evaluate_path evaluate_on evaluate_next evaluate_change policy_of policy_from path_rank
    path_risk_for_rank find_enabled_rule find empty Map.get Map.set Map.values
two_steps = refl

ready-PathOk : PathOk "press" ready
unfolding empty Map.get
ready-PathOk = record { linked_path = tt; within_length = λ p h. omega arith }

transitions-PathOk_example : PathOk "press" (transitions ready asked)
transitions-PathOk_example = transitions-PathOk "press" ready asked ready-PathOk

first_admitted : admits (evaluate_path (asks search) ready).action ≡ true
unfolding evaluate_path evaluate_on policy_of policy_from path_rank path_risk_for_rank empty Map.get
first_admitted = refl

evaluate_path-Admissible_example : Admissible (asks search) ready
evaluate_path-Admissible_example = evaluate_path-Admissible (asks search) ready first_admitted

ready-IsGraph : IsGraph ready
unfolding empty Map.get
ready-IsGraph = record { ends = λ j e h. cc; stops = λ cid. tt }

abbrev node : CapabilityNode
node = node_for capability 1 "n" (asks search)

abbrev with_node : CapabilityGraphEngine
with_node = record ready { nodes = ("n", node) ∷ [] }

node_added : add_node node ready ≡ ok with_node
unfolding add_node empty Map.get Map.set
node_added = refl

with_node-IsGraph : IsGraph with_node
with_node-IsGraph = add_node-IsGraph node ready with_node node_added ready-IsGraph

abbrev loop : CapabilityEdge
loop = record {
  id = "e";
  from_node_id = "n";
  to_node_id = "n";
  relation = executed;
  created_at = 2;
}

edge_added : add_edge loop with_node ≡ ok (record with_node { edges = ("e", loop) ∷ [] })
unfolding add_edge empty Map.get Map.set
edge_added = refl
