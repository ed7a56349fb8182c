-- ===== src/Graph/Wellformed.antt =====
-- The graph of packages/core/src/capability-graph/engine.ts stays a graph: edges and paths go between
-- nodes that exist.
use gyges_research_layer.Base.{
  ℕ, Bool, true, false, ◌≡◌, refl, subst, String, str_eq, eq_iff, [], ◌∷◌, ◌++◌, Option, none, some,
  arith, if◌then◌else◌, last, ok, All, All-append, All-mono, last-All,
}
use gyges_research_layer.Base.Map
use gyges_research_layer.Base.Map.{Map}
use gyges_research_layer.Graph.Types.{
  CapabilityNodeKind, capability, transitioned_to, CapabilityEdgeRelation, CapabilityNode,
  CapabilityEdge, RequestInput, PathEntry, CapabilityGraphEngine, path_of,
}
use gyges_research_layer.Graph.Store.{
  create_node, create_edge, link_from, advance_path, entry_for, node_for, add_node, add_edge,
}
use gyges_research_layer.Graph.Record.{record_node, record_transition, record_capability_request}
use gyges_research_layer.Graph.Paths.{transition_cases}

abbrev pub IsNode : CapabilityGraphEngine → String → Type 0
IsNode g id = Map.has id g.nodes ≡ true

pub record IsGraph (g : CapabilityGraphEngine) : Type 0 where
  pub ends :
      (j : String) (e : CapabilityEdge)
      → Map.get j g.edges ≡ some e
      → IsNode g e.from_node_id × IsNode g e.to_node_id
  pub stops : (cid : String) → All (λ p. IsNode g p.node_id) (path_of cid g)

has-set :
    {V : Type 0} (k j : String) (v : V) (m : Map V)
    → Map.has j m ≡ true
    → Map.has j (Map.set k v m) ≡ true
has-set k j v m h = ground (arith, Map.get-set k j v m)

has-set_self : {V : Type 0} (k : String) (v : V) (m : Map V) → Map.has k (Map.set k v m) ≡ true
has-set_self k v m = ground (arith, eq_iff k k, Map.get-set k k v m)

set_node-IsGraph :
    (id : String) (n : CapabilityNode) (g : CapabilityGraphEngine)
    → IsGraph g
    → IsGraph (record g { nodes = Map.set id n g.nodes })
set_node-IsGraph id n g v = record {
  ends = λ j e h.
      let (f, t) = v.ends j e h in
      (has-set id e.from_node_id n g.nodes f, has-set id e.to_node_id n g.nodes t);
  stops =
      λ cid. All-mono _ _ (path_of cid g) (λ p h. has-set id p.node_id n g.nodes h) (v.stops cid);
}

set_edge-IsGraph :
    (id : String) (e : CapabilityEdge) (g : CapabilityGraphEngine)
    → IsNode g e.from_node_id
    → IsNode g e.to_node_id
    → IsGraph g
    → IsGraph (record g { edges = Map.set id e g.edges })
set_edge-IsGraph id e g f t v = record {
  ends = λ j d h. ground (arith, Map.get-set id j e g.edges, v.ends j d);
  stops = v.stops;
}

module _ (kind : CapabilityNodeKind) (relation : CapabilityEdgeRelation) (now : ℕ)
    (node_id edge_id : String) (i : RequestInput) where
  link-IsGraph :
      (o : Option PathEntry) (g : CapabilityGraphEngine)
      → ((e : PathEntry) → o ≡ some e → IsNode g e.node_id)
      → IsNode g node_id
      → IsGraph g
      → IsGraph (link_from o edge_id node_id relation now g).0
  unfolding link_from create_edge
  link-IsGraph none g p n v = v
  link-IsGraph (some e) g p n v = set_edge-IsGraph edge_id _ g (p e refl) n v

  link_nodes :
      (o : Option PathEntry) (g : CapabilityGraphEngine)
      → (link_from o edge_id node_id relation now g).0.nodes ≡ g.nodes
  unfolding link_from create_edge
  link_nodes none g = refl
  link_nodes (some e) g = refl

  advance_path_of :
      (g : CapabilityGraphEngine) (cid : String)
      → path_of cid (advance_path node_id i g) ≡ (
          if str_eq i.compartment_id cid
          then path_of cid g ++ entry_for node_id i ∷ []
          else path_of cid g)
  unfolding advance_path
  advance_path_of g cid = ground (
    arith,
    eq_iff i.compartment_id cid,
    Map.get-set i.compartment_id cid (path_of i.compartment_id g ++ entry_for node_id i ∷ [])
        g.paths,
  )

  advance_stops :
      (g : CapabilityGraphEngine) (cid : String) (b : Bool)
      → IsNode g node_id
      → IsGraph g
      → All
          (λ p. IsNode g p.node_id)
          (if b then path_of cid g ++ entry_for node_id i ∷ [] else path_of cid g)
  advance_stops g cid true n v =
      All-append (λ p. IsNode g p.node_id) (path_of cid g) (entry_for node_id i ∷ []) (v.stops cid)
        (n, tt)
  advance_stops g cid false n v = v.stops cid

  advance_nodes : (g : CapabilityGraphEngine) → (advance_path node_id i g).nodes ≡ g.nodes
  unfolding advance_path
  advance_nodes g = refl

  advance_edges : (g : CapabilityGraphEngine) → (advance_path node_id i g).edges ≡ g.edges
  unfolding advance_path
  advance_edges g = refl

  advance-IsGraph :
      (g : CapabilityGraphEngine)
      → IsNode g node_id
      → IsGraph g
      → IsGraph (advance_path node_id i g)
  advance-IsGraph g n v = record {
    ends = λ j e h. rw (advance_nodes g) (v.ends j e (rw (advance_edges g) at h));
    stops = λ cid.
        rw (advance_path_of g cid, advance_nodes g)
          (advance_stops g cid (str_eq i.compartment_id cid) n v);
  }

  pub record_node-IsGraph :
      (b : Bool) (g : CapabilityGraphEngine)
      → IsGraph g
      → IsGraph (record_node b kind relation now node_id edge_id i g).0
  unfolding record_node create_node
  record_node-IsGraph b g v = by_admitted b
    where
      g' : CapabilityGraphEngine
      g' = record g { nodes = Map.set node_id (node_for kind now node_id i) g.nodes }

      made : IsNode g' node_id
      made = has-set_self node_id (node_for kind now node_id i) g.nodes

      v' : IsGraph g'
      v' = set_node-IsGraph node_id (node_for kind now node_id i) g v

      path : Option PathEntry
      path = last (path_of i.compartment_id g)

      v'' : IsGraph (link_from path edge_id node_id relation now g').0
      v'' =
          link-IsGraph path g'
            (λ e h.
              last-All (λ p. IsNode g' p.node_id) (path_of i.compartment_id g') e
                (v'.stops i.compartment_id) h)
            made v'

      by_admitted : (b : Bool) → IsGraph (record_node b kind relation now node_id edge_id i g).0
      by_admitted true = advance-IsGraph _ (rw (link_nodes path g') made) v''
      by_admitted false = v''

-- Recording a transition, whatever the decision on it and whatever ids it draws, keeps every edge and
-- every path between nodes that exist.
pub record_transition-IsGraph :
    (now : ℕ) (node_id edge_id : String) (i : RequestInput) (g : CapabilityGraphEngine)
    → IsGraph g
    → IsGraph (record_transition now node_id edge_id i g).0
record_transition-IsGraph now node_id edge_id i g v =
    transition_cases now node_id edge_id i g IsGraph
      λ b kind relation e. record_node-IsGraph kind relation now node_id edge_id i b g v

-- Recording a request without a decision keeps every edge and every path between nodes that exist.
pub record_capability_request-IsGraph :
    (now : ℕ) (node_id edge_id : String) (i : RequestInput) (g : CapabilityGraphEngine)
    → IsGraph g
    → IsGraph (record_capability_request now node_id edge_id i g)
unfolding record_capability_request
record_capability_request-IsGraph now node_id edge_id i g v =
    unfold record_node in
    record_node-IsGraph capability transitioned_to now node_id edge_id i true g v

-- A node that `addNode` accepts keeps every edge and every path between nodes that exist.
pub add_node-IsGraph :
    (n : CapabilityNode) (g g' : CapabilityGraphEngine)
    → add_node n g ≡ ok g'
    → IsGraph g
    → IsGraph g'
unfolding add_node
add_node-IsGraph n g g' h v = subst IsGraph (ground arith) (set_node-IsGraph n.id n g v)

-- An edge that `addEdge` accepts keeps every edge and every path between nodes that exist.
pub add_edge-IsGraph :
    (e : CapabilityEdge) (g g' : CapabilityGraphEngine)
    → add_edge e g ≡ ok g'
    → IsGraph g
    → IsGraph g'
unfolding add_edge
add_edge-IsGraph e g g' h v =
    subst IsGraph (ground arith) (set_edge-IsGraph e.id e g (ground arith) (ground arith) v)
