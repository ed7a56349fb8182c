-- ===== src/Graph/Paths.antt =====
-- Execution paths of packages/core/src/capability-graph/engine.ts under sequences of transitions.
use gyges_research_layer.Base.{
  ℕ, ◌≤◌, Bool, true, false, ◌&&◌, ◌≡◌, refl, sym, ◌∙◌, ap, String, str_eq, eq_iff, List, [], ◌∷◌,
  ◌++◌, Option, none, some, inl, inr, arith, Bool-cases, if◌then◌else◌, length, length-append, last,
  or_else,
}
use gyges_research_layer.Base.Map
use gyges_research_layer.Graph.Types.{
  CapabilityNodeKind, capability, transitioned_to, CapabilityEdgeRelation, CapabilityTransitionRule,
  DependencyIsolationPolicy, CapabilityPathDecision, RequestInput, PathEntry, CapabilityGraphEngine,
  path_of,
}
use gyges_research_layer.Graph.Store.{create_node, create_edge, link_from, advance_path, entry_for}
use gyges_research_layer.Graph.Evaluate.{policy_of, evaluate_path}
use gyges_research_layer.Graph.Record.{
  admits, record_node, record_transition, refused_kind, refused_relation, related,
}
use gyges_research_layer.Graph.Verdict.{Continues, rules_of, Admissible, evaluate_path-Admissible}

-- The rules, the policies and the paths: what decisions depend on.
pub record SameBasis (g g' : CapabilityGraphEngine) : Type 0 where
  pub same_rules : g'.transition_rules ≡ g.transition_rules
  pub same_policies : g'.isolation_policies ≡ g.isolation_policies
  pub same_index : g'.policy_by_compartment ≡ g.policy_by_compartment

module _ (kind : CapabilityNodeKind) (relation : CapabilityEdgeRelation) (now : ℕ)
    (node_id edge_id : String) (i : RequestInput) (g : CapabilityGraphEngine) where
  abbrev linked : Option PathEntry → CapabilityGraphEngine
  linked o = (link_from o edge_id node_id relation now (create_node kind now node_id i g)).0

  linked_paths : (o : Option PathEntry) → (linked o).paths ≡ g.paths
  unfolding link_from create_edge create_node
  linked_paths none = refl
  linked_paths (some e) = refl

  linked_basis : (o : Option PathEntry) → SameBasis g (linked o)
  unfolding link_from create_edge create_node
  linked_basis none = record { same_rules = refl; same_policies = refl; same_index = refl }
  linked_basis (some e) = record { same_rules = refl; same_policies = refl; same_index = refl }

  pub record_node_basis :
      (b : Bool) → SameBasis g (record_node b kind relation now node_id edge_id i g).0
  unfolding record_node advance_path
  record_node_basis true = record {
    same_rules = (linked_basis (last (path_of i.compartment_id g))).same_rules;
    same_policies = (linked_basis (last (path_of i.compartment_id g))).same_policies;
    same_index = (linked_basis (last (path_of i.compartment_id g))).same_index;
  }
  record_node_basis false = linked_basis (last (path_of i.compartment_id g))

  pub record_node_path :
      (b : Bool) (cid : String)
      → path_of cid (record_node b kind relation now node_id edge_id i g).0 ≡ (
          if b && str_eq i.compartment_id cid
          then path_of cid g ++ entry_for node_id i ∷ []
          else path_of cid g)
  unfolding record_node advance_path
  record_node_path true cid =
      let m = linked_paths (last (path_of i.compartment_id g)) in
      ground (
        arith,
        m,
        eq_iff i.compartment_id cid,
        Map.get-set i.compartment_id cid (path_of i.compartment_id g ++ entry_for node_id i ∷ [])
            g.paths,
      )
  record_node_path false cid =
      ap (λ m. or_else (Map.get cid m) []) (linked_paths (last (path_of i.compartment_id g)))

-- A transition records a node in one of two ways, as its decision says.
pub transition_cases {ℓ} :
    (now : ℕ) (node_id edge_id : String) (i : RequestInput) (g : CapabilityGraphEngine)
    (P : CapabilityGraphEngine → Type ℓ)
    → ((b : Bool) (kind : CapabilityNodeKind) (relation : CapabilityEdgeRelation)
        → admits (evaluate_path i g).action ≡ b
        → P (record_node b kind relation now node_id edge_id i g).0)
    → P (record_transition now node_id edge_id i g).0
unfolding record_transition
transition_cases now node_id edge_id i g P h = by_action (admits (evaluate_path i g).action) refl
  where
    d : CapabilityPathDecision
    d = evaluate_path i g

    by_action :
        (b : Bool)
        → admits d.action ≡ b
        → P
            (related node_id d (
              if b
              then record_node true capability transitioned_to now node_id edge_id i g
              else record_node false
                  (refused_kind d.action)
                  (refused_relation d.action)
                  now
                  node_id
                  edge_id
                  i
                  g)).0
    by_action true e = h true capability transitioned_to e
    by_action false e = h false (refused_kind d.action) (refused_relation d.action) e

-- A transition puts the request at the end of its compartment's path if the decision admits it, and
-- leaves every path as it is otherwise; the paths of other compartments always stay.
pub record_transition_path :
    (now : ℕ) (node_id edge_id cid : String) (i : RequestInput) (g : CapabilityGraphEngine)
    → path_of cid (record_transition now node_id edge_id i g).0 ≡ (
        if admits (record_transition now node_id edge_id i g).1.action
          && str_eq i.compartment_id cid
        then path_of cid g ++ entry_for node_id i ∷ []
        else path_of cid g)
unfolding record_transition
record_transition_path now node_id edge_id cid i g =
    transition_cases now node_id edge_id i g
      (λ g'. path_of cid g' ≡ (
        if admits (evaluate_path i g).action && str_eq i.compartment_id cid
        then path_of cid g ++ entry_for node_id i ∷ []
        else path_of cid g))
      λ b kind relation e. rw e (record_node_path kind relation now node_id edge_id i g b cid)

transition_basis :
    (now : ℕ) (node_id edge_id : String) (i : RequestInput) (g : CapabilityGraphEngine)
    → SameBasis g (record_transition now node_id edge_id i g).0
transition_basis now node_id edge_id i g =
    transition_cases now node_id edge_id i g (SameBasis g)
      λ b kind relation e. record_node_basis kind relation now node_id edge_id i g b

-- A transition: its time, the ids that it draws, and the request.
pub record Transition : Type 0 where
  pub now : ℕ
  pub node_id : String
  pub edge_id : String
  pub input : RequestInput

unfoldable pub transitions : CapabilityGraphEngine → List Transition → CapabilityGraphEngine
transitions g [] = g
transitions g (t ∷ ts) = transitions (record_transition t.now t.node_id t.edge_id t.input g).0 ts

-- Each entry of a path goes on from the one before it.
abbrev pub Linked : List CapabilityTransitionRule → List PathEntry → Type 0
Linked rules [] = Unit
Linked rules (e ∷ []) = Unit
Linked rules (e ∷ f ∷ es) = Continues rules e f.tool × Linked rules (f ∷ es)

Linked-append :
    (rules : List CapabilityTransitionRule) (es : List PathEntry) (f : PathEntry)
    → ((e : PathEntry) → last es ≡ some e → Continues rules e f.tool)
    → Linked rules es
    → Linked rules (es ++ f ∷ [])
Linked-append rules [] f h l = tt
Linked-append rules (e ∷ []) f h l = (h e refl, tt)
Linked-append rules (e ∷ d ∷ es) f h l = (l.0, Linked-append rules (d ∷ es) f h l.1)

-- What holds of the path of a compartment.
pub record PathOk (cid : String) (g : CapabilityGraphEngine) : Type 0 where
  pub linked_path : Linked (rules_of g) (path_of cid g)
  pub within_length :
      (p : DependencyIsolationPolicy)
      → policy_of cid g ≡ some p
      → length (path_of cid g) ≤ p.max_path_length

policy_same :
    (cid : String) (g g' : CapabilityGraphEngine)
    → SameBasis g g'
    → policy_of cid g' ≡ policy_of cid g
unfolding policy_of
policy_same cid g g' b = rw (b.same_index, b.same_policies)

PathOk-basis :
    (cid : String) (g g' : CapabilityGraphEngine)
    → SameBasis g g'
    → Linked (rules_of g) (path_of cid g')
    → ((p : DependencyIsolationPolicy)
        → policy_of cid g ≡ some p
        → length (path_of cid g') ≤ p.max_path_length)
    → PathOk cid g'
PathOk-basis cid g g' b l w = record {
  linked_path = rw b.same_rules l;
  within_length = λ p h. w p (sym (policy_same cid g g' b) ∙ h);
}

admitted_path :
    (cid node_id : String) (i : RequestInput) (g : CapabilityGraphEngine) (b : Bool)
    → (b ≡ true → Admissible i g)
    → PathOk cid g
    → let path =
        if b && str_eq i.compartment_id cid
        then path_of cid g ++ entry_for node_id i ∷ []
        else path_of cid g in
      Linked (rules_of g) path
      × ((p : DependencyIsolationPolicy)
          → policy_of cid g ≡ some p
          → length path ≤ p.max_path_length)
admitted_path cid node_id i g b a v = elim (Bool-cases (b && str_eq i.compartment_id cid)) [
  | inl e ↦ rw e (grown (a (ground arith)) (ground (arith, eq_iff i.compartment_id cid)))
  | inr e ↦ rw e (v.linked_path, v.within_length)
]
  where
    grown :
        Admissible i g
        → i.compartment_id ≡ cid
        → Linked (rules_of g) (path_of cid g ++ entry_for node_id i ∷ [])
          × ((p : DependencyIsolationPolicy)
              → policy_of cid g ≡ some p
              → length (path_of cid g ++ entry_for node_id i ∷ []) ≤ p.max_path_length)
    grown ok e = (
      Linked-append (rules_of g) (path_of cid g) (entry_for node_id i)
          (λ f h. ok.continues f (rw e h)) v.linked_path,
      λ p h. ground (arith, e, length-append (path_of cid g) (entry_for node_id i ∷ [])),
    )

transition-PathOk :
    (cid : String) (t : Transition) (g : CapabilityGraphEngine)
    → PathOk cid g
    → PathOk cid (record_transition t.now t.node_id t.edge_id t.input g).0
transition-PathOk cid t g v =
    transition_cases t.now t.node_id t.edge_id t.input g (PathOk cid) λ b kind relation e.
      let path = record_node_path kind relation t.now t.node_id t.edge_id t.input g b cid in
      let ok =
        admitted_path cid t.node_id t.input g b
          (λ yes'. evaluate_path-Admissible t.input g (e ∙ yes')) v in
      PathOk-basis cid g (record_node b kind relation t.now t.node_id t.edge_id t.input g).0
        (record_node_basis kind relation t.now t.node_id t.edge_id t.input g b) (rw path ok.0)
        (λ p h. rw path (ok.1 p h))

-- Whatever transitions are recorded, in any compartments and with any ids: the path of a compartment
-- that is no longer than its policy allows, and on which each capability has the tool of the one
-- before it or is reached by an enabled rule, stays so.
pub transitions-PathOk :
    (cid : String) (g : CapabilityGraphEngine) (ts : List Transition)
    → PathOk cid g
    → PathOk cid (transitions g ts)
unfolding transitions
transitions-PathOk cid g [] v = v
transitions-PathOk cid g (t ∷ ts) v =
    transitions-PathOk cid (record_transition t.now t.node_id t.edge_id t.input g).0 ts
      (transition-PathOk cid t g v)
