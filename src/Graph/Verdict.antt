-- ===== src/Graph/Verdict.antt =====
-- What a decision of `evaluatePath` (packages/core/src/capability-graph/engine.ts) guarantees.
use gyges_research_layer.Base.{
  ℕ, ◌+◌, ◌≤◌, true, false, ◌&&◌, ◌≡◌, ◌≢◌, ◌↔◌, ◌⊎◌, List, [], ◌∷◌, some, inl, inr, arith,
  Option-cases, length, last, find, Some, ltb,
}
use gyges_research_layer.Base.Map
use gyges_research_layer.Vocabulary.{CapabilityTool, tool_eq, tool_eq_iff}
use gyges_research_layer.Graph.Types.{
  ExecutionPathRisk, high, blocked, block, CapabilityTransitionRule, DependencyIsolationPolicy,
  RequestInput, PathEntry, CapabilityGraphEngine, risk_level_rank, path_risk_for_rank, path_of,
}
use gyges_research_layer.Graph.Evaluate.{
  policy_of, path_rank, find_enabled_rule, evaluate_change, evaluate_next, evaluate_on,
  evaluate_path,
}
use gyges_research_layer.Graph.Record.{admits}

-- A rule of the list is enabled and leads from the one tool to the other.
abbrev pub Permits : List CapabilityTransitionRule → CapabilityTool → CapabilityTool → Type 0
Permits rules from to =
    Some (λ r. (r.enabled ≡ true) × (r.from_tool ≡ from) × (r.to_tool ≡ to)) rules

find_rule-Permits :
    (from to : CapabilityTool) (rules : List CapabilityTransitionRule)
    (r : CapabilityTransitionRule)
    → find (λ x. x.enabled && tool_eq x.from_tool from && tool_eq x.to_tool to) rules ≡ some r
    → Permits rules from to
unfolding find
find_rule-Permits from to [] r h = cc
find_rule-Permits from to (x ∷ xs) r h =
    ground (
      arith,
      tool_eq_iff x.from_tool from,
      tool_eq_iff x.to_tool to,
      find_rule-Permits from to xs r,
    )

-- The path may go on from an entry with a request for the tool: it is the same tool, or a rule
-- permits the change.
abbrev pub Continues : List CapabilityTransitionRule → PathEntry → CapabilityTool → Type 0
Continues rules previous tool = (previous.tool ≡ tool) ⊎ Permits rules previous.tool tool

abbrev pub rules_of : CapabilityGraphEngine → List CapabilityTransitionRule
rules_of g = Map.values g.transition_rules

path_risk-ne-blocked : (rank : ℕ) → path_risk_for_rank rank ≢ blocked
unfolding path_risk_for_rank
path_risk-ne-blocked rank = ground arith

evaluate_change_block :
    (p : DependencyIsolationPolicy) (i : RequestInput) (risk : ExecutionPathRisk) (e : PathEntry)
    (r : CapabilityTransitionRule)
    → risk ≢ blocked
    → ((evaluate_change p i risk e r).action ≡ block)
      ↔ ((evaluate_change p i risk e r).risk ≡ blocked)
unfolding evaluate_change
evaluate_change_block p i risk e r n = ground arith

evaluate_next_block :
    (p : DependencyIsolationPolicy) (i : RequestInput) (risk : ExecutionPathRisk) (e : PathEntry)
    (g : CapabilityGraphEngine)
    → risk ≢ blocked
    → ((evaluate_next p i risk e g).action ≡ block) ↔ ((evaluate_next p i risk e g).risk ≡ blocked)
unfolding evaluate_next
evaluate_next_block p i risk e g n = elim (Option-cases (find_enabled_rule e.tool i.tool g)) [
  | inl h ↦ ground (arith, h)
  | inr (r, h) ↦ ground (arith, h, evaluate_change_block p i risk e r n)
]

evaluate_on_block :
    (p : DependencyIsolationPolicy) (i : RequestInput) (path : List PathEntry)
    (g : CapabilityGraphEngine)
    → ((evaluate_on p i path g).action ≡ block) ↔ ((evaluate_on p i path g).risk ≡ blocked)
unfolding evaluate_on
evaluate_on_block p i path g =
    let rank = path_rank (risk_level_rank i.risk_level) path in
    elim (Option-cases (last path)) [
      | inl h ↦ ground (arith, h, path_risk-ne-blocked rank)
      | inr (e, h) ↦ ground (
        arith,
        h,
        evaluate_next_block p i (path_risk_for_rank rank) e g (path_risk-ne-blocked rank),
      )
    ]

-- A decision blocks exactly when the risk that it reports is `blocked`.
pub evaluate_path_block :
    (i : RequestInput) (g : CapabilityGraphEngine)
    → ((evaluate_path i g).action ≡ block) ↔ ((evaluate_path i g).risk ≡ blocked)
unfolding evaluate_path
evaluate_path_block i g = elim (Option-cases (policy_of i.compartment_id g)) [
  | inl h ↦ ground (arith, h)
  | inr (p, h) ↦ ground (arith, h, evaluate_on_block p i (path_of i.compartment_id g) g)
]

-- What has to be true of a request on which the path advances.
pub record Admissible (i : RequestInput) (g : CapabilityGraphEngine) : Type 0 where
  pub policy : DependencyIsolationPolicy
  pub found : policy_of i.compartment_id g ≡ some policy
  pub is_enabled : policy.enabled ≡ true
  pub fits : length (path_of i.compartment_id g) + 1 ≤ policy.max_path_length
  pub continues :
      (previous : PathEntry)
      → last (path_of i.compartment_id g) ≡ some previous
      → Continues (rules_of g) previous i.tool
  pub not_high :
      (previous : PathEntry)
      → last (path_of i.compartment_id g) ≡ some previous
      → policy.block_on_high_risk_path ≡ true
      → path_risk_for_rank (path_rank (risk_level_rank i.risk_level) (path_of i.compartment_id g))
        ≢ high

module _ (p : DependencyIsolationPolicy) (i : RequestInput) (g : CapabilityGraphEngine) where
  next-Continues :
      (risk : ExecutionPathRisk) (e : PathEntry)
      → admits (evaluate_next p i risk e g).action ≡ true
      → Continues (rules_of g) e i.tool × (p.block_on_high_risk_path ≡ true → risk ≢ high)
  unfolding evaluate_next
  next-Continues risk e h = elim (Option-cases (find_enabled_rule e.tool i.tool g)) [
    | inl n ↦ ground (arith, n, tool_eq_iff e.tool i.tool)
    | inr (r, n) ↦ ground (arith, n, tool_eq_iff e.tool i.tool, permitted r n)
  ]
    where
      permitted :
          (r : CapabilityTransitionRule)
          → find_enabled_rule e.tool i.tool g ≡ some r
          → Permits (rules_of g) e.tool i.tool
      permitted r n = find_rule-Permits e.tool i.tool (rules_of g) r (unfold find_enabled_rule in n)

  abbrev OnPath : List PathEntry → Type 0
  OnPath path =
      (length path + 1 ≤ p.max_path_length)
      × ((previous : PathEntry)
          → last path ≡ some previous
          → Continues (rules_of g) previous i.tool
            × (p.block_on_high_risk_path ≡ true
                → path_risk_for_rank (path_rank (risk_level_rank i.risk_level) path) ≢ high))

  on_path : (path : List PathEntry) → admits (evaluate_on p i path g).action ≡ true → OnPath path
  unfolding evaluate_on
  on_path path h =
      let risk = path_risk_for_rank (path_rank (risk_level_rank i.risk_level) path) in
      (ground arith, λ previous e. next-Continues risk previous (rw (e, evaluate_on, fits) at h))
    where
      fits : ltb p.max_path_length (length path + 1) ≡ false
      fits = ground arith

-- Whenever a decision lets the path advance, the compartment has an enabled policy, the path with
-- the request on it is not longer than the policy allows, the path goes on with the same tool or by
-- an enabled rule from the last tool to the new one, and where the policy blocks high-risk paths the
-- risk of a path that has begun is not high.
pub evaluate_path-Admissible :
    (i : RequestInput) (g : CapabilityGraphEngine)
    → admits (evaluate_path i g).action ≡ true
    → Admissible i g
unfolding evaluate_path
evaluate_path-Admissible i g h = elim (Option-cases (policy_of i.compartment_id g)) [
  | inl n ↦ absurd (ground (arith, n))
  | inr (p, n) ↦
      by_enabled p n (on_path p i g (path_of i.compartment_id g) (ground (arith, n)))
        (ground (arith, n))
]
  where
    by_enabled :
        (p : DependencyIsolationPolicy)
        → policy_of i.compartment_id g ≡ some p
        → OnPath p i g (path_of i.compartment_id g)
        → p.enabled ≡ true
        → Admissible i g
    by_enabled p n (fits, goes) on = record {
      policy = p;
      found = n;
      is_enabled = on;
      fits = fits;
      continues = λ previous e. (goes previous e).0;
      not_high = λ previous e. (goes previous e).1;
    }
