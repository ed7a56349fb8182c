-- ===== src/Boundary/Verdict.antt =====
-- The decisions that `evaluate` of packages/core/src/privacy-boundary/engine.ts returns.
use gyges_research_layer.Base.{
  ◌≢◌, eq_iff, Bool-cases, Option, none, ◌≤◌, ◌≡◌, ◌↔◌, ◌⊎◌, Bool, true, false, not, List, [], ◌∷◌,
  ◌++◌, some, inl, inr, arith, Option-cases, All,
}
use gyges_research_layer.Base.Map
use gyges_research_layer.Base.Map.{elem}
use gyges_research_layer.Vocabulary.{CapabilityTool, tool_eq_iff}
use gyges_research_layer.Boundary.Engine.{
  IsolationLevel, strict, is_forbidden, is_other_tool, to_correlation_risk, CorrelationRiskLevel,
  no_risk, PrivacyBoundaryAction, allow, cross_compartment, cross_tool_reuse, risk_escalation,
  strict_isolation_required, PrivacyBoundaryRule, BoundaryViolation, PrivacyBoundaryEvaluationInput,
  PrivacyBoundaryEngine, rule_key, risk_rank, action_rank, max_risk, max_action, source_of, is_same,
  is_escalated, is_reused, is_strict, violation, violations, escalation_risk, when,
  action_for_violation, scan, under_rule, evaluate,
}

abbrev pub Judged : Type 0
Judged = PrivacyBoundaryAction × CorrelationRiskLevel

-- A judgement is at least as strict as a violation asks.
abbrev pub Covers : PrivacyBoundaryRule → Judged → BoundaryViolation → Type 0
Covers r a v =
    (action_rank (action_for_violation v.signal r) ≤ action_rank a.0)
    × (risk_rank v.risk_level ≤ risk_rank a.1)

abbrev AtLeast : Judged → Judged → Type 0
AtLeast a b = (action_rank a.0 ≤ action_rank b.0) × (risk_rank a.1 ≤ risk_rank b.1)

max_action_le :
    (a b : PrivacyBoundaryAction)
    → (action_rank a ≤ action_rank (max_action a b))
      × (action_rank b ≤ action_rank (max_action a b))
max_action_le a b = ground arith

max_risk_le :
    (a b : CorrelationRiskLevel)
    → (risk_rank a ≤ risk_rank (max_risk a b)) × (risk_rank b ≤ risk_rank (max_risk a b))
max_risk_le a b = ground arith

abbrev judge : PrivacyBoundaryRule → Judged → BoundaryViolation → Judged
judge r a v = (max_action a.0 (action_for_violation v.signal r), max_risk a.1 v.risk_level)

scan_grows :
    (r : PrivacyBoundaryRule) (a : Judged) (vs : List BoundaryViolation) → AtLeast a (scan r a vs)
unfolding scan
scan_grows r a [] = (omega arith, omega arith)
scan_grows r a (v ∷ vs) =
    let later : AtLeast (judge r a v) (scan r (judge r a v) vs) = scan_grows r (judge r a v) vs in
    let x = max_action_le a.0 (action_for_violation v.signal r) in
    let y = max_risk_le a.1 v.risk_level in
    (omega (arith, later.0, x.0), omega (arith, later.1, y.0))

scan-Covers :
    (r : PrivacyBoundaryRule) (a : Judged) (vs : List BoundaryViolation)
    → All (Covers r (scan r a vs)) vs
unfolding scan
scan-Covers r a [] = tt
scan-Covers r a (v ∷ vs) =
    let later : AtLeast (judge r a v) (scan r (judge r a v) vs) = scan_grows r (judge r a v) vs in
    let x = max_action_le a.0 (action_for_violation v.signal r) in
    let y = max_risk_le a.1 v.risk_level in
    ((omega (arith, later.0, x.1), omega (arith, later.1, y.1)), scan-Covers r (judge r a v) vs)

-- The scan allows only where nothing asks for more.
scan_allow :
    (r : PrivacyBoundaryRule) (a : Judged) (vs : List BoundaryViolation)
    → ((scan r a vs).0 ≡ allow)
      ↔ ((a.0 ≡ allow) × All (λ v. action_for_violation v.signal r ≡ allow) vs)
unfolding scan
scan_allow r a [] = ground arith
scan_allow r a (v ∷ vs) =
    ground
      (arith, max_action_allow a.0 (action_for_violation v.signal r), scan_allow r (judge r a v) vs)
  where
    max_action_allow :
        (a b : PrivacyBoundaryAction) → (max_action a b ≡ allow) ↔ ((a ≡ allow) × (b ≡ allow))
    max_action_allow a b = ground arith

under_rule_allow :
    (i : PrivacyBoundaryEvaluationInput) (r : PrivacyBoundaryRule) (vs : List BoundaryViolation)
    → ((under_rule i r vs).action ≡ allow) ↔ All (λ v. action_for_violation v.signal r ≡ allow) vs
unfolding under_rule
under_rule_allow i r [] = ground arith
under_rule_allow i r (v ∷ vs) = ground (arith, scan_allow r (allow, no_risk) (v ∷ vs))

-- What a rule asks of a request that it lets pass: the routing does not demand strict isolation, no
-- context is carried over to another tool where that is forbidden, and, unless the rule's own answer to
-- a violation is to allow it, the flow stays in its compartment and the risk is not above the ceiling.
abbrev pub IsCalm : PrivacyBoundaryEvaluationInput → PrivacyBoundaryRule → Type 0
IsCalm i r =
    (i.routing_isolation_level ≢ some strict)
    × ((i.previous_tool ≡ none)
        ⊎ (i.previous_tool ≡ some i.tool)
        ⊎ (i.allow_cross_tool_reuse ≢ some false))
    × ((r.action_on_violation ≡ allow)
        ⊎ (source_of i ≡ i.target_compartment_id)
          × (risk_rank (to_correlation_risk i.risk_level) ≤ risk_rank r.max_allowed_risk))

strict_iff : (l : Option IsolationLevel) → (is_strict l ≡ false) ↔ (l ≢ some strict)
strict_iff none = ground arith
strict_iff (some l) = ground arith

forbidden_iff : (b : Option Bool) → (is_forbidden b ≡ false) ↔ (b ≢ some false)
forbidden_iff none = ground arith
forbidden_iff (some b) = ground arith

other_tool_iff :
    (t : CapabilityTool) (p : Option CapabilityTool)
    → (is_other_tool t p ≡ false) ↔ ((p ≡ none) ⊎ (p ≡ some t))
other_tool_iff t none = ground arith
other_tool_iff t (some p) = ground (arith, tool_eq_iff p t)

reused_iff :
    (i : PrivacyBoundaryEvaluationInput)
    → (is_reused i ≡ false) ↔ (
        (i.previous_tool ≡ none)
        ⊎ (i.previous_tool ≡ some i.tool)
        ⊎ (i.allow_cross_tool_reuse ≢ some false))
reused_iff i = elim (Bool-cases (is_forbidden i.allow_cross_tool_reuse)) [
  | inl h ↦
      ground
        (arith, h, forbidden_iff i.allow_cross_tool_reuse, other_tool_iff i.tool i.previous_tool)
  | inr h ↦
      ((λ x. inr (inr ((forbidden_iff i.allow_cross_tool_reuse).0 h))), (λ x. ground (arith, h)))
]

calm_by :
    (r : PrivacyBoundaryRule) (l : CorrelationRiskLevel) (same escalated reused demanded : Bool)
    → All
        (λ v. action_for_violation v.signal r ≡ allow)
        (when (not same) (violation r cross_compartment CorrelationRiskLevel.high)
          ++ when escalated (violation r risk_escalation l)
          ++ when reused (violation r cross_tool_reuse CorrelationRiskLevel.medium)
          ++ when demanded (violation r strict_isolation_required CorrelationRiskLevel.medium))
      ↔ ((demanded ≡ false)
          × (reused ≡ false)
          × ((r.action_on_violation ≡ allow) ⊎ (same ≡ true) × (escalated ≡ false)))
calm_by r l same escalated reused demanded = ground arith

violations-IsCalm :
    (i : PrivacyBoundaryEvaluationInput) (r : PrivacyBoundaryRule)
    → All (λ v. action_for_violation v.signal r ≡ allow) (violations i r) ↔ IsCalm i r
violations-IsCalm i r =
    let by =
      calm_by r (escalation_risk i.risk_level) (is_same i) (is_escalated i r) (is_reused i)
        (is_strict i.routing_isolation_level) in
    let x = strict_iff i.routing_isolation_level in
    let y = reused_iff i in
    let same = eq_iff (source_of i) i.target_compartment_id in
    (
      (λ a.
          let c = by.0 a in
          (
            x.0 c.0,
            y.0 c.1,
            elim c.2 [ inl h ↦ inl h | inr (h, k) ↦ inr (same.0 h, ground (arith, k)) ],
          )),
      (λ c. by.1 (
        x.1 c.0,
        y.1 c.1,
        elim c.2 [ inl h ↦ inl h | inr (h, k) ↦ inr (same.1 h, ground (arith, k)) ],
      )),
    )

-- What lets a request pass: its target is known and a rule for the flow asks for nothing.
pub record Passes (i : PrivacyBoundaryEvaluationInput) (e : PrivacyBoundaryEngine) : Type 0 where
  pub rule : PrivacyBoundaryRule
  pub known : elem i.target_compartment_id e.known_compartments ≡ true
  pub stored : Map.get (rule_key (source_of i) i.target_compartment_id) e.rules ≡ some rule
  pub calm : IsCalm i rule

evaluate-Passes :
    (i : PrivacyBoundaryEvaluationInput) (e : PrivacyBoundaryEngine)
    → (evaluate i e).action ≡ allow
    → Passes i e
unfolding evaluate
evaluate-Passes i e h =
    elim (Option-cases (Map.get (rule_key (source_of i) i.target_compartment_id) e.rules)) [
      | inl n ↦ absurd (ground (arith, n, h))
      | inr (r, n) ↦ record {
        rule = r;
        known = ground (arith, h);
        stored = n;
        calm =
            (violations-IsCalm i r).0
              ((under_rule_allow i r (violations i r)).0 (ground (arith, n, h)));
      }
    ]

Passes-evaluate :
    (i : PrivacyBoundaryEvaluationInput) (e : PrivacyBoundaryEngine)
    → Passes i e
    → (evaluate i e).action ≡ allow
unfolding evaluate
Passes-evaluate i e p =
    let found =
      (under_rule_allow i p.rule (violations i p.rule)).1 ((violations-IsCalm i p.rule).1 p.calm) in
    ground (arith, p.known, p.stored, found)

-- The boundary lets a request pass exactly when its target compartment is known, a rule for the flow
-- from its source is registered, the routing does not demand strict isolation, no context is carried
-- over to another tool where that is forbidden, and, unless the rule answers violations by allowing
-- them, the flow stays in one compartment and its risk is not above the rule's ceiling.
pub evaluate-Passes_iff :
    (i : PrivacyBoundaryEvaluationInput) (e : PrivacyBoundaryEngine)
    → ((evaluate i e).action ≡ allow) ↔ Passes i e
evaluate-Passes_iff i e = (evaluate-Passes i e, Passes-evaluate i e)

under_rule-Covers :
    (i : PrivacyBoundaryEvaluationInput) (r : PrivacyBoundaryRule) (vs : List BoundaryViolation)
    → All (Covers r ((under_rule i r vs).action, (under_rule i r vs).risk_level)) vs
unfolding under_rule
under_rule-Covers i r [] = tt
under_rule-Covers i r (v ∷ vs) = scan-Covers r (allow, no_risk) (v ∷ vs)

-- The flow has a rule, and its target is known.
pub record IsRuled (i : PrivacyBoundaryEvaluationInput) (r : PrivacyBoundaryRule)
    (e : PrivacyBoundaryEngine) : Type 0 where
  pub stored : Map.get (rule_key (source_of i) i.target_compartment_id) e.rules ≡ some r
  pub known : elem i.target_compartment_id e.known_compartments ≡ true

pub ruled_decision :
    (i : PrivacyBoundaryEvaluationInput) (r : PrivacyBoundaryRule) (e : PrivacyBoundaryEngine)
    → IsRuled i r e
    → evaluate i e ≡ under_rule i r (violations i r)
unfolding evaluate
ruled_decision i r e v = ground (arith, v.stored, v.known)

-- Under the rule that is found, the decision on a request is at least as strict as the answer to each
-- of its violations, and its risk level at least as high as theirs.
pub evaluate-Covers :
    (i : PrivacyBoundaryEvaluationInput) (r : PrivacyBoundaryRule) (e : PrivacyBoundaryEngine)
    → IsRuled i r e
    → All (Covers r ((evaluate i e).action, (evaluate i e).risk_level)) (violations i r)
evaluate-Covers i r e v = rw (ruled_decision i r e v) (under_rule-Covers i r (violations i r))
