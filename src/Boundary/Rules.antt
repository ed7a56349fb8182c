-- ===== src/Boundary/Rules.antt =====
-- The rules that packages/core/src/privacy-boundary/engine.ts registers, and the decisions they leave.
use gyges_research_layer.Base.{
  ◌≡◌, ◌↔◌, ◌⊎◌, sym, true, false, String, eq_iff, List, [], ◌∷◌, ◌++◌, some, Result, ok, err,
  is_ok, inl, inr, arith, Bool-cases, All, ◌∙◌,
}
use gyges_research_layer.Base.Map
use gyges_research_layer.Base.Map.{Map, elem}
use gyges_research_layer.Boundary.Verdict.{IsRuled, ruled_decision}
use gyges_research_layer.Boundary.Engine.{
  PrivacyBoundaryRule, PrivacyBoundaryEvaluationInput, PrivacyBoundaryEngine, DuplicateRule,
  rule_key, source_of, with_member, register_rule, clear_rules, evaluate,
}

pub data Call : Type 0 where
  registers : PrivacyBoundaryRule → Call
  clears : Call

-- A call that throws leaves the engine as it was.
abbrev pub engine_after :
    PrivacyBoundaryEngine → Result DuplicateRule PrivacyBoundaryEngine → PrivacyBoundaryEngine
engine_after e (ok d) = d
engine_after e (err x) = e

unfoldable pub step : PrivacyBoundaryEngine → Call → PrivacyBoundaryEngine
step e (registers r) = engine_after e (register_rule r e)
step e clears = clear_rules e

unfoldable pub run : PrivacyBoundaryEngine → List Call → PrivacyBoundaryEngine
run e [] = e
run e (c ∷ cs) = run (step e c) cs

-- A rule is refused exactly when its id is taken or a rule for its pair of compartments is registered.
pub register_rule_iff :
    (r : PrivacyBoundaryRule) (e : PrivacyBoundaryEngine)
    → (is_ok (register_rule r e) ≡ false) ↔ (
        (elem r.id e.rule_ids ≡ true)
        ⊎ (Map.has (rule_key r.source_compartment_id r.target_compartment_id) e.rules ≡ true))
unfolding register_rule
register_rule_iff r e = ground arith

-- A rule stays under its key.
register_rule-get :
    (j : String) (q r : PrivacyBoundaryRule) (e : PrivacyBoundaryEngine)
    → Map.get j e.rules ≡ some q
    → Map.get j (engine_after e (register_rule r e)).rules ≡ some q
unfolding register_rule
register_rule-get j q r e h =
    let k = rule_key r.source_compartment_id r.target_compartment_id in
    ground (arith, h, eq_iff k j, Map.get-set k j r e.rules)

elem-append : (j k : String) (ks : List String) → elem j ks ≡ true → elem j (ks ++ k ∷ []) ≡ true
unfolding elem
elem-append j k [] h = absurd (ground (arith, h))
elem-append j k (i ∷ ks) h = elim (Bool-cases (elem j ks)) [
  | inl e ↦ ground (arith, elem-append j k ks e)
  | inr e ↦ ground (arith, e, h)
]

with_member-elem :
    (j k : String) (ks : List String) → elem j ks ≡ true → elem j (with_member k ks) ≡ true
with_member-elem j k ks h = ground (arith, h, elem-append j k ks h)

register_rule-known :
    (j : String) (r : PrivacyBoundaryRule) (e : PrivacyBoundaryEngine)
    → elem j e.known_compartments ≡ true
    → elem j (engine_after e (register_rule r e)).known_compartments ≡ true
unfolding register_rule
register_rule-known j r e h =
    let ks = with_member r.source_compartment_id e.known_compartments in
    let first = with_member-elem j r.source_compartment_id e.known_compartments h in
    ground (arith, h, with_member-elem j r.target_compartment_id ks first)

abbrev pub Spares : Call → Type 0
Spares (registers r) = Unit
Spares clears = ⊥

run-IsRuled :
    (i : PrivacyBoundaryEvaluationInput) (r : PrivacyBoundaryRule) (e : PrivacyBoundaryEngine)
    (cs : List Call)
    → All Spares cs
    → IsRuled i r e
    → IsRuled i r (run e cs)
unfolding run step
run-IsRuled i r e [] n v = v
run-IsRuled i r e (registers q ∷ cs) n v =
    run-IsRuled i r (engine_after e (register_rule q e)) cs n.1 (record {
      stored = register_rule-get (rule_key (source_of i) i.target_compartment_id) r q e v.stored;
      known = register_rule-known i.target_compartment_id q e v.known;
    })
run-IsRuled i r e (clears ∷ cs) n v = absurd n.0

-- Once a flow has a rule, no registration that follows changes the decision on it: rules are never
-- replaced, and what is known of a compartment is never forgotten, until the rules are cleared.
pub run-evaluate :
    (i : PrivacyBoundaryEvaluationInput) (r : PrivacyBoundaryRule) (e : PrivacyBoundaryEngine)
    (cs : List Call)
    → All Spares cs
    → IsRuled i r e
    → evaluate i (run e cs) ≡ evaluate i e
run-evaluate i r e cs n v =
    ruled_decision i r (run e cs) (run-IsRuled i r e cs n v) ∙ sym (ruled_decision i r e v)
