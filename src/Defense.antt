-- ===== src/Defense.antt =====
-- packages/core/src/adaptive-defense: the policies that map anomalies and incidents onto defensive
-- actions, and the escalation of a risk level. The names of anomaly types and of severities come
-- from packages/core/src/runtime-security; they are only compared, and stand as texts.
pub mod Decisions
mod Tests
use gyges_research_layer.Base.{
  ℕ, Bool, true, false, not, ◌&&◌, ◌||◌, String, str_eq, List, [], ◌∷◌, ◌++◌, Option, none, some,
  Result, ok, err, leb, if◌then◌else◌, any, or_else,
}
use gyges_research_layer.Base.Map.{elem}
use gyges_research_layer.Vocabulary.{RiskLevel, low, medium, high}
use gyges_research_layer.RateLimiter.{
  DefenseAction, allow, cooldown, temporary_block, require_approval, escalate_risk,
}

pub record AdaptiveDefensePolicy : Type 0 where
  pub id : String
  pub trigger_anomaly_types : List String
  pub trigger_incident_severities : List String
  pub resulting_action : DefenseAction
  pub cooldown_ms : Option ℕ
  pub escalation_risk_level : Option RiskLevel
  pub enabled : Bool

-- Which of the two matches the reason names.
pub data Match : Type 0 where
  anomaly incident : Match

-- The text of a reason, as the values that its template interpolates.
pub record Reason : Type 0 where
  pub policy_id : String
  pub matched : Match
  pub action : DefenseAction

pub record DynamicRiskEscalation {ℓ} (R : Type ℓ) : Type ℓ where
  pub original_risk : RiskLevel
  pub escalated_risk : RiskLevel
  pub reason : R

pub record AdaptiveDefenseDecision : Type 0 where
  pub action : DefenseAction
  pub reason : Reason
  pub cooldown_ms : Option ℕ
  pub escalation : Option (DynamicRiskEscalation Reason)

-- The types of the anomalies and the severities of the incidents that were observed.
pub record AdaptiveDefenseEvaluationInput : Type 0 where
  pub anomalies : List String
  pub incidents : List String

pub register_policy :
    AdaptiveDefensePolicy → List AdaptiveDefensePolicy → Result String (List AdaptiveDefensePolicy)
register_policy p ps = if any (λ q. str_eq q.id p.id) ps then err p.id else ok (ps ++ p ∷ [])

pub clear_policies : List AdaptiveDefensePolicy → List AdaptiveDefensePolicy
clear_policies ps = []

pub anomaly_match : AdaptiveDefenseEvaluationInput → AdaptiveDefensePolicy → Bool
unfolding any elem
anomaly_match i p = any (λ t. elem t i.anomalies) p.trigger_anomaly_types

pub incident_match : AdaptiveDefenseEvaluationInput → AdaptiveDefensePolicy → Bool
unfolding any elem
incident_match i p = any (λ s. elem s i.incidents) p.trigger_incident_severities

abbrev escalates : DefenseAction → Bool
escalates escalate_risk = true
escalates _ = false

pub decision : AdaptiveDefenseEvaluationInput → AdaptiveDefensePolicy → AdaptiveDefenseDecision
unfolding anomaly_match
decision i p =
    let reason : Reason = record {
      policy_id = p.id;
      matched = if anomaly_match i p then anomaly else incident;
      action = p.resulting_action;
    } in
    record {
      action = p.resulting_action;
      reason = reason;
      cooldown_ms = p.cooldown_ms;
      escalation =
          if escalates p.resulting_action
          then some (record {
            original_risk = low;
            escalated_risk = or_else p.escalation_risk_level high;
            reason = reason;
          })
          else none;
    }

pub evaluate :
    AdaptiveDefenseEvaluationInput → List AdaptiveDefensePolicy → List AdaptiveDefenseDecision
unfolding anomaly_match incident_match decision
evaluate i [] = []
evaluate i (p ∷ ps) =
    let rest = evaluate i ps in
    if not p.enabled
    then rest
    else if not (anomaly_match i p) && not (incident_match i p)
    then rest
    else decision i p ∷ rest

abbrev pub risk_order : RiskLevel → ℕ
risk_order low = 0
risk_order medium = 1
risk_order high = 2

pub escalate {ℓ} : {R : Type ℓ} → RiskLevel → RiskLevel → R → Option (DynamicRiskEscalation R)
escalate current target reason =
    if leb (risk_order target) (risk_order current)
    then none
    else some (record { original_risk = current; escalated_risk = target; reason = reason })
