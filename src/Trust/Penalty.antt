-- ===== src/Trust/Penalty.antt =====
-- The events of packages/core/src/trust-reputation/engine.ts that are no recovery.
use gyges_research_layer.Base.{ℕ, ◌≤◌, false, ◌≡◌, String, arith}
use gyges_research_layer.Base.Int.{ℤ, pos, negsuc, ◌+ℤ◌, ◌≤ℤ◌}
use gyges_research_layer.Trust.{
  ReputationEventInput, ReputationEventType, capability_allowed, capability_denied,
  approval_rejected, privacy_boundary_blocked, sandbox_blocked, execution_failed, incident_opened,
  incident_closed, clean_execution, IncidentWeightedScoringPolicy, CompartmentTrustEngine,
  clamp_score, make_trust_score, profile_of, capped, static_delta, incident_delta, adjustment_by,
  is_recovery, scored, record_event,
}

-- The incident policy only ever lowers a score.
abbrev pub Punishes : IncidentWeightedScoringPolicy → Type 0
Punishes p = (p.warning_incident_delta ≤ℤ pos 0) × (p.critical_incident_delta ≤ℤ pos 0)

penalty_delta :
    (kind : ReputationEventType) (i : ReputationEventInput) (t : CompartmentTrustEngine)
    → is_recovery kind ≡ false
    → Punishes t.incident_scoring_policy
    → adjustment_by kind i.incident_severity t ≤ℤ pos 0
unfolding adjustment_by incident_delta static_delta
penalty_delta clean_execution i t h p = cc
penalty_delta incident_closed i t h p = cc
penalty_delta incident_opened i t h p = ground arith
penalty_delta capability_allowed i t h p = omega arith
penalty_delta capability_denied i t h p = omega arith
penalty_delta approval_rejected i t h p = omega arith
penalty_delta privacy_boundary_blocked i t h p = omega arith
penalty_delta sandbox_blocked i t h p = omega arith
penalty_delta execution_failed i t h p = omega arith

capped_penalty :
    (i : ReputationEventInput) (now : ℕ) (d : ℤ) (t : CompartmentTrustEngine) (v : ℕ)
    → is_recovery i.kind ≡ false
    → d ≤ℤ pos 0
    → clamp_score (pos v +ℤ (capped i now d t).1) ≤ v
unfolding capped clamp_score ◌+ℤ◌
capped_penalty i now (negsuc n) t v h n' = ground arith
capped_penalty i now (pos n) t v h n' = ground arith

-- With an incident policy that only punishes, an event that is no recovery never raises the score.
pub record_event_penalty :
    (id : String) (now : ℕ) (i : ReputationEventInput) (t : CompartmentTrustEngine)
    → is_recovery i.kind ≡ false
    → Punishes t.incident_scoring_policy
    → (record_event id now i t).1.score.value ≤ (profile_of i.compartment_id now t).score.value
unfolding record_event scored make_trust_score
record_event_penalty id now i t h p =
    capped_penalty i now (adjustment_by i.kind i.incident_severity t) t
      (profile_of i.compartment_id now t).score.value h (penalty_delta i.kind i t h p)
