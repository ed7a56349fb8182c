-- ===== src/Audit/Types.antt =====
-- packages/core/src/audit/types.ts: security events and the queries of the audit trail. What `metadata`
-- carries is never looked at, and is a parameter; a limit is an integer, the times are naturals.
use gyges_research_layer.Base.{ℕ, Bool, true, false, String, Option}
use gyges_research_layer.Base.Int.{ℤ}

pub data EventSeverity : Type 0 where
  debug info warning critical : EventSeverity

pub data SecurityEventType : Type 0 where
  capability_allowed capability_denied approval_pending approval_approved approval_rejected :
      SecurityEventType
  privacy_boundary_blocked privacy_boundary_rotation routing_resolved session_created :
      SecurityEventType
  session_rotated session_revoked sandbox_allowed sandbox_blocked execution_started :
      SecurityEventType
  execution_succeeded execution_blocked execution_failed rate_limit_triggered : SecurityEventType
  cooldown_applied temporary_block_applied risk_escalated adaptive_defense_triggered :
      SecurityEventType
  trust_score_changed compartment_restricted compartment_quarantined trust_recovered :
      SecurityEventType
  capability_graph_allowed capability_graph_blocked capability_graph_approval_required :
      SecurityEventType
  capability_graph_rotation_required config_loaded config_reloaded config_reload_failed :
      SecurityEventType
  config_validation_failed runtime_profile_loaded runtime_profile_switched : SecurityEventType
  runtime_profile_switch_failed policy_pack_applied agent_registered agent_restricted :
      SecurityEventType
  agent_quarantined agent_evicted agent_quota_exceeded agent_lease_acquired : SecurityEventType
  agent_lease_expired behavior_fragment_created behavior_fragment_rotated : SecurityEventType
  behavior_correlation_detected behavioral_jitter_applied behavioral_privacy_escalated :
      SecurityEventType
  persona_created persona_rotated persona_isolation_escalated persona_fragment_bound :
      SecurityEventType
  interest_segmentation_triggered temporal_spacing_applied burst_detected : SecurityEventType
  temporal_budget_exhausted temporal_scheduling_escalated cadence_smoothing_applied :
      SecurityEventType
  fingerprint_assigned fingerprint_rotated header_isolation_applied : SecurityEventType
  language_isolation_applied user_agent_rotated runtime_policy_evaluated : SecurityEventType
  runtime_policy_conflict_detected runtime_policy_decision_applied : SecurityEventType
  runtime_policy_signal_evicted relay_route_assigned relay_route_rotated : SecurityEventType
  network_isolation_enforced network_isolation_denied no_real_transport_available :
      SecurityEventType
  mock_transport_blocked invalid_runtime_configuration transport_runtime_failure : SecurityEventType

pub severity_discrete : Discrete EventSeverity
severity_discrete = hlevel

pub type_discrete : Discrete SecurityEventType
type_discrete = hlevel

abbrev pub severity_eq : EventSeverity → EventSeverity → Bool
severity_eq a b = elim (severity_discrete a b) [ yes e ↦ true | no n ↦ false ]

unfoldable pub type_eq : SecurityEventType → SecurityEventType → Bool
type_eq a b = elim (type_discrete a b) [ yes e ↦ true | no n ↦ false ]

-- What a caller gives of an event: the id and the time are assigned when it is recorded.
pub record SecurityEventInput (Metadata : Type 0) : Type 0 where
  pub kind : SecurityEventType
  pub severity : EventSeverity
  pub agent_id : Option String
  pub compartment_id : Option String
  pub session_id : Option String
  pub request_id : Option String
  pub execution_id : Option String
  pub approval_request_id : Option String
  pub message : String
  pub metadata : Option Metadata

pub record SecurityEvent (Metadata : Type 0) : Type 0 where
  pub id : String
  pub timestamp : ℕ
  pub input : SecurityEventInput Metadata

pub record AuditQuery : Type 0 where
  pub kind : Option SecurityEventType
  pub severity : Option EventSeverity
  pub agent_id : Option String
  pub compartment_id : Option String
  pub session_id : Option String
  pub request_id : Option String
  pub execution_id : Option String
  pub since : Option ℕ
  pub until : Option ℕ
  pub limit : Option ℤ
