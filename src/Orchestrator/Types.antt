-- ===== src/Orchestrator/Types.antt =====
-- packages/core/src/runtime-orchestrator/types.ts, precedence.ts and policies.ts: signals of the gates,
-- policies and decisions. What `metadata` carries is never looked at, and is a parameter. An action
-- reaches the code as a text: `unknown` is one outside the vocabulary, which the code provides for.
-- The texts of reasons are kept as data, and the random id of a conflict, which nothing reads, is left
-- out.
use gyges_research_layer.Base.{ℕ, Bool, true, false, String, str_eq, List, [], ◌∷◌, Option, ◌==◌}

pub data PolicySignalSource : Type 0 where
  capability_graph multi_agent behavioral_privacy persona_isolation temporal_obfuscation :
      PolicySignalSource
  transport_fingerprint network_isolation trust_reputation adaptive_defense : PolicySignalSource
  capability_firewall privacy_boundary transport_policy sandbox : PolicySignalSource

pub data UnifiedPrivacyAction : Type 0 where
  allow delay rotate_session rotate_fragment rotate_fingerprint rotate_identity :
      UnifiedPrivacyAction
  require_approval cooldown temporary_block deny : UnifiedPrivacyAction
  unknown : String → UnifiedPrivacyAction

pub data PolicySignalSeverity : Type 0 where
  info low medium high critical : PolicySignalSeverity

pub data MergeStrategy : Type 0 where
  most_restrictive source_precedence deny_first : MergeStrategy

pub record PolicySignal (Metadata : Type 0) : Type 0 where
  pub id : String
  pub source : PolicySignalSource
  pub action : UnifiedPrivacyAction
  pub severity : PolicySignalSeverity
  pub reason : String
  pub created_at : ℕ
  pub metadata : Option Metadata

pub data ConflictType : Type 0 where
  action_conflict severity_conflict timing_conflict rotation_conflict approval_vs_deny
        delay_vs_block :
      ConflictType

pub data Resolution : Type 0 where
  most_restrictive_wins deny_wins approval_wins_over_delay cooldown_wins_over_delay
        merge_non_conflicting :
      Resolution

pub record PolicyConflict : Type 0 where
  pub signal_ids : List String
  pub conflict_type : ConflictType
  pub resolution : Resolution
  pub winner : UnifiedPrivacyAction
  pub loser : UnifiedPrivacyAction

pub record CompositePrivacyPolicy : Type 0 where
  pub id : String
  pub enabled : Bool
  pub precedence : List PolicySignalSource
  pub default_action : UnifiedPrivacyAction
  pub fail_closed : Bool
  pub merge_strategy : MergeStrategy

pub data Reason : Type 0 where
  no_signals all_allow : UnifiedPrivacyAction → Reason
  unknown_critical : PolicySignalSource → Reason
  selected : UnifiedPrivacyAction → Option PolicySignalSource → String → Reason
  denied_first : PolicySignalSource → String → Reason
  source_first : PolicySignalSource → UnifiedPrivacyAction → String → Reason

pub record CompositeRuntimeDecision (Metadata : Type 0) : Type 0 where
  pub action : UnifiedPrivacyAction
  pub allowed : Bool
  pub requires_delay : Bool
  pub requires_approval : Bool
  pub requires_session_rotation : Bool
  pub requires_fragment_rotation : Bool
  pub requires_fingerprint_rotation : Bool
  pub requires_identity_rotation : Bool
  pub reason : Reason
  pub signals : List (PolicySignal Metadata)
  pub conflicts : List PolicyConflict

-- The index in `ACTION_PRECEDENCE`, and 0 for an action that is not there.
abbrev pub precedence_of : UnifiedPrivacyAction → ℕ
precedence_of allow = 0
precedence_of delay = 1
precedence_of rotate_session = 2
precedence_of rotate_fragment = 3
precedence_of rotate_fingerprint = 4
precedence_of rotate_identity = 5
precedence_of require_approval = 6
precedence_of cooldown = 7
precedence_of temporary_block = 8
precedence_of deny = 9
precedence_of (unknown s) = 0

-- `ROTATION_ACTIONS.has(a)`.
abbrev pub is_rotation : UnifiedPrivacyAction → Bool
is_rotation rotate_session = true
is_rotation rotate_fragment = true
is_rotation rotate_fingerprint = true
is_rotation rotate_identity = true
is_rotation _ = false

abbrev pub is_unknown : UnifiedPrivacyAction → Bool
is_unknown (unknown s) = true
is_unknown _ = false

-- `a === b` on actions.
abbrev pub action_eq : UnifiedPrivacyAction → UnifiedPrivacyAction → Bool
action_eq (unknown s) (unknown t) = str_eq s t
action_eq (unknown s) b = false
action_eq a (unknown t) = false
action_eq a b = precedence_of a == precedence_of b

abbrev pub is_allow : UnifiedPrivacyAction → Bool
is_allow allow = true
is_allow _ = false

abbrev pub is_deny : UnifiedPrivacyAction → Bool
is_deny deny = true
is_deny _ = false

abbrev pub is_critical : PolicySignalSeverity → Bool
is_critical critical = true
is_critical _ = false

abbrev pub source_rank : PolicySignalSource → ℕ
source_rank capability_graph = 0
source_rank multi_agent = 1
source_rank behavioral_privacy = 2
source_rank persona_isolation = 3
source_rank temporal_obfuscation = 4
source_rank transport_fingerprint = 5
source_rank network_isolation = 6
source_rank trust_reputation = 7
source_rank adaptive_defense = 8
source_rank capability_firewall = 9
source_rank privacy_boundary = 10
source_rank transport_policy = 11
source_rank sandbox = 12

-- `a === b` on sources, by their place in the vocabulary.
abbrev pub source_eq : PolicySignalSource → PolicySignalSource → Bool
source_eq a b = source_rank a == source_rank b

abbrev pub default_composite_privacy_policy : CompositePrivacyPolicy
default_composite_privacy_policy = record {
  id = "default-composite-privacy-policy";
  enabled = true;
  precedence =
      capability_firewall ∷ sandbox ∷ trust_reputation ∷ adaptive_defense ∷ privacy_boundary
      ∷ network_isolation ∷ capability_graph ∷ multi_agent ∷ transport_policy
      ∷ transport_fingerprint ∷ persona_isolation ∷ temporal_obfuscation ∷ behavioral_privacy ∷ [];
  default_action = allow;
  fail_closed = true;
  merge_strategy = most_restrictive;
}
