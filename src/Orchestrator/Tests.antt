-- ===== src/Orchestrator/Tests.antt =====
-- The runtime policy orchestrator on concrete signals, whose metadata is a number.
use gyges_research_layer.Base.{
  ℕ, ◌+◌, ◌≤◌, true, false, ◌≡◌, ◌≢◌, ◌↔◌, refl, List, [], ◌∷◌, none, some, inl, inr, arith, find,
  length, newest, All, Some,
}
use gyges_research_layer.Base.Map
use gyges_research_layer.Orchestrator.Types.{
  PolicySignalSource, sandbox, network_isolation, trust_reputation, privacy_boundary,
  UnifiedPrivacyAction, allow, delay, rotate_session, rotate_fragment, rotate_fingerprint,
  rotate_identity, cooldown, deny, unknown, PolicySignalSeverity, info, critical, source_precedence,
  most_restrictive, PolicySignal, CompositePrivacyPolicy, precedence_of,
  default_composite_privacy_policy,
}
use gyges_research_layer.Orchestrator.Merge.{
  decide, build_decision, merge, merge_by_source_precedence, first_source,
}
use gyges_research_layer.Orchestrator.State.{
  RuntimePolicyOrchestrator, new, evaluate, first_enabled,
}
use gyges_research_layer.Orchestrator.Verdict.{weight}
use gyges_research_layer.Orchestrator.Outcome.{
  active_policy, Comes, evaluate_denies, evaluate_most_restrictive, evaluate_rotations,
}
use gyges_research_layer.Orchestrator.Buffer.{record_batches, record_batches_lem, concat}

abbrev signal : PolicySignalSource → UnifiedPrivacyAction → PolicySignalSeverity → PolicySignal ℕ
signal source action severity = record {
  id = "s";
  source = source;
  action = action;
  severity = severity;
  reason = "seen";
  created_at = 1;
  metadata = none;
}

abbrev fresh : RuntimePolicyOrchestrator ℕ
fresh = new (some 2)

-- The gates of one request: the sandbox lets it through, the network refuses, the session has to change.
abbrev refused : List (PolicySignal ℕ)
refused =
    signal sandbox allow info
    ∷ signal network_isolation deny info
    ∷ signal trust_reputation rotate_session info
    ∷ []

abbrev cooled : List (PolicySignal ℕ)
cooled = signal sandbox cooldown info ∷ signal privacy_boundary delay info ∷ []

by_most_restrictive : (active_policy fresh).merge_strategy ≢ source_precedence
unfolding new first_enabled find Map.values
by_most_restrictive h = absurd (ground (arith, h))

by_default : (active_policy fresh).merge_strategy ≡ most_restrictive
unfolding new first_enabled find Map.values
by_default = refl

evaluate_denies_example :
    ((evaluate refused fresh).1.action ≡ deny) × ((evaluate refused fresh).1.allowed ≡ false)
evaluate_denies_example = evaluate_denies refused fresh by_most_restrictive (inr (inl (inl refl)))

evaluate_most_restrictive_example :
    All (λ s. weight s ≤ precedence_of (evaluate cooled fresh).1.action) cooled
    × Comes (active_policy fresh) cooled (evaluate cooled fresh).1.action
evaluate_most_restrictive_example = evaluate_most_restrictive cooled fresh by_default

evaluate_rotations_example :
    (((evaluate refused fresh).1.requires_session_rotation ≡ true)
      ↔ Some (λ s. s.action ≡ rotate_session) refused)
    × (((evaluate refused fresh).1.requires_fragment_rotation ≡ true)
        ↔ Some (λ s. s.action ≡ rotate_fragment) refused)
    × (((evaluate refused fresh).1.requires_fingerprint_rotation ≡ true)
        ↔ Some (λ s. s.action ≡ rotate_fingerprint) refused)
    × (((evaluate refused fresh).1.requires_identity_rotation ≡ true)
        ↔ Some (λ s. s.action ≡ rotate_identity) refused)
evaluate_rotations_example = evaluate_rotations refused fresh

record_batches_lem_example :
    ((record_batches (refused ∷ cooled ∷ []) (new (some 2))).0.signals
      ≡ newest (new {Metadata = ℕ} (some 2)).max_signals (concat (refused ∷ cooled ∷ [])))
    × (length (record_batches (refused ∷ cooled ∷ []) (new (some 2))).0.signals
        ≤ (new {Metadata = ℕ} (some 2)).max_signals)
    × ((record_batches (refused ∷ cooled ∷ []) (new (some 2))).1
          + length (record_batches (refused ∷ cooled ∷ []) (new (some 2))).0.signals
        ≡ length (concat (refused ∷ cooled ∷ [])))
record_batches_lem_example = record_batches_lem (some 2) (refused ∷ cooled ∷ [])

-- A policy by source precedence, of which the sandbox comes first.
abbrev by_source : CompositePrivacyPolicy
by_source = record default_composite_privacy_policy {
  id = "by-source";
  merge_strategy = source_precedence;
  precedence = sandbox ∷ network_isolation ∷ [];
}

abbrev odd : List (PolicySignal ℕ)
odd = signal sandbox (unknown "shred") critical ∷ signal network_isolation deny info ∷ []

odd_is_allowed : (decide odd by_source).allowed ≡ true
unfolding decide build_decision merge merge_by_source_precedence first_source find
odd_is_allowed = refl
