-- ===== src/Orchestrator/State.antt =====
-- packages/core/src/runtime-orchestrator/orchestrator.ts, signals.ts and collector.ts: the policies and
-- the bounded buffer of the orchestrator, and the signals of one request. Ids come as arguments.
use gyges_research_layer.Base.{
  ℕ, ◌-◌, max, String, List, [], ◌∷◌, ◌++◌, Option, none, some, Result, ok, err, length, drop,
  if◌then◌else◌, find, or_else,
}
use gyges_research_layer.Base.Map
use gyges_research_layer.Base.Map.{Map}
use gyges_research_layer.Orchestrator.Types.{
  PolicySignalSource, UnifiedPrivacyAction, PolicySignal, PolicySignalSeverity,
  CompositePrivacyPolicy, CompositeRuntimeDecision, default_composite_privacy_policy,
}
use gyges_research_layer.Orchestrator.Merge.{decide}

pub record RuntimePolicyOrchestrator (Metadata : Type 0) : Type 0 where
  pub policies : Map CompositePrivacyPolicy
  pub signals : List (PolicySignal Metadata)
  pub last_decision : Option (CompositeRuntimeDecision Metadata)
  pub max_signals : ℕ

abbrev pub default_max_signals : ℕ
default_max_signals = 500

abbrev pub fallback_policy : CompositePrivacyPolicy
fallback_policy = record default_composite_privacy_policy { id = "__fallback__" }

unfoldable pub first_enabled : List CompositePrivacyPolicy → CompositePrivacyPolicy
first_enabled ps = or_else (find (λ p. p.enabled) ps) fallback_policy

module _ {Metadata : Type 0} where
  -- The bound that is asked for is a natural number here; without one the default holds.
  unfoldable pub new : Option ℕ → RuntimePolicyOrchestrator Metadata
  new requested = record {
    policies = ("default-composite-privacy-policy", default_composite_privacy_policy) ∷ [];
    signals = [];
    last_decision = none;
    max_signals = max 1 (or_else requested default_max_signals);
  }

  unfoldable pub register_policy :
      CompositePrivacyPolicy
      → RuntimePolicyOrchestrator Metadata
      → Result String (RuntimePolicyOrchestrator Metadata)
  register_policy p o =
      if Map.has p.id o.policies
      then err p.id
      else ok (record o { policies = Map.set p.id p o.policies })

  unfoldable pub clear_policies :
      RuntimePolicyOrchestrator Metadata → RuntimePolicyOrchestrator Metadata
  clear_policies o = record o { policies = [] }

  -- The new signals, and how many were evicted.
  unfoldable pub record_signals :
      List (PolicySignal Metadata)
      → RuntimePolicyOrchestrator Metadata
      → RuntimePolicyOrchestrator Metadata × ℕ
  record_signals ss o =
      let grown = o.signals ++ ss in
      let evicted = length grown - o.max_signals in
      (record o { signals = drop evicted grown }, evicted)

  unfoldable pub emit :
      PolicySignal Metadata
      → RuntimePolicyOrchestrator Metadata
      → RuntimePolicyOrchestrator Metadata × ℕ
  emit s o = record_signals (s ∷ []) o

  unfoldable pub clear_signals :
      RuntimePolicyOrchestrator Metadata → RuntimePolicyOrchestrator Metadata
  clear_signals o = record o { signals = [] }

  unfoldable pub evaluate :
      List (PolicySignal Metadata)
      → RuntimePolicyOrchestrator Metadata
      → RuntimePolicyOrchestrator Metadata × CompositeRuntimeDecision Metadata
  evaluate ss o =
      let d = decide ss (first_enabled (Map.values o.policies)) in
      (record o { last_decision = some d }, d)

pub record CreateSignalInput (Metadata : Type 0) : Type 0 where
  pub source : PolicySignalSource
  pub action : UnifiedPrivacyAction
  pub severity : PolicySignalSeverity
  pub reason : String
  pub metadata : Option Metadata

abbrev pub create_signal :
    {Metadata : Type 0} → String → ℕ → CreateSignalInput Metadata → PolicySignal Metadata
create_signal id now i = record {
  id = id;
  source = i.source;
  action = i.action;
  severity = i.severity;
  reason = i.reason;
  created_at = now;
  metadata = i.metadata;
}

pub record PolicySignalCollector (Metadata : Type 0) : Type 0 where
  pub signals : List (PolicySignal Metadata)
  pub max_collected_signals : ℕ

abbrev pub default_max_collected_signals : ℕ
default_max_collected_signals = 256

module _ {Metadata : Type 0} where
  unfoldable pub new_collector : Option ℕ → PolicySignalCollector Metadata
  new_collector requested = record {
    signals = [];
    max_collected_signals = max 1 (or_else requested default_max_collected_signals);
  }

  unfoldable pub collect :
      String
      → ℕ
      → CreateSignalInput Metadata
      → PolicySignalCollector Metadata
      → PolicySignalCollector Metadata
  collect id now i c =
      let grown = c.signals ++ create_signal id now i ∷ [] in
      record c { signals = drop (length grown - c.max_collected_signals) grown }

  -- `clear` of the collector.
  unfoldable pub clear_collected : PolicySignalCollector Metadata → PolicySignalCollector Metadata
  clear_collected c = record c { signals = [] }

  -- `evaluate` of the collector: the orchestrator after it, the decision, and how many were evicted.
  unfoldable pub evaluate_collected :
      PolicySignalCollector Metadata
      → RuntimePolicyOrchestrator Metadata
      → RuntimePolicyOrchestrator Metadata × CompositeRuntimeDecision Metadata × ℕ
  evaluate_collected c o =
      let (o', evicted) = record_signals c.signals o in
      let (o'', d) = evaluate c.signals o' in (o'', d, evicted)
