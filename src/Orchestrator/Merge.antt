-- ===== src/Orchestrator/Merge.antt =====
-- packages/core/src/runtime-orchestrator/orchestrator.ts: from signals to a decision.
use gyges_research_layer.Base.{
  Bool, true, false, not, ◌&&◌, ◌||◌, String, List, [], ◌∷◌, Option, none, some, ltb, length,
  if◌then◌else◌, any, find,
}
use gyges_research_layer.Orchestrator.Types.{
  PolicySignalSource, UnifiedPrivacyAction, allow, delay, rotate_session, rotate_fragment,
  rotate_fingerprint, rotate_identity, require_approval, cooldown, temporary_block, deny,
  MergeStrategy, most_restrictive, source_precedence, deny_first, PolicySignal, PolicyConflict,
  CompositePrivacyPolicy, Reason, no_signals, all_allow, unknown_critical, selected, denied_first,
  source_first, CompositeRuntimeDecision, precedence_of, is_rotation, is_unknown, action_eq,
  is_allow, is_deny, is_critical, source_eq,
}
use gyges_research_layer.Orchestrator.Conflicts.{detect_conflicts}

-- The variables of the loop of `_mergeByMostRestrictive`.
pub record Winner : Type 0 where
  pub action : UnifiedPrivacyAction
  pub source : Option PolicySignalSource
  pub reason : String

abbrev pub no_winner : Winner
no_winner = record { action = allow; source = none; reason = "" }

pub record Merged : Type 0 where
  pub action : UnifiedPrivacyAction
  pub reason : Reason

abbrev pub is_blocking : UnifiedPrivacyAction → Bool
is_blocking deny = true
is_blocking temporary_block = true
is_blocking cooldown = true
is_blocking _ = false

abbrev pub is_delay : UnifiedPrivacyAction → Bool
is_delay delay = true
is_delay _ = false

abbrev pub is_approval : UnifiedPrivacyAction → Bool
is_approval require_approval = true
is_approval _ = false

abbrev pub outcome : UnifiedPrivacyAction → Winner → Merged
outcome default w =
    if is_allow w.action
    then record { action = default; reason = all_allow default }
    else record { action = w.action; reason = selected w.action w.source w.reason }

module _ {Metadata : Type 0} where
  unfoldable pub scan_winner : Winner → List (PolicySignal Metadata) → Winner
  scan_winner w [] = w
  scan_winner w (s ∷ ss) =
      scan_winner
        (if is_allow s.action || is_rotation s.action
          then w
          else if ltb (precedence_of w.action) (precedence_of s.action)
          then record { action = s.action; source = some s.source; reason = s.reason }
          else w)
        ss

  abbrev pub is_unknown_critical : PolicySignal Metadata → Bool
  is_unknown_critical s = is_critical s.severity && is_unknown s.action

  unfoldable pub merge_by_most_restrictive :
      List (PolicySignal Metadata) → CompositePrivacyPolicy → Merged
  merge_by_most_restrictive ss p =
      elim (if p.fail_closed then find is_unknown_critical ss else none) [
        | some s ↦ record { action = deny; reason = unknown_critical s.source }
        | none ↦ outcome p.default_action (scan_winner no_winner ss)
      ]

  unfoldable pub merge_by_deny_first :
      List (PolicySignal Metadata) → CompositePrivacyPolicy → Merged
  merge_by_deny_first ss p = elim (find (λ s. is_deny s.action) ss) [
    | some s ↦ record { action = deny; reason = denied_first s.source s.reason }
    | none ↦ merge_by_most_restrictive ss p
  ]

  abbrev pub speaks_for : PolicySignalSource → PolicySignal Metadata → Bool
  speaks_for source s =
      source_eq s.source source && not (is_allow s.action) && not (is_rotation s.action)

  -- The loop over the precedence list.
  unfoldable pub first_source :
      List PolicySignalSource → List (PolicySignal Metadata) → Option (PolicySignal Metadata)
  first_source [] ss = none
  first_source (source ∷ sources) ss =
      let rest = first_source sources ss in
      elim (find (speaks_for source) ss) [ none ↦ rest | some s ↦ some s ]

  unfoldable pub merge_by_source_precedence :
      List (PolicySignal Metadata) → CompositePrivacyPolicy → Merged
  merge_by_source_precedence ss p = elim (first_source p.precedence ss) [
    | some s ↦ record { action = s.action; reason = source_first s.source s.action s.reason }
    | none ↦ merge_by_most_restrictive ss p
  ]

  unfoldable pub merge :
      MergeStrategy → List (PolicySignal Metadata) → CompositePrivacyPolicy → Merged
  merge most_restrictive ss p = merge_by_most_restrictive ss p
  merge source_precedence ss p = merge_by_source_precedence ss p
  merge deny_first ss p = merge_by_deny_first ss p

  -- The rotation actions among the signals; a set in the code, which asks for members only.
  unfoldable pub rotations_of : List (PolicySignal Metadata) → List UnifiedPrivacyAction
  rotations_of [] = []
  rotations_of (s ∷ ss) =
      let rest = rotations_of ss in if is_rotation s.action then s.action ∷ rest else rest

  unfoldable pub build_decision :
      Merged
      → List (PolicySignal Metadata)
      → List PolicyConflict
      → List UnifiedPrivacyAction
      → CompositeRuntimeDecision Metadata
  build_decision m ss conflicts rotations = record {
    action = m.action;
    allowed = not (is_blocking m.action);
    requires_delay = is_delay m.action || ltb 0 (length rotations) && not (is_blocking m.action);
    requires_approval = is_approval m.action;
    requires_session_rotation = any (action_eq rotate_session) rotations;
    requires_fragment_rotation = any (action_eq rotate_fragment) rotations;
    requires_fingerprint_rotation = any (action_eq rotate_fingerprint) rotations;
    requires_identity_rotation = any (action_eq rotate_identity) rotations;
    reason = m.reason;
    signals = ss;
    conflicts = conflicts;
  }

  unfoldable pub decide :
      List (PolicySignal Metadata) → CompositePrivacyPolicy → CompositeRuntimeDecision Metadata
  decide [] p =
      build_decision (record { action = p.default_action; reason = no_signals p.default_action }) []
        [] []
  decide (s ∷ ss) p =
      build_decision (merge p.merge_strategy (s ∷ ss) p) (s ∷ ss) (detect_conflicts (s ∷ ss))
        (rotations_of (s ∷ ss))
