-- ===== src/Orchestrator/Outcome.antt =====
-- The decisions that `evaluate` of packages/core/src/runtime-orchestrator/orchestrator.ts returns.
use gyges_research_layer.Base.{
  ◌≤◌, true, false, ◌≡◌, ◌≢◌, ◌↔◌, ◌⊎◌, refl, sym, subst, List, [], ◌∷◌, inl, inr, arith,
  Bool-cases, Option-cases, none, if◌then◌else◌, any, find, All, Some,
}
use gyges_research_layer.Base.Map
use gyges_research_layer.Orchestrator.Types.{
  UnifiedPrivacyAction, deny, rotate_session, rotate_fragment, rotate_fingerprint, rotate_identity,
  MergeStrategy, most_restrictive, source_precedence, PolicySignal, CompositePrivacyPolicy,
  precedence_of, is_rotation, is_allow, action_eq,
}
use gyges_research_layer.Orchestrator.Merge.{
  no_winner, scan_winner, outcome, merge_by_most_restrictive, merge, rotations_of, build_decision,
  decide, is_unknown_critical,
}
use gyges_research_layer.Orchestrator.State.{RuntimePolicyOrchestrator, first_enabled, evaluate}
use gyges_research_layer.Orchestrator.Verdict.{
  Refuses, weight, merge_denies, merge_bound, scan_from,
}

-- The policy that a decision goes by.
abbrev pub active_policy :
    {Metadata : Type 0} → RuntimePolicyOrchestrator Metadata → CompositePrivacyPolicy
active_policy o = first_enabled (Map.values o.policies)

module _ {Metadata : Type 0} where
  -- Unless the active policy merges by source precedence, a signal that denies, or under a fail-closed
  -- policy a critical one with an unknown action, makes the decision a denial, whatever the other
  -- signals are.
  pub evaluate_denies :
      (ss : List (PolicySignal Metadata)) (o : RuntimePolicyOrchestrator Metadata)
      → (active_policy o).merge_strategy ≢ source_precedence
      → Some (Refuses (active_policy o)) ss
      → ((evaluate ss o).1.action ≡ deny) × ((evaluate ss o).1.allowed ≡ false)
  unfolding evaluate decide build_decision
  evaluate_denies [] o n r = absurd r
  evaluate_denies (s ∷ ss) o n r =
      ground (arith, merge_denies (active_policy o).merge_strategy (s ∷ ss) (active_policy o) n r)

  -- Where an action of a merge comes from.
  abbrev pub Comes :
      CompositePrivacyPolicy → List (PolicySignal Metadata) → UnifiedPrivacyAction → Type 0
  Comes p ss a =
      (a ≡ p.default_action)
      ⊎ Some (λ s. (s.action ≡ a) × (is_rotation s.action ≡ false)) ss
      ⊎ ((a ≡ deny) × (p.fail_closed ≡ true))

  outcome-Comes :
      (p : CompositePrivacyPolicy) (ss : List (PolicySignal Metadata))
      → Comes p ss (outcome p.default_action (scan_winner no_winner ss)).action
  outcome-Comes p ss = elim (Bool-cases (is_allow (scan_winner no_winner ss).action)) [
    | inl h ↦ rw h (inl refl)
    | inr h ↦ rw h (elim (scan_from no_winner ss) [
      | inl e ↦ absurd (ground (arith, e, h))
      | inr k ↦ inr (inl k)
    ])
  ]

  merge-Comes :
      (p : CompositePrivacyPolicy) (ss : List (PolicySignal Metadata))
      → Comes p ss (merge_by_most_restrictive ss p).action
  unfolding merge_by_most_restrictive
  merge-Comes p ss =
      elim (Option-cases (if p.fail_closed then find is_unknown_critical ss else none)) [
        | inl e ↦ rw (e, merge_by_most_restrictive) (outcome-Comes p ss)
        | inr (s, e) ↦ rw (e, merge_by_most_restrictive) (inr (inr (refl, ground (arith, e))))
      ]

  abbrev Dominates :
      CompositePrivacyPolicy → List (PolicySignal Metadata) → UnifiedPrivacyAction → Type 0
  Dominates p ss a = All (λ s. weight s ≤ precedence_of a) ss × Comes p ss a

  merge-Dominates :
      (m : MergeStrategy) (p : CompositePrivacyPolicy) (ss : List (PolicySignal Metadata))
      → m ≡ most_restrictive
      → Dominates p ss (merge m ss p).action
  merge-Dominates m p ss h =
      subst (λ k. Dominates p ss (merge k ss p).action) (sym h)
        (unfold merge in (merge_bound ss p, merge-Comes p ss))

  -- Under a policy that takes the most restrictive signal, no signal but a rotation has an action of
  -- higher precedence than the decision's, and that action is the policy's default, the action of a
  -- signal that is no rotation, or a fail-closed policy's denial.
  pub evaluate_most_restrictive :
      (ss : List (PolicySignal Metadata)) (o : RuntimePolicyOrchestrator Metadata)
      → (active_policy o).merge_strategy ≡ most_restrictive
      → All (λ s. weight s ≤ precedence_of (evaluate ss o).1.action) ss
        × Comes (active_policy o) ss (evaluate ss o).1.action
  unfolding evaluate decide build_decision
  evaluate_most_restrictive [] o h = (tt, inl refl)
  evaluate_most_restrictive (s ∷ ss) o h =
      merge-Dominates (active_policy o).merge_strategy (active_policy o) (s ∷ ss) h

  has_rotation :
      (r : UnifiedPrivacyAction) (ss : List (PolicySignal Metadata))
      → is_rotation r ≡ true
      → (any (action_eq r) (rotations_of ss) ≡ true) ↔ Some (λ s. s.action ≡ r) ss
  unfolding any rotations_of
  has_rotation r [] h = ground arith
  has_rotation r (s ∷ ss) h = ground (arith, has_rotation r ss h)

  -- Under every policy a rotation is required exactly when a signal asks for it: rotations of the
  -- session, the fragment, the fingerprint and the identity add up and suppress one another never.
  pub evaluate_rotations :
      (ss : List (PolicySignal Metadata)) (o : RuntimePolicyOrchestrator Metadata)
      → (((evaluate ss o).1.requires_session_rotation ≡ true)
          ↔ Some (λ s. s.action ≡ rotate_session) ss)
        × (((evaluate ss o).1.requires_fragment_rotation ≡ true)
            ↔ Some (λ s. s.action ≡ rotate_fragment) ss)
        × (((evaluate ss o).1.requires_fingerprint_rotation ≡ true)
            ↔ Some (λ s. s.action ≡ rotate_fingerprint) ss)
        × (((evaluate ss o).1.requires_identity_rotation ≡ true)
            ↔ Some (λ s. s.action ≡ rotate_identity) ss)
  unfolding evaluate decide build_decision any
  evaluate_rotations [] o = ground arith
  evaluate_rotations (s ∷ ss) o = (
    has_rotation rotate_session (s ∷ ss) refl,
    has_rotation rotate_fragment (s ∷ ss) refl,
    has_rotation rotate_fingerprint (s ∷ ss) refl,
    has_rotation rotate_identity (s ∷ ss) refl,
  )
