-- ===== src/Orchestrator/Verdict.antt =====
-- What a decision of packages/core/src/runtime-orchestrator/orchestrator.ts guarantees of the signals.
use gyges_research_layer.Base.{
  ℕ, ◌≤◌, true, false, ◌||◌, ◌≡◌, ◌≢◌, ◌⊎◌, refl, List, [], ◌∷◌, Option, none, some, inl, inr,
  arith, Bool-cases, Option-cases, if◌then◌else◌, ltb, find, All, Some,
}
use gyges_research_layer.Orchestrator.Types.{
  UnifiedPrivacyAction, deny, MergeStrategy, most_restrictive, source_precedence, deny_first,
  PolicySignal, CompositePrivacyPolicy, precedence_of, is_rotation, is_allow, is_deny, is_unknown,
  is_critical,
}
use gyges_research_layer.Orchestrator.Merge.{
  Winner, no_winner, scan_winner, outcome, is_unknown_critical, merge_by_most_restrictive,
  merge_by_deny_first, merge,
}

-- The rank a signal has in the merge: that of its action, and none for a rotation.
abbrev pub weight : {Metadata : Type 0} → PolicySignal Metadata → ℕ
weight s = if is_rotation s.action then 0 else precedence_of s.action

module _ {Metadata : Type 0} where
  abbrev next : Winner → PolicySignal Metadata → Winner
  next w s =
      if is_allow s.action || is_rotation s.action
      then w
      else if ltb (precedence_of w.action) (precedence_of s.action)
      then record { action = s.action; source = some s.source; reason = s.reason }
      else w

  scan-ge-start :
      (w : Winner) (ss : List (PolicySignal Metadata))
      → precedence_of w.action ≤ precedence_of (scan_winner w ss).action
  unfolding scan_winner
  scan-ge-start w [] = omega arith
  scan-ge-start w (s ∷ ss) =
      let here : precedence_of w.action ≤ precedence_of (next w s).action = ground arith in
      omega (arith, here, scan-ge-start (next w s) ss)

  weight-le-next :
      (w : Winner) (s : PolicySignal Metadata) → weight s ≤ precedence_of (next w s).action
  weight-le-next w s = ground arith

  scan-ge-All :
      (w : Winner) (ss : List (PolicySignal Metadata)) (k : ℕ)
      → precedence_of (scan_winner w ss).action ≤ k
      → All (λ s. weight s ≤ k) ss
  unfolding scan_winner
  scan-ge-All w [] k h = tt
  scan-ge-All w (s ∷ ss) k h = (
    omega (arith, h, weight-le-next w s, scan-ge-start (next w s) ss),
    scan-ge-All (next w s) ss k h,
  )

  -- The winner starts the loop, or is one of the signals.
  pub scan_from :
      (w : Winner) (ss : List (PolicySignal Metadata))
      → ((scan_winner w ss).action ≡ w.action)
        ⊎ Some (λ s. (s.action ≡ (scan_winner w ss).action) × (is_rotation s.action ≡ false)) ss
  unfolding scan_winner
  scan_from w [] = inl refl
  scan_from w (s ∷ ss) = ground (arith, scan_from (next w s) ss)

  weight-le-deny : (ss : List (PolicySignal Metadata)) → All (λ s. weight s ≤ 9) ss
  weight-le-deny [] = tt
  weight-le-deny (s ∷ ss) = (ground arith, weight-le-deny ss)

  outcome_bound :
      (default : UnifiedPrivacyAction) (w : Winner) (ss : List (PolicySignal Metadata))
      → w ≡ scan_winner no_winner ss
      → All (λ s. weight s ≤ precedence_of (outcome default w).action) ss
  outcome_bound default w ss e = elim (Bool-cases (is_allow w.action)) [
    | inl h ↦ scan-ge-All no_winner ss _ (rw (← e) (ground arith))
    | inr h ↦ rw h (scan-ge-All no_winner ss _ (rw (← e) (omega arith)))
  ]

  abbrev alarm :
      List (PolicySignal Metadata) → CompositePrivacyPolicy → Option (PolicySignal Metadata)
  alarm ss p = if p.fail_closed then find is_unknown_critical ss else none

  pub merge_bound :
      (ss : List (PolicySignal Metadata)) (p : CompositePrivacyPolicy)
      → All (λ s. weight s ≤ precedence_of (merge_by_most_restrictive ss p).action) ss
  unfolding merge_by_most_restrictive
  merge_bound ss p = elim (Option-cases (alarm ss p)) [
    | inl e ↦ rw (e, merge_by_most_restrictive) (outcome_bound p.default_action _ ss refl)
    | inr (s, e) ↦ rw (e, merge_by_most_restrictive) (weight-le-deny ss)
  ]

  -- A signal that a fail-closed policy never lets pass.
  abbrev pub Refuses : CompositePrivacyPolicy → PolicySignal Metadata → Type 0
  Refuses p s =
      (s.action ≡ deny)
      ⊎ ((p.fail_closed ≡ true) × (is_critical s.severity ≡ true) × (is_unknown s.action ≡ true))

  bound-deny :
      (a : UnifiedPrivacyAction) (p : CompositePrivacyPolicy) (ss : List (PolicySignal Metadata))
      → All (λ s. weight s ≤ precedence_of a) ss
      → p.fail_closed ≡ false ⊎ (find is_unknown_critical ss ≡ none)
      → Some (Refuses p) ss
      → a ≡ deny
  unfolding find
  bound-deny a p [] h n r = absurd r
  bound-deny a p (s ∷ ss) h n (inl r) = ground arith
  bound-deny a p (s ∷ ss) h n (inr r) = bound-deny a p ss h.1 (ground arith) r

  merge_by_most_restrictive_denies :
      (ss : List (PolicySignal Metadata)) (p : CompositePrivacyPolicy)
      → Some (Refuses p) ss
      → (merge_by_most_restrictive ss p).action ≡ deny
  merge_by_most_restrictive_denies ss p r = elim (Option-cases (alarm ss p)) [
    | inl e ↦ bound-deny _ p ss (merge_bound ss p) (ground (arith, e)) r
    | inr (s, e) ↦ unfold merge_by_most_restrictive in rw (e, merge_by_most_restrictive) refl
  ]

  merge_by_deny_first_denies :
      (ss : List (PolicySignal Metadata)) (p : CompositePrivacyPolicy)
      → Some (Refuses p) ss
      → (merge_by_deny_first ss p).action ≡ deny
  unfolding merge_by_deny_first
  merge_by_deny_first_denies ss p r = elim (Option-cases (find (λ s. is_deny s.action) ss)) [
    | inl e ↦ rw (e, merge_by_deny_first) (merge_by_most_restrictive_denies ss p r)
    | inr (s, e) ↦ rw (e, merge_by_deny_first) refl
  ]

  pub merge_denies :
      (m : MergeStrategy) (ss : List (PolicySignal Metadata)) (p : CompositePrivacyPolicy)
      → m ≢ source_precedence
      → Some (Refuses p) ss
      → (merge m ss p).action ≡ deny
  unfolding merge
  merge_denies most_restrictive ss p n r = merge_by_most_restrictive_denies ss p r
  merge_denies deny_first ss p n r = merge_by_deny_first_denies ss p r
  merge_denies source_precedence ss p n r = absurd (n refl)
