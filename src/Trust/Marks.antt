-- ===== src/Trust/Marks.antt =====
-- The recovery that packages/core/src/trust-reputation/engine.ts marks for a compartment.
use gyges_research_layer.Base.{
  ℕ, ◌+◌, ◌-◌, ◌≤◌, Bool, true, false, ◌&&◌, ◌≡◌, refl, String, List, [], ◌∷◌, ◌++◌, inl, inr,
  arith, Bool-cases, if◌then◌else◌, ltb,
}
use gyges_research_layer.Base.Int.{ℤ, pos, negsuc}
use gyges_research_layer.Base.Map
use gyges_research_layer.Base.Map.{Map}
use gyges_research_layer.Trust.{
  ReputationProfile, ReputationEventInput, ReputationDecayPolicy, TrustRecoveryPolicy,
  IncidentWeightedScoringPolicy, CompartmentTrustEngine, RecoveryMark, marks_of, total, in_window,
  effective, marks_after, cap_recovery, capped, adjustment_by, is_recovery, record_event,
  get_or_create_profile, apply_decay, decayed, clear, Call, records, visits, passes, clears, step,
  run, new,
}

pub total-append : (xs ys : List RecoveryMark) → total (xs ++ ys) ≡ total xs + total ys
unfolding total
total-append [] ys = omega arith
total-append (x ∷ xs) ys = omega (arith, total-append xs ys)

total-in_window-le : (w now : ℕ) (ms : List RecoveryMark) → total (in_window w now ms) ≤ total ms
unfolding total in_window
total-in_window-le w now [] = omega arith
total-in_window-le w now (m ∷ ms) = ground (arith, total-in_window-le w now ms)

-- The new marks are those in the window and the amount that is let through.
total-marks_after :
    (p : TrustRecoveryPolicy) (now delta : ℕ) (ms : List RecoveryMark)
    → total (marks_after p now delta ms)
      ≡ total (in_window p.window_ms now ms) + effective p now delta ms
unfolding marks_after
total-marks_after p now delta ms =
    let mark : RecoveryMark = record { marked_at = now; amount = effective p now delta ms } in
    ground (arith, total-append (in_window p.window_ms now ms) (mark ∷ []), one mark)
  where
    one : (m : RecoveryMark) → total (m ∷ []) ≡ m.amount
    one m = unfold total in omega arith

marks_after-le :
    (p : TrustRecoveryPolicy) (now delta : ℕ) (ms : List RecoveryMark)
    → total ms ≤ p.max_recovery_per_window
    → total (marks_after p now delta ms) ≤ p.max_recovery_per_window
marks_after-le p now delta ms h =
    omega
      (arith, total-marks_after p now delta ms, total-in_window-le p.window_ms now ms, left_over)
  where
    left_over :
        effective p now delta ms ≤ p.max_recovery_per_window - total (in_window p.window_ms now ms)
    left_over = unfold effective in omega arith

-- Nowhere is more recovery marked than the policy allows in a window.
pub record IsCapped (r : TrustRecoveryPolicy) (t : CompartmentTrustEngine) : Type 0 where
  pub same_policy : t.recovery_policy ≡ r
  pub below : (cid : String) → total (marks_of cid t) ≤ r.max_recovery_per_window

cap_recovery-IsCapped :
    (r : TrustRecoveryPolicy) (cid : String) (now delta : ℕ) (t : CompartmentTrustEngine)
    → IsCapped r t
    → IsCapped r (cap_recovery cid now delta t).0
unfolding cap_recovery
cap_recovery-IsCapped r cid now delta t c = record {
  same_policy = c.same_policy;
  below = λ j. ground (
    arith,
    Map.get-set cid j (marks_after t.recovery_policy now delta (marks_of cid t)) t.recovery_history,
    marks_after-le t.recovery_policy now delta (marks_of cid t),
    c.same_policy,
    c.below cid,
    c.below j,
  );
}

capped-IsCapped :
    (r : TrustRecoveryPolicy) (i : ReputationEventInput) (now : ℕ) (d : ℤ)
    (t : CompartmentTrustEngine)
    → IsCapped r t
    → IsCapped r (capped i now d t).0
unfolding capped
capped-IsCapped r i now (negsuc n) t c = c
capped-IsCapped r i now (pos n) t c =
    elim (Bool-cases (ltb 0 n && t.recovery_policy.enabled && is_recovery i.kind)) [
      | inl e ↦ rw e (cap_recovery-IsCapped r i.compartment_id now n t c)
      | inr e ↦ rw e c
    ]

pub step-IsCapped :
    (r : TrustRecoveryPolicy) (t : CompartmentTrustEngine) (c : ℕ × Call)
    → IsCapped r t
    → IsCapped r (step t c)
unfolding step
step-IsCapped r t (now, records id i) c =
    let v = capped-IsCapped r i now (adjustment_by i.kind i.incident_severity t) t c in
    unfold record_event in record { same_policy = v.same_policy; below = v.below }
step-IsCapped r t (now, visits cid) c =
    unfold get_or_create_profile in record { same_policy = c.same_policy; below = c.below }
step-IsCapped r t (now, passes) c = unfold apply_decay in by_enabled t.decay_policy.enabled
  where
    by_enabled :
        (e : Bool)
        → IsCapped r
            (if◌then◌else◌ {A = CompartmentTrustEngine × List ReputationProfile} e
              (decayed now t)
              (t, [])).0
    by_enabled true = unfold decayed in record { same_policy = c.same_policy; below = c.below }
    by_enabled false = c
step-IsCapped r t (now, clears) c =
    unfold clear Map.get total in record { same_policy = c.same_policy; below = λ cid. omega arith }

pub run-IsCapped :
    (r : TrustRecoveryPolicy) (t : CompartmentTrustEngine) (cs : List (ℕ × Call))
    → IsCapped r t
    → IsCapped r (run t cs)
unfolding run
run-IsCapped r t [] c = c
run-IsCapped r t (x ∷ xs) c = run-IsCapped r (step t x) xs (step-IsCapped r t x c)

-- After any calls the engine has the policy it was made with, and the recovery that is marked for a
-- compartment is never more in total than the policy allows in one window.
pub run-new-IsCapped :
    (d : ReputationDecayPolicy) (r : TrustRecoveryPolicy) (i : IncidentWeightedScoringPolicy)
    (cs : List (ℕ × Call))
    → IsCapped r (run (new d r i) cs)
run-new-IsCapped d r i cs =
    run-IsCapped r (new d r i) cs
      (unfold new Map.get total in record { same_policy = refl; below = λ j. omega arith })
