-- ===== src/Trust/Recovery.antt =====
-- How fast events of packages/core/src/trust-reputation/engine.ts can move a score.
use gyges_research_layer.Base.{
  ℕ, ◌+◌, ◌-◌, ◌≤◌, true, false, ◌&&◌, ◌≡◌, refl, String, eq_refl, eq_iff, Option, str_eq, All,
  keep, leb, List, [], ◌∷◌, ◌++◌, arith, if◌then◌else◌,
}
use gyges_research_layer.Base.Int.{ℤ, pos, negsuc, ◌+ℤ◌}
use gyges_research_layer.Base.Map
use gyges_research_layer.Base.Map.{Map}
use gyges_research_layer.Trust.Marks.{IsCapped, step-IsCapped, run-IsCapped, run-new-IsCapped}
use gyges_research_layer.Trust.{
  ReputationEventInput, ReputationEventType, capability_allowed, capability_denied,
  approval_rejected, privacy_boundary_blocked, sandbox_blocked, execution_failed, incident_opened,
  incident_closed, clean_execution, ReputationDecayPolicy, TrustRecoveryPolicy,
  IncidentWeightedScoringPolicy, CompartmentTrustEngine, RecoveryMark, IncidentSeverity,
  clamp_score, make_trust_score, profile_of, marks_of, total, in_window, effective, marks_after,
  cap_recovery, capped, adjustment_by, is_recovery, scored, record_event, get_or_create_profile,
  apply_decay, decayed, Call, records, visits, passes, clears, step, run, new,
}

-- The marks that were made since `start`.
abbrev pub recent : ℕ → List RecoveryMark → List RecoveryMark
recent start = keep (λ m. leb start m.marked_at)

total-recent-le : (start : ℕ) (ms : List RecoveryMark) → total (recent start ms) ≤ total ms
unfolding total keep
total-recent-le start [] = omega arith
total-recent-le start (m ∷ ms) = ground (arith, total-recent-le start ms)

recent-append :
    (start : ℕ) (xs ys : List RecoveryMark)
    → total (recent start (xs ++ ys)) ≡ total (recent start xs) + total (recent start ys)
unfolding total keep
recent-append start [] ys = omega arith
recent-append start (x ∷ xs) ys = ground (arith, recent-append start xs ys)

-- A mark made since `start` does not leave a window that begins then.
recent-in_window :
    (start w now : ℕ) (ms : List RecoveryMark)
    → now ≤ start + w
    → total (recent start (in_window w now ms)) ≡ total (recent start ms)
unfolding total keep in_window
recent-in_window start w now [] h = refl
recent-in_window start w now (m ∷ ms) h = ground (arith, recent-in_window start w now ms h)

recent-marks_after :
    (start : ℕ) (p : TrustRecoveryPolicy) (now delta : ℕ) (ms : List RecoveryMark)
    → start ≤ now
    → now ≤ start + p.window_ms
    → total (recent start (marks_after p now delta ms))
      ≡ total (recent start ms) + effective p now delta ms
unfolding marks_after
recent-marks_after start p now delta ms h k =
    let mark : RecoveryMark = record { marked_at = now; amount = effective p now delta ms } in
    ground (
      arith,
      recent-append start (in_window p.window_ms now ms) (mark ∷ []),
      recent-in_window start p.window_ms now ms k,
      one mark h,
    )
  where
    one : (m : RecoveryMark) → start ≤ m.marked_at → total (recent start (m ∷ [])) ≡ m.amount
    one m h = unfold total keep in ground (arith, h)

module _ (start now : ℕ) where
  capped_gain :
      (i : ReputationEventInput) (d : ℤ) (t : CompartmentTrustEngine) (v : ℕ)
      → start ≤ now
      → now ≤ start + t.recovery_policy.window_ms
      → is_recovery i.kind ≡ true
      → (t.recovery_policy.enabled ≡ false → d ≡ pos 0)
      → clamp_score (pos v +ℤ (capped i now d t).1)
          + total (recent start (marks_of i.compartment_id t))
        ≤ v + total (recent start (marks_of i.compartment_id (capped i now d t).0))
  unfolding capped clamp_score ◌+ℤ◌ cap_recovery
  capped_gain i (negsuc n) t v h k r e = ground arith
  capped_gain i (pos n) t v h k r e = ground (
    arith,
    eq_refl i.compartment_id,
    e,
    recent-marks_after start t.recovery_policy now n (marks_of i.compartment_id t) h k,
    Map.get-set i.compartment_id i.compartment_id
        (marks_after t.recovery_policy now n (marks_of i.compartment_id t)) t.recovery_history,
  )

  capped_keeps :
      (cid : String) (i : ReputationEventInput) (d : ℤ) (t : CompartmentTrustEngine)
      → start ≤ now
      → now ≤ start + t.recovery_policy.window_ms
      → total (recent start (marks_of cid t))
        ≤ total (recent start (marks_of cid (capped i now d t).0))
  unfolding capped cap_recovery
  capped_keeps cid i (negsuc n) t h k = omega arith
  capped_keeps cid i (pos n) t h k = ground (
    arith,
    eq_iff i.compartment_id cid,
    recent-marks_after start t.recovery_policy now n (marks_of cid t) h k,
    Map.get-set i.compartment_id cid
        (marks_after t.recovery_policy now n (marks_of i.compartment_id t)) t.recovery_history,
  )

adjustment_disabled :
    (kind : ReputationEventType) (s : Option IncidentSeverity) (t : CompartmentTrustEngine)
    → is_recovery kind ≡ true
    → t.recovery_policy.enabled ≡ false
    → adjustment_by kind s t ≡ pos 0
unfolding adjustment_by
adjustment_disabled clean_execution s t h e = ground (arith, e)
adjustment_disabled incident_closed s t h e = ground (arith, e)
adjustment_disabled capability_allowed s t h e = cc
adjustment_disabled capability_denied s t h e = cc
adjustment_disabled approval_rejected s t h e = cc
adjustment_disabled privacy_boundary_blocked s t h e = cc
adjustment_disabled sandbox_blocked s t h e = cc
adjustment_disabled execution_failed s t h e = cc
adjustment_disabled incident_opened s t h e = cc

-- What a call adds to the score of a compartment by a recovering event.
unfoldable pub gained : String → CompartmentTrustEngine → ℕ × Call → ℕ
gained cid t (now, records id i) =
    if str_eq i.compartment_id cid && is_recovery i.kind
    then (record_event id now i t).1.score.value - (profile_of cid now t).score.value
    else 0
gained cid t c = 0

-- What a history of calls adds to it in all.
unfoldable pub recovered : String → CompartmentTrustEngine → List (ℕ × Call) → ℕ
unfolding gained
recovered cid t [] = 0
recovered cid t (c ∷ cs) = gained cid t c + recovered cid (step t c) cs

-- The call is made in the window of this length from `start` on, and does not reset the engine.
abbrev pub Within : ℕ → ℕ → ℕ × Call → Type 0
Within start w (now, clears) = ⊥
Within start w (now, c) = (start ≤ now) × (now ≤ start + w)

record_event_gain :
    (start now : ℕ) (cid id : String) (i : ReputationEventInput) (t : CompartmentTrustEngine)
    → start ≤ now
    → now ≤ start + t.recovery_policy.window_ms
    → gained cid t (now, records id i) + total (recent start (marks_of cid t))
      ≤ total (recent start (marks_of cid (record_event id now i t).0))
unfolding gained record_event scored make_trust_score
record_event_gain start now cid id i t h k =
    let d = adjustment_by i.kind i.incident_severity t in
    ground (
      arith,
      eq_iff i.compartment_id cid,
      capped_keeps start now cid i d t h k,
      λ (r : is_recovery i.kind ≡ true).
          capped_gain start now i d t (profile_of cid now t).score.value h k r
            (adjustment_disabled i.kind i.incident_severity t r),
    )

step_gain :
    (start : ℕ) (cid : String) (t : CompartmentTrustEngine) (c : ℕ × Call)
    → Within start t.recovery_policy.window_ms c
    → gained cid t c + total (recent start (marks_of cid t))
      ≤ total (recent start (marks_of cid (step t c)))
unfolding step
step_gain start cid t (now, records id i) h = record_event_gain start now cid id i t h.0 h.1
step_gain start cid t (now, visits j) h = unfold gained get_or_create_profile in omega arith
step_gain start cid t (now, passes) h = unfold gained apply_decay decayed in ground arith
step_gain start cid t (now, clears) h = absurd h

run_gain :
    (r : TrustRecoveryPolicy) (start : ℕ) (cid : String) (t : CompartmentTrustEngine)
    (cs : List (ℕ × Call))
    → IsCapped r t
    → All (Within start r.window_ms) cs
    → recovered cid t cs + total (recent start (marks_of cid t))
      ≤ total (recent start (marks_of cid (run t cs)))
unfolding recovered run
run_gain r start cid t [] k h = omega arith
run_gain r start cid t (c ∷ cs) k h = omega (
  arith,
  step_gain start cid t c (rw k.same_policy h.0),
  run_gain r start cid (step t c) cs (step-IsCapped r t c k) h.1,
)

-- Whatever calls a new engine had before: in calls that follow, in any order, within a time of the
-- recovery policy's window length and without a reset of the engine, the recovering events of one
-- compartment together add no more to its score than the policy allows in one window, also where other
-- events and decay passes move the score in between.
pub recovery_bounded :
    (d : ReputationDecayPolicy) (r : TrustRecoveryPolicy) (i : IncidentWeightedScoringPolicy)
    (past cs : List (ℕ × Call)) (start : ℕ) (cid : String)
    → All (Within start r.window_ms) cs
    → recovered cid (run (new d r i) past) cs ≤ r.max_recovery_per_window
recovery_bounded d r i past cs start cid h =
    let t = run (new d r i) past in
    let k = run-new-IsCapped d r i past in
    omega (
      arith,
      run_gain r start cid t cs k h,
      total-recent-le start (marks_of cid (run t cs)),
      (run-IsCapped r t cs k).below cid,
    )
