-- ===== src/Trust/Score.antt =====
-- Trust scores of packages/core/src/trust-reputation stay within 0..100 and agree with their level.
use gyges_research_layer.Base.{
  ℕ, ◌≤◌, Bool, true, false, ◌≡◌, ◌⊎◌, refl, String, str_eq, List, [], ◌∷◌, some, inl, inr, arith,
  Option-cases, Bool-cases, if◌then◌else◌,
}
use gyges_research_layer.Base.Int.{ℤ, pos, negsuc, ◌+ℤ◌}
use gyges_research_layer.Base.Map
use gyges_research_layer.Base.Map.{Map}
use gyges_research_layer.Trust.Decay.{get-decay_all}
use gyges_research_layer.Trust.{
  TrustScore, ReputationProfile, ReputationEventInput, ReputationDecayPolicy, TrustRecoveryPolicy,
  IncidentWeightedScoringPolicy, CompartmentTrustEngine, clamp_score, level_for_score,
  make_trust_score, fresh_profile, profile_of, capped, cap_recovery, scored, record_event,
  get_or_create_profile, restored, decays, decay_all, decayed, apply_decay, clear, Call, records,
  visits, passes, clears, step, run, new, decay_target, adjustment_by,
}

pub record IsScore (s : TrustScore) : Type 0 where
  pub at_most : s.value ≤ 100
  pub consistent : s.level ≡ level_for_score s.value

make_trust_score-IsScore : (v : ℤ) → IsScore (make_trust_score v)
unfolding make_trust_score clamp_score
make_trust_score-IsScore (pos n) = record { at_most = ground arith; consistent = refl }
make_trust_score-IsScore (negsuc n) = record { at_most = omega arith; consistent = refl }

-- Every stored profile has a score within bounds and of the right level.
abbrev pub AllScored : Map ReputationProfile → Type 0
AllScored m = (cid : String) (p : ReputationProfile) → Map.get cid m ≡ some p → IsScore p.score

set-AllScored :
    (k : String) (p : ReputationProfile) (m : Map ReputationProfile)
    → IsScore p.score
    → AllScored m
    → AllScored (Map.set k p m)
set-AllScored k p m s a cid q h = by_key (str_eq k cid) (rw (Map.get-set k cid p m) at h)
  where
    by_key : (b : Bool) → (if b then some p else Map.get cid m) ≡ some q → IsScore q.score
    by_key true e = ground (arith, s)
    by_key false e = a cid q e

fresh_profile-IsScore : (cid : String) (now : ℕ) → IsScore (fresh_profile cid now).score
unfolding fresh_profile
fresh_profile-IsScore cid now = make_trust_score-IsScore (pos 70)

profile_of-IsScore :
    (cid : String) (now : ℕ) (t : CompartmentTrustEngine)
    → AllScored t.profiles
    → IsScore (profile_of cid now t).score
unfolding profile_of
profile_of-IsScore cid now t a = elim (Option-cases (Map.get cid t.profiles)) [
  | inl e ↦ rw e (fresh_profile-IsScore cid now)
  | inr (p, e) ↦ rw e (a cid p e)
]

pub capped_profiles :
    (i : ReputationEventInput) (now : ℕ) (d : ℤ) (t : CompartmentTrustEngine)
    → (capped i now d t).0.profiles ≡ t.profiles
unfolding capped cap_recovery
capped_profiles i now (negsuc n) t = refl
capped_profiles i now (pos n) t = ground arith

scored-IsScore :
    (id : String) (now : ℕ) (i : ReputationEventInput) (d : ℤ) (p : ReputationProfile)
    → IsScore (scored id now i d p).score
unfolding scored
scored-IsScore id now i d p = make_trust_score-IsScore (pos p.score.value +ℤ d)

restored-IsScore :
    (d : ReputationDecayPolicy) (now : ℕ) (p : ReputationProfile)
    → IsScore p.score
    → IsScore (restored d now p).score
unfolding restored
restored-IsScore d now p s = elim (Bool-cases (decays d p)) [
  | inl e ↦ rw e (make_trust_score-IsScore (pos (decay_target d p)))
  | inr e ↦ rw e s
]

decay_all-AllScored :
    (d : ReputationDecayPolicy) (now : ℕ) (m : Map ReputationProfile) (last : Map ℕ)
    → AllScored m
    → AllScored (decay_all d now m last).0
decay_all-AllScored d now m last a cid q h =
    let (p, at_p, same) = get-decay_all d now m last cid q h in by_turn p (a cid p at_p) same
  where
    by_turn :
        (p : ReputationProfile)
        → IsScore p.score
        → (q ≡ p) ⊎ (q ≡ restored d now p)
        → IsScore q.score
    by_turn p s (inl e) = rw e s
    by_turn p s (inr e) = rw e (restored-IsScore d now p s)

record_event-AllScored :
    (id : String) (now : ℕ) (i : ReputationEventInput) (t : CompartmentTrustEngine)
    → AllScored t.profiles
    → AllScored (record_event id now i t).0.profiles
unfolding record_event
record_event-AllScored id now i t a =
    let d = adjustment_by i.kind i.incident_severity t in
    let p = profile_of i.compartment_id now t in
    rw (capped_profiles i now d t) (
      set-AllScored i.compartment_id (scored id now i (capped i now d t).1 p) t.profiles
        (scored-IsScore id now i (capped i now d t).1 p) a)

step-AllScored :
    (t : CompartmentTrustEngine) (c : ℕ × Call)
    → AllScored t.profiles
    → AllScored (step t c).profiles
unfolding step
step-AllScored t (now, records id i) a = record_event-AllScored id now i t a
step-AllScored t (now, visits cid) a =
    unfold get_or_create_profile in
    set-AllScored cid (profile_of cid now t) t.profiles (profile_of-IsScore cid now t a) a
step-AllScored t (now, passes) a = unfold apply_decay in by_enabled t.decay_policy.enabled
  where
    d : ReputationDecayPolicy
    d = t.decay_policy

    by_enabled :
        (e : Bool)
        → AllScored
            (if◌then◌else◌ {A = CompartmentTrustEngine × List ReputationProfile} e
              (decayed now t)
              (t, [])).0.profiles
    by_enabled true = unfold decayed in decay_all-AllScored d now t.profiles t.last_decay_at a
    by_enabled false = a
step-AllScored t (now, clears) a = unfold clear Map.get in λ cid p h. cc

run-AllScored :
    (t : CompartmentTrustEngine) (cs : List (ℕ × Call))
    → AllScored t.profiles
    → AllScored (run t cs).profiles
unfolding run
run-AllScored t [] a = a
run-AllScored t (c ∷ cs) a = run-AllScored (step t c) cs (step-AllScored t c a)

-- Whatever policies an engine is made with, and whatever events, decay passes, reads and resets
-- follow in any order: every profile that it holds has a score of at most 100, and the level of the
-- profile is the band of that score.
pub scores_bounded :
    (d : ReputationDecayPolicy) (r : TrustRecoveryPolicy) (i : IncidentWeightedScoringPolicy)
    (cs : List (ℕ × Call)) (cid : String) (p : ReputationProfile)
    → Map.get cid (run (new d r i) cs).profiles ≡ some p
    → IsScore p.score
scores_bounded d r i cs = run-AllScored (new d r i) cs (unfold new Map.get in λ cid p h. cc)
