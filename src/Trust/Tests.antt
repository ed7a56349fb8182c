-- ===== src/Trust/Tests.antt =====
-- The trust engine on concrete events.
use gyges_research_layer.Base.{
  ℕ, ◌+◌, ◌≤◌, max, ◌≡◌, refl, String, List, [], ◌∷◌, none, some, arith, keep,
}
use gyges_research_layer.Base.Int.{◌+ℤ◌}
use gyges_research_layer.Base.Map
use gyges_research_layer.Trust.{
  quarantined, ReputationEventType, clean_execution, incident_opened, incident_closed, critical,
  ReputationEventInput, ReputationProfile, CompartmentTrustEngine, total, in_window, profile_of,
  fresh_profile, record_event, scored, capped, cap_recovery, effective, marks_after, adjustment_by,
  incident_delta, make_trust_score, clamp_score, level_for_score, apply_decay, decayed, decay_all,
  restored, decays, decay_target, Call, records, step, run, new, default_decay_policy,
  default_recovery_policy, default_incident_policy,
}
use gyges_research_layer.Trust.Score.{IsScore, scores_bounded}
use gyges_research_layer.Trust.Recovery.{gained, recovered, recovery_bounded}
use gyges_research_layer.Trust.Penalty.{Punishes}
use gyges_research_layer.Trust.Decay.{apply_decay_bounds}

abbrev event : ReputationEventType → ReputationEventInput
event kind = record {
  compartment_id = "press";
  kind = kind;
  reason = "seen";
  related_event_id = none;
  related_incident_id = none;
  incident_severity = some critical;
}

abbrev fresh : CompartmentTrustEngine
fresh = new default_decay_policy default_recovery_policy default_incident_policy

-- An incident, two recoveries of five and one that the ceiling of ten cuts to nothing.
abbrev history : List (ℕ × Call)
history =
    (1, records "e1" (event incident_opened))
    ∷ (2, records "e2" (event incident_closed))
    ∷ (3, records "e3" (event incident_closed))
    ∷ (4, records "e4" (event clean_execution))
    ∷ []

score_after : (profile_of "press" 5 (run fresh history)).score.value ≡ 55
unfolding run step new record_event profile_of fresh_profile adjustment_by incident_delta capped
    cap_recovery effective marks_after in_window total scored make_trust_score clamp_score
    level_for_score ◌+ℤ◌ keep Map.get Map.set
score_after = refl

abbrev at_press : ReputationProfile
at_press = profile_of "press" 5 (run fresh history)

stored : Map.get "press" (run fresh history).profiles ≡ some at_press
unfolding run step new record_event profile_of fresh_profile adjustment_by incident_delta capped
    cap_recovery effective marks_after in_window total scored make_trust_score clamp_score
    level_for_score ◌+ℤ◌ keep Map.get Map.set
stored = refl

scores_bounded_example : IsScore at_press.score
scores_bounded_example =
    scores_bounded default_decay_policy default_recovery_policy default_incident_policy history
      "press" at_press stored

-- After the incident the two recoveries give back all that a window allows.
abbrev recoveries : List (ℕ × Call)
recoveries =
    (2, records "e2" (event incident_closed))
    ∷ (3, records "e3" (event incident_closed))
    ∷ (4, records "e4" (event clean_execution))
    ∷ []

recovered_all :
    recovered "press" (run fresh ((1, records "e1" (event incident_opened)) ∷ [])) recoveries ≡ 10
unfolding recovered gained run step new record_event profile_of fresh_profile adjustment_by
    incident_delta capped cap_recovery effective marks_after in_window total scored make_trust_score
    clamp_score level_for_score ◌+ℤ◌ keep Map.get Map.set
recovered_all = refl

recovery_bounded_example :
    recovered "press" (run fresh ((1, records "e1" (event incident_opened)) ∷ [])) recoveries ≤ 10
recovery_bounded_example =
    recovery_bounded default_decay_policy default_recovery_policy default_incident_policy
      ((1, records "e1" (event incident_opened)) ∷ []) recoveries 2 "press"
      ((omega arith, omega arith), ((omega arith, omega arith), ((omega arith, omega arith), tt)))

punishes : Punishes fresh.incident_scoring_policy
unfolding new
punishes = (omega arith, omega arith)

abbrev low_profile : ReputationProfile
low_profile = record at_press { score = record { value = 10; level = quarantined } }

abbrev lowered : CompartmentTrustEngine
lowered = record fresh { profiles = ("press", low_profile) ∷ [] }

lowered_bounds :
    (c : String) (p : ReputationProfile) → Map.get c lowered.profiles ≡ some p → p.score.value ≤ 100
unfolding Map.get
lowered_bounds c p h = ground arith

abbrev decayed_profile : ReputationProfile
decayed_profile = record low_profile {
  score = record { value = 11; level = quarantined };
  updated_at = 9;
}

after_decay : Map.get "press" (apply_decay 9 lowered).0.profiles ≡ some decayed_profile
unfolding new apply_decay decayed decay_all restored decays decay_target make_trust_score
    clamp_score level_for_score Map.get Map.set
after_decay = refl

apply_decay_bounds_example :
    (p : ReputationProfile) × (Map.get "press" lowered.profiles ≡ some p)
    × (p.score.value ≤ 11)
    × (11 ≤ max p.score.value lowered.decay_policy.max_score)
    × (11 ≤ p.score.value + lowered.decay_policy.recovery_delta)
    × (decayed_profile.events ≡ p.events)
apply_decay_bounds_example =
    apply_decay_bounds 9 lowered "press" decayed_profile lowered_bounds after_decay
