-- ===== src/Trust.antt =====
-- packages/core/src/trust-reputation: bounded trust scores of compartments. A method of
-- `CompartmentTrustEngine` takes the engine and returns the new one; `now` is the event's time or the
-- clock's, and `id` what `generateId` returns. A delta is an integer; times, windows and what the
-- decay policy adds are natural numbers, and `mark.at >= at - w` is read as `at <= mark.at + w`.
pub mod Score
pub mod Recovery
pub mod Decay
pub mod Marks
pub mod Penalty
mod Tests
use gyges_research_layer.Base.{
  ℕ, ◌+◌, ◌-◌, ◌≤◌, min, Bool, true, false, not, ◌&&◌, String, List, [], ◌∷◌, ◌++◌, Option, none,
  some, ltb, ◌==◌, leb, if◌then◌else◌, keep, or_else,
}
use gyges_research_layer.Base.Int.{ℤ, pos, negsuc, ◌+ℤ◌}
use gyges_research_layer.Base.Map
use gyges_research_layer.Base.Map.{Map}

pub data TrustLevel : Type 0 where
  trusted neutral restricted quarantined : TrustLevel

pub data ReputationEventType : Type 0 where
  capability_allowed capability_denied approval_rejected privacy_boundary_blocked sandbox_blocked :
      ReputationEventType
  execution_failed incident_opened incident_closed clean_execution : ReputationEventType

pub data IncidentSeverity : Type 0 where
  info warning critical : IncidentSeverity

pub record TrustScore : Type 0 where
  pub value : ℕ
  pub level : TrustLevel

pub record ReputationEvent : Type 0 where
  pub id : String
  pub created_at : ℕ
  pub compartment_id : String
  pub kind : ReputationEventType
  pub delta : ℤ
  pub reason : String
  pub related_event_id : Option String
  pub related_incident_id : Option String

pub record ReputationProfile : Type 0 where
  pub compartment_id : String
  pub score : TrustScore
  pub events : List ReputationEvent
  pub created_at : ℕ
  pub updated_at : ℕ

pub record ReputationDecayPolicy : Type 0 where
  pub interval_ms : ℕ
  pub recovery_delta : ℕ
  pub max_score : ℕ
  pub enabled : Bool

pub record TrustRecoveryPolicy : Type 0 where
  pub clean_execution_delta : ℤ
  pub incident_closed_delta : ℤ
  pub max_recovery_per_window : ℕ
  pub window_ms : ℕ
  pub enabled : Bool

pub record IncidentWeightedScoringPolicy : Type 0 where
  pub warning_incident_delta : ℤ
  pub critical_incident_delta : ℤ
  pub enabled : Bool

pub record ReputationEventInput : Type 0 where
  pub compartment_id : String
  pub kind : ReputationEventType
  pub reason : String
  pub related_event_id : Option String
  pub related_incident_id : Option String
  pub incident_severity : Option IncidentSeverity

pub record RecoveryMark : Type 0 where
  pub marked_at : ℕ
  pub amount : ℕ

pub record CompartmentTrustEngine : Type 0 where
  pub profiles : Map ReputationProfile
  pub last_decay_at : Map ℕ
  pub recovery_history : Map (List RecoveryMark)
  pub decay_policy : ReputationDecayPolicy
  pub recovery_policy : TrustRecoveryPolicy
  pub incident_scoring_policy : IncidentWeightedScoringPolicy

abbrev pub initial_trust_score : ℕ
initial_trust_score = 70

-- The deltas of the event types that no policy governs.
pub static_delta : ReputationEventType → ℤ
static_delta capability_denied = negsuc 1
static_delta approval_rejected = negsuc 3
static_delta privacy_boundary_blocked = negsuc 7
static_delta sandbox_blocked = negsuc 9
static_delta execution_failed = negsuc 5
static_delta _ = pos 0

pub clamp_score : ℤ → ℕ
clamp_score (negsuc n) = 0
clamp_score (pos n) = if ltb 100 n then 100 else n

pub level_for_score : ℕ → TrustLevel
level_for_score v =
    if leb 80 v
    then trusted
    else if leb 50 v
    then neutral
    else if leb 20 v
    then restricted
    else quarantined

pub make_trust_score : ℤ → TrustScore
unfolding clamp_score level_for_score
make_trust_score v = record { value = clamp_score v; level = level_for_score (clamp_score v) }

-- packages/core/src/trust-reputation/bootstrap.ts.
abbrev pub default_decay_policy : ReputationDecayPolicy
default_decay_policy = record {
  interval_ms = 3_600_000;
  recovery_delta = 1;
  max_score = 70;
  enabled = true;
}

abbrev pub default_recovery_policy : TrustRecoveryPolicy
default_recovery_policy = record {
  clean_execution_delta = pos 1;
  incident_closed_delta = pos 5;
  max_recovery_per_window = 10;
  window_ms = 3_600_000;
  enabled = true;
}

abbrev pub default_incident_policy : IncidentWeightedScoringPolicy
default_incident_policy = record {
  warning_incident_delta = negsuc 11;
  critical_incident_delta = negsuc 24;
  enabled = true;
}

pub new :
    ReputationDecayPolicy
    → TrustRecoveryPolicy
    → IncidentWeightedScoringPolicy
    → CompartmentTrustEngine
new d r i = record {
  profiles = [];
  last_decay_at = [];
  recovery_history = [];
  decay_policy = d;
  recovery_policy = r;
  incident_scoring_policy = i;
}

pub fresh_profile : String → ℕ → ReputationProfile
fresh_profile cid now = record {
  compartment_id = cid;
  score = make_trust_score (pos initial_trust_score);
  events = [];
  created_at = now;
  updated_at = now;
}

-- The profile that `ensureProfile` returns, which it stores if there was none.
pub profile_of : String → ℕ → CompartmentTrustEngine → ReputationProfile
unfolding fresh_profile
profile_of cid now t = or_else (Map.get cid t.profiles) (fresh_profile cid now)

pub get_or_create_profile :
    ℕ → String → CompartmentTrustEngine → CompartmentTrustEngine × ReputationProfile
unfolding profile_of
get_or_create_profile now cid t =
    (record t { profiles = Map.set cid (profile_of cid now t) t.profiles }, profile_of cid now t)

abbrev pub is_critical : Option IncidentSeverity → Bool
is_critical (some critical) = true
is_critical _ = false

pub incident_delta : Option IncidentSeverity → IncidentWeightedScoringPolicy → ℤ
incident_delta s p =
    if not p.enabled
    then pos 0
    else if is_critical s
    then p.critical_incident_delta
    else p.warning_incident_delta

pub adjustment_by : ReputationEventType → Option IncidentSeverity → CompartmentTrustEngine → ℤ
unfolding incident_delta static_delta
adjustment_by clean_execution s t =
    if t.recovery_policy.enabled then t.recovery_policy.clean_execution_delta else pos 0
adjustment_by incident_closed s t =
    if t.recovery_policy.enabled then t.recovery_policy.incident_closed_delta else pos 0
adjustment_by incident_opened s t = incident_delta s t.incident_scoring_policy
adjustment_by kind s t = static_delta kind

abbrev pub marks_of : String → CompartmentTrustEngine → List RecoveryMark
marks_of cid t = or_else (Map.get cid t.recovery_history) []

pub total : List RecoveryMark → ℕ
total [] = 0
total (m ∷ ms) = m.amount + total ms

pub in_window : ℕ → ℕ → List RecoveryMark → List RecoveryMark
unfolding keep
in_window window now = keep (λ m. leb now (m.marked_at + window))

-- What is left of the proposed recovery under the window's ceiling.
pub effective : TrustRecoveryPolicy → ℕ → ℕ → List RecoveryMark → ℕ
unfolding in_window total
effective p now delta marks =
    min delta (p.max_recovery_per_window - total (in_window p.window_ms now marks))

pub marks_after : TrustRecoveryPolicy → ℕ → ℕ → List RecoveryMark → List RecoveryMark
unfolding effective in_window
marks_after p now delta marks =
    let amount = effective p now delta marks in
    if ltb 0 amount
    then in_window p.window_ms now marks ++ record { marked_at = now; amount = amount } ∷ []
    else in_window p.window_ms now marks

pub cap_recovery : String → ℕ → ℕ → CompartmentTrustEngine → CompartmentTrustEngine × ℤ
unfolding effective marks_after
cap_recovery cid now delta t = (
  record t {
    recovery_history =
        Map.set cid (marks_after t.recovery_policy now delta (marks_of cid t)) t.recovery_history;
  },
  pos (effective t.recovery_policy now delta (marks_of cid t)),
)

abbrev pub is_recovery : ReputationEventType → Bool
is_recovery clean_execution = true
is_recovery incident_closed = true
is_recovery _ = false

-- Only a positive delta of a recovering event is capped.
pub capped : ReputationEventInput → ℕ → ℤ → CompartmentTrustEngine → CompartmentTrustEngine × ℤ
unfolding cap_recovery
capped i now (negsuc n) t = (t, negsuc n)
capped i now (pos n) t =
    if ltb 0 n && t.recovery_policy.enabled && is_recovery i.kind
    then cap_recovery i.compartment_id now n t
    else (t, pos n)

pub scored : String → ℕ → ReputationEventInput → ℤ → ReputationProfile → ReputationProfile
unfolding make_trust_score
scored id now i delta p = record p {
  events =
      p.events
      ++ record {
        id = id;
        created_at = now;
        compartment_id = i.compartment_id;
        kind = i.kind;
        delta = delta;
        reason = i.reason;
        related_event_id = i.related_event_id;
        related_incident_id = i.related_incident_id;
      }
        ∷ [];
  score = make_trust_score (pos p.score.value +ℤ delta);
  updated_at = now;
}

pub record_event :
    String
    → ℕ
    → ReputationEventInput
    → CompartmentTrustEngine
    → CompartmentTrustEngine × ReputationProfile
unfolding profile_of adjustment_by capped scored
record_event id now i t =
    let p = profile_of i.compartment_id now t in
    let (t', delta) = capped i now (adjustment_by i.kind i.incident_severity t) t in
    (
      record t' { profiles = Map.set i.compartment_id (scored id now i delta p) t'.profiles },
      scored id now i delta p,
    )

-- Whether the last pass over the profile is too recent.
abbrev pub too_soon : ReputationDecayPolicy → ℕ → Option ℕ → Bool
too_soon d now none = false
too_soon d now (some last) = ltb now (last + d.interval_ms)

-- Whether `applyDecay` changes a profile that it does not skip, and what it makes of it.
pub decay_target : ReputationDecayPolicy → ReputationProfile → ℕ
decay_target d p = min d.max_score (p.score.value + d.recovery_delta)

pub decays : ReputationDecayPolicy → ReputationProfile → Bool
unfolding decay_target
decays d p = not (leb d.max_score p.score.value) && not (decay_target d p == p.score.value)

pub restored : ReputationDecayPolicy → ℕ → ReputationProfile → ReputationProfile
unfolding make_trust_score decays
restored d now p =
    if decays d p
    then record p { score = make_trust_score (pos (decay_target d p)); updated_at = now }
    else p

-- The pass over the profiles: the new profiles, the times of the last passes, and the copies of the
-- profiles that changed.
pub decay_all :
    ReputationDecayPolicy
    → ℕ
    → Map ReputationProfile
    → Map ℕ
    → Map ReputationProfile × Map ℕ × List ReputationProfile
unfolding restored
decay_all d now [] last = ([], last, [])
decay_all d now ((k, p) ∷ m) last =
    let skip = too_soon d now (Map.get p.compartment_id last) in
    let (m', last', changed) =
      decay_all d now m (if skip then last else Map.set p.compartment_id now last) in
    (
      (k, if skip then p else restored d now p) ∷ m',
      last',
      if not skip && decays d p then restored d now p ∷ changed else changed,
    )

pub decayed : ℕ → CompartmentTrustEngine → CompartmentTrustEngine × List ReputationProfile
unfolding decay_all
decayed now t = (
  record t {
    profiles = (decay_all t.decay_policy now t.profiles t.last_decay_at).0;
    last_decay_at = (decay_all t.decay_policy now t.profiles t.last_decay_at).1;
  },
  (decay_all t.decay_policy now t.profiles t.last_decay_at).2,
)

pub apply_decay : ℕ → CompartmentTrustEngine → CompartmentTrustEngine × List ReputationProfile
unfolding decayed
apply_decay now t = if t.decay_policy.enabled then decayed now t else (t, [])

pub clear : CompartmentTrustEngine → CompartmentTrustEngine
clear t = record t { profiles = []; last_decay_at = []; recovery_history = [] }

pub data Call : Type 0 where
  records : String → ReputationEventInput → Call
  visits : String → Call
  passes clears : Call

pub step : CompartmentTrustEngine → ℕ × Call → CompartmentTrustEngine
step t (now, records id i) = (record_event id now i t).0
step t (now, visits cid) = (get_or_create_profile now cid t).0
step t (now, passes) = (apply_decay now t).0
step t (now, clears) = clear t

pub run : CompartmentTrustEngine → List (ℕ × Call) → CompartmentTrustEngine
run t [] = t
run t (c ∷ cs) = run (step t c) cs
