-- ===== src/Temporal/Burst.antt =====
-- packages/core/src/temporal-obfuscation/types.ts and burst.ts: bursts of executions of an agent. Where
-- the code subtracts the window from the time, a negative result and 0 let the same times through. The
-- shares 0.6 and 0.4 of the threshold, rounded up, are taken of whole numbers; the texts of reasons are
-- kept as data.
use gyges_research_layer.Base.{
  ℕ, ◌+◌, ◌-◌, ◌*◌, ◌/◌, Bool, true, false, not, String, List, [], ◌∷◌, ◌++◌, ltb, leb,
  if◌then◌else◌, length, keep, or_else,
}
use gyges_research_layer.Base.Map
use gyges_research_layer.Base.Map.{Map}

pub record BurstFragmentationPolicy : Type 0 where
  pub enabled : Bool
  pub burst_threshold : ℕ
  pub burst_window_ms : ℕ
  pub cooldown_ms : ℕ

pub data CadenceRisk : Type 0 where
  low medium high critical : CadenceRisk

pub data Reason : Type 0 where
  detection_disabled cooldown_active ok : Reason
  threshold_exceeded approaching_threshold moderate : ℕ → Reason

pub record BurstDetectionResult : Type 0 where
  pub is_burst : Bool
  pub requires_fragmentation : Bool
  pub requires_scheduling_escalation : Bool
  pub cooldown_ms : ℕ
  pub burst_count : ℕ
  pub cadence_risk : CadenceRisk
  pub reason : Reason

pub record BurstFragmentationEngine : Type 0 where
  pub policy : BurstFragmentationPolicy
  pub execution_windows : Map (List ℕ)
  pub detected_bursts : Map ℕ
  pub cooldown_until : Map ℕ

-- The times that are kept in the window that ends now.
abbrev pub recent : ℕ → BurstFragmentationPolicy → List ℕ → List ℕ
recent now p ts = keep (λ t. leb (now - p.burst_window_ms) t) ts

abbrev pub get_window : String → ℕ → BurstFragmentationEngine → List ℕ
get_window agent now e = recent now e.policy (or_else (Map.get agent e.execution_windows) [])

-- `Math.ceil(threshold * k / 10)`.
abbrev pub share : ℕ → ℕ → ℕ
share threshold k = (threshold * k + 9) / 10

abbrev pub burst : ℕ → ℕ → Reason → BurstDetectionResult
burst cooldown count why = record {
  is_burst = true;
  requires_fragmentation = true;
  requires_scheduling_escalation = true;
  cooldown_ms = cooldown;
  burst_count = count;
  cadence_risk = critical;
  reason = why;
}

abbrev pub calm : ℕ → CadenceRisk → Reason → BurstDetectionResult
calm count risk why = record {
  is_burst = false;
  requires_fragmentation = false;
  requires_scheduling_escalation = false;
  cooldown_ms = 0;
  burst_count = count;
  cadence_risk = risk;
  reason = why;
}

-- The verdict on a number of executions in the window.
abbrev pub by_count : BurstFragmentationPolicy → ℕ → BurstDetectionResult
by_count p n =
    if leb p.burst_threshold n
    then burst p.cooldown_ms n (threshold_exceeded n)
    else if leb (share p.burst_threshold 6) n
    then record (calm n high (approaching_threshold n)) {
      is_burst = true;
      requires_scheduling_escalation = true;
    }
    else if leb (share p.burst_threshold 4) n
    then calm n medium (moderate n)
    else calm n low ok

unfoldable pub evaluate : String → ℕ → BurstFragmentationEngine → BurstDetectionResult
evaluate agent now e =
    let expiry = or_else (Map.get agent e.cooldown_until) 0 in
    if not e.policy.enabled
    then calm 0 low detection_disabled
    else if ltb now expiry
    then burst (expiry - now) (or_else (Map.get agent e.detected_bursts) 0) cooldown_active
    else by_count e.policy (length (get_window agent now e))

unfoldable pub record_execution : String → ℕ → BurstFragmentationEngine → BurstFragmentationEngine
record_execution agent now e =
    let window = get_window agent now e ++ now ∷ [] in
    let windows = Map.set agent window e.execution_windows in
    if leb e.policy.burst_threshold (length window)
    then record e {
      execution_windows = windows;
      cooldown_until = Map.set agent (now + e.policy.cooldown_ms) e.cooldown_until;
      detected_bursts =
          Map.set agent (or_else (Map.get agent e.detected_bursts) 0 + 1) e.detected_bursts;
    }
    else record e { execution_windows = windows }

unfoldable pub clear : BurstFragmentationEngine → BurstFragmentationEngine
clear e = record e { execution_windows = []; detected_bursts = []; cooldown_until = [] }
