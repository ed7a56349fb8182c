-- ===== src/Temporal/Tests.antt =====
-- The budgets of two agents over one window.
use gyges_research_layer.Base.{ℕ, ◌+◌, ◌≤◌, ◌≡◌, refl, true, String, List, [], ◌∷◌, some, arith}
use gyges_research_layer.Base.Map
use gyges_research_layer.Temporal.Budget.{
  TemporalBudgetPolicy, TemporalPrivacyBudget, new, consume_budget, ensure_budget, is_exhausted,
}
use gyges_research_layer.Temporal.Burst.{BurstFragmentationPolicy, BurstFragmentationEngine}
use gyges_research_layer.Temporal.Detection.{made}
use gyges_research_layer.Temporal.Balance.{Call, consumes, asks, step, run, granted, granted_bound}

abbrev two_a_second : TemporalBudgetPolicy
two_a_second = record {
  enabled = true;
  max_requests_per_window = 2;
  window_ms = 1000;
  force_delay_on_exhaustion = true;
}

abbrev before : List (ℕ × Call)
before = (10, consumes "a") ∷ []

-- The second request of the agent is granted and the third is not.
abbrev later : List (ℕ × Call)
later = (20, consumes "b") ∷ (30, consumes "a") ∷ (40, asks "a") ∷ (50, consumes "a") ∷ []

abbrev after_one : TemporalPrivacyBudget
after_one = record {
  max_requests_per_window = 2;
  window_ms = 1000;
  consumed = 1;
  remaining = 1;
  resets_at = 1010;
}

consumed_one : Map.get "a" (run (new two_a_second) before).budgets ≡ some after_one
unfolding run step new consume_budget Map.get Map.set
consumed_one = refl

one_granted : granted "a" (run (new two_a_second) before) later ≡ 1
unfolding granted run step new consume_budget is_exhausted ensure_budget Map.get Map.set
one_granted = refl

granted_bound_example :
    after_one.consumed + granted "a" (run (new two_a_second) before) later
    ≤ two_a_second.max_requests_per_window
granted_bound_example =
    granted_bound two_a_second before later "a" after_one consumed_one
      (omega arith, (omega arith, (omega arith, (omega arith, tt))))

-- Two of three executions within a second are a burst.
abbrev bursty : BurstFragmentationPolicy
bursty = record { enabled = true; burst_threshold = 2; burst_window_ms = 1000; cooldown_ms = 500 }

abbrev quiet : BurstFragmentationEngine
quiet = record {
  policy = bursty;
  execution_windows = [];
  detected_bursts = [];
  cooldown_until = [];
}

abbrev executions : List (ℕ × String)
executions = (100, "a") ∷ (1500, "a") ∷ (1600, "b") ∷ (1700, "a") ∷ []

made_two : made "a" 2300 bursty executions ≡ 2
made_two = refl
