-- ===== src/Temporal/Detection.antt =====
-- The bursts that packages/core/src/temporal-obfuscation/burst.ts detects.
use gyges_research_layer.Base.{
  ℕ, ◌+◌, ◌-◌, ◌≤◌, ◌&&◌, String, str_eq, List, [], ◌∷◌, leb, if◌then◌else◌, length, keep, or_else,
}
use gyges_research_layer.Base.Map
use gyges_research_layer.Base.Map.{Map}
use gyges_research_layer.Temporal.Burst.{
  BurstFragmentationPolicy, BurstFragmentationEngine, record_execution,
}

-- How many times are not before a bound.
abbrev since : ℕ → List ℕ → ℕ
since c ts = length (keep (λ t. leb c t) ts)

-- Executions that are recorded one after the other, of any agents.
unfoldable pub record_all : List (ℕ × String) → BurstFragmentationEngine → BurstFragmentationEngine
record_all [] e = e
record_all ((t, agent) ∷ cs) e = record_all cs (record_execution agent t e)

-- How many of them an agent makes in the window that ends at a time.
abbrev pub made : String → ℕ → BurstFragmentationPolicy → List (ℕ × String) → ℕ
made a now p [] = 0
made a now p ((t, agent) ∷ cs) =
    (if str_eq agent a && leb (now - p.burst_window_ms) t then 1 else 0) + made a now p cs

-- No time is after a bound.
abbrev pub AllUntil : ℕ → List (ℕ × String) → Type 0
AllUntil now [] = Unit
AllUntil now ((t, agent) ∷ cs) = (t ≤ now) × AllUntil now cs

abbrev stored : String → BurstFragmentationEngine → List ℕ
stored a e = or_else (Map.get a e.execution_windows) []
