-- ===== src/Temporal/Budget.antt =====
-- packages/core/src/temporal-obfuscation/types.ts and budget.ts: one budget of requests for each agent.
use gyges_research_layer.Base.{
  ℕ, ◌+◌, ◌-◌, Bool, true, not, ◌&&◌, String, [], Option, none, some, ltb, leb, ◌==◌, if◌then◌else◌,
}
use gyges_research_layer.Base.Map
use gyges_research_layer.Base.Map.{Map}

pub record TemporalBudgetPolicy : Type 0 where
  pub enabled : Bool
  pub max_requests_per_window : ℕ
  pub window_ms : ℕ
  pub force_delay_on_exhaustion : Bool

pub record TemporalPrivacyBudget : Type 0 where
  pub max_requests_per_window : ℕ
  pub window_ms : ℕ
  pub consumed : ℕ
  pub remaining : ℕ
  pub resets_at : ℕ

pub record TemporalBudgetManager : Type 0 where
  pub policy : TemporalBudgetPolicy
  pub budgets : Map TemporalPrivacyBudget

abbrev pub default_budget_policy : TemporalBudgetPolicy
default_budget_policy = record {
  enabled = true;
  max_requests_per_window = 60;
  window_ms = 60000;
  force_delay_on_exhaustion = true;
}

unfoldable pub new : TemporalBudgetPolicy → TemporalBudgetManager
new p = record { policy = p; budgets = [] }

-- A whole budget, as of a time.
abbrev pub full_budget : ℕ → TemporalBudgetPolicy → TemporalPrivacyBudget
full_budget now p = record {
  max_requests_per_window = p.max_requests_per_window;
  window_ms = p.window_ms;
  consumed = 0;
  remaining = p.max_requests_per_window;
  resets_at = now + p.window_ms;
}

-- The budget that `ensureBudget` returns.
abbrev pub budget_or_full :
    ℕ → TemporalBudgetPolicy → Option TemporalPrivacyBudget → TemporalPrivacyBudget
budget_or_full now p none = full_budget now p
budget_or_full now p (some b) = b

abbrev pub budget_of : ℕ → String → TemporalBudgetManager → TemporalPrivacyBudget
budget_of now agent m = budget_or_full now m.policy (Map.get agent m.budgets)

unfoldable pub ensure_budget : ℕ → String → TemporalBudgetManager → TemporalBudgetManager
ensure_budget now agent m =
    if Map.has agent m.budgets
    then m
    else record m { budgets = Map.set agent (full_budget now m.policy) m.budgets }

abbrev pub is_over : ℕ → TemporalPrivacyBudget → Bool
is_over now b = leb b.resets_at now

abbrev pub reset : ℕ → TemporalBudgetPolicy → TemporalPrivacyBudget → TemporalPrivacyBudget
reset now p b =
    if is_over now b
    then record b {
      consumed = 0;
      remaining = p.max_requests_per_window;
      resets_at = now + p.window_ms;
    }
    else b

abbrev pub consume : TemporalPrivacyBudget → TemporalPrivacyBudget
consume b =
    if ltb 0 b.remaining
    then record b { consumed = b.consumed + 1; remaining = b.remaining - 1 }
    else b

unfoldable pub consume_budget :
    ℕ → String → TemporalBudgetManager → TemporalBudgetManager × TemporalPrivacyBudget
consume_budget now agent m =
    let b = consume (reset now m.policy (budget_of now agent m)) in
    (record m { budgets = Map.set agent b m.budgets }, b)

abbrev pub refreshed : ℕ → TemporalBudgetPolicy → TemporalPrivacyBudget → TemporalPrivacyBudget
refreshed now p b = if is_over now b then full_budget now p else b

unfoldable pub reset_expired_budgets : ℕ → TemporalBudgetManager → TemporalBudgetManager
reset_expired_budgets now m = record m {
  budgets = Map.modify_all (refreshed now m.policy) m.budgets;
}

unfoldable pub is_exhausted : ℕ → String → TemporalBudgetManager → TemporalBudgetManager × Bool
is_exhausted now agent m =
    let b = budget_of now agent m in
    (ensure_budget now agent m, not (is_over now b) && b.remaining == 0)

unfoldable pub clear : TemporalBudgetManager → TemporalBudgetManager
clear m = record m { budgets = [] }
