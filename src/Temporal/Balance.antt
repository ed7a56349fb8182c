-- ===== src/Temporal/Balance.antt =====
-- What packages/core/src/temporal-obfuscation/budget.ts grants within one window.
use gyges_research_layer.Base.{
  ap, ◌∙◌, ℕ, ◌+◌, ◌-◌, ◌≤◌, ◌<◌, ◌≡◌, refl, ◌&&◌, String, str_eq, eq_iff, List, [], ◌∷◌, some,
  arith, inl, inr, ltb, if◌then◌else◌, Bool-cases, Option-cases, All,
}
use gyges_research_layer.Base.Map
use gyges_research_layer.Base.Map.{Map}
use gyges_research_layer.Temporal.Budget.{
  TemporalBudgetPolicy, TemporalPrivacyBudget, TemporalBudgetManager, new, full_budget, budget_of,
  ensure_budget, reset, consume, consume_budget, refreshed, reset_expired_budgets, is_exhausted,
  clear,
}

pub data Call : Type 0 where
  consumes asks : String → Call
  resets clears : Call

unfoldable pub step : TemporalBudgetManager → ℕ × Call → TemporalBudgetManager
step m (now, consumes agent) = (consume_budget now agent m).0
step m (now, asks agent) = (is_exhausted now agent m).0
step m (now, resets) = reset_expired_budgets now m
step m (now, clears) = clear m

unfoldable pub run : TemporalBudgetManager → List (ℕ × Call) → TemporalBudgetManager
run m [] = m
run m (c ∷ cs) = run (step m c) cs

-- Whether a call is one of the agent that takes a unit from its budget.
abbrev pub grant : String → TemporalBudgetManager → ℕ × Call → ℕ
grant a m (now, consumes agent) =
    if str_eq agent a && ltb 0 (reset now m.policy (budget_of now agent m)).remaining then 1 else 0
grant a m _ = 0

unfoldable pub granted : String → TemporalBudgetManager → List (ℕ × Call) → ℕ
granted a m [] = 0
granted a m (c ∷ cs) = grant a m c + granted a (step m c) cs

-- Every stored budget is split between what is consumed and what remains.
abbrev pub IsBalanced : TemporalBudgetManager → Type 0
IsBalanced m =
    (a : String) (b : TemporalPrivacyBudget)
    → Map.get a m.budgets ≡ some b
    → b.consumed + b.remaining ≡ m.policy.max_requests_per_window

step-policy : (m : TemporalBudgetManager) (c : ℕ × Call) → (step m c).policy ≡ m.policy
unfolding step consume_budget is_exhausted ensure_budget reset_expired_budgets clear
step-policy m (now, consumes agent) = refl
step-policy m (now, asks agent) = elim (Bool-cases (Map.has agent m.budgets)) [
  | inl h ↦ rw h refl
  | inr h ↦ rw h refl
]
step-policy m (now, resets) = refl
step-policy m (now, clears) = refl

-- No call clears the budgets, and all come before a time.
abbrev pub Within : ℕ → ℕ × Call → Type 0
Within t (now, clears) = ⊥
Within t (now, _) = now < t

-- The budget of an agent in a window that has not ended.
pub record HasLeft (a : String) (t n : ℕ) (m : TemporalBudgetManager) : Type 0 where
  pub budget : TemporalPrivacyBudget
  pub stored : Map.get a m.budgets ≡ some budget
  pub ends : budget.resets_at ≡ t
  pub left : budget.remaining ≡ n

step-HasLeft :
    (a : String) (t n : ℕ) (m : TemporalBudgetManager) (c : ℕ × Call)
    → Within t c
    → HasLeft a t n m
    → (grant a m c ≤ n) × HasLeft a t (n - grant a m c) (step m c)
unfolding step consume_budget is_exhausted ensure_budget reset_expired_budgets
step-HasLeft a t n m (now, consumes agent) w h = elim (Bool-cases (str_eq agent a)) [
  | inl e ↦
      let own : Map.get agent m.budgets ≡ some h.budget =
        ground (arith, e, eq_iff agent a, h.stored) in
      (
        ground (arith, e, own, h.ends, h.left, w),
        record {
          budget = consume h.budget;
          stored = ground (
            arith,
            e,
            own,
            h.ends,
            w,
            Map.get-set agent a (consume (reset now m.policy (budget_of now agent m))) m.budgets,
          );
          ends = ground (arith, h.ends);
          left = ground (arith, e, own, h.ends, h.left, w);
        },
      )
  | inr e ↦ (
    ground (arith, e),
    record {
      budget = h.budget;
      stored = ground (
        arith,
        e,
        h.stored,
        Map.get-set agent a (consume (reset now m.policy (budget_of now agent m))) m.budgets,
      );
      ends = h.ends;
      left = ground (arith, e, h.left);
    },
  )
]
step-HasLeft a t n m (now, asks agent) w h = (
  omega arith,
  record {
    budget = h.budget;
    stored =
        ground (
          arith,
          h.stored,
          eq_iff agent a,
          Map.get-set agent a (full_budget now m.policy) m.budgets,
        );
    ends = h.ends;
    left = omega (arith, h.left);
  },
)
step-HasLeft a t n m (now, resets) w h = (
  omega arith,
  record {
    budget = h.budget;
    stored =
        ground
          (arith, h.stored, h.ends, w, Map.get-modify_all a (refreshed now m.policy) m.budgets);
    ends = h.ends;
    left = omega (arith, h.left);
  },
)
step-HasLeft a t n m (now, clears) w h = absurd w

granted_left :
    (a : String) (t n : ℕ) (m : TemporalBudgetManager) (cs : List (ℕ × Call))
    → All (Within t) cs
    → HasLeft a t n m
    → granted a m cs ≤ n
unfolding granted
granted_left a t n m [] w h = omega arith
granted_left a t n m (c ∷ cs) w h =
    let one = step-HasLeft a t n m c w.0 h in
    omega (arith, one.0, granted_left a t (n - grant a m c) (step m c) cs w.1 one.1)

step-IsBalanced : (m : TemporalBudgetManager) (c : ℕ × Call) → IsBalanced m → IsBalanced (step m c)
unfolding step consume_budget is_exhausted ensure_budget reset_expired_budgets clear Map.get
step-IsBalanced m (now, consumes agent) v a b h = elim (Option-cases (Map.get agent m.budgets)) [
  | inl e ↦ ground (
    arith,
    e,
    h,
    v a b,
    Map.get-set agent a (consume (reset now m.policy (budget_of now agent m))) m.budgets,
  )
  | inr (x, e) ↦ ground (
    arith,
    e,
    h,
    v a b,
    v agent x e,
    Map.get-set agent a (consume (reset now m.policy (budget_of now agent m))) m.budgets,
  )
]
step-IsBalanced m (now, asks agent) v a b h =
    ground (arith, h, v a b, Map.get-set agent a (full_budget now m.policy) m.budgets)
step-IsBalanced m (now, resets) v a b h = elim (Option-cases (Map.get a m.budgets)) [
  | inl e ↦ absurd (ground (arith, e, h, Map.get-modify_all a (refreshed now m.policy) m.budgets))
  | inr (x, e) ↦
      ground (arith, e, h, v a x e, Map.get-modify_all a (refreshed now m.policy) m.budgets)
]
step-IsBalanced m (now, clears) v a b h = absurd (ground (arith, h))

run-IsBalanced :
    (m : TemporalBudgetManager) (cs : List (ℕ × Call)) → IsBalanced m → IsBalanced (run m cs)
unfolding run
run-IsBalanced m [] v = v
run-IsBalanced m (c ∷ cs) v = run-IsBalanced (step m c) cs (step-IsBalanced m c v)

run-policy : (m : TemporalBudgetManager) (cs : List (ℕ × Call)) → (run m cs).policy ≡ m.policy
unfolding run
run-policy m [] = refl
run-policy m (c ∷ cs) = run-policy (step m c) cs ∙ step-policy m c

new-IsBalanced : (p : TemporalBudgetPolicy) → IsBalanced (new p)
unfolding new Map.get
new-IsBalanced p a b h = absurd (ground (arith, h))

new_policy : (p : TemporalBudgetPolicy) → (new p).policy ≡ p
unfolding new
new_policy p = refl

-- Whatever calls a new manager has taken: from then on until the budget of an agent resets, the units
-- it has consumed and those that further calls grant it are together no more than the policy's requests
-- for a window, as long as the budgets are not cleared.
pub granted_bound :
    (p : TemporalBudgetPolicy) (before cs : List (ℕ × Call)) (a : String)
    (b : TemporalPrivacyBudget)
    → Map.get a (run (new p) before).budgets ≡ some b
    → All (Within b.resets_at) cs
    → b.consumed + granted a (run (new p) before) cs ≤ p.max_requests_per_window
granted_bound p before cs a b h w =
    let m = run (new p) before in
    omega (
      arith,
      run-IsBalanced (new p) before (new-IsBalanced p) a b h,
      granted_left a b.resets_at b.remaining m cs w
          (record { budget = b; stored = h; ends = refl; left = refl }),
      ap (λ q. q.max_requests_per_window) (run-policy (new p) before ∙ new_policy p),
    )
