-- ===== src/Agents/Health.antt =====
-- The state of a runtime and its executions under the calls of packages/core/src/multi-agent: an agent
-- is active while it has executions and idle without.
use gyges_research_layer.Base.{
  ℕ, ◌≤◌, ◌<◌, true, false, ◌≡◌, ◌≢◌, ◌⊎◌, refl, subst, String, str_eq, eq_iff, All, List, [], ◌∷◌,
  none, some, inl, inr, arith, Option-cases, Bool-cases, if◌then◌else◌,
}
use gyges_research_layer.Base.Map
use gyges_research_layer.Base.Map.{Map, map_option}
use gyges_research_layer.Agents.Registry.{
  AgentStatus, active, idle, AgentQuota, AgentUpdate, update_agent, AgentRuntime, AgentRegistry,
  get_agent, updated, demote, evict, register_agent, new_runtime, with_compartment, change,
  no_update, clear,
}
use gyges_research_layer.Agents.Quotas.{AgentQuotaManager, start_update, end_update}
use gyges_research_layer.Agents.Isolation.{trust_update}
use gyges_research_layer.Agents.Runtime.{Call, updates, clears, step, run}
use gyges_research_layer.Agents.Closure.{Closed, step-Closed}

-- The trust score is in range, an active agent has an execution, and an idle one has none.
pub record IsHealthy (r : AgentRuntime) : Type 0 where
  pub trust_in_range : r.trust_score ≤ 100
  pub busy : r.status ≡ active → 0 < r.active_executions
  pub quiet : r.status ≡ idle → r.active_executions ≡ 0

abbrev pub AllHealthy : AgentRegistry → Type 0
AllHealthy g = (j : String) (r : AgentRuntime) → get_agent j g ≡ some r → IsHealthy r

pub change-AllHealthy :
    (f : AgentRuntime → AgentRuntime) (id : String) (g : AgentRegistry)
    → ((r : AgentRuntime) → get_agent id g ≡ some r → IsHealthy r → IsHealthy (f r))
    → AllHealthy g
    → AllHealthy (change f id g).0
change-AllHealthy f id g k a j r h =
    by_key (Option-cases (Map.get j g.runtimes)) (Map.get-modify id j f g.runtimes)
  where
    by_key :
        (Map.get j g.runtimes ≡ none) ⊎ ((x : AgentRuntime) × (Map.get j g.runtimes ≡ some x))
        → Map.get j (Map.modify id f g.runtimes)
          ≡ (if str_eq id j then map_option f (Map.get j g.runtimes) else Map.get j g.runtimes)
        → IsHealthy r
    by_key (inl n) m = absurd (ground (arith, n, m, h))
    by_key (inr (x, e)) m = elim (Bool-cases (str_eq id j)) [
      | inl y ↦
          subst IsHealthy (ground (arith, e, m, h, y))
            (k x (ground (arith, e, y, eq_iff id j)) (a j x e))
      | inr y ↦ a j r (ground (arith, m, h, y))
    ]

demote-IsHealthy :
    (s : AgentStatus) (now : ℕ) (r : AgentRuntime)
    → s ≢ active
    → s ≢ idle
    → IsHealthy r
    → IsHealthy (demote s now r)
unfolding demote
demote-IsHealthy s now r n m h = record {
  trust_in_range = ground (arith, h.trust_in_range);
  busy = ground (arith, h.busy);
  quiet = ground (arith, h.quiet);
}

trust_update-IsHealthy :
    (now t : ℕ) (r : AgentRuntime) → IsHealthy r → IsHealthy (updated now (trust_update t) r)
unfolding updated
trust_update-IsHealthy now t r h = record {
  trust_in_range = ground arith;
  busy = h.busy;
  quiet = h.quiet;
}

new_runtime-IsHealthy :
    (now : ℕ) (id : String) (quota : AgentQuota) → IsHealthy (new_runtime now id quota)
unfolding new_runtime
new_runtime-IsHealthy now id quota = record {
  trust_in_range = omega arith;
  busy = never;
  quiet = λ x. refl;
}
  where
    never : idle ≡ active → 0 < 0
    never x = absurd cc

register_agent-AllHealthy :
    (now : ℕ) (id : String) (g : AgentRegistry)
    → AllHealthy g
    → AllHealthy (register_agent now id g).0
unfolding register_agent new_runtime
register_agent-AllHealthy now id g a j r h = elim (Option-cases (Map.get id g.runtimes)) [
  | inr (x, e) ↦ a j r (ground (arith, e, h))
  | inl e ↦
      by_key (Bool-cases (str_eq id j))
        (Map.get-set id j (new_runtime now id g.default_quota) g.runtimes) e
]
  where
    by_key :
        (str_eq id j ≡ true) ⊎ (str_eq id j ≡ false)
        → Map.get j (Map.set id (new_runtime now id g.default_quota) g.runtimes) ≡ (
            if str_eq id j then some (new_runtime now id g.default_quota) else Map.get j g.runtimes)
        → Map.get id g.runtimes ≡ none
        → IsHealthy r
    by_key (inl y) m e =
        subst IsHealthy (ground (arith, y, m, e, h)) (new_runtime-IsHealthy now id g.default_quota)
    by_key (inr n) m e = a j r (ground (arith, n, m, e, h))

-- The updates of quotas.ts, at the runtime they are computed from.
start_update-IsHealthy :
    (now : ℕ) (r : AgentRuntime) → IsHealthy r → IsHealthy (updated now (start_update r) r)
unfolding updated start_update
start_update-IsHealthy now r h = record {
  trust_in_range = h.trust_in_range;
  busy = λ x. omega arith;
  quiet = λ x. absurd (ground arith);
}

end_update-IsHealthy :
    (now : ℕ) (r : AgentRuntime) → IsHealthy r → IsHealthy (updated now (end_update r) r)
unfolding updated end_update
end_update-IsHealthy now r h = record {
  trust_in_range = h.trust_in_range;
  busy = λ x. ground (arith, h.busy, h.quiet);
  quiet = λ x. ground (arith, h.busy, h.quiet);
}

at_runtime :
    (f : AgentRuntime → AgentRuntime) (id : String) (g : AgentRegistry) (r : AgentRuntime)
    → get_agent id g ≡ some r
    → (IsHealthy r → IsHealthy (f r))
    → (x : AgentRuntime) → get_agent id g ≡ some x
    → IsHealthy x
    → IsHealthy (f x)
at_runtime f id g r e k x h = subst (λ y. IsHealthy y → IsHealthy (f y)) (ground (arith, e, h)) k

AllHealthy-Closed : Closed AllHealthy
unfolding evict with_compartment updated
AllHealthy-Closed = record {
  demotes =
      λ s now id g n m. change-AllHealthy (demote s now) id g (λ r e. demote-IsHealthy s now r n m);
  scores = λ now t id g.
      change-AllHealthy (updated now (trust_update t)) id g (λ r e. trust_update-IsHealthy now t r);
  evictions = λ now id g.
      change-AllHealthy (evict now) id g
        (λ r e h. record { trust_in_range = h.trust_in_range; busy = λ x. cc; quiet = λ x. cc });
  visits = λ now cid id g. change-AllHealthy (with_compartment now cid) id g (λ r e h. record {
    trust_in_range = ground (arith, h.trust_in_range);
    busy = ground (arith, h.busy);
    quiet = ground (arith, h.quiet);
  });
  enlists = register_agent-AllHealthy;
  begins = λ now id g r e.
      change-AllHealthy (updated now (start_update r)) id g
        (at_runtime (updated now (start_update r)) id g r e (start_update-IsHealthy now r));
  finishes = λ now id g r e.
      change-AllHealthy (updated now (end_update r)) id g
        (at_runtime (updated now (end_update r)) id g r e (end_update-IsHealthy now r));
  sessions = λ now n id g.
      change-AllHealthy (updated now (record no_update { active_sessions = some n })) id g
        (λ r e h. record { trust_in_range = h.trust_in_range; busy = h.busy; quiet = h.quiet });
}

updated-IsHealthy :
    (now : ℕ) (u : AgentUpdate) (r : AgentRuntime)
    → u.status ≡ none
    → u.active_executions ≡ none
    → IsHealthy r
    → IsHealthy (updated now u r)
unfolding updated
updated-IsHealthy now u r s n h = record {
  trust_in_range = ground (arith, h.trust_in_range);
  busy = ground (arith, s, n, h.busy);
  quiet = ground (arith, s, n, h.quiet);
}

-- An `updateAgent` leaves the status and the number of executions; any other call is fine.
abbrev pub LeavesState : ℕ × Call → Type 0
LeavesState (now, updates id u) = (u.status ≡ none) × (u.active_executions ≡ none)
LeavesState c = Unit

step-AllHealthy :
    (q : AgentQuotaManager) (c : ℕ × Call)
    → LeavesState c
    → AllHealthy q.registry
    → AllHealthy (step q c).registry
step-AllHealthy q (now, clears) n a = unfold step clear Map.get in λ j r h. cc
step-AllHealthy q (now, updates id u) n a =
    unfold step update_agent in
    change-AllHealthy (updated now u) id q.registry (λ r e. updated-IsHealthy now u r n.0 n.1) a
step-AllHealthy q c n a = step-Closed AllHealthy q c AllHealthy-Closed tt a

-- Let any calls of the registry, the quota manager and the isolation engine follow, in which an
-- `updateAgent` writes neither the status nor the number of executions: if every registered agent has a
-- trust score of at most 100, an execution when it is active and none when it is idle, then that is so
-- after them.
pub run-AllHealthy :
    (q : AgentQuotaManager) (cs : List (ℕ × Call))
    → All LeavesState cs
    → AllHealthy q.registry
    → AllHealthy (run q cs).registry
unfolding run
run-AllHealthy q [] n a = a
run-AllHealthy q (c ∷ cs) n a = run-AllHealthy (step q c) cs n.1 (step-AllHealthy q c n.0 a)
