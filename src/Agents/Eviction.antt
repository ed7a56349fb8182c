-- ===== src/Agents/Eviction.antt =====
-- An eviction by packages/core/src/multi-agent/registry.ts is final.
use gyges_research_layer.Base.{
  ℕ, ◌≡◌, refl, String, str_eq, eq_iff, List, [], ◌∷◌, none, some, inl, inr, arith, Bool-cases, All,
}
use gyges_research_layer.Base.Map
use gyges_research_layer.Base.Map.{Map, map_option}
use gyges_research_layer.Agents.Registry.{
  evicted, update_agent, AgentRuntime, AgentRegistry, get_agent, updated, demote, evict,
  register_agent, new_runtime, with_compartment, change, no_update,
}
use gyges_research_layer.Agents.Quotas.{AgentQuotaManager, start_update, end_update}
use gyges_research_layer.Agents.Isolation.{trust_update}
use gyges_research_layer.Agents.Runtime.{Call, updates, clears, step, run}
use gyges_research_layer.Agents.Closure.{Closed, step-Closed}

-- The agent is registered and evicted.
pub record IsGone (j : String) (g : AgentRegistry) : Type 0 where
  pub runtime : AgentRuntime
  pub stored : get_agent j g ≡ some runtime
  pub gone : runtime.status ≡ evicted

change-IsGone :
    (j : String) (f : AgentRuntime → AgentRuntime) (id : String) (g : AgentRegistry)
    → ((r : AgentRuntime) → get_agent id g ≡ some r → r.status ≡ evicted → (f r).status ≡ evicted)
    → IsGone j g
    → IsGone j (change f id g).0
change-IsGone j f id g k v = elim (Bool-cases (str_eq id j)) [
  | inl y ↦ record {
    runtime = f v.runtime;
    stored = ground (arith, y, v.stored, Map.get-modify id j f g.runtimes);
    gone = k v.runtime (ground (arith, y, eq_iff id j, v.stored)) v.gone;
  }
  | inr y ↦ record {
    runtime = v.runtime;
    stored = ground (arith, y, v.stored, Map.get-modify id j f g.runtimes);
    gone = v.gone;
  }
]

register_agent-IsGone :
    (j : String) (now : ℕ) (id : String) (g : AgentRegistry)
    → IsGone j g
    → IsGone j (register_agent now id g).0
unfolding register_agent
register_agent-IsGone j now id g v = record {
  runtime = v.runtime;
  stored = ground (
    arith,
    v.stored,
    eq_iff id j,
    Map.get-set id j (new_runtime now id g.default_quota) g.runtimes,
  );
  gone = v.gone;
}

IsGone-Closed : (j : String) → Closed (IsGone j)
unfolding evict with_compartment updated demote start_update end_update
IsGone-Closed j = record {
  demotes = λ s now id g n m. change-IsGone j (demote s now) id g (λ r e h. ground arith);
  scores = λ now t id g. change-IsGone j (updated now (trust_update t)) id g (λ r e h. h);
  evictions = λ now id g. change-IsGone j (evict now) id g (λ r e h. refl);
  visits = λ now cid id g. change-IsGone j (with_compartment now cid) id g (λ r e h. ground arith);
  enlists = register_agent-IsGone j;
  begins = λ now id g r e.
      change-IsGone j (updated now (start_update r)) id g (λ x d h. ground (arith, e, d, h));
  finishes = λ now id g r e.
      change-IsGone j (updated now (end_update r)) id g (λ x d h. ground (arith, e, d, h));
  sessions = λ now n id g.
      change-IsGone j (updated now (record no_update { active_sessions = some n })) id g
        (λ r e h. h);
}

-- An `updateAgent` that writes no status, and any other call but `clear`.
abbrev pub Spares : ℕ × Call → Type 0
Spares (now, updates id u) = u.status ≡ none
Spares (now, clears) = ⊥
Spares c = Unit

step-IsGone :
    (j : String) (q : AgentQuotaManager) (c : ℕ × Call)
    → Spares c
    → IsGone j q.registry
    → IsGone j (step q c).registry
step-IsGone j q (now, clears) n v = absurd n
step-IsGone j q (now, updates id u) n v =
    unfold step update_agent updated in
    change-IsGone j (updated now u) id q.registry (λ r e h. ground (arith, n, h)) v
step-IsGone j q c n v = step-Closed (IsGone j) q c (IsGone-Closed j) tt v

-- An evicted agent stays registered and evicted whatever calls of the registry, the quota manager and
-- the isolation engine follow, a new registration of it included, but for an `updateAgent` that writes
-- a status and for a call that clears the registry.
pub eviction_is_final :
    (j : String) (q : AgentQuotaManager) (cs : List (ℕ × Call))
    → All Spares cs
    → IsGone j q.registry
    → IsGone j (run q cs).registry
unfolding run
eviction_is_final j q [] n v = v
eviction_is_final j q (c ∷ cs) n v = eviction_is_final j (step q c) cs n.1 (step-IsGone j q c n.0 v)
