-- ===== src/Agents/Runtime.antt =====
-- The calls of packages/core/src/multi-agent that change the shared registry, as steps of one state:
-- those of registry.ts, quotas.ts and isolation.ts.
use gyges_research_layer.Base.{ℕ, String, List, [], ◌∷◌}
use gyges_research_layer.Base.Int.{ℤ}
use gyges_research_layer.Base.Map.{Map}
use gyges_research_layer.Agents.Registry.{
  AgentUpdate, AgentRegistry, register_agent, update_agent, evict_agent, restrict_agent,
  quarantine_agent, add_compartment, clear,
}
use gyges_research_layer.Agents.Quotas.{
  AgentQuotaManager, record_execution_start, record_execution_end, record_violation,
  record_session_created, record_session_closed, clear_violations,
}
use gyges_research_layer.Agents.Isolation.{
  check_isolation, propagate_compartment_trust, degrade_trust,
}

pub data Call : Type 0 where
  registers evicts restricts quarantines : String → Call
  updates : String → AgentUpdate → Call
  adds_compartment : String → String → Call
  starts ends violates opens_session closes_session checks : String → Call
  propagates : ℕ → String → Map ℕ → Call
  degrades : String → ℤ → Call
  clears clears_violations : Call

abbrev pub on_registry : (AgentRegistry → AgentRegistry) → AgentQuotaManager → AgentQuotaManager
on_registry f q = record q { registry = f q.registry }

unfoldable pub step : AgentQuotaManager → ℕ × Call → AgentQuotaManager
step q (now, registers id) = on_registry (λ g. (register_agent now id g).0) q
step q (now, updates id u) = on_registry (λ g. (update_agent now id u g).0) q
step q (now, evicts id) = on_registry (λ g. (evict_agent now id g).0) q
step q (now, restricts id) = on_registry (λ g. (restrict_agent now id g).0) q
step q (now, quarantines id) = on_registry (λ g. (quarantine_agent now id g).0) q
step q (now, adds_compartment id cid) = on_registry (λ g. (add_compartment now id cid g).0) q
step q (now, starts id) = record_execution_start now id q
step q (now, ends id) = record_execution_end now id q
step q (now, violates id) = (record_violation now id q).0
step q (now, opens_session id) = record_session_created now id q
step q (now, closes_session id) = record_session_closed now id q
step q (now, checks id) = on_registry (λ g. (check_isolation now id g).0) q
step q (now, propagates threshold id scores) =
    on_registry (propagate_compartment_trust now threshold id scores) q
step q (now, degrades id delta) = on_registry (λ g. (degrade_trust now id delta g).0) q
step q (now, clears) = on_registry clear q
step q (now, clears_violations) = clear_violations q

unfoldable pub run : AgentQuotaManager → List (ℕ × Call) → AgentQuotaManager
run q [] = q
run q (c ∷ cs) = run (step q c) cs
