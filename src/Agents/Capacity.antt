-- ===== src/Agents/Capacity.antt =====
-- What the multi-agent runtime (packages/core/src/multi-agent) promises: when an execution may start,
-- what starting and ending one does, and that an eviction is final.
use gyges_research_layer.Base.{
  ℕ, ◌+◌, ◌/◌, ◌≤◌, ◌<◌, true, false, ◌≡◌, ◌↔◌, ◌⊎◌, refl, String, eq_iff, [], ◌∷◌, some, inl, inr,
  arith, Option-cases, if◌then◌else◌, keep, length, ltb,
}
use gyges_research_layer.Base.Map
use gyges_research_layer.Base.Map.{Map, map_option}
use gyges_research_layer.Agents.Registry.{
  restricted, quarantined, AgentRuntime, AgentRegistry, get_agent, list_agents,
  agent_restricted_threshold, agent_quarantined_threshold, update_agent, updated, restrict_agent,
  quarantine_agent, demote,
}
use gyges_research_layer.Agents.Quotas.{
  AgentQuotaManager, may_run, record_execution_start, start_update,
}
use gyges_research_layer.Agents.Isolation.{check_isolation, check_status, check_trust}
use gyges_research_layer.Agents.Scheduler.{
  schedule_execution, schedule_status, schedule_running, total_executions, is_starved,
}

-- What an agent must be to start an execution under the ceiling.
pub record CanStart (ceiling : ℕ) (id : String) (g : AgentRegistry) (r : AgentRuntime)
    : Type 0 where
  pub runnable : may_run r.status ≡ true
  pub in_quota : r.active_executions < r.quota.max_concurrent_executions
  pub in_ceiling : total_executions (list_agents g) < ceiling
  pub fair :
      (length (keep (is_starved id) (list_agents g)) ≡ 0) ⊎ (r.active_executions < ceiling / 2)

schedule_running_iff :
    (ceiling : ℕ) (id : String) (g : AgentRegistry) (r : AgentRuntime)
    → ((schedule_status r.status ceiling id r (list_agents g)).allowed ≡ true)
      ↔ CanStart ceiling id g r
unfolding schedule_status schedule_running
schedule_running_iff ceiling id g r = ground arith

-- `scheduleExecution` allows an execution exactly when the agent is registered, is active or idle,
-- is below its quota, the executions of all agents are below the ceiling, and either no other agent
-- that may run waits without an execution or this one holds fewer executions than half of the ceiling,
-- rounded down.
pub schedule_execution_iff :
    (ceiling : ℕ) (id : String) (g : AgentRegistry)
    → ((schedule_execution ceiling id g).allowed ≡ true)
      ↔ ((r : AgentRuntime) × (get_agent id g ≡ some r) × CanStart ceiling id g r)
unfolding schedule_execution
schedule_execution_iff ceiling id g = elim (Option-cases (get_agent id g)) [
  | inl e ↦ rw (e, schedule_execution) (λ h. cc, λ h. cc h.1)
  | inr (r, e) ↦
      rw (e, schedule_execution)
        (
          λ h. (r, refl, (schedule_running_iff ceiling id g r).0 h),
          λ h. (schedule_running_iff ceiling id g r).1 (ground (arith, h.1, h.2)),
        )
]

-- What `checkIsolation` asks of a runtime.
pub record CanPass (r : AgentRuntime) : Type 0 where
  pub able : may_run r.status ≡ true
  pub trusted : agent_restricted_threshold ≤ r.trust_score

check_status_iff :
    (now : ℕ) (id : String) (g : AgentRegistry) (r : AgentRuntime)
    → ((check_status r.status now id r g).1.allowed ≡ true) ↔ CanPass r
unfolding check_status check_trust
check_status_iff now id g r = ground arith

check_status_demotes :
    (now : ℕ) (id : String) (g : AgentRegistry) (r : AgentRuntime)
    → get_agent id g ≡ some r
    → may_run r.status ≡ true
    → (check_status r.status now id r g).1.allowed ≡ false
    → map_option (λ x. x.status) (get_agent id (check_status r.status now id r g).0)
      ≡ some (if ltb r.trust_score agent_quarantined_threshold then quarantined else restricted)
unfolding check_status check_trust quarantine_agent restrict_agent demote
check_status_demotes now id g r e m h = ground (
  arith,
  e,
  eq_iff id id,
  Map.get-modify id id (demote quarantined now) g.runtimes,
  Map.get-modify id id (demote restricted now) g.runtimes,
)

-- `checkIsolation` allows an agent exactly when it is registered, is active or idle, and its trust
-- score is not below the threshold of restriction.
pub check_isolation_iff :
    (now : ℕ) (id : String) (g : AgentRegistry)
    → ((check_isolation now id g).1.allowed ≡ true)
      ↔ ((r : AgentRuntime) × (get_agent id g ≡ some r) × CanPass r)
unfolding check_isolation
check_isolation_iff now id g = elim (Option-cases (get_agent id g)) [
  | inl e ↦ rw (e, check_isolation) (λ h. cc, λ h. cc h.1)
  | inr (r, e) ↦
      rw (e, check_isolation)
        (
          λ h. (r, refl, (check_status_iff now id g r).0 h),
          λ h. (check_status_iff now id g r).1 (ground (arith, h.1, h.2)),
        )
]

-- When it does not allow an agent whose status would let it run, it leaves the agent demoted:
-- quarantined below the lower threshold, restricted below the upper one.
pub check_isolation_demotes :
    (now : ℕ) (id : String) (g : AgentRegistry) (r : AgentRuntime)
    → get_agent id g ≡ some r
    → may_run r.status ≡ true
    → (check_isolation now id g).1.allowed ≡ false
    → map_option (λ x. x.status) (get_agent id (check_isolation now id g).0)
      ≡ some (if ltb r.trust_score agent_quarantined_threshold then quarantined else restricted)
unfolding check_isolation
check_isolation_demotes now id g r e m h =
    rw (e, check_isolation) (check_status_demotes now id g r e m (rw (e, check_isolation) at h))

-- The total after the runtime of a registered agent has changed.
total-modify :
    (f : AgentRuntime → AgentRuntime) (id : String) (m : Map AgentRuntime) (r : AgentRuntime)
    → Map.get id m ≡ some r
    → total_executions (Map.values (Map.modify id f m)) + r.active_executions
      ≡ total_executions (Map.values m) + (f r).active_executions
unfolding total_executions Map.values Map.modify Map.get
total-modify f id [] r h = cc
total-modify f id ((k, x) ∷ m) r h = ground (arith, total-modify f id m r)

started :
    (now : ℕ) (id : String) (q : AgentQuotaManager) (r : AgentRuntime)
    → get_agent id q.registry ≡ some r
    → (total_executions (list_agents (record_execution_start now id q).registry)
        ≡ total_executions (list_agents q.registry) + 1)
      × (get_agent id (record_execution_start now id q).registry
          ≡ some (updated now (start_update r) r))
unfolding record_execution_start update_agent list_agents updated start_update
started now id q r e =
    rw (e, record_execution_start)
      (
        ground (arith, total-modify (updated now (start_update r)) id q.registry.runtimes r e),
        ground (
          arith,
          e,
          eq_iff id id,
          Map.get-modify id id (updated now (start_update r)) q.registry.runtimes,
        ),
      )

-- An execution that the scheduler allows and that is then recorded as started leaves the executions
-- of all agents within the ceiling and those of the agent within its quota.
pub start_within_bounds :
    (ceiling now : ℕ) (id : String) (q : AgentQuotaManager)
    → (schedule_execution ceiling id q.registry).allowed ≡ true
    → (total_executions (list_agents (record_execution_start now id q).registry) ≤ ceiling)
      × ((r : AgentRuntime) × (get_agent id (record_execution_start now id q).registry ≡ some r)
          × (r.active_executions ≤ r.quota.max_concurrent_executions))
start_within_bounds ceiling now id q h =
    let (r, e, c) = (schedule_execution_iff ceiling id q.registry).0 h in
    let (t, s) = started now id q r e in
    (
      omega (arith, t, c.in_ceiling),
      (updated now (start_update r) r, s, unfold updated start_update in omega (arith, c.in_quota)),
    )
