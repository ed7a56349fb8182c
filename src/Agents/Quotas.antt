-- ===== src/Agents/Quotas.antt =====
-- packages/core/src/multi-agent/quotas.ts: quotas of an agent and its violations of them. The manager's
-- state is the shared registry and its own counters.
use gyges_research_layer.Base.{
  ℕ, ◌+◌, ◌-◌, Bool, true, false, ◌&&◌, String, [], none, some, ltb, leb, ◌==◌, if◌then◌else◌,
  or_else,
}
use gyges_research_layer.Base.Int.{pos}
use gyges_research_layer.Base.Map
use gyges_research_layer.Base.Map.{Map}
use gyges_research_layer.Agents.Registry.{
  AgentStatus, active, idle, AgentRuntime, AgentRegistry, AgentUpdate, no_update, get_agent,
  update_agent, restrict_agent,
}

pub record AgentQuotaManager : Type 0 where
  pub registry : AgentRegistry
  pub violation_counts : Map ℕ
  pub violations_before_restriction : ℕ

-- Not evicted, quarantined or restricted.
abbrev pub may_run : AgentStatus → Bool
may_run active = true
may_run idle = true
may_run _ = false

abbrev pub is_active : AgentStatus → Bool
is_active active = true
is_active _ = false

unfoldable pub can_execute : String → AgentQuotaManager → Bool
can_execute id q = elim (get_agent id q.registry) [
  | none ↦ false
  | some r ↦ may_run r.status && ltb r.active_executions r.quota.max_concurrent_executions
]

unfoldable pub can_create_session : String → AgentQuotaManager → Bool
can_create_session id q = elim (get_agent id q.registry) [
  | none ↦ false
  | some r ↦ may_run r.status && ltb r.active_sessions r.quota.max_sessions
]

abbrev pub started_status : AgentStatus → AgentStatus
started_status idle = active
started_status s = s

-- The update of `recordExecutionStart`.
unfoldable pub start_update : AgentRuntime → AgentUpdate
start_update r = record no_update {
  active_executions = some (pos (r.active_executions + 1));
  status = some (started_status r.status);
}

unfoldable pub record_execution_start : ℕ → String → AgentQuotaManager → AgentQuotaManager
record_execution_start now id q = elim (get_agent id q.registry) [
  | none ↦ q
  | some r ↦ record q {
    registry = (update_agent now id (start_update r) q.registry).0;
    violation_counts = Map.delete id q.violation_counts;
  }
]

unfoldable pub end_update : AgentRuntime → AgentUpdate
end_update r = record no_update {
  active_executions = some (pos (r.active_executions - 1));
  status = some (if r.active_executions - 1 == 0 && is_active r.status then idle else r.status);
}

unfoldable pub record_execution_end : ℕ → String → AgentQuotaManager → AgentQuotaManager
record_execution_end now id q = elim (get_agent id q.registry) [
  | none ↦ q
  | some r ↦ record q { registry = (update_agent now id (end_update r) q.registry).0 }
]

abbrev pub get_violation_count : String → AgentQuotaManager → ℕ
get_violation_count id q = or_else (Map.get id q.violation_counts) 0

-- The result tells whether the agent was restricted.
unfoldable pub record_violation : ℕ → String → AgentQuotaManager → AgentQuotaManager × Bool
record_violation now id q =
    let count = get_violation_count id q + 1 in
    let counts = Map.set id count q.violation_counts in
    if leb q.violations_before_restriction count
    then (
      record q {
        registry = (restrict_agent now id q.registry).0;
        violation_counts = Map.delete id counts;
      },
      true,
    )
    else (record q { violation_counts = counts }, false)

unfoldable pub record_session_created : ℕ → String → AgentQuotaManager → AgentQuotaManager
record_session_created now id q = elim (get_agent id q.registry) [
  | none ↦ q
  | some r ↦ record q {
    registry =
        (update_agent now id
          (record no_update { active_sessions = some (pos (r.active_sessions + 1)) }) q.registry).0;
  }
]

unfoldable pub record_session_closed : ℕ → String → AgentQuotaManager → AgentQuotaManager
record_session_closed now id q = elim (get_agent id q.registry) [
  | none ↦ q
  | some r ↦ record q {
    registry =
        (update_agent now id
          (record no_update { active_sessions = some (pos (r.active_sessions - 1)) }) q.registry).0;
  }
]

unfoldable pub clear_violations : AgentQuotaManager → AgentQuotaManager
clear_violations q = record q { violation_counts = [] }
