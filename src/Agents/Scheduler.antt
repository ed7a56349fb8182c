-- ===== src/Agents/Scheduler.antt =====
-- packages/core/src/multi-agent/scheduler.ts: whether an agent may start an execution. The text of a
-- denial's reason is kept as data.
use gyges_research_layer.Base.{
  ℕ, ◌+◌, ◌/◌, Bool, true, false, not, ◌&&◌, String, str_eq, List, [], ◌∷◌, Option, none, some, ltb,
  leb, ◌==◌, if◌then◌else◌, keep, length,
}
use gyges_research_layer.Agents.Registry.{
  AgentStatus, active, idle, restricted, quarantined, evicted, AgentRuntime, AgentRegistry,
  get_agent, list_agents,
}
use gyges_research_layer.Agents.Quotas.{may_run}

pub data Denial : Type 0 where
  not_registered is_evicted is_quarantined is_restricted monopolising : Denial
  quota_reached ceiling_reached : ℕ → Denial

pub record SchedulingDecision : Type 0 where
  pub allowed : Bool
  pub reason : Option Denial
  pub agents_ahead : Option ℕ

abbrev pub deny : Denial → SchedulingDecision
deny d = record { allowed = false; reason = some d; agents_ahead = none }

abbrev pub deny_behind : Denial → ℕ → SchedulingDecision
deny_behind d n = record { allowed = false; reason = some d; agents_ahead = some n }

unfoldable pub total_executions : List AgentRuntime → ℕ
total_executions [] = 0
total_executions (r ∷ rs) = r.active_executions + total_executions rs

-- Another agent that may run, busy or waiting at zero.
unfoldable pub is_ahead : String → AgentRuntime → Bool
is_ahead id r = not (str_eq r.agent_id id) && may_run r.status && ltb 0 r.active_executions

unfoldable pub is_starved : String → AgentRuntime → Bool
is_starved id r = not (str_eq r.agent_id id) && may_run r.status && r.active_executions == 0

-- The checks below those of the status.
unfoldable pub schedule_running : ℕ → String → AgentRuntime → List AgentRuntime → SchedulingDecision
schedule_running ceiling id r all =
    let starved = length (keep (is_starved id) all) in
    if leb r.quota.max_concurrent_executions r.active_executions
    then deny (quota_reached r.quota.max_concurrent_executions)
    else if leb ceiling (total_executions all)
    then deny_behind (ceiling_reached ceiling) (length (keep (is_ahead id) all))
    else if ltb 0 starved && leb (ceiling / 2) r.active_executions
    then deny_behind monopolising starved
    else record { allowed = true; reason = none; agents_ahead = none }

unfoldable pub schedule_status :
    AgentStatus → ℕ → String → AgentRuntime → List AgentRuntime → SchedulingDecision
schedule_status evicted ceiling id r all = deny is_evicted
schedule_status quarantined ceiling id r all = deny is_quarantined
schedule_status restricted ceiling id r all = deny is_restricted
schedule_status active ceiling id r all = schedule_running ceiling id r all
schedule_status idle ceiling id r all = schedule_running ceiling id r all

-- `ceiling` is `maxGlobalConcurrentExecutions`.
unfoldable pub schedule_execution : ℕ → String → AgentRegistry → SchedulingDecision
schedule_execution ceiling id g = elim (get_agent id g) [
  | none ↦ deny not_registered
  | some r ↦ schedule_status r.status ceiling id r (list_agents g)
]
