-- ===== src/Agents/Tests.antt =====
-- The multi-agent runtime on concrete agents.
use gyges_research_layer.Base.{
  ℕ, ◌≤◌, arith, true, false, ◌≡◌, ◌↔◌, refl, List, [], ◌∷◌, some, keep,
}
use gyges_research_layer.Base.Int.{pos, negsuc}
use gyges_research_layer.Base.Map
use gyges_research_layer.Base.Map.{map_option, elem}
use gyges_research_layer.Agents.Registry.{RuntimeLease}
use gyges_research_layer.Agents.Leases.{
  RuntimeLeaseManager, expire_one, expire_each, expire_leases, new_lease, replace_lease,
  acquire_lease, get_agent_lease,
}
use gyges_research_layer.Agents.Pairing.{IsPaired}
use gyges_research_layer.Agents.OneLease.{
  LeaseCall, acquires, looks_up, lease_step, lease_run, AllNewIds, lease_run-IsPaired,
}
use gyges_research_layer.Agents.Registry.{no_update, evict, evict_agent}
use gyges_research_layer.Agents.Runtime.{updates, evicts, checks}
use gyges_research_layer.Agents.Eviction.{IsGone, eviction_is_final}
use gyges_research_layer.Agents.Registry.{
  AgentRuntime, AgentRegistry, default_agent_quota, new_runtime, get_agent, list_agents,
  register_agent, updated, update_agent,
}
use gyges_research_layer.Agents.Quotas.{AgentQuotaManager, record_execution_start, start_update}
use gyges_research_layer.Agents.Isolation.{check_isolation, check_status, check_trust}
use gyges_research_layer.Agents.Scheduler.{
  schedule_execution, schedule_status, schedule_running, total_executions, is_starved, is_ahead,
}
use gyges_research_layer.Agents.Runtime.{Call, registers, starts, ends, degrades, step, run}
use gyges_research_layer.Agents.Capacity.{CanStart, schedule_execution_iff, start_within_bounds}
use gyges_research_layer.Agents.Health.{AllHealthy}
use gyges_research_layer.Agents.Health.{run-AllHealthy}

abbrev fresh : AgentQuotaManager
fresh = record {
  registry = record { runtimes = []; default_quota = default_agent_quota };
  violation_counts = [];
  violations_before_restriction = 3;
}

-- Two agents of which one runs.
abbrev two : AgentQuotaManager
two = run fresh ((1, registers "a") ∷ (2, registers "b") ∷ (3, starts "a") ∷ [])

fresh-AllHealthy : AllHealthy fresh.registry
unfolding Map.get
fresh-AllHealthy j r h = cc

-- An agent loses trust while it runs, and is given back more than there is.
abbrev history : List (ℕ × Call)
history =
    (1, registers "a")
    ∷ (3, starts "a")
    ∷ (4, degrades "a" (negsuc 40))
    ∷ (5, updates "a" (record no_update { trust_score = some (pos 120) }))
    ∷ (6, ends "a")
    ∷ []

run-AllHealthy_example : AllHealthy (run fresh history).registry
run-AllHealthy_example =
    run-AllHealthy fresh history (tt, (tt, (tt, ((refl, refl), (tt, tt))))) fresh-AllHealthy

schedule_execution_iff_example :
    ((schedule_execution 8 "b" two.registry).allowed ≡ true)
    ↔ ((r : AgentRuntime) × (get_agent "b" two.registry ≡ some r) × CanStart 8 "b" two.registry r)
schedule_execution_iff_example = schedule_execution_iff 8 "b" two.registry

may_start : (schedule_execution 8 "b" two.registry).allowed ≡ true
unfolding run step register_agent new_runtime record_execution_start start_update update_agent
    updated schedule_execution schedule_status schedule_running list_agents total_executions
    is_starved is_ahead keep Map.get Map.set Map.modify Map.delete Map.values
may_start = refl

-- The busy agent waits while it holds half of the ceiling and the other has none.
must_wait : (schedule_execution 2 "a" two.registry).allowed ≡ false
unfolding run step register_agent new_runtime record_execution_start start_update update_agent
    updated schedule_execution schedule_status schedule_running list_agents total_executions
    is_starved is_ahead keep Map.get Map.set Map.modify Map.delete Map.values
must_wait = refl

start_within_bounds_example :
    (total_executions (list_agents (record_execution_start 9 "b" two).registry) ≤ 8)
    × ((r : AgentRuntime) × (get_agent "b" (record_execution_start 9 "b" two).registry ≡ some r)
        × (r.active_executions ≤ r.quota.max_concurrent_executions))
start_within_bounds_example = start_within_bounds 8 9 "b" two may_start

abbrev doubtful : AgentRuntime
doubtful = record (new_runtime 1 "a" default_agent_quota) { trust_score = 25 }

abbrev doubted : AgentRegistry
doubted = record { runtimes = ("a", doubtful) ∷ []; default_quota = default_agent_quota }

doubted_agent : get_agent "a" doubted ≡ some doubtful
unfolding Map.get
doubted_agent = refl

not_passed : (check_isolation 9 "a" doubted).1.allowed ≡ false
unfolding check_isolation check_status check_trust new_runtime Map.get
not_passed = refl

abbrev evicted_agent : AgentQuotaManager
evicted_agent = run fresh ((1, registers "a") ∷ (2, evicts "a") ∷ [])

evicted_agent-IsGone : IsGone "a" evicted_agent.registry
unfolding run step register_agent new_runtime evict_agent evict Map.get Map.set Map.modify
evicted_agent-IsGone = record {
  runtime = evict 2 (new_runtime 1 "a" default_agent_quota);
  stored = refl;
  gone = refl;
}

eviction_is_final_example :
    IsGone "a"
      (run evicted_agent ((3, registers "a") ∷ (4, starts "a") ∷ (5, checks "a") ∷ [])).registry
eviction_is_final_example =
    eviction_is_final "a" evicted_agent
      ((3, registers "a") ∷ (4, starts "a") ∷ (5, checks "a") ∷ []) (tt, (tt, (tt, tt)))
      evicted_agent-IsGone

abbrev no_leases : RuntimeLeaseManager
no_leases = record {
  registry = two.registry;
  lease_ttl_ms = 100;
  renewable = true;
  leases = [];
  agent_lease_index = [];
}

no_leases-IsPaired : IsPaired no_leases
unfolding Map.get
no_leases-IsPaired id a = ground arith

-- The agent acquires a second lease before the first is over, and both are looked up.
abbrev lease_calls : List (ℕ × LeaseCall)
lease_calls = (5, acquires "l1" "a") ∷ (50, acquires "l2" "a") ∷ (60, looks_up "a") ∷ []

lease_calls_new : AllNewIds no_leases lease_calls
unfolding lease_step acquire_lease expire_leases expire_each expire_one replace_lease Map.get
    Map.set Map.delete Map.keys get_agent_lease
lease_calls_new = (refl, (refl, (tt, tt)))

lease_run-IsPaired_example : IsPaired (lease_run no_leases lease_calls)
lease_run-IsPaired_example =
    lease_run-IsPaired no_leases lease_calls lease_calls_new no_leases-IsPaired

abbrev leased : RuntimeLeaseManager
leased = lease_run no_leases lease_calls

abbrev second_lease : RuntimeLease
second_lease = new_lease 50 "l2" "a" no_leases

found_second : (get_agent_lease 70 "a" leased).1 ≡ some second_lease
unfolding lease_run lease_step acquire_lease expire_leases expire_each expire_one replace_lease
    Map.get Map.set Map.delete Map.keys get_agent_lease
found_second = refl
