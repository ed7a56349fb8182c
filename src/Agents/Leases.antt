-- ===== src/Agents/Leases.antt =====
-- packages/core/src/multi-agent/leases.ts: leases by id, the lease of each agent, and the copy that the
-- registry keeps of it. The registry is shared with the other managers. The loop of `expireLeases` walks
-- the ids in their order and skips those that are gone.
use gyges_research_layer.Base.{
  ℕ, ◌+◌, Bool, String, List, [], ◌∷◌, Option, none, some, leb, if◌then◌else◌,
}
use gyges_research_layer.Base.Map
use gyges_research_layer.Base.Map.{Map, elem, map_option}
use gyges_research_layer.Agents.Registry.{
  RuntimeLease, AgentRegistry, AgentUpdate, no_update, update_agent,
}

pub record RuntimeLeaseManager : Type 0 where
  pub registry : AgentRegistry
  pub lease_ttl_ms : ℕ
  pub renewable : Bool
  pub leases : Map RuntimeLease
  pub agent_lease_index : Map String

abbrev pub lease_update : Option RuntimeLease → AgentUpdate
lease_update l = record no_update { lease = some l }

-- The lease is deleted and detached from the runtime of its holder.
unfoldable pub detach : ℕ → String → RuntimeLease → RuntimeLeaseManager → RuntimeLeaseManager
detach now id l m = record m {
  registry = (update_agent now l.holder_agent_id (lease_update none) m.registry).0;
  leases = Map.delete id m.leases;
  agent_lease_index = Map.delete l.holder_agent_id m.agent_lease_index;
}

unfoldable pub release_lease : ℕ → String → RuntimeLeaseManager → RuntimeLeaseManager
release_lease now id m = elim (Map.get id m.leases) [ none ↦ m | some l ↦ detach now id l m ]

-- One turn of the loop.
unfoldable pub expire_one : ℕ → String → RuntimeLeaseManager → RuntimeLeaseManager
expire_one now id m = elim (Map.get id m.leases) [
  | none ↦ m
  | some l ↦ if leb l.expires_at now then detach now id l m else m
]

unfoldable pub expire_each : ℕ → List String → RuntimeLeaseManager → RuntimeLeaseManager
expire_each now [] m = m
expire_each now (id ∷ ids) m = expire_each now ids (expire_one now id m)

unfoldable pub expire_leases : ℕ → RuntimeLeaseManager → RuntimeLeaseManager
expire_leases now m = expire_each now (Map.keys m.leases) m

-- The leases without that of an agent.
abbrev pub without : Option String → Map RuntimeLease → Map RuntimeLease
without none ls = ls
without (some id) ls = Map.delete id ls

abbrev pub new_lease : ℕ → String → String → RuntimeLeaseManager → RuntimeLease
new_lease now id agent m = record {
  id = id;
  acquired_at = now;
  expires_at = now + m.lease_ttl_ms;
  renewable = m.renewable;
  holder_agent_id = agent;
}

-- What `acquireLease` does once the leases that are over have expired.
unfoldable pub replace_lease : ℕ → String → String → RuntimeLeaseManager → RuntimeLeaseManager
replace_lease now id agent m =
    let l = new_lease now id agent m in
    record m {
      registry = (update_agent now agent (lease_update (some l)) m.registry).0;
      leases = Map.set id l (without (Map.get agent m.agent_lease_index) m.leases);
      agent_lease_index = Map.set agent id m.agent_lease_index;
    }

-- The id is drawn by the manager and is an argument here.
unfoldable pub acquire_lease :
    ℕ → String → String → RuntimeLeaseManager → RuntimeLeaseManager × RuntimeLease
acquire_lease now id agent m =
    let m' = expire_leases now m in (replace_lease now id agent m', new_lease now id agent m')

unfoldable pub list_leases : ℕ → RuntimeLeaseManager → RuntimeLeaseManager × List RuntimeLease
list_leases now m = let m' = expire_leases now m in (m', Map.values m'.leases)

abbrev pub lease_of : Option String → Map RuntimeLease → Option RuntimeLease
lease_of none ls = none
lease_of (some id) ls = Map.get id ls

unfoldable pub get_agent_lease :
    ℕ → String → RuntimeLeaseManager → RuntimeLeaseManager × Option RuntimeLease
get_agent_lease now agent m =
    let m' = expire_leases now m in (m', lease_of (Map.get agent m'.agent_lease_index) m'.leases)
