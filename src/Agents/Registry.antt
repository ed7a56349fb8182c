-- ===== src/Agents/Registry.antt =====
-- packages/core/src/multi-agent/types.ts and registry.ts: the runtimes of the registered agents.
use gyges_research_layer.Base.{
  ℕ, min, Bool, true, false, String, List, [], ◌∷◌, ◌++◌, Option, none, some, if◌then◌else◌,
  or_else,
}
use gyges_research_layer.Base.Int.{ℤ, pos_part}
use gyges_research_layer.Base.Map
use gyges_research_layer.Base.Map.{Map, elem}

pub data AgentStatus : Type 0 where
  active idle restricted quarantined evicted : AgentStatus

pub record AgentQuota : Type 0 where
  pub max_concurrent_executions : ℕ
  pub max_sessions : ℕ
  pub max_approvals_pending : ℕ
  pub max_audit_events : ℕ
  pub max_incidents : ℕ

pub record RuntimeLease : Type 0 where
  pub id : String
  pub acquired_at : ℕ
  pub expires_at : ℕ
  pub renewable : Bool
  pub holder_agent_id : String

pub record AgentRuntime : Type 0 where
  pub agent_id : String
  pub created_at : ℕ
  pub updated_at : ℕ
  pub status : AgentStatus
  pub compartments : List String
  pub trust_score : ℕ
  pub active_sessions : ℕ
  pub active_executions : ℕ
  pub quota : AgentQuota
  pub lease : Option RuntimeLease

abbrev pub default_agent_quota : AgentQuota
default_agent_quota = record {
  max_concurrent_executions = 5;
  max_sessions = 10;
  max_approvals_pending = 5;
  max_audit_events = 1000;
  max_incidents = 50;
}

abbrev pub initial_agent_trust_score : ℕ
initial_agent_trust_score = 70

abbrev pub agent_restricted_threshold : ℕ
agent_restricted_threshold = 40

abbrev pub agent_quarantined_threshold : ℕ
agent_quarantined_threshold = 20

pub record AgentRegistry : Type 0 where
  pub runtimes : Map AgentRuntime
  pub default_quota : AgentQuota

abbrev pub is_evicted : AgentStatus → Bool
is_evicted evicted = true
is_evicted _ = false

unfoldable pub new_runtime : ℕ → String → AgentQuota → AgentRuntime
new_runtime now id quota = record {
  agent_id = id;
  created_at = now;
  updated_at = now;
  status = idle;
  compartments = [];
  trust_score = initial_agent_trust_score;
  active_sessions = 0;
  active_executions = 0;
  quota = quota;
  lease = none;
}

unfoldable pub register_agent : ℕ → String → AgentRegistry → AgentRegistry × AgentRuntime
unfolding new_runtime
register_agent now id g = elim (Map.get id g.runtimes) [
  | some r ↦ (g, r)
  | none ↦ (
    record g { runtimes = Map.set id (new_runtime now id g.default_quota) g.runtimes },
    new_runtime now id g.default_quota,
  )
]

abbrev pub get_agent : String → AgentRegistry → Option AgentRuntime
get_agent id g = Map.get id g.runtimes

unfoldable pub list_agents : AgentRegistry → List AgentRuntime
unfolding Map.values
list_agents g = Map.values g.runtimes

-- A field of the update that is not given is `none`; `lease` tells a missing key from `undefined`.
pub record AgentUpdate : Type 0 where
  pub status : Option AgentStatus
  pub compartments : Option (List String)
  pub trust_score : Option ℤ
  pub active_sessions : Option ℤ
  pub active_executions : Option ℤ
  pub lease : Option (Option RuntimeLease)

abbrev pub no_update : AgentUpdate
no_update = record {
  status = none;
  compartments = none;
  trust_score = none;
  active_sessions = none;
  active_executions = none;
  lease = none;
}

-- `Math.max(0, x)` is `pos_part x`.
unfoldable pub updated : ℕ → AgentUpdate → AgentRuntime → AgentRuntime
updated now u r = record r {
  status = or_else u.status r.status;
  compartments = or_else u.compartments r.compartments;
  trust_score = or_else (Map.map_option (λ t. min 100 (pos_part t)) u.trust_score) r.trust_score;
  active_sessions = or_else (Map.map_option pos_part u.active_sessions) r.active_sessions;
  active_executions = or_else (Map.map_option pos_part u.active_executions) r.active_executions;
  lease = or_else u.lease r.lease;
  updated_at = now;
}

-- A call that changes the runtime of a registered agent, and returns it.
abbrev pub change :
    (AgentRuntime → AgentRuntime) → String → AgentRegistry → AgentRegistry × Option AgentRuntime
change f id g =
    (record g { runtimes = Map.modify id f g.runtimes }, Map.map_option f (get_agent id g))

unfoldable pub update_agent :
    ℕ → String → AgentUpdate → AgentRegistry → AgentRegistry × Option AgentRuntime
unfolding updated
update_agent now id u g = change (updated now u) id g

unfoldable pub evict : ℕ → AgentRuntime → AgentRuntime
evict now r = record r {
  status = evicted;
  active_executions = 0;
  active_sessions = 0;
  lease = none;
  updated_at = now;
}

unfoldable pub evict_agent : ℕ → String → AgentRegistry → AgentRegistry × Option AgentRuntime
unfolding evict
evict_agent now id g = change (evict now) id g

-- `restrictAgent` and `quarantineAgent`: an evicted agent is left alone.
unfoldable pub demote : AgentStatus → ℕ → AgentRuntime → AgentRuntime
demote s now r = if is_evicted r.status then r else record r { status = s; updated_at = now }

unfoldable pub restrict_agent : ℕ → String → AgentRegistry → AgentRegistry × Option AgentRuntime
unfolding demote
restrict_agent now id g = change (demote restricted now) id g

unfoldable pub quarantine_agent : ℕ → String → AgentRegistry → AgentRegistry × Option AgentRuntime
unfolding demote
quarantine_agent now id g = change (demote quarantined now) id g

unfoldable pub with_compartment : ℕ → String → AgentRuntime → AgentRuntime
unfolding elem
with_compartment now cid r =
    if elem cid r.compartments
    then r
    else record r { compartments = r.compartments ++ cid ∷ []; updated_at = now }

unfoldable pub add_compartment :
    ℕ → String → String → AgentRegistry → AgentRegistry × Option AgentRuntime
unfolding with_compartment
add_compartment now id cid g = change (with_compartment now cid) id g

unfoldable pub clear : AgentRegistry → AgentRegistry
clear g = record g { runtimes = [] }
