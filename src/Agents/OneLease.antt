-- ===== src/Agents/OneLease.antt =====
-- The leases of packages/core/src/multi-agent/leases.ts: one for each agent, and none that is over.
use gyges_research_layer.Base.{
  ℕ, ◌<◌, ◌≡◌, String, List, [], ◌∷◌, none, some, arith, inl, inr, Option-cases,
}
use gyges_research_layer.Base.Map
use gyges_research_layer.Base.Map.{Map, elem, map_option}
use gyges_research_layer.Agents.Registry.{RuntimeLease, AgentRegistry}
use gyges_research_layer.Agents.Leases.{
  RuntimeLeaseManager, release_lease, expire_leases, acquire_lease, get_agent_lease,
}
use gyges_research_layer.Agents.Pairing.{
  IsPaired, release_lease-IsPaired, expire_leases-IsPaired, replace_lease-IsPaired,
  expire_leases-get,
}

-- The calls of the lease manager, and any change of the shared registry by another manager.
pub data LeaseCall : Type 0 where
  acquires : String → String → LeaseCall
  releases : String → LeaseCall
  expires : LeaseCall
  looks_up : String → LeaseCall
  changes_registry : AgentRegistry → LeaseCall

unfoldable pub lease_step : RuntimeLeaseManager → ℕ × LeaseCall → RuntimeLeaseManager
lease_step m (now, acquires id agent) = (acquire_lease now id agent m).0
lease_step m (now, releases id) = release_lease now id m
lease_step m (now, expires) = expire_leases now m
lease_step m (now, looks_up agent) = (get_agent_lease now agent m).0
lease_step m (now, changes_registry g) = record m { registry = g }

unfoldable pub lease_run : RuntimeLeaseManager → List (ℕ × LeaseCall) → RuntimeLeaseManager
lease_run m [] = m
lease_run m (c ∷ cs) = lease_run (lease_step m c) cs

-- The id that a call draws is not that of a stored lease.
abbrev pub IsNewId : RuntimeLeaseManager → ℕ × LeaseCall → Type 0
IsNewId m (now, acquires id agent) = Map.get id m.leases ≡ none
IsNewId m _ = Unit

abbrev pub AllNewIds : RuntimeLeaseManager → List (ℕ × LeaseCall) → Type 0
AllNewIds m [] = Unit
AllNewIds m (c ∷ cs) = IsNewId m c × AllNewIds (lease_step m c) cs

expire_leases-none :
    (now : ℕ) (id : String) (m : RuntimeLeaseManager)
    → Map.get id m.leases ≡ none
    → Map.get id (expire_leases now m).leases ≡ none
expire_leases-none now id m h = elim (Option-cases (Map.get id (expire_leases now m).leases)) [
  | inl e ↦ e
  | inr (l, e) ↦ absurd (ground (arith, h, (expire_leases-get now id l m e).0))
]

lease_step-IsPaired :
    (m : RuntimeLeaseManager) (c : ℕ × LeaseCall)
    → IsNewId m c
    → IsPaired m
    → IsPaired (lease_step m c)
unfolding lease_step acquire_lease get_agent_lease
lease_step-IsPaired m (now, acquires id agent) f p =
    replace_lease-IsPaired now id agent (expire_leases now m) (expire_leases-none now id m f)
      (expire_leases-IsPaired now m p)
lease_step-IsPaired m (now, releases id) f p = release_lease-IsPaired now id m p
lease_step-IsPaired m (now, expires) f p = expire_leases-IsPaired now m p
lease_step-IsPaired m (now, looks_up agent) f p = expire_leases-IsPaired now m p
lease_step-IsPaired m (now, changes_registry g) f p = p

-- If the ids drawn are new, the leases and the index by agent stay inverse to one another over all
-- calls, whatever the other managers do to the registry: every agent holds one lease at most.
pub lease_run-IsPaired :
    (m : RuntimeLeaseManager) (cs : List (ℕ × LeaseCall))
    → AllNewIds m cs
    → IsPaired m
    → IsPaired (lease_run m cs)
unfolding lease_run
lease_run-IsPaired m [] f p = p
lease_run-IsPaired m (c ∷ cs) f p =
    lease_run-IsPaired (lease_step m c) cs f.1 (lease_step-IsPaired m c f.0 p)

-- The lease that is looked up for an agent, where there is one, is held by that agent and not over.
pub get_agent_lease_lem :
    (now : ℕ) (agent : String) (m : RuntimeLeaseManager) (l : RuntimeLease)
    → IsPaired m
    → (get_agent_lease now agent m).1 ≡ some l
    → (l.holder_agent_id ≡ agent) × (now < l.expires_at)
unfolding get_agent_lease
get_agent_lease_lem now agent m l p h =
    let m' = expire_leases now m in
    elim (Option-cases (Map.get agent m'.agent_lease_index)) [
      | inl e ↦ absurd (ground (arith, e, h))
      | inr (id, e) ↦
          let found : Map.get id m'.leases ≡ some l = ground (arith, e, h) in
          let held = (expire_leases-IsPaired now m p id agent).1 e in
          (ground (arith, found, held), (expire_leases-get now id l m found).1)
    ]
