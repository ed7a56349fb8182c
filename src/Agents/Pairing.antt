-- ===== src/Agents/Pairing.antt =====
-- The operations of packages/core/src/multi-agent/leases.ts on the leases and the index by agent.
use gyges_research_layer.Base.{
  ℕ, ◌<◌, ◌≡◌, ◌↔◌, ◌⊎◌, false, String, str_eq, eq_iff, List, [], ◌∷◌, Option, none, some, arith,
  inl, inr, leb, Bool-cases, Option-cases,
}
use gyges_research_layer.Base.Map
use gyges_research_layer.Base.Map.{Map, elem, map_option}
use gyges_research_layer.Agents.Registry.{RuntimeLease}
use gyges_research_layer.Agents.Leases.{
  RuntimeLeaseManager, detach, release_lease, expire_one, expire_each, expire_leases, new_lease,
  replace_lease,
}

-- The agent that holds the lease of an id.
abbrev pub holder_of : String → RuntimeLeaseManager → Option String
holder_of id m = map_option (λ l. l.holder_agent_id) (Map.get id m.leases)

-- The leases and the index by agent are inverse to one another.
abbrev pub IsPaired : RuntimeLeaseManager → Type 0
IsPaired m = (id a : String) → (holder_of id m ≡ some a) ↔ (Map.get a m.agent_lease_index ≡ some id)

detach-IsPaired :
    (now : ℕ) (id : String) (l : RuntimeLease) (m : RuntimeLeaseManager)
    → Map.get id m.leases ≡ some l
    → IsPaired m
    → IsPaired (detach now id l m)
unfolding detach
detach-IsPaired now id l m h p j a = ground (
  arith,
  h,
  p j a,
  p id l.holder_agent_id,
  p j l.holder_agent_id,
  p id a,
  eq_iff id j,
  eq_iff l.holder_agent_id a,
  Map.get-delete id j m.leases,
  Map.get-delete l.holder_agent_id a m.agent_lease_index,
)

pub release_lease-IsPaired :
    (now : ℕ) (id : String) (m : RuntimeLeaseManager)
    → IsPaired m
    → IsPaired (release_lease now id m)
unfolding release_lease
release_lease-IsPaired now id m p = elim (Option-cases (Map.get id m.leases)) [
  | inl e ↦ rw (e, release_lease) p
  | inr (l, e) ↦ rw (e, release_lease) (detach-IsPaired now id l m e p)
]

expire_one-IsPaired :
    (now : ℕ) (id : String) (m : RuntimeLeaseManager) → IsPaired m → IsPaired (expire_one now id m)
unfolding expire_one
expire_one-IsPaired now id m p = elim (Option-cases (Map.get id m.leases)) [
  | inl e ↦ rw (expire_one, e) p
  | inr (l, e) ↦ elim (Bool-cases (leb l.expires_at now)) [
    | inl d ↦ rw (expire_one, e, d) (detach-IsPaired now id l m e p)
    | inr d ↦ rw (expire_one, e, d) p
  ]
]

expire_each-IsPaired :
    (now : ℕ) (ids : List String) (m : RuntimeLeaseManager)
    → IsPaired m
    → IsPaired (expire_each now ids m)
unfolding expire_each
expire_each-IsPaired now [] m p = p
expire_each-IsPaired now (id ∷ ids) m p =
    expire_each-IsPaired now ids (expire_one now id m) (expire_one-IsPaired now id m p)

pub expire_leases-IsPaired :
    (now : ℕ) (m : RuntimeLeaseManager) → IsPaired m → IsPaired (expire_leases now m)
unfolding expire_leases
expire_leases-IsPaired now m = expire_each-IsPaired now (Map.keys m.leases) m

-- What expiry leaves was there before.
expire_one-get :
    (now : ℕ) (id j : String) (l : RuntimeLease) (m : RuntimeLeaseManager)
    → Map.get j (expire_one now id m).leases ≡ some l
    → (Map.get j m.leases ≡ some l) × ((str_eq id j ≡ false) ⊎ (now < l.expires_at))
unfolding expire_one detach
expire_one-get now id j l m h = elim (Option-cases (Map.get id m.leases)) [
  | inl e ↦ ground (arith, e, h, eq_iff id j)
  | inr (k, e) ↦ ground (arith, e, h, eq_iff id j, Map.get-delete id j m.leases)
]

expire_each-get :
    (now : ℕ) (ids : List String) (j : String) (l : RuntimeLease) (m : RuntimeLeaseManager)
    → Map.get j (expire_each now ids m).leases ≡ some l
    → (Map.get j m.leases ≡ some l) × ((elem j ids ≡ false) ⊎ (now < l.expires_at))
unfolding expire_each elem
expire_each-get now [] j l m h = ground (arith, h)
expire_each-get now (id ∷ ids) j l m h =
    let later = expire_each-get now ids j l (expire_one now id m) h in
    let first = expire_one-get now id j l m later.0 in ground (arith, later, first, eq_iff id j)

-- After expiry every lease that is stored is one from before, and is not over.
pub expire_leases-get :
    (now : ℕ) (j : String) (l : RuntimeLease) (m : RuntimeLeaseManager)
    → Map.get j (expire_leases now m).leases ≡ some l
    → (Map.get j m.leases ≡ some l) × (now < l.expires_at)
unfolding expire_leases
expire_leases-get now j l m h =
    let found = expire_each-get now (Map.keys m.leases) j l m h in
    ground (arith, found, Map.elem-keys j l m.leases found.0)

pub replace_lease-IsPaired :
    (now : ℕ) (id agent : String) (m : RuntimeLeaseManager)
    → Map.get id m.leases ≡ none
    → IsPaired m
    → IsPaired (replace_lease now id agent m)
unfolding replace_lease
replace_lease-IsPaired now id agent m f p j a =
    elim (Option-cases (Map.get agent m.agent_lease_index)) [
      | inl e ↦ ground (
        arith,
        e,
        f,
        p j a,
        p id a,
        p j agent,
        eq_iff id j,
        eq_iff agent a,
        Map.get-set id j (new_lease now id agent m) m.leases,
        Map.get-set agent a id m.agent_lease_index,
      )
      | inr (i, e) ↦ ground (
        arith,
        e,
        f,
        p j a,
        p id a,
        p j agent,
        p i agent,
        p i a,
        eq_iff id j,
        eq_iff i j,
        eq_iff agent a,
        Map.get-delete i j m.leases,
        Map.get-set id j (new_lease now id agent m) (Map.delete i m.leases),
        Map.get-set agent a id m.agent_lease_index,
      )
    ]

stays_live :
    (now : ℕ) (id : String) (l : RuntimeLease) (m : RuntimeLeaseManager)
    → Map.get id m.leases ≡ some l
    → now < l.expires_at
    → (j : String) → Map.get id (expire_one now j m).leases ≡ some l
unfolding expire_one detach
stays_live now id l m h t j = elim (Option-cases (Map.get j m.leases)) [
  | inl e ↦ ground (arith, e, h)
  | inr (k, e) ↦ ground (arith, e, h, t, eq_iff j id, Map.get-delete j id m.leases)
]

expire_each-live :
    (now : ℕ) (ids : List String) (id : String) (l : RuntimeLease) (m : RuntimeLeaseManager)
    → Map.get id m.leases ≡ some l
    → now < l.expires_at
    → Map.get id (expire_each now ids m).leases ≡ some l
unfolding expire_each
expire_each-live now [] id l m h t = h
expire_each-live now (j ∷ ids) id l m h t =
    expire_each-live now ids id l (expire_one now j m) (stays_live now id l m h t j) t

pub expire_leases-live :
    (now : ℕ) (id : String) (l : RuntimeLease) (m : RuntimeLeaseManager)
    → Map.get id m.leases ≡ some l
    → now < l.expires_at
    → Map.get id (expire_leases now m).leases ≡ some l
unfolding expire_leases
expire_leases-live now id l m = expire_each-live now (Map.keys m.leases) id l m
