-- ===== src/Agents/Isolation.antt =====
-- packages/core/src/multi-agent/isolation.ts: isolation of agents by status and trust. The text of a
-- denial's reason is kept as data.
use gyges_research_layer.Base.{
  ℕ, ◌+◌, ◌-◌, ◌*◌, ◌/◌, Bool, true, false, not, ◌&&◌, String, List, [], ◌∷◌, Option, none, some,
  ltb, leb, if◌then◌else◌,
}
use gyges_research_layer.Base.Int.{ℤ, pos, pos_part, neg_part}
use gyges_research_layer.Base.Map
use gyges_research_layer.Base.Map.{Map}
use gyges_research_layer.Agents.Registry.{
  AgentStatus, active, idle, restricted, quarantined, evicted, AgentRuntime, AgentRegistry,
  AgentUpdate, no_update, is_evicted, get_agent, update_agent, restrict_agent, quarantine_agent,
  agent_restricted_threshold, agent_quarantined_threshold,
}

pub data Denial : Type 0 where
  not_registered is_evicted_agent is_quarantined is_restricted trust_quarantine trust_restriction :
      Denial

pub record AgentIsolationDecision : Type 0 where
  pub allowed : Bool
  pub reason : Option Denial
  pub requires_eviction : Option Bool
  pub requires_restriction : Option Bool

abbrev pub deny : Denial → AgentIsolationDecision
deny d = record {
  allowed = false;
  reason = some d;
  requires_eviction = none;
  requires_restriction = none;
}

abbrev pub deny_restricted : Denial → AgentIsolationDecision
deny_restricted d = record {
  allowed = false;
  reason = some d;
  requires_eviction = none;
  requires_restriction = some true;
}

-- The part of `checkIsolation` below the tests of the status.
unfoldable pub check_trust :
    ℕ → String → AgentRuntime → AgentRegistry → AgentRegistry × AgentIsolationDecision
check_trust now id r g =
    if ltb r.trust_score agent_quarantined_threshold
    then (
      (quarantine_agent now id g).0,
      record {
        allowed = false;
        reason = some trust_quarantine;
        requires_eviction = some false;
        requires_restriction = none;
      },
    )
    else if ltb r.trust_score agent_restricted_threshold
    then ((restrict_agent now id g).0, deny_restricted trust_restriction)
    else (
      g,
      record {
        allowed = true;
        reason = none;
        requires_eviction = none;
        requires_restriction = none;
      },
    )

unfoldable pub check_status :
    AgentStatus → ℕ → String → AgentRuntime → AgentRegistry → AgentRegistry × AgentIsolationDecision
check_status evicted now id r g = (g, deny is_evicted_agent)
check_status quarantined now id r g = (g, deny is_quarantined)
check_status restricted now id r g = (g, deny_restricted is_restricted)
check_status active now id r g = check_trust now id r g
check_status idle now id r g = check_trust now id r g

unfoldable pub check_isolation : ℕ → String → AgentRegistry → AgentRegistry × AgentIsolationDecision
check_isolation now id g = elim (get_agent id g) [
  | none ↦ (g, deny not_registered)
  | some r ↦ check_status r.status now id r g
]

-- The sums of the loop of `propagateCompartmentTrust`.
pub record Tally : Type 0 where
  pub quarantined_count : ℕ
  pub score_sum : ℕ
  pub scored_count : ℕ

unfoldable pub tally : List String → Map ℕ → Tally → Tally
tally [] scores t = t
tally (c ∷ cs) scores t = tally cs scores (elim (Map.get c scores) [
  | none ↦ t
  | some s ↦ record {
    quarantined_count =
        if ltb s agent_quarantined_threshold then t.quarantined_count + 1 else t.quarantined_count;
    score_sum = t.score_sum + s;
    scored_count = t.scored_count + 1;
  }
])

-- `Math.round(sum / count)`, which rounds halves up.
unfoldable pub round_div : ℕ → ℕ → ℕ
round_div sum count = (2 * sum + count) / (2 * count)

unfoldable pub agent_trust : AgentRuntime → Tally → ℕ
agent_trust r t =
    if ltb 0 t.scored_count then round_div t.score_sum t.scored_count else r.trust_score

abbrev pub is_demoted : AgentStatus → Bool
is_demoted restricted = true
is_demoted quarantined = true
is_demoted _ = false

abbrev pub trust_update : ℕ → AgentUpdate
trust_update t = record no_update { trust_score = some (pos t) }

-- `propagateCompartmentTrust` for the runtime `r`, with the sums of its loop.
unfoldable pub propagate : ℕ → ℕ → String → AgentRuntime → Tally → AgentRegistry → AgentRegistry
propagate now threshold id r t g =
    let trust = agent_trust r t in
    let g₁ = (update_agent now id (trust_update trust) g).0 in
    let g₂ =
      if leb threshold t.quarantined_count && not (is_demoted r.status)
      then (restrict_agent now id g₁).0
      else g₁ in
    if ltb trust agent_quarantined_threshold then (quarantine_agent now id g₂).0 else g₂

abbrev pub no_tally : Tally
no_tally = record { quarantined_count = 0; score_sum = 0; scored_count = 0 }

unfoldable pub propagate_compartment_trust : ℕ → ℕ → String → Map ℕ → AgentRegistry → AgentRegistry
propagate_compartment_trust now threshold id scores g = elim (get_agent id g) [
  | none ↦ g
  | some r ↦
      if is_evicted r.status
      then g
      else propagate now threshold id r (tally r.compartments scores no_tally) g
]

abbrev pub is_quarantined_status : AgentStatus → Bool
is_quarantined_status quarantined = true
is_quarantined_status _ = false

-- `degradeTrust` for the runtime `r`, whose new score is given; `Math.abs(delta)` has been taken off.
unfoldable pub degrade : ℕ → String → AgentRuntime → ℕ → AgentRegistry → AgentRegistry
degrade now id r score g =
    let g₁ = (update_agent now id (trust_update score) g).0 in
    if ltb score agent_quarantined_threshold
    then (quarantine_agent now id g₁).0
    else if ltb score agent_restricted_threshold && not (is_quarantined_status r.status)
    then (restrict_agent now id g₁).0
    else g₁

unfoldable pub degrade_trust : ℕ → String → ℤ → AgentRegistry → AgentRegistry × ℕ
degrade_trust now id delta g = elim (get_agent id g) [
  | none ↦ (g, 0)
  | some r ↦ if is_evicted r.status then (g, r.trust_score) else (
    degrade now id r (r.trust_score - (pos_part delta + neg_part delta)) g,
    r.trust_score - (pos_part delta + neg_part delta),
  )
]
