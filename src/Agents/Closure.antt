-- ===== src/Agents/Closure.antt =====
-- The calls of packages/core/src/multi-agent but `updateAgent` and `clear` write to the registry in
-- eight ways: a property that each of them keeps is kept by the calls.
use gyges_research_layer.Base.{
  ℕ, Bool, true, false, ◌≡◌, ◌≢◌, String, some, inl, inr, Option-cases, if◌then◌else◌,
}
use gyges_research_layer.Base.Int.{ℤ}
use gyges_research_layer.Base.Map.{Map}
use gyges_research_layer.Agents.Registry.{
  AgentStatus, active, idle, restricted, quarantined, evicted, AgentRuntime, AgentRegistry,
  get_agent, update_agent, updated, restrict_agent, quarantine_agent, demote, evict, evict_agent,
  register_agent, with_compartment, add_compartment, change, no_update,
}
use gyges_research_layer.Agents.Quotas.{
  AgentQuotaManager, record_execution_start, record_execution_end, start_update, end_update,
  record_violation, record_session_created, record_session_closed, clear_violations,
}
use gyges_research_layer.Agents.Isolation.{
  AgentIsolationDecision, check_isolation, check_status, check_trust, propagate_compartment_trust,
  propagate, degrade_trust, degrade, agent_trust, trust_update, Tally,
}
use gyges_research_layer.Agents.Runtime.{
  Call, registers, updates, evicts, restricts, quarantines, adds_compartment, starts, ends,
  violates, opens_session, closes_session, checks, propagates, degrades, clears, clears_violations,
  step,
}

-- A property of the registry that every write to it keeps.
pub record Closed (P : AgentRegistry → Type 0) : Type 0 where
  pub demotes :
      (s : AgentStatus) (now : ℕ) (id : String) (g : AgentRegistry)
      → s ≢ active
      → s ≢ idle
      → P g
      → P (change (demote s now) id g).0
  pub scores :
      (now t : ℕ) (id : String) (g : AgentRegistry)
      → P g
      → P (change (updated now (trust_update t)) id g).0
  pub evictions : (now : ℕ) (id : String) (g : AgentRegistry) → P g → P (change (evict now) id g).0
  pub visits :
      (now : ℕ) (cid id : String) (g : AgentRegistry)
      → P g
      → P (change (with_compartment now cid) id g).0
  pub enlists : (now : ℕ) (id : String) (g : AgentRegistry) → P g → P (register_agent now id g).0
  pub begins :
      (now : ℕ) (id : String) (g : AgentRegistry) (r : AgentRuntime)
      → get_agent id g ≡ some r
      → P g
      → P (change (updated now (start_update r)) id g).0
  pub finishes :
      (now : ℕ) (id : String) (g : AgentRegistry) (r : AgentRuntime)
      → get_agent id g ≡ some r
      → P g
      → P (change (updated now (end_update r)) id g).0
  pub sessions :
      (now : ℕ) (n : ℤ) (id : String) (g : AgentRegistry)
      → P g
      → P (change (updated now (record no_update { active_sessions = some n })) id g).0

if_either : {A : Type 0} (P : A → Type 0) (b : Bool) (x y : A) → P x → P y → P (if b then x else y)
if_either P true x y hx hy = hx
if_either P false x y hx hy = hy

module _ (P : AgentRegistry → Type 0) (k : Closed P) (now : ℕ) (id : String) (g : AgentRegistry)
    (a : P g) where
  restrict_agent-P : P (restrict_agent now id g).0
  unfolding restrict_agent
  restrict_agent-P = k.demotes restricted now id g (λ x. cc) (λ x. cc) a

  quarantine_agent-P : P (quarantine_agent now id g).0
  unfolding quarantine_agent
  quarantine_agent-P = k.demotes quarantined now id g (λ x. cc) (λ x. cc) a

  trust_update-P : (t : ℕ) → P (update_agent now id (trust_update t) g).0
  unfolding update_agent
  trust_update-P t = k.scores now t id g a

  evict_agent-P : P (evict_agent now id g).0
  unfolding evict_agent
  evict_agent-P = k.evictions now id g a

  add_compartment-P : (cid : String) → P (add_compartment now id cid g).0
  unfolding add_compartment
  add_compartment-P cid = k.visits now cid id g a

module _ (P : AgentRegistry → Type 0) (k : Closed P) (now : ℕ) (id : String) (g : AgentRegistry)
    (a : P g) where
  degrade-P : (r : AgentRuntime) (score : ℕ) → P (degrade now id r score g)
  unfolding degrade
  degrade-P r score =
      let b = trust_update-P P k now id g a score in
      if_either P _ _ _ (quarantine_agent-P P k now id _ b)
        (if_either P _ _ _ (restrict_agent-P P k now id _ b) b)

  degrade_trust-P : (delta : ℤ) → P (degrade_trust now id delta g).0
  unfolding degrade_trust
  degrade_trust-P delta = elim (Option-cases (get_agent id g)) [
    | inl e ↦ rw (e, degrade_trust) a
    | inr (r, e) ↦
        rw (e, degrade_trust) (if_either (λ (x : AgentRegistry × ℕ). P x.0) _ _ _ a (degrade-P r _))
  ]

  propagate-P :
      (threshold : ℕ) (r : AgentRuntime) (t : Tally) → P (propagate now threshold id r t g)
  unfolding propagate
  propagate-P threshold r t =
      let b = trust_update-P P k now id g a (agent_trust r t) in
      let c = if_either P _ _ _ (restrict_agent-P P k now id _ b) b in
      if_either P _ _ _ (quarantine_agent-P P k now id _ c) c

  propagate_compartment_trust-P :
      (threshold : ℕ) (scores : Map ℕ) → P (propagate_compartment_trust now threshold id scores g)
  unfolding propagate_compartment_trust
  propagate_compartment_trust-P threshold scores = elim (Option-cases (get_agent id g)) [
    | inl e ↦ rw (e, propagate_compartment_trust) a
    | inr (r, e) ↦
        rw (e, propagate_compartment_trust) (if_either P _ _ _ a (propagate-P threshold r _))
  ]

  check_trust-P : (r : AgentRuntime) → P (check_trust now id r g).0
  unfolding check_trust
  check_trust-P r =
      if_either (λ (x : AgentRegistry × AgentIsolationDecision). P x.0) _ _ _
        (quarantine_agent-P P k now id g a)
        (if_either (λ (x : AgentRegistry × AgentIsolationDecision). P x.0) _ _ _
          (restrict_agent-P P k now id g a) a)

  check_status-P : (s : AgentStatus) (r : AgentRuntime) → P (check_status s now id r g).0
  unfolding check_status
  check_status-P active r = check_trust-P r
  check_status-P idle r = check_trust-P r
  check_status-P restricted r = a
  check_status-P quarantined r = a
  check_status-P evicted r = a

  check_isolation-P : P (check_isolation now id g).0
  unfolding check_isolation
  check_isolation-P = elim (Option-cases (get_agent id g)) [
    | inl e ↦ rw (e, check_isolation) a
    | inr (r, e) ↦ rw (e, check_isolation) (check_status-P r.status r)
  ]

module _ (P : AgentRegistry → Type 0) (k : Closed P) (now : ℕ) (id : String) (q : AgentQuotaManager)
    (a : P q.registry) where
  record_execution_start-P : P (record_execution_start now id q).registry
  unfolding record_execution_start update_agent
  record_execution_start-P = elim (Option-cases (get_agent id q.registry)) [
    | inl e ↦ rw (e, record_execution_start) a
    | inr (r, e) ↦ rw (e, record_execution_start) (k.begins now id q.registry r e a)
  ]

  record_execution_end-P : P (record_execution_end now id q).registry
  unfolding record_execution_end update_agent
  record_execution_end-P = elim (Option-cases (get_agent id q.registry)) [
    | inl e ↦ rw (e, record_execution_end) a
    | inr (r, e) ↦ rw (e, record_execution_end) (k.finishes now id q.registry r e a)
  ]

  sessions-P :
      (n : ℤ) → P (update_agent now id (record no_update { active_sessions = some n }) q.registry).0
  unfolding update_agent
  sessions-P n = k.sessions now n id q.registry a

  record_session_created-P : P (record_session_created now id q).registry
  unfolding record_session_created
  record_session_created-P = elim (Option-cases (get_agent id q.registry)) [
    | inl e ↦ rw (e, record_session_created) a
    | inr (r, e) ↦ rw (e, record_session_created) (sessions-P _)
  ]

  record_session_closed-P : P (record_session_closed now id q).registry
  unfolding record_session_closed
  record_session_closed-P = elim (Option-cases (get_agent id q.registry)) [
    | inl e ↦ rw (e, record_session_closed) a
    | inr (r, e) ↦ rw (e, record_session_closed) (sessions-P _)
  ]

  record_violation-P : P (record_violation now id q).0.registry
  unfolding record_violation
  record_violation-P =
      if_either (λ (x : AgentQuotaManager × Bool). P x.0.registry) _ _ _
        (restrict_agent-P P k now id q.registry a) a

-- The calls that write to the runtimes as the code of the runtime does: all but `updateAgent`, which
-- writes what its caller gives, and `clear`.
abbrev pub IsGoverned : ℕ × Call → Type 0
IsGoverned (now, updates id u) = ⊥
IsGoverned (now, clears) = ⊥
IsGoverned c = Unit

-- A property that every write keeps is kept by every governed call.
pub step-Closed :
    (P : AgentRegistry → Type 0) (q : AgentQuotaManager) (c : ℕ × Call)
    → Closed P
    → IsGoverned c
    → P q.registry
    → P (step q c).registry
unfolding step
step-Closed P q (now, registers id) k n a = k.enlists now id q.registry a
step-Closed P q (now, updates id u) k n a = absurd n
step-Closed P q (now, evicts id) k n a = evict_agent-P P k now id q.registry a
step-Closed P q (now, restricts id) k n a = restrict_agent-P P k now id q.registry a
step-Closed P q (now, quarantines id) k n a = quarantine_agent-P P k now id q.registry a
step-Closed P q (now, adds_compartment id cid) k n a = add_compartment-P P k now id q.registry a cid
step-Closed P q (now, starts id) k n a = record_execution_start-P P k now id q a
step-Closed P q (now, ends id) k n a = record_execution_end-P P k now id q a
step-Closed P q (now, violates id) k n a = record_violation-P P k now id q a
step-Closed P q (now, opens_session id) k n a = record_session_created-P P k now id q a
step-Closed P q (now, closes_session id) k n a = record_session_closed-P P k now id q a
step-Closed P q (now, checks id) k n a = check_isolation-P P k now id q.registry a
step-Closed P q (now, propagates threshold id scores) k n a =
    propagate_compartment_trust-P P k now id q.registry a threshold scores
step-Closed P q (now, degrades id delta) k n a = degrade_trust-P P k now id q.registry a delta
step-Closed P q (now, clears) k n a = absurd n
step-Closed P q (now, clears_violations) k n a = unfold clear_violations in a
