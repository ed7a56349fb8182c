-- ===== src/Firewall/Decisions.antt =====
-- The requests that packages/core/src/policy-engine allows, and what its store keeps.
use gyges_research_layer.Base.{
  ℕ, ◌≡◌, ◌↔◌, Bool, true, false, not, ◌&&◌, String, str_eq, Option, none, some, Result, ok, err,
  is_ok, inl, inr, arith, is_some, if◌then◌else◌, Option-cases,
}
use gyges_research_layer.Base.Map
use gyges_research_layer.Base.Map.{Map}
use gyges_research_layer.Vocabulary.{CapabilityTool, RiskLevel}
use gyges_research_layer.Firewall.Sanitizer.{Text, Value, SanitizerOptions, sanitize_input}
use gyges_research_layer.Firewall.Clean.{IsClean}
use gyges_research_layer.Firewall.Policy.{
  CapabilityPolicy, CapabilityRequest, CapabilityDecision, StoreError, is_blank, policy_key, add,
  decide, evaluate_for, evaluate,
}
use gyges_research_layer.Firewall.Permits.{
  Permits, decide-Permits, sanitize_input-Clean, decide_input,
}

abbrev pub is_allowed : Result StoreError CapabilityDecision → Bool
is_allowed (ok d) = d.allowed
is_allowed (err e) = false

abbrev pub input_of : Result StoreError CapabilityDecision → Option Value
input_of (ok d) = d.sanitized_input
input_of (err e) = none

abbrev pub ok_or :
    Map CapabilityPolicy → Result StoreError (Map CapabilityPolicy) → Map CapabilityPolicy
ok_or m (ok n) = n
ok_or m (err e) = m

module _ (encode : Text → Option String) (serialized : Value → Option ℕ) where
  -- What a request needs to be allowed: an agent, a compartment, a tool and a risk level, and a policy
  -- stored for the agent and the compartment that permits it.
  pub record Grounds (o : SanitizerOptions) (m : Map CapabilityPolicy) (r : CapabilityRequest)
      : Type 0 where
    pub agent : Text
    pub compartment : Text
    pub tool : CapabilityTool
    pub risk : RiskLevel
    pub key : String
    pub policy : CapabilityPolicy
    pub has_agent : r.agent_id ≡ some agent
    pub agent_given : is_blank agent ≡ false
    pub has_compartment : r.compartment_id ≡ some compartment
    pub compartment_given : is_blank compartment ≡ false
    pub known_tool : r.tool ≡ some tool
    pub known_risk : r.risk_level ≡ some risk
    pub has_key : policy_key encode agent compartment ≡ some key
    pub stored : Map.get key m ≡ some policy
    pub permits : Permits serialized o tool risk r.input policy

  found-Grounds :
      (o : SanitizerOptions) (m : Map CapabilityPolicy) (r : CapabilityRequest) (a c : Text)
      → r.agent_id ≡ some a
      → is_blank a ≡ false
      → r.compartment_id ≡ some c
      → is_blank c ≡ false
      → is_allowed (evaluate_for encode serialized o m a c r) ≡ true
      → Grounds o m r
  unfolding evaluate_for
  found-Grounds o m r a c ea ba ec bc h = elim (Option-cases r.tool) [
    | inl e ↦ absurd (ground (arith, e, h))
    | inr (t, et) ↦ elim (Option-cases r.risk_level) [
      | inl e ↦ absurd (ground (arith, e, et, h))
      | inr (l, el) ↦ elim (Option-cases (policy_key encode a c)) [
        | inl e ↦ absurd (ground (arith, e, et, el, h))
        | inr (k, ek) ↦ elim (Option-cases (Map.get k m)) [
          | inl e ↦ absurd (unfold decide in ground (arith, e, et, el, ek, h))
          | inr (p, ep) ↦ record {
            agent = a;
            compartment = c;
            tool = t;
            risk = l;
            key = k;
            policy = p;
            has_agent = ea;
            agent_given = ba;
            has_compartment = ec;
            compartment_given = bc;
            known_tool = et;
            known_risk = el;
            has_key = ek;
            stored = ep;
            permits = decide-Permits serialized o t l r.input p (ground (arith, et, el, ek, ep, h));
          }
        ]
      ]
    ]
  ]

  evaluate-Grounds :
      (o : SanitizerOptions) (m : Map CapabilityPolicy) (r : CapabilityRequest)
      → is_allowed (evaluate encode serialized o m r) ≡ true
      → Grounds o m r
  unfolding evaluate
  evaluate-Grounds o m r h = elim (Option-cases r.agent_id) [
    | inl e ↦ absurd (ground (arith, e, h))
    | inr (a, ea) ↦ elim (Option-cases r.compartment_id) [
      | inl e ↦ absurd (ground (arith, e, ea, h))
      | inr (c, ec) ↦
          found-Grounds o m r a c ea (ground (arith, ea, h)) ec (ground (arith, ea, ec, h))
            (ground (arith, ea, ec, h))
    ]
  ]

  Grounds-evaluate :
      (o : SanitizerOptions) (m : Map CapabilityPolicy) (r : CapabilityRequest)
      → Grounds o m r
      → is_allowed (evaluate encode serialized o m r) ≡ true
  unfolding evaluate evaluate_for decide
  Grounds-evaluate o m r g =
      let p = g.permits in
      ground (
        arith, g.has_agent, g.agent_given, g.has_compartment, g.compartment_given, g.known_tool,
        g.known_risk, g.has_key, g.stored, p.permitted, p.within, p.sanitized,
      )

  -- A request is allowed exactly when its agent and compartment are given, its tool and risk level are
  -- known, the policy stored for the two permits the tool and a risk as high, and the sanitizer lets
  -- the input through.
  pub evaluate-Grounds_iff :
      (o : SanitizerOptions) (m : Map CapabilityPolicy) (r : CapabilityRequest)
      → (is_allowed (evaluate encode serialized o m r) ≡ true) ↔ Grounds o m r
  evaluate-Grounds_iff o m r = (evaluate-Grounds o m r, Grounds-evaluate o m r)

  found_input :
      (o : SanitizerOptions) (m : Map CapabilityPolicy) (r : CapabilityRequest) (a c : Text)
      (v : Value)
      → input_of (evaluate_for encode serialized o m a c r) ≡ some v
      → (sanitize_input serialized o r.input ≡ ok v)
        × (is_allowed (evaluate_for encode serialized o m a c r) ≡ true)
  unfolding evaluate_for
  found_input o m r a c v h = elim (Option-cases r.tool) [
    | inl e ↦ absurd (ground (arith, e, h))
    | inr (t, et) ↦ elim (Option-cases r.risk_level) [
      | inl e ↦ absurd (ground (arith, e, et, h))
      | inr (l, el) ↦ elim (Option-cases (policy_key encode a c)) [
        | inl e ↦ absurd (ground (arith, e, et, el, h))
        | inr (k, ek) ↦
            let given =
              decide_input serialized o t l r.input (Map.get k m) v
                (ground (arith, et, el, ek, h)) in
            (given.0, ground (arith, et, el, ek, given.1))
      ]
    ]
  ]

  -- An input is handed on only by a decision that allows, and every value in what is handed on is clean:
  -- no text value in it (the keys of objects are not meant) has a dangerous control character, white
  -- space at an end or more than the bound, every number is finite, nothing is of an unsupported type,
  -- and no object has an own entry `__proto__`.
  pub evaluate-Clean :
      (o : SanitizerOptions) (m : Map CapabilityPolicy) (r : CapabilityRequest) (v : Value)
      → input_of (evaluate encode serialized o m r) ≡ some v
      → (is_allowed (evaluate encode serialized o m r) ≡ true) × IsClean o v
  unfolding evaluate
  evaluate-Clean o m r v h = elim (Option-cases r.agent_id) [
    | inl e ↦ absurd (ground (arith, e, h))
    | inr (a, ea) ↦ elim (Option-cases r.compartment_id) [
      | inl e ↦ absurd (ground (arith, e, ea, h))
      | inr (c, ec) ↦
          let found = found_input o m r a c v (ground (arith, ea, ec, h)) in
          (ground (arith, ea, ec, h, found.1), sanitize_input-Clean serialized o r.input v found.0)
    ]
  ]

  -- Where `encodeURIComponent` has a result for every text, every request gets a decision.
  pub evaluate_total :
      (o : SanitizerOptions) (m : Map CapabilityPolicy) (r : CapabilityRequest)
      → ((t : Text) → is_some (encode t) ≡ true)
      → is_ok (evaluate encode serialized o m r) ≡ true
  unfolding evaluate evaluate_for policy_key
  evaluate_total o m r h = elim (Option-cases r.agent_id) [
    | inl e ↦ ground (arith, e)
    | inr (a, ea) ↦ elim (Option-cases r.compartment_id) [
      | inl e ↦ ground (arith, e, ea)
      | inr (c, ec) ↦ ground (arith, ea, ec, h a, h c)
    ]
  ]

  -- A policy can be added exactly when its key is not taken; an added one is found under its key, and
  -- what is found under every other key stays.
  pub add_lem :
      (p : CapabilityPolicy) (m : Map CapabilityPolicy) (k j : String)
      → policy_key encode p.agent_id p.compartment_id ≡ some k
      → ((is_ok (add encode p m) ≡ true) ↔ (Map.get k m ≡ none))
        × (Map.get j (ok_or m (add encode p m))
            ≡ (if str_eq k j && not (Map.has k m) then some p else Map.get j m))
  unfolding add
  add_lem p m k j e = ground (arith, e, Map.get-set k j p m)
