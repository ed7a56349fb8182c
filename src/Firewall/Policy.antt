-- ===== src/Firewall/Policy.antt =====
-- packages/core/src/capability-firewall and policy-engine: policies, their store, and the decision on a
-- request. `encodeURIComponent` is taken as an argument; it has no result where it throws. A field of
-- the request that is not a text, and a tool or a risk level that is not known, is `none`.
use gyges_research_layer.Base.{
  ℕ, Bool, true, false, not, String, List, Option, none, some, Result, ok, err, ltb, if◌then◌else◌,
  any,
}
use gyges_research_layer.Base.Map
use gyges_research_layer.Base.Map.{Map}
use gyges_research_layer.Vocabulary.{CapabilityTool, RiskLevel, low, medium, high, tool_eq}
use gyges_research_layer.Firewall.Sanitizer.{
  Text, Value, SanitizerOptions, Refusal, trim, is_empty, sanitize_input,
}
use Prim.Native.String.{◌++◌ as joined}

pub record CapabilityPolicy : Type 0 where
  pub agent_id : Text
  pub compartment_id : Text
  pub allowed_tools : List CapabilityTool
  pub max_risk_level : RiskLevel
  pub requires_confirmation_above : Option RiskLevel

pub record CapabilityRequest : Type 0 where
  pub agent_id : Option Text
  pub compartment_id : Option Text
  pub tool : Option CapabilityTool
  pub risk_level : Option RiskLevel
  pub input : Value

pub data Reason : Type 0 where
  allowed_by_policy missing_agent missing_compartment unknown_tool invalid_risk : Reason
  no_policy tool_not_permitted risk_too_high : Reason
  refused_input : Refusal → Reason

pub record CapabilityDecision : Type 0 where
  pub allowed : Bool
  pub reason : Reason
  pub requires_confirmation : Bool
  pub sanitized_input : Option Value

-- `RISK_RANK`.
abbrev pub risk_rank : RiskLevel → ℕ
risk_rank low = 0
risk_rank medium = 1
risk_rank high = 2

abbrev pub deny : Reason → CapabilityDecision
deny r = record {
  allowed = false;
  reason = r;
  requires_confirmation = false;
  sanitized_input = none;
}

abbrev pub is_blank : Text → Bool
is_blank s = is_empty (trim s)

abbrev pub is_above : RiskLevel → Option RiskLevel → Bool
is_above r none = false
is_above r (some t) = ltb (risk_rank t) (risk_rank r)

-- The store; a throw is an error.
pub data StoreError : Type 0 where
  policy_collision : String → StoreError
  uri_error : StoreError

module _ (encode : Text → Option String) where
  unfoldable pub policy_key : Text → Text → Option String
  policy_key agent compartment = elim (encode agent) [
    | none ↦ none
    | some a ↦ elim (encode compartment) [ none ↦ none | some c ↦ some (joined a (joined "::" c)) ]
  ]

  unfoldable pub add :
      CapabilityPolicy → Map CapabilityPolicy → Result StoreError (Map CapabilityPolicy)
  add p m = elim (policy_key p.agent_id p.compartment_id) [
    | none ↦ err uri_error
    | some k ↦ if Map.has k m then err (policy_collision k) else ok (Map.set k p m)
  ]

  unfoldable pub set :
      CapabilityPolicy → Map CapabilityPolicy → Result StoreError (Map CapabilityPolicy)
  set p m = elim (policy_key p.agent_id p.compartment_id) [
    | none ↦ err uri_error
    | some k ↦ ok (Map.set k p m)
  ]

module _ (serialized : Value → Option ℕ) where
  -- The decision under the policy that is found.
  unfoldable pub decide :
      SanitizerOptions
      → CapabilityTool
      → RiskLevel
      → Value
      → Option CapabilityPolicy
      → CapabilityDecision
  decide o tool risk input none = deny no_policy
  decide o tool risk input (some p) =
      if not (any (tool_eq tool) p.allowed_tools)
      then deny tool_not_permitted
      else if ltb (risk_rank p.max_risk_level) (risk_rank risk)
      then deny risk_too_high
      else elim (sanitize_input serialized o input) [
        | err e ↦ deny (refused_input e)
        | ok v ↦ record {
          allowed = true;
          reason = allowed_by_policy;
          requires_confirmation = is_above risk p.requires_confirmation_above;
          sanitized_input = some v;
        }
      ]

module _ (encode : Text → Option String) (serialized : Value → Option ℕ) where
  -- The decision once the agent and the compartment are known to be texts.
  unfoldable pub evaluate_for :
      SanitizerOptions
      → Map CapabilityPolicy
      → Text
      → Text
      → CapabilityRequest
      → Result StoreError CapabilityDecision
  evaluate_for o m agent compartment r = elim r.tool [
    | none ↦ ok (deny unknown_tool)
    | some tool ↦ elim r.risk_level [
      | none ↦ ok (deny invalid_risk)
      | some risk ↦ elim (policy_key encode agent compartment) [
        | none ↦ err uri_error
        | some k ↦ ok (decide serialized o tool risk r.input (Map.get k m))
      ]
    ]
  ]

  -- `evaluate` of the engine, and of the firewall.
  unfoldable pub evaluate :
      SanitizerOptions
      → Map CapabilityPolicy
      → CapabilityRequest
      → Result StoreError CapabilityDecision
  evaluate o m r = elim r.agent_id [
    | none ↦ ok (deny missing_agent)
    | some agent ↦ if is_blank agent then ok (deny missing_agent) else elim r.compartment_id [
      | none ↦ ok (deny missing_compartment)
      | some compartment ↦
          if is_blank compartment
          then ok (deny missing_compartment)
          else evaluate_for o m agent compartment r
    ]
  ]
