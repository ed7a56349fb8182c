-- ===== src/RateLimiter.antt =====
-- packages/core/src/adaptive-defense/rate-limiter.ts: sliding-window rate limits and temporary
-- blocks. The clock of `evaluate` is the request's timestamp, as in the code; times and counts are
-- natural numbers, so `Math.max(0, a - b)` is `a - b`, and `ts >= now - w` is read as `now <= ts + w`.
-- The text of a `reason` is kept as data: a constructor for each template, over what it interpolates.
pub mod Window
pub mod Bound
pub mod Blocks
mod Tests
use Prim.Native.String
use gyges_research_layer.Base.{
  ℕ, ◌+◌, ◌-◌, Bool, true, false, not, ◌&&◌, ◌||◌, String, str_eq, List, [], ◌∷◌, ◌++◌, Option,
  none, some, Result, ok, err, ltb, leb, if◌then◌else◌, length, keep, find, any, or_else, eq_iff,
}
use gyges_research_layer.Base.Map
use gyges_research_layer.Base.Map.{Map}
use gyges_research_layer.Vocabulary.{CapabilityTool, tool_eq}

pub data RateLimitScope : Type 0 where
  agent compartment session tool_scope : RateLimitScope

pub data DefenseAction : Type 0 where
  allow cooldown temporary_block require_approval escalate_risk : DefenseAction

pub record RateLimitPolicy : Type 0 where
  pub id : String
  pub scope : RateLimitScope
  pub max_requests : ℕ
  pub window_ms : ℕ
  pub action : DefenseAction
  pub enabled : Bool

pub record TemporaryCapabilityBlock : Type 0 where
  pub id : String
  pub created_at : ℕ
  pub expires_at : ℕ
  pub agent_id : Option String
  pub compartment_id : Option String
  pub tool : Option CapabilityTool
  pub reason : String

pub record RateLimitEvaluationInput : Type 0 where
  pub agent_id : String
  pub compartment_id : String
  pub session_id : Option String
  pub tool : CapabilityTool
  pub timestamp : ℕ

pub data Reason : Type 0 where
  block_active : String → String → Reason
  exceeded : String → RateLimitScope → ℕ → ℕ → ℕ → Reason
  no_policy within_limits : Reason

pub record RateLimitDecision : Type 0 where
  pub action : DefenseAction
  pub remaining : ℕ
  pub reset_at : ℕ
  pub retry_after_ms : Option ℕ
  pub reason : Reason

-- The snapshot that `evaluate` makes for each policy.
pub record PolicyEvaluation : Type 0 where
  pub policy : RateLimitPolicy
  pub count : ℕ
  pub remaining : ℕ
  pub reset_at : ℕ

pub record CapabilityRateLimiter : Type 0 where
  pub policies : List RateLimitPolicy
  pub blocks : List TemporaryCapabilityBlock
  pub windows : Map (List ℕ)

-- `Number.MAX_SAFE_INTEGER`.
abbrev pub unconstrained_remaining : ℕ
unconstrained_remaining = 9007199254740991

pub new : CapabilityRateLimiter
new = record { policies = []; blocks = []; windows = [] }

pub register_policy : RateLimitPolicy → CapabilityRateLimiter → Result String CapabilityRateLimiter
register_policy p l =
    if any (λ q. str_eq q.id p.id) l.policies
    then err p.id
    else ok (record l { policies = l.policies ++ p ∷ [] })

pub clear_policies : CapabilityRateLimiter → CapabilityRateLimiter
clear_policies l = record l { policies = []; windows = [] }

abbrev pub tool_name : CapabilityTool → String
tool_name CapabilityTool.search = "search"
tool_name CapabilityTool.fetch_html = "fetch_html"
tool_name CapabilityTool.fetch_json = "fetch_json"

-- A session id that is missing or empty is no dimension to count by.
abbrev pub session_key : Option String → Option String
session_key none = none
session_key (some s) = if str_eq s "" then none else some (String.◌++◌ "session:" s)

pub scope_key : RateLimitScope → RateLimitEvaluationInput → Option String
scope_key agent i = some (String.◌++◌ "agent:" i.agent_id)
scope_key compartment i = some (String.◌++◌ "compartment:" i.compartment_id)
scope_key session i = session_key i.session_id
scope_key tool_scope i = some (String.◌++◌ "tool:" (tool_name i.tool))

-- `${policy.id}\u0000${scopeKey}`, for a policy that is enabled and in scope.
pub bucket_key : RateLimitPolicy → RateLimitEvaluationInput → Option String
unfolding scope_key
bucket_key p i =
    if p.enabled
    then Map.map_option (λ s. String.◌++◌ p.id (String.◌++◌ "\0" s)) (scope_key p.scope i)
    else none

-- The bucket without what has left the window, and the request's own time behind it.
pub push : ℕ → ℕ → List ℕ → List ℕ
push window now ts = keep (λ t. leb now (t + window)) ts ++ now ∷ []

abbrev first_or : ℕ → List ℕ → ℕ
first_or d [] = d
first_or d (t ∷ ts) = t

pub evaluation : RateLimitPolicy → List ℕ → PolicyEvaluation
evaluation p pruned = record {
  policy = p;
  count = length pruned;
  remaining = p.max_requests - length pruned;
  reset_at = first_or 0 pruned + p.window_ms;
}

abbrev pub bucket : String → Map (List ℕ) → List ℕ
bucket k windows = or_else (Map.get k windows) []

-- One round of the recording loop, for a policy whose bucket key is given.
pub record_in :
    RateLimitPolicy
    → RateLimitEvaluationInput
    → Map (List ℕ)
    → Option String
    → Map (List ℕ) × List PolicyEvaluation
unfolding push evaluation
record_in p i windows none = (windows, [])
record_in p i windows (some k) =
    let pruned = push p.window_ms i.timestamp (bucket k windows) in
    (Map.set k pruned windows, evaluation p pruned ∷ [])

pub record_all :
    List RateLimitPolicy
    → RateLimitEvaluationInput
    → Map (List ℕ)
    → Map (List ℕ) × List PolicyEvaluation
unfolding record_in bucket_key
record_all [] i windows = (windows, [])
record_all (p ∷ ps) i windows =
    let (windows', e) = record_in p i windows (bucket_key p i) in
    let (windows'', es) = record_all ps i windows' in (windows'', e ++ es)

-- A field of a block that is defined has to equal the request's.
abbrev agrees : Option String → String → Bool
agrees none s = true
agrees (some x) s = str_eq x s

abbrev tool_agrees : Option CapabilityTool → CapabilityTool → Bool
tool_agrees none t = true
tool_agrees (some x) t = tool_eq x t

pub block_applies : RateLimitEvaluationInput → TemporaryCapabilityBlock → Bool
block_applies i b =
    ltb i.timestamp b.expires_at
    && agrees b.agent_id i.agent_id
    && agrees b.compartment_id i.compartment_id
    && tool_agrees b.tool i.tool

pub active_block_for :
    RateLimitEvaluationInput → CapabilityRateLimiter → Option TemporaryCapabilityBlock
unfolding block_applies find
active_block_for i l = find (block_applies i) l.blocks

abbrev bears_wait : DefenseAction → Bool
bears_wait cooldown = true
bears_wait temporary_block = true
bears_wait _ = false

pub is_exceeded : PolicyEvaluation → Bool
is_exceeded e = ltb e.policy.max_requests e.count

pub tightest : PolicyEvaluation → List PolicyEvaluation → PolicyEvaluation
tightest m [] = m
tightest m (e ∷ es) = tightest (if ltb e.remaining m.remaining then e else m) es

pub refusal : RateLimitEvaluationInput → PolicyEvaluation → RateLimitDecision
refusal i e = record {
  action = e.policy.action;
  remaining = 0;
  reset_at = e.reset_at;
  retry_after_ms = if bears_wait e.policy.action then some (e.reset_at - i.timestamp) else none;
  reason = exceeded e.policy.id e.policy.scope e.count e.policy.max_requests e.policy.window_ms;
}

pub within : RateLimitEvaluationInput → List PolicyEvaluation → RateLimitDecision
unfolding tightest
within i [] = record {
  action = allow;
  remaining = unconstrained_remaining;
  reset_at = i.timestamp;
  retry_after_ms = none;
  reason = no_policy;
}
within i (e ∷ es) = record {
  action = allow;
  remaining = (tightest e es).remaining;
  reset_at = (tightest e es).reset_at;
  retry_after_ms = none;
  reason = within_limits;
}

pub decide : RateLimitEvaluationInput → List PolicyEvaluation → RateLimitDecision
unfolding find is_exceeded refusal within
decide i es = elim (find is_exceeded es) [ none ↦ within i es | some e ↦ refusal i e ]

pub blocked_by : RateLimitEvaluationInput → TemporaryCapabilityBlock → RateLimitDecision
blocked_by i b = record {
  action = temporary_block;
  remaining = 0;
  reset_at = b.expires_at;
  retry_after_ms = some (b.expires_at - i.timestamp);
  reason = block_active b.id b.reason;
}

pub evaluate :
    RateLimitEvaluationInput → CapabilityRateLimiter → CapabilityRateLimiter × RateLimitDecision
unfolding active_block_for record_all decide blocked_by
evaluate i l = elim (active_block_for i l) [
  | some b ↦ (l, blocked_by i b)
  | none ↦ (
    record l { windows = (record_all l.policies i l.windows).0 },
    decide i (record_all l.policies i l.windows).1,
  )
]

pub register_temporary_block :
    TemporaryCapabilityBlock → CapabilityRateLimiter → CapabilityRateLimiter
register_temporary_block b l = record l { blocks = l.blocks ++ b ∷ [] }

abbrev pub has_expired : ℕ → TemporaryCapabilityBlock → Bool
has_expired now b = leb b.expires_at now

pub clear_expired_blocks : ℕ → CapabilityRateLimiter → CapabilityRateLimiter × ℕ
unfolding keep
clear_expired_blocks now l = (
  record l { blocks = keep (λ b. not (has_expired now b)) l.blocks },
  length (keep (has_expired now) l.blocks),
)

pub clear_temporary_blocks : CapabilityRateLimiter → CapabilityRateLimiter
clear_temporary_blocks l = record l { blocks = [] }

-- A sequence of requests, evaluated one after the other.
pub run : CapabilityRateLimiter → List RateLimitEvaluationInput → CapabilityRateLimiter
run l [] = l
run l (i ∷ is) = run (evaluate i l).0 is
