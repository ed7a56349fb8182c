-- ===== src/Approval.antt =====
-- packages/core/src/approval-queue: the human approval queue. A method of `ApprovalQueue` takes the
-- queue and returns the new one; the clock is read once for each call and is its argument `now`, and
-- so are the id and the token that `create` draws from Node's crypto. Times are milliseconds. What
-- `input: unknown` carries is never looked at, and is a parameter of the types.
pub mod Entry
pub mod Lifecycle
pub mod Provenance
pub mod Listing
mod Tests
use gyges_research_layer.Base.{
  ℕ, ◌+◌, ◌*◌, Bool, true, false, not, ◌&&◌, String, str_eq, List, [], ◌∷◌, map, Option, none, some,
  Result, ok, err, ltb, leb, ◌==◌, if◌then◌else◌, length, keep,
}
use gyges_research_layer.Base.Map
use gyges_research_layer.Base.Map.{Map}
use gyges_research_layer.Vocabulary.{CapabilityTool, RiskLevel}
use Prim.Native.String.{len}

pub data ApprovalStatus : Type 0 where
  pending approved rejected expired : ApprovalStatus

pub record ApprovalRequest (Payload : Type 0) : Type 0 where
  pub id : String
  pub created_at : ℕ
  pub expires_at : ℕ
  pub agent_id : String
  pub compartment_id : String
  pub tool : CapabilityTool
  pub risk_level : RiskLevel
  pub input : Payload
  pub sanitized_input : Option Payload
  pub reason : String
  pub status : ApprovalStatus

pub record CreateApprovalRequestInput (Payload : Type 0) : Type 0 where
  pub agent_id : String
  pub compartment_id : String
  pub tool : CapabilityTool
  pub risk_level : RiskLevel
  pub input : Payload
  pub sanitized_input : Option Payload
  pub reason : String

pub data ApprovalActionError : Type 0 where
  not_found already_expired already_finalized invalid_token : ApprovalActionError

pub record QueueEntry (Payload : Type 0) : Type 0 where
  pub request : ApprovalRequest Payload
  pub token_value : String

pub record ApprovalQueue (Payload : Type 0) : Type 0 where
  pub entries : Map (QueueEntry Payload)
  pub ttl_ms : ℕ

pub record CreatedApproval (Payload : Type 0) : Type 0 where
  pub request : ApprovalRequest Payload
  pub token : String

abbrev pub default_approval_ttl_ms : ℕ
default_approval_ttl_ms = 10 * 60 * 1000

abbrev pub is_pending : ApprovalStatus → Bool
is_pending pending = true
is_pending _ = false

abbrev pub is_expired : ApprovalStatus → Bool
is_expired expired = true
is_expired _ = false

-- The two targets of `finalize`.
pub data Verdict : Type 0 where
  approves rejects : Verdict

abbrev pub target : Verdict → ApprovalStatus
target approves = approved
target rejects = rejected

-- `len` counts the bytes of the UTF-8 encoding, as `Buffer.from(_, 'utf8').length` does.
unfoldable pub token_matches : String → String → Bool
token_matches expected provided =
    if len provided == 0
    then false
    else if len expected == len provided
    then str_eq expected provided
    else false

module _ {Payload : Type 0} where
  pub new : Option ℕ → ApprovalQueue Payload
  new none = record { entries = []; ttl_ms = default_approval_ttl_ms }
  new (some ttl) = record {
    entries = [];
    ttl_ms = if ltb 0 ttl then ttl else default_approval_ttl_ms;
  }

  abbrev set_status : ApprovalStatus → QueueEntry Payload → QueueEntry Payload
  set_status s e = record { request = record r { status = s }; token_value = e.token_value }
    where
      r : ApprovalRequest Payload
      r = e.request

  -- The test of `applyExpiry`, which is also its result.
  pub is_due : ℕ → QueueEntry Payload → Bool
  is_due now e = is_pending e.request.status && leb e.request.expires_at now

  pub apply_expiry : ℕ → QueueEntry Payload → QueueEntry Payload
  unfolding is_due
  apply_expiry now e = if is_due now e then set_status expired e else e

  pub new_entry : ℕ → ℕ → String → String → CreateApprovalRequestInput Payload → QueueEntry Payload
  new_entry ttl_ms now id token i = record {
    request = record {
      id = id;
      created_at = now;
      expires_at = now + ttl_ms;
      agent_id = i.agent_id;
      compartment_id = i.compartment_id;
      tool = i.tool;
      risk_level = i.risk_level;
      input = i.input;
      sanitized_input = i.sanitized_input;
      reason = i.reason;
      status = pending;
    };
    token_value = token;
  }

  pub create :
      ℕ
      → String
      → String
      → CreateApprovalRequestInput Payload
      → ApprovalQueue Payload
      → ApprovalQueue Payload × CreatedApproval Payload
  unfolding new_entry
  create now id token i q =
      let e = new_entry q.ttl_ms now id token i in
      (record q { entries = Map.set id e q.entries }, record { request = e.request; token = token })

  abbrev requests : List (QueueEntry Payload) → List (ApprovalRequest Payload)
  requests es = map (λ e. e.request) es

  pub list_pending :
      ℕ → ApprovalQueue Payload → ApprovalQueue Payload × List (ApprovalRequest Payload)
  unfolding apply_expiry
  list_pending now q =
      let m = Map.modify_all (apply_expiry now) q.entries in
      (record q { entries = m }, requests (keep (λ e. is_pending e.request.status) (Map.values m)))

  pub get_by_id :
      ℕ → String → ApprovalQueue Payload → ApprovalQueue Payload × Option (ApprovalRequest Payload)
  unfolding apply_expiry
  get_by_id now id q = elim (Map.get id q.entries) [
    | none ↦ (q, none)
    | some e ↦ (
      record q { entries = Map.modify id (apply_expiry now) q.entries },
      some (apply_expiry now e).request,
    )
  ]

  -- What `finalize` does once the entry is found and its expiry applied.
  pub decide_entry :
      String
      → Verdict
      → QueueEntry Payload
      → QueueEntry Payload × Result ApprovalActionError (ApprovalRequest Payload)
  unfolding token_matches
  decide_entry token v e =
      if is_expired e.request.status
      then (e, err already_expired)
      else if not (is_pending e.request.status)
      then (e, err already_finalized)
      else if not (token_matches e.token_value token)
      then (e, err invalid_token)
      else (set_status (target v) e, ok (set_status (target v) e).request)

  pub finalize :
      ℕ
      → String
      → String
      → Verdict
      → ApprovalQueue Payload
      → ApprovalQueue Payload × Result ApprovalActionError (ApprovalRequest Payload)
  unfolding apply_expiry decide_entry
  finalize now id token v q = elim (Map.get id q.entries) [
    | none ↦ (q, err not_found)
    | some e ↦ (
      record q {
        entries = Map.modify id (λ x. (decide_entry token v (apply_expiry now x)).0) q.entries;
      },
      (decide_entry token v (apply_expiry now e)).1,
    )
  ]

  pub expire_old_requests : ℕ → ApprovalQueue Payload → ApprovalQueue Payload × ℕ
  unfolding apply_expiry
  expire_old_requests now q = (
    record q { entries = Map.modify_all (apply_expiry now) q.entries },
    length (keep (is_due now) (Map.values q.entries)),
  )

  pub size : ApprovalQueue Payload → ℕ
  size q = length q.entries

-- The calls of the queue's interface.
pub data Call (Payload : Type 0) : Type 0 where
  creates : String → String → CreateApprovalRequestInput Payload → Call Payload
  finalizes : String → String → Verdict → Call Payload
  gets : String → Call Payload
  lists expires : Call Payload

module _ {Payload : Type 0} where
  pub step : ApprovalQueue Payload → ℕ × Call Payload → ApprovalQueue Payload
  unfolding create finalize get_by_id list_pending expire_old_requests
  step q (now, creates id token i) = (create now id token i q).0
  step q (now, finalizes id token v) = (finalize now id token v q).0
  step q (now, gets id) = (get_by_id now id q).0
  step q (now, lists) = (list_pending now q).0
  step q (now, expires) = (expire_old_requests now q).0

  pub run : ApprovalQueue Payload → List (ℕ × Call Payload) → ApprovalQueue Payload
  run q [] = q
  run q (c ∷ cs) = run (step q c) cs
