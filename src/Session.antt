-- ===== src/Session.antt =====
-- packages/core/src/session-manager: sessions of identity compartments. A method of
-- `SessionManager` takes the manager and returns the new one; the clock is read once for each call
-- and is its argument `now`; the id that `createSession` draws from `randomUUID` is the argument
-- `fresh`. A record that the code mutates is modified in `sessions`, where every alias of it lives:
-- what is handed back is a copy.
pub mod Active
pub mod Invariant
pub mod Unique
pub mod Terminal
pub mod Use
mod Tests
use gyges_research_layer.Base.{
  ℕ, ◌+◌, Bool, true, false, not, ◌&&◌, String, List, [], ◌∷◌, ◌++◌, Option, none, some, Result, ok,
  err, leb, if◌then◌else◌, length, keep, or_else, ◌≡◌,
}
use gyges_research_layer.Base.Map
use gyges_research_layer.Base.Map.{Map}
use gyges_research_layer.Vocabulary.{TransportKind}

pub data SessionStatus : Type 0 where
  active rotated expired revoked : SessionStatus

pub data SessionReusePolicy : Type 0 where
  reuse_active always_rotate : SessionReusePolicy

pub record IdentityCompartment : Type 0 where
  pub id : String
  pub label : Option String
  pub transport_kind : TransportKind
  pub reuse_policy : SessionReusePolicy
  pub ttl_ms : ℕ
  pub max_requests : ℕ
  pub created_at : ℕ

pub record SessionRecord : Type 0 where
  pub session_id : String
  pub compartment_id : String
  pub transport_kind : TransportKind
  pub status : SessionStatus
  pub created_at : ℕ
  pub expires_at : ℕ
  pub request_count : ℕ
  pub last_used_at : Option ℕ

pub record SessionManagerConfig : Type 0 where
  pub default_ttl_ms : ℕ
  pub default_max_requests : ℕ

pub data SessionManagerErrorKind : Type 0 where
  unknown_compartment duplicate_compartment unknown_session session_not_active :
      SessionManagerErrorKind

pub record SessionManager : Type 0 where
  pub compartments : Map IdentityCompartment
  pub sessions : Map SessionRecord
  pub by_compartment : Map (List String)
  pub config : SessionManagerConfig

pub new : SessionManagerConfig → SessionManager
new c = record { compartments = []; sessions = []; by_compartment = []; config = c }

abbrev pub is_active : SessionStatus → Bool
is_active active = true
is_active _ = false

abbrev pub is_always_rotate : SessionReusePolicy → Bool
is_always_rotate always_rotate = true
is_always_rotate reuse_active = false

abbrev pub set_status : SessionStatus → SessionRecord → SessionRecord
set_status st s = record s { status = st }

pub is_due : ℕ → SessionRecord → Bool
is_due now s = is_active s.status && leb s.expires_at now

pub apply_expiry : ℕ → SessionRecord → SessionRecord
unfolding is_due
apply_expiry now s = if is_due now s then set_status expired s else s

pub mark_rotated : SessionRecord → SessionRecord
mark_rotated s = if is_active s.status then set_status rotated s else s

-- `byCompartment.get(id) ?? []`.
abbrev pub session_ids : String → SessionManager → List String
session_ids cid m = or_else (Map.get cid m.by_compartment) []

pub expire_compartment : ℕ → String → SessionManager → SessionManager
unfolding apply_expiry
expire_compartment now cid m = record m {
  sessions = Map.modify_each (session_ids cid m) (apply_expiry now) m.sessions;
}

pub mark_active_as_rotated : String → SessionManager → SessionManager
unfolding mark_rotated
mark_active_as_rotated cid m = record m {
  sessions = Map.modify_each (session_ids cid m) mark_rotated m.sessions;
}

abbrev active_under : String → Option SessionRecord → Option (String × SessionRecord)
active_under id none = none
active_under id (some s) = if is_active s.status then some (id, s) else none

-- The loop of `findActive`; the id under which the session is stored is returned with it.
pub first_active : List String → Map SessionRecord → Option (String × SessionRecord)
first_active [] sessions = none
first_active (id ∷ ids) sessions =
    let rest = first_active ids sessions in
    elim (active_under id (Map.get id sessions)) [ none ↦ rest | some found ↦ some found ]

pub find_active : String → SessionManager → Option (String × SessionRecord)
unfolding first_active
find_active cid m = first_active (session_ids cid m) m.sessions

pub new_session : ℕ → String → IdentityCompartment → SessionRecord
new_session now fresh c = record {
  session_id = fresh;
  compartment_id = c.id;
  transport_kind = c.transport_kind;
  status = active;
  created_at = now;
  expires_at = now + c.ttl_ms;
  request_count = 0;
  last_used_at = none;
}

pub create_session :
    ℕ → String → IdentityCompartment → SessionManager → SessionManager × SessionRecord
unfolding new_session
create_session now fresh c m = (
  record m {
    sessions = Map.set fresh (new_session now fresh c) m.sessions;
    by_compartment = Map.set c.id (session_ids c.id m ++ fresh ∷ []) m.by_compartment;
  },
  new_session now fresh c,
)

-- A method that throws leaves what it has changed until then.
abbrev pub Outcome : Type 0 → Type 0
Outcome A = SessionManager × Result SessionManagerErrorKind A

abbrev pub returns : SessionManager × SessionRecord → Outcome SessionRecord
returns (m, s) = (m, ok s)

pub register_compartment : IdentityCompartment → SessionManager → Outcome (Unit {0})
register_compartment c m = if Map.has c.id m.compartments then (m, err duplicate_compartment) else (
  record m {
    compartments = Map.set c.id c m.compartments;
    by_compartment = Map.set c.id [] m.by_compartment;
  },
  ok tt,
)

-- The branch `reuse_active` of `getOrCreateSession`.
pub reuse_or_create :
    ℕ → String → String → IdentityCompartment → SessionManager → Outcome SessionRecord
unfolding create_session find_active
reuse_or_create now fresh cid c m = elim (find_active cid m) [
  | none ↦ returns (create_session now fresh c m)
  | some (id, s) ↦
      if leb c.max_requests s.request_count
      then returns (
          create_session now fresh c
            (record m { sessions = Map.modify id (set_status rotated) m.sessions }))
      else (m, ok s)
]

pub rotate_and_create :
    ℕ → String → String → IdentityCompartment → SessionManager → Outcome SessionRecord
unfolding create_session mark_active_as_rotated
rotate_and_create now fresh cid c m =
    returns (create_session now fresh c (mark_active_as_rotated cid m))

pub get_or_create_session : ℕ → String → String → SessionManager → Outcome SessionRecord
unfolding expire_compartment reuse_or_create rotate_and_create
get_or_create_session now fresh cid m = elim (Map.get cid m.compartments) [
  | none ↦ (m, err unknown_compartment)
  | some c ↦
      if is_always_rotate c.reuse_policy
      then rotate_and_create now fresh cid c (expire_compartment now cid m)
      else reuse_or_create now fresh cid c (expire_compartment now cid m)
]

pub rotate_session : ℕ → String → String → SessionManager → Outcome SessionRecord
unfolding expire_compartment rotate_and_create
rotate_session now fresh cid m = elim (Map.get cid m.compartments) [
  | none ↦ (m, err unknown_compartment)
  | some c ↦ rotate_and_create now fresh cid c (expire_compartment now cid m)
]

pub revoke : ℕ → SessionRecord → SessionRecord
unfolding apply_expiry
revoke now s =
    let s' = apply_expiry now s in if is_active s'.status then set_status revoked s' else s'

pub revoke_session : ℕ → String → SessionManager → Outcome (Unit {0})
unfolding revoke
revoke_session now id m = elim (Map.get id m.sessions) [
  | none ↦ (m, err unknown_session)
  | some s ↦ (record m { sessions = Map.modify id (revoke now) m.sessions }, ok tt)
]

pub expire_old_sessions : ℕ → SessionManager → SessionManager × ℕ
unfolding apply_expiry
expire_old_sessions now m = (
  record m { sessions = Map.modify_all (apply_expiry now) m.sessions },
  length (keep (is_due now) (Map.values m.sessions)),
)

-- The sessions stored under the ids, without the ids that have none.
pub stored : List String → Map SessionRecord → List SessionRecord
stored [] sessions = []
stored (id ∷ ids) sessions =
    let rest = stored ids sessions in elim (Map.get id sessions) [ none ↦ rest | some s ↦ s ∷ rest ]

pub list_sessions : ℕ → Option String → SessionManager → SessionManager × List SessionRecord
unfolding expire_compartment expire_old_sessions stored
list_sessions now none m = let m' = (expire_old_sessions now m).0 in (m', Map.values m'.sessions)
list_sessions now (some cid) m =
    let m' = expire_compartment now cid m in (m', stored (session_ids cid m') m'.sessions)

abbrev pub touch : ℕ → SessionRecord → SessionRecord
touch now s = record s { request_count = s.request_count + 1; last_used_at = some now }

-- What `recordUse` makes of the session, and what it returns or throws.
pub use_session : ℕ → SessionRecord → SessionRecord × Result SessionManagerErrorKind SessionRecord
unfolding apply_expiry
use_session now s =
    let s' = apply_expiry now s in
    if is_active s'.status then (touch now s', ok (touch now s')) else (s', err session_not_active)

pub record_use : ℕ → String → SessionManager → Outcome SessionRecord
unfolding use_session
record_use now id m = elim (Map.get id m.sessions) [
  | none ↦ (m, err unknown_session)
  | some s ↦ (
    record m { sessions = Map.modify id (λ x. (use_session now x).0) m.sessions },
    (use_session now s).1,
  )
]

pub data Call : Type 0 where
  registers : IdentityCompartment → Call
  gets_or_creates rotates : String → String → Call
  revokes uses : String → Call
  expires : Call
  lists : Option String → Call

pub step : SessionManager → ℕ × Call → SessionManager
unfolding register_compartment get_or_create_session rotate_session revoke_session record_use
    expire_old_sessions list_sessions
step m (now, registers c) = (register_compartment c m).0
step m (now, gets_or_creates fresh cid) = (get_or_create_session now fresh cid m).0
step m (now, rotates fresh cid) = (rotate_session now fresh cid m).0
step m (now, revokes id) = (revoke_session now id m).0
step m (now, uses id) = (record_use now id m).0
step m (now, expires) = (expire_old_sessions now m).0
step m (now, lists cid) = (list_sessions now cid m).0

pub run : SessionManager → List (ℕ × Call) → SessionManager
unfolding step
run m [] = m
run m (c ∷ cs) = run (step m c) cs

-- What is used of `randomUUID`: an id that it returns is not in use. `AllFresh` says so of the ids
-- that the calls of a history are given.
abbrev pub IsFresh : SessionManager → ℕ × Call → Type 0
IsFresh m (now, gets_or_creates fresh cid) = Map.get fresh m.sessions ≡ none
IsFresh m (now, rotates fresh cid) = Map.get fresh m.sessions ≡ none
IsFresh m _ = Unit

abbrev pub AllFresh : SessionManager → List (ℕ × Call) → Type 0
AllFresh m [] = Unit
AllFresh m (c ∷ cs) = IsFresh m c × AllFresh (step m c) cs
