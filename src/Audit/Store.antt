-- ===== src/Audit/Store.antt =====
-- packages/core/src/audit/store.ts and engine.ts: the bounded store of security events, and the engine
-- that stamps them. Ids and times come as arguments; the copies that the code hands out are values.
use gyges_research_layer.Base.{
  ℕ, suc, ◌+◌, ◌-◌, max, Bool, true, false, ◌&&◌, ◌||◌, String, str_eq, List, [], ◌∷◌, ◌++◌, map,
  Option, none, some, ltb, leb, ◌==◌, length, drop, take, keep, find, or_else,
}
use gyges_research_layer.Base.Map
use gyges_research_layer.Base.Sort.{sort}
use gyges_research_layer.Base.Int.{ℤ, pos_part}
use gyges_research_layer.Audit.Types.{
  SecurityEventInput, SecurityEvent, AuditQuery, severity_eq, type_eq,
}

abbrev pub default_max_audit_events : ℕ
default_max_audit_events = 50000

-- A condition that holds where the query says nothing.
abbrev pub where_given {ℓ} : {A : Type ℓ} → Option A → (A → Bool) → Bool
where_given none p = true
where_given (some a) p = p a

-- An optional field that has to be the text given.
abbrev pub is_text : Option String → String → Bool
is_text none k = false
is_text (some j) k = str_eq j k

module _ {Metadata : Type 0} where
  unfoldable pub matches : AuditQuery → SecurityEvent Metadata → Bool
  matches q e =
      where_given q.kind (type_eq e.input.kind)
      && where_given q.severity (severity_eq e.input.severity)
      && where_given q.agent_id (is_text e.input.agent_id)
      && where_given q.compartment_id (is_text e.input.compartment_id)
      && where_given q.session_id (is_text e.input.session_id)
      && where_given q.request_id (is_text e.input.request_id)
      && where_given q.execution_id (is_text e.input.execution_id)
      && where_given q.since (λ t. leb t e.timestamp)
      && where_given q.until (λ t. leb e.timestamp t)

pub record StoredEvent (Metadata : Type 0) : Type 0 where
  pub event : SecurityEvent Metadata
  pub seq : ℕ

pub record AuditStore (Metadata : Type 0) : Type 0 where
  pub events : List (StoredEvent Metadata)
  pub seq : ℕ
  pub max_events : ℕ
  pub evicted_count : ℕ

abbrev pub limited {ℓ} : {A : Type ℓ} → Option ℤ → List A → List A
limited none xs = xs
limited (some n) xs = take (pos_part n) xs

module _ {Metadata : Type 0} where
  -- The bound that is asked for is a natural number here; without one the default holds.
  unfoldable pub new : Option ℕ → AuditStore Metadata
  new requested = record {
    events = [];
    seq = 0;
    max_events = max 1 (or_else requested default_max_audit_events);
    evicted_count = 0;
  }

  unfoldable pub append : SecurityEvent Metadata → AuditStore Metadata → AuditStore Metadata
  append e s =
      let grown = s.events ++ record { event = e; seq = s.seq } ∷ [] in
      let overflow = length grown - s.max_events in
      record s {
        events = drop overflow grown;
        seq = suc s.seq;
        evicted_count = s.evicted_count + overflow;
      }

  -- The comparison of `list` is not positive: by time, and then by the order of insertion.
  abbrev pub comes_before : StoredEvent Metadata → StoredEvent Metadata → Bool
  comes_before a b =
      ltb a.event.timestamp b.event.timestamp
      || (a.event.timestamp == b.event.timestamp && leb a.seq b.seq)

  unfoldable pub list : AuditQuery → AuditStore Metadata → List (SecurityEvent Metadata)
  list q s =
      limited q.limit
        (map (λ e. e.event) (sort comes_before (keep (λ e. matches q e.event) s.events)))

  unfoldable pub get_by_id : String → AuditStore Metadata → Option (SecurityEvent Metadata)
  get_by_id id s = Map.map_option (λ e. e.event) (find (λ e. str_eq e.event.id id) s.events)

  unfoldable pub clear : AuditStore Metadata → AuditStore Metadata
  clear s = record s { events = [] }

  abbrev pub stamp : String → ℕ → SecurityEventInput Metadata → SecurityEvent Metadata
  stamp id now i = record { id = id; timestamp = now; input = i }

  -- `emit` of the engine: the store after it, and the event recorded.
  unfoldable pub emit :
      String
      → ℕ
      → SecurityEventInput Metadata
      → AuditStore Metadata
      → AuditStore Metadata × SecurityEvent Metadata
  emit id now i s = (append (stamp id now i) s, stamp id now i)
