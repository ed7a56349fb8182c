-- ===== src/Audit/Tests.antt =====
-- The audit trail on concrete events, whose metadata is a number.
use gyges_research_layer.Base.{
  ℕ, ◌≤◌, ◌≡◌, refl, String, List, [], ◌∷◌, map, none, some, arith, length, newest, keep,
}
use gyges_research_layer.Base.Int.{pos}
use gyges_research_layer.Base.Sort.{insert, sort, Ascends}
use gyges_research_layer.Audit.Types.{
  SecurityEventInput, SecurityEvent, SecurityEventType, capability_denied, session_created, warning,
  AuditQuery,
}
use gyges_research_layer.Audit.Store.{
  AuditStore, new, append, clear, list, matches, limited, emit, get_by_id,
}
use gyges_research_layer.Audit.Window.{
  Call, appends, clears, run, trail, events_of, run_window, get_by_id-emit,
}
use gyges_research_layer.Audit.Listing.{in_time, list-run}

abbrev input : SecurityEventType → SecurityEventInput ℕ
input kind = record {
  kind = kind;
  severity = warning;
  agent_id = some "a";
  compartment_id = none;
  session_id = none;
  request_id = none;
  execution_id = none;
  approval_request_id = none;
  message = "seen";
  metadata = none;
}

abbrev event : String → ℕ → SecurityEventType → SecurityEvent ℕ
event id at kind = record { id = id; timestamp = at; input = input kind }

-- A clock that steps back, and a tie.
abbrev history : List (Call ℕ)
history =
    appends (event "e0" 1 session_created)
    ∷ clears
    ∷ appends (event "e1" 5 session_created)
    ∷ appends (event "e2" 7 capability_denied)
    ∷ appends (event "e3" 4 capability_denied)
    ∷ appends (event "e4" 7 capability_denied)
    ∷ []

abbrev all_events : AuditQuery
all_events = record {
  kind = none;
  severity = none;
  agent_id = none;
  compartment_id = none;
  session_id = none;
  request_id = none;
  execution_id = none;
  since = none;
  until = none;
  limit = none;
}

abbrev recent : AuditQuery
recent = record all_events { since = some 4; limit = some (pos 2) }

abbrev stored : AuditStore ℕ
stored = run (new (some 3)) history

listed : map (λ e. e.id) (list recent stored) ≡ "e3" ∷ "e2" ∷ []
unfolding list run new append sort insert keep matches clear
listed = refl

run_window_example :
    (events_of (run (new (some 3)) history).events
      ≡ newest (new {Metadata = ℕ} (some 3)).max_events (trail [] history))
    × (length (run (new (some 3)) history).events ≤ (new {Metadata = ℕ} (some 3)).max_events)
run_window_example = run_window (some 3) history

list-run_example :
    (list recent (run (new (some 3)) history)
      ≡ limited recent.limit (
          in_time (
            keep
              (matches recent)
              (newest (new {Metadata = ℕ} (some 3)).max_events (trail [] history)))))
    × Ascends (λ e. e.timestamp) (list recent (run (new (some 3)) history))
list-run_example = list-run (some 3) recent history

get_by_id-emit_example :
    get_by_id "e1" (emit "e1" 3 (input session_created) (new (some 2))).0
    ≡ some (emit "e1" 3 (input session_created) (new (some 2))).1
get_by_id-emit_example =
    get_by_id-emit "e1" 3 (input session_created) (new (some 2)) (unfold new in omega arith)
      (unfold new in tt)
