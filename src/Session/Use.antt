-- ===== src/Session/Use.antt =====
-- What packages/core/src/session-manager/manager.ts hands out: when `recordUse` accepts a session,
-- and that `getOrCreateSession` returns a session that may be used.
use gyges_research_layer.Base.{
  ℕ, ◌<◌, Bool, true, false, ◌≡◌, ◌↔◌, refl, String, str_eq, eq_iff, eq_refl, some, inl, inr, ok,
  is_ok, arith, Option-cases, if◌then◌else◌, leb,
}
use gyges_research_layer.Base.Map
use gyges_research_layer.Base.Map.{Map, elem, map_option}
use gyges_research_layer.Session.Active.{apply_expiry_twice, find_active-some}
use gyges_research_layer.Session.Invariant.{Inv, expire_compartment-Inv}
use gyges_research_layer.Session.{
  SessionManager, SessionRecord, IdentityCompartment, active, is_active, is_due, session_ids,
  apply_expiry, use_session, touch, find_active, new_session, create_session, set_status, rotated,
  mark_active_as_rotated, expire_compartment, reuse_or_create, rotate_and_create,
  get_or_create_session, record_use, returns, is_always_rotate, Outcome,
}

-- The session may be used at the time given.
pub record IsLive (now : ℕ) (s : SessionRecord) : Type 0 where
  pub is_on : s.status ≡ active
  pub in_time : now < s.expires_at

use_session-IsLive :
    (now : ℕ) (s : SessionRecord) → (is_ok (use_session now s).1 ≡ true) ↔ IsLive now s
unfolding use_session apply_expiry is_due
use_session-IsLive now s = ground arith

-- `recordUse` returns a record exactly when a session with that id exists that is active and has a
-- deadline after the clock.
pub record_use_iff :
    (now : ℕ) (id : String) (m : SessionManager)
    → (is_ok (record_use now id m).1 ≡ true)
      ↔ ((s : SessionRecord) × (Map.get id m.sessions ≡ some s) × IsLive now s)
unfolding record_use
record_use_iff now id m = elim (Option-cases (Map.get id m.sessions)) [
  | inl e ↦ rw (e, record_use) (λ h. cc, λ h. cc h.1)
  | inr (s, e) ↦
      rw (e, record_use)
        (
          λ h. (s, refl, (use_session-IsLive now s).0 h),
          λ h. (use_session-IsLive now s).1 (ground (arith, h.1, h.2)),
        )
]

-- When `recordUse` returns a record, the session under that id has been used once more, at the
-- clock's time, and every other session is as it was.
pub record_use_effect :
    (now : ℕ) (id j : String) (m : SessionManager)
    → is_ok (record_use now id m).1 ≡ true
    → Map.get j (record_use now id m).0.sessions ≡ (
        if str_eq id j then map_option (touch now) (Map.get j m.sessions) else Map.get j m.sessions)
unfolding record_use use_session apply_expiry is_due
record_use_effect now id j m h =
    ground (arith, eq_iff id j, Map.get-modify id j (λ x. (use_session now x).0) m.sessions)

-- The outcome is a live session of the compartment, below its ceiling and stored in the new state.
pub record Usable (now : ℕ) (cid : String) (c : IdentityCompartment) (out : Outcome SessionRecord)
    : Type 0 where
  pub id : String
  pub session : SessionRecord
  pub returned : out.1 ≡ ok session
  pub kept : Map.get id out.0.sessions ≡ some session
  pub live : IsLive now session
  pub below : session.request_count < c.max_requests
  pub belongs : session.compartment_id ≡ cid

module _ (now : ℕ) (fresh cid : String) (c : IdentityCompartment) (own : c.id ≡ cid)
    (lasts : 0 < c.ttl_ms) (useful : 0 < c.max_requests) where
  created-Usable : (m : SessionManager) → Usable now cid c (returns (create_session now fresh c m))
  unfolding create_session new_session
  created-Usable m = record {
    id = fresh;
    session = new_session now fresh c;
    returned = refl;
    kept =
        ground (arith, eq_refl fresh, Map.get-set fresh fresh (new_session now fresh c) m.sessions);
    live = record { is_on = refl; in_time = omega arith };
    below = useful;
    belongs = own;
  }

  -- After the expiry of the compartment an active session of it has time left.
  expired_in_time :
      (m : SessionManager) (j : String) (s : SessionRecord)
      → elem j (session_ids cid m) ≡ true
      → Map.get j (expire_compartment now cid m).sessions ≡ some s
      → is_active s.status ≡ true
      → now < s.expires_at
  unfolding expire_compartment apply_expiry is_due
  expired_in_time m j s listed g on = elim (Option-cases (Map.get j m.sessions)) [
    | inl e ↦ ground (
      arith,
      e,
      Map.get-modify_each (session_ids cid m) j (apply_expiry now) m.sessions
          (apply_expiry_twice now),
    )
    | inr (x, e) ↦ ground (
      arith,
      e,
      Map.get-modify_each (session_ids cid m) j (apply_expiry now) m.sessions
          (apply_expiry_twice now),
    )
  ]

  reused-Usable :
      (m : SessionManager)
      → Inv m
      → Usable now cid c (reuse_or_create now fresh cid c (expire_compartment now cid m))
  unfolding reuse_or_create
  reused-Usable m v = elim (Option-cases (find_active cid (expire_compartment now cid m))) [
    | inl e ↦ rw (e, reuse_or_create) (created-Usable (expire_compartment now cid m))
    | inr ((id, s), e) ↦
        rw (e, reuse_or_create)
          (by_ceiling id s (find_active-some cid m' id s e) (leb c.max_requests s.request_count)
            refl)
  ]
    where
      m' : SessionManager
      m' = expire_compartment now cid m

      by_ceiling :
          (id : String) (s : SessionRecord)
          → (Map.get id m'.sessions ≡ some s)
            × (elem id (session_ids cid m') ≡ true)
            × (is_active s.status ≡ true)
          → (b : Bool) → leb c.max_requests s.request_count ≡ b
          → Usable now cid c (
              if b
              then returns (
                  create_session now fresh c
                    (record m' { sessions = Map.modify id (set_status rotated) m'.sessions }))
              else (m', ok s))
      by_ceiling id s (at_id, listed, on) true e =
          created-Usable (record m' { sessions = Map.modify id (set_status rotated) m'.sessions })
      by_ceiling id s (at_id, listed, on) false e = record {
        id = id;
        session = s;
        returned = refl;
        kept = at_id;
        live = record {
          is_on = ground arith;
          in_time = expired_in_time m id s (unfold expire_compartment in listed) at_id on;
        };
        below = ground arith;
        belongs = (expire_compartment-Inv now cid m v).owned cid id s listed at_id;
      }

-- For a registered compartment whose time to live and ceiling are positive, under the invariant,
-- `getOrCreateSession` returns a session of that compartment which is active, whose deadline is
-- after the clock and whose uses are below the ceiling, and which the new state stores as returned.
pub get_or_create_session-Usable :
    (now : ℕ) (fresh cid : String) (c : IdentityCompartment) (m : SessionManager)
    → Inv m
    → Map.get cid m.compartments ≡ some c
    → 0 < c.ttl_ms
    → 0 < c.max_requests
    → Usable now cid c (get_or_create_session now fresh cid m)
unfolding get_or_create_session rotate_and_create
get_or_create_session-Usable now fresh cid c m v known lasts useful =
    rw (known, get_or_create_session) (by_policy (is_always_rotate c.reuse_policy))
  where
    m' : SessionManager
    m' = expire_compartment now cid m

    by_policy :
        (b : Bool)
        → Usable now cid c
            (if b then rotate_and_create now fresh cid c m' else reuse_or_create now fresh cid c m')
    by_policy true =
        created-Usable now fresh cid c (v.keyed cid c known) lasts useful
          (mark_active_as_rotated cid m')
    by_policy false = reused-Usable now fresh cid c (v.keyed cid c known) lasts useful m v
