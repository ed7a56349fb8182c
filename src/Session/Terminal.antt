-- ===== src/Session/Terminal.antt =====
-- A session that packages/core/src/session-manager/manager.ts has rotated, expired or revoked never
-- changes again.
use gyges_research_layer.Base.{
  ℕ, Bool, true, false, ok, ◌≡◌, String, eq_iff, List, [], ◌∷◌, none, some, inl, inr, arith,
  Option-cases, if◌then◌else◌, leb,
}
use gyges_research_layer.Base.Map
use gyges_research_layer.Base.Map.{Map, elem, map_option}
use gyges_research_layer.Session.Active.{
  apply_expiry_twice, mark_rotated_twice, find_active-some, marked_unused,
  expire_compartment_unused,
}
use gyges_research_layer.Session.{
  SessionManager, SessionRecord, IdentityCompartment, is_active, is_due, session_ids, apply_expiry,
  mark_rotated, revoke, use_session, set_status, rotated, find_active, new_session, create_session,
  mark_active_as_rotated, expire_compartment, reuse_or_create, rotate_and_create,
  get_or_create_session, rotate_session, register_compartment, revoke_session, record_use,
  expire_old_sessions, list_sessions, Call, registers, gets_or_creates, rotates, revokes, uses,
  expires, lists, step, run, IsFresh, AllFresh, returns, is_always_rotate,
}

-- The write leaves a session that is not active as it is.
abbrev Spares : (SessionRecord → SessionRecord) → Type 0
Spares f = (s : SessionRecord) → is_active s.status ≡ false → f s ≡ s

apply_expiry-Spares : (now : ℕ) → Spares (apply_expiry now)
unfolding apply_expiry is_due
apply_expiry-Spares now s h = ground arith

mark_rotated-Spares : Spares mark_rotated
unfolding mark_rotated
mark_rotated-Spares s h = ground arith

revoke-Spares : (now : ℕ) → Spares (revoke now)
unfolding revoke apply_expiry is_due
revoke-Spares now s h = ground arith

use_session-Spares : (now : ℕ) → Spares (λ s. (use_session now s).0)
unfolding use_session apply_expiry is_due
use_session-Spares now s h = ground arith

module _ (j : String) (s : SessionRecord) (over : is_active s.status ≡ false) where
  abbrev Holds : SessionManager → Type 0
  Holds m = Map.get j m.sessions ≡ some s

  expire_compartment-Holds :
      (now : ℕ) (cid : String) (m : SessionManager) → Holds m → Holds (expire_compartment now cid m)
  unfolding expire_compartment
  expire_compartment-Holds now cid m h = ground (
    arith,
    Map.get-modify_each (session_ids cid m) j (apply_expiry now) m.sessions
        (apply_expiry_twice now),
    apply_expiry-Spares now s over,
  )

  create-Holds :
      (now : ℕ) (fresh : String) (c : IdentityCompartment) (m : SessionManager)
      → Map.get fresh m.sessions ≡ none
      → Holds m
      → Holds (create_session now fresh c m).0
  unfolding create_session
  create-Holds now fresh c m u h =
      ground (arith, Map.get-set fresh j (new_session now fresh c) m.sessions, eq_iff fresh j)

  mark-Holds : (cid : String) (m : SessionManager) → Holds m → Holds (mark_active_as_rotated cid m)
  unfolding mark_active_as_rotated
  mark-Holds cid m h = ground (
    arith,
    Map.get-modify_each (session_ids cid m) j mark_rotated m.sessions mark_rotated_twice,
    mark_rotated-Spares s over,
  )

  modify-Holds :
      (id : String) (f : SessionRecord → SessionRecord) (m : Map SessionRecord)
      → Spares f
      → Map.get j m ≡ some s
      → Map.get j (Map.modify id f m) ≡ some s
  modify-Holds id f m sp h = ground (arith, Map.get-modify id j f m, sp s over)

  rotate_and_create-Holds :
      (now : ℕ) (fresh cid : String) (c : IdentityCompartment) (m : SessionManager)
      → Map.get fresh m.sessions ≡ none
      → Holds m
      → Holds (rotate_and_create now fresh cid c m).0
  unfolding rotate_and_create
  rotate_and_create-Holds now fresh cid c m u h =
      create-Holds now fresh c (mark_active_as_rotated cid m) (marked_unused cid m fresh u)
        (mark-Holds cid m h)

  reuse_or_create-Holds :
      (now : ℕ) (fresh cid : String) (c : IdentityCompartment) (m : SessionManager)
      → Map.get fresh m.sessions ≡ none
      → Holds m
      → Holds (reuse_or_create now fresh cid c m).0
  unfolding reuse_or_create
  reuse_or_create-Holds now fresh cid c m u h = elim (Option-cases (find_active cid m)) [
    | inl e ↦ rw (e, reuse_or_create) (create-Holds now fresh c m u h)
    | inr ((id, t), e) ↦
        rw (e, reuse_or_create)
          (by_ceiling id t (find_active-some cid m id t e).0 (find_active-some cid m id t e).2
            (leb c.max_requests t.request_count))
  ]
    where
      by_ceiling :
          (id : String) (t : SessionRecord)
          → Map.get id m.sessions ≡ some t
          → is_active t.status ≡ true
          → (b : Bool)
          → Holds
              (if b
                then returns (
                    create_session now fresh c
                      (record m { sessions = Map.modify id (set_status rotated) m.sessions }))
                else (m, ok t)).0
      by_ceiling id t at_id live true =
          create-Holds now fresh c
            (record m { sessions = Map.modify id (set_status rotated) m.sessions })
            (ground (arith, Map.get-modify id fresh (set_status rotated) m.sessions))
            (ground (arith, eq_iff id j, Map.get-modify id j (set_status rotated) m.sessions))
      by_ceiling id t at_id live false = h

  get_or_create_session-Holds :
      (now : ℕ) (fresh cid : String) (m : SessionManager)
      → Map.get fresh m.sessions ≡ none
      → Holds m
      → Holds (get_or_create_session now fresh cid m).0
  unfolding get_or_create_session
  get_or_create_session-Holds now fresh cid m u h =
      elim (Option-cases (Map.get cid m.compartments)) [
        | inl e ↦ rw (e, get_or_create_session) h
        | inr (c, e) ↦ rw (e, get_or_create_session) (by_policy c (is_always_rotate c.reuse_policy))
      ]
    where
      m' : SessionManager
      m' = expire_compartment now cid m

      by_policy :
          (c : IdentityCompartment) (b : Bool)
          → Holds
              (if b
                then rotate_and_create now fresh cid c m'
                else reuse_or_create now fresh cid c m').0
      by_policy c true =
          rotate_and_create-Holds now fresh cid c m' (expire_compartment_unused now cid m fresh u)
            (expire_compartment-Holds now cid m h)
      by_policy c false =
          reuse_or_create-Holds now fresh cid c m' (expire_compartment_unused now cid m fresh u)
            (expire_compartment-Holds now cid m h)

  rotate_session-Holds :
      (now : ℕ) (fresh cid : String) (m : SessionManager)
      → Map.get fresh m.sessions ≡ none
      → Holds m
      → Holds (rotate_session now fresh cid m).0
  unfolding rotate_session
  rotate_session-Holds now fresh cid m u h = elim (Option-cases (Map.get cid m.compartments)) [
    | inl e ↦ rw (e, rotate_session) h
    | inr (c, e) ↦
        rw (e, rotate_session)
          (rotate_and_create-Holds now fresh cid c (expire_compartment now cid m)
            (expire_compartment_unused now cid m fresh u) (expire_compartment-Holds now cid m h))
  ]

  expire_old_sessions-Holds :
      (now : ℕ) (m : SessionManager) → Holds m → Holds (expire_old_sessions now m).0
  unfolding expire_old_sessions
  expire_old_sessions-Holds now m h =
      ground
        (arith, Map.get-modify_all j (apply_expiry now) m.sessions, apply_expiry-Spares now s over)

  step-Holds : (m : SessionManager) (c : ℕ × Call) → IsFresh m c → Holds m → Holds (step m c)
  unfolding step
  step-Holds m (now, registers c) u h = unfold register_compartment in ground arith
  step-Holds m (now, gets_or_creates fresh cid) u h =
      get_or_create_session-Holds now fresh cid m u h
  step-Holds m (now, rotates fresh cid) u h = rotate_session-Holds now fresh cid m u h
  step-Holds m (now, revokes id) u h =
      unfold revoke_session in
      ground (arith, modify-Holds id (revoke now) m.sessions (revoke-Spares now) h)
  step-Holds m (now, uses id) u h =
      unfold record_use in
      ground
        (arith, modify-Holds id (λ x. (use_session now x).0) m.sessions (use_session-Spares now) h)
  step-Holds m (now, expires) u h = expire_old_sessions-Holds now m h
  step-Holds m (now, lists none) u h = unfold list_sessions in expire_old_sessions-Holds now m h
  step-Holds m (now, lists (some cid)) u h =
      unfold list_sessions in expire_compartment-Holds now cid m h

-- A session that is rotated, expired or revoked is kept as it is by every further sequence of calls
-- in which no generated id was already in use.
pub ended_absorbs :
    (m : SessionManager) (j : String) (s : SessionRecord) (cs : List (ℕ × Call))
    → Map.get j m.sessions ≡ some s
    → is_active s.status ≡ false
    → AllFresh m cs
    → Map.get j (run m cs).sessions ≡ some s
unfolding run
ended_absorbs m j s [] h over u = h
ended_absorbs m j s (c ∷ cs) h over u =
    ended_absorbs (step m c) j s cs (step-Holds j s over m c u.0 h) over u.1
