-- ===== src/Session/Unique.antt =====
-- The calls of packages/core/src/session-manager/manager.ts keep the invariant, so that a compartment
-- never has two active sessions.
use gyges_research_layer.Base.{
  ℕ, Bool, true, false, ◌≡◌, String, eq_iff, List, [], ◌∷◌, none, some, inl, inr, arith,
  Option-cases, leb, if◌then◌else◌, ok,
}
use gyges_research_layer.Base.Map
use gyges_research_layer.Base.Map.{Map, elem, map_option}
use gyges_research_layer.Session.Active.{
  Ends-none, marked_unused, expire_compartment_unused, modify-Ends, modify_all-Ends,
  apply_expiry-Calms, revoke-Calms, use_session-Calms, set_rotated-Calms, find_active-some,
  first_active-none,
}
use gyges_research_layer.Session.{
  SessionManager, SessionManagerConfig, SessionRecord, IdentityCompartment, is_active, session_ids,
  set_status, rotated, find_active, returns, is_always_rotate, create_session,
  mark_active_as_rotated, expire_compartment, reuse_or_create, rotate_and_create,
  get_or_create_session, rotate_session, register_compartment, revoke_session, record_use,
  expire_old_sessions, list_sessions, Call, registers, gets_or_creates, rotates, revokes, uses,
  expires, lists, step, run, new, IsFresh, AllFresh,
}
use gyges_research_layer.Session.Invariant.{
  Inv, AllEnded, Ends-Inv, create-Inv, expire_compartment-Inv, mark_active_as_rotated-Inv,
  marked_ended,
}

module _ (now : ℕ) (fresh cid : String) (c : IdentityCompartment) (m : SessionManager) (v : Inv m)
    (known : Map.get cid m.compartments ≡ some c) (unused : Map.get fresh m.sessions ≡ none) where
  own : c.id ≡ cid
  own = v.keyed cid c known

  has_own : Map.has c.id m.compartments ≡ true
  has_own = rw (own, known)

  pub rotate_and_create-Inv : Inv (rotate_and_create now fresh cid c m).0
  unfolding rotate_and_create
  rotate_and_create-Inv =
      create-Inv now fresh c (mark_active_as_rotated cid m) (mark_active_as_rotated-Inv now cid m v)
        (unfold mark_active_as_rotated in has_own) (marked_unused cid m fresh unused)
        (rw own (marked_ended now cid m v))

  none_ended : find_active cid m ≡ none → AllEnded cid m
  unfolding find_active
  none_ended e j s g o =
      first_active-none (session_ids cid m) m.sessions j s e (rw o at (v.indexed j s g)) g

  rotated_ended :
      (id : String) (s : SessionRecord)
      → find_active cid m ≡ some (id, s)
      → AllEnded cid (record m { sessions = Map.modify id (set_status rotated) m.sessions })
  rotated_ended id s e j t g o =
      let (at_id, listed, live) = find_active-some cid m id s e in
      ground (
        arith,
        Map.get-modify id j (set_status rotated) m.sessions,
        eq_iff id j,
        v.owned cid id s listed at_id,
        v.single id j s t at_id,
      )

  pub reuse_or_create-Inv : Inv (reuse_or_create now fresh cid c m).0
  unfolding reuse_or_create
  reuse_or_create-Inv = elim (Option-cases (find_active cid m)) [
    | inl e ↦
        rw (e, reuse_or_create) (create-Inv now fresh c m v has_own unused (rw own (none_ended e)))
    | inr ((id, s), e) ↦
        rw (e, reuse_or_create) (by_ceiling id s e (leb c.max_requests s.request_count))
  ]
    where
      by_ceiling :
          (id : String) (s : SessionRecord)
          → find_active cid m ≡ some (id, s)
          → (b : Bool)
          → Inv
              (if b
                then returns (
                    create_session now fresh c
                      (record m { sessions = Map.modify id (set_status rotated) m.sessions }))
                else (m, ok s)).0
      by_ceiling id s e true =
          create-Inv now fresh c _
            (Ends-Inv m _ (modify-Ends (set_status rotated) set_rotated-Calms id m.sessions) v)
            has_own
            (Ends-none (modify-Ends (set_status rotated) set_rotated-Calms id m.sessions) fresh
              unused)
            (rw own (rotated_ended id s e))
      by_ceiling id s e false = v

module _ (now : ℕ) (m : SessionManager) (v : Inv m) where
  get_or_create_session-Inv :
      (fresh cid : String)
      → Map.get fresh m.sessions ≡ none
      → Inv (get_or_create_session now fresh cid m).0
  unfolding get_or_create_session
  get_or_create_session-Inv fresh cid u = elim (Option-cases (Map.get cid m.compartments)) [
    | inl e ↦ rw (e, get_or_create_session) v
    | inr (c, e) ↦ rw (e, get_or_create_session) (by_policy c (is_always_rotate c.reuse_policy) e)
  ]
    where
      m' : SessionManager
      m' = expire_compartment now cid m

      by_policy :
          (c : IdentityCompartment) (b : Bool)
          → Map.get cid m.compartments ≡ some c
          → Inv
              (if b
                then rotate_and_create now fresh cid c m'
                else reuse_or_create now fresh cid c m').0
      by_policy c true e =
          rotate_and_create-Inv now fresh cid c m' (expire_compartment-Inv now cid m v)
            (unfold expire_compartment in e) (expire_compartment_unused now cid m fresh u)
      by_policy c false e =
          reuse_or_create-Inv now fresh cid c m' (expire_compartment-Inv now cid m v)
            (unfold expire_compartment in e) (expire_compartment_unused now cid m fresh u)

  rotate_session-Inv :
      (fresh cid : String)
      → Map.get fresh m.sessions ≡ none
      → Inv (rotate_session now fresh cid m).0
  unfolding rotate_session
  rotate_session-Inv fresh cid u = elim (Option-cases (Map.get cid m.compartments)) [
    | inl e ↦ rw (e, rotate_session) v
    | inr (c, e) ↦
        rw (e, rotate_session)
          (rotate_and_create-Inv now fresh cid c (expire_compartment now cid m)
            (expire_compartment-Inv now cid m v) (unfold expire_compartment in e)
            (expire_compartment_unused now cid m fresh u))
  ]

  register_compartment-Inv : (c : IdentityCompartment) → Inv (register_compartment c m).0
  unfolding register_compartment elem
  register_compartment-Inv c = elim (Option-cases (Map.get c.id m.compartments)) [
    | inr (old, e) ↦ rw (e, register_compartment) v
    | inl e ↦
        rw (e, register_compartment)
          (record {
            keyed = λ cid d h.
                ground
                  (arith, Map.get-set c.id cid c m.compartments, eq_iff c.id cid, v.keyed cid d);
            registered = λ j s h. ground (
              arith,
              Map.get-set c.id s.compartment_id c m.compartments,
              eq_iff c.id s.compartment_id,
              v.registered j s,
            );
            indexed = λ j s h. ground (
              arith,
              Map.get-set c.id s.compartment_id [] m.by_compartment,
              eq_iff c.id s.compartment_id,
              v.indexed j s,
              v.registered j s h,
            );
            owned = λ cid j s i h.
                ground (
                  arith,
                  Map.get-set c.id cid [] m.by_compartment,
                  eq_iff c.id cid,
                  v.owned cid j s,
                );
            filled = λ cid j i n.
                ground (
                  arith,
                  Map.get-set c.id cid [] m.by_compartment,
                  eq_iff c.id cid,
                  v.filled cid j,
                );
            single = v.single;
          })
  ]

  record_use-Inv : (id : String) → Inv (record_use now id m).0
  unfolding record_use
  record_use-Inv id = elim (Option-cases (Map.get id m.sessions)) [
    | inl e ↦ rw (e, record_use) v
    | inr (s, e) ↦
        rw (e, record_use) (Ends-Inv m _ (modify-Ends _ (use_session-Calms now) id m.sessions) v)
  ]

  revoke_session-Inv : (id : String) → Inv (revoke_session now id m).0
  unfolding revoke_session
  revoke_session-Inv id = elim (Option-cases (Map.get id m.sessions)) [
    | inl e ↦ rw (e, revoke_session) v
    | inr (s, e) ↦
        rw (e, revoke_session) (Ends-Inv m _ (modify-Ends _ (revoke-Calms now) id m.sessions) v)
  ]

  expire_old_sessions-Inv : Inv (expire_old_sessions now m).0
  unfolding expire_old_sessions
  expire_old_sessions-Inv = Ends-Inv m _ (modify_all-Ends _ (apply_expiry-Calms now) m.sessions) v

pub step-Inv : (m : SessionManager) (c : ℕ × Call) → IsFresh m c → Inv m → Inv (step m c)
unfolding step
step-Inv m (now, registers c) u v = register_compartment-Inv now m v c
step-Inv m (now, gets_or_creates fresh cid) u v = get_or_create_session-Inv now m v fresh cid u
step-Inv m (now, rotates fresh cid) u v = rotate_session-Inv now m v fresh cid u
step-Inv m (now, revokes id) u v = revoke_session-Inv now m v id
step-Inv m (now, uses id) u v = record_use-Inv now m v id
step-Inv m (now, expires) u v = expire_old_sessions-Inv now m v
step-Inv m (now, lists none) u v = unfold list_sessions in expire_old_sessions-Inv now m v
step-Inv m (now, lists (some cid)) u v = unfold list_sessions in expire_compartment-Inv now cid m v

-- Every sequence of calls in which no generated id was already in use keeps the invariant: a session
-- is stored under an index entry of its own registered compartment, an index entry has a session, and
-- a compartment has at most one active session.
pub run-Inv : (m : SessionManager) (cs : List (ℕ × Call)) → AllFresh m cs → Inv m → Inv (run m cs)
unfolding run
run-Inv m [] u v = v
run-Inv m (c ∷ cs) u v = run-Inv (step m c) cs u.1 (step-Inv m c u.0 v)

pub new-Inv : (config : SessionManagerConfig) → Inv (new config)
unfolding new Map.get elem
new-Inv config = record {
  keyed = λ cid c h. cc;
  registered = λ j s h. cc;
  indexed = λ j s h. cc;
  owned = λ cid j s i h. cc;
  filled = λ cid j i n. cc;
  single = λ i j s t h k e a b. cc;
}

-- Whatever calls are made of a new manager, if no generated id was already in use, then two active
-- sessions of the same compartment are the same session.
pub single_active :
    (config : SessionManagerConfig) (cs : List (ℕ × Call)) (i j : String) (s t : SessionRecord)
    → AllFresh (new config) cs
    → Map.get i (run (new config) cs).sessions ≡ some s
    → Map.get j (run (new config) cs).sessions ≡ some t
    → s.compartment_id ≡ t.compartment_id
    → is_active s.status ≡ true
    → is_active t.status ≡ true
    → i ≡ j
single_active config cs i j s t u = (run-Inv (new config) cs u (new-Inv config)).single i j s t
