-- ===== src/Session/Active.antt =====
-- Writes of packages/core/src/session-manager/manager.ts that only ever end sessions, and what they
-- do to the sessions that a manager stores.
use gyges_research_layer.Base.{
  ℕ, Bool, true, false, ◌≡◌, ◌∙◌, sym, refl, String, str_eq, eq_iff, List, [], ◌∷◌, Option, none,
  some, inl, inr, arith, Option-cases, if◌then◌else◌,
}
use gyges_research_layer.Base.Map
use gyges_research_layer.Base.Map.{Map, elem, map_option}
use gyges_research_layer.Session.{
  SessionManager, SessionRecord, session_ids, mark_active_as_rotated, expire_compartment, is_active,
  is_due, apply_expiry, mark_rotated, revoke, use_session, set_status, rotated, first_active,
  find_active,
}

-- The write keeps the compartment and makes no session active.
abbrev pub Calms : (SessionRecord → SessionRecord) → Type 0
Calms f =
    (s : SessionRecord)
    → ((f s).compartment_id ≡ s.compartment_id)
      × (is_active (f s).status ≡ true → is_active s.status ≡ true)

pub apply_expiry-Calms : (now : ℕ) → Calms (apply_expiry now)
unfolding apply_expiry is_due
apply_expiry-Calms now s = ground arith

pub mark_rotated-Calms : Calms mark_rotated
unfolding mark_rotated
mark_rotated-Calms s = ground arith

pub revoke-Calms : (now : ℕ) → Calms (revoke now)
unfolding revoke apply_expiry is_due
revoke-Calms now s = ground arith

pub use_session-Calms : (now : ℕ) → Calms (λ s. (use_session now s).0)
unfolding use_session apply_expiry is_due
use_session-Calms now s = ground arith

pub set_rotated-Calms : Calms (set_status rotated)
set_rotated-Calms s = ground arith

-- Every session of the second map is one of the first, of the same compartment, and active only if
-- it was.
pub record Ends (m m' : Map SessionRecord) : Type 0 where
  pub source :
      (j : String) (s' : SessionRecord)
      → Map.get j m' ≡ some s'
      → (s : SessionRecord) × (Map.get j m ≡ some s)
        × (s'.compartment_id ≡ s.compartment_id)
        × (is_active s'.status ≡ true → is_active s.status ≡ true)
  pub kept : (j : String) → Map.get j m' ≡ none → Map.get j m ≡ none

pub Ends-none :
    {m m' : Map SessionRecord} → Ends m m' → (j : String) → Map.get j m ≡ none → Map.get j m' ≡ none
Ends-none {m' = m'} e j n = elim (Option-cases (Map.get j m')) [
  | inl g ↦ g
  | inr (s', g) ↦ let (s, l, _, _) = e.source j s' g in cc (n, l)
]

module _ (f : SessionRecord → SessionRecord) (calms : Calms f) where
  -- A map that holds at each key what the first holds, with or without the write.
  ends_by :
      (b : Bool) (o : Option SessionRecord) (s' : SessionRecord)
      → (if b then map_option f o else o) ≡ some s'
      → (s : SessionRecord) × (o ≡ some s)
        × (s'.compartment_id ≡ s.compartment_id)
        × (is_active s'.status ≡ true → is_active s.status ≡ true)
  ends_by b none s' h = ground arith
  ends_by true (some s) s' h = (s, refl, ground (arith, calms s), ground (arith, calms s))
  ends_by false (some s) s' h = (s, refl, ground arith, ground arith)

  pub Ends-pointwise :
      (m m' : Map SessionRecord) (b : String → Bool)
      → ((j : String) → Map.get j m' ≡ (if b j then map_option f (Map.get j m) else Map.get j m))
      → Ends m m'
  Ends-pointwise m m' b h = record {
    source = λ j s' g. ends_by (b j) (Map.get j m) s' (sym (h j) ∙ g);
    kept = λ j g. ground (arith, h j);
  }

  pub modify-Ends : (id : String) (m : Map SessionRecord) → Ends m (Map.modify id f m)
  modify-Ends id m = Ends-pointwise m _ (λ j. str_eq id j) (λ j. Map.get-modify id j f m)

  pub modify_all-Ends : (m : Map SessionRecord) → Ends m (Map.modify_all f m)
  modify_all-Ends m = Ends-pointwise m _ (λ j. true) (λ j. Map.get-modify_all j f m)

  pub modify_each-Ends :
      (ids : List String) (m : Map SessionRecord)
      → ((s : SessionRecord) → f (f s) ≡ f s)
      → Ends m (Map.modify_each ids f m)
  modify_each-Ends ids m twice =
      Ends-pointwise m _ (λ j. elem j ids) (λ j. Map.get-modify_each ids j f m twice)

pub apply_expiry_twice :
    (now : ℕ) (s : SessionRecord) → apply_expiry now (apply_expiry now s) ≡ apply_expiry now s
unfolding apply_expiry is_due
apply_expiry_twice now s = ground arith

pub mark_rotated_twice : (s : SessionRecord) → mark_rotated (mark_rotated s) ≡ mark_rotated s
unfolding mark_rotated
mark_rotated_twice s = ground arith

-- `findActive` finds an active session that is stored under one of the ids.
pub first_active-some :
    (ids : List String) (m : Map SessionRecord) (id : String) (s : SessionRecord)
    → first_active ids m ≡ some (id, s)
    → (Map.get id m ≡ some s) × (elem id ids ≡ true) × (is_active s.status ≡ true)
unfolding first_active elem
first_active-some [] m id s h = cc
first_active-some (k ∷ ks) m id s h = elim (Option-cases (Map.get k m)) [
  | inl e ↦ ground (arith, e, eq_iff k id, first_active-some ks m id s)
  | inr (x, e) ↦ ground (arith, e, eq_iff k id, first_active-some ks m id s)
]

pub find_active-some :
    (cid : String) (m : SessionManager) (id : String) (s : SessionRecord)
    → find_active cid m ≡ some (id, s)
    → (Map.get id m.sessions ≡ some s)
      × (elem id (session_ids cid m) ≡ true)
      × (is_active s.status ≡ true)
unfolding find_active
find_active-some cid m id s h = first_active-some (session_ids cid m) m.sessions id s h

-- Where it finds none, no session under the ids is active.
pub first_active-none :
    (ids : List String) (m : Map SessionRecord) (j : String) (s : SessionRecord)
    → first_active ids m ≡ none
    → elem j ids ≡ true
    → Map.get j m ≡ some s
    → is_active s.status ≡ false
unfolding first_active elem
first_active-none [] m j s h e g = cc
first_active-none (k ∷ ks) m j s h e g = elim (Option-cases (Map.get k m)) [
  | inl n ↦ ground (arith, n, eq_iff k j, first_active-none ks m j s)
  | inr (x, n) ↦ ground (arith, n, eq_iff k j, first_active-none ks m j s)
]

-- An id that is not in use stays so.
pub marked_unused :
    (cid : String) (m : SessionManager) (fresh : String)
    → Map.get fresh m.sessions ≡ none
    → Map.get fresh (mark_active_as_rotated cid m).sessions ≡ none
unfolding mark_active_as_rotated
marked_unused cid m fresh u =
    Ends-none
      (modify_each-Ends mark_rotated mark_rotated-Calms (session_ids cid m) m.sessions
        mark_rotated_twice)
      fresh u

pub expire_compartment_unused :
    (now : ℕ) (cid : String) (m : SessionManager) (fresh : String)
    → Map.get fresh m.sessions ≡ none
    → Map.get fresh (expire_compartment now cid m).sessions ≡ none
unfolding expire_compartment
expire_compartment_unused now cid m fresh u =
    Ends-none
      (modify_each-Ends (apply_expiry now) (apply_expiry-Calms now) (session_ids cid m) m.sessions
        (apply_expiry_twice now))
      fresh u
