-- ===== src/Session/Invariant.antt =====
-- The invariant of packages/core/src/session-manager/manager.ts: every session is indexed under its
-- registered compartment, and a compartment has one active session at most.
use gyges_research_layer.Base.{
  ℕ, true, false, ◌||◌, ◌≡◌, ◌≢◌, sym, ◌∙◌, String, str_eq, eq_iff, List, [], ◌∷◌, ◌++◌, none, some,
  inl, inr, arith, Option-cases, if◌then◌else◌,
}
use gyges_research_layer.Base.Map
use gyges_research_layer.Base.Map.{Map, elem, map_option}
use gyges_research_layer.Session.Active.{
  Ends, modify_each-Ends, apply_expiry-Calms, mark_rotated-Calms, apply_expiry_twice,
  mark_rotated_twice,
}
use gyges_research_layer.Session.{
  SessionManager, SessionRecord, IdentityCompartment, is_active, session_ids, apply_expiry,
  mark_rotated, new_session, create_session, mark_active_as_rotated, expire_compartment,
}

-- What holds of the three maps of a manager together.
pub record Inv (m : SessionManager) : Type 0 where
  pub keyed :
      (cid : String) (c : IdentityCompartment) → Map.get cid m.compartments ≡ some c → c.id ≡ cid
  pub registered :
      (j : String) (s : SessionRecord)
      → Map.get j m.sessions ≡ some s
      → Map.has s.compartment_id m.compartments ≡ true
  pub indexed :
      (j : String) (s : SessionRecord)
      → Map.get j m.sessions ≡ some s
      → elem j (session_ids s.compartment_id m) ≡ true
  pub owned :
      (cid j : String) (s : SessionRecord)
      → elem j (session_ids cid m) ≡ true
      → Map.get j m.sessions ≡ some s
      → s.compartment_id ≡ cid
  pub filled : (cid j : String) → elem j (session_ids cid m) ≡ true → Map.get j m.sessions ≢ none
  pub single :
      (i j : String) (s t : SessionRecord)
      → Map.get i m.sessions ≡ some s
      → Map.get j m.sessions ≡ some t
      → s.compartment_id ≡ t.compartment_id
      → is_active s.status ≡ true
      → is_active t.status ≡ true
      → i ≡ j

-- No session of the compartment is active.
abbrev pub AllEnded : String → SessionManager → Type 0
AllEnded cid m =
    (j : String) (s : SessionRecord)
    → Map.get j m.sessions ≡ some s
    → s.compartment_id ≡ cid
    → is_active s.status ≡ false

pub Ends-Inv :
    (m : SessionManager) (sessions : Map SessionRecord)
    → Ends m.sessions sessions
    → Inv m
    → Inv (record m { sessions = sessions })
Ends-Inv m sessions e v = record {
  keyed = v.keyed;
  registered = λ j s h. let (s₀, g, c, a) = e.source j s h in rw c (v.registered j s₀ g);
  indexed = λ j s h. let (s₀, g, c, a) = e.source j s h in rw c (v.indexed j s₀ g);
  owned = λ cid j s i h. let (s₀, g, c, _) = e.source j s h in c ∙ v.owned cid j s₀ i g;
  filled = λ cid j i n. v.filled cid j i (e.kept j n);
  single = λ i j s t h k c a b.
      let (s₀, g, cs, live) = e.source i s h in
      let (t₀, l, ct, live') = e.source j t k in
      v.single i j s₀ t₀ g l (sym cs ∙ c ∙ ct) (live a) (live' b);
}

elem-append : (j k : String) (xs : List String) → elem j (xs ++ k ∷ []) ≡ (elem j xs || str_eq k j)
unfolding elem
elem-append j k [] = ground arith
elem-append j k (x ∷ xs) = ground (arith, elem-append j k xs)

module _ (now : ℕ) (fresh : String) (c : IdentityCompartment) (m : SessionManager) (v : Inv m)
    (known : Map.has c.id m.compartments ≡ true) (unused : Map.get fresh m.sessions ≡ none)
    (ended : AllEnded c.id m) where
  get_created :
      (j : String)
      → Map.get j (create_session now fresh c m).0.sessions
        ≡ (if str_eq fresh j then some (new_session now fresh c) else Map.get j m.sessions)
  unfolding create_session
  get_created j = Map.get-set fresh j (new_session now fresh c) m.sessions

  created_ids :
      (cid : String)
      → session_ids cid (create_session now fresh c m).0
        ≡ (if str_eq c.id cid then session_ids cid m ++ fresh ∷ [] else session_ids cid m)
  unfolding create_session
  created_ids cid = ground (
    arith,
    eq_iff c.id cid,
    Map.get-set c.id cid (session_ids c.id m ++ fresh ∷ []) m.by_compartment,
  )

  pub create-Inv : Inv (create_session now fresh c m).0
  unfolding create_session new_session
  create-Inv = record {
    keyed = v.keyed;
    registered = λ j s h. ground (arith, get_created j, v.registered j s);
    indexed = λ j s h. ground (
      arith,
      get_created j,
      eq_iff fresh j,
      created_ids s.compartment_id,
      eq_iff c.id s.compartment_id,
      elem-append j fresh (session_ids s.compartment_id m),
      v.indexed j s,
    );
    owned = λ cid j s i h. ground (
      arith,
      get_created j,
      eq_iff fresh j,
      created_ids cid,
      eq_iff c.id cid,
      elem-append j fresh (session_ids cid m),
      v.owned cid j s,
      v.filled cid j,
    );
    filled = λ cid j i n. ground (
      arith,
      get_created j,
      eq_iff fresh j,
      created_ids cid,
      eq_iff c.id cid,
      elem-append j fresh (session_ids cid m),
      v.filled cid j,
    );
    single = λ i j s t h k e a b. ground (
      arith,
      get_created i,
      get_created j,
      eq_iff fresh i,
      eq_iff fresh j,
      ended i s,
      ended j t,
      v.single i j s t,
    );
  }

module _ (now : ℕ) (cid : String) (m : SessionManager) (v : Inv m) where
  pub expire_compartment-Inv : Inv (expire_compartment now cid m)
  unfolding expire_compartment
  expire_compartment-Inv =
      Ends-Inv m _
        (modify_each-Ends (apply_expiry now) (apply_expiry-Calms now) (session_ids cid m) m.sessions
          (apply_expiry_twice now))
        v

  pub mark_active_as_rotated-Inv : Inv (mark_active_as_rotated cid m)
  unfolding mark_active_as_rotated
  mark_active_as_rotated-Inv =
      Ends-Inv m _
        (modify_each-Ends mark_rotated mark_rotated-Calms (session_ids cid m) m.sessions
          mark_rotated_twice)
        v

  pub marked_ended : AllEnded cid (mark_active_as_rotated cid m)
  unfolding mark_active_as_rotated mark_rotated
  marked_ended j s h e = elim (Option-cases (Map.get j m.sessions)) [
    | inl n ↦ ground (
      arith,
      n,
      Map.get-modify_each (session_ids cid m) j mark_rotated m.sessions mark_rotated_twice,
    )
    | inr (x, n) ↦ ground (
      arith,
      n,
      v.indexed j x n,
      Map.get-modify_each (session_ids cid m) j mark_rotated m.sessions mark_rotated_twice,
    )
  ]
