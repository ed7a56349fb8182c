-- ===== src/Session/Tests.antt =====
-- The session manager on a concrete history.
use gyges_research_layer.Base.{ℕ, true, ◌≡◌, refl, String, List, [], ◌∷◌, none, some, is_ok, arith}
use gyges_research_layer.Base.Map
use gyges_research_layer.Base.Map.{map_option}
use gyges_research_layer.Vocabulary.{direct}
use gyges_research_layer.Session.{
  IdentityCompartment, SessionManagerConfig, SessionRecord, rotated, reuse_active, Call, registers,
  gets_or_creates, revokes, uses, expires, lists, set_status, touch, new, new_session, step, run,
  register_compartment, get_or_create_session, reuse_or_create, record_use, use_session,
  expire_compartment, apply_expiry, is_due, find_active, first_active, create_session, AllFresh,
}
use gyges_research_layer.Session.Invariant.{Inv}
use gyges_research_layer.Session.Unique.{new-Inv, run-Inv, single_active}
use gyges_research_layer.Session.Terminal.{ended_absorbs}
use gyges_research_layer.Session.Use.{Usable, get_or_create_session-Usable}

abbrev config : SessionManagerConfig
config = record { default_ttl_ms = 1000; default_max_requests = 2 }

abbrev press : IdentityCompartment
press = record {
  id = "press";
  label = none;
  transport_kind = direct;
  reuse_policy = reuse_active;
  ttl_ms = 1000;
  max_requests = 2;
  created_at = 0;
}

-- A session is used up, and the next call makes another.
abbrev history : List (ℕ × Call)
history =
    (0, registers press)
    ∷ (1, gets_or_creates "s1" "press")
    ∷ (2, uses "s1")
    ∷ (3, uses "s1")
    ∷ (4, gets_or_creates "s2" "press")
    ∷ []

abbrev s1 : SessionRecord
s1 = set_status rotated (touch 3 (touch 2 (new_session 1 "s1" press)))

abbrev s2 : SessionRecord
s2 = new_session 4 "s2" press

abbrev latest_id : String
latest_id = "s2"

module _ where
  all_fresh : AllFresh (new config) history
  unfolding run step register_compartment get_or_create_session reuse_or_create record_use
      use_session expire_compartment apply_expiry is_due find_active first_active create_session
      new_session new Map.get Map.set Map.modify Map.modify_each
  all_fresh = (tt, (refl, (tt, (tt, (refl, tt)))))

  second : Map.get "s2" (run (new config) history).sessions ≡ some s2
  unfolding run step register_compartment get_or_create_session reuse_or_create record_use
      use_session expire_compartment apply_expiry is_due find_active first_active create_session
      new_session new Map.get Map.set Map.modify Map.modify_each
  second = refl

  first : Map.get "s1" (run (new config) history).sessions ≡ some s1
  unfolding run step register_compartment get_or_create_session reuse_or_create record_use
      use_session expire_compartment apply_expiry is_due find_active first_active create_session
      new_session new Map.get Map.set Map.modify Map.modify_each
  first = refl

history-Inv : Inv (run (new config) history)
history-Inv = run-Inv (new config) history all_fresh (new-Inv config)

single_active_example : latest_id ≡ latest_id
single_active_example =
    single_active config history latest_id latest_id s2 s2 all_fresh second second refl
      (unfold new_session in refl) (unfold new_session in refl)

-- A rotated session stays as it is when its compartment goes on.
abbrev afterwards : List (ℕ × Call)
afterwards = (5, uses "s1") ∷ (6, revokes "s1") ∷ (2000, expires) ∷ (2001, lists none) ∷ []

ended_absorbs_example : Map.get "s1" (run (run (new config) history) afterwards).sessions ≡ some s1
ended_absorbs_example =
    ended_absorbs (run (new config) history) "s1" s1 afterwards first refl
      (tt, (tt, (tt, (tt, tt))))

used : is_ok (record_use 9 "s2" (run (new config) history)).1 ≡ true
unfolding run step register_compartment get_or_create_session reuse_or_create record_use use_session
    expire_compartment apply_expiry is_due find_active first_active create_session new_session new
    Map.get Map.set Map.modify Map.modify_each
used = refl

known : Map.get "press" (run (new config) history).compartments ≡ some press
unfolding run step register_compartment get_or_create_session reuse_or_create record_use use_session
    expire_compartment apply_expiry is_due find_active first_active create_session new_session new
    Map.get Map.set Map.modify Map.modify_each
known = refl

get_or_create_session-Usable_example :
    Usable 9 "press" press (get_or_create_session 9 "s3" "press" (run (new config) history))
get_or_create_session-Usable_example =
    get_or_create_session-Usable 9 "s3" "press" press (run (new config) history) history-Inv known
      (omega arith) (omega arith)
