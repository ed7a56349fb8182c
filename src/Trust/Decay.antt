-- ===== src/Trust/Decay.antt =====
-- The decay pass of packages/core/src/trust-reputation/engine.ts, which restores degraded profiles.
use gyges_research_layer.Base.{
  ℕ, ◌+◌, ◌≤◌, max, Bool, true, false, ◌≡◌, ◌⊎◌, refl, String, str_eq, List, [], ◌∷◌, Option, some,
  inl, inr, arith, if◌then◌else◌,
}
use gyges_research_layer.Base.Map
use gyges_research_layer.Base.Map.{Map}
use gyges_research_layer.Trust.{
  ReputationProfile, ReputationDecayPolicy, CompartmentTrustEngine, clamp_score, make_trust_score,
  restored, decays, decay_target, decay_all, decayed, apply_decay, too_soon,
}

-- Each profile is left, or takes its turn.
pub get-decay_all :
    (d : ReputationDecayPolicy) (now : ℕ) (m : Map ReputationProfile) (last : Map ℕ) (cid : String)
    (q : ReputationProfile)
    → Map.get cid (decay_all d now m last).0 ≡ some q
    → (p : ReputationProfile) × (Map.get cid m ≡ some p) × ((q ≡ p) ⊎ (q ≡ restored d now p))
unfolding decay_all Map.get
get-decay_all d now [] last cid q h = cc
get-decay_all d now ((k, p) ∷ m) last cid q h =
    by_key (str_eq k cid) (too_soon d now (Map.get p.compartment_id last)) h
      (get-decay_all d now m _ cid q)
  where
    by_key :
        (b skip : Bool) {rest : Option ReputationProfile}
        → (if b then some (if skip then p else restored d now p) else rest) ≡ some q
        → (rest ≡ some q
            → (p₀ : ReputationProfile) × (Map.get cid m ≡ some p₀)
              × ((q ≡ p₀) ⊎ (q ≡ restored d now p₀)))
        → (p₀ : ReputationProfile) × ((if b then some p else Map.get cid m) ≡ some p₀)
          × ((q ≡ p₀) ⊎ (q ≡ restored d now p₀))
    by_key true true e r = (p, refl, inl (ground arith))
    by_key true false e r = (p, refl, inr (ground arith))
    by_key false skip e r = r e

restored_bounds :
    (d : ReputationDecayPolicy) (now : ℕ) (p : ReputationProfile)
    → p.score.value ≤ 100
    → (p.score.value ≤ (restored d now p).score.value)
      × ((restored d now p).score.value ≤ max p.score.value d.max_score)
      × ((restored d now p).score.value ≤ p.score.value + d.recovery_delta)
unfolding restored decays decay_target make_trust_score clamp_score
restored_bounds d now p b = ground arith

-- A decay pass never lowers a score that is within bounds, never raises one above the policy's
-- maximum, raises it by the policy's step at most, and leaves the history of every profile.
pub apply_decay_bounds :
    (now : ℕ) (t : CompartmentTrustEngine) (cid : String) (q : ReputationProfile)
    → ((c : String) (p : ReputationProfile) → Map.get c t.profiles ≡ some p → p.score.value ≤ 100)
    → Map.get cid (apply_decay now t).0.profiles ≡ some q
    → (p : ReputationProfile) × (Map.get cid t.profiles ≡ some p)
      × (p.score.value ≤ q.score.value)
      × (q.score.value ≤ max p.score.value t.decay_policy.max_score)
      × (q.score.value ≤ p.score.value + t.decay_policy.recovery_delta)
      × (q.events ≡ p.events)
unfolding apply_decay
apply_decay_bounds now t cid q b h = by_enabled t.decay_policy.enabled h
  where
    d : ReputationDecayPolicy
    d = t.decay_policy

    events-restored : (p : ReputationProfile) → (restored d now p).events ≡ p.events
    events-restored p = unfold restored in ground arith

    by_enabled :
        (e : Bool)
        → Map.get cid
            (if◌then◌else◌ {A = CompartmentTrustEngine × List ReputationProfile} e
              (decayed now t)
              (t, [])).0.profiles
          ≡ some q
        → (p : ReputationProfile) × (Map.get cid t.profiles ≡ some p)
          × (p.score.value ≤ q.score.value)
          × (q.score.value ≤ max p.score.value d.max_score)
          × (q.score.value ≤ p.score.value + d.recovery_delta)
          × (q.events ≡ p.events)
    by_enabled false g = (q, g, omega arith, omega arith, omega arith, refl)
    by_enabled true g =
        let (p, at_p, same) = get-decay_all d now t.profiles t.last_decay_at cid q g in
        (
          p,
          at_p,
          ground (arith, restored_bounds d now p (b cid p at_p)),
          ground (arith, restored_bounds d now p (b cid p at_p)),
          ground (arith, restored_bounds d now p (b cid p at_p)),
          ground (arith, events-restored p),
        )
