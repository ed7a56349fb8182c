-- ===== src/RateLimiter/Bound.antt =====
-- The ceiling that packages/core/src/adaptive-defense/rate-limiter.ts keeps.
use gyges_research_layer.Base.{
  ℕ, ◌≤◌, Bool, true, false, ◌≡◌, ◌≢◌, subst, ◌∙◌, String, eq_iff, List, [], ◌∷◌, ◌++◌, Option,
  none, some, inl, inr, arith, Option-cases, Bool-cases, find, length, All, All-append,
}
use gyges_research_layer.Base.Map
use gyges_research_layer.Base.Map.{Map}
use gyges_research_layer.RateLimiter.Window.{
  in_window, is_key, times, Silent, bucket-record_all, bucket-Silent, limiter, Sole, bucket-run,
  run-limiter, Ascends, latest, push-in_window,
}
use gyges_research_layer.RateLimiter.{
  RateLimitPolicy, RateLimitEvaluationInput, PolicyEvaluation, allow, bucket_key, bucket, push,
  evaluation, record_in, record_all, is_exceeded, refusal, decide, evaluate, active_block_for, run,
}

-- No evaluation is over its ceiling.
abbrev pub NoneExceeded : List PolicyEvaluation → Type 0
NoneExceeded = All (λ e. is_exceeded e ≡ false)

-- No policy has the action `allow`.
abbrev pub AllRefuse : List RateLimitPolicy → Type 0
AllRefuse = All (λ p. p.action ≢ allow)

find-none {ℓ} :
    {A : Type ℓ} (p : A → Bool) (xs : List A) → find p xs ≡ none → All (λ x. p x ≡ false) xs
unfolding find
find-none p [] h = tt
find-none p (x ∷ xs) h = ground (arith, find-none p xs)

find_all {ℓ κ} :
    {A : Type ℓ} (P : A → Type κ) (p : A → Bool) (xs : List A) (x : A)
    → All P xs
    → find p xs ≡ some x
    → P x
unfolding find
find_all P p [] x a h = cc
find_all P p (y ∷ ys) x a h = elim (Bool-cases (p y)) [
  | inl e ↦ subst P (ground arith) a.0
  | inr e ↦ find_all P p ys x a.1 (ground arith)
]

append-NoneExceeded : (es fs : List PolicyEvaluation) → NoneExceeded (es ++ fs) → NoneExceeded fs
append-NoneExceeded [] fs n = n
append-NoneExceeded (e ∷ es) fs n = append-NoneExceeded es fs n.1

-- Every evaluation is of one of the policies.
record_in-AllRefuse :
    (p : RateLimitPolicy) (i : RateLimitEvaluationInput) (w : Map (List ℕ)) (o : Option String)
    → p.action ≢ allow
    → All (λ e. e.policy.action ≢ allow) (record_in p i w o).1
unfolding record_in evaluation
record_in-AllRefuse p i w none r = tt
record_in-AllRefuse p i w (some k) r = (r, tt)

record_all-AllRefuse :
    (ps : List RateLimitPolicy) (i : RateLimitEvaluationInput) (w : Map (List ℕ))
    → AllRefuse ps
    → All (λ e. e.policy.action ≢ allow) (record_all ps i w).1
unfolding record_all
record_all-AllRefuse [] i w r = tt
record_all-AllRefuse (p ∷ ps) i w r =
    All-append (λ e. e.policy.action ≢ allow) (record_in p i w (bucket_key p i)).1 _
      (record_in-AllRefuse p i w (bucket_key p i) r.0)
      (record_all-AllRefuse ps i (record_in p i w (bucket_key p i)).0 r.1)

-- A decision to allow means that no evaluation is over its ceiling.
allow-NoneExceeded :
    (i : RateLimitEvaluationInput) (es : List PolicyEvaluation)
    → All (λ e. e.policy.action ≢ allow) es
    → (decide i es).action ≡ allow
    → NoneExceeded es
unfolding decide refusal
allow-NoneExceeded i es r h = elim (Option-cases (find is_exceeded es)) [
  | inl e ↦ find-none is_exceeded es e
  | inr (x, e) ↦
      absurd (find_all (λ y. y.policy.action ≢ allow) is_exceeded es x r e (ground arith))
]

module _ (k : String) (p : RateLimitPolicy) (after : List RateLimitPolicy)
    (i : RateLimitEvaluationInput) (own : is_key k (bucket_key p i) ≡ true)
    (a : Silent k i after) where
  counted_in :
      (w : Map (List ℕ)) (o : Option String) (es : List PolicyEvaluation)
      → is_key k o ≡ true
      → NoneExceeded ((record_in p i w o).1 ++ es)
      → length (bucket k (record_in p i w o).0) ≤ p.max_requests
  unfolding record_in evaluation is_exceeded
  counted_in w none es h n = cc
  counted_in w (some j) es h n =
      ground (arith, eq_iff j k, Map.get-set j k (push p.window_ms i.timestamp (bucket j w)) w)

  counted :
      (before : List RateLimitPolicy) (w : Map (List ℕ))
      → NoneExceeded (record_all (before ++ p ∷ after) i w).1
      → length (bucket k (record_all (before ++ p ∷ after) i w).0) ≤ p.max_requests
  unfolding record_all
  counted [] w n =
      rw (bucket-Silent k i after (record_in p i w (bucket_key p i)).0 a)
        (counted_in w (bucket_key p i) _ own n)
  counted (q ∷ qs) w n =
      counted qs (record_in q i w (bucket_key q i)).0
        (append-NoneExceeded (record_in q i w (bucket_key q i)).1 _ n)

evaluate-limiter :
    (k : String) (before : List RateLimitPolicy) (p : RateLimitPolicy)
    (after : List RateLimitPolicy) (i : RateLimitEvaluationInput) (w : Map (List ℕ))
    → AllRefuse (before ++ p ∷ after)
    → (evaluate i (limiter k before p after w)).1.action ≡ allow
    → NoneExceeded (record_all (before ++ p ∷ after) i w).1
unfolding evaluate active_block_for find
evaluate-limiter k before p after i w refuse h =
    allow-NoneExceeded i _ (record_all-AllRefuse (before ++ p ∷ after) i w refuse) h

-- A limiter starts with the policies `before`, `p` and `after`, none of which has the action `allow`,
-- without a temporary block and with nothing counted, and evaluates requests in the order of time, of
-- which no policy but `p` counts any in the bucket `k`: if a further such request, which `p` counts
-- there and which is not earlier than those, is allowed, then at most `max_requests` of all the
-- requests that `p` counted there, the new one and the refused ones included, lie in the window of `p`
-- that ends at the new request.
pub allowed_bound :
    (k : String) (before : List RateLimitPolicy) (p : RateLimitPolicy)
    (after : List RateLimitPolicy) (is : List RateLimitEvaluationInput)
    (i : RateLimitEvaluationInput)
    → Sole k before p after is
    → Silent k i before
    → Silent k i after
    → AllRefuse (before ++ p ∷ after)
    → Ascends 0 (times k p is)
    → latest 0 (times k p is) ≤ i.timestamp
    → is_key k (bucket_key p i) ≡ true
    → (evaluate i (run (limiter k before p after []) is)).1.action ≡ allow
    → length (in_window p.window_ms i.timestamp (times k p is ++ i.timestamp ∷ [])) ≤ p.max_requests
allowed_bound k before p after is i sole sb sa refuse asc later own h = rw (← seen) (
    counted k p after i own sa before w
      (evaluate-limiter k before p after i w refuse (rw (run-limiter k before p after [] is) at h)))
  where
    w : Map (List ℕ)
    w = (run (limiter k before p after []) is).windows

    seen :
        bucket k (record_all (before ++ p ∷ after) i w).0
        ≡ in_window p.window_ms i.timestamp (times k p is ++ i.timestamp ∷ [])
    seen =
        bucket-record_all k before p after i w sb sa
        ∙ (rw (own, bucket-run k before p after is sole asc)
            (push-in_window p.window_ms _ i.timestamp (times k p is) later))
