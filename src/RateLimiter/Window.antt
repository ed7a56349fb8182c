-- ===== src/RateLimiter/Window.antt =====
-- The sliding window of packages/core/src/adaptive-defense/rate-limiter.ts: what its buckets hold.
use gyges_research_layer.Base.{
  ℕ, ◌+◌, ◌≤◌, Bool, false, ◌≡◌, refl, sym, ◌∙◌, ap, String, str_eq, eq_iff, List, [], ◌∷◌, ◌++◌,
  Option, none, some, inl, inr, arith, if◌then◌else◌, leb, keep, find, All, Bool-cases,
}
use gyges_research_layer.Base.Map
use gyges_research_layer.Base.Map.{Map}
use mathlib.Core.List.{append_assoc, append-nil}
use gyges_research_layer.RateLimiter.{
  RateLimitPolicy, RateLimitEvaluationInput, CapabilityRateLimiter, bucket_key, bucket, push,
  record_in, record_all, evaluate, active_block_for, run,
}

-- The times in a window that ends at `now`.
abbrev pub in_window : ℕ → ℕ → List ℕ → List ℕ
in_window window now = keep (λ t. leb now (t + window))

keep-append {ℓ} :
    {A : Type ℓ} (p : A → Bool) (xs ys : List A) → keep p (xs ++ ys) ≡ keep p xs ++ keep p ys
unfolding keep
keep-append p [] ys = refl
keep-append p (x ∷ xs) ys = ground (arith, keep-append p xs ys)

-- What left the window earlier is not in it later.
keep_later :
    (window now later : ℕ) (ts : List ℕ)
    → now ≤ later
    → in_window window later (in_window window now ts) ≡ in_window window later ts
unfolding keep
keep_later window now later [] h = refl
keep_later window now later (t ∷ ts) h = ground (arith, keep_later window now later ts h)

keep_now : (window now : ℕ) → in_window window now (now ∷ []) ≡ now ∷ []
unfolding keep
keep_now window now = ground arith

-- Pushing onto the window of a history gives the window of the longer history.
pub push-in_window :
    (window now later : ℕ) (ts : List ℕ)
    → now ≤ later
    → push window later (in_window window now ts) ≡ in_window window later (ts ++ later ∷ [])
unfolding push
push-in_window window now later ts h =
    rw (keep_later window now later ts h, keep-append (λ t. leb later (t + window)) ts)
      (ap (λ l. in_window window later ts ++ l) (sym (keep_now window later)))

-- One push after the other.
abbrev pushes : ℕ → List ℕ → List ℕ → List ℕ
pushes window b [] = b
pushes window b (t ∷ ts) = pushes window (push window t b) ts

-- The times do not go back, from `t` on.
abbrev pub Ascends : ℕ → List ℕ → Type 0
Ascends t [] = Unit
Ascends t (u ∷ us) = (t ≤ u) × Ascends u us

abbrev pub latest : ℕ → List ℕ → ℕ
latest t [] = t
latest t (u ∷ us) = latest u us

pushes-in_window :
    (window t : ℕ) (history ts : List ℕ)
    → Ascends t ts
    → pushes window (in_window window t history) ts ≡ in_window window (latest t ts) (history ++ ts)
pushes-in_window window t history [] a = rw append-nil
pushes-in_window window t history (u ∷ us) a = rw (push-in_window window t u history a.0) (
    pushes-in_window window u (history ++ u ∷ []) us a.1
    ∙ ap (in_window window (latest u us)) (append_assoc history (u ∷ []) us))

pushes_from_empty :
    (window : ℕ) (ts : List ℕ)
    → Ascends 0 ts
    → pushes window [] ts ≡ in_window window (latest 0 ts) ts
unfolding keep
pushes_from_empty window ts a = pushes-in_window window 0 [] ts a

-- Whether a request is counted in the bucket `k` by a policy that gives it this bucket key.
abbrev pub is_key : String → Option String → Bool
is_key k none = false
is_key k (some j) = str_eq j k

-- The times at which the policy counted a request in the bucket `k`.
abbrev pub times : String → RateLimitPolicy → List RateLimitEvaluationInput → List ℕ
times k p [] = []
times k p (i ∷ is) =
    let rest = times k p is in if is_key k (bucket_key p i) then i.timestamp ∷ rest else rest

-- None of the policies counts the request in the bucket `k`.
abbrev pub Silent : String → RateLimitEvaluationInput → List RateLimitPolicy → Type 0
Silent k i = All (λ q. is_key k (bucket_key q i) ≡ false)

abbrev pub pushed : String → RateLimitPolicy → RateLimitEvaluationInput → List ℕ → List ℕ
pushed k p i b = if is_key k (bucket_key p i) then push p.window_ms i.timestamp b else b

bucket-record_in :
    (k : String) (p : RateLimitPolicy) (i : RateLimitEvaluationInput) (w : Map (List ℕ))
    (o : Option String)
    → bucket k (record_in p i w o).0
      ≡ (if is_key k o then push p.window_ms i.timestamp (bucket k w) else bucket k w)
unfolding record_in
bucket-record_in k p i w none = refl
bucket-record_in k p i w (some j) =
    ground (arith, eq_iff j k, Map.get-set j k (push p.window_ms i.timestamp (bucket j w)) w)

pub bucket-Silent :
    (k : String) (i : RateLimitEvaluationInput) (qs : List RateLimitPolicy) (w : Map (List ℕ))
    → Silent k i qs
    → bucket k (record_all qs i w).0 ≡ bucket k w
unfolding record_all
bucket-Silent k i [] w s = refl
bucket-Silent k i (q ∷ qs) w s =
    bucket-Silent k i qs (record_in q i w (bucket_key q i)).0 s.1
    ∙ (bucket-record_in k q i w (bucket_key q i) ∙ rw s.0)

-- Among policies of which only `p` counts in the bucket `k`, recording a request is `p`'s push.
pub bucket-record_all :
    (k : String) (before : List RateLimitPolicy) (p : RateLimitPolicy)
    (after : List RateLimitPolicy) (i : RateLimitEvaluationInput) (w : Map (List ℕ))
    → Silent k i before
    → Silent k i after
    → bucket k (record_all (before ++ p ∷ after) i w).0 ≡ pushed k p i (bucket k w)
unfolding record_all
bucket-record_all k [] p after i w b a =
    bucket-Silent k i after (record_in p i w (bucket_key p i)).0 a
    ∙ bucket-record_in k p i w (bucket_key p i)
bucket-record_all k (q ∷ qs) p after i w b a =
    bucket-record_all k qs p after i (record_in q i w (bucket_key q i)).0 b.1 a
    ∙ ap (pushed k p i) (bucket-record_in k q i w (bucket_key q i) ∙ rw b.0)

pushes-pushed :
    (k : String) (p : RateLimitPolicy) (i : RateLimitEvaluationInput) (b ts : List ℕ)
    → pushes p.window_ms (pushed k p i b) ts
      ≡ pushes p.window_ms b (if is_key k (bucket_key p i) then i.timestamp ∷ ts else ts)
pushes-pushed k p i b ts = elim (Bool-cases (is_key k (bucket_key p i))) [
  | inl e ↦ rw e
  | inr e ↦ rw e
]

module _ (k : String) (before : List RateLimitPolicy) (p : RateLimitPolicy)
    (after : List RateLimitPolicy) where
  -- A limiter with these policies and no temporary block.
  abbrev pub limiter : Map (List ℕ) → CapabilityRateLimiter
  limiter w = record { policies = before ++ p ∷ after; blocks = []; windows = w }

  -- Of the policies only `p` counts any of the requests in the bucket `k`.
  abbrev pub Sole : List RateLimitEvaluationInput → Type 0
  Sole = All (λ i. Silent k i before × Silent k i after)

  bucket-pushes :
      (w : Map (List ℕ)) (is : List RateLimitEvaluationInput)
      → Sole is
      → bucket k (run (limiter w) is).windows ≡ pushes p.window_ms (bucket k w) (times k p is)
  unfolding run evaluate active_block_for find
  bucket-pushes w [] s = refl
  bucket-pushes w (i ∷ is) s =
      bucket-pushes (record_all (before ++ p ∷ after) i w).0 is s.1
      ∙ rw (bucket-record_all k before p after i w s.0.0 s.0.1)
          (pushes-pushed k p i (bucket k w) (times k p is))

  -- Requests in the order of time, of which only `p` counts any in the bucket `k`: from an empty
  -- limiter on, that bucket holds the times that `p` counted there and that lie in the window which
  -- ends at the last of them, refused requests included.
  pub bucket-run :
      (is : List RateLimitEvaluationInput)
      → Sole is
      → Ascends 0 (times k p is)
      → bucket k (run (limiter []) is).windows
        ≡ in_window p.window_ms (latest 0 (times k p is)) (times k p is)
  unfolding Map.get
  bucket-run is s a = bucket-pushes [] is s ∙ pushes_from_empty p.window_ms (times k p is) a

  -- Requests leave the policies and the blocks as they are.
  pub run-limiter :
      (w : Map (List ℕ)) (is : List RateLimitEvaluationInput)
      → run (limiter w) is ≡ limiter (run (limiter w) is).windows
  unfolding run evaluate active_block_for find
  run-limiter w [] = refl
  run-limiter w (i ∷ is) = run-limiter (record_all (before ++ p ∷ after) i w).0 is
