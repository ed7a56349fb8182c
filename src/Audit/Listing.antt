-- ===== src/Audit/Listing.antt =====
-- `list` of packages/core/src/audit/store.ts against a listing of the history alone.
use gyges_research_layer.Base.{
  ℕ, zero, suc, ◌≤◌, ◌<◌, ◌≡◌, refl, sym, ap, subst, ◌∙◌, Bool, List, [], ◌∷◌, Option, none, some,
  arith, inl, inr, Bool-cases, newest, keep, take, All,
}
use gyges_research_layer.Base.Int.{ℤ, pos_part}
use gyges_research_layer.Base.Sort.{
  insert, sort, sort_perm, All-sort, Ascends, by_key, sort-Ascends,
}
use gyges_research_layer.Audit.Types.{SecurityEvent, AuditQuery}
use gyges_research_layer.Audit.Store.{
  StoredEvent, AuditStore, new, matches, comes_before, limited, list,
}
use gyges_research_layer.Audit.Window.{
  Call, run, trail, events_of, Rises, run-Shows, new-Shows, run_window,
}
use mathlib.Core.List.{Perm}
use mathlib.Core.List.Perm

module _ {Metadata : Type 0} where
  abbrev Later : StoredEvent Metadata → StoredEvent Metadata → Type 0
  Later x y = x.seq < y.seq

  abbrev pub in_time : List (SecurityEvent Metadata) → List (SecurityEvent Metadata)
  in_time es = sort (by_key (λ e. e.timestamp)) es

  -- Against later events the comparison looks at the times only.
  comes_before-Later :
      (x y : StoredEvent Metadata)
      → Later x y
      → comes_before x y ≡ by_key (λ e. e.timestamp) x.event y.event
  comes_before-Later x y l = ground (arith, l)

  insert_stored :
      (x : StoredEvent Metadata) (ys : List (StoredEvent Metadata))
      → All (Later x) ys
      → events_of (insert comes_before x ys)
        ≡ insert (by_key (λ e. e.timestamp)) x.event (events_of ys)
  unfolding insert
  insert_stored x [] a = refl
  insert_stored x (y ∷ ys) a = elim (Bool-cases (comes_before x y)) [
    | inl h ↦ rw (← comes_before-Later x y a.0, h) refl
    | inr h ↦
        rw (← comes_before-Later x y a.0, h) (ap (λ es. y.event ∷ es) (insert_stored x ys a.1))
  ]

  sort_stored :
      (xs : List (StoredEvent Metadata))
      → Rises xs
      → events_of (sort comes_before xs) ≡ in_time (events_of xs)
  unfolding sort
  sort_stored [] r = refl
  sort_stored (x ∷ xs) r =
      insert_stored x (sort comes_before xs) (All-sort (Later x) comes_before xs r.0)
      ∙ ap (insert (by_key (λ e. e.timestamp)) x.event) (sort_stored xs r.1)

  All-keep :
      (P : StoredEvent Metadata → Type 0) (p : StoredEvent Metadata → Bool)
      (xs : List (StoredEvent Metadata))
      → All P xs
      → All P (keep p xs)
  unfolding keep
  All-keep P p [] a = tt
  All-keep P p (x ∷ xs) a = elim (Bool-cases (p x)) [
    | inl h ↦ rw h (a.0, All-keep P p xs a.1)
    | inr h ↦ rw h (All-keep P p xs a.1)
  ]

  Rises-keep :
      (p : StoredEvent Metadata → Bool) (xs : List (StoredEvent Metadata))
      → Rises xs
      → Rises (keep p xs)
  unfolding keep
  Rises-keep p [] r = tt
  Rises-keep p (x ∷ xs) r = elim (Bool-cases (p x)) [
    | inl h ↦ rw h (All-keep (Later x) p xs r.0, Rises-keep p xs r.1)
    | inr h ↦ rw h (Rises-keep p xs r.1)
  ]

  keep_stored :
      (q : AuditQuery) (xs : List (StoredEvent Metadata))
      → events_of (keep (λ e. matches q e.event) xs) ≡ keep (matches q) (events_of xs)
  unfolding keep
  keep_stored q [] = refl
  keep_stored q (x ∷ xs) = elim (Bool-cases (matches q x.event)) [
    | inl h ↦ rw h (ap (λ es. x.event ∷ es) (keep_stored q xs))
    | inr h ↦ rw h (keep_stored q xs)
  ]

  list_stored :
      (q : AuditQuery) (s : AuditStore Metadata)
      → Rises s.events
      → list q s ≡ limited q.limit (in_time (keep (matches q) (events_of s.events)))
  unfolding list
  list_stored q s r = ap (limited q.limit) (
      sort_stored (keep (λ e. matches q e.event) s.events)
        (Rises-keep (λ e. matches q e.event) s.events r)
      ∙ ap in_time (keep_stored q s.events))

  All-take :
      (P : SecurityEvent Metadata → Type 0) (n : ℕ) (es : List (SecurityEvent Metadata))
      → All P es
      → All P (take n es)
  All-take P zero es a = tt
  All-take P (suc n) [] a = tt
  All-take P (suc n) (e ∷ es) a = (a.0, All-take P n es a.1)

  take-Ascends :
      (n : ℕ) (es : List (SecurityEvent Metadata))
      → Ascends (λ e. e.timestamp) es
      → Ascends (λ e. e.timestamp) (take n es)
  take-Ascends zero es a = tt
  take-Ascends (suc n) [] a = tt
  take-Ascends (suc n) (e ∷ es) a =
      (All-take (λ d. e.timestamp ≤ d.timestamp) n es a.0, take-Ascends n es a.1)

  limited-Ascends :
      (limit : Option ℤ) (es : List (SecurityEvent Metadata))
      → Ascends (λ e. e.timestamp) es
      → Ascends (λ e. e.timestamp) (limited limit es)
  limited-Ascends none es a = a
  limited-Ascends (some n) es a = take-Ascends (pos_part n) es a

  -- Whatever calls a new store has taken, a query lists the first, as many as its limit says, of the
  -- events in the window of the history that match it, sorted stably by time: the places of insertion
  -- that the store keeps break ties exactly as the history does. The times listed ascend.
  pub list-run :
      (requested : Option ℕ) (q : AuditQuery) (cs : List (Call Metadata))
      → (list q (run (new requested) cs)
          ≡ limited q.limit (
              in_time (
                keep
                  (matches q)
                  (newest (new {Metadata = Metadata} requested).max_events (trail [] cs)))))
        × Ascends (λ e. e.timestamp) (list q (run (new requested) cs))
  list-run requested q cs =
      let listed : list q (run (new requested) cs)
          ≡ limited q.limit (
              in_time (
                keep (matches q)
                  (newest (new {Metadata = Metadata} requested).max_events (trail [] cs)))) =
        list_stored q (run (new requested) cs)
          (run-Shows cs [] (new requested) (new-Shows requested)).rises
        ∙ ap (λ es. limited q.limit (in_time (keep (matches q) es))) (run_window requested cs).0 in
      (listed, rw listed (limited-Ascends q.limit _ (sort-Ascends (λ e. e.timestamp) _)))

  without_limit :
      (limit : Option ℤ) (es : List (SecurityEvent Metadata)) → limit ≡ none → limited limit es ≡ es
  without_limit limit es n = rw n refl

  -- Without a limit, a query lists exactly the stored events that match it, each as often as it is
  -- stored.
  pub list_perm :
      (q : AuditQuery) (s : AuditStore Metadata)
      → q.limit ≡ none
      → Perm (list q s) (keep (matches q) (events_of s.events))
  unfolding list
  list_perm q s n =
      let kept : List (StoredEvent Metadata) = keep (λ e. matches q e.event) s.events in
      subst (λ es. Perm es (keep (matches q) (events_of s.events)))
        (sym (without_limit q.limit (events_of (sort comes_before kept)) n))
        (subst (Perm (events_of (sort comes_before kept))) (keep_stored q s.events)
          (Perm.map (λ e. e.event) (sort_perm comes_before kept)))
