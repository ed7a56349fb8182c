-- ===== src/Audit/Window.antt =====
-- The window of the audit trail that packages/core/src/audit/store.ts keeps, against its history.
use gyges_research_layer.Base.{
  ℕ, zero, suc, ◌-◌, ◌≤◌, ◌<◌, ◌≡◌, refl, sym, ap, ◌∙◌, true, false, String, str_eq, List, [], ◌∷◌,
  ◌++◌, map, Option, some, arith, length, length-append, length-drop, drop, drop-append, newest,
  newest-append, drop-nil, eq_refl, find, All, All-append, All-mono,
}
use gyges_research_layer.Audit.Types.{SecurityEventInput, SecurityEvent}
use gyges_research_layer.Audit.Store.{
  StoredEvent, AuditStore, new, append, clear, emit, stamp, get_by_id,
}

-- The calls that change the store.
pub data Call (Metadata : Type 0) : Type 0 where
  appends : SecurityEvent Metadata → Call Metadata
  clears : Call Metadata

module _ {Metadata : Type 0} where
  unfoldable pub run : AuditStore Metadata → List (Call Metadata) → AuditStore Metadata
  run s [] = s
  run s (appends e ∷ cs) = run (append e s) cs
  run s (clears ∷ cs) = run (clear s) cs

  -- The events since the last clearing, after those of `h`.
  unfoldable pub trail :
      List (SecurityEvent Metadata) → List (Call Metadata) → List (SecurityEvent Metadata)
  trail h [] = h
  trail h (appends e ∷ cs) = trail (h ++ e ∷ []) cs
  trail h (clears ∷ cs) = trail [] cs

  abbrev pub events_of : List (StoredEvent Metadata) → List (SecurityEvent Metadata)
  events_of xs = map (λ e. e.event) xs

  -- The places of insertion rise.
  abbrev pub Rises : List (StoredEvent Metadata) → Type 0
  Rises [] = Unit
  Rises (x ∷ xs) = All (λ y. x.seq < y.seq) xs × Rises xs

  -- The store shows a history: its window, in the order of insertion.
  pub record Shows (h : List (SecurityEvent Metadata)) (s : AuditStore Metadata) : Type 0 where
    pub window : events_of s.events ≡ newest s.max_events h
    pub rises : Rises s.events
    pub below : All (λ y. y.seq < s.seq) s.events

  events_of-drop :
      (n : ℕ) (xs : List (StoredEvent Metadata)) → events_of (drop n xs) ≡ drop n (events_of xs)
  events_of-drop zero xs = refl
  events_of-drop (suc n) [] = refl
  events_of-drop (suc n) (x ∷ xs) = events_of-drop n xs

  events_of-append :
      (xs ys : List (StoredEvent Metadata)) → events_of (xs ++ ys) ≡ events_of xs ++ events_of ys
  events_of-append [] ys = refl
  events_of-append (x ∷ xs) ys = ap (λ zs. x.event ∷ zs) (events_of-append xs ys)

  length-events_of : (xs : List (StoredEvent Metadata)) → length (events_of xs) ≡ length xs
  length-events_of [] = refl
  length-events_of (x ∷ xs) = ap (λ n. suc n) (length-events_of xs)

  events_of-newest :
      (n : ℕ) (xs : List (StoredEvent Metadata)) → events_of (newest n xs) ≡ newest n (events_of xs)
  events_of-newest n xs =
      events_of-drop (length xs - n) xs
      ∙ ap (λ k. drop (k - n) (events_of xs)) (sym (length-events_of xs))

  Rises-drop : (n : ℕ) (xs : List (StoredEvent Metadata)) → Rises xs → Rises (drop n xs)
  Rises-drop zero xs r = r
  Rises-drop (suc n) [] r = tt
  Rises-drop (suc n) (x ∷ xs) r = Rises-drop n xs r.1

  All-drop :
      (P : StoredEvent Metadata → Type 0) (n : ℕ) (xs : List (StoredEvent Metadata))
      → All P xs
      → All P (drop n xs)
  All-drop P zero xs a = a
  All-drop P (suc n) [] a = tt
  All-drop P (suc n) (x ∷ xs) a = All-drop P n xs a.1

  Rises-append :
      (xs : List (StoredEvent Metadata)) (x : StoredEvent Metadata)
      → Rises xs
      → All (λ y. y.seq < x.seq) xs
      → Rises (xs ++ x ∷ [])
  Rises-append [] x r a = (tt, tt)
  Rises-append (y ∷ ys) x r a =
      (All-append (λ z. y.seq < z.seq) ys (x ∷ []) r.0 (a.0, tt), Rises-append ys x r.1 a.1)

  append-Shows :
      (h : List (SecurityEvent Metadata)) (e : SecurityEvent Metadata) (s : AuditStore Metadata)
      → Shows h s
      → Shows (h ++ e ∷ []) (append e s)
  unfolding append
  append-Shows h e s v =
      let x : StoredEvent Metadata = record { event = e; seq = s.seq } in
      let grown : List (StoredEvent Metadata) = s.events ++ x ∷ [] in
      record {
        window =
            events_of-newest s.max_events grown
            ∙ (ap (newest s.max_events)
                  (events_of-append s.events (x ∷ []) ∙ ap (λ ys. ys ++ e ∷ []) v.window)
                ∙ newest-append s.max_events h (e ∷ []));
        rises =
            Rises-drop (length grown - s.max_events) grown
              (Rises-append s.events x v.rises v.below);
        below =
            All-drop (λ y. y.seq < suc s.seq) (length grown - s.max_events) grown
              (All-append (λ y. y.seq < suc s.seq) s.events (x ∷ [])
                (All-mono (λ y. y.seq < s.seq) (λ y. y.seq < suc s.seq) s.events
                  (λ y l. omega (arith, l)) v.below)
                (omega arith, tt));
      }

  nothing : (n : ℕ) → [] ≡ newest {A = SecurityEvent Metadata} n []
  nothing n = sym (drop-nil (0 - n))

  pub run-Shows :
      (cs : List (Call Metadata)) (h : List (SecurityEvent Metadata)) (s : AuditStore Metadata)
      → Shows h s
      → Shows (trail h cs) (run s cs)
  unfolding run trail clear
  run-Shows [] h s v = v
  run-Shows (appends e ∷ cs) h s v = run-Shows cs (h ++ e ∷ []) (append e s) (append-Shows h e s v)
  run-Shows (clears ∷ cs) h s v =
      run-Shows cs [] (clear s) (record { window = nothing s.max_events; rises = tt; below = tt })

  pub new-Shows : (requested : Option ℕ) → Shows [] (new requested)
  unfolding new
  new-Shows requested = record {
    window = nothing (new {Metadata = Metadata} requested).max_events;
    rises = tt;
    below = tt;
  }

  max_events-run :
      (cs : List (Call Metadata)) (s : AuditStore Metadata) → (run s cs).max_events ≡ s.max_events
  unfolding run append clear
  max_events-run [] s = refl
  max_events-run (appends e ∷ cs) s = max_events-run cs (append e s)
  max_events-run (clears ∷ cs) s = max_events-run cs (clear s)

  -- Whatever events a new store takes and however often it is cleared, it holds the newest of those
  -- since the last clearing, in their order, as many as its bound allows and no more.
  pub run_window :
      (requested : Option ℕ) (cs : List (Call Metadata))
      → (events_of (run (new requested) cs).events
          ≡ newest (new {Metadata = Metadata} requested).max_events (trail [] cs))
        × (length (run (new requested) cs).events
            ≤ (new {Metadata = Metadata} requested).max_events)
  run_window requested cs =
      let m = (new {Metadata = Metadata} requested).max_events in
      let shown : events_of (run (new requested) cs).events ≡ newest m (trail [] cs) =
        (run-Shows cs [] (new requested) (new-Shows requested)).window
        ∙ ap (λ n. newest n (trail [] cs)) (max_events-run cs (new requested)) in
      (
        shown,
        omega (
          arith,
          length-events_of (run (new requested) cs).events,
          ap length shown,
          length-drop (length (trail [] cs) - m) (trail [] cs),
        ),
      )

  -- No stored event has the id.
  abbrev pub IsFresh : String → AuditStore Metadata → Type 0
  IsFresh id s = All (λ e. str_eq e.event.id id ≡ false) s.events

  find_last :
      (id : String) (xs : List (StoredEvent Metadata)) (x : StoredEvent Metadata)
      → All (λ e. str_eq e.event.id id ≡ false) xs
      → str_eq x.event.id id ≡ true
      → find (λ e. str_eq e.event.id id) (xs ++ x ∷ []) ≡ some x
  unfolding find
  find_last id [] x a h = rw h refl
  find_last id (y ∷ ys) x a h = rw a.0 (find_last id ys x a.1 h)

  -- An event that is recorded under a new id is found by that id as it was stamped, whether or not
  -- older events had to leave for it.
  pub get_by_id-emit :
      (id : String) (now : ℕ) (i : SecurityEventInput Metadata) (s : AuditStore Metadata)
      → 1 ≤ s.max_events
      → IsFresh id s
      → get_by_id id (emit id now i s).0 ≡ some (emit id now i s).1
  unfolding get_by_id emit append
  get_by_id-emit id now i s h f =
      let x : StoredEvent Metadata = record { event = stamp id now i; seq = s.seq } in
      let n = length (s.events ++ x ∷ []) - s.max_events in
      rw
        (
          drop-append n s.events (x ∷ []) (omega (arith, length-append s.events (x ∷ []))),
          find_last id (drop n s.events) x
              (All-drop (λ e. str_eq e.event.id id ≡ false) n s.events f) (eq_refl id),
        )
        refl
