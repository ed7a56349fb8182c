-- ===== src/Orchestrator/Buffer.antt =====
-- The rolling buffer of packages/core/src/runtime-orchestrator/orchestrator.ts.
use gyges_research_layer.Base.{
  ℕ, ◌+◌, ◌-◌, ◌≤◌, ◌≡◌, refl, sym, ap, ◌∙◌, List, [], ◌∷◌, ◌++◌, arith, length, drop-nil, newest,
  newest-append, length-drop, length-append, Option,
}
use gyges_research_layer.Orchestrator.Types.{PolicySignal}
use gyges_research_layer.Orchestrator.State.{RuntimePolicyOrchestrator, record_signals, new}
use mathlib.Core.List.{append_assoc, append-nil}

no_signals_yet :
    (Metadata : Type 0) (requested : Option ℕ)
    → length (new {Metadata = Metadata} requested).signals ≡ 0
unfolding new
no_signals_yet Metadata requested = refl

module _ {Metadata : Type 0} where
  -- Batches that are recorded one after the other, with the number of signals evicted.
  unfoldable pub record_batches :
      List (List (PolicySignal Metadata))
      → RuntimePolicyOrchestrator Metadata
      → RuntimePolicyOrchestrator Metadata × ℕ
  record_batches [] o = (o, 0)
  record_batches (b ∷ bs) o =
      let (o', n) = record_signals b o in let (o'', m) = record_batches bs o' in (o'', n + m)

  abbrev pub concat : List (List (PolicySignal Metadata)) → List (PolicySignal Metadata)
  concat [] = []
  concat (b ∷ bs) = b ++ concat bs

  -- The buffer is the window of a history.
  abbrev Shows : List (PolicySignal Metadata) → RuntimePolicyOrchestrator Metadata → Type 0
  Shows history o = o.signals ≡ newest o.max_signals history

  record-Shows :
      (b history : List (PolicySignal Metadata)) (o : RuntimePolicyOrchestrator Metadata)
      → Shows history o
      → Shows (history ++ b) (record_signals b o).0
  unfolding record_signals
  record-Shows b history o h = rw h (newest-append o.max_signals history b)

  record_batches-Shows :
      (bs : List (List (PolicySignal Metadata))) (history : List (PolicySignal Metadata))
      (o : RuntimePolicyOrchestrator Metadata)
      → Shows history o
      → Shows (history ++ concat bs) (record_batches bs o).0
  unfolding record_batches
  record_batches-Shows [] history o h = rw append-nil h
  record_batches-Shows (b ∷ bs) history o h =
      rw (← append_assoc)
        (record_batches-Shows bs (history ++ b) (record_signals b o).0 (record-Shows b history o h))

  kept_and_evicted :
      (bs : List (List (PolicySignal Metadata))) (o : RuntimePolicyOrchestrator Metadata)
      → (record_batches bs o).1 + length (record_batches bs o).0.signals
        ≡ length o.signals + length (concat bs)
  unfolding record_batches record_signals
  kept_and_evicted [] o = omega arith
  kept_and_evicted (b ∷ bs) o = omega (
    arith,
    kept_and_evicted bs (record_signals b o).0,
    length-append o.signals b,
    length-append b (concat bs),
    length-drop (length (o.signals ++ b) - o.max_signals) (o.signals ++ b),
  )

  max_signals-record_batches :
      (bs : List (List (PolicySignal Metadata))) (o : RuntimePolicyOrchestrator Metadata)
      → (record_batches bs o).0.max_signals ≡ o.max_signals
  unfolding record_batches record_signals
  max_signals-record_batches [] o = refl
  max_signals-record_batches (b ∷ bs) o = max_signals-record_batches bs (record_signals b o).0

  length-newest-le : (n : ℕ) (ss : List (PolicySignal Metadata)) → length (newest n ss) ≤ n
  length-newest-le n ss = omega (arith, length-drop (length ss - n) ss)

  newest-nil : (n : ℕ) → newest {A = PolicySignal Metadata} n [] ≡ []
  newest-nil n = drop-nil (0 - n)

  new-Shows : (requested : Option ℕ) → Shows [] (new requested)
  unfolding new
  new-Shows requested = sym (newest-nil (new {Metadata = Metadata} requested).max_signals)

  -- Whatever batches are recorded by a new orchestrator, its buffer holds the newest of all signals
  -- recorded, in their order, as many as its bound allows and no more; the number evicted is that of
  -- the others.
  pub record_batches_lem :
      (requested : Option ℕ) (bs : List (List (PolicySignal Metadata)))
      → ((record_batches bs (new requested)).0.signals
          ≡ newest (new {Metadata = Metadata} requested).max_signals (concat bs))
        × (length (record_batches bs (new requested)).0.signals
            ≤ (new {Metadata = Metadata} requested).max_signals)
        × ((record_batches bs (new requested)).1
              + length (record_batches bs (new requested)).0.signals
            ≡ length (concat bs))
  record_batches_lem requested bs =
      let o : RuntimePolicyOrchestrator Metadata = new requested in
      let shown : (record_batches bs o).0.signals ≡ newest o.max_signals (concat bs) =
        record_batches-Shows bs [] o (new-Shows requested)
        ∙ ap (λ n. newest n (concat bs)) (max_signals-record_batches bs o) in
      (
        shown,
        rw shown (length-newest-le o.max_signals (concat bs)),
        omega (arith, kept_and_evicted bs o, no_signals_yet Metadata requested),
      )
