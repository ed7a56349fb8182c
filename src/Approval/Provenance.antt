-- ===== src/Approval/Provenance.antt =====
-- Where an approval of packages/core/src/approval-queue/queue.ts comes from: of every history of
-- calls, an approved request was approved with its own token before its deadline.
use gyges_research_layer.Base.{
  ℕ, ◌<◌, ◌≡◌, ◌⊎◌, ◌∙◌, refl, sym, String, eq_iff, List, [], ◌∷◌, Option, none, some, inl, inr,
  arith,
}
use gyges_research_layer.Base.Map
use gyges_research_layer.Approval.Entry.{entry_step, entry_run, get-run}
use gyges_research_layer.Approval.Lifecycle.{token_matches_iff}
use gyges_research_layer.Approval.{
  QueueEntry, approved, Call, creates, finalizes, gets, lists, expires, apply_expiry, is_due,
  decide_entry, run, approves, rejects, new, new_entry,
}

module _ {Payload : Type 0} where
  -- The call approves the request of id `j` with the token and before the deadline of `e`.
  abbrev pub Approves : String → QueueEntry Payload → ℕ × Call Payload → Type 0
  Approves j e (now, finalizes id token approves) =
      (id ≡ j) × (token ≡ e.token_value) × (now < e.request.expires_at)
  Approves j e _ = ⊥

  -- Some call of the history does.
  abbrev pub Approved : String → QueueEntry Payload → List (ℕ × Call Payload) → Type 0
  Approved j e [] = ⊥
  Approved j e (c ∷ cs) = Approves j e c ⊎ Approved j e cs

  -- A step that leaves an approved entry found it so, or is the approval.
  entry_step_approved :
      (ttl : ℕ) (j : String) (c : ℕ × Call Payload) (o : Option (QueueEntry Payload))
      (e : QueueEntry Payload)
      → entry_step ttl j c o ≡ some e
      → e.request.status ≡ approved
      → (o ≡ some e) ⊎ Approves j e c
  unfolding entry_step apply_expiry is_due decide_entry new_entry
  entry_step_approved ttl j (now, creates id token i) o e h a = ground arith
  entry_step_approved ttl j (now, finalizes id token approves) none e h a = ground arith
  entry_step_approved ttl j (now, finalizes id token approves) (some x) e h a =
      ground (arith, eq_iff id j, token_matches_iff x.token_value token)
  entry_step_approved ttl j (now, finalizes id token rejects) o e h a = ground arith
  entry_step_approved ttl j (now, gets id) o e h a = ground arith
  entry_step_approved ttl j (now, lists) o e h a = ground arith
  entry_step_approved ttl j (now, expires) o e h a = ground arith

  entry_run_approved :
      (ttl : ℕ) (j : String) (cs : List (ℕ × Call Payload)) (o : Option (QueueEntry Payload))
      (e : QueueEntry Payload)
      → entry_run ttl j cs o ≡ some e
      → e.request.status ≡ approved
      → (o ≡ some e) ⊎ Approved j e cs
  unfolding entry_run
  entry_run_approved ttl j [] o e h a = inl h
  entry_run_approved ttl j (c ∷ cs) o e h a =
      elim (entry_run_approved ttl j cs (entry_step ttl j c o) e h a) [
        | inl here ↦ or_now (entry_step_approved ttl j c o e here a)
        | inr later ↦ inr (inr later)
      ]
    where
      or_now : (o ≡ some e) ⊎ Approves j e c → (o ≡ some e) ⊎ Approved j e (c ∷ cs)
      or_now (inl old) = inl old
      or_now (inr now) = inr (inl now)

  get-new : (ttl : Option ℕ) (j : String) → Map.get j (new {Payload = Payload} ttl).entries ≡ none
  unfolding new Map.get
  get-new none j = refl
  get-new (some n) j = refl

  -- Starting from a new queue, whatever the calls: if a request is stored as approved, then one of
  -- the calls approved that id with the token that is stored, at a time before the deadline stored.
  pub approved_needs_token :
      (ttl : Option ℕ) (cs : List (ℕ × Call Payload)) (j : String) (e : QueueEntry Payload)
      → Map.get j (run (new ttl) cs).entries ≡ some e
      → e.request.status ≡ approved
      → Approved j e cs
  approved_needs_token ttl cs j e h a =
      elim (entry_run_approved (new ttl).ttl_ms j cs _ e (sym (get-run (new ttl) j cs) ∙ h) a) [
        | inl old ↦ cc (old, get-new ttl j)
        | inr given ↦ given
      ]
