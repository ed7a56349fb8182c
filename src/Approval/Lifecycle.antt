-- ===== src/Approval/Lifecycle.antt =====
-- Transitions of packages/core/src/approval-queue/queue.ts: when `finalize` succeeds, and that a
-- request whose status is terminal never changes again.
use gyges_research_layer.Base.{
  ℕ, ◌<◌, true, ◌≡◌, ◌≢◌, ◌↔◌, refl, ◌∙◌, String, str_eq, eq_iff, List, [], ◌∷◌, some, inl, inr,
  arith, Option-cases, if◌then◌else◌, All, is_ok,
}
use Prim.Native.String.{len}
use gyges_research_layer.Base.Map
use gyges_research_layer.Base.Map.{map_option}
use gyges_research_layer.Approval.Entry.{entry_step, entry_run, get-run}
use gyges_research_layer.Approval.{
  QueueEntry, ApprovalQueue, pending, Call, creates, finalizes, gets, lists, expires, apply_expiry,
  is_due, decide_entry, token_matches, finalize, run, Verdict, target, set_status,
}

pub token_matches_iff :
    (expected provided : String)
    → (token_matches expected provided ≡ true) ↔ ((expected ≡ provided) × (len provided ≢ 0))
unfolding token_matches
token_matches_iff e p = ground (arith, eq_iff e p)

-- What an entry must be for a verdict on it to be accepted.
pub record CanFinalize {Payload : Type 0} (now : ℕ) (token : String) (e : QueueEntry Payload)
    : Type 0 where
  pub still_pending : e.request.status ≡ pending
  pub in_time : now < e.request.expires_at
  pub same_token : e.token_value ≡ token
  pub token_given : len token ≢ 0

module _ {Payload : Type 0} where
  pub decide_entry_iff :
      (now : ℕ) (token : String) (v : Verdict) (e : QueueEntry Payload)
      → (is_ok (decide_entry token v (apply_expiry now e)).1 ≡ true) ↔ CanFinalize now token e
  unfolding decide_entry apply_expiry is_due
  decide_entry_iff now token v e = ground (arith, token_matches_iff e.token_value token)

  -- `finalize` succeeds exactly when an entry with that id exists, is still pending, its deadline
  -- is later than the clock, and the token given is the entry's and not empty.
  pub finalize_iff :
      (q : ApprovalQueue Payload) (now : ℕ) (id token : String) (v : Verdict)
      → (is_ok (finalize now id token v q).1 ≡ true)
        ↔ ((e : QueueEntry Payload) × (Map.get id q.entries ≡ some e) × CanFinalize now token e)
  unfolding finalize
  finalize_iff q now id token v = elim (Option-cases (Map.get id q.entries)) [
    | inl e ↦ rw (e, finalize) (λ h. cc, λ h. cc h.1)
    | inr (x, e) ↦
        rw (e, finalize)
          (
            λ h. (x, refl, (decide_entry_iff now token v x).0 h),
            λ h. (decide_entry_iff now token v x).1 (ground (arith, h.1, h.2)),
          )
  ]

  -- A verdict that is accepted changes the entry's status to its target and nothing else of it, and
  -- the entry of every other id stays as it was.
  pub finalize_effect :
      (q : ApprovalQueue Payload) (now : ℕ) (id token j : String) (v : Verdict)
      → is_ok (finalize now id token v q).1 ≡ true
      → Map.get j (finalize now id token v q).0.entries ≡ (
          if str_eq id j
          then map_option (set_status (target v)) (Map.get j q.entries)
          else Map.get j q.entries)
  unfolding finalize decide_entry apply_expiry is_due
  finalize_effect q now id token j v h = ground (
    arith,
    eq_iff id j,
    Map.get-modify id j (λ x. (decide_entry token v (apply_expiry now x)).0) q.entries,
  )

  -- The three terminal statuses.
  abbrev pub IsTerminal : QueueEntry Payload → Type 0
  IsTerminal e = e.request.status ≢ pending

  -- A call that creates a request under this id.
  abbrev pub Recreates : String → ℕ × Call Payload → Type 0
  Recreates j (now, creates id token i) = id ≡ j
  Recreates j _ = ⊥

  entry_step_terminal :
      (ttl : ℕ) (j : String) (c : ℕ × Call Payload) (e : QueueEntry Payload)
      → IsTerminal e
      → ¬ Recreates j c
      → entry_step ttl j c (some e) ≡ some e
  unfolding entry_step apply_expiry is_due decide_entry
  entry_step_terminal ttl j (now, creates id token i) e t n = ground (arith, eq_iff id j)
  entry_step_terminal ttl j (now, finalizes id token v) e t n = ground arith
  entry_step_terminal ttl j (now, gets id) e t n = ground arith
  entry_step_terminal ttl j (now, lists) e t n = ground arith
  entry_step_terminal ttl j (now, expires) e t n = ground arith

  entry_run_terminal :
      (ttl : ℕ) (j : String) (cs : List (ℕ × Call Payload)) (e : QueueEntry Payload)
      → IsTerminal e
      → All (λ c. ¬ Recreates j c) cs
      → entry_run ttl j cs (some e) ≡ some e
  unfolding entry_run
  entry_run_terminal ttl j [] e t n = refl
  entry_run_terminal ttl j (c ∷ cs) e t n =
      rw (entry_step_terminal ttl j c e t n.0) (entry_run_terminal ttl j cs e t n.1)

  -- A request that is approved, rejected or expired is kept as it is, token included, by every
  -- further sequence of calls that does not create a request under its id anew.
  pub terminal_absorbs :
      (q : ApprovalQueue Payload) (j : String) (cs : List (ℕ × Call Payload))
      (e : QueueEntry Payload)
      → Map.get j q.entries ≡ some e
      → IsTerminal e
      → All (λ c. ¬ Recreates j c) cs
      → Map.get j (run q cs).entries ≡ some e
  terminal_absorbs q j cs e g t n = get-run q j cs ∙ rw g (entry_run_terminal q.ttl_ms j cs e t n)
