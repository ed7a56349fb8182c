-- ===== src/Approval/Entry.antt =====
-- The approval queue (packages/core/src/approval-queue/queue.ts) seen one request at a time: what a
-- call does to the entry under one id, and that the queue is nothing more than these machines.
use gyges_research_layer.Base.{
  ℕ, ◌≡◌, refl, ◌∙◌, String, str_eq, eq_iff, List, [], ◌∷◌, Option, some, arith, if◌then◌else◌,
}
use gyges_research_layer.Base.Map
use gyges_research_layer.Base.Map.{map_option}
use gyges_research_layer.Approval.{
  QueueEntry, ApprovalQueue, Call, creates, finalizes, gets, lists, expires, apply_expiry,
  new_entry, decide_entry, create, finalize, get_by_id, list_pending, expire_old_requests, step,
  run, Verdict,
}

module _ {Payload : Type 0} where
  -- What one call makes of the entry that is stored under `j`.
  unfoldable pub entry_step :
      ℕ → String → ℕ × Call Payload → Option (QueueEntry Payload) → Option (QueueEntry Payload)
  entry_step ttl j (now, creates id token i) o =
      if str_eq id j then some (new_entry ttl now id token i) else o
  entry_step ttl j (now, finalizes id token v) o =
      if str_eq id j then map_option (λ x. (decide_entry token v (apply_expiry now x)).0) o else o
  entry_step ttl j (now, gets id) o = if str_eq id j then map_option (apply_expiry now) o else o
  entry_step ttl j (now, lists) o = map_option (apply_expiry now) o
  entry_step ttl j (now, expires) o = map_option (apply_expiry now) o

  unfoldable pub entry_run :
      ℕ
      → String
      → List (ℕ × Call Payload)
      → Option (QueueEntry Payload)
      → Option (QueueEntry Payload)
  entry_run ttl j [] o = o
  entry_run ttl j (c ∷ cs) o = entry_run ttl j cs (entry_step ttl j c o)

  get-step-finalizes :
      (q : ApprovalQueue Payload) (now : ℕ) (id token j : String) (v : Verdict)
      → Map.get j (finalize now id token v q).0.entries
        ≡ entry_step q.ttl_ms j (now, finalizes id token v) (Map.get j q.entries)
  unfolding finalize entry_step
  get-step-finalizes q now id token j v = ground (
    arith,
    eq_iff id j,
    Map.get-modify id j (λ x. (decide_entry token v (apply_expiry now x)).0) q.entries,
  )

  get-step-gets :
      (q : ApprovalQueue Payload) (now : ℕ) (id j : String)
      → Map.get j (get_by_id now id q).0.entries
        ≡ entry_step q.ttl_ms j (now, gets id) (Map.get j q.entries)
  unfolding get_by_id entry_step
  get-step-gets q now id j =
      ground (arith, eq_iff id j, Map.get-modify id j (apply_expiry now) q.entries)

  pub get-step :
      (q : ApprovalQueue Payload) (j : String) (c : ℕ × Call Payload)
      → Map.get j (step q c).entries ≡ entry_step q.ttl_ms j c (Map.get j q.entries)
  unfolding step
  get-step q j (now, creates id token i) =
      unfold create entry_step in Map.get-set id j (new_entry q.ttl_ms now id token i) q.entries
  get-step q j (now, finalizes id token v) = get-step-finalizes q now id token j v
  get-step q j (now, gets id) = get-step-gets q now id j
  get-step q j (now, lists) =
      unfold list_pending entry_step in Map.get-modify_all j (apply_expiry now) q.entries
  get-step q j (now, expires) =
      unfold expire_old_requests entry_step in Map.get-modify_all j (apply_expiry now) q.entries

  pub ttl_ms-step :
      (q : ApprovalQueue Payload) (c : ℕ × Call Payload) → (step q c).ttl_ms ≡ q.ttl_ms
  unfolding step create finalize get_by_id list_pending expire_old_requests
  ttl_ms-step q (now, creates id token i) = refl
  ttl_ms-step q (now, finalizes id token v) = ground arith
  ttl_ms-step q (now, gets id) = ground arith
  ttl_ms-step q (now, lists) = refl
  ttl_ms-step q (now, expires) = refl

  -- After any calls, what the queue stores under an id is what the machine of that id alone reaches
  -- from what was stored before: no call on another id has an influence on it.
  pub get-run :
      (q : ApprovalQueue Payload) (j : String) (cs : List (ℕ × Call Payload))
      → Map.get j (run q cs).entries ≡ entry_run q.ttl_ms j cs (Map.get j q.entries)
  unfolding run entry_run
  get-run q j [] = refl
  get-run q j (c ∷ cs) = get-run (step q c) j cs ∙ rw (ttl_ms-step q c, get-step q j c)
