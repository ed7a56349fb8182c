-- ===== src/Approval/Listing.antt =====
-- The two calls of packages/core/src/approval-queue/queue.ts that look at every request: `listPending`
-- and `expireOldRequests`.
use gyges_research_layer.Base.{
  ℕ, ◌+◌, Bool, ◌&&◌, ◌≡◌, refl, List, [], ◌∷◌, map, arith, ltb, length, keep,
}
use gyges_research_layer.Base.Map
use gyges_research_layer.Base.Map.{Map}
use gyges_research_layer.Approval.{
  ApprovalQueue, ApprovalRequest, QueueEntry, is_pending, is_due, apply_expiry, list_pending,
  expire_old_requests,
}

module _ {Payload : Type 0} where
  -- Pending, with a deadline after the clock.
  abbrev pub is_open : ℕ → QueueEntry Payload → Bool
  is_open now e = is_pending e.request.status && ltb now e.request.expires_at

  abbrev pub open_requests : ℕ → List (QueueEntry Payload) → List (ApprovalRequest Payload)
  open_requests now es = map (λ e. e.request) (keep (is_open now) es)

  keep_open :
      (now : ℕ) (m : Map (QueueEntry Payload))
      → map
          (λ e. e.request)
          (keep
            (λ e. is_pending e.request.status)
            (Map.values (Map.modify_all (apply_expiry now) m)))
        ≡ open_requests now (Map.values m)
  unfolding keep Map.values Map.modify_all apply_expiry is_due
  keep_open now [] = refl
  keep_open now ((k, e) ∷ m) = ground (arith, keep_open now m)

  -- `listPending` returns the requests that are pending with a deadline after the clock: all of
  -- those, unchanged and in the order of their creation, and no other.
  pub list_pending_lem :
      (now : ℕ) (q : ApprovalQueue Payload)
      → (list_pending now q).1 ≡ open_requests now (Map.values q.entries)
  unfolding list_pending
  list_pending_lem now q = keep_open now q.entries

  abbrev pub pending_count : Map (QueueEntry Payload) → ℕ
  pending_count m = length (keep (λ e. is_pending e.request.status) (Map.values m))

  due_count :
      (now : ℕ) (m : Map (QueueEntry Payload))
      → length (keep (is_due now) (Map.values m))
          + pending_count (Map.modify_all (apply_expiry now) m)
        ≡ pending_count m
  unfolding keep Map.values Map.modify_all apply_expiry is_due
  due_count now [] = refl
  due_count now ((k, e) ∷ m) = ground (arith, due_count now m)

  -- The number that `expireOldRequests` returns is the number of requests that stop being pending.
  pub expire_old_requests_count :
      (now : ℕ) (q : ApprovalQueue Payload)
      → (expire_old_requests now q).1 + pending_count (expire_old_requests now q).0.entries
        ≡ pending_count q.entries
  unfolding expire_old_requests
  expire_old_requests_count now q = due_count now q.entries
