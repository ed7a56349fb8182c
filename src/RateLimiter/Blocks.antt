-- ===== src/RateLimiter/Blocks.antt =====
-- Temporary blocks of packages/core/src/adaptive-defense/rate-limiter.ts.
use gyges_research_layer.Base.{
  ℕ, ◌+◌, ◌-◌, ◌≤◌, ◌<◌, true, not, ◌≡◌, refl, List, [], ◌∷◌, some, inl, inr, arith, Option-cases,
  keep, find, length,
}
use gyges_research_layer.RateLimiter.{
  TemporaryCapabilityBlock, RateLimitEvaluationInput, CapabilityRateLimiter, temporary_block,
  block_applies, has_expired, active_block_for, clear_expired_blocks, evaluate, blocked_by,
}

find_live :
    (now : ℕ) (i : RateLimitEvaluationInput) (bs : List TemporaryCapabilityBlock)
    → now ≤ i.timestamp
    → find (block_applies i) (keep (λ b. not (has_expired now b)) bs) ≡ find (block_applies i) bs
unfolding find keep block_applies
find_live now i [] h = refl
find_live now i (b ∷ bs) h = ground (arith, find_live now i bs h)

-- Clearing the blocks that have expired at a time changes no later decision, and the windows after
-- it are the same too.
pub evaluate-clear_expired_blocks :
    (now : ℕ) (i : RateLimitEvaluationInput) (l : CapabilityRateLimiter)
    → now ≤ i.timestamp
    → ((evaluate i (clear_expired_blocks now l).0).1 ≡ (evaluate i l).1)
      × ((evaluate i (clear_expired_blocks now l).0).0.windows ≡ (evaluate i l).0.windows)
unfolding evaluate clear_expired_blocks active_block_for
evaluate-clear_expired_blocks now i l h = elim (Option-cases (find (block_applies i) l.blocks)) [
  | inl e ↦ rw (find_live now i l.blocks h, e, evaluate) (refl, refl)
  | inr (b, e) ↦ rw (find_live now i l.blocks h, e, evaluate) (refl, refl)
]

split_count :
    (now : ℕ) (bs : List TemporaryCapabilityBlock)
    → length (keep (has_expired now) bs) + length (keep (λ b. not (has_expired now b)) bs)
      ≡ length bs
unfolding keep
split_count now [] = refl
split_count now (b ∷ bs) = ground (arith, split_count now bs)

-- The number that `clearExpiredBlocks` returns is the number of blocks that are gone.
pub clear_expired_blocks_count :
    (now : ℕ) (l : CapabilityRateLimiter)
    → (clear_expired_blocks now l).1 + length (clear_expired_blocks now l).0.blocks
      ≡ length l.blocks
unfolding clear_expired_blocks
clear_expired_blocks_count now l = split_count now l.blocks

find_applies :
    (i : RateLimitEvaluationInput) (bs : List TemporaryCapabilityBlock)
    (b : TemporaryCapabilityBlock)
    → find (block_applies i) bs ≡ some b
    → block_applies i b ≡ true
unfolding find
find_applies i [] b h = cc
find_applies i (x ∷ xs) b h = ground (arith, find_applies i xs b)

-- While a block that matches the request is live the request is refused, with a positive time to
-- wait that ends when the block does, and it is counted in no window.
pub evaluate_blocked :
    (i : RateLimitEvaluationInput) (l : CapabilityRateLimiter) (b : TemporaryCapabilityBlock)
    → active_block_for i l ≡ some b
    → ((evaluate i l).0 ≡ l)
      × ((evaluate i l).1.action ≡ temporary_block)
      × ((wait : ℕ) × ((evaluate i l).1.retry_after_ms ≡ some wait)
          × (0 < wait)
          × (i.timestamp + wait ≡ b.expires_at))
unfolding evaluate blocked_by
evaluate_blocked i l b h =
    rw (h, evaluate)
      (refl, refl, (b.expires_at - i.timestamp, refl, ground (arith, live), ground (arith, live)))
  where
    live : i.timestamp < b.expires_at
    live = unfold active_block_for block_applies in ground (arith, find_applies i l.blocks b h)
