-- ===== src/RateLimiter/Tests.antt =====
-- The rate limiter on concrete requests.
use gyges_research_layer.Base.{
  ℕ, ◌≤◌, true, ◌≡◌, ◌≢◌, refl, String, List, [], ◌∷◌, ◌++◌, none, some, length, keep, arith, find,
}
use gyges_research_layer.Base.Map
use gyges_research_layer.Vocabulary.{search}
use gyges_research_layer.RateLimiter.{
  agent, tool_scope, allow, cooldown, RateLimitPolicy, RateLimitEvaluationInput,
  TemporaryCapabilityBlock, CapabilityRateLimiter, bucket_key, scope_key, bucket, push, evaluation,
  record_in, record_all, is_exceeded, refusal, within, tightest, decide, evaluate, active_block_for,
  block_applies, clear_expired_blocks, run,
}
use gyges_research_layer.RateLimiter.Window.{
  in_window, latest, limiter, times, Sole, Silent, Ascends, is_key, bucket-run,
}
use gyges_research_layer.RateLimiter.Bound.{AllRefuse, allowed_bound}
use gyges_research_layer.RateLimiter.Blocks.{evaluate-clear_expired_blocks}

abbrev per_agent : RateLimitPolicy
per_agent = record {
  id = "p";
  scope = agent;
  max_requests = 2;
  window_ms = 100;
  action = cooldown;
  enabled = true;
}

abbrev per_tool : RateLimitPolicy
per_tool = record per_agent { id = "q"; scope = tool_scope; max_requests = 9 }

abbrev key : String
key = "p\0agent:a"

abbrev at_time : ℕ → RateLimitEvaluationInput
at_time t = record {
  agent_id = "a";
  compartment_id = "c";
  session_id = none;
  tool = search;
  timestamp = t;
}

abbrev asked : List RateLimitEvaluationInput
asked = at_time 10 ∷ at_time 20 ∷ at_time 30 ∷ []

alone : Sole key [] per_agent (per_tool ∷ []) asked
unfolding bucket_key scope_key
alone = ((tt, (refl, tt)), ((tt, (refl, tt)), ((tt, (refl, tt)), tt)))

in_order : Ascends 0 (times key per_agent asked)
unfolding bucket_key scope_key
in_order = (omega arith, (omega arith, (omega arith, tt)))

bucket-run_example :
    bucket key (run (limiter key [] per_agent (per_tool ∷ []) []) asked).windows
    ≡ in_window 100 (latest 0 (times key per_agent asked)) (times key per_agent asked)
bucket-run_example = bucket-run key [] per_agent (per_tool ∷ []) asked alone in_order

-- The third request of the window is refused, and one after the window is allowed.
third_refused :
    (evaluate
      (at_time 30)
      (run (limiter key [] per_agent (per_tool ∷ []) []) (at_time 10 ∷ at_time 20 ∷ []))).1.action
    ≡ cooldown
unfolding run evaluate active_block_for record_all record_in decide bucket_key scope_key push
    evaluation is_exceeded refusal within tightest find keep Map.get Map.set
third_refused = refl

later_allowed :
    (evaluate (at_time 125) (run (limiter key [] per_agent (per_tool ∷ []) []) asked)).1.action
    ≡ allow
unfolding run evaluate active_block_for record_all record_in decide bucket_key scope_key push
    evaluation is_exceeded refusal within tightest find keep Map.get Map.set
later_allowed = refl

later_alone : Silent key (at_time 125) (per_tool ∷ [])
unfolding bucket_key scope_key
later_alone = (refl, tt)

last_time : latest 0 (times key per_agent asked) ≤ 125
unfolding bucket_key scope_key
last_time = omega arith

own_key : is_key key (bucket_key per_agent (at_time 125)) ≡ true
unfolding bucket_key scope_key
own_key = refl

cooldown-ne-allow : cooldown ≢ allow
cooldown-ne-allow h = cc

both_refuse : AllRefuse (per_agent ∷ per_tool ∷ [])
both_refuse = (cooldown-ne-allow, (cooldown-ne-allow, tt))

allowed_bound_example : length (in_window 100 125 (times key per_agent asked ++ 125 ∷ [])) ≤ 2
allowed_bound_example =
    allowed_bound key [] per_agent (per_tool ∷ []) asked (at_time 125) alone tt later_alone
      both_refuse in_order last_time own_key later_allowed

abbrev ban : TemporaryCapabilityBlock
ban = record {
  id = "b";
  created_at = 0;
  expires_at = 40;
  agent_id = some "a";
  compartment_id = none;
  tool = none;
  reason = "too fast";
}

abbrev banned : CapabilityRateLimiter
banned = record {
  policies = per_agent ∷ [];
  blocks = record ban { expires_at = 5 } ∷ ban ∷ [];
  windows = [];
}

finds_ban : active_block_for (at_time 10) banned ≡ some ban
unfolding active_block_for block_applies find
finds_ban = refl

evaluate-clear_expired_blocks_example :
    ((evaluate (at_time 10) (clear_expired_blocks 8 banned).0).1 ≡ (evaluate (at_time 10) banned).1)
    × ((evaluate (at_time 10) (clear_expired_blocks 8 banned).0).0.windows
        ≡ (evaluate (at_time 10) banned).0.windows)
evaluate-clear_expired_blocks_example =
    evaluate-clear_expired_blocks 8 (at_time 10) banned (omega arith)
