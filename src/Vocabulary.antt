-- ===== src/Vocabulary.antt =====
-- The closed vocabularies of packages/core/src/index.ts that every component shares: capability
-- tools and risk levels.
use gyges_research_layer.Base.{Bool, true, false, ◌≡◌, ◌↔◌, arith}

pub data CapabilityTool : Type 0 where
  search fetch_html fetch_json : CapabilityTool

pub data RiskLevel : Type 0 where
  low medium high : RiskLevel

-- `a === b` on tools.
abbrev pub tool_eq : CapabilityTool → CapabilityTool → Bool
tool_eq CapabilityTool.search CapabilityTool.search = true
tool_eq fetch_html fetch_html = true
tool_eq fetch_json fetch_json = true
tool_eq _ _ = false

pub tool_eq_iff : (a b : CapabilityTool) → (tool_eq a b ≡ true) ↔ (a ≡ b)
tool_eq_iff a b = ground arith

-- packages/core/src/execution/types.ts.
pub data TransportKind : Type 0 where
  mock direct tor proxy searxng browser : TransportKind
