-- ===== src/Transports/Tests.antt =====
-- Routing and the sandbox on a concrete transport.
use gyges_research_layer.Base.{◌≡◌, ◌≢◌, ◌↔◌, refl, true, false, [], ◌∷◌, none, some, ok}
use gyges_research_layer.Base.Map
use gyges_research_layer.Base.Map.{Map}
use gyges_research_layer.Vocabulary.{search, RiskLevel, tor}
use gyges_research_layer.Boundary.Engine.{
  strict, PrivacyBoundaryAction, PrivacyBoundaryEvaluationInput, evaluate, new,
}
use gyges_research_layer.Transports.Policy.{
  strict_isolation, TransportPolicyRule, RoutingDecision, resolve,
}
use gyges_research_layer.Transports.Registry.{
  network_explicit_allowed, allow, TransportManifest, AdapterSandboxPolicy, evaluate_sandbox,
}
use gyges_research_layer.Transports.Routing.{resolve-evaluate}
use gyges_research_layer.Transports.Sandbox.{MayRun, evaluate_sandbox_iff}

abbrev tor_manifest : TransportManifest
tor_manifest = record {
  kind = tor;
  name = "tor";
  version = "1";
  supported_tools = search ∷ [];
  declared_permissions = network_explicit_allowed ∷ [];
  network_access = true;
  browser_access = false;
  filesystem_access = false;
  process_spawn_access = false;
  env_access = false;
}

abbrev networked : AdapterSandboxPolicy
networked = record {
  allowed_permissions = network_explicit_allowed ∷ [];
  allow_network = true;
  allow_browser = false;
  allow_filesystem = false;
  allow_process_spawn = false;
  allow_env_access = false;
}

abbrev manifests : Map TransportManifest
manifests = ("tor", tor_manifest) ∷ []

evaluate_sandbox_iff_example :
    ((evaluate_sandbox tor search networked manifests).action ≡ allow)
    ↔ MayRun tor search networked manifests
evaluate_sandbox_iff_example = evaluate_sandbox_iff tor search networked manifests

abbrev strict_rule : TransportPolicyRule
strict_rule = record {
  tool = search;
  risk_level = RiskLevel.low;
  preferred_transport = tor;
  isolation_policy = record {
    level = strict;
    force_rotate_on_high_risk = false;
    forbid_session_reuse = false;
    allow_cross_tool_reuse = true;
  };
}

abbrev rules : Map TransportPolicyRule
rules = ("search:low", strict_rule) ∷ []

abbrev routing : RoutingDecision
routing = record {
  transport_kind = tor;
  should_rotate_session = true;
  isolation_level = strict;
  reason = strict_isolation;
}

routes : resolve search RiskLevel.low rules ≡ ok routing
unfolding resolve Map.get
routes = refl

abbrev strict_flow : PrivacyBoundaryEvaluationInput
strict_flow = record {
  agent_id = "a";
  source_compartment_id = none;
  target_compartment_id = "research";
  tool = search;
  risk_level = RiskLevel.low;
  routing_isolation_level = some strict;
  allow_cross_tool_reuse = none;
  previous_tool = none;
}

resolve-evaluate_example :
    (routing.should_rotate_session ≡ true)
    × ((evaluate strict_flow new).action ≢ PrivacyBoundaryAction.allow)
resolve-evaluate_example =
    resolve-evaluate search RiskLevel.low rules routing strict_flow new routes refl refl
