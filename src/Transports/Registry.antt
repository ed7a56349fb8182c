-- ===== src/Transports/Registry.antt =====
-- packages/core/src/transport-registry/types.ts and registry.ts. The texts of reasons are kept as data.
use gyges_research_layer.Base.{
  Bool, true, false, not, ◌&&◌, String, List, [], ◌∷◌, ◌++◌, Option, none, some, Result, ok, err,
  if◌then◌else◌, any,
}
use gyges_research_layer.Base.Map
use gyges_research_layer.Base.Map.{Map}
use gyges_research_layer.Vocabulary.{
  CapabilityTool, tool_eq, TransportKind, mock, direct, tor, proxy, searxng, browser,
}

pub data AdapterSandboxPermission : Type 0 where
  execute_mock network_disabled network_explicit_allowed no_filesystem : AdapterSandboxPermission
  no_process_spawn no_env_access : AdapterSandboxPermission

pub permission_discrete : Discrete AdapterSandboxPermission
permission_discrete = hlevel

abbrev pub permission_eq : AdapterSandboxPermission → AdapterSandboxPermission → Bool
permission_eq p q = elim (permission_discrete p q) [ yes e ↦ true | no n ↦ false ]

pub data SandboxDecisionAction : Type 0 where
  allow block : SandboxDecisionAction

pub record TransportManifest : Type 0 where
  pub kind : TransportKind
  pub name : String
  pub version : String
  pub supported_tools : List CapabilityTool
  pub declared_permissions : List AdapterSandboxPermission
  pub network_access : Bool
  pub browser_access : Bool
  pub filesystem_access : Bool
  pub process_spawn_access : Bool
  pub env_access : Bool

pub record AdapterSandboxPolicy : Type 0 where
  pub allowed_permissions : List AdapterSandboxPermission
  pub allow_network : Bool
  pub allow_browser : Bool
  pub allow_filesystem : Bool
  pub allow_process_spawn : Bool
  pub allow_env_access : Bool

-- A violation by its code, with what its reason names.
pub data SandboxViolation : Type 0 where
  transport_not_registered tool_not_supported network_not_allowed : SandboxViolation
  browser_not_allowed filesystem_not_allowed process_spawn_not_allowed : SandboxViolation
  env_access_not_allowed : SandboxViolation
  permission_not_allowed : AdapterSandboxPermission → SandboxViolation

pub record SandboxDecision : Type 0 where
  pub action : SandboxDecisionAction
  pub violations : List SandboxViolation

pub data TransportRegistryErrorKind : Type 0 where
  duplicate_manifest : TransportRegistryErrorKind

abbrev pub kind_text : TransportKind → String
kind_text mock = "mock"
kind_text direct = "direct"
kind_text tor = "tor"
kind_text proxy = "proxy"
kind_text searxng = "searxng"
kind_text browser = "browser"

unfoldable pub register_manifest :
    TransportManifest
    → Map TransportManifest
    → Result TransportRegistryErrorKind (Map TransportManifest)
register_manifest m ms =
    if Map.has (kind_text m.kind) ms
    then err duplicate_manifest
    else ok (Map.set (kind_text m.kind) m ms)

abbrev pub get_manifest : TransportKind → Map TransportManifest → Option TransportManifest
get_manifest kind ms = Map.get (kind_text kind) ms

unfoldable pub clear : Map TransportManifest → Map TransportManifest
clear ms = []

abbrev pub is_permitted : AdapterSandboxPolicy → AdapterSandboxPermission → Bool
is_permitted policy p = any (λ q. permission_eq q p) policy.allowed_permissions

unfoldable pub unpermitted :
    AdapterSandboxPolicy → List AdapterSandboxPermission → List SandboxViolation
unpermitted policy [] = []
unpermitted policy (p ∷ ps) =
    let rest = unpermitted policy ps in
    if not (is_permitted policy p) then permission_not_allowed p ∷ rest else rest

abbrev pub flagged : Bool → Bool → SandboxViolation → List SandboxViolation
flagged needs allows v = if needs && not allows then v ∷ [] else []

abbrev pub sandbox_violations : AdapterSandboxPolicy → TransportManifest → List SandboxViolation
sandbox_violations policy m =
    unpermitted policy m.declared_permissions
    ++ flagged m.network_access policy.allow_network network_not_allowed
    ++ flagged m.browser_access policy.allow_browser browser_not_allowed
    ++ flagged m.filesystem_access policy.allow_filesystem filesystem_not_allowed
    ++ flagged m.process_spawn_access policy.allow_process_spawn process_spawn_not_allowed
    ++ flagged m.env_access policy.allow_env_access env_access_not_allowed

abbrev pub judged : List SandboxViolation → SandboxDecision
judged [] = record { action = allow; violations = [] }
judged (v ∷ vs) = record { action = block; violations = v ∷ vs }

unfoldable pub evaluate_sandbox :
    TransportKind → CapabilityTool → AdapterSandboxPolicy → Map TransportManifest → SandboxDecision
evaluate_sandbox kind tool policy ms = elim (get_manifest kind ms) [
  | none ↦ judged (transport_not_registered ∷ [])
  | some m ↦
      if not (any (λ t. tool_eq t tool) m.supported_tools)
      then judged (tool_not_supported ∷ [])
      else judged (sandbox_violations policy m)
]
