-- ===== src/Transports/Sandbox.antt =====
-- What the sandbox of packages/core/src/transport-registry/registry.ts lets run.
use gyges_research_layer.Base.{
  ◌≡◌, ◌↔◌, ◌⊎◌, Bool, true, false, List, [], ◌∷◌, ◌++◌, some, arith, inl, inr, any, Bool-cases,
  Option-cases, All,
}
use gyges_research_layer.Base.Map.{Map}
use gyges_research_layer.Vocabulary.{CapabilityTool, tool_eq, TransportKind}
use gyges_research_layer.Transports.Registry.{
  AdapterSandboxPermission, allow, TransportManifest, AdapterSandboxPolicy, SandboxViolation,
  network_not_allowed, browser_not_allowed, filesystem_not_allowed, process_spawn_not_allowed,
  env_access_not_allowed, get_manifest, is_permitted, unpermitted, flagged, sandbox_violations,
  judged, evaluate_sandbox,
}

judged_allow : (vs : List SandboxViolation) → ((judged vs).action ≡ allow) ↔ (vs ≡ [])
judged_allow [] = ground arith
judged_allow (v ∷ vs) = ground arith

unpermitted_nil :
    (policy : AdapterSandboxPolicy) (ps : List AdapterSandboxPermission)
    → (unpermitted policy ps ≡ []) ↔ All (λ p. is_permitted policy p ≡ true) ps
unfolding unpermitted
unpermitted_nil policy [] = ground arith
unpermitted_nil policy (p ∷ ps) = elim (Bool-cases (is_permitted policy p)) [
  | inl h ↦ ground (arith, h, unpermitted_nil policy ps)
  | inr h ↦ ground (arith, h)
]

flagged_nil :
    (needs allows : Bool) (v : SandboxViolation)
    → (flagged needs allows v ≡ []) ↔ ((needs ≡ false) ⊎ (allows ≡ true))
flagged_nil needs allows v = ground arith

-- The policy grants every permission that the manifest declares, and tolerates every access it needs.
pub record IsTolerated (policy : AdapterSandboxPolicy) (m : TransportManifest) : Type 0 where
  pub permissions : All (λ p. is_permitted policy p ≡ true) m.declared_permissions
  pub network : (m.network_access ≡ false) ⊎ (policy.allow_network ≡ true)
  pub browser : (m.browser_access ≡ false) ⊎ (policy.allow_browser ≡ true)
  pub filesystem : (m.filesystem_access ≡ false) ⊎ (policy.allow_filesystem ≡ true)
  pub process_spawn : (m.process_spawn_access ≡ false) ⊎ (policy.allow_process_spawn ≡ true)
  pub env : (m.env_access ≡ false) ⊎ (policy.allow_env_access ≡ true)

parts_nil :
    (a b c d e f : List SandboxViolation)
    → (a ++ b ++ c ++ d ++ e ++ f ≡ [])
      ↔ ((a ≡ []) × (b ≡ []) × (c ≡ []) × (d ≡ []) × (e ≡ []) × (f ≡ []))
parts_nil [] [] [] [] [] f = ground arith
parts_nil (x ∷ a) b c d e f = ground arith
parts_nil [] (x ∷ b) c d e f = ground arith
parts_nil [] [] (x ∷ c) d e f = ground arith
parts_nil [] [] [] (x ∷ d) e f = ground arith
parts_nil [] [] [] [] (x ∷ e) f = ground arith

violations_nil :
    (policy : AdapterSandboxPolicy) (m : TransportManifest)
    → (sandbox_violations policy m ≡ []) ↔ IsTolerated policy m
violations_nil policy m =
    let parts =
      parts_nil (unpermitted policy m.declared_permissions)
        (flagged m.network_access policy.allow_network network_not_allowed)
        (flagged m.browser_access policy.allow_browser browser_not_allowed)
        (flagged m.filesystem_access policy.allow_filesystem filesystem_not_allowed)
        (flagged m.process_spawn_access policy.allow_process_spawn process_spawn_not_allowed)
        (flagged m.env_access policy.allow_env_access env_access_not_allowed) in
    let p = unpermitted_nil policy m.declared_permissions in
    let n = flagged_nil m.network_access policy.allow_network network_not_allowed in
    let b = flagged_nil m.browser_access policy.allow_browser browser_not_allowed in
    let f = flagged_nil m.filesystem_access policy.allow_filesystem filesystem_not_allowed in
    let s =
      flagged_nil m.process_spawn_access policy.allow_process_spawn process_spawn_not_allowed in
    let e = flagged_nil m.env_access policy.allow_env_access env_access_not_allowed in
    (
      (λ h.
          let q = parts.0 h in
          record {
            permissions = p.0 q.0;
            network = n.0 q.1;
            browser = b.0 q.2;
            filesystem = f.0 q.3;
            process_spawn = s.0 q.4;
            env = e.0 q.5;
          }),
      (λ t. parts.1 (
        p.1 t.permissions,
        n.1 t.network,
        b.1 t.browser,
        f.1 t.filesystem,
        s.1 t.process_spawn,
        e.1 t.env,
      )),
    )

-- What lets a transport run: its manifest is registered, lists the tool, and is tolerated.
pub record MayRun (kind : TransportKind) (tool : CapabilityTool) (policy : AdapterSandboxPolicy)
    (ms : Map TransportManifest) : Type 0 where
  pub manifest : TransportManifest
  pub registered : get_manifest kind ms ≡ some manifest
  pub supported : any (λ t. tool_eq t tool) manifest.supported_tools ≡ true
  pub tolerated : IsTolerated policy manifest

allowed-MayRun :
    (kind : TransportKind) (tool : CapabilityTool) (policy : AdapterSandboxPolicy)
    (ms : Map TransportManifest)
    → (evaluate_sandbox kind tool policy ms).action ≡ allow
    → MayRun kind tool policy ms
unfolding evaluate_sandbox
allowed-MayRun kind tool policy ms h = elim (Option-cases (get_manifest kind ms)) [
  | inl e ↦ absurd (ground (arith, e, h))
  | inr (m, e) ↦
      let supported : any (λ t. tool_eq t tool) m.supported_tools ≡ true = ground (arith, e, h) in
      record {
        manifest = m;
        registered = e;
        supported = supported;
        tolerated =
            (violations_nil policy m).0
              ((judged_allow (sandbox_violations policy m)).0 (ground (arith, e, h, supported)));
      }
]

MayRun-allowed :
    (kind : TransportKind) (tool : CapabilityTool) (policy : AdapterSandboxPolicy)
    (ms : Map TransportManifest)
    → MayRun kind tool policy ms
    → (evaluate_sandbox kind tool policy ms).action ≡ allow
unfolding evaluate_sandbox
MayRun-allowed kind tool policy ms r =
    let fits =
      (judged_allow (sandbox_violations policy r.manifest)).1
        ((violations_nil policy r.manifest).1 r.tolerated) in
    ground (arith, r.registered, r.supported, fits)

-- A transport may run a tool in the sandbox exactly when its manifest is registered and lists the tool,
-- the policy grants every permission that the manifest declares, and it tolerates every kind of access
-- (network, browser, files, processes, environment) that the manifest needs.
pub evaluate_sandbox_iff :
    (kind : TransportKind) (tool : CapabilityTool) (policy : AdapterSandboxPolicy)
    (ms : Map TransportManifest)
    → ((evaluate_sandbox kind tool policy ms).action ≡ allow) ↔ MayRun kind tool policy ms
evaluate_sandbox_iff kind tool policy ms =
    (allowed-MayRun kind tool policy ms, MayRun-allowed kind tool policy ms)
