-- ===== src/Orchestration/Registry.antt =====
-- src/model_forge/orchestration/registry.py: adapters by their identity and version.
pub mod Resolving
use model_forge.Prelude.{
  String, ◌==◌, Bool, not, ◌&&◌, Option, none, some, List, [], ◌∷◌, find?, Result, ok, err, bind,
  require, if◌then◌else◌,
}
use model_forge.Orchestration.Protocol.{OrchestrationBinding}

-- What the registry uses of a `PhaseOrchestrator`.
pub record PhaseOrchestrator : Type 0 where
  pub adapter_id : String
  pub adapter_version : String
  pub supports : OrchestrationBinding → Bool

-- The dictionary `_orchestrators`, newest entry first; its keys are read off the adapters.
abbrev pub OrchestratorRegistry : Type 0
OrchestratorRegistry = List PhaseOrchestrator

abbrev pub has_key : (adapter_id adapter_version : String) → PhaseOrchestrator → Bool
has_key adapter_id adapter_version o =
    o.adapter_id == adapter_id && o.adapter_version == adapter_version

-- `_orchestrators.get(key)`
abbrev pub lookup :
    (adapter_id adapter_version : String) → OrchestratorRegistry → Option PhaseOrchestrator
lookup adapter_id adapter_version registry = find? (has_key adapter_id adapter_version) registry

abbrev pub add_absent :
    Option PhaseOrchestrator
    → PhaseOrchestrator
    → OrchestratorRegistry
    → Result OrchestratorRegistry
add_absent none o registry = ok (o ∷ registry)
add_absent (some there) o registry = err "orchestration.duplicate_adapter"

unfoldable pub register : PhaseOrchestrator → OrchestratorRegistry → Result OrchestratorRegistry
register o registry = add_absent (lookup o.adapter_id o.adapter_version registry) o registry

-- The constructor registers one adapter after the other.
unfoldable pub register_all :
    List PhaseOrchestrator → OrchestratorRegistry → Result OrchestratorRegistry
register_all [] registry = ok registry
register_all (o ∷ rest) registry = bind (register o registry) (register_all rest)

abbrev pub accept : OrchestrationBinding → Option PhaseOrchestrator → Result PhaseOrchestrator
accept binding none = err "orchestration.adapter_not_found"
accept binding (some o) =
    if not (o.supports binding) then err "orchestration.binding_not_supported" else ok o

unfoldable pub resolve : OrchestrationBinding → OrchestratorRegistry → Result PhaseOrchestrator
resolve binding registry =
    accept binding (lookup binding.adapter_id binding.adapter_version registry)
