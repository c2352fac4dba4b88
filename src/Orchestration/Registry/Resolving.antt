-- ===== src/Orchestration/Registry/Resolving.antt =====
-- What the registry resolves a binding to.
use text.Mathlib.TextPositions.{eq_refl}
use model_forge.Prelude.{
  Bool, refl, ap, String, List, [], ◌∷◌, ◌++◌, any, some, false, Bool-cases, bind-ok, sym, ◌∙◌,
  eq_iff, ◌≡◌, inl, inr, true, arith, ok, err, Option-cases, if◌then◌else◌,
}
use model_forge.Storage.Schema.Tables.{find?-test}
use model_forge.Orchestration.Protocol.{OrchestrationBinding}
use model_forge.Orchestration.Registry.{
  PhaseOrchestrator, OrchestratorRegistry, has_key, lookup, register, register_all, resolve,
}

-- The adapter that a binding resolves to has the identity and the version that the binding names, and
-- supports the binding.
pub resolve_sound :
    (binding : OrchestrationBinding) (registry : OrchestratorRegistry) {o : PhaseOrchestrator}
    → resolve binding registry ≡ ok o
    → (o.adapter_id ≡ binding.adapter_id)
      × (o.adapter_version ≡ binding.adapter_version)
      × (o.supports binding ≡ true)
unfolding resolve
resolve_sound binding registry {o = o} e =
    elim (Option-cases (lookup binding.adapter_id binding.adapter_version registry)) [
      | inl absent ↦ cc (rw absent at e)
      | inr (p, there) ↦
          let hit =
            find?-test (has_key binding.adapter_id binding.adapter_version) registry p there in
          let e' = rw there at e in
          ground (
            arith,
            e',
            hit,
            (eq_iff o.adapter_id binding.adapter_id).0,
            (eq_iff o.adapter_version binding.adapter_version).0,
          )
    ]

-- Registering one adapter keeps those that are there and is refused where it has the key of one.
register-lookup :
    (adapter_id adapter_version : String) (p : PhaseOrchestrator)
    (registry registry' : OrchestratorRegistry) (o : PhaseOrchestrator)
    → register p registry ≡ ok registry'
    → lookup adapter_id adapter_version registry ≡ some o
    → (lookup adapter_id adapter_version registry' ≡ some o)
      × (has_key adapter_id adapter_version p ≡ false)
unfolding register
register-lookup adapter_id adapter_version p registry registry' o e there =
    elim (Bool-cases (has_key adapter_id adapter_version p)) [
      | inr apart ↦ (ground (arith, e, there, apart), apart)
      | inl same ↦
          let id : p.adapter_id ≡ adapter_id =
            (eq_iff p.adapter_id adapter_id).0 (ground (arith, same)) in
          let version : p.adapter_version ≡ adapter_version =
            (eq_iff p.adapter_version adapter_version).0 (ground (arith, same)) in
          cc (rw (id, version, there) at e)
    ]

-- Registering the rest keeps an adapter that is there, and none of the rest has its identity and
-- version.
stays :
    (adapter_id adapter_version : String) (rest : List PhaseOrchestrator)
    (registry built : OrchestratorRegistry) (o : PhaseOrchestrator)
    → register_all rest registry ≡ ok built
    → lookup adapter_id adapter_version registry ≡ some o
    → (lookup adapter_id adapter_version built ≡ some o)
      × (any (has_key adapter_id adapter_version) rest ≡ false)
unfolding register_all
stays adapter_id adapter_version [] registry built o e there =
    let same : registry ≡ built = cc e in (rw same at there, refl)
stays adapter_id adapter_version (p ∷ rest) registry built o e there =
    let (registry', taken, e') = bind-ok (register p registry) (register_all rest) e in
    let (kept, fresh) =
      register-lookup adapter_id adapter_version p registry registry' o taken there in
    let (last, others) = stays adapter_id adapter_version rest registry' built o e' kept in
    (last, ground (arith, fresh, others))

own_key : (o : PhaseOrchestrator) → has_key o.adapter_id o.adapter_version o ≡ true
own_key o = ground (arith, eq_refl o.adapter_id, eq_refl o.adapter_version)

registered :
    (o : PhaseOrchestrator) (registry registry' : OrchestratorRegistry)
    → register o registry ≡ ok registry'
    → registry' ≡ o ∷ registry
unfolding register
registered o registry registry' e =
    elim (Option-cases (lookup o.adapter_id o.adapter_version registry)) [
      | inl absent ↦ cc (rw absent at e)
      | inr (p, there) ↦ cc (rw there at e)
    ]

any-append :
    (q : PhaseOrchestrator → Bool) (before after : List PhaseOrchestrator) (o : PhaseOrchestrator)
    → q o ≡ true
    → any q (before ++ o ∷ after) ≡ true
any-append q [] after o hit = ground (arith, hit)
any-append q (p ∷ before) after o hit = ground (arith, any-append q before after o hit)

-- Each adapter of a list that was registered is found, and is the only one of it with its key.
placed :
    (before after : List PhaseOrchestrator) (o : PhaseOrchestrator)
    (registry built : OrchestratorRegistry)
    → register_all (before ++ o ∷ after) registry ≡ ok built
    → (lookup o.adapter_id o.adapter_version built ≡ some o)
      × (any (has_key o.adapter_id o.adapter_version) (before ++ after) ≡ false)
unfolding register_all
placed [] after o registry built e =
    let (registry', taken, e') = bind-ok (register o registry) (register_all after) e in
    let found : lookup o.adapter_id o.adapter_version registry' ≡ some o =
      rw (registered o registry registry' taken, own_key o) refl in
    stays o.adapter_id o.adapter_version after registry' built o e' found
placed (p ∷ before) after o registry built e =
    let (registry', taken, e') =
      bind-ok (register p registry) (register_all (before ++ o ∷ after)) e in
    let (found, others) = placed before after o registry' built e' in
    elim (Bool-cases (has_key o.adapter_id o.adapter_version p)) [
      | inr apart ↦ (found, ground (arith, apart, others))
      | inl same ↦
          let first : lookup o.adapter_id o.adapter_version registry' ≡ some p =
            rw (registered p registry registry' taken, same) refl in
          let (_, none_after) =
            stays o.adapter_id o.adapter_version (before ++ o ∷ after) registry' built p e' first in
          cc (
            none_after,
            any-append (has_key o.adapter_id o.adapter_version) before after o (own_key o),
          )
    ]

-- A registry that was built of adapters: bindings with the identity and the version of one of them
-- resolve to it if it supports them, and are refused if not; no other of them has both.
pub resolve_registered :
    (before after : List PhaseOrchestrator) (o : PhaseOrchestrator) (binding : OrchestrationBinding)
    {registry : OrchestratorRegistry}
    → register_all (before ++ o ∷ after) [] ≡ ok registry
    → o.adapter_id ≡ binding.adapter_id
    → o.adapter_version ≡ binding.adapter_version
    → (resolve binding registry
        ≡ (if o.supports binding then ok o else err "orchestration.binding_not_supported"))
      × (any (has_key o.adapter_id o.adapter_version) (before ++ after) ≡ false)
unfolding resolve
resolve_registered before after o binding {registry = registry} e same same' =
    let (found, others) = placed before after o [] registry e in
    let read : lookup binding.adapter_id binding.adapter_version registry ≡ some o =
      ap (λ k. lookup k binding.adapter_version registry) (sym same)
      ∙ (ap (λ k. lookup o.adapter_id k registry) (sym same') ∙ found) in
    (ground (arith, read), others)
