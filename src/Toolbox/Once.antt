-- ===== src/Toolbox/Once.antt =====
-- A consent that a tool waits for, from the first `resume` on.
use offline_companion_core.Base.{
  String, ◌≡◌, refl, ap, ◌∙◌, ◌⊎◌, inl, inr, Bool, true, Option, none, some, if◌then◌else◌,
  split_if, nat_eq, string_eq, pair_eq, Result, ok, err,
}
use offline_companion_core.Base.Dict.{lookup, erase, lookup-erase_self}
use offline_companion_core.Outbound.Consent.{Gateway}
use offline_companion_core.Toolbox.Registry.{
  ToolManifest, RegistryError, ToolRegistry, set_external_enabled,
}
use offline_companion_core.Toolbox.Invoker.{
  Action, execute, enable_external, PendingAction, ToolResult, InvokerError, unknown_consent,
  registry_failed, ToolInvoker, Tools, completed, plain_result, rejected, is_ready, execute_allowed,
  allowed_action, settle, resume_action, resume,
}

module _ {H P R T : Type 0} (env : Tools H P R T) where
  -- The waiting actions and the calls so far.
  abbrev Pending :
      ToolInvoker H P T → Result InvokerError (ToolResult R) × ToolInvoker H P T → Type 0
  Pending i (x, j) = j.pending_actions ≡ i.pending_actions

  allowed_action-Pending :
      (a : Action) (m : ToolManifest) (params : P) (i : ToolInvoker H P T)
      → Pending i (allowed_action env a m params i)
  unfolding allowed_action execute_allowed
  allowed_action-Pending execute m params i =
      split_if Same (is_ready m.tool_type (lookup m.tool_id i.registry.builtin_handlers) m.endpoint)
        (λ _. refl) (λ _. refl)
    where
      Same : ToolResult R × ToolInvoker H P T → Type 0
      Same (x, j) = j.pending_actions ≡ i.pending_actions
  allowed_action-Pending enable_external m params i =
      enabled (set_external_enabled m.tool_id true i.registry)
    where
      enabled :
          (o : Result RegistryError (ToolRegistry H))
          → Pending i (elim o [
            | err e ↦ (err (registry_failed e), i)
            | ok r ↦ (
              ok (plain_result m.tool_id completed (some env.enabled_result) none),
              record i { registry = r },
            )
          ])
      enabled (err e) = refl
      enabled (ok r) = refl

  resume_action-Pending :
      (a : PendingAction P) (allowed : Bool) (i : ToolInvoker H P T)
      → Pending i (resume_action env a allowed i)
  unfolding resume_action
  resume_action-Pending a allowed i = found (lookup a.tool_id i.registry.tools)
    where
      found :
          (o : Option ToolManifest)
          → Pending i (elim o [
            | none ↦ (err (registry_failed (RegistryError.unknown_tool a.tool_id)), i)
            | some m ↦
                if allowed
                then allowed_action env a.action m a.params i
                else (ok (rejected a.tool_id), i)
          ])
      found none = refl
      found (some m) =
          split_if (Pending i) allowed (λ _. allowed_action-Pending a.action m a.params i)
            (λ _. refl)

  resume-none :
      (v : String) (allowed : Bool) (now : T) (i : ToolInvoker H P T)
      → lookup v i.pending_actions ≡ none
      → resume env v allowed now i ≡ (err (unknown_consent v), i)
  unfolding resume
  resume-none v allowed now i q = rw (resume, q) refl

  -- After a `resume` that has called the tool, another `resume` of the same consent raises and calls
  -- nothing, so that a consent is good for one call.
  pub resume_once :
      (v : String) (allowed again : Bool) (now later : T) (i : ToolInvoker H P T)
      → let j = (resume env v allowed now i).1 in
        (j.calls ≡ i.calls) ⊎ (resume env v again later j ≡ (err (unknown_consent v), j))
  unfolding resume
  resume_once v allowed again now later i = waiting (lookup v i.pending_actions)
    where
      Out : Type 0
      Out = Result InvokerError (ToolResult R) × ToolInvoker H P T

      Spent : Out → Type 0
      Spent (x, j) =
          (j.calls ≡ i.calls) ⊎ (resume env v again later j ≡ (err (unknown_consent v), j))

      settled :
          (a : PendingAction P) (g : Option (Gateway T)) (r : Result InvokerError (Unit {0}))
          → Spent (elim r [
            | err e ↦ (err e, record i { consent_gateway = g })
            | ok _ ↦
                resume_action env a allowed
                  (record i { consent_gateway = g; pending_actions = erase v i.pending_actions })
          ])
      settled a g (err e) = inl refl
      settled a g (ok _) =
          let i' = record i { consent_gateway = g; pending_actions = erase v i.pending_actions } in
          inr (
            resume-none v again later (resume_action env a allowed i').1 (
              ap (lookup v) (resume_action-Pending a allowed i')
              ∙ lookup-erase_self v i.pending_actions))

      waiting :
          (o : Option (PendingAction P))
          → Spent (elim o [
            | none ↦ (err (unknown_consent v), i)
            | some a ↦
                let (r, g) = settle env v allowed now i.consent_gateway in
                elim r [
                  | err e ↦ (err e, record i { consent_gateway = g })
                  | ok _ ↦ resume_action env a allowed (record i {
                    consent_gateway = g;
                    pending_actions = erase v i.pending_actions;
                  })
                ]
          ])
      waiting none = inl refl
      waiting (some a) =
          settled a (settle env v allowed now i.consent_gateway).1
            (settle env v allowed now i.consent_gateway).0
