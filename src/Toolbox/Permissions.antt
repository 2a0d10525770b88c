-- ===== src/Toolbox/Permissions.antt =====
-- Which calls of tools go through.
use offline_companion_core.Base.{
  String, ◌≡◌, refl, ap, ◌∙◌, ◌⊎◌, inl, inr, Bool, true, Option, none, some, [], ◌∷◌, ◌++◌,
  split_if, nat_eq, string_eq, pair_eq, Result, ok, err,
}
use offline_companion_core.Base.Dict.{lookup}
use offline_companion_core.Outbound.Policy.{PrivacyMode}
use offline_companion_core.Outbound.Consent.{ConsentError, Gateway, submit}
use offline_companion_core.Toolbox.Registry.{
  Permission, allow, ask, deny, ToolManifest, resolve_permission,
}
use offline_companion_core.Toolbox.Invoker.{
  execute, ToolResult, InvokerError, ToolInvoker, Tools, denied_result, plain_result, error,
  consent_failed, execute_allowed, allowed_action, request_for, still_waits, after_submit,
  request_consent, execute_as, execute_tool, is_ready,
}

module _ {H P R T : Type 0} (env : Tools H P R T) where
  -- A call has been made, or none.
  abbrev Calls : String → P → ToolInvoker H P T → ToolInvoker H P T → Type 0
  Calls v params i j = (j.calls ≡ i.calls) ⊎ (j.calls ≡ i.calls ++ (v, params) ∷ [])

  abbrev Out : Type 0
  Out = Result InvokerError (ToolResult R) × ToolInvoker H P T

  execute_allowed-Calls :
      (m : ToolManifest) (params : P) (i : ToolInvoker H P T)
      → Calls m.tool_id params i (execute_allowed env m params i).1
  unfolding execute_allowed
  execute_allowed-Calls m params i =
      split_if Made (is_ready m.tool_type (lookup m.tool_id i.registry.builtin_handlers) m.endpoint)
        (λ q. inr refl) (λ q. inl refl)
    where
      Made : ToolResult R × ToolInvoker H P T → Type 0
      Made (x, j) = Calls m.tool_id params i j

  after_submit-Calls :
      (m : ToolManifest) (params : P) (session_id : String) (allowed : Bool) (g : Gateway T)
      (i : ToolInvoker H P T)
      → ((after_submit env execute m params session_id allowed g i).1.calls ≡ i.calls)
        ⊎ ((allowed ≡ true)
            × Calls m.tool_id params i (after_submit env execute m params session_id allowed g i).1)
  unfolding after_submit allowed_action
  after_submit-Calls m params session_id allowed g i =
      split_if Made (still_waits env g) (λ q. inl refl)
        (λ q.
          split_if Made allowed (λ s. inr (s, execute_allowed-Calls m params i)) (λ s. inl refl))
    where
      Made : Out → Type 0
      Made (x, j) = (j.calls ≡ i.calls) ⊎ ((allowed ≡ true) × Calls m.tool_id params i j)

  -- The gateway has answered yes to the request for this execution.
  abbrev pub Consented : ToolManifest → String → String → T → ToolInvoker H P T → Type 0
  Consented m session_id v now i =
      (g : Gateway T) × (i.consent_gateway ≡ some g)
      × ((submit env.host v (request_for env execute m session_id) now g).0 ≡ ok true)

  request_consent-Calls :
      (m : ToolManifest) (params : P) (session_id v : String) (now : T) (i : ToolInvoker H P T)
      → let j = (request_consent env execute m params session_id v now i).1 in
        (j.calls ≡ i.calls) ⊎ (Consented m session_id v now i × Calls m.tool_id params i j)
  unfolding request_consent
  request_consent-Calls m params session_id v now i = by_gateway i.consent_gateway refl
    where
      Made : Out → Type 0
      Made (x, j) =
          (j.calls ≡ i.calls) ⊎ (Consented m session_id v now i × Calls m.tool_id params i j)

      answered :
          (g : Gateway T)
          → i.consent_gateway ≡ some g
          → (r : Result ConsentError Bool) (g' : Gateway T)
          → (submit env.host v (request_for env execute m session_id) now g).0 ≡ r
          → Made (elim r [
            | err e ↦ (err (consent_failed e), record i { consent_gateway = some g' })
            | ok allowed ↦
                after_submit env execute m params session_id allowed g'
                  (record i { consent_gateway = some g' })
          ])
      answered g e (err x) g' q = inl refl
      answered g e (ok allowed) g' q =
          elim (after_submit-Calls m params session_id allowed g'
            (record i { consent_gateway = some g' })) [
              | inl same ↦ inl same
              | inr (s, c) ↦ inr ((g, e, q ∙ ap ok s), c)
            ]

      by_gateway :
          (o : Option (Gateway T))
          → i.consent_gateway ≡ o
          → Made (elim o [
            | none ↦ (ok (denied_result m.tool_id), i)
            | some g ↦
                let (r, g') = submit env.host v (request_for env execute m session_id) now g in
                let i' = record i { consent_gateway = some g' } in
                elim r [
                  | err e ↦ (err (consent_failed e), i')
                  | ok allowed ↦ after_submit env execute m params session_id allowed g' i'
                ]
          ])
      by_gateway none e = inl refl
      by_gateway (some g) e =
          answered g e (submit env.host v (request_for env execute m session_id) now g).0
            (submit env.host v (request_for env execute m session_id) now g).1 refl

  abbrev pub Permitted :
      ToolManifest → PrivacyMode → String → String → T → ToolInvoker H P T → Type 0
  Permitted m mode session_id v now i =
      (resolve_permission m mode ≡ allow)
      ⊎ ((resolve_permission m mode ≡ ask) × Consented m session_id v now i)

  execute_as-Calls :
      (p : Permission) (m : ToolManifest) (params : P) (session_id v : String) (now : T)
      (i : ToolInvoker H P T)
      → let j = (execute_as env p m params session_id v now i).1 in
        (j.calls ≡ i.calls)
        ⊎ (((p ≡ allow) ⊎ ((p ≡ ask) × Consented m session_id v now i))
            × (j.calls ≡ i.calls ++ (m.tool_id, params) ∷ []))
  unfolding execute_as
  execute_as-Calls deny m params session_id v now i = inl refl
  execute_as-Calls ask m params session_id v now i =
      elim (request_consent-Calls m params session_id v now i) [
        | inl same ↦ inl same
        | inr (granted, inl same) ↦ inl same
        | inr (granted, inr made) ↦ inr (inr (refl, granted), made)
      ]
  execute_as-Calls allow m params session_id v now i = elim (execute_allowed-Calls m params i) [
    | inl same ↦ inl same
    | inr made ↦ inr (inl refl, made)
  ]

  -- A tool is called only where its permission is to allow it, or to ask and the consent gateway has
  -- said yes to this very request; otherwise `execute` calls none, whatever it answers.
  pub execute_tool_guarded :
      (tool : String) (params : P) (session_id : String) (mode : PrivacyMode) (v : String) (now : T)
      (i : ToolInvoker H P T)
      → let j = (execute_tool env tool params session_id mode v now i).1 in
        (j.calls ≡ i.calls)
        ⊎ ((m : ToolManifest) × (lookup tool i.registry.tools ≡ some m)
            × (j.calls ≡ i.calls ++ (m.tool_id, params) ∷ [])
            × Permitted m mode session_id v now i)
  unfolding execute_tool
  execute_tool_guarded tool params session_id mode v now i =
      found (lookup tool i.registry.tools) refl
    where
      Made : Out → Type 0
      Made (x, j) =
          (j.calls ≡ i.calls)
          ⊎ ((m : ToolManifest) × (lookup tool i.registry.tools ≡ some m)
              × (j.calls ≡ i.calls ++ (m.tool_id, params) ∷ [])
              × Permitted m mode session_id v now i)

      found :
          (o : Option ToolManifest)
          → lookup tool i.registry.tools ≡ o
          → Made (elim o [
            | none ↦ (ok (plain_result tool error none (some "tool_not_found")), i)
            | some m ↦ execute_as env (resolve_permission m mode) m params session_id v now i
          ])
      found none e = inl refl
      found (some m) e =
          elim (execute_as-Calls (resolve_permission m mode) m params session_id v now i) [
            | inl same ↦ inl same
            | inr (permitted, made) ↦ inr (m, e, made, permitted)
          ]
