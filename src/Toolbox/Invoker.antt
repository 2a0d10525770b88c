-- ===== src/Toolbox/Invoker.antt =====
-- `ToolInvoker`, shell/tool_registry/invoker.py, over the consent gateway. `P` stands for the parameters of a
-- tool and `R` for its results. A call of a tool is logged in `calls`. Left out: the audit record and the
-- duration of a result, the two events of a call, whose failure is dropped, and the session id that
-- is put among the parameters of some builtin tools.
use offline_companion_core.Base.{
  ℕ, String, Bool, true, false, not, ◌&&◌, Option, none, some, List, [], ◌∷◌, ◌++◌, if◌then◌else◌,
  is_some, get_or, length, nat_eq, string_eq, pair_eq, Result, ok, err,
}
use offline_companion_core.Base.Text.{is_empty}
use offline_companion_core.Base.Dict.{Dict, lookup, insert, erase}
use offline_companion_core.Outbound.Policy.{PrivacyMode}
use offline_companion_core.Outbound.Consent.{
  ConsentRequest, ConsentError, Gateway, Host, get_pending, get_latest, submit, decide,
}
use offline_companion_core.Toolbox.Registry.{
  ToolType, builtin, external, Permission, allow, ask, deny, ToolManifest, RegistryError,
  ToolRegistry, set_external_enabled, resolve_permission,
}

pub data Action : Type 0 where
  execute enable_external : Action

pub record PendingAction (P : Type 0) : Type 0 where
  pub action : Action
  pub tool_id : String
  pub params : P
  pub session_id : String

pub data ToolStatus : Type 0 where
  completed requires_consent consent_rejected denied blocked error : ToolStatus

pub record ToolResult (R : Type 0) : Type 0 where
  pub tool_id : String
  pub status : ToolStatus
  pub result : Option R
  pub code : Option String
  pub consent_request_id : Option String

pub data InvokerError : Type 0 where
  unknown_consent inactive_session : String → InvokerError
  consent_failed : ConsentError → InvokerError
  registry_failed : RegistryError → InvokerError

-- What a handler, or the service behind an endpoint, does.
pub data Execution (R : Type 0) : Type 0 where
  done : R → Execution R
  gate_blocked : Option R → Execution R
  raised : Execution R

pub record ToolInvoker (H P T : Type 0) : Type 0 where
  pub registry : ToolRegistry H
  pub consent_gateway : Option (Gateway T)
  pub pending_actions : Dict String (PendingAction P)
  pub calls : List (String × P)

-- `perform` runs a tool with the handler that is registered; `enabled_result` is `{"enabled": True}`.
pub record Tools (H P R T : Type 0) : Type 0 where
  pub host : Host T
  pub perform : Option H → ToolManifest → P → ℕ → Execution R
  pub no_params : P
  pub enabled_result : R

abbrev pub join_text : String → String → String
join_text String.[] t = t
join_text (String.◌∷◌ c s) t = String.◌∷◌ c (join_text s t)

abbrev pub action_text : Action → String
action_text execute = "execute"
action_text enable_external = "enable_external"

abbrev pub purpose_of : Action → String
purpose_of execute = "tool_use"
purpose_of enable_external = "tool_external_enable"

abbrev pub is_ready : {H : Type 0} → ToolType → Option H → Option String → Bool
is_ready builtin handler endpoint = is_some handler
is_ready external handler endpoint = not (is_empty (get_or endpoint ""))

module _ {R : Type 0} where
  abbrev pub plain_result : String → ToolStatus → Option R → Option String → ToolResult R
  plain_result v status result code = record {
    tool_id = v;
    status = status;
    result = result;
    code = code;
    consent_request_id = none;
  }

  abbrev pub rejected : String → ToolResult R
  rejected v = plain_result v consent_rejected none (some "consent_rejected")

  abbrev pub denied_result : String → ToolResult R
  denied_result v = plain_result v denied none (some "tool_permission_denied")

module _ {H P R T : Type 0} (env : Tools H P R T) where
  abbrev pub result_of : String → Execution R → ToolResult R
  result_of v (done x) = plain_result v completed (some x) none
  result_of v (gate_blocked x) = plain_result v blocked x (some "hard_gate_blocked")
  result_of v raised = plain_result v error none (some "tool_execution_failed")

  -- `_execute_allowed`: a builtin tool without a handler, or an external one without an endpoint, raises
  -- before the call.
  unfoldable pub execute_allowed :
      ToolManifest → P → ToolInvoker H P T → ToolResult R × ToolInvoker H P T
  execute_allowed m params i =
      let handler = lookup m.tool_id i.registry.builtin_handlers in
      if is_ready m.tool_type handler m.endpoint
      then (
        result_of m.tool_id (env.perform handler m params (length i.calls)),
        record i { calls = i.calls ++ (m.tool_id, params) ∷ [] },
      )
      else (result_of m.tool_id raised, i)

  -- What follows on a consent.
  unfoldable pub allowed_action :
      Action
      → ToolManifest
      → P
      → ToolInvoker H P T
      → Result InvokerError (ToolResult R) × ToolInvoker H P T
  unfolding execute_allowed
  allowed_action execute m params i = let (x, j) = execute_allowed m params i in (ok x, j)
  allowed_action enable_external m params i =
      elim (set_external_enabled m.tool_id true i.registry) [
        | err e ↦ (err (registry_failed e), i)
        | ok r ↦ (
          ok (plain_result m.tool_id completed (some env.enabled_result) none),
          record i { registry = r },
        )
      ]

  -- The request; of its metadata the entries that only inform the user are left out.
  abbrev pub request_for : Action → ToolManifest → String → ConsentRequest
  request_for action m session_id = record {
    plan_id = session_id;
    step_id = join_text "tool:" m.tool_id;
    skill_id = join_text "tool_" m.tool_id;
    operation = action_text action;
    purpose_type = some (purpose_of action);
    risk_level = "medium";
    impact_scope = "single_turn";
    source = "tool_invoker";
    metadata =
        ("purpose_type", purpose_of action) ∷ ("tool_id", m.tool_id) ∷ ("scope", m.scope) ∷ [];
  }

  -- The id in `last_artifact`, and whether the request that it names waits for a decision.
  abbrev pub last_id : Gateway T → String
  last_id g = elim g.last_artifact [ none ↦ "" | some a ↦ a.request_id ]

  abbrev pub still_waits : Gateway T → Bool
  still_waits g =
      not (is_empty (last_id g))
      && elim (if is_empty (last_id g) then get_latest g else get_pending (last_id g) g) [
        | none ↦ false
        | some p ↦ not p.decided
      ]

  -- From the answer of `submit` on.
  unfoldable pub after_submit :
      Action
      → ToolManifest
      → P
      → String
      → Bool
      → Gateway T
      → ToolInvoker H P T
      → Result InvokerError (ToolResult R) × ToolInvoker H P T
  unfolding allowed_action
  after_submit action m params session_id allowed g i =
      if still_waits g
      then (
        ok (record (plain_result m.tool_id requires_consent none none) {
          consent_request_id = some (last_id g);
        }),
        record i {
          pending_actions =
              insert (last_id g)
                (record {
                  action = action;
                  tool_id = m.tool_id;
                  params = params;
                  session_id = session_id;
                })
                i.pending_actions;
        },
      )
      else (if allowed then allowed_action action m params i else (ok (rejected m.tool_id), i))

  -- `_request_consent`, with the id and the time of the request.
  unfoldable pub request_consent :
      Action
      → ToolManifest
      → P
      → String
      → String
      → T
      → ToolInvoker H P T
      → Result InvokerError (ToolResult R) × ToolInvoker H P T
  unfolding after_submit
  request_consent action m params session_id v now i = elim i.consent_gateway [
    | none ↦ (ok (denied_result m.tool_id), i)
    | some g ↦
        let (r, g') = submit env.host v (request_for action m session_id) now g in
        let i' = record i { consent_gateway = some g' } in
        elim r [
          | err e ↦ (err (consent_failed e), i')
          | ok allowed ↦ after_submit action m params session_id allowed g' i'
        ]
  ]

  -- `execute` of the tool that is found, with its permission.
  unfoldable pub execute_as :
      Permission
      → ToolManifest
      → P
      → String
      → String
      → T
      → ToolInvoker H P T
      → Result InvokerError (ToolResult R) × ToolInvoker H P T
  unfolding request_consent execute_allowed
  execute_as deny m params session_id v now i = (ok (denied_result m.tool_id), i)
  execute_as ask m params session_id v now i = request_consent execute m params session_id v now i
  execute_as allow m params session_id v now i =
      let (x, j) = execute_allowed m params i in (ok x, j)

  unfoldable pub execute_tool :
      String
      → P
      → String
      → PrivacyMode
      → String
      → T
      → ToolInvoker H P T
      → Result InvokerError (ToolResult R) × ToolInvoker H P T
  unfolding execute_as
  execute_tool tool params session_id mode v now i = elim (lookup tool i.registry.tools) [
    | none ↦ (ok (plain_result tool error none (some "tool_not_found")), i)
    | some m ↦ execute_as (resolve_permission m mode) m params session_id v now i
  ]

  unfoldable pub enable_tool :
      String
      → String
      → String
      → T
      → ToolInvoker H P T
      → Result InvokerError (ToolResult R) × ToolInvoker H P T
  unfolding request_consent
  enable_tool tool session_id v now i = elim (lookup tool i.registry.tools) [
    | none ↦ (ok (plain_result tool error none (some "tool_not_found")), i)
    | some m ↦ elim m.tool_type [
      | builtin ↦ (ok (plain_result tool error none (some "tool_not_external")), i)
      | external ↦
          if m.enabled
          then (ok (plain_result tool completed (some env.enabled_result) none), i)
          else request_consent enable_external m env.no_params session_id v now i
    ]
  ]

  -- The gateway is told of the decision, where it has none yet.
  unfoldable pub settle :
      String → Bool → T → Option (Gateway T) → Result InvokerError (Unit {0}) × Option (Gateway T)
  settle v allowed now none = (ok tt, none)
  settle v allowed now (some g) = elim (get_pending v g) [
    | none ↦ (err (inactive_session v), some g)
    | some p ↦
        if p.decided
        then (ok tt, some g)
        else (let (r, g') = decide env.host v allowed now g in
            (elim r [ err e ↦ err (consent_failed e) | ok _ ↦ ok tt ], some g'))
  ]

  unfoldable pub resume_action :
      PendingAction P
      → Bool
      → ToolInvoker H P T
      → Result InvokerError (ToolResult R) × ToolInvoker H P T
  unfolding allowed_action
  resume_action a allowed i = elim (lookup a.tool_id i.registry.tools) [
    | none ↦ (err (registry_failed (RegistryError.unknown_tool a.tool_id)), i)
    | some m ↦
        if allowed then allowed_action a.action m a.params i else (ok (rejected a.tool_id), i)
  ]

  unfoldable pub resume :
      String → Bool → T → ToolInvoker H P T → Result InvokerError (ToolResult R) × ToolInvoker H P T
  unfolding settle resume_action
  resume v allowed now i = elim (lookup v i.pending_actions) [
    | none ↦ (err (unknown_consent v), i)
    | some a ↦
        let (r, g) = settle v allowed now i.consent_gateway in
        let i' = record i { consent_gateway = g } in
        elim r [
          | err e ↦ (err e, i')
          | ok _ ↦
              resume_action a allowed (record i' { pending_actions = erase v i.pending_actions })
        ]
  ]
