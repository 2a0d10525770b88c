-- ===== src/Toolbox/Tests.antt =====
-- A builtin tool and an external one, whose use is asked for.
use offline_companion_core.Base.{
  ℕ, ◌+◌, ◌≡◌, refl, ◌⊎◌, true, false, none, some, [], ◌∷◌, nat_eq, string_eq, pair_eq, err,
}
use offline_companion_core.Base.Text.{strip}
use offline_companion_core.Base.Dict.{lookup}
use offline_companion_core.Outbound.Policy.{always_ask}
use offline_companion_core.Outbound.Consent.{
  Gateway, get_pending, get_latest, decide, decide_on, persist_into, validate_consent_artifact,
  is_purpose, submit, register, build_consent_artifact, announce, purpose_for_request,
}
use offline_companion_core.Toolbox.Registry.{
  builtin, external, allow, ask, ToolManifest, ExternalItem, ToolRegistry, external_manifest,
  register_builtin, load_external, resolve_permission,
}
use offline_companion_core.Toolbox.Invoker.{
  Tools, ToolInvoker, done, unknown_consent, execute_allowed, allowed_action, after_submit,
  request_consent, execute_as, execute_tool, settle, resume_action, resume,
}
use offline_companion_core.Toolbox.Permissions.{Permitted, Consented, execute_tool_guarded}
use offline_companion_core.Toolbox.External.{
  here, next, registers, loads, kept, empty_registry, execute_external-Consented,
}
use offline_companion_core.Toolbox.Once.{resume_once}

abbrev env : Tools ℕ ℕ ℕ ℕ
env = record {
  host = record { lower = λ s. s; takes = λ e. true; serializable = λ a. true };
  perform = λ h m x n. done (x + 1);
  no_params = 0;
  enabled_result = 1;
}

abbrev clock : ToolManifest
clock = record {
  tool_id = "clock";
  tool_type = builtin;
  permission = allow;
  scope = "local";
  enabled = true;
  endpoint = none;
}

abbrev web_item : ExternalItem
web_item = record {
  tool_id = " web ";
  permission = "ask";
  scope = "network_egress";
  enabled = true;
  endpoint = "http://localhost:9";
}

abbrev web : ToolManifest
web = record {
  tool_id = "web";
  tool_type = external;
  permission = ask;
  scope = "network_egress";
  enabled = true;
  endpoint = some "http://localhost:9";
}

abbrev both : ToolRegistry ℕ
both =
    (load_external (web_item ∷ [])
      (kept empty_registry (register_builtin clock 7 false empty_registry))).1

web_is_there : lookup "web" both.tools ≡ some web
unfolding load_external external_manifest register_builtin strip
web_is_there = refl

abbrev gateway : Gateway ℕ
gateway = record {
  decision_provider = some (λ a. true);
  consent_artifacts = some [];
  event_stream = some [];
  active_session_id = some "a";
  pending = [];
  last_artifact = none;
}

abbrev invoker : ToolInvoker ℕ ℕ ℕ
invoker = record {
  registry = both;
  consent_gateway = some gateway;
  pending_actions = [];
  calls = [];
}

-- The user says yes, and the tool is called.
web_is_called : (execute_tool env "web" 3 "a" always_ask "r1" 5 invoker).1.calls ≡ ("web", 3) ∷ []
unfolding execute_tool resolve_permission execute_as request_consent after_submit allowed_action
    execute_allowed get_pending get_latest decide decide_on persist_into validate_consent_artifact
    is_purpose submit register build_consent_artifact announce purpose_for_request load_external
    external_manifest register_builtin strip
web_is_called = refl

execute_tool_guarded_example :
    let j = (execute_tool env "web" 3 "a" always_ask "r1" 5 invoker).1 in
    (j.calls ≡ [])
    ⊎ ((m : ToolManifest) × (lookup "web" both.tools ≡ some m)
        × (j.calls ≡ (m.tool_id, 3) ∷ [])
        × Permitted env m always_ask "a" "r1" 5 invoker)
execute_tool_guarded_example = execute_tool_guarded env "web" 3 "a" always_ask "r1" 5 invoker

execute_external-Consented_example :
    ((execute_tool env "web" 3 "a" always_ask "r1" 5 invoker).1.calls ≡ [])
    ⊎ Consented env web "a" "r1" 5 invoker
execute_external-Consented_example =
    execute_external-Consented env "web" 3 "a" always_ask "r1" 5 invoker web
      (next (next here (registers clock 7 false)) (loads (web_item ∷ []))) web_is_there refl

-- Nobody has answered yet, and the call waits.
abbrev waiting : ToolInvoker ℕ ℕ ℕ
waiting =
    (execute_tool env "web" 3 "a" always_ask "r1" 5
      (record invoker { consent_gateway = some (record gateway { decision_provider = none }) })).1

waiting_is_called :
    (waiting.calls ≡ []) × ((resume env "r1" true 6 waiting).1.calls ≡ ("web", 3) ∷ [])
unfolding resume settle resume_action execute_tool resolve_permission execute_as request_consent
    after_submit allowed_action execute_allowed get_pending get_latest decide decide_on persist_into
    validate_consent_artifact is_purpose submit register build_consent_artifact announce
    purpose_for_request load_external external_manifest register_builtin strip
waiting_is_called = (refl, refl)

resume_once_example :
    let j = (resume env "r1" true 6 waiting).1 in
    (j.calls ≡ waiting.calls) ⊎ (resume env "r1" true 7 j ≡ (err (unknown_consent "r1"), j))
resume_once_example = resume_once env "r1" true true 6 7 waiting
