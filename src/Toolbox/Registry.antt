-- ===== src/Toolbox/Registry.antt =====
-- `ToolRegistry`, shell/tool_registry/registry.py. Of a manifest the texts for display, the schemas, the names
-- and the version are left out. `H` stands for the handlers; the file of external tools is a list of
-- its items, with what `get` and `or` make of a missing field.
use offline_companion_core.Base.{
  String, Bool, true, false, not, ◌&&◌, ◌||◌, Option, none, some, List, [], ◌∷◌, ◌++◌,
  if◌then◌else◌, select, ◌==◌, nat_eq, string_eq, pair_eq, contains, Result, ok, err, ◌>>=◌, ◌>>◌,
  guard,
}
use offline_companion_core.Base.Text.{is_empty, strip}
use offline_companion_core.Base.Dict.{Dict, values, lookup, insert}
use offline_companion_core.Outbound.Policy.{PrivacyMode, local_only}

pub data ToolType : Type 0 where
  builtin external : ToolType

pub data Permission : Type 0 where
  allow ask deny : Permission

pub record ToolManifest : Type 0 where
  pub tool_id : String
  pub tool_type : ToolType
  pub permission : Permission
  pub scope : String
  pub enabled : Bool
  pub endpoint : Option String

pub record ExternalItem : Type 0 where
  pub tool_id : String
  pub permission : String
  pub scope : String
  pub enabled : Bool
  pub endpoint : String

pub data RegistryError : Type 0 where
  not_builtin builtin_denied not_external external_allowed no_id_or_endpoint : RegistryError
  unknown_permission unknown_tool : String → RegistryError

pub record ToolRegistry (H : Type 0) : Type 0 where
  pub tools : Dict String ToolManifest
  pub builtin_handlers : Dict String H
  pub session_context_tools : List String

abbrev pub network_scope : String → Bool
network_scope scope = scope == "network_egress" || scope == "cloud_inference"

abbrev pub is_external : ToolType → Bool
is_external external = true
is_external builtin = false

abbrev pub is_deny : Permission → Bool
is_deny deny = true
is_deny _ = false

abbrev pub is_local_only : PrivacyMode → Bool
is_local_only local_only = true
is_local_only _ = false

abbrev pub set_add : String → List String → List String
set_add x xs = if contains xs x then xs else xs ++ x ∷ []

abbrev pub permission_of : String → Result RegistryError Permission
permission_of text =
    if text == "allow"
    then err external_allowed
    else (if text == "ask"
        then ok ask
        else (if text == "deny" then ok deny else err (unknown_permission text)))

unfoldable pub external_manifest : ExternalItem → Result RegistryError ToolManifest
external_manifest i = do
  permission ← permission_of i.permission
  guard (not (is_empty (strip i.tool_id) || is_empty (strip i.endpoint))) no_id_or_endpoint
  ok (record {
    tool_id = strip i.tool_id;
    tool_type = external;
    permission = permission;
    scope = i.scope;
    enabled = i.enabled;
    endpoint = some (strip i.endpoint);
  })

module _ {H : Type 0} where
  unfoldable pub register_builtin :
      ToolManifest → H → Bool → ToolRegistry H → Result RegistryError (ToolRegistry H)
  register_builtin m handler inject_session_id r = do
    guard (not (is_external m.tool_type)) not_builtin
    guard (not (is_deny m.permission)) builtin_denied
    ok (record r {
      tools = insert m.tool_id m r.tools;
      builtin_handlers = insert m.tool_id handler r.builtin_handlers;
      session_context_tools =
          if inject_session_id
          then set_add m.tool_id r.session_context_tools
          else r.session_context_tools;
    })

  -- An item that is refused ends the loop, and the ones before it stay.
  unfoldable pub load_external :
      List ExternalItem → ToolRegistry H → Result RegistryError (Unit {0}) × ToolRegistry H
  unfolding external_manifest
  load_external [] r = (ok tt, r)
  load_external (i ∷ is) r = elim (external_manifest i) [
    | err e ↦ (err e, r)
    | ok m ↦ load_external is (record r { tools = insert m.tool_id m r.tools })
  ]

  unfoldable pub set_external_enabled :
      String → Bool → ToolRegistry H → Result RegistryError (ToolRegistry H)
  set_external_enabled v enabled r = elim (lookup v r.tools) [
    | none ↦ err (unknown_tool v)
    | some m ↦
        if is_external m.tool_type
        then ok (record r { tools = insert v (record m { enabled = enabled }) r.tools })
        else err not_external
  ]

  unfoldable pub list_available : ToolRegistry H → List ToolManifest
  list_available r =
      select (λ m. not (is_deny m.permission) && not (is_external m.tool_type && not m.enabled))
        (values r.tools)

-- `resolve_permission` of the manifest that is found.
unfoldable pub resolve_permission : ToolManifest → PrivacyMode → Permission
resolve_permission m mode =
    if is_local_only mode && network_scope m.scope
    then deny
    else (if is_external m.tool_type && not m.enabled then deny else m.permission)
