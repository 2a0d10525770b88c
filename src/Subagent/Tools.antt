-- ===== src/Subagent/Tools.antt =====
-- `RestrictedToolRegistry`, core/subagent_scheduler.py, over the context of core/subagent_types.py. `V` stands
-- for the results of tools. Arguments are texts, decoded from JSON; what is not an object has none.
use offline_companion_core.Base.{
  ℕ, suc, String, Bool, false, not, ◌&&◌, ◌||◌, Option, none, some, List, [], ◌∷◌, ◌++◌,
  if◌then◌else◌, get_or, length, ◌==◌, nat_eq, string_eq, pair_eq, contains,
}
use offline_companion_core.Base.Text.{or_else}
use offline_companion_core.Base.Dict.{Dict, lookup}

pub data SubagentRole : Type 0 where
  implementer reviewer : SubagentRole

abbrev pub Arguments : Type 0
Arguments = Dict String String

pub record ToolCall : Type 0 where
  pub id : String
  pub name : String
  pub arguments : Option Arguments

pub data ToolResult (V : Type 0) : Type 0 where
  not_available access_denied : String → ToolResult V
  no_tool_registry interrupted_before denied_by_consent : ToolResult V
  value : V → ToolResult V

-- An entry of `messages`.
pub data Entry (V : Type 0) : Type 0 where
  system user : String → Entry V
  assistant : String → List ToolCall → Entry V
  tool : String → ToolResult V → Entry V

pub record SubagentContext (V : Type 0) : Type 0 where
  pub subagent_id : String
  pub parent_session_id : String
  pub role : SubagentRole
  pub task_description : String
  pub allowed_files : List String
  pub system_prompt : String
  pub messages : List (Entry V)
  pub privacy_mode : String
  pub max_llm_calls : ℕ
  pub llm_call_count : ℕ
  pub interrupted : Bool
  pub plan_id : Option String
  pub step_id : Option String

-- A context with its tools: whether there is a registry and a consent gateway, the calls that have
-- reached the base registry, and how often consent was asked for.
pub record Run (V : Type 0) : Type 0 where
  pub context : SubagentContext V
  pub has_registry : Bool
  pub has_gateway : Bool
  pub calls : List (String × Arguments)
  pub asked : ℕ

-- What `json.loads` gives: an object, or something else. Of a field's number it is told whether it is
-- other than 0, of its object whether it has an entry, and of the items of its list what `str` makes.
pub data JsonValue : Type 0 where
  null : JsonValue
  boolean number fields : Bool → JsonValue
  json_text : String → JsonValue
  array : List String → JsonValue

pub data Json : Type 0 where
  object : Dict String JsonValue → Json
  other : Json

-- A call of the language model: it raises, or replies; and whether the interruption has come by then.
pub data Routed : Type 0 where
  route_error : String → Routed
  replied : String → List ToolCall → Bool → Routed

-- The language model, the file system, the base registry (whose call may raise), the user's consent,
-- and `json.loads` of a review, which may raise.
pub record Host (V : Type 0) : Type 0 where
  pub route : List (Entry V) → ℕ → Routed
  pub resolve : String → Option String
  pub base : String → Arguments → ℕ → Option V
  pub consents : Arguments → ℕ → Bool
  pub parse : String → Option Json

abbrev pub role_tools : SubagentRole → List String
role_tools implementer = "file_read" ∷ "file_write" ∷ "execute_command" ∷ []
role_tools reviewer = "file_read" ∷ []

abbrev pub is_file_tool : String → Bool
is_file_tool name = name == "file_read" || name == "file_write"

-- `arguments.get("path") or arguments.get("file_path") or ""`
abbrev pub path_of : Arguments → String
path_of a = or_else (get_or (lookup "path" a) "") (get_or (lookup "file_path" a) "")

module _ {V : Type 0} (host : Host V) where
  -- An allowed file that cannot be resolved is passed over.
  abbrev pub resolves_to : String → List String → Bool
  resolves_to p [] = false
  resolves_to p (f ∷ fs) =
      elim (host.resolve f) [ none ↦ false | some q ↦ p == q ] || resolves_to p fs

  unfoldable pub validate_file_access : String → List String → Bool
  validate_file_access path [] = false
  validate_file_access path (f ∷ fs) = elim (host.resolve path) [
    | none ↦ false
    | some p ↦ resolves_to p (f ∷ fs)
  ]

  -- The end of `invoke`: the call of the base registry.
  abbrev pub call_base : String → Arguments → Run V → Option (ToolResult V) × Run V
  call_base name a r = (
    elim (host.base name a (length r.calls)) [ none ↦ none | some v ↦ some (value v) ],
    record r { calls = r.calls ++ (name, a) ∷ [] },
  )

  -- `none` is an exception of the base registry.
  unfoldable pub invoke : String → Arguments → Run V → Option (ToolResult V) × Run V
  unfolding validate_file_access
  invoke name a r =
      let c = r.context in
      if not (contains (role_tools c.role) name)
      then (some (not_available name), r)
      else (if is_file_tool name && not (validate_file_access (path_of a) c.allowed_files)
          then (some (access_denied (path_of a)), r)
          else (if name == "execute_command" && r.has_gateway
              then (let r' = record r { asked = suc r.asked } in
                  if host.consents a r.asked
                  then call_base name a r'
                  else (some denied_by_consent, r'))
              else call_base name a r))

  unfoldable pub execute_tool_call : ToolCall → Run V → Option (ToolResult V) × Run V
  unfolding invoke
  execute_tool_call t r =
      if not r.has_registry
      then (some no_tool_registry, r)
      else (if r.context.interrupted
          then (some interrupted_before, r)
          else invoke t.name (get_or t.arguments []) r)
