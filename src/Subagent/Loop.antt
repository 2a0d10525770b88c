-- ===== src/Subagent/Loop.antt =====
-- `SubagentScheduler`, core/subagent_scheduler.py: making a context and the loop of `run` with a router. The
-- evidence is kept as the number of calls, and the format error without its excerpt. An interruption
-- from outside shows from the end of a call of the model on.
use offline_companion_core.Base.{
  ℕ, zero, suc, ◌-◌, max, String, Bool, true, false, ◌||◌, Option, none, some, List, [], ◌∷◌, ◌++◌,
  ltb, if◌then◌else◌, not, get_or, nat_eq, string_eq, pair_eq,
}
use offline_companion_core.Base.Text.{is_empty, strip}
use offline_companion_core.Base.Text.{has_prefix, cut_text}
use offline_companion_core.Base.Dict.{lookup}
use offline_companion_core.Subagent.Tools.{
  SubagentRole, implementer, reviewer, ToolCall, Entry, system, user, assistant, tool,
  SubagentContext, Run, JsonValue, null, boolean, number, fields, json_text, array, Json, object,
  other, Routed, route_error, replied, Host, execute_tool_call,
}

pub data SubagentStatus : Type 0 where
  completed failed timeout : SubagentStatus

pub data SubagentError : Type 0 where
  interrupted max_llm_calls_exceeded : SubagentError
  llm_route_error : String → SubagentError

pub record SubagentResult : Type 0 where
  pub subagent_id : String
  pub status : SubagentStatus
  pub output : String
  pub llm_calls : Option ℕ
  pub approved : Option Bool
  pub issues : Option (List String)
  pub suggestions : Option (List String)
  pub error : Option SubagentError

-- `run` returns, or an exception of a tool leaves it.
pub data Ended : Type 0 where
  returned : SubagentResult → Ended
  raised : Ended

abbrev pub plain_result :
    {V : Type 0}
    → SubagentContext V
    → SubagentStatus
    → String
    → Option SubagentError
    → SubagentResult
plain_result c status output error = record {
  subagent_id = c.subagent_id;
  status = status;
  output = output;
  llm_calls = some c.llm_call_count;
  approved = none;
  issues = none;
  suggestions = none;
  error = error;
}

-- `completed`, unless the interruption has come.
abbrev pub status_of : Bool → SubagentStatus
status_of stopped = if stopped then failed else completed

abbrev pub error_of : Bool → Option SubagentError
error_of stopped = if stopped then some interrupted else none

-- What stands between the first fence after `rest` begins and the next one.
abbrev pub fenced : String → Option String
fenced rest = elim (cut_text "```" rest) [ none ↦ none | some (inner, after) ↦ some (strip inner) ]

unfoldable pub extract_json : String → Option String
extract_json text =
    let t = strip text in
    if has_prefix "{" t then some t else elim (cut_text "```json" t) [
      | some (before, rest) ↦ fenced rest
      | none ↦ elim (cut_text "```" t) [ none ↦ none | some (before, rest) ↦ fenced rest ]
    ]

-- `bool(…)`
abbrev pub truth : JsonValue → Bool
truth null = false
truth (boolean b) = b
truth (number b) = b
truth (fields b) = b
truth (json_text t) = not (is_empty t)
truth (array []) = false
truth (array (t ∷ ts)) = true

-- `raw or []`, where it is a list.
abbrev pub items_of : JsonValue → Option (List String)
items_of raw = if truth raw then elim raw [ array ts ↦ some ts | _ ↦ none ] else some []

-- What an object of a review says.
pub record Review : Type 0 where
  pub approved : Bool
  pub issues : Option (List String)
  pub suggestions : Option (List String)

unfoldable pub review_in : Json → Option Review
review_in other = none
review_in (object d) = some (record {
  approved = truth (get_or (lookup "approved" d) null);
  issues = items_of (get_or (lookup "issues" d) null);
  suggestions = items_of (get_or (lookup "suggestions" d) null);
})

abbrev pub clamp_calls : ℕ → ℕ
clamp_calls n = max 1 n

module _ {V : Type 0} where
  -- `spawn`, with the id and the system prompt that it builds; a number below 0 counts as 0.
  unfoldable pub spawn :
      String
      → String
      → SubagentRole
      → String
      → List String
      → String
      → String
      → ℕ
      → Option String
      → Option String
      → SubagentContext V
  spawn subagent_id parent role task files prompt privacy_mode max_llm_calls plan_id step_id =
      record {
        subagent_id = subagent_id;
        parent_session_id = parent;
        role = role;
        task_description = task;
        allowed_files = files;
        system_prompt = prompt;
        messages = [];
        privacy_mode = privacy_mode;
        max_llm_calls = clamp_calls max_llm_calls;
        llm_call_count = 0;
        interrupted = false;
        plan_id = plan_id;
        step_id = step_id;
      }

  abbrev pub say : Entry V → Run V → Run V
  say e r = record r { context = record r.context { messages = r.context.messages ++ e ∷ [] } }

  -- The interruption that may have come by the end of a call of the model.
  abbrev pub stopping : Bool → Run V → Run V
  stopping stop r = record r {
    context = record r.context { interrupted = r.context.interrupted || stop };
  }

  -- The content of the last message, where the assistant wrote it.
  abbrev pub last_content : List (Entry V) → String
  last_content [] = ""
  last_content (assistant text calls ∷ []) = text
  last_content (e ∷ []) = ""
  last_content (e ∷ f ∷ es) = last_content (f ∷ es)

  -- The messages of a run begin anew.
  abbrev pub begun : Run V → Run V
  begun r =
      let c = r.context in
      record r {
        context = record c { messages = system c.system_prompt ∷ user c.task_description ∷ [] };
      }

module _ {V : Type 0} (host : Host V) where
  unfoldable pub review_of : String → Option Review
  unfolding extract_json review_in
  review_of content = elim (extract_json content) [
    | none ↦ none
    | some t ↦ elim (host.parse t) [ none ↦ none | some j ↦ review_in j ]
  ]

  abbrev pub format_error : String
  format_error = "reviewer output format error"

  unfoldable pub parse_reviewer_result : SubagentContext V → String → SubagentResult
  unfolding review_of
  parse_reviewer_result c content =
      let plain = plain_result c (status_of c.interrupted) content (error_of c.interrupted) in
      elim (review_of content) [
        | none ↦ record plain { approved = some false; issues = some (format_error ∷ []) }
        | some v ↦ record plain {
          approved = some v.approved;
          issues = v.issues;
          suggestions = v.suggestions;
        }
      ]

  -- The loop over the tool calls of a reply; it says whether it ends.
  unfoldable pub execute_each : List ToolCall → Run V → Bool × Run V
  unfolding execute_tool_call
  execute_each [] r = (true, r)
  execute_each (t ∷ ts) r =
      let (done, r') = execute_tool_call host t r in
      elim done [ none ↦ (false, r') | some x ↦ execute_each ts (say (tool t.id x) r') ]

  -- A reply without tool calls.
  unfoldable pub conclude : String → Run V → Ended
  unfolding parse_reviewer_result
  conclude content r = elim r.context.role [
    | reviewer ↦ returned (parse_reviewer_result r.context content)
    | implementer ↦
        let stopped = r.context.interrupted in
        returned (plain_result r.context (status_of stopped) content (error_of stopped))
  ]

  abbrev pub Rounds : Type 0
  Rounds = Run V → Option (Ended × Run V)

  -- The reply is taken up. `go` is the loop.
  unfoldable pub take_up : Rounds → Routed → Run V → Option (Ended × Run V)
  unfolding execute_each conclude
  take_up go (route_error text) r =
      some (returned (plain_result r.context failed "" (some (llm_route_error text))), r)
  take_up go (replied content [] stop) r =
      let r'' = stopping stop (say (assistant content []) r) in some (conclude content r'', r'')
  take_up go (replied content (t ∷ ts) stop) r =
      let r'' = stopping stop (say (assistant content (t ∷ ts)) r) in
      let (ends, r3) = execute_each (t ∷ ts) r'' in if ends then go r3 else some (raised, r3)

  abbrev pub count_call : Run V → Run V
  count_call r = record r {
    context = record r.context { llm_call_count = suc r.context.llm_call_count };
  }

  -- `none` is out of fuel.
  unfoldable pub run_loop : ℕ → Rounds
  unfolding take_up
  run_loop zero r = none
  run_loop (suc fuel) r =
      let c = r.context in
      if ltb c.llm_call_count c.max_llm_calls
      then (if c.interrupted
          then some (returned (plain_result c failed "" (some interrupted)), r)
          else take_up (run_loop fuel) (host.route c.messages c.llm_call_count) (count_call r))
      else some (
        returned (plain_result c timeout (last_content c.messages) (some max_llm_calls_exceeded)),
        r,
      )

  -- `run` with a router. Every round but the last makes a call.
  unfoldable pub run : Run V → Option (Ended × Run V)
  unfolding run_loop
  run r = run_loop (suc (r.context.max_llm_calls - r.context.llm_call_count)) (begun r)
