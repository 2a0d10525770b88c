-- ===== src/Subagent/Budget.antt =====
-- How a run ends: within its budget of calls of the language model, and what it gives when that is used up.
use offline_companion_core.Base.{
  ℕ, zero, suc, ◌-◌, ◌≤◌, ◌<◌, max, String, ◌≡◌, refl, sym, ap, subst, ◌∙◌, ◌≢◌, inl, inr, Bool,
  true, false, not, ◌&&◌, Option, none, some, List, [], ◌∷◌, ◌++◌, arith, ltb, Option-cases,
  split_if, get_or, ◌==◌, nat_eq, string_eq, pair_eq, contains,
}
use offline_companion_core.Subagent.Tools.{
  SubagentRole, implementer, reviewer, Arguments, ToolCall, ToolResult, Entry, assistant, tool,
  SubagentContext, Run, Routed, route_error, replied, Host, role_tools, is_file_tool, path_of,
  validate_file_access, invoke, execute_tool_call,
}
use offline_companion_core.Subagent.Loop.{
  SubagentStatus, timeout, Ended, returned, raised, plain_result, status_of, error_of, last_content,
  say, stopping, begun, review_of, parse_reviewer_result, execute_each, conclude, Rounds, take_up,
  count_call, run_loop, run,
}

module _ {V : Type 0} (host : Host V) where
  -- A tool call leaves the context alone.
  invoke_context :
      (name : String) (a : Arguments) (r : Run V) → (invoke host name a r).1.context ≡ r.context
  unfolding invoke
  invoke_context name a r =
      let c = r.context in
      split_if Same (not (contains (role_tools c.role) name)) (λ q. refl)
        (λ q.
          split_if Same
            (is_file_tool name && not (validate_file_access host (path_of a) c.allowed_files))
            (λ s. refl)
            (λ s.
              split_if Same (name == "execute_command" && r.has_gateway)
                (λ u. split_if Same (host.consents a r.asked) (λ k. refl) (λ k. refl)) (λ u. refl)))
    where
      Same : Option (ToolResult V) × Run V → Type 0
      Same (x, s) = s.context ≡ r.context

  execute_tool_call_context :
      (t : ToolCall) (r : Run V) → (execute_tool_call host t r).1.context ≡ r.context
  unfolding execute_tool_call
  execute_tool_call_context t r =
      split_if Same (not r.has_registry) (λ q. refl)
        (λ q.
          split_if Same r.context.interrupted (λ s. refl)
            (λ s. invoke_context t.name (get_or t.arguments []) r))
    where
      Same : Option (ToolResult V) × Run V → Type 0
      Same (x, s) = s.context ≡ r.context

  last_content-tool :
      (es : List (Entry V)) (v : String) (x : ToolResult V)
      → last_content (es ++ tool v x ∷ []) ≡ ""
  last_content-tool [] v x = refl
  last_content-tool (e ∷ []) v x = refl
  last_content-tool (e ∷ f ∷ es) v x = last_content-tool (f ∷ es) v x

  -- The two numbers of the budget are the same, and, where the tool calls end, no assistant has
  -- spoken last.
  record Kept (r : Run V) (x : Bool × Run V) : Type 0 where
    count : x.1.context.llm_call_count ≡ r.context.llm_call_count
    limit : x.1.context.max_llm_calls ≡ r.context.max_llm_calls
    silent : x.0 ≡ true → last_content x.1.context.messages ≡ ""

  execute_each-Kept :
      (t : ToolCall) (ts : List ToolCall) (r : Run V)
      → ((s : Run V) → last_content s.context.messages ≡ "" → Kept s (execute_each host ts s))
      → Kept r (execute_each host (t ∷ ts) r)
  unfolding execute_each
  execute_each-Kept t ts r rest =
      let ran = (execute_tool_call host t r).1 in
      let same = execute_tool_call_context t r in
      elim (Option-cases (execute_tool_call host t r).0) [
        | inl q ↦
            rw (execute_each, q)
              (record {
                count = ap (λ c. c.llm_call_count) same;
                limit = ap (λ c. c.max_llm_calls) same;
                silent = λ u. absurd (ground arith);
              })
        | inr (x, q) ↦
            let k = rest (say (tool t.id x) ran) (last_content-tool ran.context.messages t.id x) in
            rw (execute_each, q)
              (record {
                count = k.count ∙ ap (λ c. c.llm_call_count) same;
                limit = k.limit ∙ ap (λ c. c.max_llm_calls) same;
                silent = k.silent;
              })
      ]

  execute_each-Kept_from :
      (ts : List ToolCall) (r : Run V)
      → last_content r.context.messages ≡ ""
      → Kept r (execute_each host ts r)
  unfolding execute_each
  execute_each-Kept_from [] r h = record { count = refl; limit = refl; silent = λ q. h }
  execute_each-Kept_from (t ∷ ts) r h = execute_each-Kept t ts r (execute_each-Kept_from ts)

  abbrev pub Silent : Ended → Type 0
  Silent raised = Unit {0}
  Silent (returned x) = x.status ≡ timeout → x.output ≡ ""

  abbrev Within : ℕ → Option (Ended × Run V) → Type 0
  Within n none = ⊥
  Within n (some (e, r)) = (r.context.llm_call_count ≤ n) × Silent e

  record Ready (n fuel : ℕ) (r : Run V) : Type 0 where
    count : r.context.llm_call_count ≤ n
    limit : r.context.max_llm_calls ≤ n
    silent : last_content r.context.messages ≡ ""
    enough : r.context.max_llm_calls - r.context.llm_call_count < fuel

  status_of_silent : (b : Bool) → status_of b ≢ timeout
  status_of_silent true h = absurd (ground arith)
  status_of_silent false h = absurd (ground arith)

  parse_reviewer_result_status :
      (c : SubagentContext V) (content : String)
      → (parse_reviewer_result host c content).status ≡ status_of c.interrupted
  unfolding parse_reviewer_result
  parse_reviewer_result_status c content = elim (Option-cases (review_of host content)) [
    | inl q ↦ rw (parse_reviewer_result, q) refl
    | inr (v, q) ↦ rw (parse_reviewer_result, q) refl
  ]

  conclude-Silent : (content : String) (r : Run V) → Silent (conclude host content r)
  unfolding conclude
  conclude-Silent content r = by_role r.context.role refl
    where
      never :
          {s : SubagentStatus} {t : String}
          → s ≡ status_of r.context.interrupted
          → s ≡ timeout
          → t ≡ ""
      never e h = absurd (status_of_silent r.context.interrupted (sym e ∙ h))

      by_role :
          (role : SubagentRole)
          → role ≡ r.context.role
          → Silent (elim role [
            | reviewer ↦ returned (parse_reviewer_result host r.context content)
            | implementer ↦
                let stopped = r.context.interrupted in
                returned (plain_result r.context (status_of stopped) content (error_of stopped))
          ])
      by_role reviewer e = never (parse_reviewer_result_status r.context content)
      by_role implementer e = never refl

  take_up-Within :
      (n fuel : ℕ) (go : Rounds host) (x : Routed) (r : Run V)
      → ((s : Run V) → Ready n fuel s → Within n (go s))
      → r.context.llm_call_count ≤ n
      → r.context.max_llm_calls ≤ n
      → r.context.max_llm_calls - r.context.llm_call_count < fuel
      → Within n (take_up host go x r)
  unfolding take_up
  take_up-Within n fuel go (route_error text) r k c m f = (c, λ h. absurd (ground arith))
  take_up-Within n fuel go (replied content [] stop) r k c m f =
      (c, conclude-Silent content (stopping stop (say (assistant content []) r)))
  take_up-Within n fuel go (replied content (t ∷ ts) stop) r k c m f =
      let r'' = stopping stop (say (assistant content (t ∷ ts)) r) in
      let ran = execute_each host (t ∷ ts) r'' in
      let kept = execute_each-Kept t ts r'' (execute_each-Kept_from ts) in
      split_if (Within n) ran.0
        (λ q. k ran.1 (record {
          count = omega (arith, kept.count);
          limit = omega (arith, kept.limit);
          silent = kept.silent q;
          enough = omega (arith, kept.count, kept.limit);
        }))
        (λ q. (omega (arith, kept.count), tt))

  run_loop-Within : (n fuel : ℕ) (r : Run V) → Ready n fuel r → Within n (run_loop host fuel r)
  unfolding run_loop
  run_loop-Within n zero r h = absurd (omega (arith, h.enough))
  run_loop-Within n (suc fuel) r h =
      let c = r.context in
      split_if (Within n) (ltb c.llm_call_count c.max_llm_calls)
        (λ q.
          let less : c.llm_call_count < c.max_llm_calls = ground arith in
          split_if (Within n) c.interrupted (λ s. (h.count, λ k. absurd (ground arith)))
            (λ s.
              take_up-Within n fuel (run_loop host fuel) (host.route c.messages c.llm_call_count)
                (count_call host r) (run_loop-Within n fuel) (omega (arith, h.limit)) h.limit
                (omega (arith, h.enough))))
        (λ q. (h.count, λ k. h.silent))

  -- A run ends, whatever the language model and the tools do. It has then called the model at most as
  -- often as it may, counting the calls before it; and a run that ends for that limit has no output.
  pub run_bounded :
      (r : Run V)
      → (e : Ended) × (s : Run V) × (run host r ≡ some (e, s))
        × (s.context.llm_call_count ≤ max r.context.llm_call_count r.context.max_llm_calls)
        × Silent e
  unfolding run
  run_bounded r =
      let c = r.context in
      let n = max c.llm_call_count c.max_llm_calls in
      let ends = run_loop-Within n (suc (c.max_llm_calls - c.llm_call_count)) (begun r) (record {
        count = omega arith;
        limit = omega arith;
        silent = refl;
        enough = omega arith;
      }) in
      elim (Option-cases (run host r)) [
        | inl q ↦ absurd (subst (Within n) q ends)
        | inr ((e, s), q) ↦ let w = subst (Within n) q ends in (e, s, q, w.0, w.1)
      ]
