-- ===== src/Subagent/Guarded.antt =====
-- What a subagent's calls of tools may reach.
use offline_companion_core.Base.{
  ℕ, zero, suc, ◌-◌, ◌≤◌, ◌<◌, String, ◌≡◌, refl, sym, subst, inl, inr, Bool, true, false, not,
  ◌&&◌, Option, none, some, List, [], ◌∷◌, ◌++◌, arith, ltb, Bool-cases, Option-cases, split_if,
  get_or, ◌==◌, nat_eq, string_eq, pair_eq, contains,
}
use offline_companion_core.Subagent.Tools.{
  SubagentRole, Arguments, ToolCall, ToolResult, Entry, assistant, tool, Run, Routed, route_error,
  replied, Host, role_tools, is_file_tool, path_of, validate_file_access, call_base, invoke,
  execute_tool_call,
}
use offline_companion_core.Subagent.Loop.{
  Ended, say, stopping, begun, execute_each, Rounds, take_up, count_call, run_loop, run,
}

module _ {V : Type 0} (host : Host V) (role : SubagentRole) (files : List String) (gateway : Bool)
    (from : ℕ) where
  -- The tool is one of the role's; a file tool is on an allowed file; and where there is a gateway, a
  -- command has been consented to by an answer of its own, one of those from number `lo` up to `hi`.
  pub record Permitted (lo hi : ℕ) (name : String) (a : Arguments) : Type 0 where
    pub listed : contains (role_tools role) name ≡ true
    pub file : is_file_tool name ≡ true → validate_file_access host (path_of a) files ≡ true
    pub command :
        (name == "execute_command" && gateway) ≡ true
        → (n : ℕ) × (lo ≤ n) × (n < hi) × (host.consents a n ≡ true)

  -- The calls in their order, each with answers after those of the calls before it.
  abbrev pub AllPermitted : ℕ → ℕ → List (String × Arguments) → Type 0
  AllPermitted lo hi [] = lo ≤ hi
  AllPermitted lo hi ((name, a) ∷ calls) =
      (mid : ℕ) × (lo ≤ mid) × Permitted lo mid name a × AllPermitted mid hi calls

  pub record Guarded (r : Run V) : Type 0 where
    pub same_role : r.context.role ≡ role
    pub same_files : r.context.allowed_files ≡ files
    pub same_gateway : r.has_gateway ≡ gateway
    pub permitted : AllPermitted from r.asked r.calls

  Permitted-widen :
      (lo mid hi : ℕ) (name : String) (a : Arguments)
      → lo ≤ mid
      → Permitted mid hi name a
      → Permitted lo hi name a
  Permitted-widen lo mid hi name a h p = record {
    listed = p.listed;
    file = p.file;
    command = λ q. let (n, above, below, said) = p.command q in (n, omega arith, below, said);
  }

  AllPermitted-snoc :
      (lo mid hi : ℕ) (calls : List (String × Arguments)) (name : String) (a : Arguments)
      → AllPermitted lo mid calls
      → mid ≤ hi
      → Permitted mid hi name a
      → AllPermitted lo hi (calls ++ (name, a) ∷ [])
  AllPermitted-snoc lo mid hi [] name a h g p =
      (hi, omega arith, Permitted-widen lo mid hi name a h p, omega arith)
  AllPermitted-snoc lo mid hi ((n, b) ∷ calls) name a (m, above, q, h) g p =
      (m, above, q, AllPermitted-snoc m mid hi calls name a h g p)

  AllPermitted-later :
      (lo hi : ℕ) (calls : List (String × Arguments))
      → AllPermitted lo hi calls
      → AllPermitted lo (suc hi) calls
  AllPermitted-later lo hi [] h = omega arith
  AllPermitted-later lo hi ((n, b) ∷ calls) (m, above, q, h) =
      (m, above, q, AllPermitted-later m hi calls h)

  call_base-Guarded :
      (name : String) (a : Arguments) (n : ℕ) (r : Run V)
      → Guarded r
      → r.asked ≤ n
      → Permitted r.asked n name a
      → Guarded (call_base host name a (record r { asked = n })).1
  call_base-Guarded name a n r g h p = record {
    same_role = g.same_role;
    same_files = g.same_files;
    same_gateway = g.same_gateway;
    permitted = AllPermitted-snoc from r.asked n r.calls name a g.permitted h p;
  }

  asked-Guarded : (r : Run V) → Guarded r → Guarded (record r { asked = suc r.asked })
  asked-Guarded r g = record {
    same_role = g.same_role;
    same_files = g.same_files;
    same_gateway = g.same_gateway;
    permitted = AllPermitted-later from r.asked r.calls g.permitted;
  }

  invoke-Guarded :
      (name : String) (a : Arguments) (r : Run V) → Guarded r → Guarded (invoke host name a r).1
  unfolding invoke
  invoke-Guarded name a r g = elim (Bool-cases (contains (role_tools r.context.role) name)) [
    | inr q ↦ rw (invoke, q) g
    | inl q ↦
        let allowed = validate_file_access host (path_of a) r.context.allowed_files in
        elim (Bool-cases (is_file_tool name && not allowed)) [
          | inl s ↦ rw (invoke, q, s) g
          | inr s ↦ elim (Bool-cases (name == "execute_command" && r.has_gateway)) [
            | inr u ↦
                rw (invoke, q, s, u)
                  (call_base-Guarded name a r.asked r g (omega arith)
                    (permit r.asked q s (λ h. absurd (ground (arith, g.same_gateway)))))
            | inl u ↦ elim (Bool-cases (host.consents a r.asked)) [
              | inr k ↦ rw (invoke, q, s, u, k) (asked-Guarded r g)
              | inl k ↦
                  rw (invoke, q, s, u, k)
                    (call_base-Guarded name a (suc r.asked) r g (omega arith)
                      (permit (suc r.asked) q s (λ h. (r.asked, omega arith, omega arith, k))))
            ]
          ]
        ]
  ]
    where
      permit :
          (hi : ℕ)
          → contains (role_tools r.context.role) name ≡ true
          → (is_file_tool name
              && not (validate_file_access host (path_of a) r.context.allowed_files))
            ≡ false
          → ((name == "execute_command" && gateway) ≡ true
              → (n : ℕ) × (r.asked ≤ n) × (n < hi) × (host.consents a n ≡ true))
          → Permitted r.asked hi name a
      permit hi q s c = record {
        listed = subst (λ x. contains (role_tools x) name ≡ true) g.same_role q;
        file = λ h.
            subst (λ x. validate_file_access host (path_of a) x ≡ true) g.same_files (ground arith);
        command = c;
      }

  abbrev Left : Option (ToolResult V) × Run V → Type 0
  Left (x, r) = Guarded r

  execute_tool_call-Guarded :
      (t : ToolCall) (r : Run V) → Guarded r → Guarded (execute_tool_call host t r).1
  unfolding execute_tool_call
  execute_tool_call-Guarded t r g =
      split_if Left (not r.has_registry) (λ q. g)
        (λ q.
          split_if Left r.context.interrupted (λ s. g)
            (λ s. invoke-Guarded t.name (get_or t.arguments []) r g))

  say-Guarded : (e : Entry V) (r : Run V) → Guarded r → Guarded (say e r)
  say-Guarded e r g = record {
    same_role = g.same_role;
    same_files = g.same_files;
    same_gateway = g.same_gateway;
    permitted = g.permitted;
  }

  execute_each-Guarded :
      (ts : List ToolCall) (r : Run V) → Guarded r → Guarded (execute_each host ts r).1
  unfolding execute_each
  execute_each-Guarded [] r g = g
  execute_each-Guarded (t ∷ ts) r g =
      let h = execute_tool_call-Guarded t r g in
      elim (Option-cases (execute_tool_call host t r).0) [
        | inl q ↦ rw (execute_each, q) h
        | inr (x, q) ↦
            rw (execute_each, q)
              (execute_each-Guarded ts (say (tool t.id x) (execute_tool_call host t r).1)
                (say-Guarded (tool t.id x) (execute_tool_call host t r).1 h))
      ]

  abbrev End : Option (Ended × Run V) → Type 0
  End none = Unit {0}
  End (some (e, r)) = Guarded r

  stopping-Guarded : (stop : Bool) (r : Run V) → Guarded r → Guarded (stopping stop r)
  stopping-Guarded stop r g = record {
    same_role = g.same_role;
    same_files = g.same_files;
    same_gateway = g.same_gateway;
    permitted = g.permitted;
  }

  take_up-Guarded :
      (go : Rounds host) (x : Routed) (r : Run V)
      → ((s : Run V) → Guarded s → End (go s))
      → Guarded r
      → End (take_up host go x r)
  unfolding take_up
  take_up-Guarded go (route_error text) r k g = g
  take_up-Guarded go (replied content [] stop) r k g =
      stopping-Guarded stop (say (assistant content []) r) (say-Guarded (assistant content []) r g)
  take_up-Guarded go (replied content (t ∷ ts) stop) r k g =
      let r' = say (assistant content (t ∷ ts)) r in
      let g' = stopping-Guarded stop r' (say-Guarded (assistant content (t ∷ ts)) r g) in
      let h = execute_each-Guarded (t ∷ ts) (stopping stop r') g' in
      let ran = execute_each host (t ∷ ts) (stopping stop r') in
      split_if End ran.0 (λ q. k ran.1 h) (λ q. h)

  count_call-Guarded : (r : Run V) → Guarded r → Guarded (count_call host r)
  count_call-Guarded r g = record {
    same_role = g.same_role;
    same_files = g.same_files;
    same_gateway = g.same_gateway;
    permitted = g.permitted;
  }

  run_loop-Guarded : (fuel : ℕ) (r : Run V) → Guarded r → End (run_loop host fuel r)
  unfolding run_loop
  run_loop-Guarded zero r g = tt
  run_loop-Guarded (suc fuel) r g =
      let c = r.context in
      split_if End (ltb c.llm_call_count c.max_llm_calls)
        (λ q.
          split_if End c.interrupted (λ s. g)
            (λ s.
              take_up-Guarded (run_loop host fuel) (host.route c.messages c.llm_call_count)
                (count_call host r) (run_loop-Guarded fuel) (count_call-Guarded r g)))
        (λ q. g)

module _ {V : Type 0} (host : Host V) where
  -- Every call of a tool that reaches the base registry in a run is permitted: the tool is one of the
  -- role's, so that a reviewer only reads; a file that is read or written is an allowed one; and where
  -- there is a gateway, each command has been consented to by an answer of its own, asked for in this
  -- run after those of the calls before it.
  pub run-Guarded :
      (r s : Run V) (e : Ended)
      → r.calls ≡ []
      → run host r ≡ some (e, s)
      → let c = r.context in
        AllPermitted host c.role c.allowed_files r.has_gateway r.asked r.asked s.asked s.calls
  unfolding run
  run-Guarded r s e none_yet h =
      let c = r.context in
      let start : Guarded host c.role c.allowed_files r.has_gateway r.asked (begun r) = record {
        same_role = refl;
        same_files = refl;
        same_gateway = refl;
        permitted =
            subst (AllPermitted host c.role c.allowed_files r.has_gateway r.asked r.asked r.asked)
              (sym none_yet) (omega arith);
      } in
      let ends =
        run_loop-Guarded host c.role c.allowed_files r.has_gateway r.asked
          (suc (c.max_llm_calls - c.llm_call_count)) (begun r) start in
      (subst (End host c.role c.allowed_files r.has_gateway r.asked) h ends).permitted
