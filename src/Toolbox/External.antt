-- ===== src/Toolbox/External.antt =====
-- The permission of an external tool, whatever was registered, loaded and enabled.
use offline_companion_core.Base.{
  String, ◌≡◌, refl, sym, subst, ◌∙◌, ◌≢◌, ◌⊎◌, inl, inr, Bool, true, false, not, ◌&&◌, ◌||◌,
  Option, none, some, List, [], ◌∷◌, arith, if◌then◌else◌, split_if, ◌==◌, nat_eq, string_eq,
  pair_eq, Result, ok, err, ◌>>=◌, ◌>>◌, guard,
}
use offline_companion_core.Base.Text.{is_empty, strip}
use offline_companion_core.Base.Dict.{Dict, lookup, insert, lookup-insert}
use offline_companion_core.Outbound.Policy.{PrivacyMode}
use offline_companion_core.Toolbox.Registry.{
  external, Permission, allow, ask, deny, ToolManifest, ExternalItem, RegistryError, not_builtin,
  builtin_denied, unknown_tool, no_id_or_endpoint, not_external, ToolRegistry, is_external, is_deny,
  set_add, is_local_only, network_scope, external_manifest, register_builtin, load_external,
  set_external_enabled, resolve_permission,
}
use offline_companion_core.Toolbox.Invoker.{ToolInvoker, Tools, execute_tool}
use offline_companion_core.Toolbox.Permissions.{Consented, execute_tool_guarded}

abbrev Asks : ToolManifest → Type 0
Asks m = is_external m.tool_type ≡ true → m.permission ≢ allow

abbrev Asking : Dict String ToolManifest → Type 0
Asking d = (v : String) (m : ToolManifest) → lookup v d ≡ some m → Asks m

Asking-insert :
    (d : Dict String ToolManifest) (v : String) (m : ToolManifest)
    → Asking d
    → Asks m
    → Asking (insert v m d)
Asking-insert d v m h a w n q =
    split_if (λ o. o ≡ some n → Asks n) (v == w)
      (λ _ e. let same : m ≡ n = ground arith in subst Asks same a) (λ _ e. h w n e)
      (sym (lookup-insert v w m d) ∙ q)

-- What a manifest that is read from the file has.
abbrev Fair : Result RegistryError ToolManifest → Type 0
Fair (ok m) = Asks m
Fair (err e) = Unit {0}

external_manifest-Fair : (i : ExternalItem) → Fair (external_manifest i)
unfolding external_manifest
external_manifest-Fair i =
    split_if Read (i.permission == "allow") (λ _. tt)
      (λ _.
        split_if Read (i.permission == "ask")
          (λ _. checked ask (λ e. absurd (ground arith)) present)
          (λ _.
            split_if Read (i.permission == "deny")
              (λ _. checked deny (λ e. absurd (ground arith)) present) (λ _. tt)))
  where
    present : Bool
    present = not (is_empty (strip i.tool_id) || is_empty (strip i.endpoint))

    manifest : Permission → ToolManifest
    manifest p = record {
      tool_id = strip i.tool_id;
      tool_type = external;
      permission = p;
      scope = i.scope;
      enabled = i.enabled;
      endpoint = some (strip i.endpoint);
    }

    Read : Result RegistryError Permission → Type 0
    Read r = Fair (r >>= λ p. guard present no_id_or_endpoint >> ok (manifest p))

    checked :
        (p : Permission)
        → p ≢ allow
        → (b : Bool) → Fair (guard b no_id_or_endpoint >> ok (manifest p))
    checked p h true = λ e. h
    checked p h false = tt

module _ {H : Type 0} where
  -- The registry after a call, which an exception leaves as it was.
  abbrev pub kept : ToolRegistry H → Result RegistryError (ToolRegistry H) → ToolRegistry H
  kept r (ok s) = s
  kept r (err e) = r

  pub data Step (r : ToolRegistry H) : ToolRegistry H → Type 0 where
    registers :
        (m : ToolManifest) (handler : H) (inject : Bool)
        → Step r (kept r (register_builtin m handler inject r))
    loads : (items : List ExternalItem) → Step r (load_external items r).1
    enables : (v : String) (enabled : Bool) → Step r (kept r (set_external_enabled v enabled r))

  pub data Reach (r : ToolRegistry H) : ToolRegistry H → Type 0 where
    here : Reach r r
    next : {s t : ToolRegistry H} → Reach r s → Step s t → Reach r t

  register_builtin-Asking :
      (m : ToolManifest) (handler : H) (inject : Bool) (r : ToolRegistry H)
      → Asking r.tools
      → Asking (kept r (register_builtin m handler inject r)).tools
  unfolding register_builtin
  register_builtin-Asking m handler inject r h =
      by_type (is_external m.tool_type) refl (not (is_deny m.permission))
    where
      by_type :
          (b : Bool)
          → is_external m.tool_type ≡ b
          → (c : Bool)
          → Asking
              (kept r (
                guard (not b) not_builtin
                >> (guard c builtin_denied
                    >> ok (record r {
                      tools = insert m.tool_id m r.tools;
                      builtin_handlers = insert m.tool_id handler r.builtin_handlers;
                      session_context_tools =
                          if inject
                          then set_add m.tool_id r.session_context_tools
                          else r.session_context_tools;
                    })))).tools
      by_type true q c = h
      by_type false q false = h
      by_type false q true = Asking-insert r.tools m.tool_id m h (λ e. absurd (ground arith))

  load_external-Asking :
      (items : List ExternalItem) (r : ToolRegistry H)
      → Asking r.tools
      → Asking (load_external items r).1.tools
  unfolding load_external
  load_external-Asking [] r h = h
  load_external-Asking (i ∷ is) r h =
      item (external_manifest i) (external_manifest-Fair i) (load_external-Asking is)
    where
      Loaded : Result RegistryError (Unit {0}) × ToolRegistry H → Type 0
      Loaded (x, s) = Asking s.tools

      item :
          (o : Result RegistryError ToolManifest)
          → Fair o
          → ((s : ToolRegistry H) → Asking s.tools → Asking (load_external is s).1.tools)
          → Loaded (elim o [
            | err e ↦ (err e, r)
            | ok m ↦ load_external is (record r { tools = insert m.tool_id m r.tools })
          ])
      item (err e) f rest = h
      item (ok m) f rest =
          rest (record r { tools = insert m.tool_id m r.tools })
            (Asking-insert r.tools m.tool_id m h f)

  set_external_enabled-Asking :
      (v : String) (enabled : Bool) (r : ToolRegistry H)
      → Asking r.tools
      → Asking (kept r (set_external_enabled v enabled r)).tools
  unfolding set_external_enabled
  set_external_enabled-Asking v enabled r h = found (lookup v r.tools) refl
    where
      found :
          (o : Option ToolManifest)
          → lookup v r.tools ≡ o
          → Asking
              (kept r (elim o [
                | none ↦ err (unknown_tool v)
                | some m ↦
                    if is_external m.tool_type
                    then ok (record r { tools = insert v (record m { enabled = enabled }) r.tools })
                    else err not_external
              ])).tools
      found none q = h
      found (some m) q =
          split_if (λ o. Asking (kept r o).tools) (is_external m.tool_type)
            (λ _. Asking-insert r.tools v (record m { enabled = enabled }) h (h v m q)) (λ _. h)

  Reach-Asking : {r s : ToolRegistry H} → Reach r s → Asking r.tools → Asking s.tools
  Reach-Asking here h = h
  Reach-Asking {r = r} (next {s = s} path step) h = stepped step (Reach-Asking path h)
    where
      stepped : {s t : ToolRegistry H} → Step s t → Asking s.tools → Asking t.tools
      stepped {s = s} (registers m handler inject) a = register_builtin-Asking m handler inject s a
      stepped {s = s} (loads items) a = load_external-Asking items s a
      stepped {s = s} (enables v enabled) a = set_external_enabled-Asking v enabled s a

abbrev pub empty_registry : {H : Type 0} → ToolRegistry H
empty_registry = record { tools = []; builtin_handlers = []; session_context_tools = [] }

module _ {H P R T : Type 0} (env : Tools H P R T) where
  -- However the registry was built from the empty one, `execute` calls an external tool only where the
  -- consent gateway has said yes to this very request.
  pub execute_external-Consented :
      (tool : String) (params : P) (session_id : String) (mode : PrivacyMode) (v : String) (now : T)
      (i : ToolInvoker H P T) (m : ToolManifest)
      → Reach empty_registry i.registry
      → lookup tool i.registry.tools ≡ some m
      → is_external m.tool_type ≡ true
      → let j = (execute_tool env tool params session_id mode v now i).1 in
        (j.calls ≡ i.calls) ⊎ Consented env m session_id v now i
  unfolding resolve_permission
  execute_external-Consented tool params session_id mode v now i m path q x =
      elim (execute_tool_guarded env tool params session_id mode v now i) [
        | inl same ↦ inl same
        | inr (n, e, made, inr (asks, c)) ↦
            let same : n ≡ m = ground arith in
            inr (subst (λ k. Consented env k session_id v now i) same c)
        | inr (n, e, made, inl allows) ↦ absurd (refused n e allows)
      ]
    where
      refused :
          (n : ToolManifest)
          → lookup tool i.registry.tools ≡ some n
          → resolve_permission n mode ≡ allow
          → ⊥
      refused n e allows =
          let same : m ≡ n = ground arith in
          Reach-Asking path (λ w k r. absurd (ground arith)) tool n e
            (subst (λ k. is_external k.tool_type ≡ true) same x)
            (by_mode (is_local_only mode && network_scope n.scope)
              (is_external n.tool_type && not n.enabled) allows)
        where
          by_mode :
              (b c : Bool)
              → (if b then deny else (if c then deny else n.permission)) ≡ allow
              → n.permission ≡ allow
          by_mode true c h = absurd (ground arith)
          by_mode false true h = absurd (ground arith)
          by_mode false false h = h
