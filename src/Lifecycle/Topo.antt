-- ===== src/Lifecycle/Topo.antt =====
-- `topological_sort`, core/lifecycle/topo.py, over the entries of core/lifecycle/config.py. `C` stands for
-- the configurations of plugins.
use offline_companion_core.Base.{
  ℕ, zero, suc, ◌+◌, ◌-◌, ◌*◌, ◌≤◌, ◌<◌, max, min, String, ◌≡◌, refl, sym, ap, subst, ◌∙◌, ◌≢◌, ◌↔◌,
  ◌⊎◌, inl, inr, Bool, true, false, not, ◌&&◌, ◌||◌, Option, none, some, List, [], ◌∷◌, ◌++◌, map,
  arith, ltb, leb, nat_beq, if◌then◌else◌, nat_beq_iff, leb→le, Bool-cases, Option-cases, is_some,
  get_or, length, get_elem?, drop, select, all, any, length-append, get_elem?-append_self,
  get_elem?-append_left, length-select-le, Eq, ◌==◌, nat_eq, string_eq, pair_eq, contains, beq_self,
  Result, ok, err, ◌>>=◌, ◌>>◌, guard, Result-cases,
}
use offline_companion_core.Base.Text.{
  is_empty, is_space, lstrip, rstrip, strip, or_else, split_where, words, cut_at, all_digits,
  digits_value,
}
use offline_companion_core.Base.Dict.{
  Dict, Unique, keys, values, lookup, insert, erase, member, lookup-insert, lookup-erase,
  lookup-insert_self, lookup-erase_self, lookup-insert_ne, lookup-erase_ne,
}
pub mod Counts
pub mod Links
pub mod Invariant
pub mod Rounds
pub mod Start
pub mod Sorted

pub record PluginConfigEntry (C : Type 0) : Type 0 where
  pub id : String
  pub plugin_module : String
  pub enabled : Bool
  pub requires : List String
  pub optional_requires : List String
  pub config : C
  pub version : String

pub data SortError : Type 0 where
  missing_dependency : String → String → SortError
  circular_dependency : List String → SortError

pub record Graph : Type 0 where
  pub in_degree : Dict String ℕ
  pub edges : Dict String (List String)

-- Every id that is looked up is a key of the two dicts.
abbrev pub degree : Dict String ℕ → String → ℕ
degree d v = get_or (lookup v d) 0

abbrev pub dependents : Dict String (List String) → String → List String
dependents edges v = get_or (lookup v edges) []

module _ {C : Type 0} where
  abbrev pub is_enabled : PluginConfigEntry C → Bool
  is_enabled p = p.enabled

  abbrev pub ids : List (PluginConfigEntry C) → List String
  ids [] = []
  ids (p ∷ ps) = p.id ∷ ids ps

  -- The dict of the entries by id, added to `m`.
  unfoldable pub id_map :
      List (PluginConfigEntry C)
      → Dict String (PluginConfigEntry C)
      → Dict String (PluginConfigEntry C)
  id_map [] m = m
  id_map (p ∷ ps) m = id_map ps (insert p.id p m)

  unfoldable pub empty_graph : List (PluginConfigEntry C) → Graph → Graph
  empty_graph [] g = g
  empty_graph (p ∷ ps) g =
      empty_graph ps
        (record { in_degree = insert p.id 0 g.in_degree; edges = insert p.id [] g.edges })

  -- The loop over `plugin.requires`.
  unfoldable pub link :
      Dict String (PluginConfigEntry C) → String → List String → Graph → Result SortError Graph
  link m p [] g = ok g
  link m p (r ∷ rs) g =
      let rest = link m p rs (record {
        edges = insert r (dependents g.edges r ++ p ∷ []) g.edges;
        in_degree = insert p (degree g.in_degree p + 1) g.in_degree;
      }) in
      if member r m then rest else err (missing_dependency p r)

  unfoldable pub link_all :
      Dict String (PluginConfigEntry C)
      → List (PluginConfigEntry C)
      → Graph
      → Result SortError Graph
  unfolding link
  link_all m [] g = ok g
  link_all m (p ∷ ps) g = elim (link m p.id p.requires g) [
    | err e ↦ err e
    | ok g' ↦ link_all m ps g'
  ]

-- The loop over the dependents of a plugin that has been put out. A degree is 1 before it is 0 after;
-- no degree is 0 before.
unfoldable pub release : List String → Dict String ℕ → List String → Dict String ℕ × List String
release [] d queue = (d, queue)
release (v ∷ vs) d queue =
    release vs (insert v (degree d v - 1) d)
      (if nat_beq (degree d v) 1 then queue ++ v ∷ [] else queue)

-- `if in_degree[v] == 0`, over the ids.
abbrev pub roots : Dict String ℕ → List String → List String
roots d vs = select (λ v. nat_beq (degree d v) 0) vs

-- `[plugin_id for plugin_id, degree in in_degree.items() if degree]`
abbrev pub remaining : Dict String ℕ → List String
remaining [] = []
remaining ((v, n) ∷ d) = let rest = remaining d in if nat_beq n 0 then rest else v ∷ rest

module _ {C : Type 0} where
  -- The loop `while queue`, with what it puts out from here on. `none` is out of fuel or a missing
  -- key of `id_map`.
  unfoldable pub drain :
      ℕ
      → Dict String (PluginConfigEntry C)
      → Dict String (List String)
      → Dict String ℕ
      → List String
      → Option (List (PluginConfigEntry C) × Dict String ℕ)
  unfolding release
  drain zero m edges d queue = none
  drain (suc fuel) m edges d [] = some ([], d)
  drain (suc fuel) m edges d (u ∷ queue) =
      let (d', queue') = release (dependents edges u) d queue in
      elim (lookup u m) [
        | none ↦ none
        | some p ↦ elim (drain fuel m edges d' queue') [
          | none ↦ none
          | some (result, left) ↦ some (p ∷ result, left)
        ]
      ]

  -- Every round puts one entry out.
  unfoldable pub sort_enabled :
      List (PluginConfigEntry C) → Option (Result SortError (List (PluginConfigEntry C)))
  unfolding id_map empty_graph link_all drain
  sort_enabled entries =
      let m = id_map entries [] in
      elim (link_all m entries (empty_graph entries (record { in_degree = []; edges = [] }))) [
        | err e ↦ some (err e)
        | ok g ↦
            elim (drain (suc (length entries)) m g.edges g.in_degree
              (roots g.in_degree (ids entries))) [
                | none ↦ none
                | some (result, left) ↦
                    if nat_beq (length result) (length entries)
                    then some (ok result)
                    else some (err (circular_dependency (remaining left)))
              ]
      ]

  unfoldable pub topological_sort :
      List (PluginConfigEntry C) → Option (Result SortError (List (PluginConfigEntry C)))
  unfolding sort_enabled
  topological_sort plugins = sort_enabled (select is_enabled plugins)
