-- ===== src/StateManager/View.antt =====
-- What a client of core/state_manager.py sees: a value and a version for each key. The calls are run on
-- the manager, and specified on that view alone, without a table, a cache or an audit log.
use offline_companion_core.Base.{
  ℕ, ◌+◌, String, Option, none, some, List, [], ◌∷◌, nat_beq, if◌then◌else◌, ◌==◌, nat_eq,
  string_eq, pair_eq, Result, ok, err,
}
use offline_companion_core.Base.Dict.{Dict, lookup}
use offline_companion_core.StateManager.Types.{
  Key, StateRecord, Row, Manager, StateError, version_conflict, not_serializable, Platform,
}
use offline_companion_core.StateManager.Access.{validate}
use offline_companion_core.StateManager.Store.{get, set, set_if_version, delete}

pub data Call (V T : Type 0) : Type 0 where
  sets : String → String → V → T → Option String → Option String → Call V T
  sets_if_version : String → String → V → ℕ → T → Option String → Option String → Call V T
  deletes : String → String → T → Option String → Option String → Call V T
  gets : String → String → V → Option String → Call V T

-- What a call answers: the value and the version of the record that it wrote, the value that it read,
-- nothing, or what it raises.
pub data Answer (V : Type 0) : Type 0 where
  refused : StateError → Answer V
  wrote : V → ℕ → Answer V
  found : V → Answer V
  deleted : Answer V

abbrev pub View : Type 0 → Type 0
View V = Key → Option (V × ℕ)

module _ {V T : Type 0} where
  abbrev pub seen : Option (StateRecord V T) → Option (V × ℕ)
  seen none = none
  seen (some r) = some (r.value, r.version)

  abbrev pub wrote_of : Result StateError (StateRecord V T) → Answer V
  wrote_of (ok r) = wrote r.value r.version
  wrote_of (err e) = refused e

module _ {V : Type 0} where
  abbrev pub found_of : Result StateError V → Answer V
  found_of (ok v) = found v
  found_of (err e) = refused e

  abbrev pub deleted_of : Result StateError (Unit {0}) → Answer V
  deleted_of (ok u) = deleted
  deleted_of (err e) = refused e

  abbrev pub version_in : Option (V × ℕ) → ℕ
  version_in none = 0
  version_in (some (v, n)) = n

  abbrev pub value_in : V → Option (V × ℕ) → V
  value_in default none = default
  value_in default (some (v, n)) = v

  abbrev pub update : Key → Option (V × ℕ) → View V → View V
  update k x f j = if k == j then x else f j

module _ {V T C : Type 0} (env : Platform V T C) where
  abbrev pub view : Manager V T C → View V
  view m k = seen (lookup k m.cache)

  -- The view of the rows of a table.
  abbrev pub view_of_row : Option (Row T) → Option (V × ℕ)
  view_of_row none = none
  view_of_row (some row) = some (env.loads row.value_json, row.version)

  abbrev pub table_view : Dict Key (Row T) → View V
  table_view rows k = view_of_row (lookup k rows)

  unfoldable pub perform : Call V T → Manager V T C → Answer V × Manager V T C
  perform (sets domain key v now role actor) m =
      let (r, m') = set env domain key v now role actor m in (wrote_of r, m')
  perform (sets_if_version domain key v n now role actor) m =
      let (r, m') = set_if_version env domain key v n now role actor m in (wrote_of r, m')
  perform (deletes domain key now role actor) m =
      let (r, m') = delete env domain key now role actor m in (deleted_of r, m')
  perform (gets domain key default role) m =
      let (r, m') = get env domain key default role m in (found_of r, m')

  -- A write on the view: the next version, unless the value has no JSON.
  abbrev pub written : Key → V → View V → Answer V × View V
  written k v f = elim (env.dumps v) [
    | none ↦ (refused not_serializable, f)
    | some payload ↦ (wrote v (version_in (f k) + 1), update k (some (v, version_in (f k) + 1)) f)
  ]

  unfoldable pub specified : Call V T → View V → Answer V × View V
  specified (sets domain key v now role actor) f = elim (validate domain key role) [
    | err e ↦ (refused e, f)
    | ok u ↦ written (domain, key) v f
  ]
  specified (sets_if_version domain key v n now role actor) f = elim (validate domain key role) [
    | err e ↦ (refused e, f)
    | ok u ↦
        let stored = version_in (f (domain, key)) in
        if nat_beq stored n
        then written (domain, key) v f
        else (refused (version_conflict n stored), f)
  ]
  specified (deletes domain key now role actor) f = elim (validate domain key role) [
    | err e ↦ (refused e, f)
    | ok u ↦ (deleted, update (domain, key) none f)
  ]
  specified (gets domain key default role) f = elim (validate domain key role) [
    | err e ↦ (refused e, f)
    | ok u ↦ (found (value_in default (f (domain, key))), f)
  ]

  unfoldable pub run : List (Call V T) → Manager V T C → List (Answer V) × Manager V T C
  unfolding perform
  run [] m = ([], m)
  run (c ∷ cs) m = let (a, m') = perform c m in let (rest, end) = run cs m' in (a ∷ rest, end)

  unfoldable pub specify : List (Call V T) → View V → List (Answer V) × View V
  unfolding specified
  specify [] f = ([], f)
  specify (c ∷ cs) f =
      let (a, f') = specified c f in let (rest, end) = specify cs f' in (a ∷ rest, end)
