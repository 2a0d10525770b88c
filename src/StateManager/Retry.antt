-- ===== src/StateManager/Retry.antt =====
-- `set_with_retry`, and the wrappers that fix the domain.
use offline_companion_core.Base.{
  ℕ, zero, suc, String, Option, none, nat_eq, string_eq, pair_eq, ok, err,
}
use Prim.Native.String.{◌++◌ as append}
use offline_companion_core.StateManager.Types.{
  StateRecord, Manager, version_conflict, Platform, Outcome,
}
use offline_companion_core.StateManager.Access.{validate}
use offline_companion_core.StateManager.Store.{get, get_record, set, set_if_version, version_of}

module _ {V T C : Type 0} (env : Platform V T C) where
  -- One round of the loop: read the version, then write against it.
  unfoldable pub attempt :
      String
      → String
      → V
      → T
      → Option String
      → Option String
      → Manager V T C
      → Outcome V T C (StateRecord V T)
  attempt domain key value now role actor m =
      let (r, m') = get_record env domain key role m in
      elim r [
        | err e ↦ (err e, m')
        | ok current ↦ set_if_version env domain key value (version_of current) now role actor m'
      ]

  -- Only a version conflict is tried again.
  abbrev pub retry_after :
      Outcome V T C (StateRecord V T)
      → (Manager V T C → Outcome V T C (StateRecord V T))
      → Outcome V T C (StateRecord V T)
  retry_after (ok r, m) again = (ok r, m)
  retry_after (err (version_conflict a b), m) again = again m
  retry_after (err e, m) again = (err e, m)

  -- The loop with `n` rounds to go after this one.
  unfoldable pub retry :
      ℕ
      → String
      → String
      → V
      → T
      → Option String
      → Option String
      → Manager V T C
      → Outcome V T C (StateRecord V T)
  retry zero domain key value now role actor m = attempt domain key value now role actor m
  retry (suc n) domain key value now role actor m =
      retry_after (attempt domain key value now role actor m)
        (λ m'. retry n domain key value now role actor m')

  -- A negative `max_retries` counts as 0, as `max(0, …)` has it.
  unfoldable pub set_with_retry :
      String
      → String
      → V
      → ℕ
      → T
      → Option String
      → Option String
      → Manager V T C
      → Outcome V T C (StateRecord V T)
  set_with_retry domain key value max_retries now role actor m = elim (validate domain key role) [
    | err e ↦ (err e, m)
    | ok _ ↦ retry max_retries domain key value now role actor m
  ]

  unfoldable pub get_session_state : String → V → Option String → Manager V T C → Outcome V T C V
  get_session_state key default role m = get env "session" key default role m

  unfoldable pub set_session_state :
      String
      → V
      → T
      → Option String
      → Option String
      → Manager V T C
      → Outcome V T C (StateRecord V T)
  set_session_state key value now role actor m = set env "session" key value now role actor m

  unfoldable pub get_task_state : String → V → Option String → Manager V T C → Outcome V T C V
  get_task_state key default role m = get env "task" key default role m

  unfoldable pub set_task_state :
      String
      → V
      → T
      → Option String
      → Option String
      → Manager V T C
      → Outcome V T C (StateRecord V T)
  set_task_state key value now role actor m = set env "task" key value now role actor m

  abbrev route_key : String → String
  route_key plan_id = append "plan." (append plan_id ".route_decision")

  unfoldable pub set_route_state :
      String → V → T → Option String → Manager V T C → Outcome V T C (StateRecord V T)
  unfolding set_task_state
  set_route_state plan_id value now actor m =
      set_task_state (route_key plan_id) value now none actor m

  unfoldable pub get_route_state : String → V → Manager V T C → Outcome V T C V
  unfolding get_task_state
  get_route_state plan_id default m = get_task_state (route_key plan_id) default none m

  unfoldable pub get_system_state : String → V → Option String → Manager V T C → Outcome V T C V
  get_system_state key default role m = get env "system" key default role m

  unfoldable pub set_system_state :
      String
      → V
      → T
      → Option String
      → Option String
      → Manager V T C
      → Outcome V T C (StateRecord V T)
  set_system_state key value now role actor m = set env "system" key value now role actor m

  -- `yes` is the value `True`.
  unfoldable pub trigger_idle_think :
      V → T → Option String → Option String → Manager V T C → Outcome V T C (StateRecord V T)
  unfolding set_system_state
  trigger_idle_think true_value now role actor m =
      set_system_state "idle_think_requested" true_value now role actor m
