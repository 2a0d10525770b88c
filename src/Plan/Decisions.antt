-- ===== src/Plan/Decisions.antt =====
-- What the decisions of the user leave of a plan.
use offline_companion_core.Base.{
  String, ◌≡◌, refl, subst, inl, inr, not, ◌&&◌, none, some, [], ◌∷◌, arith, if◌then◌else◌,
  Bool-cases, ◌==◌, nat_eq, string_eq, pair_eq,
}
use offline_companion_core.Base.Dict.{Unique, Dict, lookup, lookup-insert}
use offline_companion_core.Plan.Types.{StepStatus, PlanStatus, is_final, TaskContext, Runtime}
use offline_companion_core.Plan.Context.{mark_processed, mark_terminal, mark_step_completed}
use offline_companion_core.Plan.Control.{cancel, cancel_one, cancel_each}

module _ {R T : Type 0} (env : Runtime R T) where
  abbrev pub settled : StepStatus → StepStatus
  settled s = if is_final s then s else StepStatus.cancelled

  lookup-cancel_one :
      (id j : String) (s : StepStatus) (c : TaskContext R T)
      → lookup j (cancel_one env id s c).step_status ≡ (
          if not (is_final s) && id == j then some StepStatus.cancelled else lookup j c.step_status)
  unfolding cancel_one mark_processed mark_step_completed
  lookup-cancel_one id j s c = ground (arith, lookup-insert id j StepStatus.cancelled c.step_status)

  cancel_each-ne :
      (id : String) (d : Dict String StepStatus) (c : TaskContext R T)
      → lookup id d ≡ none
      → lookup id (cancel_each env d c).step_status ≡ lookup id c.step_status
  unfolding cancel_each
  cancel_each-ne id [] c h = refl
  cancel_each-ne id ((k, s) ∷ d) c h =
      let ih = cancel_each-ne id d (cancel_one env k s c) (ground arith) in
      let one = lookup-cancel_one k id s c in ground arith

  cancel_each-lookup :
      (id : String) (d : Dict String StepStatus) (c : TaskContext R T) (s : StepStatus)
      → Unique d
      → lookup id d ≡ some s
      → lookup id c.step_status ≡ some s
      → lookup id (cancel_each env d c).step_status ≡ some (settled s)
  unfolding cancel_each
  cancel_each-lookup id [] c s u h e = cc
  cancel_each-lookup id ((k, t) ∷ d) c s u h e =
      let c' = cancel_one env k t c in
      let one = lookup-cancel_one k id t c in
      elim (Bool-cases (k == id)) [
        | inl q ↦
            let value : t ≡ s = ground arith in
            let gone =
              cancel_each-ne id d c'
                (subst (λ x. lookup x d ≡ none) ((string_eq.beq_iff k id).0 q) u.0) in
            ground arith
        | inr q ↦ cancel_each-lookup id d c' s u.1 (ground arith) (ground arith)
      ]

  status-cancel_each :
      (d : Dict String StepStatus) (c : TaskContext R T) → (cancel_each env d c).status ≡ c.status
  unfolding cancel_each cancel_one mark_processed mark_step_completed
  status-cancel_each [] c = refl
  status-cancel_each ((id, s) ∷ d) c = ground (arith, status-cancel_each d (cancel_one env id s c))

  -- `cancel` settles every step: a status that was final stays, every other becomes `cancelled`;
  -- the plan becomes cancelled, whatever its own status was.
  pub cancel_settles :
      (id : String) (s : StepStatus) (c : TaskContext R T)
      → Unique c.step_status
      → lookup id c.step_status ≡ some s
      → (lookup id (cancel env c).step_status
          ≡ some (if is_final s then s else StepStatus.cancelled))
        × ((cancel env c).status ≡ PlanStatus.cancelled)
  unfolding cancel mark_terminal
  cancel_settles id s c u e = (
    cancel_each-lookup id c.step_status (record c { status = PlanStatus.cancelled }) s u e e,
    status-cancel_each c.step_status (record c { status = PlanStatus.cancelled }),
  )
