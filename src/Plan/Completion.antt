-- ===== src/Plan/Completion.antt =====
-- A run leaves a plan as done only when all its steps are final.
use offline_companion_core.Base.{
  ℕ, zero, suc, String, ◌≡◌, refl, ◌∙◌, inl, inr, Bool, true, false, not, ◌&&◌, ◌||◌, Option, none,
  some, List, [], ◌∷◌, arith, Bool-cases, Option-cases, get_or, length, nat_eq, string_eq, pair_eq,
  Result, ok, err,
}
use offline_companion_core.Base.Dict.{Dict, keys, lookup, insert}
use offline_companion_core.Plan.Types.{
  StepStatus, PlanStatus, is_failure, is_ready, holds, PlanStep, TaskContext, Failure, Runtime,
  upstream_failed,
}
use offline_companion_core.Plan.Context.{
  status_of, mark_processed, mark_dependency_satisfied, get_ready_steps, is_terminal, touch,
  mark_started, mark_terminal, mark_step_started, mark_step_completed, set_step_result,
  rebuild_satisfied,
}
use offline_companion_core.Plan.Successors.{
  propagate_failure, block, walk, walk_fuel, finish, build_successors,
}
use offline_companion_core.Plan.Walks.{walk_keeps}
use offline_companion_core.Plan.Engine.{
  all_steps_final, all_dependencies_failed, collect_first_failed_deps, keys_where, mark_completed,
  check_condition, begin_attempt, retry_loop, execute_with_retry, Turn, halted, again, crashed,
  conclude_if_final, block_downstream, settle, complete, after_completion, fail, conclude_step,
  await_consent, skip, advance, turn, run_loop, start_run, run_until_blocked,
}

abbrev is_done_plan : PlanStatus → Bool
is_done_plan PlanStatus.done = true
is_done_plan _ = false

module _ {R T : Type 0} (env : Runtime R T) where
  -- The plan is not done, or all its steps are final.
  abbrev closed : TaskContext R T → Bool
  closed c = not (is_done_plan c.status) || all_steps_final c

  -- What a turn of a running plan may lead to.
  abbrev Closed : Turn env → Type 0
  Closed (halted d) = closed d ≡ true
  Closed (again d k) = d.status ≡ PlanStatus.running
  Closed crashed = Unit {0}

  mark_done-closed :
      (c : TaskContext R T)
      → all_steps_final c ≡ true
      → closed (mark_terminal env (record c { status = PlanStatus.done })) ≡ true
  unfolding all_steps_final mark_terminal
  mark_done-closed c h = ground arith

  conclude_if_final-closed :
      (c : TaskContext R T)
      → c.status ≡ PlanStatus.running
      → closed (conclude_if_final env c) ≡ true
  unfolding conclude_if_final
  conclude_if_final-closed c r = ground (arith, mark_done-closed c)

  block-status : (id : String) (c : TaskContext R T) → (block env id c).0.status ≡ c.status
  unfolding block mark_processed mark_step_completed
  block-status id c = ground arith

  touch_if-status :
      (found : List String) (c d : TaskContext R T) (hits : List String)
      → finish env (some (c, found)) ≡ some (d, hits)
      → d.status ≡ c.status
  unfolding touch
  touch_if-status [] c d hits h = ground arith
  touch_if-status (x ∷ xs) c d hits h = ground arith

  propagate_failure-status :
      (id : String) (c d : TaskContext R T) (hits : List String)
      → propagate_failure env id c ≡ some (d, hits)
      → d.status ≡ c.status
  unfolding propagate_failure
  propagate_failure-status id c d hits h =
      let successors = build_successors c.steps in
      let walked =
        walk (block env) successors (walk_fuel env successors) (get_or (lookup id successors) []) []
          [] c in
      elim (Option-cases walked) [
        | inl q ↦ absurd (ground arith)
        | inr ((e, found), q) ↦
            let same =
              walk_keeps (λ x. x.status ≡ c.status) (block env) successors
                (λ i x p. block-status i x ∙ p) (walk_fuel env successors)
                (get_or (lookup id successors) []) [] [] c e found q refl in
            touch_if-status found e d hits (ground arith) ∙ same
      ]

  block_downstream-status :
      (ids : List String) (c d : TaskContext R T)
      → block_downstream env ids c ≡ some d
      → d.status ≡ c.status
  unfolding block_downstream
  block_downstream-status [] c d h = ground arith
  block_downstream-status (id ∷ ids) c d h = elim (Option-cases (propagate_failure env id c)) [
    | inl q ↦ absurd (ground arith)
    | inr ((e, hits), q) ↦
        block_downstream-status ids e d (ground arith) ∙ propagate_failure-status id c e hits q
  ]

  not_done-closed : (c : TaskContext R T) → is_done_plan c.status ≡ false → closed c ≡ true
  not_done-closed c h = ground arith

  abbrev failing : TaskContext R T → TaskContext R T
  failing c = record c {
    status = PlanStatus.failed;
    error = some (upstream_failed (collect_first_failed_deps c));
  }

  -- The end of a run over failed dependencies.
  ends :
      (o : Option (TaskContext R T))
      → ((d : TaskContext R T) → o ≡ some d → d.status ≡ PlanStatus.failed)
      → Closed (elim o [ none ↦ crashed | some c' ↦ halted (mark_terminal env c') ])
  unfolding mark_terminal
  ends none h = tt
  ends (some d) h = not_done-closed (mark_terminal env d) (rw (h d refl) refl)

  settle-Closed : (c : TaskContext R T) → Closed (settle env c)
  unfolding settle touch
  settle-Closed c = elim (Bool-cases (all_steps_final c)) [
    | inl q ↦ rw (q, settle) (mark_done-closed c q)
    | inr q ↦ elim (Bool-cases (all_dependencies_failed c)) [
      | inr u ↦
          rw (q, settle)
            (rw u (
              not_done-closed
                (touch env (record c {
                  status = PlanStatus.paused;
                  paused_reason = some "waiting_dependencies";
                }))
                refl))
      | inl u ↦
          rw (q, settle)
            (rw u (
              ends (block_downstream env (keys_where is_failure c.step_status) (failing c))
                (block_downstream-status (keys_where is_failure c.step_status) (failing c))))
    ]
  ]

  complete-status :
      (s : PlanStep R) (status : StepStatus) (v : R) (errors : Dict String String)
      (c d : TaskContext R T)
      → complete env s status v errors c ≡ some d
      → d.status ≡ c.status
  unfolding complete set_step_result touch mark_step_completed mark_completed mark_processed
      mark_dependency_satisfied
  complete-status s status v errors c d h = ground arith

  after_completion-Closed :
      (max_steps : Option ℕ) (k : ℕ) (o : Option (TaskContext R T))
      → ((d : TaskContext R T) → o ≡ some d → d.status ≡ PlanStatus.running)
      → Closed (after_completion env max_steps k o)
  unfolding after_completion
  after_completion-Closed max_steps k none h = tt
  after_completion-Closed max_steps k (some d) h =
      ground (arith, h d refl, conclude_if_final-closed d (h d refl))

  complete-Closed :
      (s : PlanStep R) (status : StepStatus) (v : R) (errors : Dict String String)
      (max_steps : Option ℕ) (k : ℕ) (c : TaskContext R T)
      → c.status ≡ PlanStatus.running
      → Closed (after_completion env max_steps k (complete env s status v errors c))
  complete-Closed s status v errors max_steps k c r =
      after_completion-Closed max_steps k (complete env s status v errors c)
        (λ d h. complete-status s status v errors c d h ∙ r)

  conclude_step-Closed :
      (s : PlanStep R) (max_steps : Option ℕ) (k : ℕ) (c : TaskContext R T) (r : Result Failure R)
      → c.status ≡ PlanStatus.running
      → Closed (conclude_step env s max_steps k (c, r))
  unfolding conclude_step fail mark_processed mark_step_completed mark_terminal
  conclude_step-Closed s max_steps k c (ok v) r =
      complete-Closed s StepStatus.done v c.step_errors max_steps k c r
  conclude_step-Closed s max_steps k c (err e) r = elim (Option-cases s.degrade_value) [
    | inl q ↦ ground arith
    | inr (v, q) ↦
        rw (q, conclude_step)
          (complete-Closed s StepStatus.degraded v (insert s.step_id e.text c.step_errors) max_steps
            k c r)
  ]

  retry_loop-status :
      (s : PlanStep R) (rounds attempts : ℕ) (c : TaskContext R T)
      → (retry_loop env s rounds attempts c).0.status ≡ c.status
  unfolding retry_loop begin_attempt mark_step_started
  retry_loop-status s zero attempts c = refl
  retry_loop-status s (suc rounds) attempts c =
      let began = begin_attempt env s (suc attempts) c in
      let out = env.execute s (suc attempts) began.context_vars in
      let ih = retry_loop-status s rounds (suc attempts) (record began { context_vars = out.0 }) in
      ground arith

  turn-Closed :
      (max_steps : Option ℕ) (k : ℕ) (c : TaskContext R T)
      → c.status ≡ PlanStatus.running
      → Closed (turn env max_steps k c)
  unfolding turn advance await_consent touch skip mark_step_completed mark_completed mark_processed
      mark_dependency_satisfied execute_with_retry
  turn-Closed max_steps k c r = ready (get_ready_steps c) refl
    where
      ready : (ss : List (PlanStep R)) → get_ready_steps c ≡ ss → Closed (turn env max_steps k c)
      ready [] e = rw (e, turn) (settle-Closed c)
      ready (s ∷ rest) e =
          let ran = execute_with_retry env s c in
          let later =
            conclude_step-Closed s max_steps (suc k) ran.0 ran.1
              (retry_loop-status s (suc s.retry_max) 0 c ∙ r) in
          rw (e, turn)
            (elim (Bool-cases (s.require_consent && not (holds is_ready (status_of s.step_id c)))) [
              | inl q ↦ rw (q, advance) (not_done-closed (await_consent env s c) refl)
              | inr q ↦ elim (Bool-cases (not (check_condition env s c.context_vars))) [
                | inl u ↦ rw (q, advance) (rw u (ground arith))
                | inr u ↦ rw (q, advance) (rw u later)
              ]
            ])

  run_loop-closed :
      (fuel : ℕ) (max_steps : Option ℕ) (k : ℕ) (c d : TaskContext R T)
      → c.status ≡ PlanStatus.running
      → run_loop env fuel max_steps k c ≡ some d
      → closed d ≡ true
  unfolding run_loop
  run_loop-closed zero max_steps k c d r h = absurd (ground arith)
  run_loop-closed (suc fuel) max_steps k c d r h =
      after (turn env max_steps k c) refl (turn-Closed max_steps k c r)
        (λ e j p. run_loop-closed fuel max_steps j e d p)
    where
      after :
          (t : Turn env)
          → turn env max_steps k c ≡ t
          → Closed t
          → ((e : TaskContext R T) (j : ℕ)
              → e.status ≡ PlanStatus.running
              → run_loop env fuel max_steps j e ≡ some d
              → closed d ≡ true)
          → closed d ≡ true
      after (halted e) q p go = ground arith
      after (again e j) q p go = go e j p (ground arith)
      after crashed q p go = absurd (ground arith)

  -- A run of a plan that was not terminal, if it leaves the plan as done, leaves every step final.
  pub run_until_blocked_done :
      (max_steps : Option ℕ) (c d : TaskContext R T)
      → is_terminal c ≡ false
      → run_until_blocked env max_steps c ≡ some d
      → d.status ≡ PlanStatus.done
      → all_steps_final d ≡ true
  unfolding run_until_blocked start_run mark_started rebuild_satisfied
  run_until_blocked_done max_steps c d open_ h done_ =
      let p =
        run_loop-closed (suc (length (keys c.steps))) max_steps 0 (start_run env c) d refl
          (ground arith) in
      ground arith
