-- ===== src/Plan/Termination.antt =====
-- `run_until_blocked` ends: every turn that is followed by another brings a waiting step to an end.
use offline_companion_core.Base.{
  ℕ, zero, suc, ◌≤◌, ◌<◌, String, ◌≡◌, refl, sym, subst, ◌∙◌, ◌≢◌, inl, inr, Bool, true, false, not,
  ◌&&◌, Option, none, some, List, [], ◌∷◌, arith, if◌then◌else◌, Bool-cases, Option-cases, get_or,
  length, select, all, nat_eq, string_eq, pair_eq, Result, ok, err,
}
use offline_companion_core.Base.Dict.{
  Dict, keys, values, lookup, insert, member, lookup-insert, lookup-insert_self,
}
use offline_companion_core.Plan.Types.{
  StepStatus, PlanStatus, is_failure, is_waiting, is_ready, holds, PlanStep, upstream_failed,
  TaskContext, Failure, Runtime,
}
use offline_companion_core.Plan.Context.{
  status_of, mark_dependency_satisfied, mark_processed, rebuild_satisfied, is_candidate,
  get_ready_steps, is_terminal, touch, mark_started, mark_step_started, mark_step_completed,
  set_step_result,
}
use offline_companion_core.Plan.Successors.{propagate_failure}
use offline_companion_core.Plan.Engine.{
  mark_completed, check_condition, begin_attempt, retry_loop, execute_with_retry, Turn, halted,
  again, crashed, block_downstream, settle, complete, after_completion, fail, conclude_step, skip,
  advance, turn, run_loop, start_run, run_until_blocked, keys_where, collect_first_failed_deps,
}
use offline_companion_core.Plan.Walks.{propagate_ne-none}

-- The steps that still wait for their turn.
abbrev pub waiting_in : {R : Type 0} → Dict String StepStatus → Dict String (PlanStep R) → ℕ
waiting_in st [] = 0
waiting_in st ((_, s) ∷ steps) =
    let rest = waiting_in st steps in
    if is_waiting (get_or (lookup s.step_id st) StepStatus.pending) then suc rest else rest

module _ {R : Type 0} where
  waiting_in-le-length :
      (st : Dict String StepStatus) (steps : Dict String (PlanStep R))
      → waiting_in st steps ≤ length (keys steps)
  waiting_in-le-length st [] = omega arith
  waiting_in-le-length st ((id, s) ∷ steps) = ground (arith, waiting_in-le-length st steps)

  waiting_in-insert-le :
      (id : String) (status : StepStatus) (st : Dict String StepStatus)
      (steps : Dict String (PlanStep R))
      → is_waiting status ≡ false
      → waiting_in (insert id status st) steps ≤ waiting_in st steps
  waiting_in-insert-le id status st [] w = omega arith
  waiting_in-insert-le id status st ((k, s) ∷ steps) w =
      ground
        (arith, waiting_in-insert-le id status st steps w, lookup-insert id s.step_id status st)

  -- A step that waits ends: there is one less.
  waiting_in-insert-lt :
      (p : PlanStep R → Bool) (status : StepStatus) (st : Dict String StepStatus)
      (steps : Dict String (PlanStep R)) (s : PlanStep R) (rest : List (PlanStep R))
      → is_waiting status ≡ false
      → ((t : PlanStep R)
          → p t ≡ true
          → is_waiting (get_or (lookup t.step_id st) StepStatus.pending) ≡ true)
      → select p (values steps) ≡ s ∷ rest
      → waiting_in (insert s.step_id status st) steps < waiting_in st steps
  waiting_in-insert-lt p status st [] s rest w good h = cc
  waiting_in-insert-lt p status st ((k, t) ∷ steps) s rest w good h = elim (Bool-cases (p t)) [
    | inl q ↦
        let e : t ≡ s = ground arith in
        let was = good t q in
        let le = waiting_in-insert-le t.step_id status st steps w in
        let now = lookup-insert_self t.step_id status st in
        subst
          (λ x.
            waiting_in (insert x.step_id status st) ((k, t) ∷ steps)
            < waiting_in st ((k, t) ∷ steps))
          e (ground arith)
    | inr q ↦
        let ih = waiting_in-insert-lt p status st steps s rest w good (ground arith) in
        ground (arith, lookup-insert s.step_id t.step_id status st)
  ]

module _ {R T : Type 0} (env : Runtime R T) where
  -- Every step stands in the plan under its own name.
  abbrev pub IsKeyed : TaskContext R T → Type 0
  IsKeyed c = all (λ s. member s.step_id c.steps) (values c.steps) ≡ true

  abbrev waiting : TaskContext R T → ℕ
  waiting c = waiting_in c.step_status c.steps

  retry_loop-waiting :
      (s : PlanStep R) (rounds attempts : ℕ) (c : TaskContext R T)
      → let r = (retry_loop env s rounds attempts c).0 in
        (r.steps ≡ c.steps) × (waiting r ≤ waiting c) × (r.satisfied ≡ c.satisfied)
  unfolding retry_loop begin_attempt mark_step_started
  retry_loop-waiting s zero attempts c = (refl, omega arith, refl)
  retry_loop-waiting s (suc rounds) attempts c =
      let began = begin_attempt env s (suc attempts) c in
      let out = env.execute s (suc attempts) began.context_vars in
      let ih = retry_loop-waiting s rounds (suc attempts) (record began { context_vars = out.0 }) in
      let le = waiting_in-insert-le s.step_id StepStatus.running c.step_status c.steps refl in
      ground arith

  execute_with_retry-waiting :
      (s : PlanStep R) (c : TaskContext R T)
      → waiting_in (insert s.step_id StepStatus.running c.step_status) c.steps < waiting c
      → let r = (execute_with_retry env s c).0 in
        (r.steps ≡ c.steps) × (waiting r < waiting c) × (r.satisfied ≡ c.satisfied)
  unfolding execute_with_retry retry_loop begin_attempt mark_step_started
  execute_with_retry-waiting s c less =
      let began = begin_attempt env s 1 c in
      let out = env.execute s 1 began.context_vars in
      let rest = retry_loop-waiting s s.retry_max 1 (record began { context_vars = out.0 }) in
      ground arith

  -- What a turn may lead to after `c`: no exception, and another turn only over the same steps, one
  -- of which at least has come to its end.
  abbrev pub Progress : TaskContext R T → ℕ → Turn env → Type 0
  Progress c n (halted d) = Unit {0}
  Progress c n (again d k) = (d.steps ≡ c.steps) × (waiting d < n)
  Progress c n crashed = ⊥

  complete-Progress :
      (s : PlanStep R) (status : StepStatus) (v : R) (errors : Dict String String)
      (max_steps : Option ℕ) (k n : ℕ) (c : TaskContext R T)
      → is_waiting status ≡ false
      → member s.step_id c.steps ≡ true
      → waiting c < n
      → Progress c n (after_completion env max_steps k (complete env s status v errors c))
  unfolding complete after_completion set_step_result touch mark_step_completed mark_completed
      mark_processed mark_dependency_satisfied
  complete-Progress s status v errors max_steps k n c w m less =
      ground (arith, waiting_in-insert-le s.step_id status c.step_status c.steps w)

  fail-Progress :
      (s : PlanStep R) (e : Failure) (max_steps : Option ℕ) (k n : ℕ) (c : TaskContext R T)
      → waiting c < n
      → Progress c n (fail env s e max_steps k c)
  unfolding fail mark_processed mark_step_completed
  fail-Progress s e max_steps k n c less =
      ground (arith, waiting_in-insert-le s.step_id StepStatus.failed c.step_status c.steps refl)

  conclude_step-Progress :
      (s : PlanStep R) (max_steps : Option ℕ) (k n : ℕ) (c : TaskContext R T) (r : Result Failure R)
      → member s.step_id c.steps ≡ true
      → waiting c < n
      → Progress c n (conclude_step env s max_steps k (c, r))
  unfolding conclude_step
  conclude_step-Progress s max_steps k n c (ok v) m less =
      complete-Progress s StepStatus.done v c.step_errors max_steps k n c refl m less
  conclude_step-Progress s max_steps k n c (err e) m less = elim (Option-cases s.degrade_value) [
    | inl q ↦ rw (q, conclude_step) (fail-Progress s e max_steps k n c less)
    | inr (v, q) ↦
        rw (q, conclude_step)
          (complete-Progress s StepStatus.degraded v (insert s.step_id e.text c.step_errors)
            max_steps k n c refl m less)
  ]

  skip-Progress :
      (s : PlanStep R) (k n : ℕ) (c : TaskContext R T)
      → waiting_in (insert s.step_id StepStatus.skipped c.step_status) c.steps < n
      → Progress c n (again (skip env s c) k)
  unfolding skip mark_step_completed mark_completed mark_processed mark_dependency_satisfied
  skip-Progress s k n c less = ground arith

  Progress-steps :
      (c d : TaskContext R T) (n : ℕ) (t : Turn env)
      → d.steps ≡ c.steps
      → Progress d n t
      → Progress c n t
  Progress-steps c d n (halted x) e p = tt
  Progress-steps c d n (again x k) e p = (p.0 ∙ e, p.1)
  Progress-steps c d n crashed e p = p

  advance-Progress :
      (s : PlanStep R) (max_steps : Option ℕ) (k : ℕ) (c : TaskContext R T)
      → member s.step_id c.steps ≡ true
      → ((status : StepStatus)
          → is_waiting status ≡ false
          → waiting_in (insert s.step_id status c.step_status) c.steps < waiting c)
      → Progress c (waiting c) (advance env s max_steps k c)
  unfolding advance
  advance-Progress s max_steps k c m less =
      elim (Bool-cases (s.require_consent && not (holds is_ready (status_of s.step_id c)))) [
        | inl q ↦ rw q tt
        | inr q ↦ elim (Bool-cases (not (check_condition env s c.context_vars))) [
          | inl u ↦ rw (q) (rw u (skip-Progress s k (waiting c) c (less StepStatus.skipped refl)))
          | inr u ↦
              let ran = execute_with_retry-waiting s c (less StepStatus.running refl) in
              rw (q) (
                rw u (
                  Progress-steps c (execute_with_retry env s c).0 (waiting c) _ ran.0 (
                    conclude_step-Progress s max_steps (suc k) (waiting c)
                      (execute_with_retry env s c).0 (execute_with_retry env s c).1 (rw (ran.0) m)
                      ran.1)))
        ]
      ]

  block_downstream-ne-none :
      (ids : List String) (c : TaskContext R T) → block_downstream env ids c ≢ none
  unfolding block_downstream
  block_downstream-ne-none [] c h = cc
  block_downstream-ne-none (id ∷ ids) c h = elim (Option-cases (propagate_failure env id c)) [
    | inl q ↦ (propagate_ne-none env id c).0 q
    | inr (r, q) ↦ block_downstream-ne-none ids r.0 (ground arith)
  ]

  settle-Progress : (n : ℕ) (c : TaskContext R T) → Progress c n (settle env c)
  unfolding settle
  settle-Progress n c = ground (
    arith,
    block_downstream-ne-none (keys_where is_failure c.step_status) (record c {
      status = PlanStatus.failed;
      error = some (upstream_failed (collect_first_failed_deps c));
    }),
  )

  first_listed :
      (p : PlanStep R → Bool) (q : PlanStep R → Bool) (xs : List (PlanStep R)) (s : PlanStep R)
      (rest : List (PlanStep R))
      → all q xs ≡ true
      → select p xs ≡ s ∷ rest
      → (p s ≡ true) × (q s ≡ true)
  first_listed p q [] s rest a h = cc
  first_listed p q (x ∷ xs) s rest a h = elim (Bool-cases (p x)) [
    | inl y ↦
        let e : x ≡ s = ground arith in
        let qx : q x ≡ true = ground arith in
        (subst (λ t. p t ≡ true) e y, subst (λ t. q t ≡ true) e qx)
    | inr n ↦ first_listed p q xs s rest (ground arith) (ground arith)
  ]

  turn-Progress :
      (max_steps : Option ℕ) (k : ℕ) (c : TaskContext R T)
      → IsKeyed c
      → Progress c (waiting c) (turn env max_steps k c)
  unfolding turn get_ready_steps
  turn-Progress max_steps k c keyed = ready (get_ready_steps c) refl
    where
      ready :
          (ss : List (PlanStep R))
          → get_ready_steps c ≡ ss
          → Progress c (waiting c) (turn env max_steps k c)
      ready [] e = rw (e, turn) (settle-Progress (waiting c) c)
      ready (s ∷ rest) e =
          rw (e, turn)
            (advance-Progress s max_steps k c
              (first_listed (is_candidate c) (λ t. member t.step_id c.steps) (values c.steps) s rest
                keyed e).1
              (λ status w.
                waiting_in-insert-lt (is_candidate c) status c.step_status c.steps s rest w
                  (λ t y. ground arith) e))

  run_loop_total :
      (fuel : ℕ) (max_steps : Option ℕ) (k : ℕ) (c : TaskContext R T)
      → IsKeyed c
      → waiting c < fuel
      → (d : TaskContext R T) × (run_loop env fuel max_steps k c ≡ some d)
  unfolding run_loop
  run_loop_total zero max_steps k c keyed f = absurd (omega arith)
  run_loop_total (suc fuel) max_steps k c keyed f =
      next (turn env max_steps k c) refl (turn-Progress max_steps k c keyed) (λ d j e p.
        run_loop_total fuel max_steps j d
          (subst (λ st. all (λ s. member s.step_id st) (values st) ≡ true) (sym (p.0)) keyed)
          (omega arith))
    where
      next :
          (t : Turn env)
          → turn env max_steps k c ≡ t
          → Progress c (waiting c) t
          → ((d : TaskContext R T) (j : ℕ)
              → turn env max_steps k c ≡ again d j
              → (d.steps ≡ c.steps) × (waiting d < waiting c)
              → (r : TaskContext R T) × (run_loop env fuel max_steps j d ≡ some r))
          → (r : TaskContext R T) × (run_loop env (suc fuel) max_steps k c ≡ some r)
      next (halted d) e p go = (d, rw (e, run_loop))
      next (again d j) e p go = let (r, q) = go d j e p in (r, rw (e, run_loop) q)
      next crashed e p go = absurd p

  -- A plan in which every step stands under its own name is always run to a stop: for every
  -- executor, condition, limit of steps and graph of dependencies the loop ends and raises nothing.
  pub run_until_blocked_total :
      (max_steps : Option ℕ) (c : TaskContext R T)
      → IsKeyed c
      → (d : TaskContext R T) × (run_until_blocked env max_steps c ≡ some d)
  unfolding run_until_blocked start_run rebuild_satisfied mark_started
  run_until_blocked_total max_steps c keyed = elim (Bool-cases (is_terminal c)) [
    | inl q ↦ (c, rw q)
    | inr q ↦
        let (d, e) =
          run_loop_total (suc (length (keys c.steps))) max_steps 0 (start_run env c) keyed
            (omega (arith, waiting_in-le-length c.step_status c.steps)) in
        (d, rw q e)
  ]
