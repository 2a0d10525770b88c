-- ===== src/Plan/Safety.antt =====
-- No step runs before its dependencies.
use offline_companion_core.Base.{
  ℕ, zero, suc, String, ◌≡◌, refl, subst, ◌∙◌, ◌≢◌, inl, inr, Bool, true, false, not, ◌&&◌, Option,
  none, some, List, [], ◌∷◌, ◌++◌, arith, Bool-cases, Option-cases, get_or, select, all, ◌==◌,
  nat_eq, string_eq, pair_eq, contains, Result, ok, err,
}
use offline_companion_core.Base.Dict.{
  Dict, values, lookup, insert, lookup-insert, lookup-insert_self,
}
use offline_companion_core.Plan.Types.{
  StepStatus, PlanStatus, satisfies, is_waiting, is_ready, holds, PlanStep, TaskContext, Failure,
  Runtime,
}
use offline_companion_core.Plan.Context.{
  set_add, status_of, mark_dependency_satisfied, mark_processed, rebuild_satisfied, is_candidate,
  get_ready_steps, touch, mark_started, mark_step_started, mark_step_completed, set_step_result,
}
use offline_companion_core.Plan.Engine.{
  mark_completed, check_condition, begin_attempt, retry_loop, execute_with_retry, Turn, halted,
  again, crashed, settle, complete, after_completion, fail, conclude_step, skip, advance, turn,
  start_run,
}

all-append :
    (p : String → Bool) (xs : List String) (x : String)
    → all p xs ≡ true
    → p x ≡ true
    → all p (xs ++ x ∷ []) ≡ true
all-append p [] x h q = ground arith
all-append p (y ∷ xs) x h q = ground (arith, all-append p xs x)

abbrev good : Dict String StepStatus → String → Bool
good st id = holds satisfies (lookup id st)

good-insert :
    (id : String) (s : StepStatus) (st : Dict String StepStatus) (sat : List String)
    → all (good st) sat ≡ true
    → good st id ≡ false
    → all (good (insert id s st)) sat ≡ true
good-insert id s st [] h n = refl
good-insert id s st (x ∷ sat) h n = elim (Bool-cases (id == x)) [
  | inl q ↦
      let e : id ≡ x = (string_eq.beq_iff id x).0 q in
      let clash : good st x ≡ false = subst (λ y. good st y ≡ false) e n in absurd (ground arith)
  | inr q ↦
      let ih = good-insert id s st sat (ground arith) n in
      let same : lookup x (insert id s st) ≡ lookup x st = lookup-insert id x s st ∙ rw q in
      ground arith
]

good-set_add :
    (id : String) (st : Dict String StepStatus) (sat : List String)
    → all (good st) sat ≡ true
    → good st id ≡ true
    → all (good st) (set_add id sat) ≡ true
good-set_add id st sat h g = elim (Bool-cases (contains sat id)) [
  | inl q ↦ rw q h
  | inr q ↦ rw q (all-append (good st) sat id h g)
]

module _ {R T : Type 0} (env : Runtime R T) where
  -- Every step that counts as a satisfied dependency is done, skipped or degraded.
  abbrev pub IsSound : TaskContext R T → Type 0
  IsSound c = all (good c.step_status) c.satisfied ≡ true

  abbrev Open : String → TaskContext R T → Type 0
  Open id c = IsSound c × (good c.step_status id ≡ false)

  retry_loop-Open :
      (s : PlanStep R) (rounds attempts : ℕ) (c : TaskContext R T)
      → Open s.step_id c
      → Open s.step_id (retry_loop env s rounds attempts c).0
  unfolding retry_loop begin_attempt mark_step_started
  retry_loop-Open s zero attempts c h = h
  retry_loop-Open s (suc rounds) attempts c h =
      let began = begin_attempt env s (suc attempts) c in
      let out = env.execute s (suc attempts) began.context_vars in
      let sound = good-insert s.step_id StepStatus.running c.step_status c.satisfied h.0 h.1 in
      let open_ = lookup-insert_self s.step_id StepStatus.running c.step_status in
      let ih =
        retry_loop-Open s rounds (suc attempts) (record began { context_vars = out.0 })
          (sound, rw open_ refl) in
      ground arith

  -- What a turn leaves for the next one.
  abbrev Kept : Turn env → Type 0
  Kept (halted d) = Unit {0}
  Kept (again d k) = IsSound d × (d.status ≡ PlanStatus.running)
  Kept crashed = Unit {0}

  complete-Kept :
      (s : PlanStep R) (status : StepStatus) (v : R) (errors : Dict String String)
      (max_steps : Option ℕ) (k : ℕ) (c : TaskContext R T)
      → satisfies status ≡ true
      → c.status ≡ PlanStatus.running
      → Open s.step_id c
      → Kept (after_completion env max_steps k (complete env s status v errors c))
  unfolding complete after_completion set_step_result touch mark_step_completed mark_completed
      mark_processed mark_dependency_satisfied
  complete-Kept s status v errors max_steps k c good_status r h =
      let st = insert s.step_id status c.step_status in
      let put = lookup-insert_self s.step_id status c.step_status in
      let sound = good-insert s.step_id status c.step_status c.satisfied h.0 h.1 in
      let added = good-set_add s.step_id st c.satisfied sound (rw put good_status) in ground arith

  conclude_step-Kept :
      (s : PlanStep R) (max_steps : Option ℕ) (k : ℕ) (c : TaskContext R T) (r : Result Failure R)
      → c.status ≡ PlanStatus.running
      → Open s.step_id c
      → Kept (conclude_step env s max_steps k (c, r))
  unfolding conclude_step fail mark_processed mark_step_completed
  conclude_step-Kept s max_steps k c (ok v) r h =
      complete-Kept s StepStatus.done v c.step_errors max_steps k c refl r h
  conclude_step-Kept s max_steps k c (err e) r h = elim (Option-cases s.degrade_value) [
    | inl q ↦
        let sound = good-insert s.step_id StepStatus.failed c.step_status c.satisfied h.0 h.1 in
        ground arith
    | inr (v, q) ↦
        rw (q, conclude_step)
          (complete-Kept s StepStatus.degraded v (insert s.step_id e.text c.step_errors) max_steps k
            c refl r h)
  ]

  retry_loop-status :
      (s : PlanStep R) (rounds attempts : ℕ) (c : TaskContext R T)
      → (retry_loop env s rounds attempts c).0.status ≡ c.status
  unfolding retry_loop begin_attempt mark_step_started
  retry_loop-status s zero attempts c = refl
  retry_loop-status s (suc rounds) attempts c =
      let began = begin_attempt env s (suc attempts) c in
      let out = env.execute s (suc attempts) began.context_vars in
      let ih = retry_loop-status s rounds (suc attempts) (record began { context_vars = out.0 }) in
      ground arith

  advance-Kept :
      (s : PlanStep R) (max_steps : Option ℕ) (k : ℕ) (c : TaskContext R T)
      → c.status ≡ PlanStatus.running
      → Open s.step_id c
      → Kept (advance env s max_steps k c)
  unfolding advance skip mark_step_completed mark_completed mark_processed mark_dependency_satisfied
      execute_with_retry
  advance-Kept s max_steps k c r h =
      let ran = execute_with_retry env s c in
      let later =
        conclude_step-Kept s max_steps (suc k) ran.0 ran.1
          (retry_loop-status s (suc s.retry_max) 0 c ∙ r)
          (retry_loop-Open s (suc s.retry_max) 0 c h) in
      let st = insert s.step_id StepStatus.skipped c.step_status in
      let put = lookup-insert_self s.step_id StepStatus.skipped c.step_status in
      let sound = good-insert s.step_id StepStatus.skipped c.step_status c.satisfied h.0 h.1 in
      let added = good-set_add s.step_id st c.satisfied sound (rw put refl) in
      elim (Bool-cases (s.require_consent && not (holds is_ready (status_of s.step_id c)))) [
        | inl q ↦ rw q tt
        | inr q ↦ elim (Bool-cases (not (check_condition env s c.context_vars))) [
          | inl u ↦ rw q (rw u (ground arith))
          | inr u ↦ rw q (rw u later)
        ]
      ]

  ready_first :
      (c : TaskContext R T) (xs : List (PlanStep R)) (s : PlanStep R) (rest : List (PlanStep R))
      → select (is_candidate c) xs ≡ s ∷ rest
      → is_candidate c s ≡ true
  ready_first c [] s rest h = cc
  ready_first c (x ∷ xs) s rest h = elim (Bool-cases (is_candidate c x)) [
    | inl q ↦ let e : x ≡ s = ground arith in subst (λ y. is_candidate c y ≡ true) e q
    | inr q ↦ ready_first c xs s rest (ground arith)
  ]

  -- A waiting step is not yet a satisfied dependency.
  waiting-not_good :
      (o : Option StepStatus)
      → is_waiting (get_or o StepStatus.pending) ≡ true
      → holds satisfies o ≡ false
  waiting-not_good none h = refl
  waiting-not_good (some StepStatus.pending) h = refl
  waiting-not_good (some StepStatus.ready) h = refl
  waiting-not_good (some s) h = ground arith

  settle-halts : (c d : TaskContext R T) (k : ℕ) → settle env c ≢ again d k
  unfolding settle
  settle-halts c d k h = ground arith

  turn-Kept :
      (max_steps : Option ℕ) (k : ℕ) (c : TaskContext R T)
      → c.status ≡ PlanStatus.running
      → IsSound c
      → Kept (turn env max_steps k c)
  unfolding turn get_ready_steps
  turn-Kept max_steps k c r h = ready (get_ready_steps c) refl
    where
      settled : (t : Turn env) → settle env c ≡ t → Kept t
      settled (halted d) e = tt
      settled (again d j) e = absurd (settle-halts c d j e)
      settled crashed e = tt

      ready : (ss : List (PlanStep R)) → get_ready_steps c ≡ ss → Kept (turn env max_steps k c)
      ready [] e = rw (e, turn) (settled (settle env c) refl)
      ready (s ∷ rest) e =
          let first = ready_first c (values c.steps) s rest e in
          rw (e, turn)
            (advance-Kept s max_steps k c r
              (h, waiting-not_good (status_of s.step_id c) (ground arith)))

  start_run-IsSound : (c : TaskContext R T) → IsSound (start_run env c)
  unfolding start_run rebuild_satisfied mark_started
  start_run-IsSound c = all_selected c.processed_steps
    where
      all_selected :
          (xs : List String) → all (good c.step_status) (select (good c.step_status) xs) ≡ true
      all_selected [] = refl
      all_selected (x ∷ xs) = ground (arith, all_selected xs)

  -- The contexts at which the loop of a run starts a turn.
  pub data Reached (max_steps : Option ℕ) (c : TaskContext R T) : TaskContext R T → Type 0 where
    begin : Reached max_steps c (start_run env c)
    next :
        {d e : TaskContext R T} (j k : ℕ)
        → Reached max_steps c d
        → turn env max_steps j d ≡ again e k
        → Reached max_steps c e

  Reached-Kept :
      (max_steps : Option ℕ) (c : TaskContext R T) {d : TaskContext R T}
      → Reached max_steps c d
      → IsSound d × (d.status ≡ PlanStatus.running)
  unfolding start_run rebuild_satisfied mark_started
  Reached-Kept max_steps c begin = (start_run-IsSound c, refl)
  Reached-Kept max_steps c (next {d = d} {e = e} j k p t) =
      let ih = Reached-Kept max_steps c p in subst Kept t (turn-Kept max_steps j d ih.1 ih.0)

  -- Whenever a turn of a run takes up a step, the step itself waits, and each of its dependencies
  -- is done, skipped or degraded.
  pub first_ready_satisfied :
      (max_steps : Option ℕ) (c : TaskContext R T) {d : TaskContext R T} (s : PlanStep R)
      (rest : List (PlanStep R))
      → Reached max_steps c d
      → get_ready_steps d ≡ s ∷ rest
      → (is_waiting (get_or (status_of s.step_id d) StepStatus.pending) ≡ true)
        × (all (λ dep. holds satisfies (status_of dep d)) s.depends_on ≡ true)
  unfolding get_ready_steps
  first_ready_satisfied max_steps c {d} s rest p h =
      let first = ready_first d (values d.steps) s rest h in
      (ground arith, satisfied s.depends_on (ground arith))
    where
      among :
          (sat : List String) (x : String)
          → all (good d.step_status) sat ≡ true
          → contains sat x ≡ true
          → good d.step_status x ≡ true
      among [] x a k = cc
      among (y ∷ sat) x a k = elim (Bool-cases (y == x)) [
        | inl q ↦
            subst (λ z. good d.step_status z ≡ true) ((string_eq.beq_iff y x).0 q) (ground arith)
        | inr q ↦ among sat x (ground arith) (ground arith)
      ]

      satisfied :
          (deps : List String)
          → all (contains d.satisfied) deps ≡ true
          → all (good d.step_status) deps ≡ true
      satisfied [] a = refl
      satisfied (x ∷ deps) a =
          let one = among d.satisfied x (Reached-Kept max_steps c p).0 (ground arith) in
          let others = satisfied deps (ground arith) in ground arith
