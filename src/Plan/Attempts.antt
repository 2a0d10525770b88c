-- ===== src/Plan/Attempts.antt =====
-- The attempts that `execute_with_retry` makes.
use offline_companion_core.Base.{
  ℕ, zero, suc, ◌+◌, ◌≤◌, max, String, ◌≡◌, refl, Bool, ok, true, false, split_if, if◌then◌else◌,
  ap, subst, ◌∙◌, not, ◌||◌, some, arith, leb, nat_eq, string_eq, pair_eq, Result, err,
}
use offline_companion_core.Base.Dict.{Dict, lookup, lookup-insert_self}
use offline_companion_core.Plan.Types.{StepStatus, PlanStep, TaskContext, Failure, Runtime}
use offline_companion_core.Plan.Context.{mark_step_started}
use offline_companion_core.Plan.Engine.{begin_attempt, retry_loop, execute_with_retry}

module _ {R T : Type 0} (env : Runtime R T) where
  -- After this attempt the loop has a reason to stop: a success, no attempt left, or a failure of a
  -- type that is not tried again.
  abbrev pub stops : PlanStep R → ℕ → Result Failure R → Bool
  stops s n (ok v) = true
  stops s n (err e) = leb s.retry_max n || not e.retryable

  -- The attempts from number `n` on, which starts with `vars`: each but the last fails in a way that is
  -- tried again, and the next one starts with the variables that it leaves.
  pub data Tried (s : PlanStep R)
      : ℕ → Dict String R → ℕ → Dict String R → Result Failure R → Type 0 where
    last :
        {n : ℕ} {vars : Dict String R}
        → stops s n (env.execute s n vars).1 ≡ true
        → Tried s n vars n (env.execute s n vars).0 (env.execute s n vars).1
    more :
        {n m : ℕ} {vars left : Dict String R} {r : Result Failure R}
        → stops s n (env.execute s n vars).1 ≡ false
        → Tried s (suc n) (env.execute s n vars).0 m left r
        → Tried s n vars m left r

  -- The result of the attempts from number `from` on, and the number of the attempts.
  pub record Attempted (s : PlanStep R) (from : ℕ) (vars : Dict String R) (c : TaskContext R T)
      (r : Result Failure R) : Type 0 where
    pub count : ℕ
    pub recorded : lookup s.step_id c.step_attempts ≡ some count
    pub running : lookup s.step_id c.step_status ≡ some StepStatus.running
    pub positive : 1 ≤ count
    pub bounded : count ≤ max 1 s.retry_max
    pub tried : Tried s from vars count c.context_vars r

  Attempted-last :
      (s : PlanStep R) (attempts : ℕ) (c : TaskContext R T)
      → suc attempts ≤ max 1 s.retry_max
      → let began = begin_attempt env s (suc attempts) c in
        let out = env.execute s (suc attempts) c.context_vars in
        stops s (suc attempts) out.1 ≡ true
        → Attempted s (suc attempts) c.context_vars (record began { context_vars = out.0 }) out.1
  unfolding begin_attempt mark_step_started
  Attempted-last s attempts c bound stop = record {
    count = suc attempts;
    recorded = lookup-insert_self s.step_id (suc attempts) c.step_attempts;
    running = lookup-insert_self s.step_id StepStatus.running c.step_status;
    positive = omega arith;
    bounded = bound;
    tried = last stop;
  }

  Attempted-more :
      (s : PlanStep R) (n : ℕ) (vars : Dict String R) (c : TaskContext R T) (r : Result Failure R)
      → stops s n (env.execute s n vars).1 ≡ false
      → Attempted s (suc n) (env.execute s n vars).0 c r
      → Attempted s n vars c r
  Attempted-more s n vars c r go a = record {
    count = a.count;
    recorded = a.recorded;
    running = a.running;
    positive = a.positive;
    bounded = a.bounded;
    tried = more go a.tried;
  }

  retry_loop-Attempted :
      (s : PlanStep R) (rounds attempts : ℕ) (c : TaskContext R T)
      → s.retry_max ≤ rounds + attempts
      → 1 ≤ rounds
      → suc attempts ≤ max 1 s.retry_max
      → let left = retry_loop env s rounds attempts c in
        Attempted s (suc attempts) c.context_vars left.0 left.1
  unfolding retry_loop begin_attempt mark_step_started
  retry_loop-Attempted s zero attempts c enough pos bound = absurd (omega arith)
  retry_loop-Attempted s (suc rounds) attempts c enough pos bound =
      by_outcome (env.execute s (suc attempts) c.context_vars).1 refl (λ go.
        retry_loop-Attempted s rounds (suc attempts)
          (record (begin_attempt env s (suc attempts) c) {
            context_vars = (env.execute s (suc attempts) c.context_vars).0;
          })
          (omega arith) (ground arith) (ground arith))
    where
      vars : Dict String R
      vars = (env.execute s (suc attempts) c.context_vars).0

      began : TaskContext R T
      began = record (begin_attempt env s (suc attempts) c) { context_vars = vars }

      Done : TaskContext R T × Result Failure R → Type 0
      Done (d, r) = Attempted s (suc attempts) c.context_vars d r

      ended :
          (r : Result Failure R)
          → (env.execute s (suc attempts) c.context_vars).1 ≡ r
          → stops s (suc attempts) r ≡ true
          → Done (began, r)
      ended r q stop =
          subst (λ x. Done (began, x)) q
            (Attempted-last s attempts c bound (ap (stops s (suc attempts)) q ∙ stop))

      by_outcome :
          (r : Result Failure R)
          → (env.execute s (suc attempts) c.context_vars).1 ≡ r
          → (leb s.retry_max (suc attempts) ≡ false
              → let left = retry_loop env s rounds (suc attempts) began in
                Attempted s (suc (suc attempts)) vars left.0 left.1)
          → Done (elim r [
            | ok result ↦ (began, ok result)
            | err e ↦
                if leb s.retry_max (suc attempts) || not e.retryable
                then (began, err e)
                else retry_loop env s rounds (suc attempts) began
          ])
      by_outcome (ok v) q rest = ended (ok v) q refl
      by_outcome (err e) q rest =
          split_if Done (leb s.retry_max (suc attempts) || not e.retryable)
            (λ stop. ended (err e) q stop)
            (λ go.
              Attempted-more s (suc attempts) c.context_vars
                (retry_loop env s rounds (suc attempts) began).0
                (retry_loop env s rounds (suc attempts) began).1
                (ap (stops s (suc attempts)) q ∙ go) (rest (ground arith)))

  -- `execute_with_retry` makes at least one attempt and at most `retry_max` (one if that is 0), records
  -- their number, and returns the outcome of the last one. Each attempt before the last one has failed
  -- in a retryable way, and the last one is a success, a failure that is not retryable, or attempt
  -- number `retry_max`; each starts with the variables that the one before has left. The error
  -- of the unreachable state that ends the source's loop is never its own.
  pub execute_with_retry-Attempted :
      (s : PlanStep R) (c : TaskContext R T)
      → let left = execute_with_retry env s c in Attempted s 1 c.context_vars left.0 left.1
  unfolding execute_with_retry
  execute_with_retry-Attempted s c =
      retry_loop-Attempted s (suc s.retry_max) 0 c (omega arith) (omega arith) (omega arith)
