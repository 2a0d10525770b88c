-- ===== src/Scheduler/Heartbeats.antt =====
-- The sweep over the heartbeats, and what it does to the calls in flight.
use offline_companion_core.Base.{
  ℕ, ◌+◌, ◌≤◌, String, ◌≡◌, refl, sym, ap, subst, ◌∙◌, ◌≢◌, ◌⊎◌, inl, inr, Bool, ltb, ◌&&◌, ◌-◌,
  ◌<◌, Option, true, false, none, some, [], ◌∷◌, arith, if◌then◌else◌, Bool-cases, Option-cases,
  ◌==◌, nat_eq, string_eq, pair_eq,
}
use offline_companion_core.Base.Dict.{
  Dict, Unique, lookup, insert, lookup-insert_self, lookup-insert_ne,
}
use offline_companion_core.Scheduler.Tasks.{
  TaskStatus, TaskError, heartbeat_timeout, Task, Scheduler, is_running,
}
use offline_companion_core.Scheduler.Table.{
  marked_failed, mark_failed, forget, beat, update, refresh_each, refresh_running_heartbeats,
  overdue, sweep_each, heartbeat_sweeper,
}

module _ {P : Type 0} where
  update_missing :
      (id : String) (f : Task P → Task P) (s : Scheduler P)
      → lookup id s.tasks ≡ none
      → update id f s ≡ s
  update_missing id f s q = rw (q, update) refl

  update_present :
      (id : String) (f : Task P → Task P) (s : Scheduler P) (t : Task P)
      → lookup id s.tasks ≡ some t
      → update id f s ≡ record s { tasks = insert id (f t) s.tasks }
  update_present id f s t q = rw (q, update) refl

  update-other :
      (j id : String) (f : Task P → Task P) (s : Scheduler P)
      → j ≢ id
      → lookup id (update j f s).tasks ≡ lookup id s.tasks
  update-other j id f s h = elim (Option-cases (lookup j s.tasks)) [
    | inl q ↦ ap (λ (x : Scheduler P). lookup id x.tasks) (update_missing j f s q)
    | inr (t, q) ↦
        ap (λ (x : Scheduler P). lookup id x.tasks) (update_present j f s t q)
        ∙ lookup-insert_ne j id (f t) s.tasks h
  ]

  update_self :
      (id : String) (f : Task P → Task P) (s : Scheduler P) (t : Task P)
      → lookup id s.tasks ≡ some t
      → lookup id (update id f s).tasks ≡ some (f t)
  update_self id f s t q =
      ap (λ (x : Scheduler P). lookup id x.tasks) (update_present id f s t q)
      ∙ lookup-insert_self id (f t) s.tasks

  mark_failed-other :
      (now : ℕ) (j id : String) (e : TaskError) (s : Scheduler P)
      → j ≢ id
      → lookup id (mark_failed now j e s).tasks ≡ lookup id s.tasks
  unfolding mark_failed
  mark_failed-other now j id e s h = update-other j id (marked_failed now e) s h

  mark_failed_self :
      (now : ℕ) (id : String) (e : TaskError) (s : Scheduler P) (t : Task P)
      → lookup id s.tasks ≡ some t
      → lookup id (mark_failed now id e s).tasks ≡ some (marked_failed now e t)
  unfolding mark_failed
  mark_failed_self now id e s t q = update_self id (marked_failed now e) s t q

  sweep_each-other :
      (now : ℕ) (id : String) (d : Dict String (Task P)) (s : Scheduler P)
      → lookup id d ≡ none
      → lookup id (sweep_each now d s).tasks ≡ lookup id s.tasks
  unfolding sweep_each
  sweep_each-other now id [] s h = refl
  sweep_each-other now id ((j, t) ∷ d) s h = elim (Bool-cases (overdue now t)) [
    | inl q ↦
        rw (q, sweep_each)
          (sweep_each-other now id d (mark_failed now j heartbeat_timeout s) (ground arith)
            ∙ mark_failed-other now j id heartbeat_timeout s
                (ground (arith, string_eq.beq_iff j id)))
    | inr q ↦ rw (q, sweep_each) (sweep_each-other now id d s (ground arith))
  ]

  sweep_each-at :
      (now : ℕ) (id : String) (d : Dict String (Task P)) (s : Scheduler P) (t : Task P)
      → Unique d
      → lookup id d ≡ some t
      → lookup id s.tasks ≡ some t
      → lookup id (sweep_each now d s).tasks
        ≡ some (if overdue now t then marked_failed now heartbeat_timeout t else t)
  unfolding sweep_each
  sweep_each-at now id [] s t u h k = absurd (ground arith)
  sweep_each-at now id ((j, r) ∷ d) s t u h k = elim (Bool-cases (j == id)) [
    | inl q ↦
        let same : r ≡ t = ground arith in
        let gone : lookup id d ≡ none =
          subst (λ i. lookup i d ≡ none) ((string_eq.beq_iff j id).0 q) u.0 in
        let known : lookup j s.tasks ≡ some t =
          subst (λ i. lookup i s.tasks ≡ some t) (sym ((string_eq.beq_iff j id).0 q)) k in
        let failed : lookup id (mark_failed now j heartbeat_timeout s).tasks
            ≡ some (marked_failed now heartbeat_timeout t) =
          subst
            (λ i.
              lookup i (mark_failed now j heartbeat_timeout s).tasks
              ≡ some (marked_failed now heartbeat_timeout t))
            ((string_eq.beq_iff j id).0 q) (mark_failed_self now j heartbeat_timeout s t known) in
        rw same (elim (Bool-cases (overdue now t)) [
          | inl o ↦
              rw (o, sweep_each)
                (sweep_each-other now id d (mark_failed now j heartbeat_timeout s) gone ∙ failed)
          | inr o ↦ rw (o, sweep_each) (sweep_each-other now id d s gone ∙ k)
        ])
    | inr q ↦ elim (Bool-cases (overdue now r)) [
      | inl o ↦
          rw (o, sweep_each)
            (sweep_each-at now id d (mark_failed now j heartbeat_timeout s) t u.1 (ground arith) (
              mark_failed-other now j id heartbeat_timeout s
                (ground (arith, string_eq.beq_iff j id))
              ∙ k))
      | inr o ↦ rw (o, sweep_each) (sweep_each-at now id d s t u.1 (ground arith) k)
    ]
  ]

  heartbeat_sweeper-at :
      (now : ℕ) (id : String) (s : Scheduler P) (t : Task P)
      → Unique s.tasks
      → lookup id s.tasks ≡ some t
      → lookup id (heartbeat_sweeper now s).tasks
        ≡ some (if overdue now t then marked_failed now heartbeat_timeout t else t)
  unfolding heartbeat_sweeper
  heartbeat_sweeper-at now id s t u h = sweep_each-at now id s.tasks s t u h h

  -- The task runs, and its last heartbeat is longer ago than its limit.
  pub data IsSilent (now : ℕ) (t : Task P) : Type 0 where
    silent :
        (beat_at : ℕ)
        → t.status ≡ TaskStatus.running
        → t.last_heartbeat ≡ some beat_at
        → beat_at + t.heartbeat_timeout_sec < now
        → IsSilent now t

  overdue-IsSilent : (now : ℕ) (t : Task P) → overdue now t ≡ true → IsSilent now t
  unfolding overdue
  overdue-IsSilent now t h = by_status t.status t.last_heartbeat refl refl h
    where
      by_status :
          (x : TaskStatus) (o : Option ℕ)
          → t.status ≡ x
          → t.last_heartbeat ≡ o
          → (is_running x && elim o [
            | none ↦ false
            | some beat_at ↦ ltb t.heartbeat_timeout_sec (now - beat_at)
          ])
            ≡ true
          → IsSilent now t
      by_status TaskStatus.running (some b) p q k = silent b p q (ground arith)
      by_status TaskStatus.running none p q k = absurd (ground arith)
      by_status _ _ p q k = absurd (ground arith)

  IsSilent-overdue : (now : ℕ) (t : Task P) → IsSilent now t → overdue now t ≡ true
  unfolding overdue
  IsSilent-overdue now t (silent b p q k) = rw (p, q) (ground arith)

  -- One sweep fails a running task whose last heartbeat is longer ago than its limit: its status is
  -- failed with the time and the reason, and its schedule and its message are kept. It leaves every
  -- other task as it was.
  pub heartbeat_sweeper_decides :
      (now : ℕ) (id : String) (s : Scheduler P) (t : Task P)
      → Unique s.tasks
      → lookup id s.tasks ≡ some t
      → let after = lookup id (heartbeat_sweeper now s).tasks in
        (IsSilent now t
          × (after
              ≡ some (record t {
                status = TaskStatus.failed;
                completed_at = some now;
                last_heartbeat = some now;
                error = some heartbeat_timeout;
              })))
        ⊎ ((¬ IsSilent now t) × (after ≡ some t))
  heartbeat_sweeper_decides now id s t u h =
      let at = heartbeat_sweeper-at now id s t u h in
      elim (Bool-cases (overdue now t)) [
        | inl q ↦ inl (overdue-IsSilent now t q, at ∙ ap (λ b. some (after b)) q)
        | inr q ↦ inr (
          λ k. absurd (ground (arith, IsSilent-overdue now t k)),
          at ∙ ap (λ b. some (after b)) q,
        )
      ]
    where
      after : Bool → Task P
      after b = if b then marked_failed now heartbeat_timeout t else t

  insert-Unique :
      (k : String) (v : Task P) (d : Dict String (Task P)) → Unique d → Unique (insert k v d)
  insert-Unique k v [] u = (refl, tt)
  insert-Unique k v ((j, w) ∷ d) u = elim (Bool-cases (j == k)) [
    | inl q ↦ rw q u
    | inr q ↦ rw q (
      lookup-insert_ne k j v d (λ e. ground (arith, string_eq.beq_iff j k)) ∙ u.0,
      insert-Unique k v d u.1,
    )
  ]

  -- One entry of the calls in flight.
  abbrev refreshed : ℕ → String → Bool → Scheduler P → Scheduler P
  refreshed now id done s = if done then forget id s else update id (beat now) s

  refreshed-Unique :
      (now : ℕ) (id : String) (done : Bool) (s : Scheduler P)
      → Unique s.tasks
      → Unique (refreshed now id done s).tasks
  unfolding forget
  refreshed-Unique now id true s u = u
  refreshed-Unique now id false s u = elim (Option-cases (lookup id s.tasks)) [
    | inl q ↦ subst (λ (x : Scheduler P). Unique x.tasks) (sym (update_missing id (beat now) s q)) u
    | inr (t, q) ↦
        subst (λ (x : Scheduler P). Unique x.tasks) (sym (update_present id (beat now) s t q))
          (insert-Unique id (beat now t) s.tasks u)
  ]

  refreshed-other :
      (now : ℕ) (j id : String) (done : Bool) (s : Scheduler P)
      → j ≢ id
      → lookup id (refreshed now j done s).tasks ≡ lookup id s.tasks
  unfolding forget
  refreshed-other now j id true s h = refl
  refreshed-other now j id false s h = update-other j id (beat now) s h

  refreshed_self :
      (now : ℕ) (id : String) (s : Scheduler P) (t : Task P)
      → lookup id s.tasks ≡ some t
      → lookup id (refreshed now id false s).tasks ≡ some (beat now t)
  refreshed_self now id s t q = update_self id (beat now) s t q

  refresh_each-Unique :
      (now : ℕ) (d : Dict String Bool) (s : Scheduler P)
      → Unique s.tasks
      → Unique (refresh_each now d s).tasks
  unfolding refresh_each
  refresh_each-Unique now [] s u = u
  refresh_each-Unique now ((j, done) ∷ d) s u =
      refresh_each-Unique now d (refreshed now j done s) (refreshed-Unique now j done s u)

  refresh_each-other :
      (now : ℕ) (id : String) (d : Dict String Bool) (s : Scheduler P)
      → lookup id d ≡ none
      → lookup id (refresh_each now d s).tasks ≡ lookup id s.tasks
  unfolding refresh_each
  refresh_each-other now id [] s h = refl
  refresh_each-other now id ((j, done) ∷ d) s h =
      refresh_each-other now id d (refreshed now j done s) (ground arith)
      ∙ refreshed-other now j id done s (ground (arith, string_eq.beq_iff j id))

  refresh_each-at :
      (now : ℕ) (id : String) (d : Dict String Bool) (s : Scheduler P) (t : Task P)
      → Unique d
      → lookup id d ≡ some false
      → lookup id s.tasks ≡ some t
      → lookup id (refresh_each now d s).tasks ≡ some (beat now t)
  unfolding refresh_each
  refresh_each-at now id [] s t u h k = absurd (ground arith)
  refresh_each-at now id ((j, done) ∷ d) s t u h k = elim (Bool-cases (j == id)) [
    | inl q ↦
        let e = (string_eq.beq_iff j id).0 q in
        let gone : lookup id d ≡ none = subst (λ i. lookup i d ≡ none) e u.0 in
        let live : done ≡ false = ground arith in
        rw (live, refresh_each)
          (refresh_each-other now id d (refreshed now j false s) gone
            ∙ subst (λ i. lookup i (refreshed now j false s).tasks ≡ some (beat now t)) e
                (refreshed_self now j s t (subst (λ i. lookup i s.tasks ≡ some t) (sym e) k)))
    | inr q ↦
        refresh_each-at now id d (refreshed now j done s) t u.1 (ground arith)
          (refreshed-other now j id done s (ground (arith, string_eq.beq_iff j id)) ∙ k)
  ]

  -- In the order of the scheduler's loop, the refresh comes before the sweep: a running task whose
  -- call is in flight and not done survives the sweep with the refreshed heartbeat, however old
  -- its last one was, if the sweep follows the refresh within the task's limit.
  pub heartbeat_sweeper-refresh_running_heartbeats :
      (now later : ℕ) (id : String) (s : Scheduler P) (t : Task P)
      → Unique s.tasks
      → Unique s.running_futures
      → lookup id s.running_futures ≡ some false
      → lookup id s.tasks ≡ some t
      → is_running t.status ≡ true
      → later ≤ now + t.heartbeat_timeout_sec
      → lookup id (heartbeat_sweeper later (refresh_running_heartbeats now s)).tasks
        ≡ some (record t { last_heartbeat = some now })
  unfolding refresh_running_heartbeats overdue
  heartbeat_sweeper-refresh_running_heartbeats now later id s t u v f h r soon =
      let at = refresh_each-at now id s.running_futures s t v f h in
      let kept =
        heartbeat_sweeper-at later id (refresh_each now s.running_futures s) (beat now t)
          (refresh_each-Unique now s.running_futures s u) at in
      ground arith
