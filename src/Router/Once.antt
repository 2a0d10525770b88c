-- ===== src/Router/Once.antt =====
-- A message with a key is executed once: after a completed dispatch every message with the same key
-- is answered from the table.
use offline_companion_core.Base.{
  ℕ, zero, suc, String, ◌≡◌, refl, ap, subst, ◌∙◌, ◌≢◌, ◌⊎◌, inl, inr, Bool, true, false, not, ◌&&◌,
  Option, none, some, arith, ltb, Bool-cases, Option-cases, is_some, ◌==◌, nat_eq, string_eq,
  pair_eq, ok,
}
use offline_companion_core.Base.Dict.{insert, lookup-insert_self, lookup-insert_ne}
use offline_companion_core.Router.Messages.{Message}
use offline_companion_core.Router.Dispatch.{
  Outcome, returned, conflict, timed_out, raised, ErrorPayload, sqlite_conflict, timeout_error,
  handler_error, RecordStatus, ExecutionRecord, Database, ExecutionStatus, ExecutionResult,
  Finished, finished, not_serializable, MessageRouter, Runtime, storable, key_of, map_option,
  register, register_wildcard, register_auto_router, close, execution_record, check_idempotency,
  record_execution, send_to_dlq, session_lock, route, row, complete, give_up, Loop,
  should_retry_background, retry_handler, after_call, dispatch_loop, dispatch,
}

module _ {P R H A : Type 0} where
  -- The row of the key is completed, and holds `r` and no error.
  abbrev pub Done : String → Option R → MessageRouter P R H A → Type 0
  Done k r s =
      execution_record k s
      ≡ some (record { status = RecordStatus.completed; result = r; error = none })

  check_idempotency-Done :
      (m : Message P) (k : String) (r : Option R) (s : MessageRouter P R H A)
      → key_of m ≡ some k
      → Done k r s
      → check_idempotency m s
        ≡ some (record {
          message_id = m.message_id;
          status = ExecutionStatus.skipped_duplicate;
          result = r;
          error = none;
          idempotency_key = m.idempotency_key;
        })
  unfolding check_idempotency
  check_idempotency-Done m k r s e d = ground arith

  pub record_execution-keyed :
      (m : Message P) (k : String) (x : ExecutionRecord R) (s : MessageRouter P R H A)
      (d : Database R)
      → s.conn ≡ some d
      → key_of m ≡ some k
      → record_execution m x s
        ≡ record s { conn = some (record d { execution_records = insert k x d.execution_records }) }
  unfolding record_execution
  record_execution-keyed m k x s d q u = rw (q, record_execution) (rw u refl)

  -- A row of another key is left alone.
  record_execution-other :
      (m : Message P) (k : String) (x : ExecutionRecord R) (s : MessageRouter P R H A)
      → key_of m ≢ some k
      → execution_record k (record_execution m x s) ≡ execution_record k s
  unfolding record_execution
  record_execution-other m k x s ne = elim (Option-cases s.conn) [
    | inl q ↦ rw (q, record_execution) (rw q refl)
    | inr (d, q) ↦ elim (Option-cases (key_of m)) [
      | inl u ↦ rw (q, record_execution) (rw u (rw q refl))
      | inr (j, u) ↦
          ap (execution_record k) (record_execution-keyed m j x s d q u)
          ∙ lookup-insert_ne j k x d.execution_records (λ e. ne (u ∙ ap some e))
          ∙ rw q
    ]
  ]

  send_to_dlq-execution_record :
      (m : Message P) (k : String) (e : ErrorPayload) (n : ℕ) (s : MessageRouter P R H A)
      → execution_record k (send_to_dlq m e n s) ≡ execution_record k s
  unfolding send_to_dlq
  send_to_dlq-execution_record m k e n s = ground arith

  session_lock-execution_record :
      (m : Message P) (k : String) (s : MessageRouter P R H A)
      → execution_record k (session_lock m s) ≡ execution_record k s
  unfolding session_lock
  session_lock-execution_record m k s = ground arith

  module _ (env : Runtime P R H A) where
    route-execution_record :
        (m : Message P) (k : String) (s : MessageRouter P R H A)
        → execution_record k (route env m s).0 ≡ execution_record k s
    unfolding route
    route-execution_record m k s = ground arith

    -- What every part of a dispatch keeps holds at its end.
    module _ (Q : MessageRouter P R H A → Type 0) (m : Message P)
        (keep_row : (x : ExecutionRecord R) (s : MessageRouter P R H A)
          → Q s
          → Q (record_execution m x s))
        (keep_letter : (e : ErrorPayload) (n : ℕ) (s : MessageRouter P R H A)
          → Q s
          → Q (send_to_dlq m e n s))
        (keep_route : (s : MessageRouter P R H A) → Q s → Q (route env m s).0)
        (keep_lock : (s : MessageRouter P R H A) → Q s → Q (session_lock m s)) where
      abbrev Ends : Option (MessageRouter P R H A × Finished R) → Type 0
      Ends none = Unit {0}
      Ends (some (s, f)) = Q s

      give_up-keeps :
          (status : ExecutionStatus) (e : ErrorPayload) (n : ℕ) (s : MessageRouter P R H A)
          → Q s
          → Q (give_up env m status e n s).0
      unfolding give_up
      give_up-keeps status e n s q =
          keep_letter e n (record_execution m (row env RecordStatus.failed none (some e)) s)
            (keep_row (row env RecordStatus.failed none (some e)) s q)

      complete-keeps : (r : Option R) (s : MessageRouter P R H A) → Q s → Q (complete env m r s).0
      unfolding complete
      complete-keeps r s q =
          elim (Bool-cases
            (is_some s.conn && is_some (key_of m) && not (storable env.serializable r))) [
              | inl u ↦ rw u q
              | inr u ↦
                  rw u
                    (keep_row (row env RecordStatus.completed (map_option env.reload r) none) s q)
            ]

      retry_handler-keeps :
          (go : Loop env) (status : ExecutionStatus) (e : ErrorPayload) (cr hr : ℕ)
          (s : MessageRouter P R H A)
          → ((a b : ℕ) (t : MessageRouter P R H A) → Q t → Ends (go a b t))
          → Q s
          → Ends (retry_handler env go m status e cr hr s)
      unfolding retry_handler
      retry_handler-keeps go status e cr hr s keep q = elim (Bool-cases (ltb hr 1)) [
        | inr u ↦ rw u (give_up-keeps status e hr s q)
        | inl u ↦ elim (Option-cases (check_idempotency m s)) [
          | inl v ↦ rw u (rw v (keep cr (suc hr) s q))
          | inr (d, v) ↦ rw u (rw v q)
        ]
      ]

      after_call-keeps :
          (go : Loop env) (cr hr : ℕ) (s : MessageRouter P R H A) (o : Outcome R)
          → ((a b : ℕ) (t : MessageRouter P R H A) → Q t → Ends (go a b t))
          → Q s
          → Ends (after_call env go m cr hr (s, o))
      unfolding after_call
      after_call-keeps go cr hr s (returned r) keep q = complete-keeps r s q
      after_call-keeps go cr hr s (conflict locked text) keep q =
          elim (Bool-cases (should_retry_background env m locked cr)) [
            | inl u ↦ rw u (keep (suc cr) hr s q)
            | inr u ↦ rw u (give_up-keeps ExecutionStatus.failed (sqlite_conflict text) cr s q)
          ]
      after_call-keeps go cr hr s (timed_out text) keep q =
          retry_handler-keeps go ExecutionStatus.timeout (timeout_error text) cr hr s keep q
      after_call-keeps go cr hr s (raised f) keep q =
          retry_handler-keeps go ExecutionStatus.failed (handler_error f) cr hr s keep q

      dispatch_loop-keeps :
          (fuel cr hr : ℕ) (s : MessageRouter P R H A)
          → Q s
          → Ends (dispatch_loop env fuel m cr hr s)
      unfolding dispatch_loop
      dispatch_loop-keeps zero cr hr s q = tt
      dispatch_loop-keeps (suc fuel) cr hr s q = elim (Option-cases (check_idempotency m s)) [
        | inr (d, v) ↦ rw (v, dispatch_loop) q
        | inl v ↦
            let started = record_execution m (row env RecordStatus.executing none none) s in
            rw (v, dispatch_loop)
              (after_call-keeps (dispatch_loop env fuel m) cr hr (route env m started).0
                (route env m started).1 (λ a b t. dispatch_loop-keeps fuel a b t)
                (keep_route started (keep_row (row env RecordStatus.executing none none) s q)))
      ]

      pub dispatch-keeps :
          (s t : MessageRouter P R H A) (f : Finished R)
          → dispatch env m s ≡ some (t, f)
          → Q s
          → Q t
      unfolding dispatch
      dispatch-keeps s t f h q = subst Ends h (kept)
        where
          kept : Ends (dispatch env m s)
          kept = elim (Option-cases (check_idempotency m s)) [
            | inr (d, v) ↦ rw (v, dispatch) q
            | inl v ↦
                rw (v, dispatch) (dispatch_loop-keeps 5 0 0 (session_lock m s) (keep_lock s q))
          ]

    -- A completed row outlives every dispatch.
    dispatch-Done :
        (m : Message P) (k : String) (r : Option R) (s t : MessageRouter P R H A) (f : Finished R)
        → dispatch env m s ≡ some (t, f)
        → Done k r s
        → Done k r t
    unfolding dispatch
    dispatch-Done m k r s t f h d = elim (Option-cases (key_of m)) [
      | inl q ↦ kept (λ e. ground arith)
      | inr (j, q) ↦ elim (Bool-cases (j == k)) [
        | inr u ↦ kept (λ e. ground (arith, string_eq.beq_iff j k))
        | inl u ↦
            let found =
              check_idempotency-Done m k r s (q ∙ ap some ((string_eq.beq_iff j k).0 u)) d in
            let same : s ≡ t = ground arith in subst (Done k r) same d
      ]
    ]
      where
        kept : key_of m ≢ some k → Done k r t
        kept ne =
            dispatch-keeps (Done k r) m (λ x s p. record_execution-other m k x s ne ∙ p)
              (λ e n s p. send_to_dlq-execution_record m k e n s ∙ p)
              (λ s p. route-execution_record m k s ∙ p)
              (λ s p. session_lock-execution_record m k s ∙ p) s t f h d

    abbrev is_completed_result : ExecutionStatus → Bool
    is_completed_result ExecutionStatus.completed = true
    is_completed_result _ = false

    -- A dispatch that ends with a completed result leaves a completed row.
    module _ (m : Message P) (k : String) (keyed : key_of m ≡ some k) where
      abbrev Settled : Option (MessageRouter P R H A × Finished R) → Type 0
      Settled none = Unit {0}
      Settled (some (t, not_serializable)) = Unit {0}
      Settled (some (t, finished e)) =
          (is_completed_result e.status ≡ false) ⊎ Done k (map_option env.reload e.result) t

      duplicate-Settled :
          (s : MessageRouter P R H A) (e : ExecutionResult R)
          → check_idempotency m s ≡ some e
          → is_completed_result e.status ≡ false
      unfolding check_idempotency
      duplicate-Settled s e h = ground arith

      complete-Settled :
          (r : Option R) (s : MessageRouter P R H A)
          → is_some s.conn ≡ true
          → Settled (some (complete env m r s))
      unfolding complete
      complete-Settled r s c = elim (Option-cases s.conn) [
        | inl q ↦ absurd (ground arith)
        | inr (d, q) ↦
            let x = row env RecordStatus.completed (map_option env.reload r) none in
            let done : Done k (map_option env.reload r) (record_execution m x s) =
              ap (execution_record k) (record_execution-keyed m k x s d q keyed)
              ∙ lookup-insert_self k x d.execution_records in
            elim (Bool-cases
              (is_some s.conn && is_some (key_of m) && not (storable env.serializable r))) [
                | inl u ↦ rw u tt
                | inr u ↦ rw u (inr done)
              ]
      ]

      retry_handler-Settled :
          (go : Loop env) (status : ExecutionStatus) (e : ErrorPayload) (cr hr : ℕ)
          (s : MessageRouter P R H A)
          → is_completed_result status ≡ false
          → Settled (go cr (suc hr) s)
          → Settled (retry_handler env go m status e cr hr s)
      unfolding retry_handler give_up
      retry_handler-Settled go status e cr hr s fine again = elim (Bool-cases (ltb hr 1)) [
        | inr u ↦ rw u (inl fine)
        | inl u ↦ elim (Option-cases (check_idempotency m s)) [
          | inl v ↦ rw u (rw v again)
          | inr (d, v) ↦ rw u (rw v (inl (duplicate-Settled s d v)))
        ]
      ]

      after_call-Settled :
          (go : Loop env) (cr hr : ℕ) (s : MessageRouter P R H A) (o : Outcome R)
          → ((a b : ℕ) → Settled (go a b s))
          → is_some s.conn ≡ true
          → Settled (after_call env go m cr hr (s, o))
      unfolding after_call give_up
      after_call-Settled go cr hr s (returned r) again c = complete-Settled r s c
      after_call-Settled go cr hr s (conflict locked text) again c =
          elim (Bool-cases (should_retry_background env m locked cr)) [
            | inl u ↦ rw u (again (suc cr) hr)
            | inr u ↦ rw u (inl refl)
          ]
      after_call-Settled go cr hr s (timed_out text) again c =
          retry_handler-Settled go ExecutionStatus.timeout (timeout_error text) cr hr s refl
            (again cr (suc hr))
      after_call-Settled go cr hr s (raised f) again c =
          retry_handler-Settled go ExecutionStatus.failed (handler_error f) cr hr s refl
            (again cr (suc hr))

      started-conn :
          (s : MessageRouter P R H A) (x : ExecutionRecord R)
          → is_some s.conn ≡ true
          → is_some (route env m (record_execution m x s)).0.conn ≡ true
      unfolding route record_execution
      started-conn s x c = ground arith

      dispatch_loop-Settled :
          (fuel cr hr : ℕ) (s : MessageRouter P R H A)
          → is_some s.conn ≡ true
          → Settled (dispatch_loop env fuel m cr hr s)
      unfolding dispatch_loop
      dispatch_loop-Settled zero cr hr s c = tt
      dispatch_loop-Settled (suc fuel) cr hr s c = elim (Option-cases (check_idempotency m s)) [
        | inr (d, v) ↦ rw (v, dispatch_loop) (inl (duplicate-Settled s d v))
        | inl v ↦
            let x = row env RecordStatus.executing none none in
            let t = route env m (record_execution m x s) in
            rw (v, dispatch_loop)
              (after_call-Settled (dispatch_loop env fuel m) cr hr t.0 t.1
                (λ a b. dispatch_loop-Settled fuel a b t.0 (started-conn s x c))
                (started-conn s x c))
      ]

      dispatch-Settled :
          (s : MessageRouter P R H A) → is_some s.conn ≡ true → Settled (dispatch env m s)
      unfolding dispatch session_lock
      dispatch-Settled s c = elim (Option-cases (check_idempotency m s)) [
        | inr (d, v) ↦ rw (v, dispatch) (inl (duplicate-Settled s d v))
        | inl v ↦ rw (v, dispatch) (dispatch_loop-Settled 5 0 0 (session_lock m s) (ground arith))
      ]

    -- The calls on a router.
    pub data Step (s : MessageRouter P R H A) : MessageRouter P R H A → Type 0 where
      dispatches :
          (n : Message P) (t : MessageRouter P R H A) (f : Finished R)
          → dispatch env n s ≡ some (t, f)
          → Step s t
      registers :
          (name : String) (h : H) (t : MessageRouter P R H A) → register name h s ≡ ok t → Step s t
      registers_wildcard : (h : H) → Step s (register_wildcard h s)
      registers_auto_router : (a : A) → Step s (register_auto_router a s)
      closes : Step s (close s)

    pub data Reach (s : MessageRouter P R H A) : MessageRouter P R H A → Type 0 where
      here : Reach s s
      next : {t u : MessageRouter P R H A} → Reach s t → Step t u → Reach s u

    Step-Done :
        (k : String) (r : Option R) {s t : MessageRouter P R H A}
        → Step s t
        → Done k r s
        → Done k r t
    unfolding register register_wildcard register_auto_router close
    Step-Done k r {s} (dispatches n t f h) d = dispatch-Done n k r s t f h d
    Step-Done k r (registers name h t e) d = ground arith
    Step-Done k r (registers_wildcard h) d = d
    Step-Done k r (registers_auto_router a) d = d
    Step-Done k r closes d = d

    Reach-Done :
        (k : String) (r : Option R) {s t : MessageRouter P R H A}
        → Reach s t
        → Done k r s
        → Done k r t
    Reach-Done k r here d = d
    Reach-Done k r (next p st) d = Step-Done k r st (Reach-Done k r p d)

    -- Once a dispatch of a message with a key has ended with a completed result, on a router with a
    -- database, every later dispatch of a message with that key calls no handler and changes
    -- nothing, whatever has been dispatched or registered in between: it answers with the stored
    -- result as a skipped duplicate.
    pub dispatch_once :
        (m n : Message P) (k : String) (s t u : MessageRouter P R H A) (e : ExecutionResult R)
        → is_some s.conn ≡ true
        → key_of m ≡ some k
        → key_of n ≡ some k
        → dispatch env m s ≡ some (t, finished e)
        → e.status ≡ ExecutionStatus.completed
        → Reach t u
        → dispatch env n u
          ≡ some (
            u,
            finished (record {
              message_id = n.message_id;
              status = ExecutionStatus.skipped_duplicate;
              result = map_option env.reload e.result;
              error = none;
              idempotency_key = n.idempotency_key;
            }),
          )
    unfolding dispatch
    dispatch_once m n k s t u e c km kn h done reach =
        let settled = subst (Settled m k km) h (dispatch-Settled m k km s c) in
        elim settled [
          | inl other ↦ absurd (ground arith)
          | inr row_done ↦
              let found =
                check_idempotency-Done n k (map_option env.reload e.result) u kn
                  (Reach-Done k (map_option env.reload e.result) reach row_done) in
              rw (found, dispatch) refl
        ]
