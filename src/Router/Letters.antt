-- ===== src/Router/Letters.antt =====
-- What a dispatch leaves in the dead letter queue.
use offline_companion_core.Base.{
  ℕ, zero, suc, ◌≡◌, refl, sym, ap, subst, ◌⊎◌, inl, inr, Bool, true, false, not, ◌&&◌, Option,
  none, some, List, [], ◌∷◌, ◌++◌, arith, ltb, Bool-cases, Option-cases, is_some, nat_eq, string_eq,
  pair_eq,
}
use offline_companion_core.Router.Messages.{Message, namespace}
use offline_companion_core.Router.Dispatch.{
  Outcome, returned, conflict, timed_out, raised, ErrorPayload, sqlite_conflict, timeout_error,
  handler_error, RecordStatus, ExecutionRecord, DeadLetter, ExecutionStatus, ExecutionResult,
  Finished, finished, not_serializable, MessageRouter, Runtime, storable, key_of, map_option,
  check_idempotency, record_execution, send_to_dlq, session_lock, route, row, complete, give_up,
  Loop, should_retry_background, retry_handler, after_call, dispatch_loop, dispatch,
}

abbrev pub is_failure : ExecutionStatus → Bool
is_failure ExecutionStatus.failed = true
is_failure ExecutionStatus.timeout = true
is_failure _ = false

module _ {P R H A : Type 0} where
  abbrev pub letters : MessageRouter P R H A → List DeadLetter
  letters s = elim s.conn [ none ↦ [] | some d ↦ d.dead_letter_queue ]

module _ {P R H A : Type 0} (env : Runtime P R H A) (m : Message P) (ls : List DeadLetter) where
  -- Where the queue was `ls`: a failure or a time-out adds one letter with the message and the error
  -- of the result, and any other end adds none.
  abbrev pub Filed : MessageRouter P R H A → Finished R → Type 0
  Filed t not_serializable = letters t ≡ ls
  Filed t (finished e) =
      ((is_failure e.status ≡ false) × (letters t ≡ ls))
      ⊎ ((is_failure e.status ≡ true)
          × ((l : DeadLetter) × (letters t ≡ ls ++ l ∷ [])
              × (e.error ≡ some l.error)
              × (l.original_message_id ≡ m.message_id)))

  abbrev Ends : Option (MessageRouter P R H A × Finished R) → Type 0
  Ends none = Unit {0}
  Ends (some (t, f)) = Filed t f

  -- The router has a database, and the queue is `ls`.
  abbrev Before : MessageRouter P R H A → Type 0
  Before s = (is_some s.conn ≡ true) × (letters s ≡ ls)

  record_execution-Before :
      (x : ExecutionRecord R) (s : MessageRouter P R H A)
      → Before s
      → Before (record_execution m x s)
  unfolding record_execution
  record_execution-Before x s b = ground arith

  duplicate-Filed :
      (s : MessageRouter P R H A) (e : ExecutionResult R)
      → Before s
      → check_idempotency m s ≡ some e
      → Filed s (finished e)
  unfolding check_idempotency
  duplicate-Filed s e b h = let fine : is_failure e.status ≡ false = ground arith in inl (fine, b.1)

  complete-Filed :
      (r : Option R) (s : MessageRouter P R H A)
      → Before s
      → Filed (complete env m r s).0 (complete env m r s).1
  unfolding complete
  complete-Filed r s b =
      let kept =
        record_execution-Before (row env RecordStatus.completed (map_option env.reload r) none) s
          b in
      elim (Bool-cases
        (is_some s.conn && is_some (key_of m) && not (storable env.serializable r))) [
          | inl u ↦ rw u (b.1)
          | inr u ↦ rw u (inl (refl, kept.1))
        ]

  send_to_dlq-letters :
      (e : ErrorPayload) (n : ℕ) (s : MessageRouter P R H A)
      → Before s
      → (l : DeadLetter) × (letters (send_to_dlq m e n s) ≡ ls ++ l ∷ [])
        × (l.error ≡ e)
        × (l.original_message_id ≡ m.message_id)
  unfolding send_to_dlq
  send_to_dlq-letters e n s b = (
    record {
      original_message_id = m.message_id;
      session_id = m.session_id;
      queue_type = m.queue_type;
      handler_namespace = namespace m.topic;
      error = e;
      retry_count = n;
    },
    ground arith,
    refl,
    refl,
  )

  give_up-Filed :
      (status : ExecutionStatus) (e : ErrorPayload) (n : ℕ) (s : MessageRouter P R H A)
      → is_failure status ≡ true
      → Before s
      → Filed (give_up env m status e n s).0 (give_up env m status e n s).1
  unfolding give_up
  give_up-Filed status e n s bad b =
      let x = row env RecordStatus.failed none (some e) in
      let l = send_to_dlq-letters e n (record_execution m x s) (record_execution-Before x s b) in
      inr (bad, (l.0, l.1, ap some (sym (l.2)), l.3))

  retry_handler-Filed :
      (go : Loop env) (status : ExecutionStatus) (e : ErrorPayload) (cr hr : ℕ)
      (s : MessageRouter P R H A)
      → is_failure status ≡ true
      → Ends (go cr (suc hr) s)
      → Before s
      → Ends (retry_handler env go m status e cr hr s)
  unfolding retry_handler
  retry_handler-Filed go status e cr hr s bad again b = elim (Bool-cases (ltb hr 1)) [
    | inr u ↦ rw u (give_up-Filed status e hr s bad b)
    | inl u ↦ elim (Option-cases (check_idempotency m s)) [
      | inl v ↦ rw u (rw v again)
      | inr (d, v) ↦ rw u (rw v (duplicate-Filed s d b v))
    ]
  ]

  after_call-Filed :
      (go : Loop env) (cr hr : ℕ) (s : MessageRouter P R H A) (o : Outcome R)
      → ((a c : ℕ) → Ends (go a c s))
      → Before s
      → Ends (after_call env go m cr hr (s, o))
  unfolding after_call
  after_call-Filed go cr hr s (returned r) again b = complete-Filed r s b
  after_call-Filed go cr hr s (conflict locked text) again b =
      elim (Bool-cases (should_retry_background env m locked cr)) [
        | inl u ↦ rw u (again (suc cr) hr)
        | inr u ↦ rw u (give_up-Filed ExecutionStatus.failed (sqlite_conflict text) cr s refl b)
      ]
  after_call-Filed go cr hr s (timed_out text) again b =
      retry_handler-Filed go ExecutionStatus.timeout (timeout_error text) cr hr s refl
        (again cr (suc hr)) b
  after_call-Filed go cr hr s (raised f) again b =
      retry_handler-Filed go ExecutionStatus.failed (handler_error f) cr hr s refl
        (again cr (suc hr)) b

  route-Before : (s : MessageRouter P R H A) → Before s → Before (route env m s).0
  unfolding route
  route-Before s b = ground arith

  dispatch_loop-Filed :
      (fuel cr hr : ℕ) (s : MessageRouter P R H A)
      → Before s
      → Ends (dispatch_loop env fuel m cr hr s)
  unfolding dispatch_loop
  dispatch_loop-Filed zero cr hr s b = tt
  dispatch_loop-Filed (suc fuel) cr hr s b = elim (Option-cases (check_idempotency m s)) [
    | inr (d, v) ↦ rw (v, dispatch_loop) (duplicate-Filed s d b v)
    | inl v ↦
        let x = row env RecordStatus.executing none none in
        let t = route env m (record_execution m x s) in
        let b' = route-Before (record_execution m x s) (record_execution-Before x s b) in
        rw (v, dispatch_loop)
          (after_call-Filed (dispatch_loop env fuel m) cr hr t.0 t.1
            (λ a c. dispatch_loop-Filed fuel a c t.0 b') b')
  ]

  session_lock-Before : (s : MessageRouter P R H A) → Before s → Before (session_lock m s)
  unfolding session_lock
  session_lock-Before s b = ground arith

  -- Over a database whose dead letter queue was `ls`: a dispatch that ends as failed or timed out
  -- has added exactly one letter, for this message and with the error of the result; a dispatch
  -- with any other end has added none.
  pub dispatch-Filed :
      (s t : MessageRouter P R H A) (f : Finished R)
      → is_some s.conn ≡ true
      → letters s ≡ ls
      → dispatch env m s ≡ some (t, f)
      → Filed t f
  unfolding dispatch
  dispatch-Filed s t f c q h = subst Ends h ended
    where
      ended : Ends (dispatch env m s)
      ended = elim (Option-cases (check_idempotency m s)) [
        | inr (d, v) ↦ rw (v, dispatch) (duplicate-Filed s d (c, q) v)
        | inl v ↦
            rw (v, dispatch)
              (dispatch_loop-Filed 5 0 0 (session_lock m s) (session_lock-Before s (c, q)))
      ]
