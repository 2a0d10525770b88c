-- ===== src/Router/Attempts.antt =====
-- How often a dispatch calls a handler, and what it leaves when it gives up.
use offline_companion_core.Base.{
  ℕ, zero, suc, ◌+◌, ◌-◌, ◌≤◌, ◌<◌, ◌≡◌, ap, subst, inl, inr, ◌&&◌, Option, none, some, [], ◌∷◌,
  arith, ltb, if◌then◌else◌, Bool-cases, Option-cases, length, length-append, nat_eq, string_eq,
  pair_eq, Result-cases,
}
use offline_companion_core.Base.Text.{strip}
use offline_companion_core.Router.Messages.{Message, namespace}
use offline_companion_core.Router.Dispatch.{
  Outcome, returned, conflict, timed_out, raised, ErrorPayload, sqlite_conflict, timeout_error,
  handler_error, RecordStatus, ExecutionRecord, ExecutionStatus, Finished, MessageRouter, Runtime,
  check_idempotency, record_execution, send_to_dlq, session_lock, auto_routed, handler_for, route,
  row, complete, give_up, Loop, should_retry_background, retry_handler, after_call, dispatch_loop,
  dispatch, is_background, max_conflict_retries,
}

module _ {P R H A : Type 0} (env : Runtime P R H A) (m : Message P) where
  -- The retries that are left.
  abbrev left : ℕ → ℕ → ℕ
  left cr hr = (max_conflict_retries env m - cr) + (1 - hr)

  -- The loop comes to an end with at most `n` more calls than there were.
  abbrev Ends : ℕ → Option (MessageRouter P R H A × Finished R) → Type 0
  Ends n none = ⊥
  Ends n (some (t, f)) = length t.calls ≤ n

  complete-calls :
      (r : Option R) (s : MessageRouter P R H A)
      → length (complete env m r s).0.calls ≤ length s.calls
  unfolding complete record_execution
  complete-calls r s = ground arith

  give_up-calls :
      (status : ExecutionStatus) (e : ErrorPayload) (k : ℕ) (s : MessageRouter P R H A)
      → length (give_up env m status e k s).0.calls ≤ length s.calls
  unfolding give_up record_execution send_to_dlq
  give_up-calls status e k s = ground arith

  retry_handler-Ends :
      (go : Loop env) (status : ExecutionStatus) (e : ErrorPayload) (cr hr n : ℕ)
      (s : MessageRouter P R H A)
      → (hr < 1 → Ends n (go cr (suc hr) s))
      → length s.calls ≤ n
      → Ends n (retry_handler env go m status e cr hr s)
  unfolding retry_handler
  retry_handler-Ends go status e cr hr n s again le = elim (Bool-cases (ltb hr 1)) [
    | inr u ↦ rw u (omega (arith, give_up-calls status e hr s))
    | inl u ↦ elim (Option-cases (check_idempotency m s)) [
      | inl v ↦ rw u (rw v (again (ground arith)))
      | inr (d, v) ↦ rw u (rw v le)
    ]
  ]

  after_call-Ends :
      (go : Loop env) (cr hr n : ℕ) (s : MessageRouter P R H A) (o : Outcome R)
      → (hr < 1 → Ends n (go cr (suc hr) s))
      → (cr < max_conflict_retries env m → Ends n (go (suc cr) hr s))
      → length s.calls ≤ n
      → Ends n (after_call env go m cr hr (s, o))
  unfolding after_call should_retry_background
  after_call-Ends go cr hr n s (returned r) slow busy le = omega (arith, complete-calls r s)
  after_call-Ends go cr hr n s (conflict locked text) slow busy le =
      elim (Bool-cases (is_background m && ltb cr (max_conflict_retries env m) && locked)) [
        | inl u ↦ rw u (busy (ground arith))
        | inr u ↦
            rw u (omega (arith, give_up-calls ExecutionStatus.failed (sqlite_conflict text) cr s))
      ]
  after_call-Ends go cr hr n s (timed_out text) slow busy le =
      retry_handler-Ends go ExecutionStatus.timeout (timeout_error text) cr hr n s slow le
  after_call-Ends go cr hr n s (raised f) slow busy le =
      retry_handler-Ends go ExecutionStatus.failed (handler_error f) cr hr n s slow le

  record_execution-calls :
      (s : MessageRouter P R H A) (x : ExecutionRecord R) → (record_execution m x s).calls ≡ s.calls
  unfolding record_execution
  record_execution-calls s x = ground arith

  route-calls : (s : MessageRouter P R H A) → length (route env m s).0.calls ≤ suc (length s.calls)
  unfolding route
  route-calls s = elim (Result-cases (auto_routed env m s)) [
    | inr (e, q) ↦ ground arith
    | inl (n, q) ↦ elim (Option-cases (handler_for (strip (namespace m.topic)) s)) [
      | inl u ↦ ground arith
      | inr (h, u) ↦ ground (arith, length-append s.calls ((h, n) ∷ []))
    ]
  ]

  started-calls :
      (s : MessageRouter P R H A) (x : ExecutionRecord R)
      → length (route env m (record_execution m x s)).0.calls ≤ suc (length s.calls)
  started-calls s x =
      omega (arith, route-calls (record_execution m x s), ap length (record_execution-calls s x))

  Ends-le :
      (n k : ℕ) (o : Option (MessageRouter P R H A × Finished R)) → n ≤ k → Ends n o → Ends k o
  Ends-le n k none le e = e
  Ends-le n k (some (t, f)) le e = omega arith

  dispatch_loop-Ends :
      (fuel cr hr : ℕ) (s : MessageRouter P R H A)
      → left cr hr < fuel
      → Ends (length s.calls + suc (left cr hr)) (dispatch_loop env fuel m cr hr s)
  unfolding dispatch_loop
  dispatch_loop-Ends zero cr hr s enough = absurd (omega arith)
  dispatch_loop-Ends (suc fuel) cr hr s enough = elim (Option-cases (check_idempotency m s)) [
    | inr (d, v) ↦ rw (v, dispatch_loop) (omega arith)
    | inl v ↦
        let x = row env RecordStatus.executing none none in
        let t = route env m (record_execution m x s) in
        let called = started-calls s x in
        let n = length s.calls + suc (left cr hr) in
        rw (v, dispatch_loop)
          (after_call-Ends (dispatch_loop env fuel m) cr hr n t.0 t.1
            (λ h.
              Ends-le (length t.0.calls + suc (left cr (suc hr))) n
                (dispatch_loop env fuel m cr (suc hr) t.0) (omega arith)
                (dispatch_loop-Ends fuel cr (suc hr) t.0 (omega arith)))
            (λ h.
              Ends-le (length t.0.calls + suc (left (suc cr) hr)) n
                (dispatch_loop env fuel m (suc cr) hr t.0) (omega arith)
                (dispatch_loop-Ends fuel (suc cr) hr t.0 (omega arith)))
            (omega arith))
  ]

  -- A dispatch always ends, and calls handlers at most twice, or five times for a message of the
  -- background queue, however the handlers behave.
  pub dispatch_bounded :
      (s : MessageRouter P R H A)
      → (t : MessageRouter P R H A) × (f : Finished R) × (dispatch env m s ≡ some (t, f))
        × (length t.calls ≤ length s.calls + (if is_background m then 5 else 2))
  unfolding dispatch session_lock
  dispatch_bounded s = elim (Option-cases (dispatch env m s)) [
    | inl q ↦ absurd (subst (Ends n) q ended)
    | inr (r, q) ↦ (r.0, r.1, q, subst (Ends n) q ended)
  ]
    where
      n : ℕ
      n = length s.calls + (if is_background m then 5 else 2)

      ended : Ends n (dispatch env m s)
      ended = elim (Option-cases (check_idempotency m s)) [
        | inr (d, v) ↦ rw (v, dispatch) (omega arith)
        | inl v ↦
            rw (v, dispatch)
              (Ends-le (length (session_lock m s).calls + suc (left 0 0)) n
                (dispatch_loop env 5 m 0 0 (session_lock m s)) (ground arith)
                (dispatch_loop-Ends 5 0 0 (session_lock m s) (ground arith)))
      ]
