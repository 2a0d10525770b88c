-- ===== src/Router/Dispatch.antt =====
-- `MessageRouter`, shell/message_router.py, with its two tables. `H` stands for the handlers, `A` for
-- the auto router, `R` for the values that handlers return other than `None`. A call of a handler is
-- logged in `calls`; it may behave otherwise each time, and changes nothing of the router. A call that
-- takes too long shows as the outcome `timed_out`: what its thread does later is not represented. The
-- operations of SQLite outside the handlers are taken to succeed, and the payload of a dead letter, which
-- is not kept here, to have a JSON text. Of the two tables the columns that are read are kept.
use offline_companion_core.Base.{
  ℕ, zero, suc, ◌+◌, String, Bool, true, false, not, ◌&&◌, ◌||◌, Option, none, some, List, [], ◌∷◌,
  ◌++◌, ltb, if◌then◌else◌, is_some, length, ◌==◌, nat_eq, string_eq, pair_eq, contains, Result, ok,
  err, ◌>>◌, guard,
}
use offline_companion_core.Base.Text.{is_empty, strip, or_else, cut_at}
use offline_companion_core.Base.Dict.{Dict, lookup, insert}
use offline_companion_core.Router.Messages.{Message, namespace, with_meta}

pub data Failure : Type 0 where
  no_namespace shell_only auto_route_failed bad_meta : Failure
  no_handler handler_failed : String → Failure

-- `conflict` is `sqlite3.OperationalError`, with whether its text says "locked".
pub data Outcome (R : Type 0) : Type 0 where
  returned : Option R → Outcome R
  conflict : Bool → String → Outcome R
  timed_out : String → Outcome R
  raised : Failure → Outcome R

pub data ErrorPayload : Type 0 where
  sqlite_conflict timeout_error : String → ErrorPayload
  handler_error : Failure → ErrorPayload

pub data RecordStatus : Type 0 where
  executing completed failed : RecordStatus

-- A row of `message_execution_records`, behind its primary key.
pub record ExecutionRecord (R : Type 0) : Type 0 where
  pub status : RecordStatus
  pub result : Option R
  pub error : Option ErrorPayload

-- A row of `dead_letter_queue`.
pub record DeadLetter : Type 0 where
  pub original_message_id : String
  pub session_id : String
  pub queue_type : String
  pub handler_namespace : String
  pub error : ErrorPayload
  pub retry_count : ℕ

pub record Database (R : Type 0) : Type 0 where
  pub execution_records : Dict String (ExecutionRecord R)
  pub dead_letter_queue : List DeadLetter

pub data ExecutionStatus : Type 0 where
  completed skipped_duplicate failed timeout : ExecutionStatus

pub record ExecutionResult (R : Type 0) : Type 0 where
  pub message_id : String
  pub status : ExecutionStatus
  pub result : Option R
  pub error : Option ErrorPayload
  pub idempotency_key : Option String

-- How `dispatch` ends: by a result, or by the `TypeError` of `json.dumps`.
pub data Finished (R : Type 0) : Type 0 where
  finished : ExecutionResult R → Finished R
  not_serializable : Finished R

pub record MessageRouter (P R H A : Type 0) : Type 0 where
  pub handlers : Dict String H
  pub wildcard_handler : Option H
  pub auto_router : Option A
  pub conn : Option (Database R)
  pub session_locks : List String
  pub calls : List (H × Message P)

-- `call h m n` is what the handler does as the call number `n`; `decide` is the mode and the reason
-- of the auto router, which may raise; `reload` is what `json.loads` makes of the stored text.
pub record Runtime (P R H A : Type 0) : Type 0 where
  pub call : H → Message P → ℕ → Outcome R
  pub decide : A → Message P → Option (String × String)
  pub serializable : R → Bool
  pub reload : R → R

pub data RegisterError : Type 0 where
  empty_namespace bad_namespace : RegisterError

abbrev pub is_completed : RecordStatus → Bool
is_completed RecordStatus.completed = true
is_completed _ = false

abbrev pub storable : {R : Type 0} → (R → Bool) → Option R → Bool
storable p none = true
storable p (some r) = p r

-- `message.idempotency_key`, where an empty text is false.
abbrev pub key_of : {P : Type 0} → Message P → Option String
key_of m = elim m.idempotency_key [ none ↦ none | some k ↦ if is_empty k then none else some k ]

abbrev pub is_background : {P : Type 0} → Message P → Bool
is_background m = m.queue_type == "background"

abbrev pub set_add : String → List String → List String
set_add x xs = if contains xs x then xs else xs ++ x ∷ []

abbrev pub map_option : {A B : Type 0} → (A → B) → Option A → Option B
map_option f none = none
map_option f (some a) = some (f a)

module _ {P R : Type 0} where
  abbrev pub duplicate_of : Message P → ExecutionRecord R → Option (ExecutionResult R)
  duplicate_of m r =
      if is_completed r.status
      then some (record {
        message_id = m.message_id;
        status = ExecutionStatus.skipped_duplicate;
        result = r.result;
        error = r.error;
        idempotency_key = m.idempotency_key;
      })
      else none

module _ {P R H A : Type 0} where
  unfoldable pub register :
      String → H → MessageRouter P R H A → Result RegisterError (MessageRouter P R H A)
  register name handler s = do
    guard (not (is_empty (strip name))) empty_namespace
    guard (not (is_some (cut_at b'.' (strip name)) || strip name == "*")) bad_namespace
    ok (record s { handlers = insert (strip name) handler s.handlers })

  unfoldable pub register_wildcard : H → MessageRouter P R H A → MessageRouter P R H A
  register_wildcard handler s = record s { wildcard_handler = some handler }

  unfoldable pub register_auto_router : A → MessageRouter P R H A → MessageRouter P R H A
  register_auto_router a s = record s { auto_router = some a }

  unfoldable pub close : MessageRouter P R H A → MessageRouter P R H A
  close s = record s {
    handlers = [];
    wildcard_handler = none;
    auto_router = none;
    session_locks = [];
  }

  -- The registered handler, or else the wildcard.
  abbrev pub handler_for : String → MessageRouter P R H A → Option H
  handler_for name s = elim (lookup name s.handlers) [ some h ↦ some h | none ↦ s.wildcard_handler ]

  -- The row of a key; without a connection there is none.
  abbrev pub execution_record : String → MessageRouter P R H A → Option (ExecutionRecord R)
  execution_record k s = elim s.conn [ none ↦ none | some d ↦ lookup k d.execution_records ]

  unfoldable pub check_idempotency : Message P → MessageRouter P R H A → Option (ExecutionResult R)
  check_idempotency m s = elim (key_of m) [
    | none ↦ none
    | some k ↦ elim (execution_record k s) [ none ↦ none | some r ↦ duplicate_of m r ]
  ]

  unfoldable pub record_execution :
      Message P → ExecutionRecord R → MessageRouter P R H A → MessageRouter P R H A
  record_execution m r s = elim s.conn [
    | none ↦ s
    | some d ↦ elim (key_of m) [
      | none ↦ s
      | some k ↦ record s {
        conn = some (record d { execution_records = insert k r d.execution_records });
      }
    ]
  ]

  unfoldable pub send_to_dlq :
      Message P → ErrorPayload → ℕ → MessageRouter P R H A → MessageRouter P R H A
  send_to_dlq m e retry_count s = elim s.conn [
    | none ↦ s
    | some d ↦ record s {
      conn = some (record d {
        dead_letter_queue =
            d.dead_letter_queue
            ++ record {
              original_message_id = m.message_id;
              session_id = m.session_id;
              queue_type = m.queue_type;
              handler_namespace = namespace m.topic;
              error = e;
              retry_count = retry_count;
            }
              ∷ [];
      });
    }
  ]

  -- `_session_lock` makes a lock for the session of a dialog message where there is none.
  unfoldable pub session_lock : Message P → MessageRouter P R H A → MessageRouter P R H A
  session_lock m s =
      if m.queue_type == "dialog"
      then record s { session_locks = set_add (or_else m.session_id "__global__") s.session_locks }
      else s

  module _ (env : Runtime P R H A) where
    -- The mode and the reason of the auto router go into the message's meta data.
    unfoldable pub auto_routed : Message P → MessageRouter P R H A → Result Failure (Message P)
    auto_routed m s = elim s.auto_router [
      | none ↦ ok m
      | some a ↦ elim (env.decide a m) [
        | none ↦ err auto_route_failed
        | some (mode, reason) ↦
            elim (with_meta (("auto_route", mode) ∷ ("auto_route_reason", reason) ∷ []) m) [
              | err e ↦ err bad_meta
              | ok n ↦ ok n
            ]
      ]
    ]

    unfoldable pub route : Message P → MessageRouter P R H A → MessageRouter P R H A × Outcome R
    route m s =
        let name = strip (namespace m.topic) in
        if is_empty name
        then (s, raised no_namespace)
        else (if not (m.source == "shell") && name == "shell"
            then (s, raised shell_only)
            else elim (auto_routed m s) [
              | err e ↦ (s, raised e)
              | ok n ↦ elim (handler_for name s) [
                | none ↦ (s, raised (no_handler m.topic))
                | some h ↦
                    (record s { calls = s.calls ++ (h, n) ∷ [] }, env.call h n (length s.calls))
              ]
            ])

    abbrev pub row : RecordStatus → Option R → Option ErrorPayload → ExecutionRecord R
    row status result error = record { status = status; result = result; error = error }

    -- A handler has returned: the row is completed, unless its result has no JSON.
    unfoldable pub complete :
        Message P → Option R → MessageRouter P R H A → MessageRouter P R H A × Finished R
    unfolding record_execution
    complete m r s =
        if is_some s.conn && is_some (key_of m) && not (storable env.serializable r)
        then (s, not_serializable)
        else (
          record_execution m (row RecordStatus.completed (map_option env.reload r) none) s,
          finished (record {
            message_id = m.message_id;
            status = ExecutionStatus.completed;
            result = r;
            error = none;
            idempotency_key = m.idempotency_key;
          }),
        )

    unfoldable pub give_up :
        Message P
        → ExecutionStatus
        → ErrorPayload
        → ℕ
        → MessageRouter P R H A
        → MessageRouter P R H A × Finished R
    unfolding record_execution send_to_dlq
    give_up m status e retries s = (
      send_to_dlq m e retries (record_execution m (row RecordStatus.failed none (some e)) s),
      finished (record {
        message_id = m.message_id;
        status = status;
        result = none;
        error = some e;
        idempotency_key = m.idempotency_key;
      }),
    )

    abbrev pub Loop : Type 0
    Loop = ℕ → ℕ → MessageRouter P R H A → Option (MessageRouter P R H A × Finished R)

    abbrev pub max_conflict_retries : Message P → ℕ
    max_conflict_retries m = if is_background m then 3 else 0

    abbrev pub max_handler_retries : ℕ
    max_handler_retries = 1

    unfoldable pub should_retry_background : Message P → Bool → ℕ → Bool
    should_retry_background m locked conflict_retries =
        is_background m && ltb conflict_retries (max_conflict_retries m) && locked

    -- After a time-out or an exception: another round, or the end. `go` is the loop.
    unfoldable pub retry_handler :
        Loop
        → Message P
        → ExecutionStatus
        → ErrorPayload
        → ℕ
        → ℕ
        → MessageRouter P R H A
        → Option (MessageRouter P R H A × Finished R)
    retry_handler go m status e conflict_retries handler_retries s =
        if ltb handler_retries max_handler_retries
        then elim (check_idempotency m s) [
          | some done ↦ some (s, finished done)
          | none ↦ go conflict_retries (suc handler_retries) s
        ]
        else some (give_up m status e handler_retries s)

    unfoldable pub after_call :
        Loop
        → Message P
        → ℕ
        → ℕ
        → MessageRouter P R H A × Outcome R
        → Option (MessageRouter P R H A × Finished R)
    after_call go m cr hr (s, returned r) = some (complete m r s)
    after_call go m cr hr (s, conflict locked text) =
        if should_retry_background m locked cr
        then go (suc cr) hr s
        else some (give_up m ExecutionStatus.failed (sqlite_conflict text) cr s)
    after_call go m cr hr (s, timed_out text) =
        retry_handler go m ExecutionStatus.timeout (timeout_error text) cr hr s
    after_call go m cr hr (s, raised f) =
        retry_handler go m ExecutionStatus.failed (handler_error f) cr hr s

    -- The loop `while True` with the numbers of retries so far; `none` is out of fuel.
    unfoldable pub dispatch_loop : ℕ → Message P → Loop
    dispatch_loop zero m cr hr s = none
    dispatch_loop (suc fuel) m cr hr s = elim (check_idempotency m s) [
      | some done ↦ some (s, finished done)
      | none ↦
          after_call (dispatch_loop fuel m) m cr hr
            (route m (record_execution m (row RecordStatus.executing none none) s))
    ]

    -- Every round but the last is a retry, of which there are four at most.
    unfoldable pub dispatch :
        Message P → MessageRouter P R H A → Option (MessageRouter P R H A × Finished R)
    dispatch m s = elim (check_idempotency m s) [
      | some done ↦ some (s, finished done)
      | none ↦ dispatch_loop (suc (3 + max_handler_retries)) m 0 0 (session_lock m s)
    ]
