-- ===== src/Router/Tests.antt =====
-- The router with one handler, whose first call fails.
use offline_companion_core.Base.{
  ℕ, ◌+◌, ◌≤◌, ◌≡◌, refl, true, none, some, [], ◌∷◌, nat_beq, if◌then◌else◌, length, nat_eq,
  string_eq, pair_eq,
}
use offline_companion_core.Base.Text.{strip, cut_at}
use offline_companion_core.Router.Messages.{Message}
use offline_companion_core.Router.Dispatch.{
  Outcome, returned, raised, handler_failed, timed_out, ErrorPayload, timeout_error,
  ExecutionStatus, ExecutionResult, Finished, finished, MessageRouter, Runtime, is_background,
  dispatch, dispatch_loop, check_idempotency, record_execution, session_lock, route, auto_routed,
  after_call, retry_handler, complete, give_up, send_to_dlq, register_wildcard,
}
use offline_companion_core.Router.Messages.{namespace}
use offline_companion_core.Router.Dispatch.RecordStatus.{completed, failed}
use offline_companion_core.Router.Once.{here, next, registers_wildcard, dispatch_once}
use offline_companion_core.Router.Attempts.{dispatch_bounded}
use offline_companion_core.Router.Letters.{Filed, dispatch-Filed}

-- A handler is the outcome of its calls from the second on.
abbrev second_time : Runtime ℕ ℕ (Outcome ℕ) ℕ
second_time = record {
  call = λ h m n. if nat_beq n 0 then raised (handler_failed "first") else h;
  decide = λ a m. none;
  serializable = λ r. true;
  reload = λ r. r;
}

abbrev message : Message ℕ
message = record {
  message_id = "m1";
  topic = "skill.invoke";
  source = "shell";
  target = none;
  session_id = "s1";
  idempotency_key = some "k";
  queue_type = "dialog";
  payload = 0;
  meta = [];
}

abbrev router : Outcome ℕ → MessageRouter ℕ ℕ (Outcome ℕ) ℕ
router handler = record {
  handlers = ("skill", handler) ∷ [];
  wildcard_handler = none;
  auto_router = none;
  conn = some (record { execution_records = []; dead_letter_queue = [] });
  session_locks = [];
  calls = [];
}

abbrev answered : ExecutionResult ℕ
answered = record {
  message_id = "m1";
  status = ExecutionStatus.completed;
  result = some 7;
  error = none;
  idempotency_key = some "k";
}

abbrev after_second : MessageRouter ℕ ℕ (Outcome ℕ) ℕ
after_second = record (router (returned (some 7))) {
  conn = some (record {
    execution_records = ("k", record { status = completed; result = some 7; error = none }) ∷ [];
    dead_letter_queue = [];
  });
  session_locks = "s1" ∷ [];
  calls = (returned (some 7), message) ∷ (returned (some 7), message) ∷ [];
}

dispatched :
    dispatch second_time message (router (returned (some 7)))
    ≡ some (after_second, finished answered)
unfolding dispatch dispatch_loop check_idempotency record_execution session_lock route auto_routed
    after_call retry_handler complete namespace strip cut_at
dispatched = refl

dispatch_once_example :
    dispatch second_time message (register_wildcard (returned none) after_second)
    ≡ some (
      register_wildcard (returned none) after_second,
      finished (record {
        message_id = "m1";
        status = ExecutionStatus.skipped_duplicate;
        result = some 7;
        error = none;
        idempotency_key = some "k";
      }),
    )
dispatch_once_example =
    dispatch_once second_time message message "k" (router (returned (some 7))) after_second
      (register_wildcard (returned none) after_second) answered refl refl refl dispatched refl
      (next here (registers_wildcard (returned none)))

dispatch_bounded_example :
    (t : MessageRouter ℕ ℕ (Outcome ℕ) ℕ) × (f : Finished ℕ) × (dispatch second_time message
        (router (returned (some 7)))
      ≡ some (t, f))
    × (length t.calls ≤ 0 + (if is_background message then 5 else 2))
dispatch_bounded_example = dispatch_bounded second_time message (router (returned (some 7)))

abbrev lost : ErrorPayload
lost = timeout_error "late"

abbrev gone : ExecutionResult ℕ
gone = record {
  message_id = "m1";
  status = ExecutionStatus.timeout;
  result = none;
  error = some lost;
  idempotency_key = some "k";
}

abbrev first_works : Runtime ℕ ℕ (Outcome ℕ) ℕ
first_works = record second_time { call = λ h m n. h }

abbrev after_loss : MessageRouter ℕ ℕ (Outcome ℕ) ℕ
after_loss = record (router (timed_out "late")) {
  conn = some (record {
    execution_records = ("k", record { status = failed; result = none; error = some lost }) ∷ [];
    dead_letter_queue =
        record {
          original_message_id = "m1";
          session_id = "s1";
          queue_type = "dialog";
          handler_namespace = "skill";
          error = lost;
          retry_count = 1;
        }
        ∷ [];
  });
  session_locks = "s1" ∷ [];
  calls = (timed_out "late", message) ∷ (timed_out "late", message) ∷ [];
}

dispatched_late :
    dispatch first_works message (router (timed_out "late")) ≡ some (after_loss, finished gone)
unfolding dispatch dispatch_loop check_idempotency record_execution session_lock route auto_routed
    after_call retry_handler give_up send_to_dlq namespace strip cut_at
dispatched_late = refl

dispatch-Filed_example : Filed first_works message [] after_loss (finished gone)
dispatch-Filed_example =
    dispatch-Filed first_works message [] (router (timed_out "late")) after_loss (finished gone)
      refl refl dispatched_late
