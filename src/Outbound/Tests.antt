-- ===== src/Outbound/Tests.antt =====
-- A gateway of two sessions, with numbers for the times.
use offline_companion_core.Base.{
  ℕ, String, ◌≡◌, refl, ◌↔◌, true, false, none, some, [], arith, nat_beq, nat_eq, string_eq,
  pair_eq, ok, err,
}
use offline_companion_core.Base.Text.{strip, has_text}
use offline_companion_core.Base.Dict.{lookup}
use offline_companion_core.Outbound.Policy.{
  always_ask, all_sessions, Terminal, Options, ensure_outbound_allowed, Consented, Confirmed,
  earlier_calls, ensure_outbound_allowed_iff,
}
use offline_companion_core.Outbound.Consent.{
  ConsentRequest, PendingConsent, Gateway, Host, get_pending, bind_session_context, decision_text,
  decide, submit, register, build_consent_artifact, announce, decide_on, persist_into,
  validate_consent_artifact, is_purpose, purpose_for_request, bad_purpose,
}
use offline_companion_core.Outbound.Sessions.{here, next, submits, decides, Away, Reach-foreign}
use offline_companion_core.Outbound.Decisions.{IsRecorded, Reach-IsRecorded, decide_settles}

abbrev terminal : Terminal String
terminal = record { cli_confirm = λ p. true; typed = "YES" }

-- The second question is answered with no.
abbrev once : Options String
once = record {
  confirm = some (λ n p. nat_beq n 0);
  global_double_confirm = true;
  risk_ack_auto_route = false;
}

ensure_outbound_allowed_iff_example :
    (ensure_outbound_allowed terminal always_ask "plan" all_sessions once ≡ ok tt) ↔ (
      Consented terminal always_ask "plan" once
      × Confirmed terminal (earlier_calls terminal always_ask) "plan" all_sessions once)
ensure_outbound_allowed_iff_example =
    ensure_outbound_allowed_iff terminal always_ask "plan" all_sessions once

abbrev host : Host ℕ
host = record { lower = λ s. s; takes = λ e. true; serializable = λ a. true }

abbrev request : ConsentRequest
request = record {
  plan_id = "p1";
  step_id = "s1";
  skill_id = "web_network";
  operation = "get";
  purpose_type = none;
  risk_level = "medium";
  impact_scope = "plan_step";
  source = "plan_orchestrator";
  metadata = [];
}

abbrev empty_gateway : Gateway ℕ
empty_gateway = record {
  decision_provider = none;
  consent_artifacts = some [];
  event_stream = some [];
  active_session_id = some "a";
  pending = [];
  last_artifact = none;
}

abbrev submitted : Gateway ℕ
submitted = (submit host "r1" request 5 empty_gateway).1

abbrev waiting : PendingConsent ℕ
waiting = record {
  request_id = "r1";
  consent_request = request;
  artifact = record {
    request_id = "r1";
    scope = "this_turn";
    purpose = "skill_network_egress";
    user_decision = "pending";
    timestamp = 5;
    request = request;
    allowed = none;
    purpose_type = none;
  };
  session_id = some "a";
  decided = false;
  allowed = false;
}

r1_waits : lookup "r1" submitted.pending ≡ some waiting
unfolding submit register build_consent_artifact announce purpose_for_request strip has_text
r1_waits = refl

r1_is_visible : get_pending "r1" submitted ≡ some waiting
unfolding get_pending submit register build_consent_artifact announce purpose_for_request strip
    has_text
r1_is_visible = refl

decide_settles_example :
    (q : PendingConsent ℕ) × (lookup "r1" (decide host "r1" true 6 submitted).1.pending ≡ some q)
    × (q.decided ≡ true)
    × (q.allowed ≡ true)
    × (q.artifact.user_decision ≡ decision_text host true)
    × (q.consent_request ≡ request)
decide_settles_example = decide_settles host "r1" true 6 submitted waiting r1_is_visible

-- Another session is bound, which decides.
abbrev bound : Gateway ℕ
bound = bind_session_context "b" none submitted

bound_waits : (lookup "r1" bound.pending ≡ some waiting) × Away host "a" bound.active_session_id
unfolding bind_session_context submit register build_consent_artifact announce purpose_for_request
    strip has_text
bound_waits = (refl, refl)

Reach-foreign_example :
    (lookup "r1" (decide host "r1" true 7 bound).1.pending ≡ some waiting)
    × Away host "a" (decide host "r1" true 7 bound).1.active_session_id
Reach-foreign_example =
    Reach-foreign host "a" "r1" waiting (next here (decides "r1" true 7)) bound_waits.1
      bound_waits.0 refl

empty_gateway-IsRecorded : IsRecorded host empty_gateway
empty_gateway-IsRecorded = record { pending = λ v p h. absurd (ground arith); table = tt }

Reach-IsRecorded_example : IsRecorded host (decide host "r1" true 6 submitted).1
Reach-IsRecorded_example =
    Reach-IsRecorded host {may = λ s. Unit {0}}
      (next (next here (submits "r1" request 5 refl)) (decides "r1" true 6))
      empty_gateway-IsRecorded

-- A purpose of the request's own making: the decision is kept and the row is refused.
abbrev odd : Gateway ℕ
odd = (submit host "r1" (record request { purpose_type = some "my_purpose" }) 5 empty_gateway).1

odd_refused :
    ((decide host "r1" true 6 odd).0 ≡ err (bad_purpose "my_purpose"))
    × ((decide host "r1" true 6 odd).1.consent_artifacts ≡ some [])
unfolding decide get_pending decide_on persist_into validate_consent_artifact is_purpose submit
    register build_consent_artifact announce purpose_for_request strip has_text
odd_refused = (refl, refl)
