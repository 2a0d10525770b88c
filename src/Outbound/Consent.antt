-- ===== src/Outbound/Consent.antt =====
-- `UIHostConsentGateway`, shell/outbound_manager/a3_gateway.py, with the check and the table of artifacts
-- (consent.py, and consent_store.py of runtime/storage_index). A request id is given by the caller, who
-- draws it with `uuid`. The values of a request's metadata that are read are texts.
use offline_companion_core.Base.{
  String, Bool, true, false, not, ◌&&◌, ◌||◌, Option, none, some, List, [], ◌∷◌, ◌++◌,
  if◌then◌else◌, get_or, ◌==◌, nat_eq, string_eq, pair_eq, contains, Result, ok, err,
}
use offline_companion_core.Base.Text.{is_empty, strip, or_else}
use offline_companion_core.Base.Dict.{Dict, values, lookup, insert}
use offline_companion_core.Base.Text.{has_text}

pub record ConsentRequest : Type 0 where
  pub plan_id : String
  pub step_id : String
  pub skill_id : String
  pub operation : String
  pub purpose_type : Option String
  pub risk_level : String
  pub impact_scope : String
  pub source : String
  pub metadata : Dict String String

pub record ConsentArtifact (T : Type 0) : Type 0 where
  pub request_id : String
  pub scope : String
  pub purpose : String
  pub user_decision : String
  pub timestamp : T
  pub request : ConsentRequest
  -- The keys that are there from a decision and from a check on.
  pub allowed : Option Bool
  pub purpose_type : Option String

pub record PendingConsent (T : Type 0) : Type 0 where
  pub request_id : String
  pub consent_request : ConsentRequest
  pub artifact : ConsentArtifact T
  pub session_id : Option String
  pub decided : Bool
  pub allowed : Bool

pub data ConsentEvent : Type 0 where
  asked : String → String → String → String → String → Option String → ConsentEvent
  decided : String → String → String → Bool → String → Option String → ConsentEvent

pub data ConsentError : Type 0 where
  unknown_request : String → ConsentError
  bad_purpose : String → ConsentError
  event_refused not_serializable : ConsentError

pub record Gateway (T : Type 0) : Type 0 where
  pub decision_provider : Option (ConsentArtifact T → Bool)
  pub consent_artifacts : Option (List (ConsentArtifact T))
  pub event_stream : Option (List ConsentEvent)
  pub active_session_id : Option String
  pub pending : Dict String (PendingConsent T)
  pub last_artifact : Option (ConsentArtifact T)

-- `str.lower`, whether the event stream takes an event, and whether an artifact has a JSON text.
pub record Host (T : Type 0) : Type 0 where
  pub lower : String → String
  pub takes : ConsentEvent → Bool
  pub serializable : ConsentArtifact T → Bool

abbrev pub purposes : List String
purposes =
    "skill_network_egress" ∷ "skill_file_access" ∷ "skill_code_execution" ∷ "skill_cloud_inference"
    ∷ "skill_invoke" ∷ "cloud_routing" ∷ "sandbox_downgrade" ∷ "native_risk_prompt"
    ∷ "plugin_high_risk_skill" ∷ "tool_external_enable" ∷ "tool_use" ∷ "agent_toolbox_high_risk"
    ∷ []

unfoldable pub is_purpose : String → Bool
is_purpose s = contains purposes s

-- `_is_visible` of a request that is there.
abbrev pub is_visible : {T : Type 0} → Option String → PendingConsent T → Bool
is_visible none p = true
is_visible (some s) p = elim p.session_id [ none ↦ true | some t ↦ t == s ]

module _ {T : Type 0} where
  -- `get_pending(request_id)`
  unfoldable pub get_pending : String → Gateway T → Option (PendingConsent T)
  get_pending v g = elim (lookup v g.pending) [
    | none ↦ none
    | some p ↦ if is_visible g.active_session_id p then some p else none
  ]

  -- The last request that is undecided and visible, in a list with the first one first.
  abbrev pub latest : Option String → List (PendingConsent T) → Option (PendingConsent T)
  latest session [] = none
  latest session (p ∷ ps) = elim (latest session ps) [
    | some q ↦ some q
    | none ↦ if not p.decided && is_visible session p then some p else none
  ]

  -- `get_pending()`
  unfoldable pub get_latest : Gateway T → Option (PendingConsent T)
  get_latest g = latest g.active_session_id (values g.pending)

  unfoldable pub bind_session_context : String → Option (List ConsentEvent) → Gateway T → Gateway T
  bind_session_context session stream g = record g {
    active_session_id = some session;
    event_stream = stream;
  }

module _ {T : Type 0} (host : Host T) where
  unfoldable pub purpose_for_request : ConsentRequest → String
  purpose_for_request r =
      let raw = or_else (get_or r.purpose_type "") (get_or (lookup "purpose_type" r.metadata) "") in
      let explicit = strip raw in
      let skill = host.lower r.skill_id in
      if not (is_empty explicit)
      then explicit
      else (if has_text "network" skill || has_text "egress" skill
          then "skill_network_egress"
          else (if has_text "file" skill
              then "skill_file_access"
              else (if has_text "code" skill || has_text "exec" skill
                  then "skill_code_execution"
                  else (if has_text "cloud" skill
                      then "skill_cloud_inference"
                      else (if r.risk_level == "high"
                          then "plugin_high_risk_skill"
                          else "native_risk_prompt")))))

  unfoldable pub build_consent_artifact : ConsentRequest → String → String → T → ConsentArtifact T
  unfolding purpose_for_request
  build_consent_artifact r user_decision request_id now = record {
    request_id = request_id;
    scope = "this_turn";
    purpose = purpose_for_request r;
    user_decision = user_decision;
    timestamp = now;
    request = r;
    allowed = none;
    purpose_type = none;
  }

  -- `event_stream.append`, where there is a stream.
  unfoldable pub announce : ConsentEvent → Gateway T → Result ConsentError (Unit {0}) × Gateway T
  announce e g = elim g.event_stream [
    | none ↦ (ok tt, g)
    | some es ↦
        if host.takes e
        then (ok tt, record g { event_stream = some (es ++ e ∷ []) })
        else (err event_refused, g)
  ]

  -- Of the checks of `validate_consent_artifact`, the purpose alone can fail: every other key is there.
  unfoldable pub validate_consent_artifact :
      ConsentArtifact T → Result ConsentError (ConsentArtifact T)
  unfolding is_purpose
  validate_consent_artifact a =
      let purpose = or_else a.purpose (get_or a.purpose_type "") in
      if is_purpose purpose
      then ok (record a { purpose_type = some (get_or a.purpose_type purpose) })
      else err (bad_purpose purpose)

  -- The artifact of the request and of `last_artifact` are one dict.
  abbrev pub put_artifact : String → PendingConsent T → ConsentArtifact T → Gateway T → Gateway T
  put_artifact v p a g = record g {
    pending = insert v (record p { artifact = a }) g.pending;
    last_artifact = some a;
  }

  -- `persist_consent_artifact` into the rows, where there is a table.
  unfoldable pub persist_into :
      Option (List (ConsentArtifact T))
      → String
      → PendingConsent T
      → ConsentArtifact T
      → Gateway T
      → Result ConsentError (ConsentArtifact T) × Gateway T
  unfolding validate_consent_artifact
  persist_into none v p a g = (ok a, g)
  persist_into (some rows) v p a g = elim (validate_consent_artifact a) [
    | err e ↦ (err e, g)
    | ok b ↦
        let g' = put_artifact v p b g in
        if host.serializable b
        then (ok b, record g' { consent_artifacts = some (rows ++ b ∷ []) })
        else (err not_serializable, g')
  ]

  abbrev pub persist :
      String
      → PendingConsent T
      → ConsentArtifact T
      → Gateway T
      → Result ConsentError (ConsentArtifact T) × Gateway T
  persist v p a g = persist_into g.consent_artifacts v p a g

  abbrev pub decision_text : Bool → String
  decision_text allowed = if allowed then "allow" else "deny"

  -- The request and its artifact with a decision.
  abbrev pub with_decision : Bool → T → PendingConsent T → PendingConsent T
  with_decision allowed now p = record p {
    artifact = record p.artifact {
      user_decision = decision_text allowed;
      allowed = some allowed;
      timestamp = now;
    };
    decided = true;
    allowed = allowed;
  }

  unfoldable pub decide_on :
      String → PendingConsent T → Gateway T → Result ConsentError (ConsentArtifact T) × Gateway T
  unfolding announce persist_into
  decide_on v p g =
      let event =
        decided v p.consent_request.plan_id p.consent_request.step_id p.allowed
          (decision_text p.allowed) (lookup "trace_id" p.consent_request.metadata) in
      let (r, g') = announce event (put_artifact v p p.artifact g) in
      elim r [ err e ↦ (err e, g') | ok _ ↦ persist v p p.artifact g' ]

  unfoldable pub decide :
      String → Bool → T → Gateway T → Result ConsentError (ConsentArtifact T) × Gateway T
  unfolding get_pending decide_on
  decide v allowed now g = elim (get_pending v g) [
    | none ↦ (err (unknown_request v), g)
    | some p ↦ decide_on v (with_decision allowed now p) g
  ]

  abbrev pub new_pending : String → ConsentRequest → T → Gateway T → PendingConsent T
  new_pending v r now g = record {
    request_id = v;
    consent_request = r;
    artifact = build_consent_artifact r "pending" v now;
    session_id = g.active_session_id;
    decided = false;
    allowed = false;
  }

  -- The request is registered and announced.
  unfoldable pub register :
      String → ConsentRequest → T → Gateway T → Result ConsentError (Unit {0}) × Gateway T
  unfolding announce build_consent_artifact
  register v r now g =
      let p = new_pending v r now g in
      announce
        (asked v r.plan_id r.step_id (purpose_for_request r) r.risk_level
          (lookup "trace_id" r.metadata))
        (put_artifact v p p.artifact g)

  unfoldable pub submit :
      String → ConsentRequest → T → Gateway T → Result ConsentError Bool × Gateway T
  unfolding register decide
  submit v r now g =
      let (announced, g') = register v r now g in
      elim announced [
        | err e ↦ (err e, g')
        | ok _ ↦ elim g'.decision_provider [
          | none ↦ (ok false, g')
          | some provider ↦
              let allowed = provider (new_pending v r now g).artifact in
              let (done, g'') = decide v allowed now g' in
              (elim done [ err e ↦ err e | ok _ ↦ ok allowed ], g'')
        ]
      ]
