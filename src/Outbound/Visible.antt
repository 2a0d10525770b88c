-- ===== src/Outbound/Visible.antt =====
-- What the steps of a decision do to the requests of the gateway.
use offline_companion_core.Base.{
  String, ◌≡◌, refl, sym, subst, ◌∙◌, ◌⊎◌, inl, inr, true, false, Option, none, some, List, [], ◌∷◌,
  ◌++◌, arith, Bool-cases, get_or, ◌==◌, nat_eq, string_eq, pair_eq, Result, ok, err, Result-cases,
}
use offline_companion_core.Base.Text.{or_else}
use offline_companion_core.Base.Dict.{lookup, insert, lookup-insert, lookup-insert_self}
use offline_companion_core.Outbound.Consent.{
  decided, decision_text, is_purpose, bad_purpose, not_serializable, ConsentArtifact,
  PendingConsent, ConsentEvent, ConsentError, Gateway, Host, announce, validate_consent_artifact,
  put_artifact, persist, persist_into, decide_on,
}

module _ {T : Type 0} (host : Host T) where
  pub announce_pending :
      (e : ConsentEvent) (g : Gateway T)
      → ((announce host e g).1.pending ≡ g.pending)
        × ((announce host e g).1.active_session_id ≡ g.active_session_id)
        × ((announce host e g).1.decision_provider ≡ g.decision_provider)
        × ((announce host e g).1.consent_artifacts ≡ g.consent_artifacts)
  unfolding announce
  announce_pending e g = ground arith

  -- A check leaves the request as it was but for the artifact's `purpose_type`.
  pub record Checked (a b : ConsentArtifact T) : Type 0 where
    pub request_id : b.request_id ≡ a.request_id
    pub request : b.request ≡ a.request
    pub purpose : b.purpose ≡ a.purpose
    pub user_decision : b.user_decision ≡ a.user_decision
    pub allowed : b.allowed ≡ a.allowed

  pub Checked-self : (a : ConsentArtifact T) → Checked a a
  Checked-self a = record {
    request_id = refl;
    request = refl;
    purpose = refl;
    user_decision = refl;
    allowed = refl;
  }

  abbrev marked : ConsentArtifact T → ConsentArtifact T
  marked a = record a {
    purpose_type = some (get_or a.purpose_type (or_else a.purpose (get_or a.purpose_type "")));
  }

  Checked-marked : (a : ConsentArtifact T) → Checked a (marked a)
  Checked-marked a = record {
    request_id = refl;
    request = refl;
    purpose = refl;
    user_decision = refl;
    allowed = refl;
  }

  validate_cases :
      (a : ConsentArtifact T)
      → let purpose = or_else a.purpose (get_or a.purpose_type "") in
        ((validate_consent_artifact host a ≡ ok (marked a)) × (is_purpose purpose ≡ true))
        ⊎ (validate_consent_artifact host a ≡ err (bad_purpose purpose))
  unfolding validate_consent_artifact
  validate_cases a = elim (Bool-cases (is_purpose (or_else a.purpose (get_or a.purpose_type "")))) [
    | inl q ↦ inl (rw (validate_consent_artifact, q) refl, q)
    | inr q ↦ inr (rw (validate_consent_artifact, q) refl)
  ]

  -- The ends of `persist`: no table; a purpose that is none; an artifact without a text; a new row.
  pub data Persisted (v : String) (p : PendingConsent T) (a : ConsentArtifact T) (g : Gateway T)
      : Result ConsentError (ConsentArtifact T) × Gateway T → Type 0 where
    no_table : Persisted v p a g (ok a, g)
    refused : (e : ConsentError) → Persisted v p a g (err e, g)
    without_text :
        (b : ConsentArtifact T)
        → Checked a b
        → Persisted v p a g (err not_serializable, put_artifact host v p b g)
    stored :
        (b : ConsentArtifact T) (rows : List (ConsentArtifact T))
        → Checked a b
        → g.consent_artifacts ≡ some rows
        → is_purpose (or_else a.purpose (get_or a.purpose_type "")) ≡ true
        → Persisted v p a g
            (ok b, record (put_artifact host v p b g) { consent_artifacts = some (rows ++ b ∷ []) })

  persist_into-Persisted :
      (o : Option (List (ConsentArtifact T))) (v : String) (p : PendingConsent T)
      (a : ConsentArtifact T) (g : Gateway T)
      → g.consent_artifacts ≡ o
      → Persisted v p a g (persist_into host o v p a g)
  unfolding persist_into
  persist_into-Persisted none v p a g q = no_table
  persist_into-Persisted (some rows) v p a g q = elim (validate_cases a) [
    | inr e ↦ rw (persist_into, e) (refused _)
    | inl (e, k) ↦ elim (Bool-cases (host.serializable (marked a))) [
      | inl s ↦ rw (persist_into, e, s) (stored (marked a) rows (Checked-marked a) q k)
      | inr s ↦ rw (persist_into, e, s) (without_text (marked a) (Checked-marked a))
    ]
  ]

  pub persist-Persisted :
      (v : String) (p : PendingConsent T) (a : ConsentArtifact T) (g : Gateway T)
      → Persisted v p a g (persist host v p a g)
  persist-Persisted v p a g = persist_into-Persisted g.consent_artifacts v p a g refl

  -- From `g` to `h` the request `v` has become `p`, with the artifact at most checked, and nothing else has
  -- changed but for a row with that artifact.
  pub record Settled (v : String) (p : PendingConsent T) (g h : Gateway T) : Type 0 where
    pub artifact : ConsentArtifact T
    pub checked : Checked p.artifact artifact
    pub own : lookup v h.pending ≡ some (record p { artifact = artifact })
    pub other : (w : String) → (v == w) ≡ false → lookup w h.pending ≡ lookup w g.pending
    pub session : h.active_session_id ≡ g.active_session_id
    pub table :
        (h.consent_artifacts ≡ g.consent_artifacts)
        ⊎ ((rows : List (ConsentArtifact T)) × (g.consent_artifacts ≡ some rows)
            × (h.consent_artifacts ≡ some (rows ++ artifact ∷ []))
            × (is_purpose (or_else p.artifact.purpose (get_or p.artifact.purpose_type "")) ≡ true))

  -- The request has been put.
  abbrev pub Put : String → PendingConsent T → Gateway T → Gateway T → Type 0
  Put v p g h =
      (h.pending ≡ insert v p g.pending)
      × (h.active_session_id ≡ g.active_session_id)
      × (h.consent_artifacts ≡ g.consent_artifacts)

  pub Put-own :
      (v : String) (p : PendingConsent T) (g h : Gateway T)
      → Put v p g h
      → lookup v h.pending ≡ some p
  Put-own v p g h e = rw e.0 (lookup-insert_self v p g.pending)

  pub Put-other :
      (v w : String) (p : PendingConsent T) (g h : Gateway T)
      → Put v p g h
      → (v == w) ≡ false
      → lookup w h.pending ≡ lookup w g.pending
  Put-other v w p g h e ne = rw e.0 (lookup-insert v w p g.pending ∙ rw ne refl)

  Put-Settled :
      (v : String) (p : PendingConsent T) (g h : Gateway T) → Put v p g h → Settled v p g h
  Put-Settled v p g h e = record {
    artifact = p.artifact;
    checked = Checked-self p.artifact;
    own = Put-own v p g h e;
    other = λ w ne. Put-other v w p g h e ne;
    session = e.1;
    table = inl e.2;
  }

  again-Settled :
      (v : String) (p : PendingConsent T) (b : ConsentArtifact T) (g h i : Gateway T)
      → Put v p g h
      → Checked p.artifact b
      → i.pending ≡ insert v (record p { artifact = b }) h.pending
      → i.active_session_id ≡ h.active_session_id
      → (i.consent_artifacts ≡ h.consent_artifacts)
        ⊎ ((rows : List (ConsentArtifact T)) × (h.consent_artifacts ≡ some rows)
            × (i.consent_artifacts ≡ some (rows ++ b ∷ []))
            × (is_purpose (or_else p.artifact.purpose (get_or p.artifact.purpose_type "")) ≡ true))
      → Settled v p g i
  again-Settled v p b g h i e c q a t = record {
    artifact = b;
    checked = c;
    own = rw q (lookup-insert_self v _ h.pending);
    other = λ w ne. rw q (lookup-insert v w _ h.pending ∙ rw ne (Put-other v w p g h e ne));
    session = a ∙ e.1;
    table = elim t [
      | inl u ↦ inl (u ∙ e.2)
      | inr (rows, u, x, y) ↦ inr (rows, sym (e.2) ∙ u, x, y)
    ];
  }

  Persisted-Settled :
      (v : String) (p : PendingConsent T) (g h : Gateway T)
      (r : Result ConsentError (ConsentArtifact T) × Gateway T)
      → Put v p g h
      → Persisted v p p.artifact h r
      → Settled v p g r.1
  Persisted-Settled v p g h _ e no_table = Put-Settled v p g h e
  Persisted-Settled v p g h _ e (refused x) = Put-Settled v p g h e
  Persisted-Settled v p g h _ e (without_text b c) =
      again-Settled v p b g h (put_artifact host v p b h) e c refl refl (inl refl)
  Persisted-Settled v p g h _ e (stored b rows c q k) =
      again-Settled v p b g h
        (record (put_artifact host v p b h) { consent_artifacts = some (rows ++ b ∷ []) }) e c refl
        refl (inr (rows, q, refl, k))

  abbrev told_of :
      String → PendingConsent T → Gateway T → Result ConsentError (Unit {0}) × Gateway T
  told_of v p g =
      announce host
        (decided v p.consent_request.plan_id p.consent_request.step_id p.allowed
          (decision_text host p.allowed) (lookup "trace_id" p.consent_request.metadata))
        (put_artifact host v p p.artifact g)

  decide_on_refused :
      (v : String) (p : PendingConsent T) (g : Gateway T) (e : ConsentError)
      → (told_of v p g).0 ≡ err e
      → (told_of v p g).1 ≡ (decide_on host v p g).1
  unfolding decide_on
  decide_on_refused v p g e q = rw (decide_on, q) refl

  decide_on_told :
      (v : String) (p : PendingConsent T) (g : Gateway T) (u : Unit {0})
      → (told_of v p g).0 ≡ ok u
      → (persist host v p p.artifact (told_of v p g).1).1 ≡ (decide_on host v p g).1
  unfolding decide_on
  decide_on_told v p g u q = rw (decide_on, q) refl

  pub decide_on-Settled :
      (v : String) (p : PendingConsent T) (g : Gateway T) → Settled v p g (decide_on host v p g).1
  unfolding decide_on
  decide_on-Settled v p g =
      let event =
        decided v p.consent_request.plan_id p.consent_request.step_id p.allowed
          (decision_text host p.allowed) (lookup "trace_id" p.consent_request.metadata) in
      let g' = put_artifact host v p p.artifact g in
      let told = announce host event g' in
      let same = announce_pending event g' in
      let put : Put v p g told.1 = (same.0, same.1, same.3) in
      elim (Result-cases told.0) [
        | inr (e, q) ↦
            subst (Settled v p g) (decide_on_refused v p g e q) (Put-Settled v p g told.1 put)
        | inl (u, q) ↦ subst (Settled v p g) (decide_on_told v p g u q) (
            Persisted-Settled v p g told.1 (persist host v p p.artifact told.1) put
              (persist-Persisted v p p.artifact told.1))
      ]
