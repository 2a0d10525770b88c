-- ===== src/Outbound/Decisions.antt =====
-- What the gateway records of a decision.
use offline_companion_core.Base.{
  String, ◌≡◌, refl, sym, ap, subst, ◌∙◌, inl, inr, Bool, true, false, Option, none, some, List, [],
  ◌∷◌, ◌++◌, arith, Bool-cases, get_or, ◌==◌, nat_eq, string_eq, pair_eq,
}
use offline_companion_core.Base.Dict.{Dict, lookup}
use offline_companion_core.Outbound.Consent.{
  ConsentRequest, ConsentArtifact, PendingConsent, Gateway, Host, get_pending, bind_session_context,
  decision_text, with_decision, decide, new_pending, register, build_consent_artifact,
}
use offline_companion_core.Outbound.Visible.{
  Checked, Settled, decide_on-Settled, Put-other, Put-own,
}
use offline_companion_core.Outbound.Sessions.{
  Step, submits, decides, binds, Reach, here, next, decide_cases, get_pending_found, register-Put,
  submit_cases,
}

module _ {T : Type 0} (host : Host T) where
  abbrev Says : Bool → Bool → ConsentArtifact T → Type 0
  Says true allowed a = (a.user_decision ≡ decision_text host allowed) × (a.allowed ≡ some allowed)
  Says false allowed a = (a.user_decision ≡ "pending") × (a.allowed ≡ none) × (allowed ≡ false)

  -- A request and its artifact agree: on the id, on what was asked, and on the decision.
  pub record Recorded (v : String) (p : PendingConsent T) : Type 0 where
    pub id : p.artifact.request_id ≡ v
    pub request : p.artifact.request ≡ p.consent_request
    pub says : Says p.decided p.allowed p.artifact

  -- A row of the table is a decision on a request that is there, is decided, and asks the same.
  pub record IsDecision (d : Dict String (PendingConsent T)) (a : ConsentArtifact T) : Type 0 where
    pub said :
        (allowed : Bool) × (a.user_decision ≡ decision_text host allowed)
        × (a.allowed ≡ some allowed)
    pub asked :
        (p : PendingConsent T) × (lookup a.request_id d ≡ some p)
        × (p.decided ≡ true)
        × (p.consent_request ≡ a.request)

  abbrev pub Rows : Dict String (PendingConsent T) → List (ConsentArtifact T) → Type 0
  Rows d [] = Unit {0}
  Rows d (a ∷ rows) = IsDecision d a × Rows d rows

  abbrev pub Table : Dict String (PendingConsent T) → Option (List (ConsentArtifact T)) → Type 0
  Table d none = Unit {0}
  Table d (some rows) = Rows d rows

  pub record IsRecorded (g : Gateway T) : Type 0 where
    pub pending : (v : String) (p : PendingConsent T) → lookup v g.pending ≡ some p → Recorded v p
    pub table : Table g.pending g.consent_artifacts

  -- A decided request stays there, decided, and asks the same.
  abbrev Keeps : Dict String (PendingConsent T) → Dict String (PendingConsent T) → Type 0
  Keeps d e =
      (v : String) (p : PendingConsent T)
      → lookup v d ≡ some p
      → p.decided ≡ true
      → (q : PendingConsent T) × (lookup v e ≡ some q)
        × (q.decided ≡ true)
        × (q.consent_request ≡ p.consent_request)

  Rows-Keeps :
      (d e : Dict String (PendingConsent T)) (rows : List (ConsentArtifact T))
      → Keeps d e
      → Rows d rows
      → Rows e rows
  Rows-Keeps d e [] k r = tt
  Rows-Keeps d e (a ∷ rows) k (i, r) =
      let (p, found, decided, same) = i.asked in
      let (q, there, still, kept) = k a.request_id p found decided in
      (record { said = i.said; asked = (q, there, still, kept ∙ same) }, Rows-Keeps d e rows k r)

  Table-Keeps :
      (d e : Dict String (PendingConsent T)) (o : Option (List (ConsentArtifact T)))
      → Keeps d e
      → Table d o
      → Table e o
  Table-Keeps d e none k t = tt
  Table-Keeps d e (some rows) k t = Rows-Keeps d e rows k t

  Rows-snoc :
      (d : Dict String (PendingConsent T)) (rows : List (ConsentArtifact T)) (a : ConsentArtifact T)
      → Rows d rows
      → IsDecision d a
      → Rows d (rows ++ a ∷ [])
  Rows-snoc d [] a r i = (i, tt)
  Rows-snoc d (b ∷ rows) a r i = (r.0, Rows-snoc d rows a r.1 i)

  Says-Checked :
      (allowed : Bool) (a b : ConsentArtifact T)
      → Checked host a b
      → Says true allowed a
      → Says true allowed b
  Says-Checked allowed a b c s = (c.user_decision ∙ s.0, c.allowed ∙ s.1)

  Settled-IsRecorded :
      (v : String) (p : PendingConsent T) (g h : Gateway T)
      → p.decided ≡ true
      → Recorded v p
      → Settled host v p g h
      → ((q : PendingConsent T)
          → lookup v g.pending ≡ some q
          → p.consent_request ≡ q.consent_request)
      → IsRecorded g
      → IsRecorded h
  Settled-IsRecorded v p g h d r t asks k = record {
    pending = λ w q l. elim (Bool-cases (v == w)) [
      | inr ne ↦ k.pending w q (sym (t.other w ne) ∙ l)
      | inl e ↦
          let at_v : lookup v h.pending ≡ some q =
            subst (λ x. lookup x h.pending ≡ some q) (sym ((string_eq.beq_iff v w).0 e)) l in
          let same : record p { artifact = t.artifact } ≡ q =
            ap (λ x. get_or x q) (sym t.own ∙ at_v) in
          subst (λ x. Recorded x q) ((string_eq.beq_iff v w).0 e) (subst (Recorded v) same settled)
    ];
    table = elim t.table [
      | inl e ↦ subst (Table h.pending) (sym e) (Table-Keeps g.pending h.pending _ keeps k.table)
      | inr (rows, e, f, u) ↦
          let before : Rows g.pending rows = subst (Table g.pending) e k.table in
          subst (Table h.pending) (sym f) (
            Rows-snoc h.pending rows t.artifact (Rows-Keeps g.pending h.pending rows keeps before)
              (record {
                said = (p.allowed, said.0, said.1);
                asked = (
                  record p { artifact = t.artifact },
                  ap (λ x. lookup x h.pending) (t.checked.request_id ∙ r.id) ∙ t.own,
                  d,
                  sym (t.checked.request ∙ r.request),
                );
              }))
    ];
  }
    where
      keeps : Keeps g.pending h.pending
      keeps w q found decided = elim (Bool-cases (v == w)) [
        | inr ne ↦ (q, t.other w ne ∙ found, decided, refl)
        | inl e ↦
            let same = (string_eq.beq_iff v w).0 e in
            (
              record p { artifact = t.artifact },
              subst (λ x. lookup x h.pending ≡ some (record p { artifact = t.artifact })) same
                  t.own,
              d,
              asks q (subst (λ x. lookup x g.pending ≡ some q) (sym same) found),
            )
      ]

      said : Says true p.allowed t.artifact
      said =
          Says-Checked p.allowed p.artifact t.artifact t.checked
            (subst (λ b. Says b p.allowed p.artifact) d r.says)

      settled : Recorded v (record p { artifact = t.artifact })
      settled = record {
        id = t.checked.request_id ∙ r.id;
        request = t.checked.request ∙ r.request;
        says = subst (λ b. Says b p.allowed t.artifact) (sym d) said;
      }

  decide-IsRecorded :
      (v : String) (allowed : Bool) (now : T) (g : Gateway T)
      → IsRecorded g
      → IsRecorded (decide host v allowed now g).1
  decide-IsRecorded v allowed now g k = elim (decide_cases host v allowed now g) [
    | inl (q, e) ↦ subst IsRecorded (sym (ap (λ x. x.1) e)) k
    | inr (p, q, e) ↦
        let found = get_pending_found host v g p q in
        let r = k.pending v p found.0 in
        let r' : Recorded v (with_decision host allowed now p) = record {
          id = r.id;
          request = r.request;
          says = (refl, refl);
        } in
        subst IsRecorded (sym (ap (λ x. x.1) e)) (
          Settled-IsRecorded v (with_decision host allowed now p) g _ refl r'
            (decide_on-Settled host v (with_decision host allowed now p) g)
            (λ o there. ap (λ x. (get_or x p).consent_request) (sym found.0 ∙ there)) k)
  ]

  register-IsRecorded :
      (v : String) (r : ConsentRequest) (now : T) (g : Gateway T)
      → lookup v g.pending ≡ none
      → IsRecorded g
      → IsRecorded (register host v r now g).1
  unfolding build_consent_artifact
  register-IsRecorded v r now g free k =
      let h = (register host v r now g).1 in
      let p = new_pending host v r now g in
      let put = register-Put host v r now g in
      let fresh : Recorded v p = record { id = refl; request = refl; says = (refl, refl, refl) } in
      record {
        pending = λ w q l. elim (Bool-cases (v == w)) [
          | inr ne ↦ k.pending w q (sym (Put-other host v w p g h put ne) ∙ l)
          | inl e ↦
              let at_v : lookup v h.pending ≡ some q =
                subst (λ x. lookup x h.pending ≡ some q) (sym ((string_eq.beq_iff v w).0 e)) l in
              let same : p ≡ q = ap (λ x. get_or x q) (sym (Put-own host v p g h put) ∙ at_v) in
              subst (λ x. Recorded x q) ((string_eq.beq_iff v w).0 e)
                (subst (Recorded v) same fresh)
        ];
        table = subst (Table h.pending) (sym put.2) (
            Table-Keeps g.pending h.pending g.consent_artifacts
              (λ w q found decided. elim (Bool-cases (v == w)) [
                | inr ne ↦ (q, Put-other host v w p g h put ne ∙ found, decided, refl)
                | inl e ↦
                    let none_there : lookup w g.pending ≡ none =
                      subst (λ x. lookup x g.pending ≡ none) ((string_eq.beq_iff v w).0 e) free in
                    absurd (ground arith)
              ])
              k.table);
      }

  Step-IsRecorded :
      {may : String → Type 0} {g h : Gateway T} → Step host may g h → IsRecorded g → IsRecorded h
  unfolding bind_session_context
  Step-IsRecorded {may} {g} (decides v allowed now) k = decide-IsRecorded v allowed now g k
  Step-IsRecorded {may} {g} (binds session stream m) k = record {
    pending = k.pending;
    table = k.table;
  }
  Step-IsRecorded {may} {g} (submits v r now fresh) k = elim (submit_cases host v r now g) [
    | inl e ↦ subst IsRecorded (sym e) (register-IsRecorded v r now g fresh k)
    | inr (allowed, e) ↦ subst IsRecorded (sym e) (
        decide-IsRecorded v allowed now (register host v r now g).1
          (register-IsRecorded v r now g fresh k))
  ]

  -- Whatever calls are made, also such as raise, each request agrees with its artifact on the id, on
  -- what was asked and on the decision, where an undecided one is not allowed; and each row of the
  -- table is a decision, allowed exactly where it says "allow", on a request that is there with the
  -- same question and is decided. Where a request is decided again, an earlier row may say
  -- otherwise than the request.
  pub Reach-IsRecorded :
      {may : String → Type 0} {g h : Gateway T} → Reach host may g h → IsRecorded g → IsRecorded h
  Reach-IsRecorded here k = k
  Reach-IsRecorded (next r step) k = Step-IsRecorded step (Reach-IsRecorded r k)

  -- Whether `decide` returns or raises behind its first guard, and whether or not the request had been
  -- decided before: afterwards it is decided, as the call says.
  pub decide_settles :
      (v : String) (allowed : Bool) (now : T) (g : Gateway T) (p : PendingConsent T)
      → get_pending v g ≡ some p
      → (q : PendingConsent T) × (lookup v (decide host v allowed now g).1.pending ≡ some q)
        × (q.decided ≡ true)
        × (q.allowed ≡ allowed)
        × (q.artifact.user_decision ≡ decision_text host allowed)
        × (q.consent_request ≡ p.consent_request)
  decide_settles v allowed now g p h = elim (decide_cases host v allowed now g) [
    | inl (q, e) ↦ absurd (ground arith)
    | inr (o, q, e) ↦
        let same : o ≡ p = ap (λ x. get_or x o) (sym q ∙ h) in
        let t = decide_on-Settled host v (with_decision host allowed now o) g in
        (
          record (with_decision host allowed now o) { artifact = t.artifact },
          rw e t.own,
          refl,
          refl,
          t.checked.user_decision,
          ap (λ x. x.consent_request) same,
        )
  ]
