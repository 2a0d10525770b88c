-- ===== src/Outbound/Sessions.antt =====
-- The calls on the gateway, and what one session can do to the requests of another.
use offline_companion_core.Base.{
  String, ◌≡◌, refl, sym, ap, subst, ◌∙◌, ◌⊎◌, inl, inr, Bool, true, false, Option, none, some,
  List, arith, Bool-cases, Option-cases, get_or, ◌==◌, nat_eq, string_eq, pair_eq, err,
  Result-cases,
}
use offline_companion_core.Base.Dict.{lookup}
use offline_companion_core.Outbound.Consent.{
  ConsentRequest, PendingConsent, ConsentEvent, unknown_request, Gateway, Host, asked, is_visible,
  get_pending, bind_session_context, purpose_for_request, put_artifact, with_decision, decide_on,
  decide, new_pending, register, submit,
}
use offline_companion_core.Outbound.Visible.{announce_pending, decide_on-Settled, Put, Put-other}

module _ {T : Type 0} (host : Host T) where
  -- The calls, where `may` says which sessions can be bound. A new request has a new id.
  pub data Step (may : String → Type 0) (g : Gateway T) : Gateway T → Type 0 where
    submits :
        (v : String) (r : ConsentRequest) (now : T)
        → lookup v g.pending ≡ none
        → Step may g (submit host v r now g).1
    decides : (v : String) (allowed : Bool) (now : T) → Step may g (decide host v allowed now g).1
    binds :
        (session : String) (stream : Option (List ConsentEvent))
        → may session
        → Step may g (bind_session_context session stream g)

  pub data Reach (may : String → Type 0) (g : Gateway T) : Gateway T → Type 0 where
    here : Reach may g g
    next : {h i : Gateway T} → Reach may g h → Step may h i → Reach may g i

  pub decide_cases :
      (v : String) (allowed : Bool) (now : T) (g : Gateway T)
      → ((get_pending v g ≡ none) × (decide host v allowed now g ≡ (err (unknown_request v), g)))
        ⊎ ((p : PendingConsent T) × (get_pending v g ≡ some p)
            × (decide host v allowed now g ≡ decide_on host v (with_decision host allowed now p) g))
  unfolding decide
  decide_cases v allowed now g = elim (Option-cases (get_pending v g)) [
    | inl q ↦ inl (q, rw (decide, q) refl)
    | inr (p, q) ↦ inr (p, q, rw (decide, q) refl)
  ]

  pub get_pending_found :
      (v : String) (g : Gateway T) (p : PendingConsent T)
      → get_pending v g ≡ some p
      → (lookup v g.pending ≡ some p) × (is_visible g.active_session_id p ≡ true)
  unfolding get_pending
  get_pending_found v g p h = elim (Option-cases (lookup v g.pending)) [
    | inl q ↦ absurd (ground arith)
    | inr (o, q) ↦ elim (Bool-cases (is_visible g.active_session_id o)) [
      | inl s ↦
          let e : some o ≡ some p = sym (rw (get_pending, q, s) refl) ∙ h in
          let same : o ≡ p = ground arith in
          (q ∙ e, subst (λ x. is_visible g.active_session_id x ≡ true) same s)
      | inr s ↦
          let e : none ≡ some p = sym (rw (get_pending, q, s) refl) ∙ h in absurd (ground arith)
    ]
  ]

  pub register-Put :
      (v : String) (r : ConsentRequest) (now : T) (g : Gateway T)
      → Put host v (new_pending host v r now g) g (register host v r now g).1
  unfolding register
  register-Put v r now g =
      let p = new_pending host v r now g in
      let e =
        announce_pending host
          (asked v r.plan_id r.step_id (purpose_for_request host r) r.risk_level
            (lookup "trace_id" r.metadata))
          (put_artifact host v p p.artifact g) in
      (e.0, e.1, e.3)

  -- `submit` registers, and may then decide.
  pub submit_cases :
      (v : String) (r : ConsentRequest) (now : T) (g : Gateway T)
      → ((submit host v r now g).1 ≡ (register host v r now g).1)
        ⊎ ((allowed : Bool) × ((submit host v r now g).1
              ≡ (decide host v allowed now (register host v r now g).1).1))
  unfolding submit
  submit_cases v r now g =
      let g' = (register host v r now g).1 in
      elim (Result-cases (register host v r now g).0) [
        | inr (e, q) ↦ inl (rw (submit, q) refl)
        | inl (u, q) ↦ elim (Option-cases g'.decision_provider) [
          | inl s ↦ inl (rw (submit, q, s) refl)
          | inr (f, s) ↦ inr (f (new_pending host v r now g).artifact, rw (submit, q, s) refl)
        ]
      ]

  -- Another session than `a` is bound.
  abbrev pub Away : String → Option String → Type 0
  Away a none = ⊥
  Away a (some b) = (b == a) ≡ false

  abbrev Other : String → String → Type 0
  Other a b = (b == a) ≡ false

  Away-invisible :
      (a : String) (session : Option String) (p : PendingConsent T)
      → Away a session
      → p.session_id ≡ some a
      → is_visible session p ≡ false
  Away-invisible a none p h e = absurd h
  Away-invisible a (some b) p h e =
      rw e (ground (arith, string_eq.beq_iff a b, string_eq.beq_iff b a))

  decide_foreign :
      (a v w : String) (p : PendingConsent T) (allowed : Bool) (now : T) (g : Gateway T)
      → Away a g.active_session_id
      → lookup v g.pending ≡ some p
      → p.session_id ≡ some a
      → (lookup v (decide host w allowed now g).1.pending ≡ some p)
        × Away a (decide host w allowed now g).1.active_session_id
  decide_foreign a v w p allowed now g h l s = elim (decide_cases w allowed now g) [
    | inl (q, e) ↦ rw e (l, h)
    | inr (o, q, e) ↦
        let found = get_pending_found w g o q in
        let t = decide_on-Settled host w (with_decision host allowed now o) g in
        elim (Bool-cases (w == v)) [
          | inr ne ↦ rw e (t.other v ne ∙ l, subst (Away a) (sym t.session) h)
          | inl u ↦
              let l' : lookup w g.pending ≡ some p =
                subst (λ x. lookup x g.pending ≡ some p) (sym ((string_eq.beq_iff w v).0 u)) l in
              let same : o ≡ p = ap (λ x. get_or x o) (sym found.0 ∙ l') in
              let hidden = Away-invisible a g.active_session_id p h s in
              let shown : is_visible g.active_session_id p ≡ true =
                subst (λ x. is_visible g.active_session_id x ≡ true) same found.1 in
              absurd (ground arith)
        ]
  ]

  Step-foreign :
      (a v : String) (p : PendingConsent T) {g h : Gateway T}
      → Step (Other a) g h
      → Away a g.active_session_id
      → lookup v g.pending ≡ some p
      → p.session_id ≡ some a
      → (lookup v h.pending ≡ some p) × Away a h.active_session_id
  unfolding bind_session_context
  Step-foreign a v p {g} (decides w allowed now) h l s = decide_foreign a v w p allowed now g h l s
  Step-foreign a v p {g} (binds session stream ne) h l s = (l, ne)
  Step-foreign a v p {g} (submits w r now fresh) h l s =
      let g' = (register host w r now g).1 in
      let put = register-Put w r now g in
      let ne : (w == v) ≡ false = elim (Bool-cases (w == v)) [
        | inr q ↦ q
        | inl q ↦
            let same : lookup v g.pending ≡ none =
              subst (λ x. lookup x g.pending ≡ none) ((string_eq.beq_iff w v).0 q) fresh in
            absurd (ground arith)
      ] in
      let l' = Put-other host w v (new_pending host w r now g) g g' put ne ∙ l in
      let h' = subst (Away a) (sym put.1) h in
      elim (submit_cases w r now g) [
        | inl e ↦ rw e (l', h')
        | inr (allowed, e) ↦ rw e (decide_foreign a v w p allowed now g' h' l' s)
      ]

  -- While other sessions than `a` are bound, whatever they submit and decide, a request that was
  -- submitted under `a` stays as it is: its decision and its artifact too.
  pub Reach-foreign :
      (a v : String) (p : PendingConsent T) {g h : Gateway T}
      → Reach (λ b. (b == a) ≡ false) g h
      → Away a g.active_session_id
      → lookup v g.pending ≡ some p
      → p.session_id ≡ some a
      → (lookup v h.pending ≡ some p) × Away a h.active_session_id
  Reach-foreign a v p here h l s = (l, h)
  Reach-foreign a v p (next r step) h l s =
      let before = Reach-foreign a v p r h l s in Step-foreign a v p step before.1 before.0 s
