-- ===== src/Subagent/Reviews.antt =====
-- A review approves only what its own text says it approves.
use offline_companion_core.Base.{
  ℕ, zero, suc, ◌-◌, String, ◌≡◌, refl, sym, ◌⊎◌, List, ◌++◌, subst, inl, inr, true, false, Option,
  none, some, [], ◌∷◌, arith, ltb, Option-cases, split_if, nat_eq, string_eq, pair_eq,
}
use offline_companion_core.Base.Text.{is_empty, strip, has_prefix, has_text, cut_text}
use offline_companion_core.Base.Cuts.{
  codes, has_prefix-codes, cut_text-codes, cut_text-none, cut_text_first,
}
use offline_companion_core.Base.Dict.{Dict, lookup}
use offline_companion_core.Subagent.Tools.{
  SubagentRole, implementer, reviewer, assistant, SubagentContext, Run, JsonValue, Json, object,
  other, Routed, route_error, replied, Host,
}
use offline_companion_core.Subagent.Loop.{
  Ended, returned, raised, plain_result, status_of, error_of, fenced, extract_json, truth, Review,
  review_in, review_of, parse_reviewer_result, execute_each, conclude, Rounds, take_up, run_loop,
  run, begun, say, stopping, count_call,
}

-- The mark behind which the JSON stands: the one for JSON, where the text has it.
abbrev Mark : String → String → Type 0
Mark text mark = (mark ≡ "```json") ⊎ ((mark ≡ "```") × (has_text "```json" text ≡ false))

-- The text that is taken for JSON: the reply itself where it begins with a brace, or else what stands
-- between its first mark and the first fence after that; white space around it aside.
pub data JsonIn (content t : String) : Type 0 where
  bare :
      (rest : List ℕ)
      → codes (strip content) ≡ codes "{" ++ rest
      → t ≡ strip content
      → JsonIn content t
  marked :
      (mark before rest inner after : String)
      → has_prefix "{" (strip content) ≡ false
      → Mark (strip content) mark
      → codes (strip content) ≡ codes before ++ codes mark ++ codes rest
      → has_text mark before ≡ false
      → codes rest ≡ codes inner ++ codes "```" ++ codes after
      → has_text "```" inner ≡ false
      → t ≡ strip inner
      → JsonIn content t

fenced-codes :
    (rest t : String)
    → fenced rest ≡ some t
    → (inner : String) × (after : String) × (codes rest ≡ codes inner ++ codes "```" ++ codes after)
      × (has_text "```" inner ≡ false)
      × (t ≡ strip inner)
fenced-codes rest t h = elim (Option-cases (cut_text "```" rest)) [
  | inl q ↦ absurd (ground arith)
  | inr ((inner, after), q) ↦ (
    inner,
    after,
    cut_text-codes "```" rest inner after q,
    cut_text_first "```" rest inner after refl q,
    ground arith,
  )
]

marked-JsonIn :
    (mark content before rest t : String)
    → has_prefix "{" (strip content) ≡ false
    → Mark (strip content) mark
    → is_empty mark ≡ false
    → cut_text mark (strip content) ≡ some (before, rest)
    → fenced rest ≡ some t
    → JsonIn content t
marked-JsonIn mark content before rest t brace m filled q h =
    let (inner, after, e, g, f) = fenced-codes rest t h in
    marked mark before rest inner after brace m (cut_text-codes mark (strip content) before rest q)
      (cut_text_first mark (strip content) before rest filled q) e g f

extract_json-JsonIn : (content t : String) → extract_json content ≡ some t → JsonIn content t
unfolding extract_json
extract_json-JsonIn content t =
    split_if (λ o. o ≡ some t → JsonIn content t) (has_prefix "{" (strip content))
      (λ q h. bare _ (has_prefix-codes "{" (strip content) q) (ground arith))
      (λ brace. json_fence brace (cut_text "```json" (strip content)) refl)
  where
    any_fence :
        has_prefix "{" (strip content) ≡ false
        → has_text "```json" (strip content) ≡ false
        → (o : Option (String × String)) → cut_text "```" (strip content) ≡ o
        → elim o [ none ↦ none | some (before, rest) ↦ fenced rest ] ≡ some t
        → JsonIn content t
    any_fence brace gone none q h = absurd (ground arith)
    any_fence brace gone (some (before, rest)) q h =
        marked-JsonIn "```" content before rest t brace (inr (refl, gone)) refl q h

    json_fence :
        has_prefix "{" (strip content) ≡ false
        → (o : Option (String × String)) → cut_text "```json" (strip content) ≡ o
        → elim o [
          | some (before, rest) ↦ fenced rest
          | none ↦ elim (cut_text "```" (strip content)) [
            | none ↦ none
            | some (before, rest) ↦ fenced rest
          ]
        ]
          ≡ some t
        → JsonIn content t
    json_fence brace none q h =
        any_fence brace (cut_text-none "```json" (strip content) q) (cut_text "```" (strip content))
          refl h
    json_fence brace (some (before, rest)) q h =
        marked-JsonIn "```json" content before rest t brace (inl refl) refl q h

module _ {V : Type 0} (host : Host V) where
  -- The output holds the JSON of an object whose field `approved` is there and true.
  pub data Approves (output : String) : Type 0 where
    approves :
        (t : String) (d : Dict String JsonValue) (v : JsonValue)
        → JsonIn output t
        → host.parse t ≡ some (object d)
        → lookup "approved" d ≡ some v
        → truth v ≡ true
        → Approves output

  -- An approval comes from a reviewer, and rests on a reply that approves.
  abbrev pub Grounded : Ended → Run V → Type 0
  Grounded raised s = Unit {0}
  Grounded (returned x) s = x.approved ≡ some true → (s.context.role ≡ reviewer) × Approves x.output

  abbrev End : Option (Ended × Run V) → Type 0
  End none = Unit {0}
  End (some (e, s)) = Grounded e s

  review_of-Approves :
      (content : String) (v : Review)
      → review_of host content ≡ some v
      → v.approved ≡ true
      → Approves content
  unfolding review_of review_in
  review_of-Approves content v h a = found (extract_json content) refl h
    where
      parsed :
          (t : String) (o : Option Json)
          → JsonIn content t
          → host.parse t ≡ o
          → elim o [ none ↦ none | some j ↦ review_in j ] ≡ some v
          → Approves content
      parsed t none i q k = absurd (ground arith)
      parsed t (some other) i q k = absurd (ground arith)
      parsed t (some (object d)) i q k = elim (Option-cases (lookup "approved" d)) [
        | inl r ↦ absurd (ground arith)
        | inr (x, r) ↦ approves t d x i q r (ground arith)
      ]

      found :
          (o : Option String)
          → extract_json content ≡ o
          → elim o [
            | none ↦ none
            | some t ↦ elim (host.parse t) [ none ↦ none | some j ↦ review_in j ]
          ]
            ≡ some v
          → Approves content
      found none q k = absurd (ground arith)
      found (some t) q k = parsed t (host.parse t) (extract_json-JsonIn content t q) refl k

  parse_reviewer_result-approved :
      (c : SubagentContext V) (content : String)
      → let x = parse_reviewer_result host c content in
        (x.output ≡ content) × (x.approved ≡ some true → Approves content)
  unfolding parse_reviewer_result
  parse_reviewer_result-approved c content = elim (Option-cases (review_of host content)) [
    | inl q ↦ rw (parse_reviewer_result, q) (refl, λ h. absurd (ground arith))
    | inr (v, q) ↦
        rw (parse_reviewer_result, q) (refl, λ h. review_of-Approves content v q (ground arith))
  ]

  conclude-Grounded : (content : String) (r : Run V) → Grounded (conclude host content r) r
  unfolding conclude
  conclude-Grounded content r = by_role r.context.role refl
    where
      by_role :
          (role : SubagentRole)
          → r.context.role ≡ role
          → Grounded
              (elim role [
                | reviewer ↦ returned (parse_reviewer_result host r.context content)
                | implementer ↦
                    let stopped = r.context.interrupted in
                    returned (plain_result r.context (status_of stopped) content (error_of stopped))
              ])
              r
      by_role implementer e = λ h. absurd (ground arith)
      by_role reviewer e = λ h.
          let p = parse_reviewer_result-approved r.context content in
          (e, subst Approves (sym p.0) (p.1 h))

  take_up-Grounded :
      (go : Rounds host) (x : Routed) (r : Run V)
      → ((s : Run V) → End (go s))
      → End (take_up host go x r)
  unfolding take_up
  take_up-Grounded go (route_error text) r k = λ h. absurd (ground arith)
  take_up-Grounded go (replied content [] stop) r k =
      conclude-Grounded content (stopping stop (say (assistant content []) r))
  take_up-Grounded go (replied content (t ∷ ts) stop) r k =
      let ran = execute_each host (t ∷ ts) (stopping stop (say (assistant content (t ∷ ts)) r)) in
      split_if End ran.0 (λ q. k ran.1) (λ q. tt)

  run_loop-Grounded : (fuel : ℕ) (r : Run V) → End (run_loop host fuel r)
  unfolding run_loop
  run_loop-Grounded zero r = tt
  run_loop-Grounded (suc fuel) r =
      split_if End (ltb r.context.llm_call_count r.context.max_llm_calls)
        (λ q.
          split_if End r.context.interrupted (λ s h. absurd (ground arith))
            (λ s.
              take_up-Grounded (run_loop host fuel)
                (host.route r.context.messages r.context.llm_call_count) (count_call host r)
                (run_loop-Grounded fuel)))
        (λ q h. absurd (ground arith))

  -- Where a run ends with an approval, the subagent is a reviewer, and its last reply, which is the
  -- output, is or has between its first mark and the next fence the JSON of an object whose field `approved` is
  -- there and true: a reply in another form never approves.
  pub run-Grounded : (r s : Run V) (e : Ended) → run host r ≡ some (e, s) → Grounded e s
  unfolding run
  run-Grounded r s e h =
      subst End h
        (run_loop-Grounded (suc (r.context.max_llm_calls - r.context.llm_call_count)) (begun r))
