-- ===== src/Lifecycle/Topo/Invariant.antt =====
-- What the loop of core/lifecycle/topo.py keeps between two rounds.
use offline_companion_core.Base.{
  ℕ, ◌-◌, String, ◌≡◌, sym, ap, subst, ◌≢◌, ◌⊎◌, inl, inr, true, false, List, [], ◌∷◌, ◌++◌, arith,
  nat_beq, if◌then◌else◌, nat_beq_iff, Bool-cases, ◌==◌, nat_eq, string_eq, pair_eq, contains,
  beq_self,
}
use offline_companion_core.Base.Dict.{Dict, insert}
use offline_companion_core.Lifecycle.Topo.{degree, release}
use offline_companion_core.Lifecycle.Topo.Counts.{count, Distinct, contains-append, Distinct-snoc}
use offline_companion_core.Lifecycle.Topo.Links.{degree-insert}

-- `all_ids` are the ids, `seen` those put out. Whatever is queued or put out has degree 0, and an id of
-- degree 0 is one of these.
pub record Zeros (all_ids seen : List String) (d : Dict String ℕ) (queue : List String)
    : Type 0 where
  pub distinct : Distinct queue
  pub fresh : (v : String) → contains queue v ≡ true → contains seen v ≡ false
  pub known : (v : String) → contains queue v ≡ true → contains all_ids v ≡ true
  pub queued : (v : String) → contains queue v ≡ true → degree d v ≡ 0
  pub done : (v : String) → contains seen v ≡ true → degree d v ≡ 0
  pub covered :
      (v : String)
      → contains all_ids v ≡ true
      → degree d v ≡ 0
      → contains queue v ≡ false
      → contains seen v ≡ true

-- One more is put out: it goes from the queue to the ids seen.
pub Zeros-pop :
    (all_ids seen : List String) (d : Dict String ℕ) (u : String) (queue : List String)
    → Zeros all_ids seen d (u ∷ queue)
    → Zeros all_ids (u ∷ seen) d queue
Zeros-pop all_ids seen d u queue z = record {
  distinct = z.distinct.1;
  fresh = λ v h. elim (Bool-cases (u == v)) [
    | inl q ↦
        let bad : contains queue v ≡ false =
          subst (λ x. contains queue x ≡ false) ((string_eq.beq_iff u v).0 q) z.distinct.0 in
        absurd (ground arith)
    | inr q ↦ let f = z.fresh v (ground arith) in ground arith
  ];
  known = λ v h. z.known v (ground arith);
  queued = λ v h. z.queued v (ground arith);
  done = λ v h. elim (Bool-cases (u == v)) [
    | inl q ↦ z.queued v (ground arith)
    | inr q ↦ z.done v (ground arith)
  ];
  covered = λ v a n h. elim (Bool-cases (u == v)) [
    | inl q ↦ ground arith
    | inr q ↦ let c = z.covered v a n (ground arith) in ground arith
  ];
}

abbrev lower : String → Dict String ℕ → Dict String ℕ
lower v d = insert v (degree d v - 1) d

abbrev queue_after : String → Dict String ℕ → List String → List String
queue_after v d queue = if nat_beq (degree d v) 1 then queue ++ v ∷ [] else queue

degree-lower :
    (v w : String) (d : Dict String ℕ) → degree (lower v d) w ≡ degree d w - count w (v ∷ [])
degree-lower v w d =
    let a = string_eq.beq_iff v w in
    let b = string_eq.beq_iff w v in
    elim (Bool-cases (v == w)) [
      | inl q ↦
          let back : (w == v) ≡ true = b.1 (sym (a.0 q)) in
          let same : degree d v ≡ degree d w = ap (degree d) (a.0 q) in
          rw (degree-insert v w (degree d v - 1) d, q, back, same) (omega arith)
      | inr q ↦
          let back : (w == v) ≡ false = ground arith in
          rw (degree-insert v w (degree d v - 1) d, q, back) (omega arith)
    ]

-- A degree goes down by 1; an id whose degree was 1 is queued.
Zeros-lower_last :
    (all_ids seen : List String) (d : Dict String ℕ) (v : String) (queue : List String)
    → contains all_ids v ≡ true
    → degree d v ≡ 1
    → Zeros all_ids seen d queue
    → Zeros all_ids seen (lower v d) (queue ++ v ∷ [])
Zeros-lower_last all_ids seen d v queue i one z = record {
  distinct = Distinct-snoc queue v z.distinct new;
  fresh = λ w h. elim (member_cases w h) [
    | inl q ↦ z.fresh w q
    | inr q ↦ subst (λ x. contains seen x ≡ false) q unseen
  ];
  known = λ w h. elim (member_cases w h) [
    | inl q ↦ z.known w q
    | inr q ↦ subst (λ x. contains all_ids x ≡ true) q i
  ];
  queued = λ w h. elim (member_cases w h) [
    | inl q ↦ rw (degree-lower v w d) (omega (arith, z.queued w q))
    | inr q ↦
        subst (λ x. degree (lower v d) x ≡ 0) q
          (rw (degree-lower v v d, beq_self v) (omega (arith, one)))
  ];
  done = λ w h. rw (degree-lower v w d) (omega (arith, z.done w h));
  covered = λ w a n h. elim (Bool-cases (v == w)) [
    | inl q ↦ absurd (ground (arith, contains-append queue (v ∷ []) w))
    | inr q ↦
        let same : degree d w ≡ 0 = rw (degree-insert v w (degree d v - 1) d, q) at n in
        z.covered w a same (ground (arith, contains-append queue (v ∷ []) w))
  ];
}
  where
    new : contains queue v ≡ false
    new = elim (Bool-cases (contains queue v)) [
      | inl q ↦ absurd (omega (arith, z.queued v q, one))
      | inr q ↦ q
    ]

    unseen : contains seen v ≡ false
    unseen = elim (Bool-cases (contains seen v)) [
      | inl q ↦ absurd (omega (arith, z.done v q, one))
      | inr q ↦ q
    ]

    member_cases :
        (w : String) → contains (queue ++ v ∷ []) w ≡ true → (contains queue w ≡ true) ⊎ (v ≡ w)
    member_cases w h =
        let b = string_eq.beq_iff v w in
        elim (Bool-cases (contains queue w)) [
          | inl q ↦ inl q
          | inr q ↦ inr (b.0 (ground (arith, contains-append queue (v ∷ []) w)))
        ]

Zeros-lower_more :
    (all_ids seen : List String) (d : Dict String ℕ) (v : String) (queue : List String)
    → degree d v ≢ 1
    → Zeros all_ids seen d queue
    → Zeros all_ids seen (lower v d) queue
Zeros-lower_more all_ids seen d v queue ne z = record {
  distinct = z.distinct;
  fresh = z.fresh;
  known = z.known;
  queued = λ w h. rw (degree-lower v w d) (omega (arith, z.queued w h));
  done = λ w h. rw (degree-lower v w d) (omega (arith, z.done w h));
  covered = λ w a n h. z.covered w a (still w n) h;
}
  where
    still : (w : String) → degree (lower v d) w ≡ 0 → degree d w ≡ 0
    still w n = elim (Bool-cases (v == w)) [
      | inr q ↦ rw (degree-insert v w (degree d v - 1) d, q) at n
      | inl q ↦
          let m : degree d v - 1 ≡ 0 = rw (degree-insert v w (degree d v - 1) d, q) at n in
          let z' : degree d v ≡ 0 = ground arith in
          subst (λ x. degree d x ≡ 0) ((string_eq.beq_iff v w).0 q) z'
    ]

Zeros-lower :
    (all_ids seen : List String) (d : Dict String ℕ) (v : String) (queue : List String)
    → contains all_ids v ≡ true
    → Zeros all_ids seen d queue
    → Zeros all_ids seen (lower v d) (queue_after v d queue)
Zeros-lower all_ids seen d v queue i z = elim (Bool-cases (nat_beq (degree d v) 1)) [
  | inl q ↦ rw q (Zeros-lower_last all_ids seen d v queue i ((nat_beq_iff (degree d v) 1).0 q) z)
  | inr q ↦
      let ne : degree d v ≢ 1 = λ e. ground arith in
      rw q (Zeros-lower_more all_ids seen d v queue ne z)
]

pub release-Zeros :
    (all_ids seen vs : List String) (d : Dict String ℕ) (queue : List String)
    → ((v : String) → contains vs v ≡ true → contains all_ids v ≡ true)
    → Zeros all_ids seen d queue
    → Zeros all_ids seen (release vs d queue).0 (release vs d queue).1
unfolding release
release-Zeros all_ids seen [] d queue i z = z
release-Zeros all_ids seen (v ∷ vs) d queue i z =
    release-Zeros all_ids seen vs (lower v d) (queue_after v d queue) (λ w h. i w (ground arith))
      (Zeros-lower all_ids seen d v queue (i v (ground (arith, beq_self v))) z)

pub degree-release :
    (vs : List String) (d : Dict String ℕ) (queue : List String) (w : String)
    → degree (release vs d queue).0 w ≡ degree d w - count w vs
unfolding release
degree-release [] d queue w = omega arith
degree-release (v ∷ vs) d queue w =
    rw (degree-release vs (lower v d) (queue_after v d queue) w) (omega (arith, degree-lower v w d))
