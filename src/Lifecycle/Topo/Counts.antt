-- ===== src/Lifecycle/Topo/Counts.antt =====
-- Occurrences in lists of ids.
use offline_companion_core.Base.{
  ℕ, ◌+◌, ◌<◌, ◌≡◌, refl, sym, ap, subst, inl, inr, Bool, true, false, ◌&&◌, ◌||◌, List, [], ◌∷◌,
  ◌++◌, arith, ltb, if◌then◌else◌, Bool-cases, length, select, Eq, nat_eq, string_eq, pair_eq,
  contains, beq_self,
}

module _ {K : Type 0} ⦃e : Eq K⦄ where
  abbrev pub count : K → List K → ℕ
  count x [] = 0
  count x (y ∷ ys) = (if e.beq x y then 1 else 0) + count x ys

  -- How many of the second list are not in the first.
  abbrev pub outside : List K → List K → ℕ
  outside seen [] = 0
  outside seen (w ∷ ws) = (if contains seen w then 0 else 1) + outside seen ws

  abbrev pub Distinct : List K → Type 0
  Distinct [] = Unit {0}
  Distinct (x ∷ xs) = (contains xs x ≡ false) × Distinct xs

  pub outside-cons :
      (u : K) (seen ws : List K)
      → contains seen u ≡ false
      → outside (u ∷ seen) ws + count u ws ≡ outside seen ws
  outside-cons u seen [] h = refl
  outside-cons u seen (w ∷ ws) h = elim (Bool-cases (e.beq u w)) [
    | inr q ↦ rw q (ground (arith, outside-cons u seen ws h))
    | inl q ↦
        let same : contains seen w ≡ false =
          subst (λ x. contains seen x ≡ false) ((e.beq_iff u w).0 q) h in
        rw (q, same) (omega (arith, outside-cons u seen ws h))
  ]

  pub outside-nil : (ws : List K) → outside [] ws ≡ length ws
  outside-nil [] = refl
  outside-nil (w ∷ ws) = omega (arith, outside-nil ws)

  pub outside_none :
      (seen ws : List K) (w : K)
      → outside seen ws ≡ 0
      → contains ws w ≡ true
      → contains seen w ≡ true
  outside_none seen (v ∷ ws) w z h = elim (Bool-cases (contains seen v)) [
    | inr q ↦ absurd (ground arith)
    | inl q ↦ elim (Bool-cases (e.beq v w)) [
      | inl r ↦ subst (λ x. contains seen x ≡ true) ((e.beq_iff v w).0 r) q
      | inr r ↦ outside_none seen ws w (ground arith) (ground arith)
    ]
  ]
  outside_none seen [] w z h = absurd (ground arith)

  -- Something outside.
  pub outside_some :
      (seen ws : List K)
      → 0 < outside seen ws
      → (w : K) × (contains ws w ≡ true) × (contains seen w ≡ false)
  outside_some seen [] h = absurd (omega arith)
  outside_some seen (v ∷ ws) h = elim (Bool-cases (contains seen v)) [
    | inr q ↦ (v, ground (arith, beq_self v), q)
    | inl q ↦ let r = outside_some seen ws (ground arith) in (r.0, ground (arith, r.1), r.2)
  ]

  pub contains-count : (xs : List K) (x : K) → contains xs x ≡ true → 0 < count x xs
  contains-count [] x h = absurd (ground arith)
  contains-count (y ∷ ys) x h = elim (Bool-cases (e.beq y x)) [
    | inl q ↦
        let s : e.beq x y ≡ true = (e.beq_iff x y).1 (sym ((e.beq_iff y x).0 q)) in
        rw s (omega arith)
    | inr q ↦ let r = contains-count ys x (ground arith) in omega arith
  ]

  pub count-contains : (xs : List K) (x : K) → 0 < count x xs → contains xs x ≡ true
  count-contains [] x h = absurd (omega arith)
  count-contains (y ∷ ys) x h = elim (Bool-cases (e.beq x y)) [
    | inl q ↦ let s : e.beq y x ≡ true = (e.beq_iff y x).1 (sym ((e.beq_iff x y).0 q)) in rw s refl
    | inr q ↦ ground (arith, count-contains ys x (ground arith))
  ]

  pub count-append : (x : K) (xs ys : List K) → count x (xs ++ ys) ≡ count x xs + count x ys
  count-append x [] ys = omega arith
  count-append x (z ∷ xs) ys = omega (arith, count-append x xs ys)

  pub contains-append :
      (xs ys : List K) (x : K) → contains (xs ++ ys) x ≡ (contains xs x || contains ys x)
  contains-append [] ys x = refl
  contains-append (z ∷ xs) ys x = ground (arith, contains-append xs ys x)

  -- A member of a list without repetition stands in it once.
  pub count_once : (xs : List K) (x : K) → Distinct xs → contains xs x ≡ true → count x xs ≡ 1
  count_once [] x d h = absurd (ground arith)
  count_once (y ∷ ys) x d h = elim (Bool-cases (e.beq x y)) [
    | inl q ↦ elim (Bool-cases (contains ys x)) [
      | inl r ↦ absurd (ground (arith, d.0, ap (contains ys) ((e.beq_iff x y).0 q)))
      | inr r ↦ elim (Bool-cases (ltb 0 (count x ys))) [
        | inl t ↦ absurd (ground (arith, count-contains ys x (ground arith)))
        | inr t ↦ rw q (ground arith)
      ]
    ]
    | inr q ↦
        let s = e.beq_iff x y in
        let t = e.beq_iff y x in
        let rest : contains ys x ≡ true = ground arith in
        rw q (omega (arith, count_once ys x d.1 rest))
  ]

  pub Distinct-snoc :
      (xs : List K) (x : K) → Distinct xs → contains xs x ≡ false → Distinct (xs ++ x ∷ [])
  Distinct-snoc [] x d h = (refl, tt)
  Distinct-snoc (y ∷ ys) x d h =
      let s = e.beq_iff x y in
      let t = e.beq_iff y x in
      (ground (arith, contains-append ys (x ∷ []) y), Distinct-snoc ys x d.1 (ground arith))

  pub contains-select :
      (p : K → Bool) (xs : List K) (x : K) → contains (select p xs) x ≡ (contains xs x && p x)
  contains-select p [] x = refl
  contains-select p (y ∷ ys) x = elim (Bool-cases (e.beq y x)) [
    | inl q ↦
        let same : p y ≡ p x = ap p ((e.beq_iff y x).0 q) in
        elim (Bool-cases (p x)) [
          | inl s ↦ rw (same, s, q) refl
          | inr s ↦ rw (same, s, q) (ground (arith, contains-select p ys x))
        ]
    | inr q ↦ elim (Bool-cases (p y)) [
      | inl s ↦ rw (s, q) (contains-select p ys x)
      | inr s ↦ rw (s, q) (contains-select p ys x)
    ]
  ]
