-- ===== src/Scheduler/CronLaws.antt =====
-- What a cron expression stands for: the bounds of its fields, the whole range of a star, and the
-- first fitting minute.
use offline_companion_core.Base.{
  ℕ, zero, suc, ◌+◌, ◌-◌, ◌≤◌, ◌<◌, String, ◌≡◌, refl, subst, inl, inr, Bool, true, false, ◌&&◌,
  none, some, List, [], ◌∷◌, ◌++◌, arith, leb, nat_beq, Bool-cases, Option-cases, all, ◌==◌, nat_eq,
  string_eq, pair_eq, contains, ok, err, Result-cases,
}
use offline_companion_core.Base.Text.{strip}
use offline_companion_core.Base.Text.{split_where, cut_at, all_digits, digits_value}
use mathlib.Core.List.{append-nil}
use offline_companion_core.Scheduler.Cron.{
  Moment, CronError, CronExpression, bad_range, parse_value, range_from, range, parse_step,
  parse_range, parse_base, parse_chunk, parse_chunks, parse_field, matches, search, next_after,
  candidates,
}

abbrev pub within : ℕ → ℕ → ℕ → Bool
within minimum maximum v = leb minimum v && leb v maximum

all-append :
    (p : ℕ → Bool) (xs ys : List ℕ) → all p xs ≡ true → all p ys ≡ true → all p (xs ++ ys) ≡ true
all-append p [] ys h k = k
all-append p (x ∷ xs) ys h k = ground (arith, all-append p xs ys)

range_from-within :
    (fuel start stop step minimum maximum : ℕ)
    → minimum ≤ start
    → stop ≤ maximum
    → all (within minimum maximum) (range_from fuel start stop step) ≡ true
unfolding range_from
range_from-within zero start stop step minimum maximum h k = refl
range_from-within (suc fuel) start stop step minimum maximum h k =
    ground (arith, range_from-within fuel (start + step) stop step minimum maximum (omega arith) k)

parse_value-within :
    (minimum maximum : ℕ) (allow : Bool) (s : String) (v : ℕ)
    → parse_value minimum maximum allow s ≡ ok v
    → (minimum ≤ v) × (v ≤ maximum)
unfolding parse_value
parse_value-within minimum maximum allow s v h = ground arith

parse_range-within :
    (minimum maximum : ℕ) (allow : Bool) (a b : String) (step : ℕ) (vs : List ℕ)
    → parse_range minimum maximum allow a b step ≡ ok vs
    → all (within minimum maximum) vs ≡ true
unfolding parse_range
parse_range-within minimum maximum allow a b step vs h =
    elim (Result-cases (parse_value minimum maximum allow a)) [
      | inr (e, q) ↦ absurd (ground arith)
      | inl (start, q) ↦ elim (Result-cases (parse_value minimum maximum allow b)) [
        | inr (e, r) ↦ absurd (ground arith)
        | inl (stop, r) ↦
            let low = parse_value-within minimum maximum allow a start q in
            let high = parse_value-within minimum maximum allow b stop r in
            let inside =
              range_from-within (suc (stop - start)) start stop step minimum maximum low.0 high.1 in
            let e : range start stop step ≡ vs = ground arith in
            subst (λ ws. all (within minimum maximum) ws ≡ true) e inside
      ]
    ]

parse_base-within :
    (minimum maximum : ℕ) (allow : Bool) (base : String) (step : ℕ) (vs : List ℕ)
    → parse_base minimum maximum allow base step ≡ ok vs
    → all (within minimum maximum) vs ≡ true
unfolding parse_base
parse_base-within minimum maximum allow base step vs h = elim (Bool-cases (base == "*")) [
  | inl q ↦
      let e : range minimum maximum step ≡ vs = ground arith in
      subst (λ ws. all (within minimum maximum) ws ≡ true) e
        (range_from-within (suc (maximum - minimum)) minimum maximum step minimum maximum
          (omega arith) (omega arith))
  | inr q ↦ elim (Option-cases (cut_at b'-' base)) [
    | inr ((a, b), c) ↦ parse_range-within minimum maximum allow a b step vs (ground arith)
    | inl c ↦ elim (Result-cases (parse_value minimum maximum allow base)) [
      | inr (e, r) ↦ absurd (ground arith)
      | inl (v, r) ↦ ground (arith, parse_value-within minimum maximum allow base v r)
    ]
  ]
]

parse_chunk-within :
    (minimum maximum : ℕ) (allow : Bool) (c : String) (vs : List ℕ)
    → parse_chunk minimum maximum allow c ≡ ok vs
    → all (within minimum maximum) vs ≡ true
unfolding parse_chunk
parse_chunk-within minimum maximum allow c vs h = elim (Result-cases (parse_step c)) [
  | inr (e, q) ↦ absurd (ground arith)
  | inl (r, q) ↦ parse_base-within minimum maximum allow r.0 r.1 vs (ground arith)
]

parse_chunks-within :
    (minimum maximum : ℕ) (allow : Bool) (chunks : List String) (vs : List ℕ)
    → parse_chunks minimum maximum allow chunks ≡ ok vs
    → all (within minimum maximum) vs ≡ true
unfolding parse_chunks
parse_chunks-within minimum maximum allow [] vs h = ground arith
parse_chunks-within minimum maximum allow (c ∷ cs) vs h =
    elim (Result-cases (parse_chunk minimum maximum allow (strip c))) [
      | inr (e, q) ↦ absurd (ground arith)
      | inl (us, q) ↦ elim (Result-cases (parse_chunks minimum maximum allow cs)) [
        | inr (e, r) ↦ absurd (ground arith)
        | inl (ws, r) ↦
            let e : us ++ ws ≡ vs = ground arith in
            subst (λ xs. all (within minimum maximum) xs ≡ true) e
              (all-append (within minimum maximum) us ws
                (parse_chunk-within minimum maximum allow (strip c) us q)
                (parse_chunks-within minimum maximum allow cs ws r))
      ]
    ]

-- Every value of a field that parses lies within the field's bounds.
pub parse_field-within :
    (minimum maximum : ℕ) (allow : Bool) (field : String) (vs : List ℕ)
    → parse_field minimum maximum allow field ≡ ok vs
    → all (within minimum maximum) vs ≡ true
unfolding parse_field
parse_field-within minimum maximum allow field vs h =
    parse_chunks-within minimum maximum allow (split_where (λ c. nat_beq c b',') field) vs h

range_from-contains :
    (fuel start stop v : ℕ)
    → start ≤ v
    → v ≤ stop
    → v < start + fuel
    → contains (range_from fuel start stop 1) v ≡ true
unfolding range_from
range_from-contains zero start stop v h k f = absurd (omega arith)
range_from-contains (suc fuel) start stop v h k f = elim (Bool-cases (nat_beq start v)) [
  | inl q ↦ ground arith
  | inr q ↦ ground (arith, range_from-contains fuel (start + 1) stop v)
]

-- A star stands for exactly the values of the field.
pub parse_field_star :
    (minimum maximum : ℕ) (allow : Bool) (v : ℕ)
    → minimum ≤ v
    → v ≤ maximum
    → (vs : List ℕ) × (parse_field minimum maximum allow "*" ≡ ok vs) × (contains vs v ≡ true)
unfolding parse_field parse_chunks parse_chunk parse_step parse_base split_where cut_at strip
parse_field_star minimum maximum allow v h k = (
  range minimum maximum 1 ++ [],
  refl,
  rw (append-nil (range minimum maximum 1))
      (range_from-contains (suc (maximum - minimum)) minimum maximum v h k (omega arith)),
)

seven_is_sunday : parse_value 0 6 true "7" ≡ ok 0
unfolding parse_value all_digits digits_value
seven_is_sunday = refl

-- The days of the week accept 7 for Sunday, and read it as 0: so a range that ends in 7 and does not
-- begin on Sunday is refused.
pub weekday_range_to_seven :
    (start : String) (n step : ℕ)
    → parse_value 0 6 true start ≡ ok n
    → 0 < n
    → parse_range 0 6 true start "7" step ≡ err bad_range
unfolding parse_range
weekday_range_to_seven start n step h p = let sunday = seven_is_sunday in ground arith

module _ (calendar : ℕ → Moment) (e : CronExpression) where
  search_first :
      (left candidate : ℕ)
      → ((m : ℕ)
          → search calendar e left candidate ≡ some m
          → (candidate ≤ m)
            × (m < candidate + left)
            × (matches e (calendar m) ≡ true)
            × ((k : ℕ) → candidate ≤ k → k < m → matches e (calendar k) ≡ false))
        × (search calendar e left candidate ≡ none
            → (k : ℕ) → candidate ≤ k
            → k < candidate + left
            → matches e (calendar k) ≡ false)
  unfolding search
  search_first zero candidate = (λ m h. absurd (ground arith), λ h k l u. absurd (omega arith))
  search_first (suc left) candidate =
      let later = search_first left (suc candidate) in
      elim (Bool-cases (matches e (calendar candidate))) [
        | inl q ↦ (
          (λ m h.
              let same : candidate ≡ m = ground arith in
              subst
                (λ m.
                  (candidate ≤ m)
                  × (m < candidate + suc left)
                  × (matches e (calendar m) ≡ true)
                  × ((k : ℕ) → candidate ≤ k → k < m → matches e (calendar k) ≡ false))
                same (omega arith, omega arith, q, λ k l u. absurd (omega arith))),
          λ h. absurd (ground arith),
        )
        | inr q ↦ (
          (λ m h.
              let found = later.0 m (ground arith) in
              (
                omega arith,
                omega arith,
                found.2,
                λ k l u. elim (Bool-cases (nat_beq k candidate)) [
                  | inl same ↦ ground arith
                  | inr other ↦ found.3 k (ground arith) u
                ],
              )),
          λ h k l u. elim (Bool-cases (nat_beq k candidate)) [
            | inl same ↦ ground arith
            | inr other ↦ later.1 (ground arith) k (ground arith) (omega arith)
          ],
        )
      ]

  -- The minute that `next_after` gives lies after the given one and within 366 days and a minute of
  -- it, fits the expression, and no minute between the two fits.
  pub next_after_first :
      (after m : ℕ)
      → next_after calendar e after ≡ ok m
      → (after < m)
        × (m ≤ after + candidates)
        × (matches e (calendar m) ≡ true)
        × ((k : ℕ) → after < k → k < m → matches e (calendar k) ≡ false)
  unfolding next_after
  next_after_first after m h =
      let found = (search_first candidates (suc after)).0 m (ground arith) in
      (omega arith, omega arith, found.2, λ k l u. found.3 k (omega arith) u)

  -- `next_after` raises only where no minute of the 366 days and a minute fits.
  pub next_after_none :
      (after k : ℕ) (x : CronError)
      → next_after calendar e after ≡ err x
      → after < k
      → k ≤ after + candidates
      → matches e (calendar k) ≡ false
  unfolding next_after
  next_after_none after k x h l u =
      (search_first candidates (suc after)).1 (ground arith) k (omega arith) (omega arith)
