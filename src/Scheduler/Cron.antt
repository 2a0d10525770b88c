-- ===== src/Scheduler/Cron.antt =====
-- `CronExpression`, shell/job_scheduler.py. A minute is its number since the epoch, and `calendar`,
-- from the library `datetime`, gives its fields in UTC.
use offline_companion_core.Base.{
  ℕ, zero, suc, ◌+◌, ◌-◌, ◌*◌, String, Bool, true, false, not, ◌&&◌, ◌||◌, Option, none, some, List,
  [], ◌∷◌, ◌++◌, ltb, leb, nat_beq, if◌then◌else◌, ◌==◌, nat_eq, string_eq, pair_eq, contains,
  Result, ok, err, ◌>>=◌, ◌>>◌, guard,
}
use offline_companion_core.Base.Text.{is_empty, strip}
use Prim.Native.Nat.{◌%◌}
use offline_companion_core.Base.Text.{split_where, words, cut_at, all_digits, digits_value}

pub data CronError : Type 0 where
  not_five_fields empty_chunk bad_step bad_range bad_number out_of_range no_match : CronError

-- `weekday` counts from Monday as 0.
pub record Moment : Type 0 where
  pub minute : ℕ
  pub hour : ℕ
  pub day : ℕ
  pub month : ℕ
  pub weekday : ℕ

pub record CronExpression : Type 0 where
  pub minutes : List ℕ
  pub hours : List ℕ
  pub days : List ℕ
  pub months : List ℕ
  pub weekdays : List ℕ

abbrev pub is_number : String → Bool
is_number s = not (is_empty s) && all_digits s

abbrev pub zero_for_seven : Bool → ℕ → ℕ
zero_for_seven allow n = if allow && nat_beq n 7 then 0 else n

unfoldable pub parse_value : ℕ → ℕ → Bool → String → Result CronError ℕ
parse_value minimum maximum allow_7_as_0 value = do
  guard (is_number value) bad_number
  let parsed = zero_for_seven allow_7_as_0 (digits_value 0 value)
  guard (not (ltb parsed minimum || ltb maximum parsed)) out_of_range
  ok parsed

-- `range(start, end + 1, step)`, in at most `fuel` values.
unfoldable pub range_from : ℕ → ℕ → ℕ → ℕ → List ℕ
range_from zero start stop step = []
range_from (suc fuel) start stop step =
    let rest = range_from fuel (start + step) stop step in
    if leb start stop then start ∷ rest else []

abbrev pub range : ℕ → ℕ → ℕ → List ℕ
range start stop step = range_from (suc (stop - start)) start stop step

-- The step behind a slash; without one it is 1.
unfoldable pub parse_step : String → Result CronError (String × ℕ)
parse_step chunk = elim (cut_at b'/' chunk) [
  | none ↦ ok (chunk, 1)
  | some (base, raw_step) ↦
      if is_number raw_step && ltb 0 (digits_value 0 raw_step)
      then ok (base, digits_value 0 raw_step)
      else err bad_step
]

unfoldable pub parse_range : ℕ → ℕ → Bool → String → String → ℕ → Result CronError (List ℕ)
parse_range minimum maximum allow_7_as_0 start_raw end_raw step = do
  start ← parse_value minimum maximum allow_7_as_0 start_raw
  stop ← parse_value minimum maximum allow_7_as_0 end_raw
  guard (leb start stop) bad_range
  ok (range start stop step)

-- A single value takes no step.
unfoldable pub parse_base : ℕ → ℕ → Bool → String → ℕ → Result CronError (List ℕ)
parse_base minimum maximum allow_7_as_0 base step =
    if base == "*" then ok (range minimum maximum step) else elim (cut_at b'-' base) [
      | some (start_raw, end_raw) ↦ parse_range minimum maximum allow_7_as_0 start_raw end_raw step
      | none ↦ parse_value minimum maximum allow_7_as_0 base >>= λ v. ok (v ∷ [])
    ]

unfoldable pub parse_chunk : ℕ → ℕ → Bool → String → Result CronError (List ℕ)
parse_chunk minimum maximum allow_7_as_0 chunk =
    parse_step chunk >>= λ r. parse_base minimum maximum allow_7_as_0 r.0 r.1

-- The loop over the chunks. A set of values is a list.
unfoldable pub parse_chunks : ℕ → ℕ → Bool → List String → Result CronError (List ℕ)
parse_chunks minimum maximum allow_7_as_0 [] = ok []
parse_chunks minimum maximum allow_7_as_0 (chunk ∷ chunks) = do
  guard (not (is_empty (strip chunk))) empty_chunk
  vs ← parse_chunk minimum maximum allow_7_as_0 (strip chunk)
  ws ← parse_chunks minimum maximum allow_7_as_0 chunks
  ok (vs ++ ws)

-- A field always has a chunk, and a chunk that parses has a value.
unfoldable pub parse_field : ℕ → ℕ → Bool → String → Result CronError (List ℕ)
parse_field minimum maximum allow_7_as_0 field =
    parse_chunks minimum maximum allow_7_as_0 (split_where (λ c. nat_beq c b',') field)

abbrev parse_fields : List String → Result CronError CronExpression
parse_fields (a ∷ b ∷ c ∷ d ∷ e ∷ []) = do
  minutes ← parse_field 0 59 false a
  hours ← parse_field 0 23 false b
  days ← parse_field 1 31 false c
  months ← parse_field 1 12 false d
  weekdays ← parse_field 0 6 true e
  ok (record {
    minutes = minutes;
    hours = hours;
    days = days;
    months = months;
    weekdays = weekdays;
  })
parse_fields _ = err not_five_fields

unfoldable pub parse : String → Result CronError CronExpression
parse expression = parse_fields (words expression)

-- A Sunday is 0 in the expression.
unfoldable pub matches : CronExpression → Moment → Bool
matches e m =
    contains e.minutes m.minute
    && contains e.hours m.hour
    && contains e.days m.day
    && contains e.months m.month
    && contains e.weekdays ((m.weekday + 1) % 7)

-- The candidates are the minute after and those of the 366 days that follow it, both ends
-- included.
abbrev pub candidates : ℕ
candidates = 366 * 1440 + 1

module _ (calendar : ℕ → Moment) where
  -- The loop `while candidate <= deadline`, with the number of candidates that are left.
  unfoldable pub search : CronExpression → ℕ → ℕ → Option ℕ
  search e zero candidate = none
  search e (suc left) candidate =
      let rest = search e left (suc candidate) in
      if matches e (calendar candidate) then some candidate else rest

  unfoldable pub next_after : CronExpression → ℕ → Result CronError ℕ
  next_after e after_minute = elim (search e candidates (suc after_minute)) [
    | none ↦ err no_match
    | some m ↦ ok m
  ]
