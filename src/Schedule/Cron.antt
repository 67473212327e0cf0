-- ===== src/Schedule/Cron.antt =====
-- schedule_trigger.go: cronSpec, parseCronSpec, parseCronField, cronRange and cronSpec.matches.
-- An expression is its list of code points. A `map[int]bool` with true values is the list of its
-- keys; an int is a 64-bit word.
pub mod Values
pub mod Range
use swf_go.Prelude.{
  ℕ, zero, suc, ◌+◌, ◌%◌, Bool, true, false, ◌&&◌, ◌||◌, Option, none, some, List, [], ◌∷◌, ◌++◌,
  leb, ◌==◌, if◌then◌else◌, Result, ok, err, ◌>>=◌, ◌>>◌, fail_if, not, length,
}
use swf_go.Schedule.Text.{text_eq, contains, split, fields, trim_space, atoi, signed_lt, int_mod}
use swf_go.Schedule.Calendar.{Civil}

pub data CronError : Type 0 where
  empty_segment invalid_step invalid_range invalid_range_start invalid_range_end : CronError
  start_after_end range_out_of_bounds invalid_value value_out_of_bounds empty_field : CronError
  wrong_field_count : CronError

pub record CronSpec : Type 0 where
  pub minutes : List ℕ
  pub hours : List ℕ
  pub days : List ℕ
  pub months : List ℕ
  pub weekdays : List ℕ

abbrev pub or_fail {ℓ} : {A : Type ℓ} → Option A → CronError → Result CronError A
or_fail none e = err e
or_fail (some a) e = ok a

-- The two pieces of a split, or the error.
abbrev pair_of : List (List ℕ) → CronError → Result CronError (List ℕ × List ℕ)
pair_of (a ∷ b ∷ []) e = ok (a, b)
pair_of _ e = err e

range_checked : ℕ → ℕ → ℕ → ℕ → Result CronError (ℕ × ℕ)
range_checked start end min max = do
  fail_if (signed_lt end start) start_after_end
  fail_if (signed_lt start min || signed_lt max end) range_out_of_bounds
  ok (start, end)

range_between : List ℕ × List ℕ → ℕ → ℕ → Result CronError (ℕ × ℕ)
unfolding range_checked
range_between (a, b) min max = do
  start ← or_fail (atoi a) invalid_range_start
  end ← or_fail (atoi b) invalid_range_end
  range_checked start end min max

value_checked : ℕ → ℕ → ℕ → Result CronError (ℕ × ℕ)
value_checked value min max = do
  fail_if (signed_lt value min || signed_lt max value) value_out_of_bounds
  ok (value, value)

single_value : List ℕ → ℕ → ℕ → Result CronError (ℕ × ℕ)
unfolding value_checked
single_value part min max = do
  value ← or_fail (atoi part) invalid_value
  value_checked value min max

unfoldable pub cron_range : List ℕ → ℕ → ℕ → Result CronError (ℕ × ℕ)
unfolding range_between single_value
cron_range part min max =
    if text_eq part (b'*' ∷ [])
    then ok (min, max)
    else if contains part b'-'
    then (do pieces ← pair_of (split part b'-') invalid_range; range_between pieces min max)
    else single_value part min max

-- The body of the loop `for v := start; v <= end; v += step`.
abbrev pub normalize : Bool → ℕ → ℕ
normalize sunday_alias v = if sunday_alias && v == 7 then 0 else v

-- The loop itself; `v += step` wraps around.
unfoldable pub cron_values : ℕ → ℕ → ℕ → ℕ → Bool → List ℕ
cron_values zero v end step sunday_alias = []
cron_values (suc fuel) v end step sunday_alias =
    let rest : List ℕ = cron_values fuel ((v + step) % int_mod) end step sunday_alias in
    if signed_lt end v then [] else normalize sunday_alias v ∷ rest

abbrev pub max_values : ℕ
max_values = 128

step_of : List ℕ → Result CronError (List ℕ × ℕ)
step_of part =
    if contains part b'/'
    then (do
      pieces ← pair_of (split part b'/') invalid_step
      parsed ← or_fail (atoi pieces.1) invalid_step
      fail_if (not (signed_lt 0 parsed)) invalid_step
      ok (pieces.0, parsed))
    else ok (part, 1)

-- One comma-separated part, trimmed.
unfoldable pub parse_part : List ℕ → ℕ → ℕ → Bool → Result CronError (List ℕ)
unfolding step_of
parse_part [] min max sunday_alias = err empty_segment
parse_part (c ∷ cs) min max sunday_alias = do
  stepped ← step_of (c ∷ cs)
  bounds ← cron_range stepped.0 min max
  ok (cron_values max_values bounds.0 bounds.1 stepped.1 sunday_alias)

unfoldable pub parse_parts : List (List ℕ) → ℕ → ℕ → Bool → Result CronError (List ℕ)
parse_parts [] min max sunday_alias = ok []
parse_parts (part ∷ parts) min max sunday_alias =
    let others : Result CronError (List ℕ) = parse_parts parts min max sunday_alias in
    do
      values ← parse_part (trim_space part) min max sunday_alias
      rest ← others
      ok (values ++ rest)

abbrev nonempty : List ℕ → Result CronError (List ℕ)
nonempty [] = err empty_field
nonempty (v ∷ vs) = ok (v ∷ vs)

unfoldable pub parse_cron_field : List ℕ → ℕ → ℕ → Bool → Result CronError (List ℕ)
parse_cron_field field min max sunday_alias = do
  values ← parse_parts (split field b',') min max sunday_alias
  nonempty values

abbrev five : List (List ℕ) → Result CronError (List ℕ × List ℕ × List ℕ × List ℕ × List ℕ)
five (a ∷ b ∷ c ∷ d ∷ e ∷ []) = ok (a, b, c, d, e)
five _ = err wrong_field_count

unfoldable pub parse_cron_spec : List ℕ → Result CronError CronSpec
parse_cron_spec expr = do
  f ← five (fields expr)
  minutes ← parse_cron_field f.0 0 59 false
  hours ← parse_cron_field f.1 0 23 false
  days ← parse_cron_field f.2 1 31 false
  months ← parse_cron_field f.3 1 12 false
  weekdays ← parse_cron_field f.4 0 7 true
  ok (record {
    minutes = minutes;
    hours = hours;
    days = days;
    months = months;
    weekdays = weekdays;
  })

unfoldable pub matches : CronSpec → Civil → Bool
matches s t =
    contains s.minutes t.minute
    && contains s.hours t.hour
    && contains s.days t.day
    && contains s.months t.month
    && contains s.weekdays t.weekday
