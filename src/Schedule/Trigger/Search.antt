-- ===== src/Schedule/Trigger/Search.antt =====
-- What the minute-by-minute search of NextScheduleFire finds.
use swf_go.Prelude.{
  ℕ, zero, suc, ◌+◌, ◌*◌, ◌≤◌, ◌<◌, ◌%◌, ◌≡◌, ◌≢◌, true, false, ◌&&◌, not, Option, none, some, ltb,
  ◌==◌, ok, err, ◌⊎◌, inl, inr, arith, Bool-cases,
}
use swf_go.Schedule.Calendar.{Zone, minute_ns}
use swf_go.Schedule.Cron.{CronSpec, matches}
use swf_go.Schedule.Trigger.{
  no_fire_time, unsupported_kind, nonpositive_interval, unknown_timezone, bad_cron, Fire,
  search_fire, first_cursor,
}

module _ (spec : CronSpec) (zone : Zone) where
  -- None of the `n` minutes from `cursor` on matches.
  abbrev pub Quiet : ℕ → ℕ → Type 0
  Quiet cursor n = (j : ℕ) → j < n → matches spec (zone (cursor + j * minute_ns)) ≡ false

  Quiet-suc :
      (cursor n : ℕ)
      → matches spec (zone cursor) ≡ false
      → Quiet (cursor + minute_ns) n
      → Quiet cursor (suc n)
  Quiet-suc cursor n h q zero l = let e : cursor + 0 * minute_ns ≡ cursor = omega arith in rw e h
  Quiet-suc cursor n h q (suc j) l =
      let e : cursor + suc j * minute_ns ≡ cursor + minute_ns + j * minute_ns = omega arith in
      rw e (q j (omega arith))

  -- An outcome of a search over `rounds` minutes: the first match, if it is not past the end; or
  -- nothing, since the end comes before any match; or an error, since no minute matches.
  abbrev pub Found : ℕ → ℕ → ℕ → Fire → Type 0
  Found rounds end cursor (ok (some t)) =
      (k : ℕ) × (k < rounds)
      × (t ≡ cursor + k * minute_ns)
      × (matches spec (zone t) ≡ true)
      × ((end ≡ 0) ⊎ (t ≤ end))
      × Quiet cursor k
  Found rounds end cursor (ok none) =
      (k : ℕ) × (k < rounds) × (end ≢ 0) × (end < cursor + k * minute_ns) × Quiet cursor k
  Found rounds end cursor (err no_fire_time) = Quiet cursor rounds
  Found rounds end cursor (err _) = ⊥

  Found-suc :
      (rounds end cursor : ℕ) (r : Fire)
      → matches spec (zone cursor) ≡ false
      → Found rounds end (cursor + minute_ns) r
      → Found (suc rounds) end cursor r
  Found-suc rounds end cursor (ok (some t)) h (k, l, e, m, b, q) =
      (suc k, omega arith, omega arith, m, b, Quiet-suc cursor k h q)
  Found-suc rounds end cursor (ok none) h (k, l, n, b, q) =
      (suc k, omega arith, n, omega arith, Quiet-suc cursor k h q)
  Found-suc rounds end cursor (err no_fire_time) h q = Quiet-suc cursor rounds h q
  Found-suc rounds end cursor (err unsupported_kind) h q = absurd q
  Found-suc rounds end cursor (err nonpositive_interval) h q = absurd q
  Found-suc rounds end cursor (err unknown_timezone) h q = absurd q
  Found-suc rounds end cursor (err (bad_cron e)) h q = absurd q

  -- The search returns the first matching minute of its window, unless the end comes before it.
  pub search_fire-Found :
      (rounds end cursor : ℕ) → Found rounds end cursor (search_fire rounds spec zone end cursor)
  unfolding search_fire
  search_fire-Found zero end cursor = λ j l. absurd (omega arith)
  search_fire-Found (suc rounds) end cursor = elim (Bool-cases (not (end == 0) && ltb end cursor)) [
    | inl over ↦ rw over (0, omega arith, ground arith, ground arith, λ j l. absurd (omega arith))
    | inr going ↦ rw going (elim (Bool-cases (matches spec (zone cursor))) [
      | inl hit ↦
          rw hit (0, omega arith, omega arith, hit, ground arith, λ j l. absurd (omega arith))
      | inr miss ↦
          rw miss
            (Found-suc rounds end cursor _ miss (search_fire-Found rounds end (cursor + minute_ns)))
    ])
  ]

-- Where the search starts: on a whole minute; and with no start time, on the first one after
-- `after`.
pub first_cursor_lem :
    (start : Option ℕ) (after : ℕ)
    → (first_cursor start after % minute_ns ≡ 0)
      × ((start ≡ none)
          → (after < first_cursor start after) × (first_cursor start after ≤ after + minute_ns))
first_cursor_lem none after = (omega arith, λ e. (omega arith, omega arith))
first_cursor_lem (some s) after = (ground arith, λ e. cc)
