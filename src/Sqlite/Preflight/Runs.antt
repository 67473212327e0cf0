-- ===== src/Sqlite/Preflight/Runs.antt =====
-- Runs of a schedule that does not change, and runs that a caller triggers.
use swf_go.Prelude.{
  ℕ, zero, suc, ◌≡◌, ◌≢◌, refl, sym, Bool, true, false, String, none, some, List, [], str_eq,
  str_eq_refl, ◌==◌, ok, err, ◌>>◌, arith, none-some,
}
use swf_go.Runtime.{Try, existing_job_mismatch}
use swf_go.Schedule.Trigger.{next_schedule_fire}
use swf_go.Schedule.Failure.{schedule_failure_policy_violated}
use swf_go.Sqlite.Schedules.{
  active, ScheduleRow, Schedules, find_schedule, Occurrence, occurrence_of, Names, timed_occurrence,
  trigger_schedule,
}
use swf_go.Sqlite.Preflight.{
  Preflight, cancels, starts, history, preflight_row, preflight_schedule_lease,
}

nat_eq_refl : (n : ℕ) → (n == n) ≡ true
nat_eq_refl n = ground arith

-- The run is of the schedule as it is.
pub record Current (row : ScheduleRow) (occ : Occurrence) : Type 0 where
  pub schedule : occ.schedule_id ≡ row.schedule_id
  pub generation : occ.generation ≡ row.generation
  pub spec : occ.spec_hash ≡ row.spec_hash

abbrev pub then_next : Try Preflight → (Occurrence → Try Preflight) → Try Preflight
then_next (ok (starts (some next))) rest = rest next
then_next (ok (starts none)) rest = ok (starts none)
then_next (ok (cancels reason)) rest = ok (cancels reason)
then_next (err e) rest = err e

-- The checks of a number of runs, each submitted by the one before, at the readings of a clock.
unfoldable pub follow :
    Names
    → (String → Bool)
    → (Occurrence → Try (Unit {0}))
    → String
    → Schedules
    → (ℕ → ℕ)
    → ℕ
    → Occurrence
    → Try Preflight
follow names succeeded submit tenant rows clock zero occ =
    preflight_schedule_lease names succeeded submit (clock 0) tenant 1 rows (some occ)
follow names succeeded submit tenant rows clock (suc n) occ =
    then_next
      (preflight_schedule_lease names succeeded submit (clock (suc n)) tenant 1 rows (some occ))
      (follow names succeeded submit tenant rows clock n)

-- An active schedule without an end that its failure policy never blocks, and its fire times.
pub record Endless (names : Names) (row : ScheduleRow) : Type 0 where
  pub is_active : row.state ≡ active
  pub no_end : row.trigger.end_at ≡ none
  pub allowed : (bits : List ℕ) → schedule_failure_policy_violated bits row.failure_policy ≡ false
  pub fires : ℕ → ℕ
  pub fire : (now : ℕ) → next_schedule_fire names.load row.trigger now ≡ ok (some (fires now))

-- A run under the id of a run that is there is refused if its prerequisites are others.
abbrev pub Refuses : (Occurrence → Try (Unit {0})) → Occurrence → Type 0
Refuses submit there =
    (o : Occurrence)
    → o.job_id ≡ there.job_id
    → o.wait_for ≢ there.wait_for
    → submit o ≡ err existing_job_mismatch

module _ (names : Names) (succeeded : String → Bool) (submit : Occurrence → Try (Unit {0})) where
  Current-starts :
      (row : ScheduleRow) (occ : Occurrence) (now : ℕ) (e : Endless names row)
      → Current row occ
      → {answer : Try (Unit {0})}
      → submit (timed_occurrence names row (e.fires now) occ.job_id (history succeeded row occ))
        ≡ answer
      → preflight_row names succeeded submit now row occ ≡ (do
        answer
        ok (
            starts (
              some
                (timed_occurrence names row (e.fires now) occ.job_id (history succeeded row occ)))))
  unfolding preflight_row
  Current-starts row occ now e c answered =
      simp
        (
          e.is_active,
          c.generation,
          c.spec,
          nat_eq_refl row.generation,
          str_eq_refl row.spec_hash,
          e.no_end,
          e.allowed (history succeeded row occ),
          e.fire now,
          answered,
        )
        refl

  -- A run that a caller triggers on an active schedule does not start while the schedule's next timed
  -- run is there as its first one: its check submits that run again, as one that waits for it, and
  -- fails with the mismatch. Assumed of the submission is that it refuses, as a mismatch, a run under
  -- the id of that first one and with other prerequisites. The schedule has no end, always a next
  -- fire time, and a failure policy that never blocks; the triggered run's id is not empty.
  pub trigger_schedule-active :
      (tenant request : String) (now later : ℕ) (rows : Schedules) (row : ScheduleRow)
      (e : Endless names row)
      → find_schedule tenant row.schedule_id rows ≡ some row
      → str_eq (names.manual_job_id row.schedule_id request) "" ≡ false
      → Refuses submit (timed_occurrence names row (e.fires later) "" [])
      → (run : Occurrence) × (trigger_schedule names tenant row.schedule_id request now rows
          ≡ ok run)
        × (preflight_schedule_lease names succeeded submit later tenant 1 rows (some run)
            ≡ err existing_job_mismatch)
  unfolding trigger_schedule preflight_schedule_lease
  trigger_schedule-active tenant request now later rows row e f m refuses =
      let run : Occurrence =
        occurrence_of row (names.manual_job_id row.schedule_id request) now "" [] true in
      (
        run,
        simp (f, e.is_active) refl,
        simp f (
            Current-starts row run later e
              (record { schedule = refl; generation = refl; spec = refl })
              (refuses
                (timed_occurrence names row (e.fires later) run.job_id (history succeeded row run))
                refl (λ same. none-some (sym (rw (m, str_eq_refl "") at same))))),
      )
