-- ===== src/Sqlite/Preflight/Stale.antt =====
-- Runs of a schedule that has changed since they were submitted.
use swf_go.Prelude.{ℕ, ◌≤◌, ◌<◌, ◌≡◌, ◌≢◌, refl, Bool, false, String, some, ◌==◌, ok, arith}
use swf_go.Runtime.{Try}
use swf_go.Sqlite.Schedules.{
  ScheduleState, active, paused, archived, ScheduleRow, Schedules, find_schedule, Occurrence, Names,
}
use swf_go.Sqlite.Preflight.{
  Preflight, cancels, preflight_row, preflight_found, preflight_schedule_lease,
}
use swf_go.Sqlite.Schedules.Changes.{
  Newer, Kept, untouched, renewed, Change, Changes, Change-Kept, Kept-then,
}

module _ (names : Names) where
  -- The check cancels a run.
  pub Cancelled : Try Preflight → Type 0
  Cancelled result = (reason : String) × (result ≡ ok (cancels reason))

  old-Cancelled :
      (succeeded : String → Bool) (submit : Occurrence → Try (Unit {0})) (now : ℕ)
      (row : ScheduleRow) (occ : Occurrence)
      → occ.generation < row.generation
      → Cancelled (preflight_row names succeeded submit now row occ)
  unfolding Cancelled preflight_row
  old-Cancelled succeeded submit now row occ l =
      let stale : (row.generation == occ.generation) ≡ false = ground arith in
      by_state row.state refl stale
    where
      by_state :
          (s : ScheduleState)
          → row.state ≡ s
          → (row.generation == occ.generation) ≡ false
          → Cancelled (preflight_row names succeeded submit now row occ)
      by_state paused e g = ("schedule_paused", simp e refl)
      by_state archived e g = ("schedule_archived", simp e refl)
      by_state active e g = ("schedule_generation_mismatch", simp (e, g) refl)

  archived-Cancelled :
      (succeeded : String → Bool) (submit : Occurrence → Try (Unit {0})) (now : ℕ)
      (row : ScheduleRow) (occ : Occurrence)
      → row.state ≡ archived
      → Cancelled (preflight_row names succeeded submit now row occ)
  unfolding Cancelled preflight_row
  archived-Cancelled succeeded submit now row occ e = ("schedule_archived", simp e refl)

  -- Once a call has changed a schedule (an update, a pause, a resumption or an archiving), a run
  -- of its former generation, or of an older one, that has not started yet never starts, whatever
  -- calls follow: the check at its lease cancels it.
  pub preflight_schedule_lease-stale :
      (tenant : String) (rows after latest : Schedules) (row : ScheduleRow) (occ : Occurrence)
      (succeeded : String → Bool) (submit : Occurrence → Try (Unit {0})) (now : ℕ)
      → find_schedule tenant occ.schedule_id rows ≡ some row
      → occ.generation ≤ row.generation
      → Change names rows after
      → find_schedule tenant occ.schedule_id after ≢ some row
      → Changes names after latest
      → Cancelled (preflight_schedule_lease names succeeded submit now tenant 1 latest (some occ))
  unfolding preflight_schedule_lease
  preflight_schedule_lease-stale tenant rows after latest row occ succeeded submit now f l c touched
        more =
      touched_by (Change-Kept names tenant occ.schedule_id row rows after f c)
    where
      newest :
          (new : ScheduleRow)
          → Newer row new
          → Kept tenant occ.schedule_id new latest
          → Cancelled (
              preflight_found names succeeded submit now
                (find_schedule tenant occ.schedule_id latest)
                occ)
      newest new n (untouched g) =
          rw g (old-Cancelled succeeded submit now new occ (omega (arith, l, n.grown)))
      newest new n (renewed last g m) =
          rw g (old-Cancelled succeeded submit now last occ (omega (arith, l, n.grown, m.grown)))

      touched_by :
          Kept tenant occ.schedule_id row after
          → Cancelled (
              preflight_found names succeeded submit now
                (find_schedule tenant occ.schedule_id latest)
                occ)
      touched_by (untouched g) = absurd (touched g)
      touched_by (renewed new g n) =
          newest new n (Kept-then names tenant occ.schedule_id new after latest (untouched g) more)

  -- A run of an archived schedule that has not started yet never starts, whatever calls follow:
  -- the check at its lease cancels it.
  pub preflight_schedule_lease-archived :
      (tenant : String) (rows latest : Schedules) (row : ScheduleRow) (occ : Occurrence)
      (succeeded : String → Bool) (submit : Occurrence → Try (Unit {0})) (now : ℕ)
      → find_schedule tenant occ.schedule_id rows ≡ some row
      → row.state ≡ archived
      → Changes names rows latest
      → Cancelled (preflight_schedule_lease names succeeded submit now tenant 1 latest (some occ))
  unfolding preflight_schedule_lease
  preflight_schedule_lease-archived tenant rows latest row occ succeeded submit now f a more =
      kept (Kept-then names tenant occ.schedule_id row rows latest (untouched f) more)
    where
      kept :
          Kept tenant occ.schedule_id row latest
          → Cancelled (
              preflight_found names succeeded submit now
                (find_schedule tenant occ.schedule_id latest)
                occ)
      kept (untouched g) = rw g (archived-Cancelled succeeded submit now row occ a)
      kept (renewed new g n) = rw g (archived-Cancelled succeeded submit now new occ (n.stays a))
