-- ===== src/Sqlite/Submit/Moved.antt =====
-- A job that is rescheduled after it was submitted, and then submitted again.
use swf_go.Prelude.{
  ℕ, ◌≡◌, refl, ap, ◌∙◌, subst, Bool, true, false, not, String, Option, none, some, ◌∷◌, str_eq,
  ◌==◌, if◌then◌else◌, ok, err,
}
use swf_go.Runtime.{JobKey, key_eq_refl, Try, existing_job_mismatch}
use swf_go.Sqlite.{JobRow, Table, find_row, time_to_ns}
use swf_go.Sqlite.Lease.{RescheduleRequest, value_or, reschedule_row, reschedule_job}
use swf_go.Sqlite.Lease.Holder.{ok-inj, reschedule_job-updates}
use swf_go.Sqlite.Rows.{find_row-update_row}
use swf_go.Sqlite.Submit.{
  Start, Stored, SubmitJob, Services, Prepared, prepare_submit, find_story, same_start, new_row,
  other_time, Submitted, record_or, ensure_submitted_job_record, create_or, submit_prepared,
  submit_job, start_of, read_back,
}
use swf_go.Sqlite.Submit.Again.{
  IsSane, same_start-own, prepare_submit-HasStart, HasStart-ok, refused, prepare_submit-own,
}

moved_row :
    (key : JobKey) (lease_id worker_id : String) (req : RescheduleRequest) (now : ℕ) (rows : Table)
    {rows' : Table} {row : JobRow}
    → reschedule_job key lease_id worker_id req now rows ≡ ok rows'
    → find_row key rows ≡ some row
    → (row' : JobRow) × (find_row key rows' ≡ some row')
      × (row'.metadata ≡ row.metadata)
      × (row'.available_at ≡ time_to_ns (value_or req.wait_until now))
unfolding reschedule_row
moved_row key lease_id worker_id req now rows {row = row} h f =
    let (payload, _, _, _, u, _) = reschedule_job-updates key lease_id worker_id req now rows h in
    (
      reschedule_row req payload now row,
      rw (← u) (find_row-update_row key (reschedule_row req payload now) (λ r. refl) rows f),
      refl,
      refl,
    )

module _ (services : Services) (job : SubmitJob) (sane : IsSane services)
    (back : read_back job.run_policy ≡ job.run_policy) where
  -- The job's row after a submission that succeeded.
  HasRow : Prepared → Stored → Submitted → Type 0
  HasRow p s x =
      (x.0 ≡ ok p.key)
      × (x.1.stories ≡ s.stories)
      × ((row : JobRow) × (find_row p.key x.1.rows ≡ some row)
          × (services.same_json row.metadata p.metadata ≡ true))

  record_or-HasRow :
      (p : Prepared) (now : ℕ) (s : Stored) (o : Option JobRow) {k : JobKey} {t : Stored}
      → find_row p.key s.rows ≡ o
      → record_or services job p now s o ≡ (ok k, t)
      → HasRow p s (ok k, t)
  unfolding HasRow find_row
  record_or-HasRow p now s none at h = subst (HasRow p s) h (
    refl,
    refl,
    (new_row services job p now, simp (key_eq_refl p.key) refl, sane.same p.metadata),
  )
  record_or-HasRow p now s (some row) {k = k} {t = t} at h =
      by_row (services.same_json row.metadata p.metadata)
        (other_time job.available_at row.available_at) refl h
    where
      by_row :
          (b c : Bool)
          → services.same_json row.metadata p.metadata ≡ b
          → ◌≡◌ {A = Submitted}
              (if not b
                then (err existing_job_mismatch, s)
                else if c
                then (err existing_job_mismatch, s)
                else (ok p.key, s))
              (ok k, t)
          → HasRow p s (ok k, t)
      by_row false c e g = absurd (refused g)
      by_row true true e g = absurd (refused g)
      by_row true false e g = subst (HasRow p s) g (refl, refl, (row, at, e))

  -- The job's story after it, too.
  HasStory : Prepared → JobKey → Stored → Type 0
  HasStory p k t =
      (k ≡ p.key)
      × ((old : Start) × (find_story p.key t.stories ≡ some (some old))
          × (same_start services old job p.start ≡ true))
      × ((row : JobRow) × (find_row p.key t.rows ≡ some row)
          × (services.same_json row.metadata p.metadata ≡ true))

  recorded :
      (p : Prepared) (now : ℕ) (s : Stored) (old : Start) {k : JobKey} {t : Stored}
      → find_story p.key s.stories ≡ some (some old)
      → same_start services old job p.start ≡ true
      → ensure_submitted_job_record services job p now s ≡ (ok k, t)
      → HasStory p k t
  unfolding HasStory HasRow ensure_submitted_job_record
  recorded p now s old told same h =
      let (key, stories, row) = record_or-HasRow p now s (find_row p.key s.rows) refl h in
      (ok-inj key, (old, ap (find_story p.key) stories ∙ told, same), row)

  create_or-HasStory :
      (p : Prepared) (now : ℕ) (s : Stored) (o : Option (Option Start)) {k : JobKey} {t : Stored}
      → str_eq job.job_id "" ≡ false
      → p.start ≡ start_of services job p.start.prerequisites
      → find_story p.key s.stories ≡ o
      → create_or services job p now s o ≡ (ok k, t)
      → HasStory p k t
  unfolding find_story
  create_or-HasStory p now s (some none) own started at h = absurd (refused h)
  create_or-HasStory p now s none own started at h =
      recorded p now (record s { stories = (p.key, some p.start) ∷ s.stories }) p.start
        (simp (key_eq_refl p.key) refl) (same_start-own services job sane p back started) h
  create_or-HasStory p now s (some (some old)) {k = k} {t = t} own started at h =
      by_start (same_start services old job p.start) refl (simp own at h)
    where
      by_start :
          (b : Bool)
          → same_start services old job p.start ≡ b
          → ◌≡◌ {A = Submitted}
              (if not b
                then (err existing_job_mismatch, s)
                else ensure_submitted_job_record services job p now s)
              (ok k, t)
          → HasStory p k t
      by_start false e g = absurd (refused g)
      by_start true e g = recorded p now s old at e g

  module _ (time : ℕ) (given : job.available_at ≡ some time)
      (own : str_eq job.job_id "" ≡ false) where
    -- Where the row has another time, the submission is a mismatch.
    mismatch :
        (p : Prepared) (now : ℕ) (t : Stored) (old : Start) (row : JobRow)
        → find_story p.key t.stories ≡ some (some old)
        → same_start services old job p.start ≡ true
        → find_row p.key t.rows ≡ some row
        → services.same_json row.metadata p.metadata ≡ true
        → (row.available_at == time) ≡ false
        → submit_prepared services job now t (ok p) ≡ (err existing_job_mismatch, t)
    unfolding ensure_submitted_job_record
    mismatch p now t old row told same at matched moved =
        ap (create_or services job p now t) told
        ∙ (simp (own, same) refl ∙ (ap (record_or services job p now t) at ∙ over))
      where
        later : (o : Option ℕ) → o ≡ some time → other_time o row.available_at ≡ true
        later o e = rw (e, moved) refl

        over : record_or services job p now t (some row) ≡ (err existing_job_mismatch, t)
        over = simp (matched, later job.available_at given) refl

    -- A submission that names the time from which its job is available cannot be repeated once the
    -- holder of the job's lease has rescheduled the job to another time: even if it still succeeded
    -- right before the reschedule, it is refused as a mismatch after it, and changes nothing.
    -- It is under an id of its own, its run policy comes back from storage as it is, and metadata is
    -- the same as itself and as what the start's chapter has of it.
    pub submit_job-rescheduled :
        (fresh again lease_id worker_id : String) (req : RescheduleRequest) (now middle later : ℕ)
        (s : Stored) {k : JobKey} {t : Stored} {rows : Table}
        → submit_job services job fresh now s ≡ (ok k, t)
        → reschedule_job k lease_id worker_id req middle t.rows ≡ ok rows
        → (time_to_ns (value_or req.wait_until middle) == time) ≡ false
        → submit_job services job again later (record t { rows = rows })
          ≡ (err existing_job_mismatch, record t { rows = rows })
    unfolding submit_job HasStory
    submit_job-rescheduled fresh again lease_id worker_id req now middle later s {k} {t} {rows} h
          moves other =
        ap (submit_prepared services job later (record t { rows = rows }))
          (prepare_submit-own services job fresh again own)
        ∙ by_prepared (prepare_submit services job fresh)
            (λ p e. HasStart-ok (prepare_submit-HasStart services job fresh) e) h
      where
        by_prepared :
            (x : Try Prepared)
            → ((p : Prepared) → x ≡ ok p → p.start ≡ start_of services job p.start.prerequisites)
            → submit_prepared services job now s x ≡ (ok k, t)
            → submit_prepared services job later (record t { rows = rows }) x
              ≡ (err existing_job_mismatch, record t { rows = rows })
        by_prepared (err e) starts g = absurd (refused g)
        by_prepared (ok p) starts g =
            let (key, (old, told, same), (row, at, matched)) =
              create_or-HasStory p now s (find_story p.key s.stories) own (starts p refl) refl g in
            let (row', at', kept, available) =
              moved_row p.key lease_id worker_id req middle t.rows
                (subst
                  (λ (j : JobKey). reschedule_job j lease_id worker_id req middle t.rows ≡ ok rows)
                  key moves)
                at in
            mismatch p later (record t { rows = rows }) old row' told same at' (rw kept matched)
              (rw available other)
