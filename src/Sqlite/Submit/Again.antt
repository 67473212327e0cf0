-- ===== src/Sqlite/Submit/Again.antt =====
-- A job that is submitted again.
use swf_go.Prelude.{
  ℕ, ◌≡◌, refl, sym, ap, ◌∙◌, subst, Bool, true, false, not, ◌&&◌, ◌||◌, String, Option, none, some,
  List, [], ◌∷◌, str_eq, str_eq_refl, if◌then◌else◌, ok, err, ◌>>=◌, fail_if, arith,
}
use swf_go.Runtime.{JobKey, key_eq_refl, Try, existing_job_mismatch, RuntimeError, other_error}
use swf_go.Sqlite.{JobRow, find_row, time_to_ns}
use swf_go.Sqlite.Submit.{
  JobPrerequisite, Start, Stored, SubmitJob, Services, metadata_for_start, Prepared, start_of,
  key_for, prepare_submit, find_story, same_prerequisites, same_start, available_or, other_time,
  Submitted, record_or, ensure_submitted_job_record, create_or, submit_prepared, submit_job,
  normalize_from, JobPolicy, same_texts, same_names, same_timeout, same_policy, read_back,
}

-- Metadata is the same as itself, and as what the start's chapter has of it.
pub record IsSane (services : Services) : Type 0 where
  pub same : (metadata : String) → services.same_json metadata metadata ≡ true
  pub same_start :
      (metadata : String)
      → services.same_json (metadata_for_start services metadata) metadata ≡ true

same_prerequisites_refl : (ps : List JobPrerequisite) → same_prerequisites ps ps ≡ true
same_prerequisites_refl [] = refl
same_prerequisites_refl (p ∷ ps) =
    rw (str_eq_refl p.job_id, str_eq_refl p.condition) (same_prerequisites_refl ps)

same_texts_refl : (xs : List String) → same_texts xs xs ≡ true
same_texts_refl [] = refl
same_texts_refl (x ∷ xs) = rw (str_eq_refl x) (same_texts_refl xs)

same_names_refl : (o : Option (List String)) → same_names o o ≡ true
same_names_refl none = refl
same_names_refl (some xs) = same_texts_refl xs

same_timeout_refl : (o : Option ℕ) → same_timeout o o ≡ true
same_timeout_refl none = refl
same_timeout_refl (some a) = ground arith

same_policy_refl : (p : JobPolicy) → same_policy p p ≡ true
unfolding same_policy
same_policy_refl p =
    rw
      (
        str_eq_refl p.retry,
        same_names_refl p.non_retryable_error_types,
        same_timeout_refl p.invocation_timeout,
        same_timeout_refl p.total_timeout,
      )
      refl

pub ok-value : {a b : Prepared} → ◌≡◌ {A = Try Prepared} (ok a) (ok b) → a ≡ b
ok-value h = cc

-- A result whose value, if there is one, has the start of the submission.
pub data HasStart (services : Services) (job : SubmitJob) : Try Prepared → Type 0 where
  no_value : {e : RuntimeError} → HasStart services job (err e)
  starts :
      {p : Prepared}
      → p.start ≡ start_of services job p.start.prerequisites
      → HasStart services job (ok p)

HasStart-bind :
    {services : Services} {job : SubmitJob} {A : Type 0} (t : Try A) (f : A → Try Prepared)
    → ((a : A) → HasStart services job (f a))
    → HasStart services job (t >>= f)
HasStart-bind (ok a) f h = h a
HasStart-bind (err e) f h = no_value

pub HasStart-ok :
    {services : Services} {job : SubmitJob} {t : Try Prepared} {p : Prepared}
    → HasStart services job t
    → t ≡ ok p
    → p.start ≡ start_of services job p.start.prerequisites
HasStart-ok no_value h = absurd (ground arith)
HasStart-ok {services} {job} (starts e) h =
    subst (λ (x : Prepared). x.start ≡ start_of services job x.start.prerequisites) (ok-value h) e

-- The time from which the job is available, if one is given, is stored as it is.
unfoldable pub Fits : Option ℕ → Type 0
Fits none = Unit
Fits (some t) = time_to_ns t ≡ t

-- A new row has the time that the submission asks for.
available_same :
    (a : Option ℕ) (now : ℕ) → Fits a → other_time a (time_to_ns (available_or a now)) ≡ false
unfolding Fits
available_same none now f = refl
available_same (some t) now f = rw f (ground arith)

pub refused :
    {e : RuntimeError} {k : JobKey} {s t : Stored} → ◌≡◌ {A = Submitted} (err e, s) (ok k, t) → ⊥
refused h = cc

module _ (services : Services) (job : SubmitJob) where
  pub prepare_submit-HasStart :
      (fresh : String) → HasStart services job (prepare_submit services job fresh)
  unfolding prepare_submit
  prepare_submit-HasStart fresh =
      HasStart-bind
        (fail_if (str_eq job.tenant_id "" || str_eq (key_for job fresh).job_id "")
          (other_error "invalid job key"))
        _
        (λ a. HasStart-bind (services.validate_metadata job.metadata) _ (λ b.
          HasStart-bind (services.resolve_schema job.tenant_id) _ (λ hash.
            HasStart-bind (services.envelope job.metadata hash job.parent_job_id) _ (λ stored.
              HasStart-bind (normalize_from services (key_for job fresh) [] job.prerequisites) _
                (λ prerequisites.
                  HasStart-bind (services.validate_start hash (start_of services job prerequisites))
                    _ (λ c. starts refl))))))

  -- A submission under its own id does not depend on the fresh one.
  pub prepare_submit-own :
      (fresh later : String)
      → str_eq job.job_id "" ≡ false
      → prepare_submit services job later ≡ prepare_submit services job fresh
  unfolding prepare_submit
  prepare_submit-own fresh later own = simp own refl

  module _ (sane : IsSane services) where
    pub same_start-own :
        (p : Prepared)
        → read_back job.run_policy ≡ job.run_policy
        → p.start ≡ start_of services job p.start.prerequisites
        → same_start services p.start job p.start ≡ true
    unfolding same_start
    same_start-own p back e =
        subst (λ (x : Start). same_start services x job x ≡ true) (sym e)
          (rw
            (
              str_eq_refl job.job_type,
              str_eq_refl job.input_hash,
              back,
              same_policy_refl job.run_policy,
              sane.same_start job.metadata,
              same_prerequisites_refl p.start.prerequisites,
            )
            (either (services.is_blank (metadata_for_start services job.metadata))))
      where
        either : (b : Bool) → ((b || true) && true && true) ≡ true
        either true = refl
        either false = refl

    Settled : Prepared → ℕ → Submitted → Stored → Type 0
    Settled p later x s =
        (ensure_submitted_job_record services job p later x.1 ≡ x) × (x.1.stories ≡ s.stories)

    record_or-again :
        (p : Prepared) (now later : ℕ) (s : Stored) (o : Option JobRow) {k : JobKey} {t : Stored}
        → Fits job.available_at
        → find_row p.key s.rows ≡ o
        → record_or services job p now s o ≡ (ok k, t)
        → Settled p later (ok k, t) s
    unfolding ensure_submitted_job_record find_row Settled
    record_or-again p now later s none {k = k} {t = t} fits at h =
        subst (λ (x : Submitted). Settled p later x s) h
          (
            simp (key_eq_refl p.key, sane.same p.metadata, available_same job.available_at now fits)
                refl,
            refl,
          )
    record_or-again p now later s (some row) {k = k} {t = t} fits at h =
        by_row (services.same_json row.metadata p.metadata)
          (other_time job.available_at row.available_at) refl refl h
      where
        by_row :
            (b c : Bool)
            → services.same_json row.metadata p.metadata ≡ b
            → other_time job.available_at row.available_at ≡ c
            → ◌≡◌ {A = Submitted}
                (if not b
                  then (err existing_job_mismatch, s)
                  else if c
                  then (err existing_job_mismatch, s)
                  else (ok p.key, s))
                (ok k, t)
            → Settled p later (ok k, t) s
        by_row false c e f g = absurd (refused g)
        by_row true true e f g = absurd (refused g)
        by_row true false e f g =
            subst (λ (x : Submitted). Settled p later x s) g (simp (at, e, f) refl, refl)

    recorded :
        (p : Prepared) (now later : ℕ) (s : Stored) {k : JobKey} {t : Stored}
        → Fits job.available_at
        → ensure_submitted_job_record services job p now s ≡ (ok k, t)
        → (ensure_submitted_job_record services job p later t ≡ (ok k, t)) × (t.stories ≡ s.stories)
    unfolding ensure_submitted_job_record Settled
    recorded p now later s fits h =
        record_or-again p now later s (find_row p.key s.rows) fits refl h

    again_at :
        (p : Prepared) (now later : ℕ) (s : Stored) (o : Option (Option Start)) {k : JobKey}
        {t : Stored}
        → read_back job.run_policy ≡ job.run_policy
        → Fits job.available_at
        → str_eq job.job_id "" ≡ false
        → p.start ≡ start_of services job p.start.prerequisites
        → find_story p.key s.stories ≡ o
        → create_or services job p now s o ≡ (ok k, t)
        → create_or services job p later t (find_story p.key t.stories) ≡ (ok k, t)
    unfolding find_story
    again_at p now later s (some none) back fits own started at h = absurd (refused h)
    again_at p now later s none {k = k} {t = t} back fits own started at h =
        let (again, told) =
          recorded p now later (record s { stories = (p.key, some p.start) ∷ s.stories }) fits h in
        let found : find_story p.key ((p.key, some p.start) ∷ s.stories) ≡ some (some p.start) =
          simp (key_eq_refl p.key) refl in
        let compared : create_or services job p later t (some (some p.start))
            ≡ ensure_submitted_job_record services job p later t =
          simp (own, same_start-own p back started) refl in
        ap (create_or services job p later t) (ap (find_story p.key) told ∙ found)
        ∙ (compared ∙ again)
    again_at p now later s (some (some old)) {k = k} {t = t} back fits own started at h =
        by_start (same_start services old job p.start) refl (simp own at h)
      where
        by_start :
            (b : Bool)
            → same_start services old job p.start ≡ b
            → ◌≡◌ {A = Submitted}
                (if not b
                  then (err existing_job_mismatch, s)
                  else ensure_submitted_job_record services job p now s)
                (ok k, t)
            → create_or services job p later t (find_story p.key t.stories) ≡ (ok k, t)
        by_start false e g = absurd (refused g)
        by_start true e g =
            let (again, told) = recorded p now later s fits g in
            let compared : create_or services job p later t (some (some old))
                ≡ ensure_submitted_job_record services job p later t =
              simp (own, e) refl in
            ap (create_or services job p later t) (ap (find_story p.key) told ∙ at)
            ∙ (compared ∙ again)

    -- A submission under an id of its own can be repeated. Once it has succeeded, the same submission
    -- to the jobs and stories that it left succeeds with the same key and leaves them as they are,
    -- whatever the clock says. Its run policy must come back from storage as it is, without a timeout
    -- of 0 or an empty list of names; a time from which the job is available must fit an int64 of
    -- nanoseconds; and the comparison of metadata finds it the same as itself, and as what the
    -- start's chapter has of it.
    pub submit_job-again :
        (fresh again : String) (now later : ℕ) (s : Stored) {k : JobKey} {t : Stored}
        → read_back job.run_policy ≡ job.run_policy
        → Fits job.available_at
        → str_eq job.job_id "" ≡ false
        → submit_job services job fresh now s ≡ (ok k, t)
        → submit_job services job again later t ≡ (ok k, t)
    unfolding submit_job
    submit_job-again fresh again now later s {k = k} {t = t} back fits own h =
        ap (submit_prepared services job later t) (prepare_submit-own fresh again own)
        ∙ by_prepared (prepare_submit services job fresh) (prepare_submit-HasStart fresh) h
      where
        by_prepared :
            (x : Try Prepared)
            → HasStart services job x
            → submit_prepared services job now s x ≡ (ok k, t)
            → submit_prepared services job later t x ≡ (ok k, t)
        by_prepared (err e) f g = absurd (refused g)
        by_prepared (ok p) (starts e) g =
            again_at p now later s (find_story p.key s.stories) back fits own e refl g
