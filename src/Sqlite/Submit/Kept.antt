-- ===== src/Sqlite/Submit/Kept.antt =====
-- What a submission leaves as it is.
use swf_go.Prelude.{
  ℕ, ◌≡◌, refl, sym, ap, ◌∙◌, Bool, true, false, not, String, Option, none, some, ◌∷◌, str_eq,
  if◌then◌else◌, ok, err, Bool-cases, none-some, inl, inr,
}
use swf_go.Runtime.{JobKey, key_eq, key_eq_iff, Try}
use swf_go.Sqlite.{JobRow, find_row}
use swf_go.Sqlite.Submit.{
  Start, Stored, SubmitJob, Services, Prepared, prepare_submit, find_story, same_start, new_row,
  other_time, Submitted, record_or, ensure_submitted_job_record, create_or, submit_prepared,
  submit_job,
}

-- No job and no story is changed or lost.
pub record Keeps (s t : Stored) : Type 0 where
  pub jobs :
      (key : JobKey) (row : JobRow)
      → find_row key s.rows ≡ some row
      → find_row key t.rows ≡ some row
  pub stories :
      (key : JobKey) (story : Option Start)
      → find_story key s.stories ≡ some story
      → find_story key t.stories ≡ some story

Keeps-refl : (s : Stored) → Keeps s s
Keeps-refl s = record { jobs = λ key row h. h; stories = λ key story h. h }

Keeps-trans : {s t u : Stored} → Keeps s t → Keeps t u → Keeps s u
Keeps-trans p q = record {
  jobs = λ key row h. q.jobs key row (p.jobs key row h);
  stories = λ key story h. q.stories key story (p.stories key story h);
}

absent : {A : Type 0} {a : A} {o : Option A} → o ≡ none → o ≡ some a → ⊥
absent p q = none-some (sym p ∙ q)

added_row :
    (s : Stored) (new : JobRow)
    → find_row new.key s.rows ≡ none
    → Keeps s (record s { rows = new ∷ s.rows })
unfolding find_row
added_row s new free = record {
  jobs = λ key row h. elim (Bool-cases (key_eq new.key key)) [
    | inl b ↦ absurd (absent free (ap (λ k. find_row k s.rows) ((key_eq_iff new.key key).0 b) ∙ h))
    | inr b ↦ rw b h
  ];
  stories = λ key story h. h;
}

added_story :
    (s : Stored) (new : JobKey) (start : Option Start)
    → find_story new s.stories ≡ none
    → Keeps s (record s { stories = (new, start) ∷ s.stories })
unfolding find_story
added_story s new start free = record {
  jobs = λ key row h. h;
  stories = λ key story h. elim (Bool-cases (key_eq new key)) [
    | inl b ↦ absurd (absent free (ap (λ k. find_story k s.stories) ((key_eq_iff new key).0 b) ∙ h))
    | inr b ↦ rw b h
  ];
}

either_kept :
    (s : Stored) (b : Bool) (x y : Submitted)
    → Keeps s x.1
    → Keeps s y.1
    → Keeps s (if b then x else y).1
either_kept s true x y p q = p
either_kept s false x y p q = q

module _ (services : Services) (job : SubmitJob) where
  ensure_kept :
      (p : Prepared) (now : ℕ) (s : Stored)
      → Keeps s (ensure_submitted_job_record services job p now s).1
  unfolding ensure_submitted_job_record
  ensure_kept p now s = by_row (find_row p.key s.rows) refl
    where
      by_row :
          (o : Option JobRow)
          → find_row p.key s.rows ≡ o
          → Keeps s (record_or services job p now s o).1
      by_row none at = added_row s (new_row services job p now) at
      by_row (some row) at =
          either_kept s (not (services.same_json row.metadata p.metadata)) _ _ (Keeps-refl s) (
            either_kept s (other_time job.available_at row.available_at) _ _ (Keeps-refl s)
              (Keeps-refl s))

  -- SubmitJob never changes or loses a job or a story that is there, whatever it returns.
  pub submit_job-Keeps :
      (fresh : String) (now : ℕ) (s : Stored) → Keeps s (submit_job services job fresh now s).1
  unfolding submit_job
  submit_job-Keeps fresh now s = by_prepared (prepare_submit services job fresh)
    where
      by_story :
          (p : Prepared) (o : Option (Option Start))
          → find_story p.key s.stories ≡ o
          → Keeps s (create_or services job p now s o).1
      by_story p none at = Keeps-trans (added_story s p.key (some p.start) at) (ensure_kept p now _)
      by_story p (some none) at = Keeps-refl s
      by_story p (some (some old)) at = either_kept s (str_eq job.job_id "") _ _ (Keeps-refl s) (
          either_kept s (not (same_start services old job p.start)) _ _ (Keeps-refl s)
            (ensure_kept p now s))

      by_prepared : (x : Try Prepared) → Keeps s (submit_prepared services job now s x).1
      by_prepared (err e) = Keeps-refl s
      by_prepared (ok p) = by_story p (find_story p.key s.stories) refl
