-- ===== src/Workflow/Errors/Stored.antt =====
-- What of an error survives being stored in a chapter.
use swf_go.Prelude.{◌≡◌, refl, true, false, Option, none, some, [], ◌∷◌, Option-cases, inl, inr}
use swf_go.Workflow.Errors.{
  TimeoutPayload, AppErrorPayload, JobFailedMark, timeout_mark, system_mark, app_mark, plain_mark,
  timeout_error, Chain, as_timeout, as_system, as_app, as_job_failed, is_job_failed,
  encode_job_failed_cause, error_payload, StoredError, stored_timeout, stored_system, stored_app,
  decode_app, stored_error, matches_any_name, non_retryable, is_retryable, is_cancelled,
  completion_status,
}

-- An error that comes from a chapter is stored again just as it was: what is read back after that is
-- the same error.
pub stored_error-error_payload :
    (s : StoredError) → stored_error (error_payload (stored_error s)) ≡ stored_error s
unfolding stored_error error_payload decode_app is_job_failed as_timeout as_system as_app
    as_job_failed encode_job_failed_cause
stored_error-error_payload (stored_timeout t) = refl
stored_error-error_payload (stored_system s) = refl
stored_error-error_payload (stored_app a) = app a a.mark refl
  where
    app :
        (a : AppErrorPayload) (m : Option JobFailedMark)
        → a.mark ≡ m
        → stored_error (error_payload (decode_app a m)) ≡ decode_app a m
    app a none e = rw e refl
    app a (some (timeout_mark t)) e = refl
    app a (some (system_mark s)) e = refl
    app a (some app_mark) e = refl
    app a (some plain_mark) e = refl

-- The error does not come from another job that failed, nor carries such an error's mark.
pub record Plain (err : Chain) : Type 0 where
  pub own : is_job_failed err ≡ false
  pub unmarked : (a : AppErrorPayload) → as_app err ≡ some a → a.mark ≡ none

module _ (err : Chain) (p : Plain err) where
  stored_timeout_lem :
      (t : TimeoutPayload)
      → as_timeout err ≡ some t
      → stored_error (error_payload err) ≡ timeout_error t ∷ []
  unfolding error_payload stored_error
  stored_timeout_lem t e = rw (p.own, e) refl

  stored_plain_lem :
      as_timeout err ≡ none
      → (as_timeout (stored_error (error_payload err)) ≡ none)
        × (non_retryable (stored_error (error_payload err)) ≡ false)
  unfolding error_payload stored_error decode_app as_timeout non_retryable
  stored_plain_lem e =
      rw (p.own, e)
        (elim (Option-cases (as_system err)) [
          | inr (s, f) ↦ rw f (refl, refl)
          | inl f ↦ rw f (elim (Option-cases (as_app err)) [
            | inl g ↦ rw g (refl, refl)
            | inr (a, g) ↦ rw g (rw (p.unmarked a g) (refl, refl))
          ])
        ])

no_names : (err : Chain) → matches_any_name err [] ≡ false
unfolding matches_any_name
no_names err = refl

-- A policy without error names treats a task's own error as before once it is stored, if no link of
-- the error declares itself not retryable.
pub is_retryable-stored_error :
    (err : Chain)
    → Plain err
    → non_retryable err ≡ false
    → is_retryable [] (stored_error (error_payload err)) ≡ is_retryable [] err
unfolding is_retryable matches_any_name
is_retryable-stored_error err p n = elim (Option-cases (as_timeout err)) [
  | inr (t, e) ↦ rw (stored_timeout_lem err p t e) (rw e (unfold as_timeout in refl))
  | inl e ↦ let (f, m) = stored_plain_lem err p e in rw (f, m, e, n) refl
]

-- An error that declares itself not retryable forgets this when it is stored: the attempt that made
-- it was the last one, but what is read back from its chapter may be retried.
pub stored_error_forgets :
    (err : Chain)
    → Plain err
    → as_timeout err ≡ none
    → non_retryable err ≡ true
    → (is_retryable [] err ≡ false) × (is_retryable [] (stored_error (error_payload err)) ≡ true)
unfolding is_retryable matches_any_name
stored_error_forgets err p e n =
    let (f, m) = stored_plain_lem err p e in (rw (e, n) refl, rw (f, m) refl)

-- An error of no special type has the status failed_system, but failed_app once it is stored and read
-- back.
pub completion_status_differs :
    (err : Chain)
    → Plain err
    → as_timeout err ≡ none
    → as_system err ≡ none
    → as_app err ≡ none
    → is_cancelled err ≡ false
    → (completion_status (some err) ≡ "failed_system")
      × (completion_status (some (stored_error (error_payload err))) ≡ "failed_app")
unfolding completion_status
completion_status_differs err p t s a c = (
  rw (c, t, a) refl,
  unfold error_payload in
      unfold stored_error in
      unfold decode_app in
      unfold is_cancelled in unfold as_timeout in unfold as_app in (rw (p.own, t, s, a) refl),
)
