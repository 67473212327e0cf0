-- ===== src/Workflow/Await/Prerequisites.antt =====
-- When a job's prerequisites let it run.
use swf_go.Prelude.{
  ◌≡◌, ◌↔◌, refl, true, false, String, Option, none, some, List, [], ◌∷◌, Bool-cases, inl, inr,
}
use swf_go.Workflow.Errors.{Chain}
use swf_go.Workflow.Await.{
  JobAnswer, unknown_job, known_job, Prerequisite, prerequisite_error, or_error,
  check_prerequisites,
}

-- The prerequisites of a list that ask for a success have one: the job is completed, and its data can
-- be read.
pub data AllSucceeded (job : String → JobAnswer) : List Prerequisite → Type 0 where
  none_left : AllSucceeded job []
  any_outcome :
      {p : Prerequisite} {ps : List Prerequisite}
      → p.of_success ≡ false
      → AllSucceeded job ps
      → AllSucceeded job (p ∷ ps)
  succeeded :
      {p : Prerequisite} {ps : List Prerequisite}
      → job p.job_id ≡ known_job true (some none)
      → AllSucceeded job ps
      → AllSucceeded job (p ∷ ps)

no_error : (a : JobAnswer) → prerequisite_error a ≡ none → a ≡ known_job true (some none)
no_error (unknown_job err) h = cc
no_error (known_job false exposed) h = cc
no_error (known_job true none) h = cc
no_error (known_job true (some none)) h = refl
no_error (known_job true (some (some err))) h = cc

or_error-none : (a b : Option Chain) → or_error a b ≡ none → (a ≡ none) × (b ≡ none)
or_error-none none b h = (refl, h)
or_error-none (some err) b h = cc

to_all :
    (job : String → JobAnswer) (ps : List Prerequisite)
    → check_prerequisites job ps ≡ none
    → AllSucceeded job ps
unfolding check_prerequisites
to_all job [] h = none_left
to_all job (p ∷ ps) h = elim (Bool-cases p.of_success) [
  | inr b ↦ any_outcome b (to_all job ps (rw b at h))
  | inl b ↦
      let (own, rest) =
        or_error-none (prerequisite_error (job p.job_id)) (check_prerequisites job ps)
          (rw b at h) in
      succeeded (no_error (job p.job_id) own) (to_all job ps rest)
]

from_all :
    (job : String → JobAnswer) (ps : List Prerequisite)
    → AllSucceeded job ps
    → check_prerequisites job ps ≡ none
unfolding check_prerequisites
from_all job [] none_left = refl
from_all job (p ∷ ps) (any_outcome b rest) = rw b (from_all job ps rest)
from_all job (p ∷ ps) (succeeded e rest) = elim (Bool-cases p.of_success) [
  | inl b ↦ rw (b, e) (from_all job ps rest)
  | inr b ↦ rw b (from_all job ps rest)
]

-- The check of a job's prerequisites finds no error exactly when each of them that asks for a
-- success has one.
pub check_prerequisites_iff :
    (job : String → JobAnswer) (ps : List Prerequisite)
    → (check_prerequisites job ps ≡ none) ↔ AllSucceeded job ps
check_prerequisites_iff job ps = (to_all job ps, from_all job ps)
