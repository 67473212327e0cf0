-- ===== src/Toy/Calls/Appends.antt =====
-- What a successful store of a chapter says of the job and leaves in it.
use swf_go.Prelude.{
  ℕ, ◌-◌, ◌<◌, ◌≡◌, refl, ap, ◌∙◌, true, false, not, ◌&&◌, Option, none, some, ok, err, arith,
  Bool-cases, inl, inr,
}
use swf_go.Runtime.{JobKey, Try}
use swf_go.Toy.{Chapter, ToyJob, Engine, find_job, update_job}
use swf_go.Toy.Chapters.{
  Services, find_chapter, has_chapter, appendable, add_chapter, record_chapter, store_checked,
  store_found, store_runtime_chapter, is_outcome, undecodable,
}
use swf_go.Toy.Chapters.Append.{appendable_lem, chapters_of, find_job-update_job}
use swf_go.Toy.Calls.Storing.{record_chapter_same}

module _ (services : Services) (key : JobKey) (ordinal : ℕ) (chapter : Chapter)
    (engine : Engine) where
  -- A chapter that was stored without an error stands under its own ordinal, where none stood
  -- before, in a job that exists and that holds the chapter before it.
  pub store_runtime_chapter_lem :
      (store_runtime_chapter services key ordinal chapter engine).1 ≡ ok tt
      → (job : ToyJob) × (find_job key engine ≡ some job)
        × (chapter.ordinal ≡ ordinal)
        × (has_chapter ordinal job.chapters ≡ false)
        × (0 < ordinal → has_chapter (ordinal - 1) job.chapters ≡ true)
        × (find_chapter ordinal (
              chapters_of
                (find_job key (store_runtime_chapter services key ordinal chapter engine).0))
            ≡ some chapter)
  unfolding store_runtime_chapter find_chapter
  store_runtime_chapter_lem h = found (find_job key engine) refl h
    where
      change : ToyJob → ToyJob
      change job = record_chapter services chapter (add_chapter chapter job)

      stored :
          (job : ToyJob)
          → find_job key engine ≡ some job
          → chapter.ordinal ≡ ordinal
          → find_chapter ordinal (
              chapters_of (
                find_job key (
                  update_job key
                    (record_chapter services chapter)
                    (update_job key (add_chapter chapter) engine))))
            ≡ some chapter
      stored job f o =
          ap (λ j. find_chapter ordinal (chapters_of j))
            (find_job-update_job key (record_chapter services chapter)
              (λ j k. (record_chapter_same services chapter j).0 ∙ k)
              (update_job key (add_chapter chapter) engine)
              (find_job-update_job key (add_chapter chapter) (λ j k. k) engine f))
          ∙ ap (find_chapter ordinal)
              (record_chapter_same services chapter (add_chapter chapter job)).1
          ∙ ground (arith, o)

      checked :
          (job : ToyJob) (t : Try (Unit {0}))
          → find_job key engine ≡ some job
          → appendable ordinal chapter job ≡ t
          → (store_checked services key chapter engine t).1 ≡ ok tt
          → (chapter.ordinal ≡ ordinal)
            × (has_chapter ordinal job.chapters ≡ false)
            × (0 < ordinal → has_chapter (ordinal - 1) job.chapters ≡ true)
            × (find_chapter ordinal
                  (chapters_of (find_job key (store_checked services key chapter engine t).0))
                ≡ some chapter)
      checked job (err e) f p g = absurd (ground arith)
      checked job (ok u) f p g =
          let (o, free, before) = appendable_lem ordinal chapter job p in
          elim (Bool-cases
            (not (is_outcome chapter.kind) && undecodable (services.decode chapter))) [
              | inl bad ↦ absurd (ground arith)
              | inr fine ↦ (o, free, before, rw fine (stored job f o))
            ]

      found :
          (o : Option ToyJob)
          → find_job key engine ≡ o
          → (store_found services key ordinal chapter engine o).1 ≡ ok tt
          → (job : ToyJob) × (o ≡ some job)
            × (chapter.ordinal ≡ ordinal)
            × (has_chapter ordinal job.chapters ≡ false)
            × (0 < ordinal → has_chapter (ordinal - 1) job.chapters ≡ true)
            × (find_chapter ordinal
                  (chapters_of (find_job key (store_found services key ordinal chapter engine o).0))
                ≡ some chapter)
      found none f g = absurd (ground arith)
      found (some job) f g =
          let (o, free, before, there) = checked job (appendable ordinal chapter job) f refl g in
          (job, refl, o, free, before, there)
