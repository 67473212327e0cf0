-- ===== src/Toy/Chapters/Append.antt =====
-- Stored chapters of the toy runtime: a store adds one, and none is lost or changed by an update.
use swf_go.Prelude.{
  ℕ, ◌-◌, ◌<◌, ◌≡◌, refl, sym, ap, ◌∙◌, true, false, Option, none, some, List, [], ◌∷◌, ◌==◌, ok,
  arith, Bool-cases, Option-cases, some-inj, inl, inr,
}
use swf_go.Runtime.{JobKey, key_eq, key_eq_iff, key_eq_refl}
use swf_go.Toy.{Chapter, ToyJob, Engine, find_job, update_job}
use swf_go.Toy.Chapters.{find_chapter, has_chapter, appendable, add_chapter}

pub find_job-key :
    (key : JobKey) (engine : Engine) {job : ToyJob} → find_job key engine ≡ some job → job.key ≡ key
unfolding find_job
find_job-key key [] e = absurd (ground arith)
find_job-key key (j ∷ jobs) {job} e = elim (Bool-cases (key_eq j.key key)) [
  | inl hit ↦
      let same : j ≡ job = some-inj (rw hit at e) in
      ap (λ (q : ToyJob). q.key) (sym same) ∙ (key_eq_iff j.key key).0 hit
  | inr miss ↦ find_job-key key jobs (rw miss at e)
]

module _ (key : JobKey) (change : ToyJob → ToyJob)
    (keeps : (j : ToyJob) → j.key ≡ key → (change j).key ≡ key) where
  pub find_job-update_job :
      (engine : Engine) {job : ToyJob}
      → find_job key engine ≡ some job
      → find_job key (update_job key change engine) ≡ some (change job)
  unfolding find_job update_job
  find_job-update_job [] e = absurd (ground arith)
  find_job-update_job (j ∷ jobs) e = elim (Bool-cases (key_eq j.key key)) [
    | inl hit ↦
        let k : (change j).key ≡ key = keeps j ((key_eq_iff j.key key).0 hit) in
        rw hit (
          rw (ap (λ q. key_eq q key) k ∙ key_eq_refl key)
            (ap (λ q. some (change q)) (some-inj (rw hit at e))))
    | inr miss ↦ rw miss (rw miss (find_job-update_job jobs (rw miss at e)))
  ]

  pub find_job-update_job_other :
      (k : JobKey) (engine : Engine)
      → key_eq key k ≡ false
      → find_job k (update_job key change engine) ≡ find_job k engine
  unfolding find_job update_job
  find_job-update_job_other k [] n = refl
  find_job-update_job_other k (j ∷ jobs) n = elim (Bool-cases (key_eq j.key key)) [
    | inl hit ↦
        let own : j.key ≡ key = (key_eq_iff j.key key).0 hit in
        rw hit (
          rw (ap (λ q. key_eq q k) (keeps j own) ∙ n)
            (rw (ap (λ q. key_eq q k) own ∙ n) (find_job-update_job_other k jobs n)))
    | inr miss ↦ rw miss (elim (Bool-cases (key_eq j.key k)) [
      | inl same ↦ rw same refl
      | inr other ↦ rw other (find_job-update_job_other k jobs n)
    ])
  ]

abbrev pub chapters_of : Option ToyJob → List Chapter
chapters_of none = []
chapters_of (some job) = job.chapters

-- Every chapter that the first engine holds, the second one holds unchanged in the same place.
abbrev pub Durable : Engine → Engine → Type 0
Durable engine engine' =
    (key : JobKey) (n : ℕ) (c : Chapter)
    → find_chapter n (chapters_of (find_job key engine)) ≡ some c
    → find_chapter n (chapters_of (find_job key engine')) ≡ some c

pub Durable-update_job :
    (key : JobKey) (change : ToyJob → ToyJob) (engine : Engine)
    → ((j : ToyJob) → j.key ≡ key → (change j).key ≡ key)
    → ((j : ToyJob)
        → find_job key engine ≡ some j
        → (n : ℕ) (c : Chapter) → find_chapter n j.chapters ≡ some c
        → find_chapter n (change j).chapters ≡ some c)
    → Durable engine (update_job key change engine)
unfolding find_chapter
Durable-update_job key change engine keeps grows k n c h = elim (Bool-cases (key_eq key k)) [
  | inr other ↦
      ap (λ o. find_chapter n (chapters_of o))
        (find_job-update_job_other key change keeps k engine other)
      ∙ h
  | inl same ↦
      let e : key ≡ k = (key_eq_iff key k).0 same in
      let h' : find_chapter n (chapters_of (find_job key engine)) ≡ some c =
        ap (λ q. find_chapter n (chapters_of (find_job q engine))) e ∙ h in
      ap (λ q. find_chapter n (chapters_of (find_job q (update_job key change engine)))) (sym e)
      ∙ elim (Option-cases (find_job key engine)) [
        | inl f ↦ absurd (ground (arith, ap (λ o. find_chapter n (chapters_of o)) (sym f) ∙ h'))
        | inr (job, f) ↦
            ap (λ o. find_chapter n (chapters_of o)) (find_job-update_job key change keeps engine f)
            ∙ grows job f n c (ap (λ o. find_chapter n (chapters_of o)) (sym f) ∙ h')
      ]
]

-- A change that leaves the key and the chapters alone.
pub Durable-same :
    (key : JobKey) (change : ToyJob → ToyJob) (engine : Engine)
    → ((j : ToyJob) → ((change j).key ≡ j.key) × ((change j).chapters ≡ j.chapters))
    → Durable engine (update_job key change engine)
Durable-same key change engine same =
    Durable-update_job key change engine (λ j e. (same j).0 ∙ e)
      (λ j f n c h. ap (find_chapter n) (same j).1 ∙ h)

has_chapter-none :
    (n : ℕ) (cs : List Chapter) {c : Chapter}
    → has_chapter n cs ≡ false
    → find_chapter n cs ≡ some c
    → ⊥
has_chapter-none n cs h e = ground arith

-- A chapter may be appended only under its own ordinal, where there is none yet, and after the one
-- before it.
pub appendable_lem :
    (ordinal : ℕ) (chapter : Chapter) (job : ToyJob)
    → appendable ordinal chapter job ≡ ok tt
    → (chapter.ordinal ≡ ordinal)
      × (has_chapter ordinal job.chapters ≡ false)
      × (0 < ordinal → has_chapter (ordinal - 1) job.chapters ≡ true)
unfolding appendable
appendable_lem ordinal chapter job h = (ground arith, ground arith, λ l. ground arith)

pub Durable-add_chapter :
    (key : JobKey) (ordinal : ℕ) (chapter : Chapter) (engine : Engine) (job : ToyJob)
    → find_job key engine ≡ some job
    → appendable ordinal chapter job ≡ ok tt
    → Durable engine (update_job key (add_chapter chapter) engine)
unfolding find_chapter
Durable-add_chapter key ordinal chapter engine job f p =
    let (o, free, _) = appendable_lem ordinal chapter job p in
    Durable-update_job key (add_chapter chapter) engine (λ j e. e)
      (λ j g n c h.
        let same : j ≡ job = some-inj (sym g ∙ f) in
        elim (Bool-cases (chapter.ordinal == n)) [
          | inl e ↦
              let m : n ≡ ordinal = ground arith in
              absurd (
                has_chapter-none ordinal job.chapters free (
                  ap (λ (q : ToyJob). find_chapter ordinal q.chapters) (sym same)
                  ∙ ap (λ q. find_chapter q j.chapters) (sym m)
                  ∙ h))
          | inr e ↦ rw e h
        ])
