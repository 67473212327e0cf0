-- ===== src/Sqlite/Listing/Sorting.antt =====
-- The sort of a listing in ListJobs, and the jobs that a cursor leaves.
use mathlib.Core.List.{Perm}
use mathlib.Core.List.Perm
use swf_go.Prelude.{
  suc, length, ◌≡◌, refl, sym, ap, ◌∙◌, true, false, List, [], ◌∷◌, ◌++◌, if◌then◌else◌, Bool-cases,
  inl, inr,
}
use swf_go.Sqlite.Listing.Query.{JobSummary, Cursor, cursor_of, insert_job, sort_jobs}
use swf_go.Sqlite.Listing.Newest.{
  newer, newer_irrefl, newer_trans, newer_asym, newer_total, AllNewer, Sorted, Apart, Distinct,
  Twins, is_below, below,
}

AllNewer-trans :
    (a b : JobSummary) (bs : List JobSummary) → newer a b ≡ true → AllNewer b bs → AllNewer a bs
AllNewer-trans a b [] h l = tt
AllNewer-trans a b (c ∷ cs) h (p, l) = (newer_trans a b c h p, AllNewer-trans a b cs h l)

AllNewer-insert_job :
    (a b : JobSummary) (bs : List JobSummary)
    → newer a b ≡ true
    → AllNewer a bs
    → AllNewer a (insert_job b bs)
unfolding insert_job
AllNewer-insert_job a b [] h l = (h, tt)
AllNewer-insert_job a b (c ∷ cs) h (p, l) = elim (Bool-cases (newer b c)) [
  | inl e ↦ rw e (h, (p, l))
  | inr e ↦ rw e (p, AllNewer-insert_job a b cs h l)
]

insert_job-Sorted :
    (b : JobSummary) (bs : List JobSummary) → Apart b bs → Sorted bs → Sorted (insert_job b bs)
unfolding insert_job
insert_job-Sorted b [] x s = (tt, tt)
insert_job-Sorted b (c ∷ cs) (x, xs) (l, s) = elim (Bool-cases (newer b c)) [
  | inl e ↦ rw e ((e, AllNewer-trans b c cs e l), (l, s))
  | inr e ↦ rw e (
    AllNewer-insert_job c b cs
        (elim (newer_total b c x) [ inl p ↦ absurd (differ (sym p ∙ e)) | inr p ↦ p ]) l,
    insert_job-Sorted b cs xs s,
  )
]
  where
    differ : true ≡ false → ⊥
    differ e = cc

Apart-insert_job :
    (a b : JobSummary) (bs : List JobSummary)
    → (Twins a b → ⊥)
    → Apart a bs
    → Apart a (insert_job b bs)
unfolding insert_job
Apart-insert_job a b [] h l = (h, tt)
Apart-insert_job a b (c ∷ cs) h (p, l) = elim (Bool-cases (newer b c)) [
  | inl e ↦ rw e (h, (p, l))
  | inr e ↦ rw e (p, Apart-insert_job a b cs h l)
]

Apart-sort_jobs : (a : JobSummary) (bs : List JobSummary) → Apart a bs → Apart a (sort_jobs bs)
unfolding sort_jobs
Apart-sort_jobs a [] l = tt
Apart-sort_jobs a (b ∷ bs) (p, l) = Apart-insert_job a b (sort_jobs bs) p (Apart-sort_jobs a bs l)

pub sort_jobs-Sorted : (bs : List JobSummary) → Distinct bs → Sorted (sort_jobs bs)
unfolding sort_jobs
sort_jobs-Sorted [] d = tt
sort_jobs-Sorted (b ∷ bs) (x, d) =
    insert_job-Sorted b (sort_jobs bs) (Apart-sort_jobs b bs x) (sort_jobs-Sorted bs d)

AllNewer-below :
    (a : JobSummary) (c : Cursor) (bs : List JobSummary) → AllNewer a bs → AllNewer a (below c bs)
AllNewer-below a c [] l = tt
AllNewer-below a c (b ∷ bs) (p, l) = elim (Bool-cases (is_below c b)) [
  | inl e ↦ rw e (p, AllNewer-below a c bs l)
  | inr e ↦ rw e (AllNewer-below a c bs l)
]

-- A job that comes before all others is put at the head.
insert_job-first :
    (b : JobSummary) (bs : List JobSummary) → AllNewer b bs → insert_job b bs ≡ b ∷ bs
unfolding insert_job
insert_job-first b [] l = refl
insert_job-first b (c ∷ cs) (p, l) = rw p refl

below-insert_job :
    (c : Cursor) (b : JobSummary) (bs : List JobSummary)
    → Sorted bs
    → below c (insert_job b bs) ≡ (if is_below c b then insert_job b (below c bs) else below c bs)
unfolding insert_job
below-insert_job c b [] s = refl
below-insert_job c b (d ∷ ds) (l, s) = elim (Bool-cases (newer b d)) [
  | inl e ↦ elim (Bool-cases (is_below c b)) [
    | inl f ↦
        rw (e, f)
          (sym (
            insert_job-first b (below c (d ∷ ds))
              (AllNewer-below b c (d ∷ ds) (e, AllNewer-trans b d ds e l))))
    | inr f ↦ rw (e, f) refl
  ]
  | inr e ↦ elim (Bool-cases (is_below c d)) [
    | inl g ↦ elim (Bool-cases (is_below c b)) [
      | inl f ↦ rw (e, g, below-insert_job c b ds s, f, e) refl
      | inr f ↦ rw (e, g, below-insert_job c b ds s, f) refl
    ]
    | inr g ↦ rw (e, g, below-insert_job c b ds s) refl
  ]
]

-- Sorting what a cursor leaves is the same as leaving out of the sorted list.
pub sort_jobs-below :
    (c : Cursor) (bs : List JobSummary)
    → Distinct bs
    → sort_jobs (below c bs) ≡ below c (sort_jobs bs)
unfolding sort_jobs
sort_jobs-below c [] d = refl
sort_jobs-below c (b ∷ bs) (x, d) = elim (Bool-cases (is_below c b)) [
  | inl f ↦
      rw (below-insert_job c b (sort_jobs bs) (sort_jobs-Sorted bs d), f)
        (ap (insert_job b) (sort_jobs-below c bs d))
  | inr f ↦
      rw (below-insert_job c b (sort_jobs bs) (sort_jobs-Sorted bs d), f) (sort_jobs-below c bs d)
]

below-AllNewer :
    (a : JobSummary) (bs : List JobSummary) → AllNewer a bs → below (cursor_of a) bs ≡ bs
below-AllNewer a [] l = refl
below-AllNewer a (b ∷ bs) (p, l) = rw p (ap (◌∷◌ b) (below-AllNewer a bs l))

AllNewer-at :
    (a b : JobSummary) (front rest : List JobSummary)
    → AllNewer a (front ++ b ∷ rest)
    → newer a b ≡ true
AllNewer-at a b [] rest (p, l) = p
AllNewer-at a b (c ∷ cs) rest (p, l) = AllNewer-at a b cs rest l

-- The cursor of a job leaves what comes after that job.
pub below-after :
    (front rest : List JobSummary) (b : JobSummary)
    → Sorted (front ++ b ∷ rest)
    → below (cursor_of b) (front ++ b ∷ rest) ≡ rest
below-after [] rest b (l, s) = rw (newer_irrefl b) (below-AllNewer b rest l)
below-after (c ∷ cs) rest b (l, s) =
    rw (newer_asym c b (AllNewer-at c b cs rest l)) (below-after cs rest b s)

insert_job-perm : (b : JobSummary) (bs : List JobSummary) → Perm (insert_job b bs) (b ∷ bs)
unfolding insert_job
insert_job-perm b [] = Perm.rfl
insert_job-perm b (c ∷ cs) = elim (Bool-cases (newer b c)) [
  | inl e ↦ rw e Perm.rfl
  | inr e ↦ rw e (Perm.trans (Perm.cons c (insert_job-perm b cs)) (Perm.swap b c cs))
]

pub sort_jobs-perm : (bs : List JobSummary) → Perm (sort_jobs bs) bs
unfolding sort_jobs
sort_jobs-perm [] = Perm.nil
sort_jobs-perm (b ∷ bs) =
    Perm.trans (insert_job-perm b (sort_jobs bs)) (Perm.cons b (sort_jobs-perm bs))

length-insert_job :
    (b : JobSummary) (bs : List JobSummary) → length (insert_job b bs) ≡ suc (length bs)
unfolding insert_job
length-insert_job b [] = refl
length-insert_job b (c ∷ cs) = elim (Bool-cases (newer b c)) [
  | inl e ↦ rw e refl
  | inr e ↦ rw e (ap suc (length-insert_job b cs))
]

pub length-sort_jobs : (bs : List JobSummary) → length (sort_jobs bs) ≡ length bs
unfolding sort_jobs
length-sort_jobs [] = refl
length-sort_jobs (b ∷ bs) = length-insert_job b (sort_jobs bs) ∙ ap suc (length-sort_jobs bs)
