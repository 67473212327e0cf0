-- ===== src/Sqlite/Listing/Pages.antt =====
-- The pages of a listing, one after another.
use swf_go.Prelude.{
  ℕ, ◌≡◌, refl, ap, subst, Bool, true, false, not, String, Option, none, some, List, [], ◌∷◌,
  if◌then◌else◌, ok, err, ◌>>=◌, arith,
}
use swf_go.Runtime.{JobStatus, Try, RuntimeError}
use swf_go.Sqlite.{JobRow, Table, decoded, status_from_row}
use swf_go.Sqlite.Lease.Holder.{ok-inj}
use swf_go.Sqlite.Listing.Query.{
  ListJobsRequest, JobSummary, Cursor, any_text, passes, passes_parent, matches, summary_of,
  add_left, add_row, list_rows, is_left,
}
use swf_go.Sqlite.Listing.Newest.{below}

-- What a listing gives, and what it gives from a cursor on.
pub data Follows (c : Cursor) : Try (List JobSummary) → Try (List JobSummary) → Type 0 where
  fails : {e : RuntimeError} {y : Try (List JobSummary)} → Follows c (err e) y
  leaves : (jobs : List JobSummary) → Follows c (ok jobs) (ok (below c jobs))

pub Follows-ok :
    {c : Cursor} {x y : Try (List JobSummary)} {jobs : List JobSummary}
    → Follows c x y
    → x ≡ ok jobs
    → y ≡ ok (below c jobs)
Follows-ok fails p = absurd (ground arith)
Follows-ok {c} (leaves js) p = ap (λ l. ok (below c l)) (ok-inj p)

Follows-bind :
    {A : Type 0} (c : Cursor) (t : Try A) (f g : A → Try (List JobSummary))
    → ((a : A) → Follows c (f a) (g a))
    → Follows c (t >>= f) (t >>= g)
Follows-bind c (err e) f g h = fails
Follows-bind c (ok a) f g h = h a

Follows-if :
    {c : Cursor} (b : Bool) {x y u v : Try (List JobSummary)}
    → Follows c x u
    → Follows c y v
    → Follows c (if b then x else y) (if b then u else v)
Follows-if true p q = p
Follows-if false p q = q

module _ (parent_of : JobRow → Try String) (rows : Table) (now : ℕ) (req : ListJobsRequest)
    (filter : Option (String → Try Bool)) (selection : Bool × Bool) (c : Cursor) where
  add_left-Follows :
      (row : JobRow) (status : JobStatus) (parent : String) (x y : Try (List JobSummary))
      → Follows c x y
      → Follows c
          (add_left parent_of rows now req filter selection none row status parent x)
          (add_left parent_of rows now req filter selection (some c) row status parent y)
  unfolding summary_of
  add_left-Follows row status parent x y h = by_wait row.wait_for h
    where
      by_cursor :
          (b : Bool) (job : JobSummary) (l : List JobSummary)
          → ◌≡◌ {A = Try (List JobSummary)}
              (ok (if b then job ∷ l else l))
              (if not b then ok l else ok (job ∷ l))
      by_cursor true job l = refl
      by_cursor false job l = refl

      by_wait :
          {u v : Try (List JobSummary)} (w : Option (List String))
          → Follows c u v
          → Follows c
              (decoded w >>= λ wait_for.
                u >>= λ js. ok (summary_of row status now parent wait_for ∷ js))
              (if not (is_left (some c) row.created_at row.key)
                then v
                else (decoded w >>= λ wait_for.
                    v >>= λ js. ok (summary_of row status now parent wait_for ∷ js)))
      by_wait none f = fails
      by_wait (some w) fails = fails
      by_wait (some w) (leaves js) =
          subst (Follows c (ok (summary_of row status now parent w ∷ js)))
            (by_cursor (is_left (some c) row.created_at row.key)
              (summary_of row status now parent w) (below c js))
            (leaves (summary_of row status now parent w ∷ js))

  add_row-Follows :
      (row : JobRow) (x y : Try (List JobSummary))
      → Follows c x y
      → Follows c
          (add_row parent_of rows now req filter selection none row x)
          (add_row parent_of rows now req filter selection (some c) row y)
  add_row-Follows row x y h = Follows-if (not (any_text req.tenant_ids row.key.tenant_id)) h (
      Follows-bind c (status_from_row rows row now) _ _ (λ status.
        Follows-if (not (passes req selection row status)) h (
          Follows-bind c (parent_of row) _ _ (λ parent.
            Follows-if (not (passes_parent req row parent)) h (
              Follows-bind c (matches filter row) _ _ (λ matching.
                Follows-if (not matching) h (add_left-Follows row status parent x y h)))))))

  pub list_rows-Follows :
      (table : Table)
      → Follows c
          (list_rows parent_of rows now req filter selection none table)
          (list_rows parent_of rows now req filter selection (some c) table)
  unfolding list_rows
  list_rows-Follows [] = leaves []
  list_rows-Follows (row ∷ table) = add_row-Follows row _ _ (list_rows-Follows table)
