-- ===== src/Sqlite/Listing/Walk.antt =====
-- A caller that follows the page tokens of ListJobs.
use mathlib.Core.List.{append_assoc, Perm}
use swf_go.Prelude.{
  ℕ, zero, suc, ◌-◌, ◌<◌, ◌≡◌, refl, sym, ap, ◌∙◌, subst, Bool, false, not, ◌&&◌, String, Option,
  none, some, List, [], ◌∷◌, ◌++◌, length, length-append, ok, err, ◌>>=◌, ◌>>◌, fail_if, arith, inl,
  inr, ◌⊎◌,
}
use swf_go.Runtime.{Try, other_error}
use swf_go.Sqlite.{JobRow, Table}
use swf_go.Sqlite.Listing.{list_store_selection}
use swf_go.Sqlite.Listing.Query.{
  ListJobsRequest, JobSummary, Cursor, cursor_of, Page, cut, cut_after, sort_jobs, passes,
  passes_parent, add_row, list_rows, page_size_of, list_jobs, is_empty, given, cursor_given,
}
use swf_go.Sqlite.Listing.Newest.{Sorted, Distinct, below}
use swf_go.Sqlite.Listing.Sorting.{
  sort_jobs-Sorted, sort_jobs-below, below-after, length-sort_jobs, sort_jobs-perm,
}
use swf_go.Sqlite.Listing.Pages.{list_rows-Follows, Follows-ok}

abbrev pub with_token : Option (Option Cursor) → ListJobsRequest → ListJobsRequest
with_token token req = record req { page_token = token }

abbrev pub walk_on :
    (Option (Option Cursor) → Try (List JobSummary))
    → List JobSummary
    → Option Cursor
    → Try (List JobSummary)
walk_on walk jobs none = ok jobs
walk_on walk jobs (some c) = walk (some (some c)) >>= λ rest. ok (jobs ++ rest)

-- The jobs of the pages from a token on, a number of pages at most.
pub walk :
    (JobRow → Try String)
    → Table
    → ℕ
    → ListJobsRequest
    → ℕ
    → Option (Option Cursor)
    → Try (List JobSummary)
walk parent_of rows now req zero token = err (other_error "more pages")
walk parent_of rows now req (suc n) token =
    list_jobs parent_of rows now (with_token token req) >>= λ page.
    walk_on (walk parent_of rows now req n) page.jobs page.next

-- A page has all the jobs, or ends at one whose cursor it gives.
pub cut_lem :
    (n : ℕ) (jobs : List JobSummary)
    → (cut n jobs ≡ record { jobs = jobs; next = none })
      ⊎ ((front : List JobSummary) × (b : JobSummary) × (rest : List JobSummary) × (jobs
            ≡ front ++ b ∷ rest)
          × (cut n jobs ≡ record { jobs = front ++ b ∷ []; next = some (cursor_of b) }))
unfolding cut
cut_lem n [] = inl refl
cut_lem n (b ∷ []) = inl refl
cut_lem zero (b ∷ c ∷ rest) = inr ([], b, c ∷ rest, refl, refl)
cut_lem (suc n) (b ∷ c ∷ rest) = elim (cut_lem n (c ∷ rest)) [
  | inl e ↦ inl (ap (cut_after b) e)
  | inr (front, d, more, p, e) ↦ inr (b ∷ front, d, more, ap (◌∷◌ b) p, ap (cut_after b) e)
]

-- A request that ListJobs takes, less its token, with the filter and the stores that it asks for.
pub record IsAccepted (req : ListJobsRequest) (filter : Option (String → Try Bool))
    (selection : Bool × Bool) : Type 0 where
  pub one_parent : (req.root_only && not (is_empty req.parent_job_ids)) ≡ false
  pub has_tenant : is_empty req.tenant_ids ≡ false
  pub normal : req.metadata_filter ≡ some filter
  pub selected : list_store_selection req.statuses req.stores ≡ ok selection

module _ (parent_of : JobRow → Try String) (rows : Table) (now : ℕ) (req : ListJobsRequest)
    (filter : Option (String → Try Bool)) (selection : Bool × Bool) where
  list_rows-with_token :
      (token : Option (Option Cursor)) (cursor : Option Cursor) (table : Table)
      → list_rows parent_of rows now (with_token token req) filter selection cursor table
        ≡ list_rows parent_of rows now req filter selection cursor table
  unfolding list_rows passes passes_parent
  list_rows-with_token token cursor [] = refl
  list_rows-with_token token cursor (row ∷ table) =
      ap (add_row parent_of rows now req filter selection cursor row)
        (list_rows-with_token token cursor table)

  module _ (accepted : IsAccepted req filter selection) {all : List JobSummary}
      (listed : list_rows parent_of rows now req filter selection none rows ≡ ok all)
      (distinct : Distinct all) where
    size : ℕ
    size = page_size_of req - 1

    -- What the checks of a request leave.
    checked :
        (a b : Bool) (f : Option (Option (String → Try Bool))) (t : Try (Option Cursor))
        (cursor : Option Cursor) (sel : Try (Bool × Bool))
        (k : Option (String → Try Bool) → Option Cursor → Bool × Bool → Try Page)
        → a ≡ false
        → b ≡ false
        → f ≡ some filter
        → t ≡ ok cursor
        → sel ≡ ok selection
        → (fail_if a (other_error "RootOnly cannot be combined with ParentJobIDs")
            >> (fail_if b (other_error "tenant_ids is required for ListJobs")
                >> (given f >>= λ x. t >>= λ y. sel >>= λ z. k x y z)))
          ≡ k filter cursor selection
    checked a b f t cursor sel k p q r u v = rw (p, q, r, u, v) refl

    page_at :
        (token : Option (Option Cursor)) (cursor : Option Cursor) {jobs : List JobSummary}
        → cursor_given token ≡ ok cursor
        → list_rows parent_of rows now req filter selection cursor rows ≡ ok jobs
        → list_jobs parent_of rows now (with_token token req) ≡ ok (cut size (sort_jobs jobs))
    unfolding list_jobs size
    page_at token cursor given_cursor h =
        checked (req.root_only && not (is_empty req.parent_job_ids)) (is_empty req.tenant_ids)
          req.metadata_filter (cursor_given token) cursor
          (list_store_selection req.statuses req.stores)
          (λ x y z. list_rows parent_of rows now (with_token token req) x z y rows >>= λ jobs.
            ok (cut (page_size_of req - 1) (sort_jobs jobs)))
          (accepted.one_parent) (accepted.has_tenant) (accepted.normal) given_cursor
          (accepted.selected)
        ∙ ap
            (λ (t : Try (List JobSummary)).
              t >>= λ jobs. ok (cut (page_size_of req - 1) (sort_jobs jobs)))
            (list_rows-with_token token cursor rows ∙ h)

    next_page :
        (c : Cursor)
        → list_jobs parent_of rows now (with_token (some (some c)) req)
          ≡ ok (cut size (below c (sort_jobs all)))
    next_page c =
        page_at (some (some c)) (some c) refl
          (Follows-ok (list_rows-Follows parent_of rows now req filter selection c rows) listed)
        ∙ ap (λ l. ok (cut size l)) (sort_jobs-below c all distinct)

    walk_from :
        (n : ℕ) (token : Option (Option Cursor)) (front jobs : List JobSummary)
        → sort_jobs all ≡ front ++ jobs
        → list_jobs parent_of rows now (with_token token req) ≡ ok (cut size jobs)
        → length jobs < n
        → walk parent_of rows now req n token ≡ ok jobs
    unfolding walk
    walk_from zero token front jobs e p l = absurd (omega (arith, l))
    walk_from (suc n) token front jobs e p l =
        ap
          (λ (t : Try Page).
            t >>= λ page. walk_on (walk parent_of rows now req n) page.jobs page.next)
          p
        ∙ by_cut (λ t f js a b c. walk_from n t f js a b c) (cut_lem size jobs)
      where
        by_cut :
            ((t : Option (Option Cursor)) (f js : List JobSummary)
              → sort_jobs all ≡ f ++ js
              → list_jobs parent_of rows now (with_token t req) ≡ ok (cut size js)
              → length js < n
              → walk parent_of rows now req n t ≡ ok js)
            → (cut size jobs ≡ record { jobs = jobs; next = none })
              ⊎ ((f : List JobSummary) × (b : JobSummary) × (rest : List JobSummary) × (jobs
                    ≡ f ++ b ∷ rest)
                  × (cut size jobs ≡ record { jobs = f ++ b ∷ []; next = some (cursor_of b) }))
            → walk_on (walk parent_of rows now req n) (cut size jobs).jobs (cut size jobs).next
              ≡ ok jobs
        by_cut ih (inl a) = rw a refl
        by_cut ih (inr (f, b, rest, s, a)) =
            let sorted : sort_jobs all ≡ (front ++ f) ++ b ∷ rest =
              e ∙ (ap (◌++◌ front) s ∙ sym (append_assoc front f (b ∷ rest))) in
            let left : below (cursor_of b) (sort_jobs all) ≡ rest =
              ap (below (cursor_of b)) sorted
              ∙ below-after (front ++ f) rest b
                  (subst Sorted sorted (sort_jobs-Sorted all distinct)) in
            let later : walk parent_of rows now req n (some (some (cursor_of b))) ≡ ok rest =
              ih (some (some (cursor_of b))) ((front ++ f) ++ b ∷ []) rest
                (sorted ∙ sym (append_assoc (front ++ f) (b ∷ []) rest))
                (next_page (cursor_of b) ∙ ap (λ l. ok (cut size l)) left)
                (omega (arith, l, ap length s, length-append f (b ∷ rest))) in
            rw (a, later) (ap ok (append_assoc f (b ∷ []) rest ∙ sym s))

    -- A caller that follows the tokens of ListJobs gets every job that the filters let through, each
    -- as often as the listing has it, the newest first, whatever the page size; a number of pages
    -- greater than that of the jobs is enough. The table and the clock stand still, the request is
    -- one that ListJobs takes, no row fails to be read, and no two of the jobs have the same
    -- creation time and the same text of their keys.
    pub walk_lem :
        (n : ℕ)
        → length all < n
        → (jobs : List JobSummary) × (walk parent_of rows now req n none ≡ ok jobs)
          × Sorted jobs
          × Perm jobs all
    walk_lem n l = (
      sort_jobs all,
      walk_from n none [] (sort_jobs all) refl (page_at none none refl listed)
          (omega (arith, l, length-sort_jobs all)),
      sort_jobs-Sorted all distinct,
      sort_jobs-perm all,
    )
