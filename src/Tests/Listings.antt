-- ===== src/Tests/Listings.antt =====
-- A listing of two jobs, one on each page.
use mathlib.Core.List.{Perm}
use swf_go.Prelude.{◌≡◌, refl, true, String, none, some, List, [], ◌∷◌, ok, str_eq, arith}
use swf_go.Runtime.{ready, pending_jobs, key_eq, Try}
use swf_go.Sqlite.{
  JobRow, find_row, status_from_row, dependencies_ready, dependency_open, unleased_status,
}
use swf_go.Sqlite.Listing.{list_store_selection}
use swf_go.Sqlite.Listing.Query.{
  ListJobsRequest, JobSummary, list_rows, passes, passes_parent, summary_of,
}
use swf_go.Sqlite.Listing.Newest.{Sorted}
use swf_go.Sqlite.Listing.Walk.{walk, walk_lem}
use swf_go.Tests.Jobs.{first_job, second_job, jobs}

abbrev by_tenant : ListJobsRequest
by_tenant = record {
  tenant_ids = "acme" ∷ [];
  statuses = [];
  stores = [];
  job_types = "report" ∷ [];
  job_tasks = [];
  job_keys = [];
  parent_job_ids = [];
  root_only = true;
  metadata_filter = some none;
  created_after = some 5;
  created_before = none;
  page_size = 1;
  page_token = none;
}

abbrev no_parent : JobRow → Try String
no_parent row = ok ""

abbrev listed : List JobSummary
listed =
    summary_of second_job pending_jobs 100 "" ("first" ∷ [])
    ∷ summary_of first_job ready 100 "" []
    ∷ []

listed_rows : list_rows no_parent jobs 100 by_tenant none (true, true) none jobs ≡ ok listed
unfolding list_rows status_from_row unleased_status dependencies_ready dependency_open find_row
    key_eq str_eq passes passes_parent
listed_rows = refl

walk_lem_example :
    (all : List JobSummary) × (walk no_parent jobs 100 by_tenant 3 none ≡ ok all)
    × Sorted all
    × Perm all listed
unfolding summary_of list_store_selection
walk_lem_example =
    walk_lem no_parent jobs 100 by_tenant none (true, true)
      (record { one_parent = refl; has_tenant = refl; normal = refl; selected = refl }) listed_rows
      ((λ twins. absurd (omega (arith, twins.0)), tt), (tt, tt)) 3 (omega arith)
