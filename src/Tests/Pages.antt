-- ===== src/Tests/Pages.antt =====
-- Concrete runs of the page iterator of pkg/jobdb/internal/chapterstore/pagination.
use swf_go.Prelude.{ℕ, ◌+◌, ◌≡◌, refl, none, some, [], ◌∷◌, Result, err, arith, false}
use swf_go.Pagination.{
  Iterator, IteratorError, no_more_items, infinite_loop, fetch_failed, page, failure, Fetch,
  new_iterator, next,
}
use swf_go.Pagination.Drain.{collect, collect-Chain, next_total, Chain, hollow, last}
use swf_go.Pagination.Retry.{Stalled, Stalled-forever, failure-Stalled, three_failures}

-- An empty first page, then one with two items.
abbrev two_pages : Fetch ℕ
two_pages n none = page [] (some "p2")
two_pages n (some t) = page (7 ∷ 8 ∷ []) none

abbrev broken : Fetch ℕ
broken n token = failure "timeout"

two_pages-Chain : Chain two_pages 0 none (7 ∷ 8 ∷ [])
two_pages-Chain = hollow (λ n. refl) refl (omega arith) (last (λ n. refl))

collect-Chain_example : collect two_pages 3 new_iterator ≡ some (7 ∷ 8 ∷ [], no_more_items)
collect-Chain_example = collect-Chain two_pages (7 ∷ 8 ∷ []) two_pages-Chain

next_total_example :
    (r : Result IteratorError ℕ × Iterator ℕ) × (next two_pages new_iterator ≡ some r)
next_total_example = next_total two_pages new_iterator

abbrev before_page : Iterator ℕ
before_page = record {
  items = [];
  next_page = some "p2";
  prev_token = none;
  same_token_seen = 0;
  empty_page_seen = 0;
  exhaust = false;
  fetches = 1;
}

abbrev stalled_at : ℕ → Iterator ℕ
stalled_at n = record before_page { prev_token = some "p2"; same_token_seen = n }

Stalled-forever_run :
    (it' : Iterator ℕ) × (next two_pages (stalled_at 2) ≡ some (err infinite_loop, it'))
    × Stalled "p2" (2 + 1) it'
    × (it'.fetches ≡ 1)
Stalled-forever_run =
    Stalled-forever two_pages "p2" 2 (stalled_at 2)
      (record { no_items = refl; open_end = refl; token = refl; sent = refl; count = refl })
      (omega arith)

failure-Stalled_run :
    (it' : Iterator ℕ) × (next broken (stalled_at 0) ≡ some (err (fetch_failed "timeout"), it'))
    × Stalled "p2" (0 + 1) it'
failure-Stalled_run =
    failure-Stalled broken "p2" "timeout" 0 (stalled_at 0)
      (record { no_items = refl; open_end = refl; token = refl; sent = refl; count = refl })
      (omega arith) refl

three_failures_example :
    (it₁ it₂ it₃ : Iterator ℕ) × (next broken before_page
      ≡ some (err (fetch_failed "timeout"), it₁))
    × (next broken it₁ ≡ some (err (fetch_failed "timeout"), it₂))
    × (next broken it₂ ≡ some (err (fetch_failed "timeout"), it₃))
    × ((server : Fetch ℕ) → (it₄ : Iterator ℕ) × (next server it₃ ≡ some (err infinite_loop, it₄)))
three_failures_example =
    three_failures broken "p2" "timeout" "timeout" "timeout" before_page
      (record { no_items = refl; open_end = refl; token = refl; unsent = refl }) refl refl refl
