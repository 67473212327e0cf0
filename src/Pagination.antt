-- ===== src/Pagination.antt =====
-- pkg/jobdb/internal/chapterstore/pagination/iterator.go: the pull-based page iterator.
-- A page token is a `*string`: `none` is nil. The fetch callback belongs to the caller; it is an
-- argument, and also gets the number of fetches made before, so that a server may change its answer.
pub mod Drain
pub mod Retry
use swf_go.Prelude.{
  ℕ, zero, suc, ◌+◌, Bool, true, false, not, String, Option, none, some, List, [], ◌∷◌, str_eq, leb,
  if◌then◌else◌, Result, ok, err,
}

pub data IteratorError : Type 0 where
  no_more_items : IteratorError
  infinite_loop : IteratorError
  fetch_failed : String → IteratorError

-- What one call of the callback gives: a page with the next token, or its error.
pub data Page (A : Type 0) : Type 0 where
  page : List A → Option String → Page A
  failure : String → Page A

abbrev pub Fetch : Type 0 → Type 0
Fetch A = ℕ → Option String → Page A

pub record Iterator (A : Type 0) : Type 0 where
  pub items : List A
  pub next_page : Option String
  pub prev_token : Option String
  pub same_token_seen : ℕ
  pub empty_page_seen : ℕ
  pub exhaust : Bool
  pub fetches : ℕ

abbrev pub max_same_token : ℕ
max_same_token = 3

abbrev pub max_empty_pages : ℕ
max_empty_pages = 10

unfoldable pub new_iterator : {A : Type 0} → Iterator A
new_iterator = record {
  items = [];
  next_page = none;
  prev_token = none;
  same_token_seen = 0;
  empty_page_seen = 0;
  exhaust = false;
  fetches = 0;
}

-- `a != nil && b != nil && *a == *b`
abbrev pub same_token : Option String → Option String → Bool
same_token (some a) (some b) = str_eq a b
same_token (some a) none = false
same_token none b = false

abbrev pub nonempty : {A : Type 0} → List A → Bool
nonempty [] = false
nonempty (x ∷ xs) = true

-- `HasNext`.
unfoldable pub has_next : {A : Type 0} → Iterator A → Bool
has_next it = if nonempty it.items then true else not it.exhaust

abbrev pub Outcome : Type 0 → Type 0
Outcome A = Option (Result IteratorError A × Iterator A)

module _ {A : Type 0} where
  -- `next := it.items[0]; it.items = it.items[1:]`, after a page with items came.
  pop_page : Iterator A → A → List A → Option String → Outcome A
  pop_page it x rest none =
      some (ok x, record it { items = rest; empty_page_seen = 0; exhaust = true })
  pop_page it x rest (some t) = some (ok x, record it { items = rest; empty_page_seen = 0 })

  -- After the callback returned a page that passed the token check.
  accept : (Iterator A → Outcome A) → Iterator A → List A → Option String → Outcome A
  unfolding pop_page
  accept again it [] none = some (err no_more_items, record it { exhaust = true })
  accept again it [] (some t) =
      let seen : ℕ = it.empty_page_seen + 1 in
      let it' : Iterator A = record it { empty_page_seen = seen } in
      let more : Outcome A = again it' in
      if leb max_empty_pages seen then some (err infinite_loop, it') else more
  accept again it (x ∷ rest) token = pop_page it x rest token

  receive : (Iterator A → Outcome A) → Iterator A → Page A → Outcome A
  unfolding accept
  receive again it (failure e) = some (err (fetch_failed e), it)
  receive again it (page xs token) =
      let taken : Outcome A = accept again (record it { items = xs; next_page = token }) xs token in
      if same_token token it.next_page then some (err infinite_loop, it) else taken

  -- The page is used up: count a repeated token, then call the callback.
  request : Fetch A → (Iterator A → Outcome A) → Iterator A → Outcome A
  unfolding receive
  request fetch again it =
      let repeated : Bool = same_token it.prev_token it.next_page in
      let seen : ℕ = if repeated then it.same_token_seen + 1 else 0 in
      let counted : Iterator A = record it { same_token_seen = seen } in
      let asked : Iterator A = record counted {
        prev_token = it.next_page;
        fetches = it.fetches + 1;
      } in
      let answer : Outcome A = receive again asked (fetch it.fetches it.next_page) in
      if repeated
      then (if leb max_same_token seen then some (err infinite_loop, counted) else answer)
      else answer

  serve : Fetch A → (Iterator A → Outcome A) → Iterator A → List A → Outcome A
  unfolding request
  serve fetch again it (x ∷ rest) = some (ok x, record it { items = rest })
  serve fetch again it [] =
      if it.exhaust then some (err no_more_items, it) else request fetch again it

  -- `Next`; the call of itself after an empty page takes one unit of fuel.
  pub next_fuel : Fetch A → ℕ → Iterator A → Outcome A
  unfolding serve
  next_fuel fetch zero it = none
  next_fuel fetch (suc fuel) it = serve fetch (next_fuel fetch fuel) it it.items

  -- Ten rounds are enough: `next_total`.
  unfoldable pub next : Fetch A → Iterator A → Outcome A
  unfolding next_fuel
  next fetch it = next_fuel fetch max_empty_pages it
