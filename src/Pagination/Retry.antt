-- ===== src/Pagination/Retry.antt =====
-- Retries of Next after the callback failed. A failed callback leaves the token in place, so the
-- next call counts the caller's own retry as a token that the server repeated.
use swf_go.Prelude.{ℕ, ◌+◌, ◌≤◌, ◌≡◌, refl, false, String, some, [], err, arith, str_eq_refl}
use swf_go.Pagination.{
  Iterator, infinite_loop, fetch_failed, failure, Fetch, Outcome, same_token, next_fuel, next,
  receive, request, serve,
}

module _ {A : Type 0} where
  -- The iterator stands before a continuation page, with no item left, and `n` repeats counted.
  pub record Stalled (t : String) (n : ℕ) (it : Iterator A) : Type 0 where
    pub no_items : it.items ≡ []
    pub open_end : it.exhaust ≡ false
    pub token : it.next_page ≡ some t
    pub sent : it.prev_token ≡ some t
    pub count : it.same_token_seen ≡ n

  serve_repeated :
      (fetch : Fetch A) (again : Iterator A → Outcome A) (t : String) (n : ℕ) (it : Iterator A)
      → Stalled t n it
      → 2 ≤ n
      → serve fetch again it it.items
        ≡ some (err infinite_loop, record it { same_token_seen = n + 1 })
  unfolding serve request
  serve_repeated fetch again t n it s h = ground (arith, str_eq_refl t)

  serve_failure :
      (fetch : Fetch A) (again : Iterator A → Outcome A) (t e : String) (n : ℕ) (it : Iterator A)
      → Stalled t n it
      → n ≤ 1
      → fetch it.fetches (some t) ≡ failure e
      → serve fetch again it it.items
        ≡ some
            (err (fetch_failed e), record it { same_token_seen = n + 1; fetches = it.fetches + 1 })
  unfolding serve request receive
  serve_failure fetch again t e n it s h f = ground (arith, str_eq_refl t)

  -- Once two retries of a continuation token have been counted, every later Next reports an
  -- infinite pagination loop, whatever the server would answer: the callback is not called any more
  -- (`fetches` stays), and the iterator remains stalled for good.
  pub Stalled-forever :
      (fetch : Fetch A) (t : String) (n : ℕ) (it : Iterator A)
      → Stalled t n it
      → 2 ≤ n
      → (it' : Iterator A) × (next fetch it ≡ some (err infinite_loop, it'))
        × Stalled t (n + 1) it'
        × (it'.fetches ≡ it.fetches)
  unfolding next next_fuel
  Stalled-forever fetch t n it s h = (
    record it { same_token_seen = n + 1 },
    serve_repeated fetch (next_fuel fetch 9) t n it s h,
    ground arith,
    refl,
  )

  -- A failed fetch of a continuation token leads there: the first failure stalls the iterator
  -- with no repeat counted, each later one adds one.
  pub failure-Stalled :
      (fetch : Fetch A) (t e : String) (n : ℕ) (it : Iterator A)
      → Stalled t n it
      → n ≤ 1
      → fetch it.fetches (some t) ≡ failure e
      → (it' : Iterator A) × (next fetch it ≡ some (err (fetch_failed e), it'))
        × Stalled t (n + 1) it'
  unfolding next next_fuel
  failure-Stalled fetch t e n it s h f = (
    record it { same_token_seen = n + 1; fetches = it.fetches + 1 },
    serve_failure fetch (next_fuel fetch 9) t e n it s h f,
    ground arith,
  )

  -- The iterator stands before a continuation page that it has not asked for yet.
  pub record Fresh (t : String) (it : Iterator A) : Type 0 where
    pub no_items : it.items ≡ []
    pub open_end : it.exhaust ≡ false
    pub token : it.next_page ≡ some t
    pub unsent : same_token it.prev_token (some t) ≡ false

  serve_first_failure :
      (fetch : Fetch A) (again : Iterator A → Outcome A) (t e : String) (it : Iterator A)
      → Fresh t it
      → fetch it.fetches (some t) ≡ failure e
      → serve fetch again it it.items
        ≡ some (
          err (fetch_failed e),
          record it { same_token_seen = 0; prev_token = some t; fetches = it.fetches + 1 },
        )
  unfolding serve request receive
  serve_first_failure fetch again t e it s f = ground arith

  -- When the callback fails three times in a row on a page token, the three errors are passed on, and
  -- from then on Next reports an infinite pagination loop for every server, one that has recovered
  -- included, although no server ever repeated a token.
  pub three_failures :
      (fetch : Fetch A) (t e₁ e₂ e₃ : String) (it : Iterator A)
      → Fresh t it
      → fetch it.fetches (some t) ≡ failure e₁
      → fetch (it.fetches + 1) (some t) ≡ failure e₂
      → fetch (it.fetches + 1 + 1) (some t) ≡ failure e₃
      → (it₁ it₂ it₃ : Iterator A) × (next fetch it ≡ some (err (fetch_failed e₁), it₁))
        × (next fetch it₁ ≡ some (err (fetch_failed e₂), it₂))
        × (next fetch it₂ ≡ some (err (fetch_failed e₃), it₃))
        × ((server : Fetch A)
            → (it₄ : Iterator A) × (next server it₃ ≡ some (err infinite_loop, it₄)))
  unfolding next next_fuel
  three_failures fetch t e₁ e₂ e₃ it s f₁ f₂ f₃ =
      let it₁ : Iterator A = record it {
        same_token_seen = 0;
        prev_token = some t;
        fetches = it.fetches + 1;
      } in
      let it₂ : Iterator A = record it₁ { same_token_seen = 0 + 1; fetches = it.fetches + 1 + 1 } in
      let it₃ : Iterator A = record it₂ {
        same_token_seen = 1 + 1;
        fetches = it.fetches + 1 + 1 + 1;
      } in
      let s₁ : Stalled t 0 it₁ = ground arith in
      let s₂ : Stalled t 1 it₂ = ground arith in
      let s₃ : Stalled t 2 it₃ = ground arith in
      (
        it₁,
        it₂,
        it₃,
        serve_first_failure fetch (next_fuel fetch 9) t e₁ it s f₁,
        serve_failure fetch (next_fuel fetch 9) t e₂ 0 it₁ s₁ (omega arith) f₂,
        serve_failure fetch (next_fuel fetch 9) t e₃ 1 it₂ s₂ (omega arith) f₃,
        λ server. let (it₄, e, _, _) = Stalled-forever server t 2 it₃ s₃ (omega arith) in (it₄, e),
      )
