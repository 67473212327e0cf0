-- ===== src/Pagination/Drain.antt =====
-- Next always returns, and a well-behaved server is drained page by page.
use swf_go.Prelude.{
  ℕ, zero, suc, ◌+◌, ◌≤◌, ◌<◌, ◌≡◌, refl, ◌≢◌, Bool, true, false, String, Option, none, some, List,
  [], ◌∷◌, ◌++◌, Result, ok, err, arith, length, Option-cases, inl, inr, str_eq_sym, ◌∙◌,
  lt→leb-false, Bool-cases, ◌⊎◌,
}
use swf_go.Pagination.{
  Iterator, IteratorError, no_more_items, Page, page, failure, Fetch, Outcome, next_fuel, next,
  accept, receive, request, serve, pop_page, same_token, new_iterator,
}

module _ {A : Type 0} where
  abbrev Again : (Iterator A → Outcome A) → Iterator A → Type 0
  Again again it =
      it.empty_page_seen + 1 < 10
      → (it' : Iterator A) → it'.empty_page_seen ≡ it.empty_page_seen + 1
      → again it' ≢ none

  accept_total :
      (again : Iterator A → Outcome A) (it : Iterator A) (xs : List A) (t : Option String)
      → Again again it
      → accept again it xs t ≢ none
  unfolding accept
  accept_total again it [] none h = ground arith
  accept_total again it [] (some t) h = ground (
    arith,
    λ (p : it.empty_page_seen + 1 < 10).
        h p (record it { empty_page_seen = it.empty_page_seen + 1 }) refl,
  )
  accept_total again it (x ∷ xs) none h = ground arith
  accept_total again it (x ∷ xs) (some t) h = ground arith

  receive_total :
      (again : Iterator A → Outcome A) (it : Iterator A) (p : Page A)
      → Again again it
      → receive again it p ≢ none
  unfolding receive
  receive_total again it (failure e) h = ground arith
  receive_total again it (page xs t) h =
      ground (arith, accept_total again (record it { items = xs; next_page = t }) xs t h)

  request_total :
      (fetch : Fetch A) (again : Iterator A → Outcome A) (it : Iterator A)
      → Again again it
      → request fetch again it ≢ none
  unfolding request
  request_total fetch again it h = elim (Bool-cases (same_token it.prev_token it.next_page)) [
    | inl e ↦ rw e (ground (arith, answered (it.same_token_seen + 1)))
    | inr e ↦ rw e (answered 0)
  ]
    where
      answered :
          (n : ℕ)
          → receive again
              (record it {
                same_token_seen = n;
                prev_token = it.next_page;
                fetches = it.fetches + 1;
              })
              (fetch it.fetches it.next_page)
            ≢ none
      answered n = receive_total again _ (fetch it.fetches it.next_page) h

  serve_total :
      (fetch : Fetch A) (again : Iterator A → Outcome A) (it : Iterator A) (xs : List A)
      → Again again it
      → serve fetch again it xs ≢ none
  unfolding serve
  serve_total fetch again it (x ∷ rest) h = ground arith
  serve_total fetch again it [] h = ground (arith, request_total fetch again it h)

  next_fuel_total :
      (fetch : Fetch A) (fuel : ℕ) (it : Iterator A)
      → 0 < fuel
      → 10 ≤ fuel + it.empty_page_seen
      → next_fuel fetch fuel it ≢ none
  unfolding next_fuel
  next_fuel_total fetch zero it p h = absurd (omega arith)
  next_fuel_total fetch (suc fuel) it p h =
      serve_total fetch (next_fuel fetch fuel) it it.items
        (λ low it' e. next_fuel_total fetch fuel it' (omega arith) (omega arith))

  -- Whatever the server answers, and in whatever state the iterator is, one call of Next returns
  -- after at most ten requests.
  pub next_total :
      (fetch : Fetch A) (it : Iterator A)
      → (r : Result IteratorError A × Iterator A) × (next fetch it ≡ some r)
  unfolding next
  next_total fetch it = elim (Option-cases (next_fuel fetch 10 it)) [
    | inl e ↦ absurd (next_fuel_total fetch 10 it (omega arith) (omega arith) e)
    | inr found ↦ found
  ]

same_token_sym : (a b : Option String) → same_token a b ≡ false → same_token b a ≡ false
same_token_sym (some a) (some b) h = str_eq_sym b a ∙ h
same_token_sym (some a) none h = refl
same_token_sym none (some b) h = refl
same_token_sym none none h = refl

-- A server that answers each token the same way every time, and never with the token that it was
-- sent: `Chain fetch e token xs` says that the pages from `token` on hold `xs` in order, and that
-- fewer than ten empty pages follow one another, `e` of them already seen.
pub data Chain {A : Type 0} (fetch : Fetch A) : ℕ → Option String → List A → Type 0 where
  last :
      {e : ℕ} {token : Option String} {xs : List A}
      → ((n : ℕ) → fetch n token ≡ page xs none)
      → Chain fetch e token xs
  filled :
      {e : ℕ} {token : Option String} {x : A} {xs ys : List A} {t : String}
      → ((n : ℕ) → fetch n token ≡ page (x ∷ xs) (some t))
      → same_token (some t) token ≡ false
      → Chain fetch 0 (some t) ys
      → Chain fetch e token (x ∷ xs ++ ys)
  hollow :
      {e : ℕ} {token : Option String} {ys : List A} {t : String}
      → ((n : ℕ) → fetch n token ≡ page [] (some t))
      → same_token (some t) token ≡ false
      → e + 1 < 10
      → Chain fetch (e + 1) (some t) ys
      → Chain fetch e token ys

module _ {A : Type 0} (fetch : Fetch A) where
  -- The items still to come: those of the current page, and those of the pages after it.
  abbrev Holds : Iterator A → List A → Type 0
  Holds it xs =
      ((it.exhaust ≡ true) × (xs ≡ it.items))
      ⊎ ((ys : List A) × (it.exhaust ≡ false)
          × (same_token it.prev_token it.next_page ≡ false)
          × Chain fetch it.empty_page_seen it.next_page ys
          × (xs ≡ it.items ++ ys))

  abbrev Delivers : List A → Outcome A → Type 0
  Delivers [] r = (it : Iterator A) × (r ≡ some (err no_more_items, it))
  Delivers (x ∷ xs) r = (it : Iterator A) × (r ≡ some (ok x, it)) × Holds it xs

  abbrev state : List A → Option String → Option String → ℕ → ℕ → Bool → ℕ → Iterator A
  state items next_page prev_token same_token_seen empty_page_seen exhaust fetches = record {
    items = items;
    next_page = next_page;
    prev_token = prev_token;
    same_token_seen = same_token_seen;
    empty_page_seen = empty_page_seen;
    exhaust = exhaust;
    fetches = fetches;
  }

  request_page :
      (again : Iterator A → Outcome A) (token prev : Option String) (same e k : ℕ) (xs : List A)
      (t : Option String)
      → same_token prev token ≡ false
      → fetch k token ≡ page xs t
      → same_token t token ≡ false
      → request fetch again (state [] token prev same e false k)
        ≡ accept again (state xs t token 0 e false (k + 1)) xs t
  unfolding request receive
  request_page again token prev same e k xs t fresh answer other =
      rw fresh (rw answer (rw other refl))

  request-Delivers :
      (fuel : ℕ) (prev : Option String) (same k : ℕ) {e : ℕ} {token : Option String} {xs : List A}
      → Chain fetch e token xs
      → same_token prev token ≡ false
      → 10 ≤ suc fuel + e
      → Delivers xs (request fetch (next_fuel fetch fuel) (state [] token prev same e false k))
  unfolding accept pop_page next_fuel serve
  request-Delivers fuel prev same k {e} {token} {xs = []} (last f) s h =
      rw (request_page (next_fuel fetch fuel) token prev same e k [] none s (f k) refl) (_, refl)
  request-Delivers fuel prev same k {e} {token} {xs = x ∷ xs} (last f) s h =
      rw (request_page (next_fuel fetch fuel) token prev same e k (x ∷ xs) none s (f k) refl)
        (_, refl, inl (refl, refl))
  request-Delivers fuel prev same k {e} {token} (filled {x = x} {xs = xs} {ys = ys} {t = t} f g c) s
        h =
      rw (request_page (next_fuel fetch fuel) token prev same e k (x ∷ xs) (some t) s (f k) g)
        (_, refl, inr (ys, refl, same_token_sym (some t) token g, c, refl))
  request-Delivers zero prev same k (hollow f g l c) s h = absurd (omega arith)
  request-Delivers (suc fuel) prev same k {e} {token} (hollow {t = t} f g l c) s h =
      rw (request_page (next_fuel fetch (suc fuel)) token prev same e k [] (some t) s (f k) g) (
        rw (lt→leb-false 10 (e + 1) l)
          (request-Delivers fuel token 0 (k + 1) c (same_token_sym (some t) token g) (omega arith)))

  next_state :
      (items : List A) (token prev : Option String) (same e : ℕ) (exhaust : Bool) (k : ℕ)
      (xs : List A)
      → Holds (state items token prev same e exhaust k) xs
      → Delivers xs (next fetch (state items token prev same e exhaust k))
  unfolding next next_fuel serve
  next_state (y ∷ items) token prev same e exhaust k xs (inl (d, p)) = rw p (_, refl, inl (d, refl))
  next_state (y ∷ items) token prev same e exhaust k xs (inr (ys, d, s, c, p)) =
      rw p (_, refl, inr (ys, d, s, c, refl))
  next_state [] token prev same e exhaust k xs (inl (d, p)) = rw (p, d) (_, refl)
  next_state [] token prev same e exhaust k xs (inr (ys, d, s, c, p)) =
      rw (p, d) (request-Delivers 9 prev same k c s (omega arith))

  -- Next hands out the first item still to come, or reports the end when there is none.
  next-Delivers : (it : Iterator A) (xs : List A) → Holds it xs → Delivers xs (next fetch it)
  next-Delivers it xs =
      next_state it.items it.next_page it.prev_token it.same_token_seen it.empty_page_seen
        it.exhaust it.fetches xs

  -- A caller that reads up to `n` times and keeps what came before the first error.
  pub collect : ℕ → Iterator A → Option (List A × IteratorError)
  collect zero it = none
  collect (suc n) it = elim (next fetch it) [
    | none ↦ none
    | some (ok x, it') ↦ elim (collect n it') [ none ↦ none | some (xs, e) ↦ some (x ∷ xs, e) ]
    | some (err e, it') ↦ some ([], e)
  ]

  collect-Holds :
      (xs : List A) (it : Iterator A)
      → Holds it xs
      → collect (suc (length xs)) it ≡ some (xs, no_more_items)
  unfolding collect
  collect-Holds [] it h = let (it', e) = next-Delivers it [] h in rw (e, collect)
  collect-Holds (x ∷ xs) it h =
      let (it', e, h') = next-Delivers it (x ∷ xs) h in
      rw (e, collect) (rw (collect-Holds xs it' h'))

  -- A fresh iterator over a server whose pages hold `xs`, with fewer than ten empty pages in a row,
  -- hands out exactly `xs`, in order and each item once, and then reports that there is no more.
  pub collect-Chain :
      (xs : List A)
      → Chain fetch 0 none xs
      → collect (suc (length xs)) new_iterator ≡ some (xs, no_more_items)
  unfolding new_iterator
  collect-Chain xs c = collect-Holds xs new_iterator (inr (xs, refl, refl, c, refl))
