-- ===== src/Sqlite/Acquire/Order.antt =====
-- The order in which polling serves the jobs, and that it misses none.
use swf_go.Prelude.{
  ℕ, ◌≤◌, ◌≡◌, sym, ap, ◌∙◌, ◌⊎◌, inl, inr, true, false, String, Option, none, some, [], ◌∷◌, ok,
  arith, Bool-cases, subst,
}
use swf_go.Sqlite.{JobRow, Table, is_some}
use swf_go.Sqlite.Rows.{In}
use swf_go.Sqlite.Lease.Holder.{first_passes, ok-inj}
use swf_go.Sqlite.Acquire.{
  LeaseRequest, Leased, row_le, insert_row, select_candidates, is_leaseable, pick_candidate,
  grant_lease, lease_picked, acquire_one_lease, request_worker_id,
}

AllSince : ℕ → Table → Type 0
AllSince n [] = Unit
AllSince n (row ∷ rows) = (n ≤ row.created_at) × AllSince n rows

Ordered : Table → Type 0
Ordered [] = Unit
Ordered (row ∷ rows) = AllSince row.created_at rows × Ordered rows

AllSince-weaken : (m n : ℕ) (rows : Table) → m ≤ n → AllSince n rows → AllSince m rows
unfolding AllSince
AllSince-weaken m n [] l a = tt
AllSince-weaken m n (row ∷ rows) l (h, t) = (ground arith, AllSince-weaken m n rows l t)

AllSince-insert_row :
    (n : ℕ) (row : JobRow) (rows : Table)
    → n ≤ row.created_at
    → AllSince n rows
    → AllSince n (insert_row row rows)
unfolding AllSince insert_row
AllSince-insert_row n row [] l a = (l, tt)
AllSince-insert_row n row (r ∷ rows) l (h, t) = elim (Bool-cases (row_le row r)) [
  | inl e ↦ rw e (l, (h, t))
  | inr e ↦ rw e (h, AllSince-insert_row n row rows l t)
]

row_le-created : (a b : JobRow) → row_le a b ≡ true → a.created_at ≤ b.created_at
unfolding row_le
row_le-created a b e = ground arith

row_gt-created : (a b : JobRow) → row_le a b ≡ false → b.created_at ≤ a.created_at
unfolding row_le
row_gt-created a b e = ground arith

insert_row-Ordered : (row : JobRow) (rows : Table) → Ordered rows → Ordered (insert_row row rows)
unfolding Ordered insert_row AllSince
insert_row-Ordered row [] o = (tt, tt)
insert_row-Ordered row (r ∷ rows) (a, o) = elim (Bool-cases (row_le row r)) [
  | inl e ↦
      let l : row.created_at ≤ r.created_at = row_le-created row r e in
      rw e ((l, AllSince-weaken row.created_at r.created_at rows l a), (a, o))
  | inr e ↦ rw e (
    AllSince-insert_row r.created_at row rows (row_gt-created row r e) a,
    insert_row-Ordered row rows o,
  )
]

select_candidates-Ordered : (rows : Table) → Ordered (select_candidates rows)
unfolding select_candidates Ordered
select_candidates-Ordered [] = tt
select_candidates-Ordered (row ∷ rows) = elim (Bool-cases (is_some row.archived_at)) [
  | inl e ↦ rw e (select_candidates-Ordered rows)
  | inr e ↦ rw e (insert_row-Ordered row (select_candidates rows) (select_candidates-Ordered rows))
]

insert_row-In : (q row : JobRow) (rows : Table) → (q ≡ row) ⊎ In q rows → In q (insert_row row rows)
unfolding insert_row
insert_row-In q row [] m = ground arith
insert_row-In q row (r ∷ rows) m = elim (Bool-cases (row_le row r)) [
  | inl e ↦ rw e m
  | inr e ↦ rw e (elim m [
    | inl same ↦ inr (insert_row-In q row rows (inl same))
    | inr (inl head) ↦ inl head
    | inr (inr tail) ↦ inr (insert_row-In q row rows (inr tail))
  ])
]

select_candidates-In :
    (q : JobRow) (rows : Table) → In q rows → q.archived_at ≡ none → In q (select_candidates rows)
unfolding select_candidates
select_candidates-In q [] m a = absurd m
select_candidates-In q (row ∷ rows) m a = elim (Bool-cases (is_some row.archived_at)) [
  | inl e ↦ rw e (elim m [
    | inl same ↦ absurd (ground (arith, ap (λ (r : JobRow). is_some r.archived_at) same))
    | inr tail ↦ select_candidates-In q rows tail a
  ])
  | inr e ↦ rw e (
      insert_row-In q row (select_candidates rows)
        (elim m [ inl same ↦ inl same | inr tail ↦ inr (select_candidates-In q rows tail a) ]))
]

AllSince-In : (n : ℕ) (rows : Table) (q : JobRow) → AllSince n rows → In q rows → n ≤ q.created_at
unfolding AllSince
AllSince-In n [] q a m = absurd m
AllSince-In n (row ∷ rows) q (h, t) (inl e) = rw e h
AllSince-In n (row ∷ rows) q (h, t) (inr m) = AllSince-In n rows q t m

-- What the candidate loop answers: no candidate is leaseable, or this is a first one.
Picked : LeaseRequest → ℕ → Table → Table → Option JobRow → Type 0
Picked req now rows candidates none =
    (q : JobRow) → In q candidates → is_leaseable req now rows q ≡ ok false
Picked req now rows candidates (some row) =
    (q : JobRow)
    → In q candidates
    → is_leaseable req now rows q ≡ ok true
    → row.created_at ≤ q.created_at

Picked-skip :
    (req : LeaseRequest) (now : ℕ) (rows candidates : Table) (r : JobRow) (out : Option JobRow)
    → is_leaseable req now rows r ≡ ok false
    → Picked req now rows candidates out
    → Picked req now rows (r ∷ candidates) out
unfolding Picked
Picked-skip req now rows candidates r none n p =
    λ q m. elim m [ inl e ↦ ap (is_leaseable req now rows) e ∙ n | inr tail ↦ p q tail ]
Picked-skip req now rows candidates r (some row) n p = λ q m y. elim m [
  | inl e ↦ absurd (ground (arith, ok-inj (sym y ∙ ap (is_leaseable req now rows) e ∙ n)))
  | inr tail ↦ p q tail y
]

Picked-first :
    (req : LeaseRequest) (now : ℕ) (rows candidates : Table) (r : JobRow)
    → AllSince r.created_at candidates
    → Picked req now rows (r ∷ candidates) (some r)
unfolding Picked
Picked-first req now rows candidates r a = λ q m y. elim m [
  | inl e ↦ rw e (ground arith)
  | inr tail ↦ AllSince-In r.created_at candidates q a tail
]

pick_candidate-Picked :
    (req : LeaseRequest) (now : ℕ) (rows candidates : Table) (out : Option JobRow)
    → Ordered candidates
    → pick_candidate req now rows candidates ≡ ok out
    → Picked req now rows candidates out
unfolding pick_candidate Ordered
pick_candidate-Picked req now rows [] out o h =
    subst (Picked req now rows []) (ok-inj h) (unfold Picked in (λ q m. absurd m))
pick_candidate-Picked req now rows (r ∷ candidates) out (a, o) h =
    let (hit, l, h1) = first_passes (is_leaseable req now rows r) _ h in
    elim (Bool-cases hit) [
      | inl e ↦
          subst (Picked req now rows (r ∷ candidates)) (ok-inj (rw e at h1))
            (Picked-first req now rows candidates r a)
      | inr e ↦
          Picked-skip req now rows candidates r out (l ∙ ap ok e)
            (pick_candidate-Picked req now rows candidates out o (rw e at h1))
    ]

-- Polling is first come, first served, and misses no job. If it returns without a lease, none of the
-- jobs that are not archived passes its tests; if it grants a lease on a job, every job that passes
-- was created at the same time or later.
pub acquire_one_lease-oldest :
    (req : LeaseRequest) (own lease_id : String) (now : ℕ) (rows : Table) {out : Leased}
    → acquire_one_lease req own lease_id now rows ≡ ok out
    → ((out ≡ (rows, none))
        × ((q : JobRow)
            → In q rows
            → q.archived_at ≡ none
            → is_leaseable req now rows q ≡ ok false))
      ⊎ ((row : JobRow) × (out
            ≡ grant_lease lease_id
                (request_worker_id own req.worker_id)
                req.lease_duration
                now
                rows
                row)
          × ((q : JobRow)
              → In q rows
              → q.archived_at ≡ none
              → is_leaseable req now rows q ≡ ok true
              → row.created_at ≤ q.created_at))
unfolding acquire_one_lease Picked
acquire_one_lease-oldest req own lease_id now rows {out} h =
    let (picked, p, h1) = first_passes (pick_candidate req now rows (select_candidates rows)) _ h in
    served picked
      (pick_candidate-Picked req now rows (select_candidates rows) picked
        (select_candidates-Ordered rows) p)
      (ok-inj h1)
  where
    served :
        (picked : Option JobRow)
        → Picked req now rows (select_candidates rows) picked
        → lease_picked req own lease_id now rows picked ≡ out
        → ((out ≡ (rows, none))
            × ((q : JobRow)
                → In q rows
                → q.archived_at ≡ none
                → is_leaseable req now rows q ≡ ok false))
          ⊎ ((row : JobRow) × (out
                ≡ grant_lease lease_id
                    (request_worker_id own req.worker_id)
                    req.lease_duration
                    now
                    rows
                    row)
              × ((q : JobRow)
                  → In q rows
                  → q.archived_at ≡ none
                  → is_leaseable req now rows q ≡ ok true
                  → row.created_at ≤ q.created_at))
    served none p e = inl (sym e, λ q m a. p q (select_candidates-In q rows m a))
    served (some row) p e = inr (row, sym e, λ q m a. p q (select_candidates-In q rows m a))
