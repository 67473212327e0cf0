-- ===== src/Sqlite/Acquire/Grants.antt =====
-- What a granted lease says of the row that it was granted on.
use swf_go.Prelude.{
  ℕ, ◌+◌, ◌<◌, ◌≡◌, ◌≢◌, refl, sym, ap, ◌∙◌, ◌⊎◌, inl, inr, Bool, true, false, ◌&&◌, String, Option,
  none, some, List, [], ◌∷◌, str_eq_iff, if◌then◌else◌, ok, ◌>>=◌, fail_if, arith, Bool-cases,
  Option-cases, some-inj, subst,
}
use swf_go.Runtime.{JobKey, JobStatus, ready, crash_concern, Try, in_cap_set, is_empty_set}
use swf_go.Sqlite.{
  JobRow, Table, is_some, find_row, decoded, has_live_lease, dependencies_ready,
  effective_next_need, lease_duration_or_default, time_to_ns, status_from_row, archived_status,
}
use swf_go.Sqlite.Rows.{In, Keyed, Keyed-find, find_row-key}
use swf_go.Sqlite.Lease.Holder.{
  HoldsLease, Updated, Updated-update, first_passes, ok-inj, is_some-none,
}
use swf_go.Sqlite.Acquire.{
  LeaseRequest, Leased, request_worker_id, insert_row, select_candidates, is_offered, is_available,
  is_leaseable, pick_candidate, grant_row, granted_lease, grant_lease, acquire_one_lease,
  lease_picked, is_leaseable_status, get_job_lease,
}

In-insert_row :
    (row r : JobRow) (rows : Table) → In row (insert_row r rows) → (row ≡ r) ⊎ In row rows
unfolding insert_row
In-insert_row row r [] m = ground arith
In-insert_row row r (q ∷ rows) m = ground (arith, In-insert_row row r rows)

In-select_candidates :
    (row : JobRow) (rows : Table)
    → In row (select_candidates rows)
    → In row rows × (row.archived_at ≡ none)
unfolding select_candidates
In-select_candidates row [] m = absurd m
In-select_candidates row (r ∷ rows) m = elim (Bool-cases (is_some r.archived_at)) [
  | inr e ↦ elim (In-insert_row row r (select_candidates rows) (rw e at m)) [
    | inl same ↦
        (inl same, ap (λ (q : JobRow). q.archived_at) same ∙ (is_some-none r.archived_at).0 e)
    | inr rest ↦ let (a, b) = In-select_candidates row rows rest in (inr a, b)
  ]
  | inl e ↦ let (a, b) = In-select_candidates row rows (rw e at m) in (inr a, b)
]

-- The tests of the candidate loop that a leased row has passed.
pub record Leaseable (req : LeaseRequest) (now : ℕ) (rows : Table) (row : JobRow) : Type 0 where
  pub tenant : row.key.tenant_id ≡ req.tenant_id
  pub uncancelled : row.cancel_requested ≡ false
  pub wanted : in_cap_set req.capabilities (effective_next_need row now).0 ≡ true
  pub idle : has_live_lease row now ≡ false
  pub dependencies :
      (ids : List String) × (row.wait_for ≡ some ids)
      × (dependencies_ready rows row.key.tenant_id ids ≡ true)
  pub available : is_available row now ≡ true
  pub matched : req.metadata_matches row.metadata ≡ ok true

is_leaseable-Leaseable :
    (req : LeaseRequest) (now : ℕ) (rows : Table) (row : JobRow)
    → is_leaseable req now rows row ≡ ok true
    → Leaseable req now rows row
unfolding is_leaseable is_offered
is_leaseable-Leaseable req now rows row h = elim (Bool-cases (is_offered req now row)) [
  | inl offered ↦
      let (ids, w, h1) = first_passes (decoded row.wait_for) _ (rw (offered, is_leaseable) at h) in
      record {
        tenant = ground (arith, str_eq_iff row.key.tenant_id req.tenant_id);
        uncancelled = ground arith;
        wanted = ground arith;
        idle = ground arith;
        dependencies = (ids, ground arith, ground arith);
        available = ground arith;
        matched = ground arith;
      }
  | inr refused ↦ absurd (ground arith)
]

pick_candidate-Leaseable :
    (req : LeaseRequest) (now : ℕ) (rows candidates : Table) {row : JobRow}
    → pick_candidate req now rows candidates ≡ ok (some row)
    → In row candidates × Leaseable req now rows row
unfolding pick_candidate
pick_candidate-Leaseable req now rows [] h = absurd (ground arith)
pick_candidate-Leaseable req now rows (r ∷ candidates) {row} h =
    let (hit, l, h1) = first_passes (is_leaseable req now rows r) _ h in
    elim (Bool-cases hit) [
      | inl e ↦
          let same : r ≡ row = some-inj (ok-inj (rw e at h1)) in
          (
            inl (sym same),
            subst (Leaseable req now rows) same
                (is_leaseable-Leaseable req now rows r (l ∙ ap ok e)),
          )
      | inr e ↦
          let (m, p) = pick_candidate-Leaseable req now rows candidates (rw e at h1) in (inr m, p)
    ]

-- The holder of a new lease: the row as a grant leaves it passes the lease check until it runs out.
grant_row-HoldsLease :
    (lease_id worker_id : String) (duration now : ℕ) (row : JobRow)
    → lease_id ≢ ""
    → row.archived_at ≡ none
    → (t : ℕ) → t < time_to_ns (now + lease_duration_or_default duration)
    → HoldsLease (grant_row lease_id worker_id duration now row) lease_id worker_id t
unfolding grant_row
grant_row-HoldsLease lease_id worker_id duration now row n a t l = record {
  unarchived = a;
  named = n;
  owner = refl;
  worker = inr refl;
  unexpired = (time_to_ns (now + lease_duration_or_default duration), refl, l);
}

-- A lease was granted on a row, and nothing else was changed.
abbrev pub Granted : LeaseRequest → String → String → ℕ → Table → Leased → JobRow → Type 0
Granted req own lease_id now rows out row =
    (row' : JobRow) × (find_row row.key rows ≡ some row)
    × Updated row.key rows out.0 row'
    × (out.1
        ≡ some (
            granted_lease lease_id (request_worker_id own req.worker_id) req.lease_duration now
              row))
    × ((t : ℕ)
        → t < time_to_ns (now + lease_duration_or_default req.lease_duration)
        → HoldsLease row' lease_id (request_worker_id own req.worker_id) t)

grant_lease-Granted :
    (req : LeaseRequest) (own lease_id : String) (now : ℕ) (rows : Table) (row : JobRow)
    → lease_id ≢ ""
    → find_row row.key rows ≡ some row
    → row.archived_at ≡ none
    → Granted req own lease_id now rows
        (grant_lease lease_id (request_worker_id own req.worker_id) req.lease_duration now rows row)
        row
unfolding grant_lease
grant_lease-Granted req own lease_id now rows row n f a =
    let worker : String = request_worker_id own req.worker_id in
    let change : JobRow → JobRow = grant_row lease_id worker req.lease_duration now in
    (
      change row,
      f,
      Updated-update row.key change rows (unfold grant_row in (λ r. refl)) f refl,
      refl,
      grant_row-HoldsLease lease_id worker req.lease_duration now row n a,
    )

-- Polling grants a lease only on a row that no one else may be working on: it is not archived, not
-- cancelled, without a running lease, its dependencies are settled, its waiting time is over, and
-- the caller asked for its tenant, its need and its metadata. Afterwards the new lease passes every
-- check until its stored expiry, which is the end of its term as an int64 of nanoseconds: a term that
-- ends after the year 2262 wraps. No other row has changed; without a grant the table is unchanged.
pub acquire_one_lease_lem :
    (req : LeaseRequest) (own lease_id : String) (now : ℕ) (rows : Table) {out : Leased}
    → Keyed rows
    → lease_id ≢ ""
    → acquire_one_lease req own lease_id now rows ≡ ok out
    → (out ≡ (rows, none))
      ⊎ ((row : JobRow) × (row.archived_at ≡ none)
          × Leaseable req now rows row
          × Granted req own lease_id now rows out row)
unfolding acquire_one_lease
acquire_one_lease_lem req own lease_id now rows {out} k n h =
    let (picked, p, h1) = first_passes (pick_candidate req now rows (select_candidates rows)) _ h in
    granted picked p (ok-inj h1)
  where
    granted :
        (picked : Option JobRow)
        → pick_candidate req now rows (select_candidates rows) ≡ ok picked
        → lease_picked req own lease_id now rows picked ≡ out
        → (out ≡ (rows, none))
          ⊎ ((row : JobRow) × (row.archived_at ≡ none)
              × Leaseable req now rows row
              × Granted req own lease_id now rows out row)
    granted none p e = inl (sym e)
    granted (some row) p e =
        let (m, l) = pick_candidate-Leaseable req now rows (select_candidates rows) p in
        let (i, a) = In-select_candidates row rows m in
        inr (
          row,
          a,
          l,
          subst (λ o. Granted req own lease_id now rows o row) e
              (grant_lease-Granted req own lease_id now rows row n (Keyed-find row rows k i) a),
        )

leaseable_status-unarchived :
    (rows : Table) (row : JobRow) (now : ℕ) {status : JobStatus}
    → status_from_row rows row now ≡ ok status
    → is_leaseable_status status ≡ true
    → row.archived_at ≡ none
unfolding status_from_row archived_status
leaseable_status-unarchived rows row now h l = ground arith

leased_if :
    (b : Bool) (grant idle out : Leased)
    → (if b then grant else idle) ≡ out
    → (idle ≡ out) ⊎ ((b ≡ true) × (grant ≡ out))
leased_if true grant idle out e = inr (refl, e)
leased_if false grant idle out e = inl e

-- Asking for one job grants a lease only if its status is READY, or its last lease has run out,
-- and only for a need that the caller offers. Then the new lease passes every check until its stored
-- expiry, the end of its term as an int64 of nanoseconds, which wraps after the year 2262, and no
-- other row has changed. Without a grant the table is unchanged.
pub get_job_lease_lem :
    (req : LeaseRequest) (own lease_id : String) (now : ℕ) (key : JobKey) (rows : Table)
    {out : Leased}
    → lease_id ≢ ""
    → get_job_lease req own lease_id now key rows ≡ ok out
    → (out ≡ (rows, none))
      ⊎ ((row : JobRow) × (row.key ≡ key)
          × (row.archived_at ≡ none)
          × ((status_from_row rows row now ≡ ok ready)
              ⊎ (status_from_row rows row now ≡ ok crash_concern))
          × (in_cap_set req.capabilities (effective_next_need row now).0 ≡ true)
          × Granted req own lease_id now rows out row)
unfolding get_job_lease
get_job_lease_lem req own lease_id now key rows {out} n h =
    let (_, _, h1) = first_passes (fail_if (is_empty_set req.capabilities) _) _ h in
    elim (Option-cases (find_row key rows)) [
      | inl e ↦ inl (sym (ok-inj (rw e at h1)))
      | inr (row, e) ↦ decide row e (rw e at h1)
    ]
  where
    worker : String
    worker = request_worker_id own req.worker_id

    test : JobRow → JobStatus → Bool
    test row status =
        is_leaseable_status status && in_cap_set req.capabilities (effective_next_need row now).0

    ready_or_crashed :
        (status : JobStatus) (t : Try JobStatus)
        → t ≡ ok status
        → is_leaseable_status status ≡ true
        → (t ≡ ok ready) ⊎ (t ≡ ok crash_concern)
    ready_or_crashed status t e l = ground arith

    decide :
        (row : JobRow)
        → find_row key rows ≡ some row
        → (do
          status ← status_from_row rows row now
          ok (
              if test row status
              then grant_lease lease_id worker req.lease_duration now rows row
              else (rows, none)))
          ≡ ok out
        → (out ≡ (rows, none))
          ⊎ ((row : JobRow) × (row.key ≡ key)
              × (row.archived_at ≡ none)
              × ((status_from_row rows row now ≡ ok ready)
                  ⊎ (status_from_row rows row now ≡ ok crash_concern))
              × (in_cap_set req.capabilities (effective_next_need row now).0 ≡ true)
              × Granted req own lease_id now rows out row)
    decide row f g =
        let (status, s, g1) = first_passes (status_from_row rows row now) _ g in
        elim (leased_if (test row status) _ _ out (ok-inj g1)) [
          | inl e ↦ inl (sym e)
          | inr (b, e) ↦
              let l : is_leaseable_status status ≡ true = ground arith in
              let k : row.key ≡ key = find_row-key key rows f in
              let a : row.archived_at ≡ none = leaseable_status-unarchived rows row now s l in
              inr (
                row,
                k,
                a,
                ready_or_crashed status (status_from_row rows row now) s l,
                ground arith,
                subst (λ o. Granted req own lease_id now rows o row) e
                    (grant_lease-Granted req own lease_id now rows row n
                      (ap (λ j. find_row j rows) k ∙ f) a),
              )
        ]
