-- ===== src/Sqlite/Listing.antt =====
-- sqlite/runtime.go, listStoreSelection: which of the two stores a listing of jobs has to read. A
-- status or a store with an unknown name is `none`.
pub mod Query
pub mod TextOrder
pub mod Newest
pub mod Sorting
pub mod Pages
pub mod Walk
use swf_go.Prelude.{
  ◌≡◌, ◌⊎◌, inl, inr, Bool, true, false, ◌||◌, Option, none, some, List, [], ◌∷◌, ok, err, arith,
  some-inj, subst,
}
use swf_go.Runtime.{JobStatus, cancelled, completed, Try, other_error}
use swf_go.Sqlite.Lease.Holder.{ok-inj}

pub data JobStore : Type 0 where
  active_store archived_store : JobStore

-- includeActive and includeArchive
abbrev pub Selection : Type 0
Selection = Bool × Bool

abbrev pub for_status : JobStatus → Selection
for_status completed = (false, true)
for_status cancelled = (true, true)
for_status _ = (true, false)

abbrev pub for_store : JobStore → Selection
for_store active_store = (true, false)
for_store archived_store = (false, true)

abbrev pub both : Selection → Selection → Selection
both (a, b) (c, d) = (a || c, b || d)

unfoldable pub select_statuses : List (Option JobStatus) → Selection → Try Selection
select_statuses [] sel = ok sel
select_statuses (none ∷ statuses) sel = err (other_error "unknown status")
select_statuses (some status ∷ statuses) sel =
    select_statuses statuses (both sel (for_status status))

unfoldable pub select_stores : List (Option JobStore) → Selection → Try Selection
select_stores [] sel = ok sel
select_stores (none ∷ stores) sel = err (other_error "unknown store")
select_stores (some store ∷ stores) sel = select_stores stores (both sel (for_store store))

abbrev stores_or_all : List (Option JobStore) → Try Selection
stores_or_all [] = ok (true, true)
stores_or_all (store ∷ stores) = select_stores (store ∷ stores) (false, false)

unfoldable pub list_store_selection :
    List (Option JobStatus) → List (Option JobStore) → Try Selection
list_store_selection [] stores = stores_or_all stores
list_store_selection (status ∷ statuses) stores = select_statuses (status ∷ statuses) (false, false)

abbrev pub Asked : JobStatus → List (Option JobStatus) → Type 0
Asked status [] = ⊥
Asked status (s ∷ statuses) = (s ≡ some status) ⊎ Asked status statuses

-- The first selection lets at least as much through as the second.
abbrev pub Covers : Selection → Selection → Type 0
Covers a b = (b.0 ≡ true → a.0 ≡ true) × (b.1 ≡ true → a.1 ≡ true)

Covers-both : (a b : Selection) → Covers (both a b) a × Covers (both a b) b
Covers-both (a, b) (c, d) =
    ((λ h. ground arith, λ h. ground arith), (λ h. ground arith, λ h. ground arith))

Covers-trans : (a b c : Selection) → Covers a b → Covers b c → Covers a c
Covers-trans a b c (p, q) (r, s) = (λ h. p (r h), λ h. q (s h))

select_statuses-Covers :
    (statuses : List (Option JobStatus)) (sel : Selection) {out : Selection}
    → select_statuses statuses sel ≡ ok out
    → Covers out sel
      × ((status : JobStatus) → Asked status statuses → Covers out (for_status status))
unfolding select_statuses
select_statuses-Covers [] sel e =
    (subst (λ o. Covers o sel) (ok-inj e) (λ h. h, λ h. h), λ status a. absurd a)
select_statuses-Covers (none ∷ statuses) sel e = absurd (ground arith)
select_statuses-Covers (some s ∷ statuses) sel {out} e =
    let (c, rest) = select_statuses-Covers statuses (both sel (for_status s)) e in
    let (p, q) = Covers-both sel (for_status s) in
    (
      Covers-trans out (both sel (for_status s)) sel c p,
      λ status a. elim a [
        | inl same ↦
            subst (λ t. Covers out (for_status t)) (some-inj same)
              (Covers-trans out (both sel (for_status s)) (for_status s) c q)
        | inr later ↦ rest status later
      ],
    )

-- A listing by status reads every store that can hold a job with one of the statuses: the archive
-- for COMPLETED and CANCELLED, the active jobs for every status but COMPLETED.
pub list_store_selection-Covers :
    (statuses : List (Option JobStatus)) (stores : List (Option JobStore)) (status : JobStatus)
    {out : Selection}
    → list_store_selection statuses stores ≡ ok out
    → Asked status statuses
    → Covers out (for_status status)
unfolding list_store_selection
list_store_selection-Covers [] stores status e a = absurd a
list_store_selection-Covers (s ∷ statuses) stores status e a =
    (select_statuses-Covers (s ∷ statuses) (false, false) e).1 status a
