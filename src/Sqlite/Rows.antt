-- ===== src/Sqlite/Rows.antt =====
-- The laws of the job table: rows found after an update, keys that are not repeated, stored times.

use swf_go.Prelude.{
  ℕ, ◌<◌, some-inj, ◌≡◌, refl, sym, ap, ◌∙◌, ◌≢◌, Bool, true, false, none, some, [], ◌∷◌,
  if◌then◌else◌, Bool-cases, inl, inr, ◌⊎◌, arith,
}
use swf_go.Runtime.{JobKey, key_eq, key_eq_iff, key_eq_refl}
use swf_go.Sqlite.{JobRow, Table, find_row, update_row, time_to_ns}

module _ (key : JobKey) (change : JobRow → JobRow)
    (keeps : (r : JobRow) → (change r).key ≡ r.key) where
  -- An update reaches the row with its key, and no other.
  pub find_row-update_row :
      (rows : Table) {row : JobRow}
      → find_row key rows ≡ some row
      → find_row key (update_row key change rows) ≡ some (change row)
  unfolding find_row update_row
  find_row-update_row [] e = ground arith
  find_row-update_row (r ∷ rows) e = elim (Bool-cases (key_eq r.key key)) [
    | inl hit ↦ rw hit (
        rw (ap (λ k. key_eq k key) (keeps r) ∙ hit)
          (ap (λ q. some (change q)) (some-inj (rw hit at e))))
    | inr miss ↦ rw miss (rw miss (find_row-update_row rows (rw miss at e)))
  ]

  pub find_row-update_row_other :
      (j : JobKey) (rows : Table)
      → key ≢ j
      → find_row j (update_row key change rows) ≡ find_row j rows
  unfolding find_row update_row
  find_row-update_row_other j [] n = refl
  find_row-update_row_other j (r ∷ rows) n = elim (Bool-cases (key_eq r.key key)) [
    | inl hit ↦
        let other : key_eq r.key j ≡ false =
          ground (arith, key_eq_iff r.key key, key_eq_iff r.key j) in
        rw hit (
          rw (ap (λ k. key_eq k j) (keeps r) ∙ other)
            (rw other (find_row-update_row_other j rows n)))
    | inr miss ↦ rw miss (ground (arith, find_row-update_row_other j rows n))
  ]

-- No key stands twice.
abbrev pub Keyed : Table → Type 0
Keyed [] = Unit {0}
Keyed (row ∷ rows) = (find_row row.key rows ≡ none) × Keyed rows

abbrev pub In : JobRow → Table → Type 0
In row [] = ⊥
In row (r ∷ rows) = (row ≡ r) ⊎ In row rows

find_row-In : (row : JobRow) (rows : Table) → In row rows → find_row row.key rows ≢ none
unfolding find_row
find_row-In row [] m = absurd m
find_row-In row (r ∷ rows) (inl e) =
    rw (ap (λ (q : JobRow). key_eq q.key row.key) (sym e) ∙ key_eq_refl row.key) (λ h. ground arith)
find_row-In row (r ∷ rows) (inr m) = ground (arith, find_row-In row rows m)

pub Keyed-find :
    (row : JobRow) (rows : Table) → Keyed rows → In row rows → find_row row.key rows ≡ some row
unfolding find_row
Keyed-find row [] k m = absurd m
Keyed-find row (r ∷ rows) k (inl e) =
    rw (ap (λ (q : JobRow). key_eq q.key row.key) (sym e) ∙ key_eq_refl row.key) (ap some (sym e))
Keyed-find row (r ∷ rows) k (inr m) = elim (Bool-cases (key_eq r.key row.key)) [
  | inl hit ↦
      let same : r.key ≡ row.key = (key_eq_iff r.key row.key).0 hit in
      absurd (find_row-In row rows m (ap (λ j. find_row j rows) (sym same) ∙ k.0))
  | inr miss ↦ rw miss (Keyed-find row rows k.1 m)
]

pub find_row-key :
    (key : JobKey) (rows : Table) {row : JobRow} → find_row key rows ≡ some row → row.key ≡ key
unfolding find_row
find_row-key key [] e = ground arith
find_row-key key (r ∷ rows) {row} e = elim (Bool-cases (key_eq r.key key)) [
  | inl hit ↦
      let same : r ≡ row = some-inj (rw hit at e) in
      ap (λ (q : JobRow). q.key) (sym same) ∙ (key_eq_iff r.key key).0 hit
  | inr miss ↦ find_row-key key rows (rw miss at e)
]

find_row-update_row-none :
    (key j : JobKey) (change : JobRow → JobRow) (rows : Table)
    → ((r : JobRow) → (change r).key ≡ r.key)
    → find_row j rows ≡ none
    → find_row j (update_row key change rows) ≡ none
unfolding find_row update_row
find_row-update_row-none key j change [] keeps e = refl
find_row-update_row-none key j change (r ∷ rows) keeps e = elim (Bool-cases (key_eq r.key j)) [
  | inl hit ↦ absurd (ground arith)
  | inr miss ↦ elim (Bool-cases (key_eq r.key key)) [
    | inl own ↦ rw own (
        rw (ap (λ q. key_eq q j) (keeps r) ∙ miss)
          (find_row-update_row-none key j change rows keeps (rw miss at e)))
    | inr other ↦
        rw other (rw miss (find_row-update_row-none key j change rows keeps (rw miss at e)))
  ]
]

changed_key :
    (key : JobKey) (change : JobRow → JobRow) (r : JobRow)
    → ((r : JobRow) → (change r).key ≡ r.key)
    → (b : Bool) → (if b then change r else r).key ≡ r.key
changed_key key change r keeps true = keeps r
changed_key key change r keeps false = refl

pub Keyed-update_row :
    (key : JobKey) (change : JobRow → JobRow) (rows : Table)
    → ((r : JobRow) → (change r).key ≡ r.key)
    → Keyed rows
    → Keyed (update_row key change rows)
unfolding update_row
Keyed-update_row key change [] keeps k = tt
Keyed-update_row key change (r ∷ rows) keeps k = (
  ap (λ j. find_row j (update_row key change rows))
        (changed_key key change r keeps (key_eq r.key key))
      ∙ find_row-update_row-none key r.key change rows keeps k.0,
  Keyed-update_row key change rows keeps k.1,
)

-- A time up to the year 2262 is stored as it is.
pub time_to_ns-fits : (t : ℕ) → t < 9_223_372_036_854_775_808 → time_to_ns t ≡ t
unfolding time_to_ns
time_to_ns-fits t l = ground arith
