-- ===== src/Sqlite/Listing/Newest.antt =====
-- The order of a listing, and the jobs that a cursor leaves.
use swf_go.Prelude.{
  ℕ, ◌≡◌, refl, sym, ◌∙◌, Bool, true, false, ◌&&◌, ◌||◌, List, [], ◌∷◌, ltb, ◌==◌, if◌then◌else◌,
  Bool-cases, inl, inr, ◌⊎◌, arith,
}
use swf_go.Sqlite.Listing.TextOrder.{text_lt_irrefl, text_lt_trans, text_lt_total}
use swf_go.Sqlite.Listing.Query.{text_lt, key_text, is_newer, JobSummary, Cursor}

-- One job comes before another in a listing.
abbrev pub newer : JobSummary → JobSummary → Bool
newer a b = is_newer a.created_at a.key b.created_at b.key

pub newer_irrefl : (a : JobSummary) → newer a a ≡ false
newer_irrefl a = ground (arith, text_lt_irrefl (key_text a.key))

pub newer_trans : (a b c : JobSummary) → newer a b ≡ true → newer b c ≡ true → newer a c ≡ true
newer_trans a b c p q =
    step a.created_at b.created_at c.created_at (text_lt (key_text b.key) (key_text a.key))
      (text_lt (key_text c.key) (key_text b.key)) (text_lt (key_text c.key) (key_text a.key))
      (λ x y. text_lt_trans (key_text c.key) (key_text b.key) (key_text a.key) y x) p q
  where
    step :
        (l m n : ℕ) (x y z : Bool)
        → (x ≡ true → y ≡ true → z ≡ true)
        → (ltb m l || (l == m && x)) ≡ true
        → (ltb n m || (m == n && y)) ≡ true
        → (ltb n l || (l == n && z)) ≡ true
    step l m n true true z ih g h = ground (arith, ih refl refl)
    step l m n true false z ih g h = ground arith
    step l m n false y z ih g h = ground arith

pub newer_asym : (a b : JobSummary) → newer a b ≡ true → newer b a ≡ false
newer_asym a b p = elim (Bool-cases (newer b a)) [
  | inl h ↦ absurd (differ (sym (newer_trans a b a p h) ∙ newer_irrefl a))
  | inr h ↦ h
]
  where
    differ : true ≡ false → ⊥
    differ e = cc

-- Two jobs of one creation time with the same text of their keys.
abbrev pub Twins : JobSummary → JobSummary → Type 0
Twins a b = (a.created_at ≡ b.created_at) × (key_text a.key ≡ key_text b.key)

pub newer_total : (a b : JobSummary) → (Twins a b → ⊥) → (newer a b ≡ true) ⊎ (newer b a ≡ true)
newer_total a b apart = by_text (text_lt_total (key_text a.key) (key_text b.key))
  where
    by_text :
        (text_lt (key_text a.key) (key_text b.key) ≡ true)
          ⊎ ((key_text a.key ≡ key_text b.key) ⊎ (text_lt (key_text b.key) (key_text a.key) ≡ true))
        → (newer a b ≡ true) ⊎ (newer b a ≡ true)
    by_text (inl h) = ground arith
    by_text (inr (inr h)) = ground arith
    by_text (inr (inl h)) = elim (Bool-cases (a.created_at == b.created_at)) [
      | inl e ↦ absurd (apart (ground arith, h))
      | inr e ↦ ground arith
    ]

abbrev pub AllNewer : JobSummary → List JobSummary → Type 0
AllNewer a [] = Unit
AllNewer a (b ∷ bs) = (newer a b ≡ true) × AllNewer a bs

-- A listing's order.
abbrev pub Sorted : List JobSummary → Type 0
Sorted [] = Unit
Sorted (b ∷ bs) = AllNewer b bs × Sorted bs

abbrev pub Apart : JobSummary → List JobSummary → Type 0
Apart a [] = Unit
Apart a (b ∷ bs) = (Twins a b → ⊥) × Apart a bs

-- No two jobs are twins.
abbrev pub Distinct : List JobSummary → Type 0
Distinct [] = Unit
Distinct (b ∷ bs) = Apart b bs × Distinct bs

abbrev pub is_below : Cursor → JobSummary → Bool
is_below c b = is_newer c.created_at c.key b.created_at b.key

-- The jobs that a cursor leaves.
abbrev pub below : Cursor → List JobSummary → List JobSummary
below c [] = []
below c (b ∷ bs) = if is_below c b then b ∷ below c bs else below c bs
