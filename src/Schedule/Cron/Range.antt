-- ===== src/Schedule/Cron/Range.antt =====
-- What cronRange accepts.
use swf_go.Prelude.{
  ℕ, ◌≤◌, ◌<◌, ◌≡◌, refl, some, Option-cases, inl, inr, arith, Bool-cases, List, [], ◌∷◌, ok, ◌>>=◌,
  ◌∙◌, sym,
}
use swf_go.Schedule.Text.{contains, split, text_eq, int_mod, int_half, atoi, atoi-lt}
use swf_go.Schedule.Cron.{
  invalid_range, cron_range, range_between, range_checked, value_checked, single_value, pair_of,
}

-- The guards of a range, on two words.
guards-bounds :
    (x y min max : ℕ) {start end : ℕ}
    → x < int_mod
    → y < int_mod
    → min ≤ max
    → max < int_half
    → range_checked x y min max ≡ ok (start, end)
    → (min ≤ start) × (start ≤ end) × (end ≤ max)
unfolding range_checked
guards-bounds x y min max p q m h e = ground arith

between_values :
    (a b : List ℕ) (x y min max : ℕ)
    → atoi a ≡ some x
    → atoi b ≡ some y
    → range_between (a, b) min max ≡ range_checked x y min max
unfolding range_between
between_values a b x y min max p q = rw p (rw q refl)

range_between-bounds :
    (a b : List ℕ) (min max : ℕ) {start end : ℕ}
    → min ≤ max
    → max < int_half
    → range_between (a, b) min max ≡ ok (start, end)
    → (min ≤ start) × (start ≤ end) × (end ≤ max)
unfolding range_between
range_between-bounds a b min max m h e = elim (Option-cases (atoi a)) [
  | inl p ↦ absurd (ground arith)
  | inr (x, p) ↦ elim (Option-cases (atoi b)) [
    | inl q ↦ absurd (ground arith)
    | inr (y, q) ↦
        guards-bounds x y min max (atoi-lt a p) (atoi-lt b q) m h
          (sym (between_values a b x y min max p q) ∙ e)
  ]
]

value-bounds :
    (x min max : ℕ) {start end : ℕ}
    → x < int_mod
    → min ≤ max
    → max < int_half
    → value_checked x min max ≡ ok (start, end)
    → (min ≤ start) × (start ≤ end) × (end ≤ max)
unfolding value_checked
value-bounds x min max p m h e = ground arith

single_value-bounds :
    (part : List ℕ) (min max : ℕ) {start end : ℕ}
    → min ≤ max
    → max < int_half
    → single_value part min max ≡ ok (start, end)
    → (min ≤ start) × (start ≤ end) × (end ≤ max)
unfolding single_value
single_value-bounds part min max m h e = elim (Option-cases (atoi part)) [
  | inl p ↦ absurd (ground arith)
  | inr (x, p) ↦ value-bounds x min max (atoi-lt part p) m h (rw p at e)
]

-- A range that cronRange accepts lies within the field's bounds, and does not start after its end.
pub cron_range-bounds :
    (part : List ℕ) (min max : ℕ) {start end : ℕ}
    → min ≤ max
    → max < int_half
    → cron_range part min max ≡ ok (start, end)
    → (min ≤ start) × (start ≤ end) × (end ≤ max)
unfolding cron_range
cron_range-bounds part min max {start} {end} m h e = elim (Bool-cases (text_eq part (b'*' ∷ []))) [
  | inl star ↦ ground arith
  | inr other ↦ elim (Bool-cases (contains part b'-')) [
    | inl dash ↦ pieces (split part b'-') (rw dash at (rw other at e))
    | inr plain ↦ single_value-bounds part min max m h (rw plain at (rw other at e))
  ]
]
  where
    pieces :
        (ws : List (List ℕ))
        → (pair_of ws invalid_range >>= λ (p : List ℕ × List ℕ). range_between p min max)
          ≡ ok (start, end)
        → (min ≤ start) × (start ≤ end) × (end ≤ max)
    pieces (a ∷ b ∷ []) e = range_between-bounds a b min max m h e
    pieces [] e = ground arith
    pieces (a ∷ []) e = ground arith
    pieces (a ∷ b ∷ c ∷ ws) e = ground arith
