-- ===== src/Prelude/Lists.antt =====
-- Lists over the native numbers.
use Prim.Native.Nat.{ℕ, zero, suc, ◌+◌, ◌-◌, ◌≤◌}
use mathlib.Core.Path.{◌≡◌, refl, ap}
use mathlib.Core.List.{List, [], ◌∷◌, ◌++◌}
use native.Mathlib.Omega.{arith}

module _ {ℓ} {A : Type ℓ} where
  abbrev pub length : List A → ℕ
  length [] = 0
  length (x ∷ xs) = suc (length xs)

  pub length-append : (xs ys : List A) → length (xs ++ ys) ≡ length xs + length ys
  length-append [] ys = omega arith
  length-append (x ∷ xs) ys = omega (arith, length-append xs ys)

  abbrev pub drop : ℕ → List A → List A
  drop zero xs = xs
  drop (suc n) [] = []
  drop (suc n) (x ∷ xs) = drop n xs

  abbrev pub replicate : ℕ → A → List A
  replicate zero a = []
  replicate (suc n) a = a ∷ replicate n a

  pub length-drop : (n : ℕ) (xs : List A) → length (drop n xs) ≡ length xs - n
  length-drop zero xs = omega arith
  length-drop (suc n) [] = omega arith
  length-drop (suc n) (x ∷ xs) = omega (arith, length-drop n xs)

  -- What `drop` leaves is the end of the list.
  pub drop_suffix : (n : ℕ) (xs : List A) → (front : List A) × (front ++ drop n xs ≡ xs)
  drop_suffix zero xs = ([], refl)
  drop_suffix (suc n) [] = ([], refl)
  drop_suffix (suc n) (x ∷ xs) = let (front, e) = drop_suffix n xs in (x ∷ front, ap (◌∷◌ x) e)

  -- It keeps the last element, as long as one is left.
  pub drop-snoc :
      (n : ℕ) (xs : List A) (a : A) → n ≤ length xs → drop n (xs ++ a ∷ []) ≡ drop n xs ++ a ∷ []
  drop-snoc zero xs a h = refl
  drop-snoc (suc n) [] a h = absurd (omega arith)
  drop-snoc (suc n) (x ∷ xs) a h = drop-snoc n xs a (omega arith)
