-- ===== src/Sqlite/Listing/TextOrder.antt =====
-- The order of Go's strings, by their characters, which `<` of the keys' texts in ListJobs uses.
use Prim.Native.Nat.{Ordering, compare}
use Prim.Native.Char.{Char, code}
use Prim.Native.String
use Prim.Native.String.compare as clauses
use text.Mathlib.TextEquality.{codes_equal}
use swf_go.Prelude.{
  ℕ, ◌≡◌, refl, sym, ap, ◌∙◌, Bool, true, false, ◌&&◌, ◌||◌, String, ltb, ◌==◌, inl, inr, ◌⊎◌,
  arith,
}
use swf_go.Sqlite.Listing.Query.{text_lt}

abbrev is_lt : Ordering → Bool
is_lt o = elim o [ Ordering.lt ↦ true | _ ↦ false ]

abbrev is_eq : Ordering → Bool
is_eq o = elim o [ Ordering.eq ↦ true | _ ↦ false ]

then_lem : (p o : Ordering) → is_lt (String.then p o) ≡ (is_lt p || (is_eq p && is_lt o))
then_lem Ordering.lt o = refl
then_lem Ordering.eq o = refl
then_lem Ordering.gt o = refl

nil_lem : (d : Char) (t : String) → text_lt String.[] (String.◌∷◌ d t) ≡ true
nil_lem d t = ap is_lt (clauses.nil-cons d t)

lt_nil : (s : String) → text_lt s String.[] ≡ false
lt_nil String.[] = ap is_lt clauses.nil-nil
lt_nil (String.◌∷◌ c s) = ap is_lt (clauses.cons-nil c s)

cons_lem :
    (c d : Char) (s t : String)
    → text_lt (String.◌∷◌ c s) (String.◌∷◌ d t)
      ≡ (ltb (code c) (code d) || (code c == code d && text_lt s t))
cons_lem c d s t =
    ap is_lt (clauses.cons-cons c d s t) ∙ then_lem (compare (code c) (code d)) (String.compare s t)

pub text_lt_irrefl : (s : String) → text_lt s s ≡ false
text_lt_irrefl String.[] = lt_nil String.[]
text_lt_irrefl (String.◌∷◌ c s) = cons_lem c c s s ∙ ground (arith, text_lt_irrefl s)

pub text_lt_trans : (s t u : String) → text_lt s t ≡ true → text_lt t u ≡ true → text_lt s u ≡ true
text_lt_trans s String.[] u p q = absurd (ground (arith, lt_nil s))
text_lt_trans s t String.[] p q = absurd (ground (arith, lt_nil t))
text_lt_trans String.[] (String.◌∷◌ d t) (String.◌∷◌ e u) p q = nil_lem e u
text_lt_trans (String.◌∷◌ c s) (String.◌∷◌ d t) (String.◌∷◌ e u) p q =
    cons_lem c e s u
    ∙ step (code c) (code d) (code e) (text_lt s t) (text_lt t u) (text_lt s u)
        (text_lt_trans s t u) (sym (cons_lem c d s t) ∙ p) (sym (cons_lem d e t u) ∙ q)
  where
    step :
        (l m n : ℕ) (a b c : Bool)
        → (a ≡ true → b ≡ true → c ≡ true)
        → (ltb l m || (l == m && a)) ≡ true
        → (ltb m n || (m == n && b)) ≡ true
        → (ltb l n || (l == n && c)) ≡ true
    step l m n true true c ih x y = ground (arith, ih refl refl)
    step l m n true false c ih x y = ground arith
    step l m n false b c ih x y = ground arith

-- Of two texts one is less, or they are the same.
pub text_lt_total : (s t : String) → (text_lt s t ≡ true) ⊎ ((s ≡ t) ⊎ (text_lt t s ≡ true))
text_lt_total String.[] String.[] = inr (inl refl)
text_lt_total String.[] (String.◌∷◌ d t) = inl (nil_lem d t)
text_lt_total (String.◌∷◌ c s) String.[] = inr (inr (nil_lem c s))
text_lt_total (String.◌∷◌ c s) (String.◌∷◌ d t) =
    by_code (text_lt_total s t) (compare (code c) (code d)) refl
  where
    below : (m n : ℕ) (b : Bool) → compare m n ≡ Ordering.lt → (ltb m n || (m == n && b)) ≡ true
    below m n b e = ground arith

    above : (m n : ℕ) (b : Bool) → compare m n ≡ Ordering.gt → (ltb n m || (n == m && b)) ≡ true
    above m n b e = ground arith

    level :
        (m n : ℕ) (b : Bool)
        → compare m n ≡ Ordering.eq
        → b ≡ true
        → (ltb m n || (m == n && b)) ≡ true
    level m n b e h = ground arith

    level_back :
        (m n : ℕ) (b : Bool)
        → compare m n ≡ Ordering.eq
        → b ≡ true
        → (ltb n m || (n == m && b)) ≡ true
    level_back m n b e h = ground arith

    by_code :
        (text_lt s t ≡ true) ⊎ ((s ≡ t) ⊎ (text_lt t s ≡ true))
        → (o : Ordering) → compare (code c) (code d) ≡ o
        → (text_lt (String.◌∷◌ c s) (String.◌∷◌ d t) ≡ true)
          ⊎ ((String.◌∷◌ c s ≡ String.◌∷◌ d t) ⊎ (text_lt (String.◌∷◌ d t) (String.◌∷◌ c s) ≡ true))
    by_code ih Ordering.lt e = inl (cons_lem c d s t ∙ below (code c) (code d) _ e)
    by_code ih Ordering.gt e = inr (inr (cons_lem d c t s ∙ above (code c) (code d) _ e))
    by_code (inl h) Ordering.eq e = inl (cons_lem c d s t ∙ level (code c) (code d) _ e h)
    by_code (inr (inl h)) Ordering.eq e = inr (inl (λ i. String.◌∷◌ (codes_equal c d e i) (h i)))
    by_code (inr (inr h)) Ordering.eq e =
        inr (inr (cons_lem d c t s ∙ level_back (code c) (code d) _ e h))
