-- ===== src/Schedule/Cron/Values.antt =====
-- The values of a cron range: the loop `for v := start; v <= end; v += step`.
use swf_go.Prelude.{
  ℕ, zero, suc, ◌+◌, ◌-◌, ◌*◌, ◌≤◌, ◌<◌, ◌%◌, ◌≡◌, refl, ◌∙◌, ap, Bool, true, false, ltb,
  if◌then◌else◌, ◌⊎◌, inl, inr, ◌↔◌, arith, Bool-cases, List, ◌∷◌,
}
use swf_go.Schedule.Text.{contains, signed_lt, int_mod, int_half}
use swf_go.Schedule.Cron.{cron_values, normalize, max_values}

contains_here : (x : ℕ) (xs : List ℕ) → contains (x ∷ xs) x ≡ true
unfolding contains
contains_here x xs = ground arith

contains_there : (x y : ℕ) (xs : List ℕ) → contains xs y ≡ true → contains (x ∷ xs) y ≡ true
unfolding contains
contains_there x y xs h = ground arith

contains_cases :
    (x y : ℕ) (xs : List ℕ) → contains (x ∷ xs) y ≡ true → (y ≡ x) ⊎ (contains xs y ≡ true)
unfolding contains
contains_cases x y xs h = ground arith

module _ (end step : ℕ) (alias : Bool) (small : end + step < int_half) where
  in_bounds :
      (v : ℕ)
      → v < int_half
      → signed_lt end v ≡ false
      → (v ≤ end) × ((v + step) % int_mod ≡ v + step) × (v + step < int_half)
  in_bounds v b h = let low : v ≤ end = ground arith in (low, omega arith, omega arith)

  values_sound :
      (fuel v y : ℕ)
      → v < int_half
      → contains (cron_values fuel v end step alias) y ≡ true
      → (k : ℕ) × (v + k * step ≤ end) × (y ≡ normalize alias (v + k * step))
  unfolding cron_values contains
  values_sound zero v y b h = absurd (ground arith)
  values_sound (suc fuel) v y b h = elim (Bool-cases (signed_lt end v)) [
    | inl over ↦ absurd (ground arith)
    | inr going ↦
        let (low, plain, b') = in_bounds v b going in
        elim (contains_cases (normalize alias v) y _ (rw going at h)) [
          | inl e ↦ (0, omega arith, e ∙ ap (normalize alias) (omega arith))
          | inr there ↦
              let (k, l, e) = values_sound fuel (v + step) y b' (rw plain at there) in
              (suc k, omega arith, e ∙ ap (normalize alias) (omega arith))
        ]
  ]

  values_complete :
      (fuel v k : ℕ)
      → v < int_half
      → v + k * step ≤ end
      → k < fuel
      → contains (cron_values fuel v end step alias) (normalize alias (v + k * step)) ≡ true
  unfolding cron_values
  values_complete zero v k b l f = absurd (omega arith)
  values_complete (suc fuel) v zero b l f =
      let going : signed_lt end v ≡ false = ground arith in
      let same : v + 0 * step ≡ v = omega arith in
      rw (going, cron_values) (rw same (contains_here (normalize alias v) _))
  values_complete (suc fuel) v (suc k) b l f =
      let low : v ≤ end = omega arith in
      let going : signed_lt end v ≡ false = ground arith in
      let (_, plain, b') = in_bounds v b going in
      let same : v + suc k * step ≡ v + step + k * step = omega arith in
      rw (going, cron_values)
        (contains_there (normalize alias v) _ _
          (rw (plain, same) (values_complete fuel (v + step) k b' (omega arith) (omega arith))))

-- Where start + step cannot overflow, a range holds exactly start, start + step, ... up to end,
-- with 7 standing for 0 under the Sunday alias.
pub cron_values_iff :
    (start end step : ℕ) (alias : Bool)
    → end + step < int_half
    → start < int_half
    → end < start + max_values
    → 0 < step
    → (y : ℕ)
    → (contains (cron_values max_values start end step alias) y ≡ true)
      ↔ ((k : ℕ) × (start + k * step ≤ end) × (y ≡ normalize alias (start + k * step)))
cron_values_iff start end step alias small b room positive y = (
  values_sound end step alias small max_values start y b,
  λ (k, l, e). rw e (values_complete end step alias small max_values start k b l (grind arith)),
)

-- Whether the loop ends by its test within so many rounds.
exits : ℕ → ℕ → ℕ → ℕ → Bool
exits zero v end step = false
exits (suc fuel) v end step =
    let rest : Bool = exits fuel ((v + step) % int_mod) end step in
    if signed_lt end v then true else rest

exits-stable :
    (f g v end step : ℕ) (alias : Bool)
    → exits f v end step ≡ true
    → f ≤ g
    → cron_values g v end step alias ≡ cron_values f v end step alias
unfolding exits cron_values
exits-stable zero g v end step alias x l = cc
exits-stable (suc f) zero v end step alias x l = absurd (omega arith)
exits-stable (suc f) (suc g) v end step alias x l =
    ground (arith, exits-stable f g ((v + step) % int_mod) end step alias)

-- Without overflow each round comes nearer to the end.
exits_plain :
    (f v end step : ℕ)
    → end + step < int_half
    → v ≤ end + step
    → 0 < step
    → 0 < f
    → end + 2 ≤ v + f
    → exits f v end step ≡ true
unfolding exits
exits_plain zero v end step s b p q l = absurd (omega arith)
exits_plain (suc f) v end step s b p q l = elim (Bool-cases (signed_lt end v)) [
  | inl over ↦ rw over refl
  | inr going ↦
      let plain : (v + step) % int_mod ≡ v + step = ground arith in
      let low : v ≤ end = ground arith in
      rw going
        (rw plain (exits_plain f (v + step) end step s (omega arith) p (omega arith) (omega arith)))
]

exits_over : (f v end step : ℕ) → signed_lt end v ≡ true → exits (suc f) v end step ≡ true
unfolding exits
exits_over f v end step h = rw h refl

exits-suc :
    (f v end step : ℕ)
    → exits f ((v + step) % int_mod) end step ≡ true
    → exits (suc f) v end step ≡ true
unfolding exits
exits-suc f v end step h = ground arith

-- With a step that overflows, two rounds lead from a value to a smaller one.
exits_wrapping :
    (n f v end step : ℕ)
    → end < 60
    → int_half ≤ end + step
    → step < int_half
    → v < n
    → n < 61
    → 2 * n + 2 ≤ f
    → exits f v end step ≡ true
exits_wrapping zero f v end step e b s l m g = absurd (omega arith)
exits_wrapping (suc n) zero v end step e b s l m g = absurd (omega arith)
exits_wrapping (suc n) (suc zero) v end step e b s l m g = absurd (omega arith)
exits_wrapping (suc n) (suc (suc zero)) v end step e b s l m g = absurd (omega arith)
exits_wrapping (suc n) (suc (suc (suc zero))) v end step e b s l m g = absurd (omega arith)
exits_wrapping (suc n) (suc (suc (suc (suc f)))) v end step e b s l m g =
    exits-suc _ v end step (elim (Bool-cases (signed_lt end ((v + step) % int_mod))) [
      | inl over ↦ exits_over _ _ end step over
      | inr going ↦
          exits-suc _ ((v + step) % int_mod) end step
            (elim (Bool-cases (ltb (((v + step) % int_mod + step) % int_mod) n)) [
              | inl lower ↦
                  exits_wrapping n (suc (suc f)) _ end step e b s (ground arith) (omega arith)
                    (omega arith)
              | inr high ↦ exits-suc _ _ end step (exits_over _ _ end step (ground arith))
            ])
    ])

-- The 128 rounds of the model are enough for every range that a cron field may have and for every
-- positive step: more rounds add no value, also where `v += step` overflows.
pub cron_values_total :
    (start end step : ℕ) (alias : Bool) (rounds : ℕ)
    → start ≤ end
    → end < 60
    → 0 < step
    → step < int_half
    → max_values ≤ rounds
    → cron_values rounds start end step alias ≡ cron_values max_values start end step alias
cron_values_total start end step alias rounds b e p s m =
    exits-stable max_values rounds start end step alias
      (elim (Bool-cases (ltb (end + step) int_half)) [
        | inl plain ↦
            exits_plain max_values start end step (ground arith) (omega arith) p (omega arith)
              (omega arith)
        | inr wraps ↦
            exits_wrapping 60 max_values start end step e (ground arith) s (omega arith)
              (omega arith) (omega arith)
      ])
      m

cron_values_step :
    (f v end step : ℕ) (alias : Bool)
    → signed_lt end v ≡ false
    → cron_values (suc f) v end step alias
      ≡ normalize alias v ∷ cron_values f ((v + step) % int_mod) end step alias
unfolding cron_values
cron_values_step f v end step alias h = rw h refl

overflow_third :
    (f v : ℕ) (alias : Bool)
    → 2 ≤ v
    → v < 60
    → contains
        (cron_values (suc (suc (suc f))) v v 9223372036854775807 alias)
        (normalize alias (v - 2))
      ≡ true
overflow_third f v alias l b =
    let step : ℕ = 9223372036854775807 in
    let back : ((v + step) % int_mod + step) % int_mod ≡ v - 2 = omega arith in
    rw (cron_values_step (suc (suc f)) v v step alias (ground arith)) (
      contains_there _ _ _ (
        rw (cron_values_step (suc f) ((v + step) % int_mod) v step alias (ground arith)) (
          contains_there _ _ _ (
            rw back
              (rw (cron_values_step f (v - 2) v step alias (ground arith)) (contains_here _ _))))))

-- A single value v of at least 2 with the step 9223372036854775807 also yields v - 2: the loop
-- variable overflows, and two steps together subtract 2.
pub cron_values_overflow :
    (v : ℕ) (alias : Bool)
    → 2 ≤ v
    → v < 60
    → contains (cron_values max_values v v 9223372036854775807 alias) (normalize alias (v - 2))
      ≡ true
cron_values_overflow v alias l b = overflow_third 125 v alias l b
