-- ===== src/Schedule/Failure/History.antt =====
-- What AppendScheduleFailureBit keeps of a history.
use swf_go.Prelude.{
  ℕ, zero, suc, ◌+◌, ◌-◌, ◌≤◌, ◌<◌, ◌≡◌, refl, ◌∙◌, Bool, true, false, ◌&&◌, List, [], ◌∷◌, ◌++◌,
  ltb, if◌then◌else◌, length, drop, drop_suffix, drop-snoc, length-drop, length-append, arith,
  Bool-cases, inl, inr, ◌⊎◌,
}
use swf_go.Schedule.Failure.{all_bits, outcome_bit, append_schedule_failure_bit}

-- Appending an outcome to a well-formed history keeps its latest entries: the result is the end of
-- the history that the outcome is added to, its last entry is the outcome, and it is cut to the
-- window only if a window is set and there are more entries; then it has exactly that many.
pub append_schedule_failure_bit_lem :
    (bits : List ℕ) (success : Bool) (window : ℕ)
    → all_bits bits ≡ true
    → let grown = append_schedule_failure_bit bits success window in
      ((dropped : List ℕ) × (dropped ++ grown ≡ bits ++ outcome_bit success ∷ []))
      × ((kept : List ℕ) × (grown ≡ kept ++ outcome_bit success ∷ []))
      × ((window ≡ 0) → length grown ≡ length bits + 1)
      × (0 < window
          → (length grown ≤ window) × ((length grown ≡ window) ⊎ (length grown ≡ length bits + 1)))
unfolding append_schedule_failure_bit
append_schedule_failure_bit_lem bits success window h =
    let b : ℕ = outcome_bit success in
    let size : length (bits ++ b ∷ []) ≡ length bits + 1 =
      length-append bits (b ∷ []) ∙ omega arith in
    rw h (elim (Bool-cases (ltb 0 window && ltb window (length (bits ++ b ∷ [])))) [
      | inl cut ↦
          let n : ℕ = length (bits ++ b ∷ []) - window in
          let small : n ≤ length bits = ground arith in
          let cut_size : length (drop n (bits ++ b ∷ [])) ≡ window =
            length-drop n (bits ++ b ∷ []) ∙ ground arith in
          rw cut (
            drop_suffix n (bits ++ b ∷ []),
            (drop n bits, drop-snoc n bits b small),
            λ z. ground arith,
            λ p. (omega arith, inl cut_size),
          )
      | inr whole ↦ rw whole (([], refl), (bits, refl), λ z. size, λ p. (ground arith, inr size))
    ])

all_bits-append :
    (xs ys : List ℕ) → all_bits xs ≡ true → all_bits ys ≡ true → all_bits (xs ++ ys) ≡ true
unfolding all_bits
all_bits-append [] ys h k = k
all_bits-append (x ∷ xs) ys h k = ground (arith, all_bits-append xs ys)

all_bits-drop : (n : ℕ) (xs : List ℕ) → all_bits xs ≡ true → all_bits (drop n xs) ≡ true
unfolding all_bits
all_bits-drop zero xs h = h
all_bits-drop (suc n) [] h = refl
all_bits-drop (suc n) (x ∷ xs) h = all_bits-drop n xs (ground arith)

-- Whatever the old history holds, the new one consists of bits only: a history with any other sign
-- is forgotten, and then the outcome stands alone.
pub append_schedule_failure_bit-all_bits :
    (bits : List ℕ) (success : Bool) (window : ℕ)
    → (all_bits (append_schedule_failure_bit bits success window) ≡ true)
      × (all_bits bits ≡ false
          → append_schedule_failure_bit bits success window ≡ outcome_bit success ∷ [])
unfolding append_schedule_failure_bit
append_schedule_failure_bit-all_bits bits success window = (
  elim (Bool-cases (all_bits bits)) [
    | inl good ↦ rw good (cut bits good)
    | inr bad ↦ rw bad (cut [] (unfold all_bits in refl))
  ],
  λ bad. rw bad (ground arith),
)
  where
    bit : all_bits (outcome_bit success ∷ []) ≡ true
    bit = unfold all_bits in ground arith

    cut :
        (kept : List ℕ)
        → all_bits kept ≡ true
        → all_bits (
            if ltb 0 window && ltb window (length (kept ++ outcome_bit success ∷ []))
            then drop
                (length (kept ++ outcome_bit success ∷ []) - window)
                (kept ++ outcome_bit success ∷ [])
            else kept ++ outcome_bit success ∷ [])
          ≡ true
    cut kept h =
        let grown : all_bits (kept ++ outcome_bit success ∷ []) ≡ true =
          all_bits-append kept _ h bit in
        elim (Bool-cases (ltb 0 window && ltb window (length (kept ++ outcome_bit success ∷ [])))) [
          | inl e ↦ rw e (all_bits-drop _ _ grown)
          | inr e ↦ rw e grown
        ]
