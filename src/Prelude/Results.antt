-- ===== src/Prelude/Results.antt =====
-- Go's pair of a value and an error, for functions that give one or the other.
use mathlib.Core.Bool.{Bool, true, false}

pub data Result {ℓ} (E : Type 0) (A : Type ℓ) : Type ℓ where
  ok : (value : A) → Result E A
  err : (error : E) → Result E A

-- `if bad { return e }`.
abbrev pub fail_if : {E : Type 0} → Bool → E → Result E (Unit {0})
fail_if true error = err error
fail_if false error = ok tt

-- `value, err := call; if err != nil { return err }`, and the same for a call without a value.
abbrev pub ◌>>=◌ {ℓ κ} :
    {E : Type 0} {In : Type ℓ} {Out : Type κ} → Result E In → (In → Result E Out) → Result E Out
(err error) >>= rest = err error
(ok value) >>= rest = rest value

abbrev pub ◌>>◌ {ℓ} :
    {E : Type 0} {Out : Type ℓ} → Result E (Unit {0}) → Result E Out → Result E Out
call >> rest = call >>= λ _. rest

infixl 5 ◌>>=◌ ◌>>◌
