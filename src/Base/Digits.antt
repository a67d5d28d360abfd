-- ===== src/Base/Digits.antt =====
-- The decimal digits of a number.
use Prim.Native.Nat.{ℕ, zero, suc, ◌<◌, ◌/◌, ◌%◌}
use mathlib.Core.Path.{subst}
use mathlib.Core.Logic.{inl, inr}
use native.Mathlib.Omega.{arith}
use Prim.Native.String.{String, char_at}
use unikernal_honeynet.Base.Tests.{ltb, Bool-cases, if◌then◌else◌}
use unikernal_honeynet.Base.Text.{◌<>◌, nil_text}

decimal_digits : ℕ → ℕ → String
decimal_digits zero n = ""
decimal_digits (suc fuel) n =
    let last = String.◌∷◌ (char_at "0123456789" (n % 10)) "" in
    let rest = decimal_digits fuel (n / 10) <> last in if ltb n 10 then last else rest

unfoldable pub str : ℕ → String
unfolding decimal_digits
str n = decimal_digits (suc n) n

-- What holds of the empty text, and stays when a digit is put at its end, holds of every number.
digits_induction :
    (P : String → Type 0)
    → P ""
    → ((s : String) (d : ℕ) → d < 10 → P s → P (s <> String.◌∷◌ (char_at "0123456789" d) ""))
    → (fuel n : ℕ) → P (decimal_digits fuel n)
unfolding decimal_digits
digits_induction P nil snoc zero n = nil
digits_induction P nil snoc (suc fuel) n = elim (Bool-cases (ltb n 10)) [
  | inl e ↦ rw e (subst P (nil_text _) (snoc "" (n % 10) (omega arith) nil))
  | inr e ↦ rw e (
      snoc (decimal_digits fuel (n / 10)) (n % 10) (omega arith)
        (digits_induction P nil snoc fuel (n / 10)))
]

pub str-induction :
    (P : String → Type 0)
    → P ""
    → ((s : String) (d : ℕ) → d < 10 → P s → P (s <> String.◌∷◌ (char_at "0123456789" d) ""))
    → (n : ℕ) → P (str n)
unfolding str
str-induction P nil snoc n = digits_induction P nil snoc (suc n) n
