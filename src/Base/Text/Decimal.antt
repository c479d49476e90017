-- ===== src/Base/Text/Decimal.antt =====
-- `str(n)` of an integer, as an f-string writes it.
use Prim.Native.String.{◌++◌ as append}
use organization_ai.Base.{
  ℕ, zero, suc, ◌/◌, ◌%◌, ◌<◌, String, ltb, if◌then◌else◌, ◌≡◌, arith, inl, inr, Bool-cases,
}
use organization_ai.Base.Int.{ℤ, pos, negsuc}

digit : ℕ → String
digit zero = "0"
digit (suc zero) = "1"
digit (suc (suc zero)) = "2"
digit (suc (suc (suc zero))) = "3"
digit (suc (suc (suc (suc zero)))) = "4"
digit (suc (suc (suc (suc (suc zero))))) = "5"
digit (suc (suc (suc (suc (suc (suc zero)))))) = "6"
digit (suc (suc (suc (suc (suc (suc (suc zero))))))) = "7"
digit (suc (suc (suc (suc (suc (suc (suc (suc zero)))))))) = "8"
digit (suc (suc (suc (suc (suc (suc (suc (suc (suc _))))))))) = "9"

-- The digits of `n` in front of `out`, last digit first. The fuel bounds the number of digits.
digits : ℕ → ℕ → String → String
unfolding digit
digits zero n out = out
digits (suc fuel) n out =
    let rest = digits fuel (n / 10) (append (digit (n % 10)) out) in
    if ltb n 10 then append (digit n) out else rest

unfoldable pub decimal : ℕ → String
unfolding digits
decimal n = digits (suc n) n ""

unfoldable pub int_text : ℤ → String
unfolding decimal
int_text (pos n) = decimal n
int_text (negsuc n) = append "-" (decimal (suc n))

-- More fuel than `n` changes nothing: the digits have run out before.
digits_fuel : (f g n : ℕ) (out : String) → n < f → n < g → digits f n out ≡ digits g n out
unfolding digits
digits_fuel zero g n out h k = absurd (omega arith)
digits_fuel (suc f) zero n out h k = absurd (omega arith)
digits_fuel (suc f) (suc g) n out h k = elim (Bool-cases (ltb n 10)) [
  | inl small ↦ rw small
  | inr large ↦
      rw large
        (digits_fuel f g (n / 10) (append (digit (n % 10)) out) (ground arith) (ground arith))
]
