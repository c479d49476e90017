-- ===== src/Application/Fingerprint/Digits.antt =====
-- The hexadecimal digits in the canonical text of backend/app/application/control_deck.py, and in `str(uuid)`.
use organization_ai.Base.{
  ℕ, zero, suc, ◌+◌, ◌*◌, ◌/◌, ◌%◌, ◌<◌, ◌^◌, List, [], ◌∷◌, ◌++◌, append_assoc, leb, if◌then◌else◌,
  ◌≡◌, refl, sym, ◌∙◌, arith,
}
use organization_ai.Base.Json.{hex_digit, hex}
use organization_ai.Base.Text.{codes}
use organization_ai.Base.Text.Blank.{codes-append}
use native.Mathlib.Nat.{pow-suc, div-lt_iff_lt-mul}

-- The character of a digit.
abbrev pub digit_code : ℕ → ℕ
digit_code d = if leb d 9 then 0x30 + d else 0x57 + d

pub codes-hex_digit : (d : ℕ) → d < 16 → codes (hex_digit d) ≡ digit_code d ∷ []
unfolding hex_digit
codes-hex_digit zero h = refl
codes-hex_digit (suc zero) h = refl
codes-hex_digit (suc (suc zero)) h = refl
codes-hex_digit (suc (suc (suc zero))) h = refl
codes-hex_digit (suc (suc (suc (suc zero)))) h = refl
codes-hex_digit (suc (suc (suc (suc (suc zero))))) h = refl
codes-hex_digit (suc (suc (suc (suc (suc (suc zero)))))) h = refl
codes-hex_digit (suc (suc (suc (suc (suc (suc (suc zero))))))) h = refl
codes-hex_digit (suc (suc (suc (suc (suc (suc (suc (suc zero)))))))) h = refl
codes-hex_digit (suc (suc (suc (suc (suc (suc (suc (suc (suc zero))))))))) h = refl
codes-hex_digit (suc (suc (suc (suc (suc (suc (suc (suc (suc (suc zero)))))))))) h = refl
codes-hex_digit (suc (suc (suc (suc (suc (suc (suc (suc (suc (suc (suc zero))))))))))) h = refl
codes-hex_digit (suc (suc (suc (suc (suc (suc (suc (suc (suc (suc (suc (suc zero)))))))))))) h =
    refl
codes-hex_digit (suc (suc (suc (suc (suc (suc (suc (suc (suc (suc (suc (suc (suc zero)))))))))))))
      h =
    refl
codes-hex_digit
      (suc (suc (suc (suc (suc (suc (suc (suc (suc (suc (suc (suc (suc (suc zero)))))))))))))) h =
    refl
codes-hex_digit
      (suc (suc (suc (suc (suc (suc (suc (suc (suc (suc (suc (suc (suc (suc (suc zero)))))))))))))))
      h =
    refl
codes-hex_digit
      (suc
        (suc (suc (suc (suc (suc (suc (suc (suc (suc (suc (suc (suc (suc (suc (suc n))))))))))))))))
      h =
    absurd (omega arith)

-- What the last `k` digits of `n` stand for.
abbrev pub last_digits : ℕ → ℕ → ℕ
last_digits zero n = 0
last_digits (suc k) n = last_digits k (n / 16) * 16 + n % 16

pub codes-hex :
    (k n : ℕ) (xs : List ℕ)
    → codes (hex (suc k) n) ++ xs ≡ codes (hex k (n / 16)) ++ digit_code (n % 16) ∷ xs
unfolding hex
codes-hex k n xs =
    rw
      (
        codes-append (hex k (n / 16)) (hex_digit (n % 16)),
        codes-hex_digit (n % 16) (omega arith),
        append_assoc (codes (hex k (n / 16))) (digit_code (n % 16) ∷ []) xs,
      )
      refl

pub head_tail :
    {x y : ℕ} {xs ys : List ℕ} → ◌≡◌ {A = List ℕ} (x ∷ xs) (y ∷ ys) → (x ≡ y) × (xs ≡ ys)
head_tail h = (cc, cc)

digit_code-injective : (d e : ℕ) → d < 16 → e < 16 → digit_code d ≡ digit_code e → d ≡ e
digit_code-injective d e h k same = ground arith

-- Digits, and what follows them, are read in one way.
pub hex-injective :
    (k n m : ℕ) (xs ys : List ℕ)
    → codes (hex k n) ++ xs ≡ codes (hex k m) ++ ys
    → (last_digits k n ≡ last_digits k m) × (xs ≡ ys)
unfolding hex
hex-injective zero n m xs ys h = (refl, h)
hex-injective (suc k) n m xs ys h =
    let (front, rest) =
      hex-injective k (n / 16) (m / 16) (digit_code (n % 16) ∷ xs) (digit_code (m % 16) ∷ ys)
        (sym (codes-hex k n xs) ∙ h ∙ codes-hex k m ys) in
    let (digit, behind) = head_tail rest in
    let same = digit_code-injective (n % 16) (m % 16) (omega arith) (omega arith) digit in
    (rw (front, same) refl, behind)

-- Enough digits stand for the whole number.
pub last_digits_all : (k n : ℕ) → n < 16 ^ k → last_digits k n ≡ n
last_digits_all zero n h = omega arith
last_digits_all (suc k) n h =
    let bound : n < 16 ^ k * 16 = rw (← pow-suc 16 k) h in
    rw
      (last_digits_all k (n / 16)
        ((div-lt_iff_lt-mul {k = 16} {x = n} {y = 16 ^ k} (omega arith)).1 bound))
      (omega arith)
