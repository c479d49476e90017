-- ===== src/Application/Fingerprint/Escape.antt =====
-- Reading back a character that `json.dumps` writes in backend/app/application/control_deck.py.
use organization_ai.Base.{
  ℕ, ◌+◌, ◌-◌, ◌*◌, ◌/◌, ◌%◌, ◌<◌, ◌≤◌, true, Option, none, some, List, [], ◌∷◌, ◌++◌, ◌&&◌,
  append_assoc, leb, ltb, ◌==◌, ==_iff, if◌then◌else◌, ◌≡◌, ◌⊎◌, inl, inr, refl, sym, ap, ◌∙◌,
  subst, arith, Bool-cases,
}
use organization_ai.Base.Json.{hex}
use organization_ai.Application.Fingerprint.{unicode_escape, escape_other, escape_char}
use organization_ai.Application.Fingerprint.Digits.{digit_code, codes-hex}

-- A code point that is no surrogate.
abbrev pub IsCodePoint : ℕ → Type 0
IsCodePoint c = ((c < 0xd800) ⊎ (0xdfff < c)) × (c < 0x110000)

-- What a hexadecimal digit stands for, and four of them.
abbrev digit_value : ℕ → ℕ
digit_value x = if leb x 0x39 then x - 0x30 else x - 0x57

abbrev unit_value : ℕ → ℕ → ℕ → ℕ → ℕ
unit_value a b c d =
    ((digit_value a * 16 + digit_value b) * 16 + digit_value c) * 16 + digit_value d

-- The character that a one-letter escape stands for.
abbrev unescaped : ℕ → ℕ
unescaped k =
    if k == b'n'
    then 0x0a
    else if k == b'r'
    then 0x0d
    else if k == b't'
    then 0x09
    else if k == b'f'
    then 0x0c
    else if k == b'b'
    then 0x08
    else k

-- The second half of a pair.
abbrev read_low : ℕ → List ℕ → Option (ℕ × List ℕ)
read_low u (_ ∷ _ ∷ a ∷ b ∷ c ∷ d ∷ xs) =
    some (0x10000 + (u - 0xd800) * 1024 + (unit_value a b c d - 0xdc00), xs)
read_low u _ = none

abbrev read_unit : List ℕ → Option (ℕ × List ℕ)
read_unit (a ∷ b ∷ c ∷ d ∷ xs) =
    let u = unit_value a b c d in
    if leb 0xd800 u && leb u 0xdbff then read_low u xs else some (u, xs)
read_unit _ = none

abbrev read_escape : List ℕ → Option (ℕ × List ℕ)
read_escape [] = none
read_escape (k ∷ xs) = if k == b'u' then read_unit xs else some (unescaped k, xs)

-- One character of a JSON text and what follows, or none at the closing quote.
abbrev pub read_char : List ℕ → Option (ℕ × List ℕ)
read_char [] = none
read_char (x ∷ xs) = if x == 0x22 then none else if x == 0x5c then read_escape xs else some (x, xs)

abbrev unit_digits : ℕ → List ℕ
unit_digits n =
    digit_code (n / 16 / 16 / 16 % 16)
    ∷ digit_code (n / 16 / 16 % 16)
    ∷ digit_code (n / 16 % 16)
    ∷ digit_code (n % 16)
    ∷ []

unicode_escape_digits :
    (n : ℕ) (xs : List ℕ) → unicode_escape n ++ xs ≡ 0x5c ∷ b'u' ∷ (unit_digits n ++ xs)
unfolding unicode_escape hex
unicode_escape_digits n xs =
    ap (λ (l : List ℕ). 0x5c ∷ b'u' ∷ l)
      (codes-hex 3 n xs
        ∙ codes-hex 2 (n / 16) (digit_code (n % 16) ∷ xs)
        ∙ codes-hex 1 (n / 16 / 16) (digit_code (n / 16 % 16) ∷ digit_code (n % 16) ∷ xs)
        ∙ codes-hex 0 (n / 16 / 16 / 16)
            (digit_code (n / 16 / 16 % 16) ∷ digit_code (n / 16 % 16) ∷ digit_code (n % 16) ∷ xs))

digit_value-code : (d : ℕ) → d < 16 → digit_value (digit_code d) ≡ d
digit_value-code d h = ground arith

unit_value-digits :
    (n : ℕ)
    → n < 0x10000
    → unit_value
        (digit_code (n / 16 / 16 / 16 % 16))
        (digit_code (n / 16 / 16 % 16))
        (digit_code (n / 16 % 16))
        (digit_code (n % 16))
      ≡ n
unit_value-digits n h =
    rw
      (
        digit_value-code (n / 16 / 16 / 16 % 16) (omega arith),
        digit_value-code (n / 16 / 16 % 16) (omega arith),
        digit_value-code (n / 16 % 16) (omega arith),
        digit_value-code (n % 16) (omega arith),
      )
      (omega arith)

read_unit-digits :
    (n : ℕ) (xs : List ℕ)
    → n < 0x10000
    → (n < 0xd800) ⊎ (0xdfff < n)
    → read_unit (unit_digits n ++ xs) ≡ some (n, xs)
read_unit-digits n xs small plain = rw (unit_value-digits n small) (ground arith)

read_pair :
    (high low : ℕ) (xs : List ℕ)
    → high < 1024
    → low < 1024
    → read_char (unicode_escape (0xd800 + high) ++ (unicode_escape (0xdc00 + low) ++ xs))
      ≡ some (0x10000 + high * 1024 + low, xs)
read_pair high low xs h l =
    rw
      (
        unicode_escape_digits (0xd800 + high) (unicode_escape (0xdc00 + low) ++ xs),
        unicode_escape_digits (0xdc00 + low) xs,
        unit_value-digits (0xd800 + high) (omega arith),
        unit_value-digits (0xdc00 + low) (omega arith),
      )
      (ground arith)

read_single :
    (c : ℕ) (xs : List ℕ)
    → c < 0x10000
    → (c < 0xd800) ⊎ (0xdfff < c)
    → read_char (unicode_escape c ++ xs) ≡ some (c, xs)
read_single c xs small plain =
    ap read_char (unicode_escape_digits c xs) ∙ read_unit-digits c xs small plain

-- A pair stands for the character that it was made of.
pair_value :
    (c : ℕ)
    → 0x10000 ≤ c
    → c < 0x110000
    → 0x10000 + (c - 0x10000) / 1024 % 1024 * 1024 + (c - 0x10000) % 1024 ≡ c
pair_value c large bound = omega arith

read_char-escape_other :
    (c : ℕ) (xs : List ℕ) → IsCodePoint c → read_char (escape_other c ++ xs) ≡ some (c, xs)
unfolding escape_other
read_char-escape_other c xs (plain, bound) = elim (Bool-cases (ltb c 0x10000)) [
  | inl small ↦ rw (small) (read_single c xs (ground arith) plain)
  | inr large ↦
      let high = (c - 0x10000) / 1024 % 1024 in
      let low = (c - 0x10000) % 1024 in
      rw (large) (
        ap read_char
          (append_assoc (unicode_escape (0xd800 + high)) (unicode_escape (0xdc00 + low)) xs)
        ∙ read_pair high low xs (omega arith) (omega arith)
        ∙ ap (λ (n : ℕ). some (n, xs)) (pair_value c (ground arith) bound))
]

abbrev pub ReadsBack : List ℕ → ℕ → Type 0
ReadsBack xs c = read_char (escape_char c ++ xs) ≡ some (c, xs)

special : (xs : List ℕ) (k c : ℕ) → (c == k) ≡ true → ReadsBack xs k → ReadsBack xs c
special xs k c same h = subst (ReadsBack xs) (sym ((==_iff c k).0 same)) h

-- The first test that a character passes decides how it is written.
pub read_char-escape_char : (c : ℕ) (xs : List ℕ) → IsCodePoint c → ReadsBack xs c
unfolding escape_char
read_char-escape_char c xs point = elim (Bool-cases (c == 0x22)) [
  | inl same ↦ special xs 0x22 c same refl
  | inr n1 ↦ elim (Bool-cases (c == 0x5c)) [
    | inl same ↦ special xs 0x5c c same refl
    | inr n2 ↦ elim (Bool-cases (c == 0x0a)) [
      | inl same ↦ special xs 0x0a c same refl
      | inr n3 ↦ elim (Bool-cases (c == 0x0d)) [
        | inl same ↦ special xs 0x0d c same refl
        | inr n4 ↦ elim (Bool-cases (c == 0x09)) [
          | inl same ↦ special xs 0x09 c same refl
          | inr n5 ↦ elim (Bool-cases (c == 0x0c)) [
            | inl same ↦ special xs 0x0c c same refl
            | inr n6 ↦ elim (Bool-cases (c == 0x08)) [
              | inl same ↦ special xs 0x08 c same refl
              | inr n7 ↦ elim (Bool-cases (leb 0x20 c && leb c 0x7e)) [
                | inl printed ↦ rw (n1, n2, n3, n4, n5, n6, n7, printed) (rw (n1, n2) refl)
                | inr other ↦
                    rw (n1, n2, n3, n4, n5, n6, n7, other) (read_char-escape_other c xs point)
              ]
            ]
          ]
        ]
      ]
    ]
  ]
]
