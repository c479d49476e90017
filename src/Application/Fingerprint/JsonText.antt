-- ===== src/Application/Fingerprint/JsonText.antt =====
-- Reading back what `json.dumps` writes of a text in backend/app/application/control_deck.py.
use Prim.Native.Char.{char, IsScalar}
use text.Mathlib.TextEquality.{Char-path}
use organization_ai.Base.{
  ℕ, String, Option, none, some, List, [], ◌∷◌, ◌++◌, append_assoc, ◌≡◌, refl, sym, ap, ◌∙◌, arith,
  All,
}
use organization_ai.Base.Text.{codes}
use organization_ai.Application.Fingerprint.{escape_char, escape, json_text}
use organization_ai.Application.Fingerprint.Escape.{IsCodePoint, read_char, read_char-escape_char}
use organization_ai.Application.Fingerprint.Digits.{head_tail}

read_char-escape :
    (c : ℕ) (cs xs : List ℕ)
    → IsCodePoint c
    → read_char (escape (c ∷ cs) ++ xs) ≡ some (c, escape cs ++ xs)
unfolding escape
read_char-escape c cs xs point =
    ap read_char (append_assoc (escape_char c) (escape cs) xs)
    ∙ read_char-escape_char c (escape cs ++ xs) point

read_head :
    {c d : ℕ} {xs ys : List ℕ}
    → ◌≡◌ {A = Option (ℕ × List ℕ)} (some (c, xs)) (some (d, ys))
    → (c ≡ d) × (xs ≡ ys)
read_head h = (cc, cc)

none_read : {r : ℕ × List ℕ} → ◌≡◌ {A = Option (ℕ × List ℕ)} none (some r) → ⊥
none_read h = absurd (cc)

-- Escaped characters up to the closing quote, and what follows it, are read in one way.
escape-injective :
    (cs ds xs ys : List ℕ)
    → All IsCodePoint cs
    → All IsCodePoint ds
    → escape cs ++ 0x22 ∷ xs ≡ escape ds ++ 0x22 ∷ ys
    → (cs ≡ ds) × (xs ≡ ys)
unfolding escape
escape-injective [] [] xs ys p q h = (refl, cc)
escape-injective [] (d ∷ ds) xs ys p q h =
    absurd (none_read (ap read_char h ∙ read_char-escape d ds (0x22 ∷ ys) q.0))
escape-injective (c ∷ cs) [] xs ys p q h =
    absurd (none_read (ap read_char (sym h) ∙ read_char-escape c cs (0x22 ∷ xs) p.0))
escape-injective (c ∷ cs) (d ∷ ds) xs ys p q h =
    let (head, tail) = read_head (
      sym (read_char-escape c cs (0x22 ∷ xs) p.0)
      ∙ ap read_char h
      ∙ read_char-escape d ds (0x22 ∷ ys) q.0) in
    let (front, rest) = escape-injective cs ds xs ys p.1 q.1 tail in (rw (head, front) refl, rest)

IsCodePoint-IsScalar : (n : ℕ) → IsScalar n → IsCodePoint n
IsCodePoint-IsScalar n h = ground arith

codes-IsCodePoint : (s : String) → All IsCodePoint (codes s)
codes-IsCodePoint String.[] = tt
codes-IsCodePoint (String.◌∷◌ (char n p) s) = (IsCodePoint-IsScalar n p, codes-IsCodePoint s)

pub codes-injective : (s t : String) → codes s ≡ codes t → s ≡ t
codes-injective String.[] String.[] h = refl
codes-injective String.[] (String.◌∷◌ d t) h = absurd (cc)
codes-injective (String.◌∷◌ c s) String.[] h = absurd (cc)
codes-injective (String.◌∷◌ c s) (String.◌∷◌ d t) h =
    let (head, tail) = head_tail h in rw (Char-path c d head, codes-injective s t tail) refl

-- A JSON text, and what follows it, is read in one way.
pub json_text-injective :
    (s t : String) (xs ys : List ℕ) → json_text s ++ xs ≡ json_text t ++ ys → (s ≡ t) × (xs ≡ ys)
unfolding json_text
json_text-injective s t xs ys h =
    let (quote, body) = head_tail h in
    let (same, rest) =
      escape-injective (codes s) (codes t) xs ys (codes-IsCodePoint s) (codes-IsCodePoint t) (
        sym (append_assoc (escape (codes s)) (0x22 ∷ []) xs)
        ∙ body
        ∙ append_assoc (escape (codes t)) (0x22 ∷ []) ys) in
    (codes-injective s t same, rest)
