-- ===== src/Base/Text.antt =====
-- Python's `str` as the code uses it: `strip`, containment of a character, f-strings, `str(int)`.
pub mod Blank
pub mod Decimal
use Prim.Native.Char.{code}
use Prim.Native.String.{◌++◌ as append}
use organization_ai.Base.{
  ℕ, Bool, true, false, ◌&&◌, ◌||◌, String, List, [], ◌∷◌, leb, ◌==◌, if◌then◌else◌, ◌≡◌, refl, all,
}
use mathlib.Core.List.{reverse}

-- The code points of a text.
abbrev pub codes : String → List ℕ
codes String.[] = []
codes (String.◌∷◌ c s) = code c ∷ codes s

-- `str.isspace` for one code point, as `str.strip` uses it.
unfoldable pub is_space : ℕ → Bool
is_space c =
    leb 0x09 c && leb c 0x0d
    || leb 0x1c c && leb c 0x20
    || c == 0x85
    || c == 0xa0
    || c == 0x1680
    || leb 0x2000 c && leb c 0x200a
    || c == 0x2028
    || c == 0x2029
    || c == 0x202f
    || c == 0x205f
    || c == 0x3000

unfoldable pub lstrip : List ℕ → List ℕ
lstrip [] = []
lstrip (c ∷ cs) = if is_space c then lstrip cs else c ∷ cs

-- `value.strip()`
unfoldable pub strip : List ℕ → List ℕ
unfolding lstrip
strip cs = reverse (lstrip (reverse (lstrip cs)))

unfoldable pub is_empty {ℓ} : {A : Type ℓ} → List A → Bool
is_empty [] = true
is_empty (_ ∷ _) = false

-- `not value.strip()`
unfoldable pub is_blank : String → Bool
unfolding strip is_space is_empty
is_blank s = is_empty (strip (codes s))

-- An f-string: its pieces, joined.
unfoldable pub format : List String → String
format [] = ""
format (p ∷ ps) = append p (format ps)
