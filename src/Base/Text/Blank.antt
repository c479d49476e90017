-- ===== src/Base/Text/Blank.antt =====
-- What `not value.strip()` tests: whether every character is white space.
use Prim.Native.Char.{code}
use Prim.Native.String.{◌++◌ as append}
use Prim.Native.String.append
use mathlib.Core.List.{reverse, reverse-append}
use organization_ai.Base.{
  ℕ, Bool, true, false, ◌&&◌, String, List, [], ◌∷◌, ◌++◌, ◌≡◌, refl, ap, ◌∙◌, all, all-append,
  arith, Bool-cases, inl, inr, ◌⊎◌,
}
use organization_ai.Base.Text.{codes, is_space, lstrip, is_empty, is_blank, format}

-- `lstrip` leaves nothing, or text that begins with a character that is not white space.
lstrip-cases :
    (cs : List ℕ)
    → ((lstrip cs ≡ []) × (all is_space cs ≡ true))
      ⊎ ((c : ℕ) × (rest : List ℕ) × (lstrip cs ≡ c ∷ rest)
          × (is_space c ≡ false)
          × (all is_space cs ≡ false))
unfolding lstrip
lstrip-cases [] = inl (refl, refl)
lstrip-cases (c ∷ cs) = elim (Bool-cases (is_space c)) [
  | inl space ↦ rw space (lstrip-cases cs)
  | inr other ↦ rw other (inr (c, cs, refl, other, refl))
]

all-reverse : (p : ℕ → Bool) (cs : List ℕ) → all p (reverse cs) ≡ all p cs
all-reverse p [] = refl
all-reverse p (c ∷ cs) =
    rw (reverse-append (c ∷ []) cs, all-append p (reverse cs) (c ∷ []), all-reverse p cs)
      (ground arith)

is_empty_snoc : (cs : List ℕ) (c : ℕ) → is_empty (cs ++ c ∷ []) ≡ false
unfolding is_empty
is_empty_snoc [] c = refl
is_empty_snoc (_ ∷ _) c = refl

is_empty-reverse : (cs : List ℕ) → is_empty (reverse cs) ≡ is_empty cs
unfolding is_empty
is_empty-reverse [] = refl
is_empty-reverse (c ∷ cs) = rw (reverse-append (c ∷ []) cs) (is_empty_snoc (reverse cs) c)

is_empty-lstrip : (cs : List ℕ) → is_empty (lstrip cs) ≡ all is_space cs
unfolding is_empty
is_empty-lstrip cs = elim (lstrip-cases cs) [
  | inl (gone, space) ↦ rw (gone, space)
  | inr (c, rest, left, _, other) ↦ rw (left, other)
]

all-lstrip : (cs : List ℕ) → all is_space (lstrip cs) ≡ all is_space cs
all-lstrip cs = elim (lstrip-cases cs) [
  | inl (gone, space) ↦ rw (gone, space)
  | inr (c, rest, left, solid, other) ↦ rw (left, other, solid)
]

-- A text is blank exactly when all its characters are white space.
pub is_blank-eq-all : (s : String) → is_blank s ≡ all is_space (codes s)
unfolding is_blank
is_blank-eq-all s =
    is_empty-reverse (lstrip (reverse (lstrip (codes s))))
    ∙ is_empty-lstrip (reverse (lstrip (codes s)))
    ∙ all-reverse is_space (lstrip (codes s))
    ∙ all-lstrip (codes s)

pub codes-append : (s t : String) → codes (append s t) ≡ codes s ++ codes t
codes-append String.[] t = rw (append.nil t)
codes-append (String.◌∷◌ c s) t =
    rw (append.cons c s t) (ap (λ (l : List ℕ). code c ∷ l) (codes-append s t))

-- An f-string is blank exactly when each of its pieces is.
pub is_blank-format :
    (p : String) (ps : List String)
    → is_blank (format (p ∷ ps)) ≡ (all is_space (codes p) && is_blank (format ps))
unfolding format
is_blank-format p ps =
    rw
      (
        is_blank-eq-all (append p (format ps)),
        codes-append p (format ps),
        all-append is_space (codes p) (codes (format ps)),
        ← is_blank-eq-all (format ps),
      )
      refl
