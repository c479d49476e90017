-- ===== src/Base/Query.antt =====
-- Selecting rows of a table by a test, and counting by a key.
pub mod Absent
use organization_ai.Base.{
  inl, inr, Bool-cases, ℕ, ◌<◌, Bool, true, false, Option, none, some, List, [], ◌∷◌, ◌++◌, leb,
  if◌then◌else◌, ◌≡◌, refl, arith, All,
}

module _ {ℓ} {A : Type ℓ} where
  -- `SELECT … WHERE test`
  unfoldable pub select : (A → Bool) → List A → List A
  select test [] = []
  select test (x ∷ xs) = let rest = select test xs in if test x then x ∷ rest else rest

  -- `SELECT … WHERE test`, the first row
  unfoldable pub find : (A → Bool) → List A → Option A
  find test [] = none
  find test (x ∷ xs) = if test x then some x else find test xs

  unfoldable pub any : (A → Bool) → List A → Bool
  any test [] = false
  any test (x ∷ xs) = if test x then true else any test xs

  pub select-append :
      (test : A → Bool) (xs ys : List A) → select test (xs ++ ys) ≡ select test xs ++ select test ys
  unfolding select
  select-append test [] ys = refl
  select-append test (x ∷ xs) ys = ground (arith, select-append test xs ys)

  pub find-append_some :
      (test : A → Bool) (xs ys : List A) {a : A}
      → find test xs ≡ some a
      → find test (xs ++ ys) ≡ some a
  unfolding find
  find-append_some test [] ys h = absurd (cc)
  find-append_some test (x ∷ xs) ys {a} h = ground (arith, find-append_some test xs ys {a = a})

  pub find-append_none :
      (test : A → Bool) (xs ys : List A) → find test xs ≡ none → find test (xs ++ ys) ≡ find test ys
  unfolding find
  find-append_none test [] ys h = refl
  find-append_none test (x ∷ xs) ys h = ground (arith, find-append_none test xs ys)

  pub All-select :
      (P : A → Type 0) (test : A → Bool) (xs : List A) → All P xs → All P (select test xs)
  unfolding select
  All-select P test [] h = tt
  All-select P test (x ∷ xs) h = ground (arith, All-select P test xs h.1)

  -- `max((key(x) for x in xs), default=0)`
  unfoldable pub max_by : (A → ℕ) → List A → ℕ
  max_by key [] = 0
  max_by key (x ∷ xs) = let rest = max_by key xs in if leb rest (key x) then key x else rest

  pub max_by-bounds :
      (key : A → ℕ) (xs : List A) (n : ℕ) → max_by key xs < n → All (λ x. key x < n) xs
  unfolding max_by
  max_by-bounds key [] n h = tt
  max_by-bounds key (x ∷ xs) n h = ground (arith, max_by-bounds key xs n)

  -- The row that is found passes the test.
  pub find_holds : (test : A → Bool) (xs : List A) {a : A} → find test xs ≡ some a → test a ≡ true
  unfolding find
  find_holds test [] h = absurd (cc)
  find_holds test (x ∷ xs) {a} h = elim (Bool-cases (test x)) [
    | inl holds ↦ let same : x ≡ a = ground arith in rw (← same) holds
    | inr fails ↦ find_holds test xs {a = a} (ground arith)
  ]
