-- ===== src/Base/Query/Absent.antt =====
-- What a query gives when no row passes its test, or when all of them do.
use organization_ai.Base.{
  append-[], Bool, true, false, not, none, some, All, List, [], ◌∷◌, ◌++◌, ◌≡◌, refl, arith,
  Bool-cases, inl, inr,
}
use organization_ai.Base.Query.{select, find, any, find-append_none, select-append}

module _ {ℓ} {A : Type ℓ} where
  pub find-any : (test : A → Bool) (xs : List A) → any test xs ≡ false → find test xs ≡ none
  unfolding find any
  find-any test [] h = refl
  find-any test (x ∷ xs) h = ground (arith, find-any test xs)

  pub select-any : (test : A → Bool) (xs : List A) → any test xs ≡ false → select test xs ≡ []
  unfolding select any
  select-any test [] h = refl
  select-any test (x ∷ xs) h = ground (arith, select-any test xs)

  pub any-append :
      (test : A → Bool) (xs ys : List A)
      → any test (xs ++ ys) ≡ false
      → (any test xs ≡ false) × (any test ys ≡ false)
  unfolding any
  any-append test [] ys h = (refl, h)
  any-append test (x ∷ xs) ys h = ground (arith, any-append test xs ys)

  -- Where the test fails on the rows in front, the answer is that of the others.
  pub any-behind :
      (test : A → Bool) (xs ys : List A) → any test xs ≡ false → any test (xs ++ ys) ≡ any test ys
  unfolding any
  any-behind test [] ys h = refl
  any-behind test (x ∷ xs) ys h = ground (arith, any-behind test xs ys)

  pub select-behind :
      (test : A → Bool) (xs ys : List A)
      → any test xs ≡ false
      → select (λ x. not (test x)) (xs ++ ys) ≡ xs ++ select (λ x. not (test x)) ys
  unfolding select any
  select-behind test [] ys h = refl
  select-behind test (x ∷ xs) ys h = ground (arith, select-behind test xs ys)

  pub any-append_right :
      (test : A → Bool) (xs ys : List A) → any test ys ≡ true → any test (xs ++ ys) ≡ true
  unfolding any
  any-append_right test [] ys h = h
  any-append_right test (x ∷ xs) ys h = ground (arith, any-append_right test xs ys)

  -- Where one test fails on every row that another passes.
  pub any-weaken :
      (p q : A → Bool) (xs : List A)
      → ((x : A) → p x ≡ true → q x ≡ true)
      → any q xs ≡ false
      → any p xs ≡ false
  unfolding any
  any-weaken p q [] f h = refl
  any-weaken p q (x ∷ xs) f h = elim (Bool-cases (p x)) [
    | inl holds ↦ absurd (ground (arith, f x holds))
    | inr fails ↦ rw fails (any-weaken p q xs f (ground arith))
  ]

  pub any-strengthen :
      (p q : A → Bool) (xs : List A)
      → ((x : A) → p x ≡ true → q x ≡ true)
      → any p xs ≡ true
      → any q xs ≡ true
  any-strengthen p q xs f h = elim (Bool-cases (any q xs)) [
    | inl holds ↦ holds
    | inr fails ↦ absurd (cc (any-weaken p q xs f fails, h))
  ]

  pub select-All :
      (test : A → Bool) (xs : List A) → All (λ x. test x ≡ true) xs → select test xs ≡ xs
  unfolding select
  select-All test [] h = refl
  select-All test (x ∷ xs) h = rw (h.0, select-All test xs h.1) refl

  -- A query on a table to which rows are added.
  pub find-added :
      (test : A → Bool) (xs : List A) (y : A)
      → any test xs ≡ false
      → test y ≡ true
      → find test (xs ++ y ∷ []) ≡ some y
  unfolding find
  find-added test xs y none_before is_y =
      rw (find-append_none test xs (y ∷ []) (find-any test xs none_before), is_y) refl

  pub select-added :
      (test : A → Bool) (xs ys : List A)
      → any test xs ≡ false
      → All (λ y. test y ≡ true) ys
      → select test (xs ++ ys) ≡ ys
  select-added test xs ys none_before all_ys =
      rw (select-append test xs ys, select-any test xs none_before) (select-All test ys all_ys)

  -- Added rows that do not pass the test change no answer.
  pub find-untouched :
      (test : A → Bool) (xs ys : List A) → any test ys ≡ false → find test (xs ++ ys) ≡ find test xs
  unfolding find
  find-untouched test [] ys h = find-any test ys h
  find-untouched test (x ∷ xs) ys h = ground (arith, find-untouched test xs ys h)

  pub select-untouched :
      (test : A → Bool) (xs ys : List A)
      → any test ys ≡ false
      → select test (xs ++ ys) ≡ select test xs
  select-untouched test xs ys h =
      rw (select-append test xs ys, select-any test ys h) (append-[] (select test xs))
