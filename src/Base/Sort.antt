-- ===== src/Base/Sort.antt =====
-- `sorted(xs, key=…)`: a stable sort by a number.
pub mod Order
use organization_ai.Base.{
  ℕ, ◌<◌, ◌≡◌, refl, List, [], ◌∷◌, ◌++◌, leb, le→leb, if◌then◌else◌, arith, All,
}

module _ {ℓ} {A : Type ℓ} (key : A → ℕ) where
  unfoldable pub insert_by : A → List A → List A
  insert_by x [] = x ∷ []
  insert_by x (y ∷ ys) = if leb (key x) (key y) then x ∷ y ∷ ys else y ∷ insert_by x ys

  unfoldable pub sort_by : List A → List A
  unfolding insert_by
  sort_by [] = []
  sort_by (x ∷ xs) = insert_by x (sort_by xs)

  -- Keys ascend.
  abbrev pub IsAscending : List A → Type 0
  IsAscending [] = Unit
  IsAscending (x ∷ xs) = All (λ y. key x < key y) xs × IsAscending xs

  insert_by_front : (x : A) (ys : List A) → All (λ y. key x < key y) ys → insert_by x ys ≡ x ∷ ys
  unfolding insert_by
  insert_by_front x [] h = refl
  insert_by_front x (y ∷ ys) h = rw (le→leb (key x) (key y) (omega arith))

  -- Sorting an ascending list changes nothing.
  pub sort_by-IsAscending : (xs : List A) → IsAscending xs → sort_by xs ≡ xs
  unfolding sort_by
  sort_by-IsAscending [] h = refl
  sort_by-IsAscending (x ∷ xs) h = rw (sort_by-IsAscending xs h.1) (insert_by_front x xs h.0)

  pub IsAscending-append :
      (xs : List A) (x : A)
      → IsAscending xs
      → All (λ y. key y < key x) xs
      → IsAscending (xs ++ x ∷ [])
  IsAscending-append [] x h below = (tt, tt)
  IsAscending-append (y ∷ ys) x h below =
      (All-snoc ys h.0 below.0, IsAscending-append ys x h.1 below.1)
    where
      All-snoc :
          (zs : List A)
          → All (λ z. key y < key z) zs
          → key y < key x
          → All (λ z. key y < key z) (zs ++ x ∷ [])
      All-snoc [] _ p = (p, tt)
      All-snoc (z ∷ zs) hz p = (hz.0, All-snoc zs hz.1 p)

  All-insert_by : (P : A → Type 0) (x : A) (ys : List A) → All P (insert_by x ys) → P x × All P ys
  unfolding insert_by
  All-insert_by P x [] h = h
  All-insert_by P x (y ∷ ys) h = ground (arith, All-insert_by P x ys)

  pub All-sort_by : (P : A → Type 0) (xs : List A) → All P (sort_by xs) → All P xs
  unfolding sort_by
  All-sort_by P [] h = tt
  All-sort_by P (x ∷ xs) h =
      let (first, rest) = All-insert_by P x (sort_by xs) h in (first, All-sort_by P xs rest)

  insert_by-append :
      (x : A) (ys : List A) (z : A)
      → key x < key z
      → insert_by x (ys ++ z ∷ []) ≡ insert_by x ys ++ z ∷ []
  unfolding insert_by
  insert_by-append x [] z h = ground (arith, le→leb (key x) (key z))
  insert_by-append x (y ∷ ys) z h = ground (arith, insert_by-append x ys z h)

  -- An element behind all others stays at the end.
  pub sort_by-append :
      (xs : List A) (z : A)
      → All (λ x. key x < key z) xs
      → sort_by (xs ++ z ∷ []) ≡ sort_by xs ++ z ∷ []
  unfolding sort_by insert_by
  sort_by-append [] z h = refl
  sort_by-append (x ∷ xs) z h = rw (sort_by-append xs z h.1) (insert_by-append x (sort_by xs) z h.0)
