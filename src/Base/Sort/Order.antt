-- ===== src/Base/Sort/Order.antt =====
-- Sorting by distinct keys gives the same list whatever the order was.
use mathlib.Core.List.{Permᴰ}
use organization_ai.Base.{ℕ, ◌≡◌, ◌≢◌, refl, sym, ap, ◌∙◌, subst, List, [], ◌∷◌, arith, All}
use organization_ai.Base.Sort.{insert_by, sort_by}

module _ {A : Type 0} (key : A → ℕ) where
  abbrev pub IsDistinct : List A → Type 0
  IsDistinct [] = Unit
  IsDistinct (x ∷ xs) = All (λ y. key x ≢ key y) xs × IsDistinct xs

  insert_by_comm :
      (x y : A) (l : List A)
      → key x ≢ key y
      → insert_by key x (insert_by key y l) ≡ insert_by key y (insert_by key x l)
  unfolding insert_by
  insert_by_comm x y [] ne = ground arith
  insert_by_comm x y (z ∷ l) ne = ground (arith, insert_by_comm x y l ne)

  All-Permᴰ : (P : A → Type 0) {xs ys : List A} → Permᴰ xs ys → All P xs → All P ys
  All-Permᴰ P Permᴰ.nil h = tt
  All-Permᴰ P (Permᴰ.cons e p) h = (subst P e h.0, All-Permᴰ P p h.1)
  All-Permᴰ P (Permᴰ.swap e e') h = (subst P e' h.1.0, (subst P e h.0, h.1.1))
  All-Permᴰ P (Permᴰ.trans p q) h = All-Permᴰ P q (All-Permᴰ P p h)

  IsDistinct-Permᴰ : {xs ys : List A} → Permᴰ xs ys → IsDistinct xs → IsDistinct ys
  IsDistinct-Permᴰ Permᴰ.nil h = tt
  IsDistinct-Permᴰ (Permᴰ.cons {a} {b} {l₁} {l₂} e p) h = (
    subst (λ (x : A). All (λ y. key x ≢ key y) l₂) e (All-Permᴰ (λ y. key a ≢ key y) p h.0),
    IsDistinct-Permᴰ p h.1,
  )
  IsDistinct-Permᴰ (Permᴰ.swap {a} {b} {a'} {b'} {l} e e') h = (
    (
      λ same. h.0.0 (ap key e ∙ sym same ∙ ap key (sym e')),
      subst (λ (x : A). All (λ y. key x ≢ key y) l) e' h.1.0,
    ),
    (subst (λ (x : A). All (λ y. key x ≢ key y) l) e h.0.1, h.1.1),
  )
  IsDistinct-Permᴰ (Permᴰ.trans p q) h = IsDistinct-Permᴰ q (IsDistinct-Permᴰ p h)

  pub sort_by-Permᴰ :
      {xs ys : List A} → Permᴰ xs ys → IsDistinct xs → sort_by key xs ≡ sort_by key ys
  unfolding sort_by
  sort_by-Permᴰ Permᴰ.nil h = refl
  sort_by-Permᴰ (Permᴰ.cons e p) h = rw (e, sort_by-Permᴰ p h.1) refl
  sort_by-Permᴰ (Permᴰ.swap {a} {b} {a'} {b'} {l} e e') h =
      insert_by_comm a b (sort_by key l) h.0.0 ∙ rw (e, e') refl
  sort_by-Permᴰ (Permᴰ.trans p q) h = sort_by-Permᴰ p h ∙ sort_by-Permᴰ q (IsDistinct-Permᴰ p h)
