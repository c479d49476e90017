-- ===== src/Persistence/Engine/Keys.antt =====
-- What tables without a violated constraint say about the keys that their rows have.
use organization_ai.Base.{
  Bool, false, not, List, [], ◌∷◌, ◌++◌, ◌≡◌, ◌==◌, ==_iff, refl, arith, Bool-cases, inl, inr,
}
use organization_ai.Base.Json.{Uuid}
use organization_ai.Base.Query.{any}
use organization_ai.Base.Query.Absent.{any-append, any-weaken}
use organization_ai.Persistence.Rows.{CaseRow, EventRow, Database}
use organization_ai.Persistence.Engine.{Constraint, has_duplicate, violates}

-- No constraint is violated.
abbrev pub IsConsistent : Database → Type 0
IsConsistent db = (k : Constraint) → violates db k ≡ false

pub any-has_duplicate {ℓ} :
    {A : Type ℓ} (same : A → A → Bool) (xs : List A) (y : A)
    → has_duplicate same (xs ++ y ∷ []) ≡ false
    → any (λ x. same x y) xs ≡ false
unfolding has_duplicate any
any-has_duplicate same [] y h = refl
any-has_duplicate same (x ∷ xs) y h = elim (Bool-cases (any (same x) (xs ++ y ∷ []))) [
  | inl holds ↦ absurd (ground arith)
  | inr fails ↦
      let fresh = any-append (same x) xs (y ∷ []) fails in
      ground (arith, any-has_duplicate same xs y, fresh.1)
]

-- An event of a trace that no case row has would have no case.
pub events_known :
    (cases : List CaseRow) (events : List EventRow) (t : Uuid)
    → any (λ (c : CaseRow). c.trace_id == t) cases ≡ false
    → any (λ (e : EventRow). not (any (λ (c : CaseRow). c.trace_id == e.trace_id) cases)) events
      ≡ false
    → any (λ (e : EventRow). e.trace_id == t) events ≡ false
events_known cases events t none_case known =
    any-weaken (λ (e : EventRow). e.trace_id == t)
      (λ (e : EventRow). not (any (λ (c : CaseRow). c.trace_id == e.trace_id) cases)) events
      (λ e same. rw ((==_iff e.trace_id t).0 same, none_case) refl) known
