-- ===== src/Domain/Control/Prefix.antt =====
-- The part of an event chain up to a number, which backend/app/application/control_deck.py replays for
-- a receipt.
use organization_ai.Base.{
  ℕ, ◌<◌, true, false, List, [], ◌∷◌, ◌++◌, All, All-map, All-append, append-[], leb, le→leb,
  leb→le, ◌≡◌, subst, sym, arith, Bool-cases, inl, inr,
}
use organization_ai.Base.Query.{select, select-append, All-select}
use organization_ai.Base.Query.Absent.{select-All}
use organization_ai.Base.Sort.{IsAscending}
use organization_ai.Domain.Enums.{DecisionOutcome}
use organization_ai.Domain.Control.Vocabulary.{StoredAuditEvent}
use organization_ai.Domain.Control.History.{sequence, IsSystem, History, received, recorded}

-- The events numbered up to `n`.
abbrev pub up_to : ℕ → List StoredAuditEvent → List StoredAuditEvent
up_to n = select (λ (e : StoredAuditEvent). leb e.sequence_number n)

IsAscending-up_to :
    (n : ℕ) (es : List StoredAuditEvent)
    → IsAscending sequence es
    → IsAscending sequence (up_to n es)
unfolding select
IsAscending-up_to n [] h = tt
IsAscending-up_to n (e ∷ es) h = elim (Bool-cases (leb e.sequence_number n)) [
  | inl holds ↦ rw (holds) (
    All-select (λ (x : StoredAuditEvent). e.sequence_number < x.sequence_number)
        (λ (x : StoredAuditEvent). leb x.sequence_number n) es h.0,
    IsAscending-up_to n es h.1,
  )
  | inr fails ↦ rw (fails) (IsAscending-up_to n es h.1)
]

-- Where the last event is kept, all before it are.
up_to-All :
    (n : ℕ) (es : List StoredAuditEvent) (e : StoredAuditEvent)
    → All (λ (x : StoredAuditEvent). x.sequence_number < e.sequence_number) es
    → leb e.sequence_number n ≡ true
    → up_to n (es ++ e ∷ []) ≡ es ++ e ∷ []
up_to-All n es e below kept =
    select-All (λ (x : StoredAuditEvent). leb x.sequence_number n) (es ++ e ∷ [])
      (All-append (λ (x : StoredAuditEvent). leb x.sequence_number n ≡ true) es (e ∷ [])
        (All-map es
          (λ (x : StoredAuditEvent) under.
            let bound = leb→le e.sequence_number n kept in le→leb x.sequence_number n (omega arith))
          below)
        (kept, tt))

up_to-before :
    (n : ℕ) (es : List StoredAuditEvent) (e : StoredAuditEvent)
    → leb e.sequence_number n ≡ false
    → up_to n (es ++ e ∷ []) ≡ up_to n es
unfolding select
up_to-before n es e left =
    rw (select-append (λ (x : StoredAuditEvent). leb x.sequence_number n) es (e ∷ []), left)
      (append-[] (up_to n es))

-- The part of a history up to a number is a history.
pub History-up_to :
    {o : DecisionOutcome} {es : List StoredAuditEvent} (n : ℕ)
    → History o es
    → History o (up_to n es)
History-up_to n (received es system ascending) =
    received (up_to n es)
      (All-select IsSystem (λ (x : StoredAuditEvent). leb x.sequence_number n) es system)
      (IsAscending-up_to n es ascending)
History-up_to {o} n (recorded {es} event c reason d planned h replays plans action above) =
    elim (Bool-cases (leb event.sequence_number n)) [
      | inl kept ↦
          subst (History o) (sym (up_to-All n es event above kept))
            (recorded event c reason d planned h replays plans action above)
      | inr left ↦ subst (History o) (sym (up_to-before n es event left)) (History-up_to n h)
    ]
