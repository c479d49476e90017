-- ===== src/Persistence/Engine/Checked.antt =====
-- An engine that checks the constraints one after another: the interface can be met.
use organization_ai.Base.{
  true, false, Option, none, some, List, [], ◌∷◌, All, ◌≡◌, refl, Option-cases, inl, inr, ◌∙◌, sym,
  ap, arith, Bool, Bool-cases,
}
use organization_ai.Base.Query.{find}
use organization_ai.Base.Result.{Result, ok, err, ok-injective, err-injective}
use organization_ai.Persistence.Rows.{Database}
use organization_ai.Persistence.Repository.{Pending, insert_rows}
use organization_ai.Persistence.Engine.Keys.{IsConsistent}
use organization_ai.Persistence.Engine.{
  Constraint, case_key, case_id_unique, decision_key, decision_trace_unique, decision_trace_known,
  event_key, event_sequence_unique, event_sequence_positive, event_idempotency, event_trace_known,
  event_previous_known, constraint_name, violates, IntegrityError, Engine,
}

abbrev pub all_constraints : List Constraint
all_constraints =
    case_key ∷ case_id_unique ∷ decision_key ∷ decision_trace_unique ∷ decision_trace_known
    ∷ event_key ∷ event_sequence_unique ∷ event_sequence_positive ∷ event_idempotency
    ∷ event_trace_known ∷ event_previous_known ∷ []

report : Option Constraint → Database → Result IntegrityError Database
report none db = ok db
report (some k) db = err (record { diag_constraint_name = constraint_name k; message = "" })

unfoldable pub flush_checked : Database → Pending → Result IntegrityError Database
unfolding report find violates insert_rows
flush_checked db new =
    report (find (violates (insert_rows db new)) all_constraints) (insert_rows db new)

flush_clean :
    (db : Database) (new : Pending)
    → find (violates (insert_rows db new)) all_constraints ≡ none
    → flush_checked db new ≡ ok (insert_rows db new)
unfolding flush_checked
flush_clean db new h = rw h refl

flush_broken :
    (db : Database) (new : Pending) (k : Constraint)
    → find (violates (insert_rows db new)) all_constraints ≡ some k
    → flush_checked db new ≡ err (record { diag_constraint_name = constraint_name k; message = "" })
unfolding flush_checked
flush_broken db new k h = rw h refl

find-none :
    (test : Constraint → Bool) (ks : List Constraint)
    → find test ks ≡ none
    → All (λ k. test k ≡ false) ks
unfolding find
find-none test [] h = tt
find-none test (k ∷ ks) h = ground (arith, find-none test ks)

none_of_all :
    (test : Constraint → Bool) (ks : List Constraint)
    → ((k : Constraint) → test k ≡ false)
    → find test ks ≡ none
unfolding find
none_of_all test [] h = refl
none_of_all test (k ∷ ks) h = rw (h k) (none_of_all test ks h)

find-some :
    (test : Constraint → Bool) (ks : List Constraint) {k : Constraint}
    → find test ks ≡ some k
    → test k ≡ true
unfolding find
find-some test [] h = absurd (cc)
find-some test (j ∷ ks) {k} h = elim (Bool-cases (test j)) [
  | inl holds ↦ let same : j ≡ k = ground arith in rw (← same) holds
  | inr fails ↦ find-some test ks {k = k} (ground arith)
]

-- Every constraint stands in the list.
each :
    (test : Constraint → Bool)
    → All (λ k. test k ≡ false) all_constraints
    → (k : Constraint) → test k ≡ false
each test h case_key = h.0
each test h case_id_unique = h.1.0
each test h decision_key = h.1.1.0
each test h decision_trace_unique = h.1.1.1.0
each test h decision_trace_known = h.1.1.1.1.0
each test h event_key = h.1.1.1.1.1.0
each test h event_sequence_unique = h.1.1.1.1.1.1.0
each test h event_sequence_positive = h.1.1.1.1.1.1.1.0
each test h event_idempotency = h.1.1.1.1.1.1.1.1.0
each test h event_trace_known = h.1.1.1.1.1.1.1.1.1.0
each test h event_previous_known = h.1.1.1.1.1.1.1.1.1.1.0

-- Tables whose constraints are checked one after another.
pub checked-IsConsistent :
    (db : Database) → find (violates db) all_constraints ≡ none → IsConsistent db
checked-IsConsistent db h = each (violates db) (find-none (violates db) all_constraints h)

module _ (db : Database) (new : Pending) where
  pub flush_checked_inserts :
      {db' : Database}
      → flush_checked db new ≡ ok db'
      → (db' ≡ insert_rows db new) × ((k : Constraint) → violates (insert_rows db new) k ≡ false)
  flush_checked_inserts h =
      elim (Option-cases (find (violates (insert_rows db new)) all_constraints)) [
        | inl clean ↦ (
          ok-injective (sym h ∙ flush_clean db new clean),
          each (violates (insert_rows db new))
              (find-none (violates (insert_rows db new)) all_constraints clean),
        )
        | inr (k, broken) ↦ absurd (cc (flush_broken db new k broken))
      ]

  pub flush_checked_rejects :
      {e : IntegrityError}
      → flush_checked db new ≡ err e
      → (k : Constraint) × (violates (insert_rows db new) k ≡ true)
        × (e.diag_constraint_name ≡ constraint_name k)
  flush_checked_rejects h =
      elim (Option-cases (find (violates (insert_rows db new)) all_constraints)) [
        | inl clean ↦ absurd (cc (flush_clean db new clean))
        | inr (k, broken) ↦ (
          k,
          find-some (violates (insert_rows db new)) all_constraints broken,
          ap (λ (e : IntegrityError). e.diag_constraint_name)
              (err-injective (sym h ∙ flush_broken db new k broken)),
        )
      ]

  pub flush_checked_accepts :
      ((k : Constraint) → violates (insert_rows db new) k ≡ false)
      → flush_checked db new ≡ ok (insert_rows db new)
  unfolding flush_checked
  flush_checked_accepts h = rw (none_of_all (violates (insert_rows db new)) all_constraints h)

abbrev pub checked_engine : Engine
checked_engine = record {
  flush = flush_checked;
  flush_accepts = flush_checked_accepts;
  flush_inserts = flush_checked_inserts;
  flush_rejects = flush_checked_rejects;
}
