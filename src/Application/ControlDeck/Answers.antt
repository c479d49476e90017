-- ===== src/Application/ControlDeck/Answers.antt =====
-- Which exceptions `submit_control` of backend/app/application/control_deck.py can raise.
use organization_ai.Base.{
  ℕ, true, false, String, Option, none, some, List, [], ◌∷◌, ◌++◌, ◌≡◌, refl, ap, sym, ◌∙◌, subst,
  Option-cases, Bool-cases, inl, inr,
}
use organization_ai.Base.Text.{is_blank}
use organization_ai.Base.Result.{Result, ok, err, Result-cases}
use organization_ai.Domain.Control.Deck.{HasDisposition}
use organization_ai.Persistence.Rows.{EventRow, Database, StoredTrace}
use organization_ai.Persistence.Repository.{find_trace, find_control_receipt, add_control_event}
use organization_ai.Persistence.Engine.{
  Constraint, event_idempotency, constraint_name, IntegrityError, names_constraint, Engine,
}
use organization_ai.Application.Views.{
  TraceReadModel, ServiceError, trace_not_found, control_idempotency_conflict, integrity_error,
  to_trace_model, lift,
}
use organization_ai.Application.Sound.{IsReplayable, IsSound, to_trace_model-Shows}
use organization_ai.Application.History.{Effects}
use organization_ai.Application.ControlDeck.{
  ControlRequest, to_idempotency_result, same_fingerprint, answer_receipt, plan_on, control_event,
  is_idempotency_conflict, resolve_idempotency_conflict, handle_integrity_error,
  after_control_flush, append_control, receipt_of, control_locked, submit_control,
}
use organization_ai.Application.ControlDeck.Expected.{
  IsAnswer, IsAnswer-by, IsAnswer-if, to_idempotency_result-IsAnswer, plan_on-IsAnswer,
}
use organization_ai.Application.ControlDeck.Accepted.{to_trace_model-with_event}
use organization_ai.Application.ControlDeck.Appended.{with_event, IsReplayable-with_event}
use organization_ai.Application.ControlDeck.Atomic.{fingerprint_of}
use organization_ai.Application.ControlDeck.Sound.{submit_control-locked, assert_present-some}

-- The handler recognizes the index by its name.
is_idempotency_conflict-named :
    (e : IntegrityError)
    → e.diag_constraint_name ≡ constraint_name event_idempotency
    → is_idempotency_conflict e ≡ true
unfolding is_idempotency_conflict names_constraint constraint_name
is_idempotency_conflict-named e named = rw (named) refl

module _ (rq : ControlRequest) (solid : is_blank rq.reason ≡ false)
    (given : HasDisposition rq.command rq.disposition) (engine : Engine) (sha256 : List ℕ → String)
    (fx : Effects) (others : Database → Database) (db : Database) (sound : IsSound db)
    (sound' : IsSound (others db)) where
  resolve-IsAnswer :
      (key fingerprint : String)
      → IsAnswer rq.idempotency_key (resolve_idempotency_conflict rq key fingerprint (others db))
  unfolding resolve_idempotency_conflict
  resolve-IsAnswer key fingerprint =
      elim (Option-cases (find_control_receipt (others db) rq.trace_id key)) [
        | inl gone ↦
            IsAnswer-by rq.idempotency_key {y = err (control_idempotency_conflict rq.trace_id key)}
              (rw (gone, resolve_idempotency_conflict) refl) tt
        | inr (receipt, there) ↦ elim (Option-cases (find_trace (others db) rq.trace_id)) [
          | inl unknown ↦
              IsAnswer-by rq.idempotency_key
                (rw (there, resolve_idempotency_conflict, unknown) refl)
                (IsAnswer-if rq.idempotency_key
                  (same_fingerprint receipt.command_fingerprint fingerprint)
                  (err (trace_not_found rq.trace_id))
                  (err (control_idempotency_conflict rq.trace_id key)) tt tt)
          | inr (stored, found) ↦
              IsAnswer-by rq.idempotency_key (rw (there, resolve_idempotency_conflict, found) refl)
                (IsAnswer-if rq.idempotency_key
                  (same_fingerprint receipt.command_fingerprint fingerprint)
                  (lift (to_idempotency_result stored receipt))
                  (err (control_idempotency_conflict rq.trace_id key))
                  (to_idempotency_result-IsAnswer rq.idempotency_key stored receipt
                    (sound' rq.trace_id stored found))
                  tt)
        ]
      ]

  handle-IsAnswer :
      (key : Option String) (fingerprint : String) (e : IntegrityError) (k : Constraint)
      → rq.idempotency_key ≡ key
      → e.diag_constraint_name ≡ constraint_name k
      → IsAnswer rq.idempotency_key (handle_integrity_error rq key fingerprint e (others db))
  unfolding handle_integrity_error
  handle-IsAnswer none fingerprint e k same named =
      subst (λ (key : Option String). IsAnswer key (err (integrity_error e))) (sym same) (k, named)
  handle-IsAnswer (some key) fingerprint e k same named =
      elim (Bool-cases (is_idempotency_conflict e)) [
        | inl holds ↦
            IsAnswer-by rq.idempotency_key (rw (holds) refl) (resolve-IsAnswer key fingerprint)
        | inr fails ↦
            IsAnswer-by rq.idempotency_key {y = err (integrity_error e)} (rw (fails) refl) (
              subst (λ (given : Option String). IsAnswer given (err (integrity_error e))) (sym same)
                (
                  k,
                  named,
                  λ taken.
                      let holds =
                        is_idempotency_conflict-named e (named ∙ ap constraint_name taken) in
                      absurd (cc),
                ))
      ]

  after_control_flush-IsAnswer :
      (fingerprint : String) (stored : StoredTrace) (event : EventRow)
      (r : Result IntegrityError Database)
      → engine.flush (others db) (add_control_event event) ≡ r
      → IsAnswer rq.idempotency_key (lift (to_trace_model stored (stored.events ++ event ∷ [])))
      → IsAnswer rq.idempotency_key
          (after_control_flush rq fingerprint stored event (others db) r).0
  unfolding after_control_flush
  after_control_flush-IsAnswer fingerprint stored event (ok flushed) flushes h =
      elim (Result-cases (lift (to_trace_model stored (stored.events ++ event ∷ [])))) [
        | inl (view, shown) ↦ IsAnswer-by rq.idempotency_key {y = ok view} (rw (shown) refl) tt
        | inr (e, fails) ↦
            IsAnswer-by rq.idempotency_key {y = err e} (rw (fails) refl)
              (subst (IsAnswer rq.idempotency_key) fails h)
      ]
  after_control_flush-IsAnswer fingerprint stored event (err e) flushes h =
      let (k, violated, named) =
        engine.flush_rejects (others db) (add_control_event event) flushes in
      handle-IsAnswer rq.idempotency_key fingerprint e k refl named

  append_control-IsAnswer :
      (fingerprint : String) (stored : StoredTrace) (r : IsReplayable stored)
      → IsAnswer rq.idempotency_key
          (append_control engine sha256 fx others rq fingerprint stored r.decision db).0
  unfolding append_control
  append_control-IsAnswer fingerprint stored r =
      elim (Result-cases (plan_on rq stored r.decision)) [
        | inr (e, fails) ↦
            IsAnswer-by rq.idempotency_key {y = err e} (rw (fails, append_control) refl)
              (plan_on-IsAnswer rq solid given stored r fails)
        | inl (planned, plans) ↦
            let event = control_event fx rq fingerprint stored planned in
            let (view, shown, shows) =
              to_trace_model-Shows (with_event stored event)
                (IsReplayable-with_event rq stored r fx fingerprint planned plans) in
            IsAnswer-by rq.idempotency_key (rw (plans, append_control) refl) (
              after_control_flush-IsAnswer fingerprint stored event
                (engine.flush (others db) (add_control_event event)) refl
                (IsAnswer-by rq.idempotency_key
                  (ap lift
                    (to_trace_model-with_event stored event (stored.events ++ event ∷ []) ∙ shown))
                  tt))
      ]

  answer_receipt-IsAnswer :
      (key fingerprint : String) (stored : StoredTrace) (receipt : EventRow)
      → IsReplayable stored
      → IsAnswer rq.idempotency_key (answer_receipt rq key fingerprint stored receipt)
  unfolding answer_receipt
  answer_receipt-IsAnswer key fingerprint stored receipt r =
      IsAnswer-if rq.idempotency_key (same_fingerprint receipt.command_fingerprint fingerprint)
        (lift (to_idempotency_result stored receipt))
        (err (control_idempotency_conflict rq.trace_id key))
        (to_idempotency_result-IsAnswer rq.idempotency_key stored receipt r) tt

  control_locked-IsAnswer :
      (fingerprint : String) (locked : Option StoredTrace)
      → find_trace db rq.trace_id ≡ locked
      → IsAnswer rq.idempotency_key
          (control_locked engine sha256 fx others rq fingerprint locked db).0
  unfolding control_locked
  control_locked-IsAnswer fingerprint none found = tt
  control_locked-IsAnswer fingerprint (some stored) found =
      let r = sound rq.trace_id stored found in
      elim (Option-cases (receipt_of engine sha256 fx others rq db)) [
        | inl fresh ↦
            IsAnswer-by rq.idempotency_key
              (rw (assert_present-some r.has_decision, control_locked, fresh) refl)
              (append_control-IsAnswer fingerprint stored r)
        | inr ((key, receipt), there) ↦
            IsAnswer-by rq.idempotency_key
              (rw (assert_present-some r.has_decision, control_locked, there) refl)
              (answer_receipt-IsAnswer key fingerprint stored receipt r)
      ]

-- The reason is not blank, and a review has a disposition. If every trace of the tables can be
-- replayed, and every trace as other transactions leave them, then the call returns, or it raises one
-- of the exceptions that it is meant to: the trace is not found, the command is illegal, the key has
-- another intent, or the database has refused the event, and not for its key. It never fails in the replay, the lookup of
-- the outcome, the assertions or the guard's checks of its arguments.
pub submit_control-IsAnswer :
    (engine : Engine) (sha256 : List ℕ → String) (fx : Effects) (others : Database → Database)
    (rq : ControlRequest) (db : Database)
    → is_blank rq.reason ≡ false
    → HasDisposition rq.command rq.disposition
    → IsSound db
    → IsSound (others db)
    → IsAnswer rq.idempotency_key (submit_control engine sha256 fx others rq db).0
submit_control-IsAnswer engine sha256 fx others rq db solid given sound sound' =
    IsAnswer-by rq.idempotency_key
      (ap (λ (r : Result ServiceError TraceReadModel × Database). r.0)
        (submit_control-locked engine sha256 fx others rq db))
      (control_locked-IsAnswer rq solid given engine sha256 fx others db sound sound'
        (fingerprint_of sha256 rq) (find_trace db rq.trace_id) refl)
