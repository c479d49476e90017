-- ===== src/Application/ControlDeck/Receipt.antt =====
-- The receipt that an idempotency key leaves, for `submit_control` of
-- backend/app/application/control_deck.py.
use organization_ai.Base.{
  ℕ, true, false, ◌&&◌, String, Option, none, some, List, [], ◌∷◌, ◌++◌, All-map, All-append, ◌≡◌,
  ◌==◌, ==_iff, refl, ap, sym, ◌∙◌, arith, leb, le→leb, str_eq, eq_iff, eq_refl, if◌then◌else◌,
}
use organization_ai.Base.Json.{Uuid}
use organization_ai.Base.Query.{any, select}
use organization_ai.Base.Query.Absent.{any-weaken, find-added, select-All}
use organization_ai.Base.Result.{Result, ok, err}
use organization_ai.Policy.Evaluator.{assert_present}
use organization_ai.Persistence.Rows.{DecisionRow, EventRow, Database, StoredTrace}
use organization_ai.Persistence.Repository.{
  find_trace, find_control_receipt, has_key, insert_rows, add_control_event,
}
use organization_ai.Persistence.Engine.{Engine, event_idempotency, violates, same_key}
use organization_ai.Persistence.Engine.Keys.{any-has_duplicate}
use organization_ai.Application.Views.{
  TraceReadModel, ServiceError, control_idempotency_conflict, to_trace_model, lift,
}
use organization_ai.Application.Sound.{IsSound}
use organization_ai.Application.History.{Effects}
use organization_ai.Application.ControlDeck.{
  ControlRequest, control_event, to_idempotency_result, same_fingerprint, answer_receipt,
  receipt_of, control_locked, submit_control,
}
use organization_ai.Application.ControlDeck.Appended.{with_event, control_event_above}
use organization_ai.Application.ControlDeck.Atomic.{fingerprint_of, Appends}
use organization_ai.Application.ControlDeck.Sound.{
  submit_control-locked, assert_present-some, find_trace-appended, appended, replayable,
}

-- Two ways to test that a row has the key.
has_key-same_key :
    (key : String) (o : Option String) → has_key key o ≡ true → same_key o (some key) ≡ true
unfolding has_key
has_key-same_key key none h = absurd (cc)
has_key-same_key key (some k) h = ground (arith, eq_iff k key, eq_iff key k)

answer_receipt-of :
    (rq : ControlRequest) (key fingerprint fingerprint' : String) (stored : StoredTrace)
    (receipt : EventRow) (view : Result ServiceError TraceReadModel)
    → receipt.command_fingerprint ≡ some fingerprint
    → lift (to_idempotency_result stored receipt) ≡ view
    → answer_receipt rq key fingerprint' stored receipt ≡ (
        if str_eq fingerprint fingerprint'
        then view
        else err (control_idempotency_conflict rq.trace_id key))
unfolding answer_receipt same_fingerprint
answer_receipt-of rq key fingerprint fingerprint' stored receipt view given shown =
    rw (given, shown) refl

module _ (engine : Engine) (sha256 : List ℕ → String) (fx : Effects) (others : Database → Database)
    (rq : ControlRequest) (key : String) (receipt : EventRow) (db : Database) where
  receipt_of-some :
      rq.idempotency_key ≡ some key
      → find_control_receipt db rq.trace_id key ≡ some receipt
      → receipt_of engine sha256 fx others rq db ≡ some (key, receipt)
  unfolding receipt_of
  receipt_of-some keyed there = rw (keyed, receipt_of, there) refl

  control_locked-receipt :
      (fingerprint : String) (stored : StoredTrace) {decision : DecisionRow}
      → lift (assert_present stored.decision) ≡ ok decision
      → receipt_of engine sha256 fx others rq db ≡ some (key, receipt)
      → control_locked engine sha256 fx others rq fingerprint (some stored) db
        ≡ (answer_receipt rq key fingerprint stored receipt, db)
  unfolding control_locked
  control_locked-receipt fingerprint stored present there = rw (present, control_locked, there) refl

module _ (fx : Effects) (fingerprint : String) (rq : ControlRequest) (db others : Database)
    (r : Result ServiceError TraceReadModel × Database) (key : String)
    (keyed : rq.idempotency_key ≡ some key) (sound : IsSound db)
    (locked : find_trace others rq.trace_id ≡ find_trace db rq.trace_id)
    (a : Appends fx fingerprint rq db others r) where
  abbrev event : EventRow
  event = appended fx fingerprint rq db others r sound locked a

  -- Its key was not used on the trace before, or the insertion would have violated a constraint.
  new_key :
      any
        (λ (row : EventRow). (row.trace_id == rq.trace_id) && has_key key row.idempotency_key)
        others.events
      ≡ false
  unfolding control_event violates insert_rows add_control_event
  new_key =
      any-weaken
        (λ (row : EventRow). (row.trace_id == rq.trace_id) && has_key key row.idempotency_key)
        (λ (row : EventRow).
          (row.trace_id == rq.trace_id) && same_key row.idempotency_key rq.idempotency_key)
        others.events
        (λ row h. rw (keyed) (ground (arith, has_key-same_key key row.idempotency_key)))
        (any-has_duplicate
          (λ (b c : EventRow).
            (b.trace_id == c.trace_id) && same_key b.idempotency_key c.idempotency_key)
          others.events event (a.kept event_idempotency))

  receipt_found : find_control_receipt r.1 rq.trace_id key ≡ some event
  unfolding control_event find_control_receipt insert_rows add_control_event
  receipt_found = rw (a.inserted) (
      find-added
        (λ (row : EventRow). (row.trace_id == rq.trace_id) && has_key key row.idempotency_key)
        others.events event new_key
        (rw ((==_iff rq.trace_id rq.trace_id).1 refl, keyed) (eq_refl key)))

  selected :
      select
        (λ (row : EventRow). leb row.sequence_number event.sequence_number)
        (a.stored.events ++ event ∷ [])
      ≡ a.stored.events ++ event ∷ []
  selected =
      select-All (λ (row : EventRow). leb row.sequence_number event.sequence_number)
        (a.stored.events ++ event ∷ [])
        (All-append (λ (row : EventRow). leb row.sequence_number event.sequence_number ≡ true)
          a.stored.events (event ∷ [])
          (All-map a.stored.events
            (λ (row : EventRow) below.
              le→leb row.sequence_number event.sequence_number (omega arith))
            (control_event_above rq a.stored
              (replayable fx fingerprint rq db others r sound locked a) fx fingerprint a.planned))
          (le→leb event.sequence_number event.sequence_number (omega arith), tt))

  -- What the receipt stands for is the view that the call gave.
  replayed : lift (to_idempotency_result (with_event a.stored event) event) ≡ r.0
  unfolding to_idempotency_result to_trace_model
  replayed =
      ap (λ (es : List EventRow). lift (to_trace_model (with_event a.stored event) es)) selected
      ∙ sym a.shown

  fingerprint_kept : event.command_fingerprint ≡ some fingerprint
  unfolding control_event
  fingerprint_kept = rw (keyed) refl

  -- A later request with the key.
  pub control_locked-again :
      (engine : Engine) (sha256 : List ℕ → String) (fx' : Effects) (others' : Database → Database)
      (rq' : ControlRequest) (fingerprint' : String)
      → rq'.idempotency_key ≡ some key
      → rq'.trace_id ≡ rq.trace_id
      → control_locked engine sha256 fx' others' rq' fingerprint' (find_trace r.1 rq'.trace_id) r.1
        ≡ (
          if str_eq fingerprint fingerprint'
              then r.0
              else err (control_idempotency_conflict rq'.trace_id key),
          r.1,
        )
  control_locked-again engine sha256 fx' others' rq' fingerprint' keyed' same =
      ap
        (λ (found : Option StoredTrace).
          control_locked engine sha256 fx' others' rq' fingerprint' found r.1)
        (ap (find_trace r.1) same
          ∙ find_trace-appended fx fingerprint rq db others r sound locked a)
      ∙ control_locked-receipt engine sha256 fx' others' rq' key event r.1 fingerprint'
          (with_event a.stored event) (assert_present-some a.has_decision)
          (receipt_of-some engine sha256 fx' others' rq' key event r.1 keyed'
            (ap (λ (t : Uuid). find_control_receipt r.1 t key) same ∙ receipt_found))
      ∙ ap (λ (view : Result ServiceError TraceReadModel). (view, r.1))
          (answer_receipt-of rq' key fingerprint fingerprint' (with_event a.stored event) event r.0
            fingerprint_kept replayed)

-- A request with a key has appended its event, with the locked trace as it was. From then on, until
-- other calls write, every request to the trace with that key leaves the tables as they are: with the
-- same fingerprint it gets the very view that the first got, and with another it is refused as a
-- conflict, whatever the clock, the ids and the engine.
pub submit_control_again :
    (engine engine' : Engine) (sha256 : List ℕ → String) (fx fx' : Effects)
    (others others' : Database → Database) (rq rq' : ControlRequest) (db : Database) (key : String)
    → IsSound db
    → find_trace (others db) rq.trace_id ≡ find_trace db rq.trace_id
    → rq.idempotency_key ≡ some key
    → rq'.idempotency_key ≡ some key
    → rq'.trace_id ≡ rq.trace_id
    → Appends fx
        (fingerprint_of sha256 rq)
        rq
        db
        (others db)
        (submit_control engine sha256 fx others rq db)
    → submit_control engine' sha256 fx' others' rq' (submit_control engine sha256 fx others rq db).1
      ≡ (
        if str_eq (fingerprint_of sha256 rq) (fingerprint_of sha256 rq')
            then (submit_control engine sha256 fx others rq db).0
            else err (control_idempotency_conflict rq'.trace_id key),
        (submit_control engine sha256 fx others rq db).1,
      )
submit_control_again engine engine' sha256 fx fx' others others' rq rq' db key sound locked keyed
      keyed' same a =
    submit_control-locked engine' sha256 fx' others' rq'
      (submit_control engine sha256 fx others rq db).1
    ∙ control_locked-again fx (fingerprint_of sha256 rq) rq db (others db)
        (submit_control engine sha256 fx others rq db) key keyed sound locked a engine' sha256 fx'
        others' rq' (fingerprint_of sha256 rq') keyed' same
