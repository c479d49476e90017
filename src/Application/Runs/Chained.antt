-- ===== src/Application/Runs/Chained.antt =====
-- The chains of the traces that runs of the services of backend/app/application store.
use organization_ai.Base.{
  String, some, ◌≡◌, ◌==◌, ==_iff, inl, inr, sym, ap, ◌∙◌, subst, Bool-cases,
}
use organization_ai.Base.Json.{Uuid}
use organization_ai.Base.Result.{Result, ok, err}
use organization_ai.Domain.Models.{CaseSubmission}
use organization_ai.Persistence.Rows.{Database, StoredTrace}
use organization_ai.Persistence.Repository.{insert_rows, find_trace, add_control_event}
use organization_ai.Persistence.Untouched.{find_trace-untouched}
use organization_ai.Persistence.Engine.Keys.{IsConsistent}
use organization_ai.Application.Views.{TraceReadModel, ServiceError}
use organization_ai.Application.Sound.{IsSound}
use organization_ai.Application.Chain.{
  IsChained, HasChains, new_events-IsChained, control_event-IsChained,
}
use organization_ai.Application.History.{Effects, trace_rows, submit_trace}
use organization_ai.Application.History.Atomic.{InsertsTrace, submit_trace-InsertsTrace}
use organization_ai.Application.History.Stored.{find_trace-new}
use organization_ai.Application.History.Sound.{IsForeign-new}
use organization_ai.Application.ControlDeck.{ControlRequest, submit_control}
use organization_ai.Application.ControlDeck.Appended.{with_event}
use organization_ai.Application.ControlDeck.Atomic.{
  fingerprint_of, Appends, WritesOneEvent, submit_control-WritesOneEvent,
}
use organization_ai.Application.ControlDeck.Sound.{
  find_trace-appended, appended, of_trace, replayable, IsForeign-add_control_event,
}
use organization_ai.Application.Runs.{Runs, start, trace_call, control_call, IsKept, Runs-IsKept}

-- The trace that is found is the one whose chain is known.
found_chain :
    (db : Database) (t : Uuid) (known stored : StoredTrace)
    → find_trace db t ≡ some known
    → IsChained known.events
    → find_trace db t ≡ some stored
    → IsChained stored.events
found_chain db t known stored there chain found =
    let same : known ≡ stored = cc in subst (λ (a : StoredTrace). IsChained a.events) same chain

HasChains-InsertsTrace :
    (fx : Effects) (s : CaseSubmission) (db others : Database)
    (r : Result ServiceError TraceReadModel × Database)
    → HasChains db
    → HasChains others
    → IsConsistent others
    → InsertsTrace fx s db others r
    → HasChains r.1
HasChains-InsertsTrace fx s db others (ok view, tables) chains chains' consistent
      (n, d, normal, decided, inserted, kept) =
    λ t stored found. elim (Bool-cases (fx.new_id 0 == t)) [
      | inl same ↦
          let at : fx.new_id 0 ≡ t = (==_iff (fx.new_id 0) t).0 same in
          found_chain tables t _ stored
            (ap (λ (d : Database). find_trace d t) inserted
              ∙ ap (find_trace (insert_rows others (trace_rows fx s n d))) (sym at)
              ∙ find_trace-new fx s n d others consistent kept)
            (new_events-IsChained fx s d) found
      | inr other ↦ chains' t stored (
          sym (find_trace-untouched others _ t (IsForeign-new fx s n d t other))
          ∙ ap (λ (d : Database). find_trace d t) (sym inserted)
          ∙ found)
    ]
HasChains-InsertsTrace fx s db others (err e, tables) chains chains' consistent (inl same) =
    subst HasChains (sym same) chains
HasChains-InsertsTrace fx s db others (err e, tables) chains chains' consistent (inr same) =
    subst HasChains (sym same) chains'

module _ (fx : Effects) (fingerprint : String) (rq : ControlRequest) (db others : Database)
    (r : Result ServiceError TraceReadModel × Database) (sound : IsSound db)
    (locked : find_trace others rq.trace_id ≡ find_trace db rq.trace_id) (chains : HasChains db)
    (chains' : HasChains others) where
  HasChains-Appends : Appends fx fingerprint rq db others r → HasChains r.1
  HasChains-Appends a t stored found =
      let e = appended fx fingerprint rq db others r sound locked a in
      elim (Bool-cases (rq.trace_id == t)) [
        | inl same ↦
            let at : rq.trace_id ≡ t = (==_iff rq.trace_id t).0 same in
            found_chain r.1 t (with_event a.stored e) stored
              (rw (← at) (find_trace-appended fx fingerprint rq db others r sound locked a))
              (control_event-IsChained fx rq fingerprint a.stored a.planned
                (replayable fx fingerprint rq db others r sound locked a)
                (chains rq.trace_id a.stored a.found))
              found
        | inr other ↦ chains' t stored (
            sym (
              ap (λ (tables : Database). find_trace tables t) a.inserted
              ∙ find_trace-untouched others (add_control_event e) t (
                  IsForeign-add_control_event e t
                    (rw (of_trace fx fingerprint rq db others r sound locked a) other)))
            ∙ found)
      ]

  HasChains-WritesOneEvent : WritesOneEvent fx fingerprint rq db others r → HasChains r.1
  HasChains-WritesOneEvent (inl a) = HasChains-Appends a
  HasChains-WritesOneEvent (inr (inl same)) = subst HasChains (sym same) chains
  HasChains-WritesOneEvent (inr (inr same)) = subst HasChains (sym same) chains'

-- However calls follow each other and interleave, from tables that violate no constraint, of which
-- every trace can be replayed, and where the events of every trace are numbered from one on without a
-- gap and each points back to the event before it, the first to none: the events of every trace are
-- again numbered and linked so.
pub Runs-HasChains :
    {first last : Database} → Runs first last → IsKept first → HasChains first → HasChains last
Runs-HasChains (start db) kept chains = chains
Runs-HasChains (trace_call {db = db} engine fx others s before meanwhile) kept chains =
    let kept_db = Runs-IsKept before kept in
    let chains_db = Runs-HasChains before kept chains in
    HasChains-InsertsTrace fx s db (others db) (submit_trace engine fx others s db) chains_db
      (Runs-HasChains meanwhile kept_db chains_db) (Runs-IsKept meanwhile kept_db).0
      (submit_trace-InsertsTrace engine fx others s db)
Runs-HasChains (control_call {db = db} engine sha256 fx others rq before meanwhile locked) kept
      chains =
    let kept_db = Runs-IsKept before kept in
    let chains_db = Runs-HasChains before kept chains in
    HasChains-WritesOneEvent fx (fingerprint_of sha256 rq) rq db (others db)
      (submit_control engine sha256 fx others rq db) kept_db.1 locked chains_db
      (Runs-HasChains meanwhile kept_db chains_db)
      (submit_control-WritesOneEvent engine sha256 fx others rq db)
