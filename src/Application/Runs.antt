-- ===== src/Application/Runs.antt =====
-- Runs of backend/app/application: any number of calls of `submit_trace` and `submit_control`, one
-- after another or interleaved.
pub mod Chained
pub mod Extends
use organization_ai.Base.{
  ℕ, String, List, [], ◌≡◌, ◌⊎◌, inl, inr, refl, sym, subst, Option, none, some,
}
use organization_ai.Base.Json.{Uuid}
use organization_ai.Base.Result.{Result, ok, err}
use organization_ai.Domain.Models.{CaseSubmission}
use organization_ai.Persistence.Rows.{Database, StoredTrace}
use organization_ai.Persistence.Repository.{find_trace}
use organization_ai.Persistence.Engine.{Engine}
use organization_ai.Persistence.Engine.Keys.{IsConsistent}
use organization_ai.Application.Views.{TraceReadModel, ServiceError}
use organization_ai.Application.Sound.{IsSound}
use organization_ai.Application.History.{Effects, submit_trace}
use organization_ai.Application.History.Atomic.{InsertsTrace, submit_trace-InsertsTrace}
use organization_ai.Application.History.Sound.{submit_trace-IsSound}
use organization_ai.Application.ControlDeck.{ControlRequest, submit_control}
use organization_ai.Application.ControlDeck.Atomic.{
  fingerprint_of, WritesOneEvent, submit_control-WritesOneEvent,
}
use organization_ai.Application.ControlDeck.Sound.{submit_control-IsSound}

-- What calls make of the tables. While a call is between its first query and its flush, other calls
-- may run to their end; a control holds the lock of its trace, so they leave that trace as it is.
pub data Runs : Database → Database → Type 0 where
  start : (db : Database) → Runs db db
  trace_call :
      {first db : Database} (engine : Engine) (fx : Effects) (others : Database → Database)
      (s : CaseSubmission)
      → Runs first db
      → Runs db (others db)
      → Runs first (submit_trace engine fx others s db).1
  control_call :
      {first db : Database} (engine : Engine) (sha256 : List ℕ → String) (fx : Effects)
      (others : Database → Database) (rq : ControlRequest)
      → Runs first db
      → Runs db (others db)
      → find_trace (others db) rq.trace_id ≡ find_trace db rq.trace_id
      → Runs first (submit_control engine sha256 fx others rq db).1

IsConsistent-InsertsTrace :
    (fx : Effects) (s : CaseSubmission) (db others : Database)
    (r : Result ServiceError TraceReadModel × Database)
    → IsConsistent db
    → IsConsistent others
    → InsertsTrace fx s db others r
    → IsConsistent r.1
IsConsistent-InsertsTrace fx s db others (ok view, tables) h h'
      (n, d, normal, decided, inserted, kept) =
    subst IsConsistent (sym inserted) kept
IsConsistent-InsertsTrace fx s db others (err e, tables) h h' (inl same) =
    subst IsConsistent (sym same) h
IsConsistent-InsertsTrace fx s db others (err e, tables) h h' (inr same) =
    subst IsConsistent (sym same) h'

IsConsistent-WritesOneEvent :
    (fx : Effects) (fingerprint : String) (rq : ControlRequest) (db others : Database)
    (r : Result ServiceError TraceReadModel × Database)
    → IsConsistent db
    → IsConsistent others
    → WritesOneEvent fx fingerprint rq db others r
    → IsConsistent r.1
IsConsistent-WritesOneEvent fx fingerprint rq db others r h h' (inl a) =
    subst IsConsistent (sym a.inserted) a.kept
IsConsistent-WritesOneEvent fx fingerprint rq db others r h h' (inr (inl same)) =
    subst IsConsistent (sym same) h
IsConsistent-WritesOneEvent fx fingerprint rq db others r h h' (inr (inr same)) =
    subst IsConsistent (sym same) h'

-- Tables that violate no constraint, and of which every trace can be replayed.
abbrev pub IsKept : Database → Type 0
IsKept db = IsConsistent db × IsSound db

-- However calls follow each other and interleave: from tables that violate no constraint and of which
-- every trace can be replayed, they lead to such tables again.
pub Runs-IsKept : {first last : Database} → Runs first last → IsKept first → IsKept last
Runs-IsKept (start db) kept = kept
Runs-IsKept (trace_call {db = db} engine fx others s before meanwhile) kept =
    let (consistent, sound) = Runs-IsKept before kept in
    let (consistent', sound') = Runs-IsKept meanwhile (consistent, sound) in
    (
      IsConsistent-InsertsTrace fx s db (others db) (submit_trace engine fx others s db) consistent
          consistent' (submit_trace-InsertsTrace engine fx others s db),
      submit_trace-IsSound engine fx others s db sound sound' consistent',
    )
Runs-IsKept (control_call {db = db} engine sha256 fx others rq before meanwhile locked) kept =
    let (consistent, sound) = Runs-IsKept before kept in
    let (consistent', sound') = Runs-IsKept meanwhile (consistent, sound) in
    (
      IsConsistent-WritesOneEvent fx (fingerprint_of sha256 rq) rq db (others db)
          (submit_control engine sha256 fx others rq db) consistent consistent'
          (submit_control-WritesOneEvent engine sha256 fx others rq db),
      submit_control-IsSound engine sha256 fx others rq db sound sound' locked,
    )
