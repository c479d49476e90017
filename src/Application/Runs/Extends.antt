-- ===== src/Application/Runs/Extends.antt =====
-- What runs of the services of backend/app/application leave of the traces that are stored.
use organization_ai.Base.{
  String, List, [], ◌∷◌, ◌++◌, append-[], append_assoc, ◌≡◌, ◌==◌, ==_iff, inl, inr, refl, sym, ap,
  ◌∙◌, subst, none, some, Bool-cases,
}
use organization_ai.Base.Json.{Uuid}
use organization_ai.Base.Query.Absent.{find-any}
use organization_ai.Base.Result.{Result, ok, err}
use organization_ai.Domain.Models.{CaseSubmission, NormalizedCase, DecisionDraft}
use organization_ai.Persistence.Rows.{CaseRow, EventRow, Database, StoredTrace}
use organization_ai.Persistence.Repository.{
  find_case, find_trace, insert_rows, add_trace, add_control_event,
}
use organization_ai.Persistence.Appended.{find_trace-none}
use organization_ai.Persistence.Untouched.{find_trace-untouched}
use organization_ai.Persistence.Engine.{case_key, violates}
use organization_ai.Persistence.Engine.Keys.{IsConsistent, any-has_duplicate}
use organization_ai.Application.Views.{TraceReadModel, ServiceError}
use organization_ai.Application.Sound.{IsSound}
use organization_ai.Application.History.{Effects, case_row, trace_rows, submit_trace}
use organization_ai.Application.History.Atomic.{InsertsTrace, submit_trace-InsertsTrace}
use organization_ai.Application.History.Sound.{IsForeign-new}
use organization_ai.Application.ControlDeck.{ControlRequest, submit_control}
use organization_ai.Application.ControlDeck.Appended.{with_event}
use organization_ai.Application.ControlDeck.Atomic.{
  fingerprint_of, Appends, WritesOneEvent, submit_control-WritesOneEvent,
}
use organization_ai.Application.ControlDeck.Sound.{
  find_trace-appended, appended, of_trace, IsForeign-add_control_event,
}
use organization_ai.Application.Runs.{Runs, start, trace_call, control_call, IsKept, Runs-IsKept}

-- The snapshots are the same, and events were only added behind those there were.
pub record Extends (old now : StoredTrace) : Type 0 where
  pub case_row : now.case_row ≡ old.case_row
  pub decision : now.decision ≡ old.decision
  pub later : List EventRow
  pub events : now.events ≡ old.events ++ later

Extends-refl : (a : StoredTrace) → Extends a a
Extends-refl a = record {
  case_row = refl;
  decision = refl;
  later = [];
  events = sym (append-[] a.events);
}

Extends-trans : {a b c : StoredTrace} → Extends a b → Extends b c → Extends a c
Extends-trans {a} {b} {c} p q = record {
  case_row = q.case_row ∙ p.case_row;
  decision = q.decision ∙ p.decision;
  later = p.later ++ q.later;
  events =
      q.events
      ∙ ap (λ (l : List EventRow). l ++ q.later) p.events
      ∙ append_assoc a.events p.later q.later;
}

Extends-with_event : (a : StoredTrace) (e : EventRow) → Extends a (with_event a e)
Extends-with_event a e = record { case_row = refl; decision = refl; later = e ∷ []; events = refl }

-- The trace is found, and extends the old one.
abbrev pub KeepsTrace : Uuid → StoredTrace → Database → Type 0
KeepsTrace t old db = (now : StoredTrace) × (find_trace db t ≡ some now) × Extends old now

-- A new trace is stored under another id than all there are.
new_id-none :
    (fx : Effects) (s : CaseSubmission) (n : NormalizedCase) (d : DecisionDraft) (others : Database)
    → IsConsistent (insert_rows others (trace_rows fx s n d))
    → find_trace others (fx.new_id 0) ≡ none
unfolding violates insert_rows trace_rows add_trace case_row find_case
new_id-none fx s n d others kept = find_trace-none others (fx.new_id 0) (
    find-any (λ (row : CaseRow). row.trace_id == fx.new_id 0) others.cases
      (any-has_duplicate (λ (a b : CaseRow). a.trace_id == b.trace_id) others.cases
        (case_row fx s n) (kept case_key)))

KeepsTrace-InsertsTrace :
    (fx : Effects) (s : CaseSubmission) (db others : Database)
    (r : Result ServiceError TraceReadModel × Database) (t : Uuid) (old : StoredTrace)
    → KeepsTrace t old db
    → KeepsTrace t old others
    → InsertsTrace fx s db others r
    → KeepsTrace t old r.1
KeepsTrace-InsertsTrace fx s db others (ok view, tables) t old h (now, found, extends)
      (n, d, normal, decided, inserted, kept) =
    elim (Bool-cases (fx.new_id 0 == t)) [
      | inl same ↦
          let at : fx.new_id 0 ≡ t = (==_iff (fx.new_id 0) t).0 same in
          absurd (cc (new_id-none fx s n d others kept, found, at))
      | inr other ↦ (
        now,
        ap (λ (d : Database). find_trace d t) inserted
            ∙ find_trace-untouched others (trace_rows fx s n d) t (IsForeign-new fx s n d t other)
            ∙ found,
        extends,
      )
    ]
KeepsTrace-InsertsTrace fx s db others (err e, tables) t old h h' (inl same) =
    subst (KeepsTrace t old) (sym same) h
KeepsTrace-InsertsTrace fx s db others (err e, tables) t old h h' (inr same) =
    subst (KeepsTrace t old) (sym same) h'

module _ (fx : Effects) (fingerprint : String) (rq : ControlRequest) (db others : Database)
    (r : Result ServiceError TraceReadModel × Database) (t : Uuid) (old : StoredTrace)
    (sound : IsSound db) (locked : find_trace others rq.trace_id ≡ find_trace db rq.trace_id) where
  KeepsTrace-Appends :
      KeepsTrace t old db
      → KeepsTrace t old others
      → Appends fx fingerprint rq db others r
      → KeepsTrace t old r.1
  KeepsTrace-Appends (now, found, extends) (now', found', extends') a =
      let e = appended fx fingerprint rq db others r sound locked a in
      elim (Bool-cases (rq.trace_id == t)) [
        | inl same ↦
            let at : rq.trace_id ≡ t = (==_iff rq.trace_id t).0 same in
            let stored : now ≡ a.stored = cc (a.found, found, at) in
            (
              with_event a.stored e,
              cc (find_trace-appended fx fingerprint rq db others r sound locked a, at),
              Extends-trans (subst (Extends old) stored extends) (Extends-with_event a.stored e),
            )
        | inr other ↦ (
          now',
          ap (λ (d : Database). find_trace d t) a.inserted
              ∙ find_trace-untouched others (add_control_event e) t (
                  IsForeign-add_control_event e t
                    (rw (of_trace fx fingerprint rq db others r sound locked a) other))
              ∙ found',
          extends',
        )
      ]

  KeepsTrace-WritesOneEvent :
      KeepsTrace t old db
      → KeepsTrace t old others
      → WritesOneEvent fx fingerprint rq db others r
      → KeepsTrace t old r.1
  KeepsTrace-WritesOneEvent h h' (inl a) = KeepsTrace-Appends h h' a
  KeepsTrace-WritesOneEvent h h' (inr (inl same)) = subst (KeepsTrace t old) (sym same) h
  KeepsTrace-WritesOneEvent h h' (inr (inr same)) = subst (KeepsTrace t old) (sym same) h'

-- From what is kept up to one point to what is kept up to another.
KeepsTrace-then :
    (t : Uuid) (old : StoredTrace) (db later : Database)
    → KeepsTrace t old db
    → ((now : StoredTrace) → find_trace db t ≡ some now → KeepsTrace t now later)
    → KeepsTrace t old later
KeepsTrace-then t old db later (now, found, extends) next =
    let (after, found', extends') = next now found in
    (after, found', Extends-trans extends extends')

-- However calls follow each other and interleave, from tables that violate no constraint and of which
-- every trace can be replayed: a trace that is stored stays stored, with the snapshots that it has and
-- with all its events, behind which others may have been added. No call changes or removes a row of it.
pub Runs-KeepsTrace :
    {first last : Database} (t : Uuid) (old : StoredTrace)
    → Runs first last
    → IsKept first
    → find_trace first t ≡ some old
    → KeepsTrace t old last
Runs-KeepsTrace t old (start db) kept found = (old, found, Extends-refl old)
Runs-KeepsTrace t old (trace_call {db = db} engine fx others s before meanwhile) kept found =
    let at_db = Runs-KeepsTrace t old before kept found in
    let kept_db = Runs-IsKept before kept in
    KeepsTrace-InsertsTrace fx s db (others db) (submit_trace engine fx others s db) t old at_db
      (KeepsTrace-then t old db (others db) at_db
        (λ now there. Runs-KeepsTrace t now meanwhile kept_db there))
      (submit_trace-InsertsTrace engine fx others s db)
Runs-KeepsTrace t old (control_call {db = db} engine sha256 fx others rq before meanwhile locked)
      kept found =
    let at_db = Runs-KeepsTrace t old before kept found in
    let kept_db = Runs-IsKept before kept in
    KeepsTrace-WritesOneEvent fx (fingerprint_of sha256 rq) rq db (others db)
      (submit_control engine sha256 fx others rq db) t old kept_db.1 locked at_db
      (KeepsTrace-then t old db (others db) at_db
        (λ now there. Runs-KeepsTrace t now meanwhile kept_db there))
      (submit_control-WritesOneEvent engine sha256 fx others rq db)
