-- ===== src/Application/Chain.antt =====
-- The chain of a trace's events in backend/app/application: the numbers that `_build_events` and
-- `submit_control` give them, and the event that each one points back to.
use organization_ai.Base.{
  ℕ, suc, ◌+◌, ◌≡◌, refl, Option, none, some, List, [], ◌∷◌, ◌++◌, length, get_last?, arith, String,
}
use organization_ai.Base.Json.{Uuid}
use organization_ai.Base.Query.{max_by}
use organization_ai.Base.Sort.{sort_by-IsAscending}
use organization_ai.Domain.Models.{CaseSubmission, DecisionDraft}
use organization_ai.Domain.Control.Vocabulary.{PlannedControlEvent}
use organization_ai.Persistence.Rows.{EventRow, StoredTrace, Database}
use organization_ai.Persistence.Repository.{find_trace}
use organization_ai.Application.Views.{row_sequence}
use organization_ai.Application.Sound.{IsReplayable, IsReplayable-IsAscending}
use organization_ai.Application.History.{Effects, build_events}
use organization_ai.Application.History.Stored.{new_events}
use organization_ai.Application.ControlDeck.{ControlRequest, control_event, last_id}

-- The events are numbered from `n` on without a gap, and each points back to the event before it,
-- the first to `previous`.
abbrev pub IsChainedFrom : ℕ → Option Uuid → List EventRow → Type 0
IsChainedFrom n previous [] = Unit
IsChainedFrom n previous (e ∷ es) =
    (e.sequence_number ≡ n)
    × (e.previous_event_id ≡ previous)
    × IsChainedFrom (suc n) (some e.event_id) es

-- The chain of a whole trace starts with number one, and its first event points back to none.
abbrev pub IsChained : List EventRow → Type 0
IsChained es = IsChainedFrom 1 none es

abbrev pub HasChains : Database → Type 0
HasChains db =
    (t : Uuid) (stored : StoredTrace) → find_trace db t ≡ some stored → IsChained stored.events

-- The highest number of a chain.
max_by-chain :
    (n : ℕ) (previous : Option Uuid) (e : EventRow) (es : List EventRow)
    → IsChainedFrom (suc n) previous (e ∷ es)
    → max_by row_sequence (e ∷ es) ≡ n + length (e ∷ es)
unfolding max_by
max_by-chain n previous e [] h = ground arith
max_by-chain n previous e (f ∷ es) h =
    ground (arith, max_by-chain (suc n) (some e.event_id) f es h.2)

IsChainedFrom-snoc :
    (n : ℕ) (previous : Option Uuid) (x : EventRow) (es : List EventRow) (e : EventRow)
    → IsChainedFrom n previous (x ∷ es)
    → e.sequence_number ≡ n + length (x ∷ es)
    → e.previous_event_id ≡ last_id (get_last? (x ∷ es))
    → IsChainedFrom n previous (x ∷ es ++ e ∷ [])
IsChainedFrom-snoc n previous x [] e h number back = (h.0, h.1, (omega arith, back, tt))
IsChainedFrom-snoc n previous x (y ∷ es) e h number back =
    (h.0, h.1, IsChainedFrom-snoc (suc n) (some x.event_id) y es e h.2 (omega arith) back)

IsChained-snoc :
    (es : List EventRow) (e : EventRow)
    → IsChained es
    → e.sequence_number ≡ max_by row_sequence es + 1
    → e.previous_event_id ≡ last_id (get_last? es)
    → IsChained (es ++ e ∷ [])
unfolding max_by
IsChained-snoc [] e h number back = (number, back, tt)
IsChained-snoc (x ∷ es) e h number back =
    let highest = max_by-chain 0 none x es h in
    IsChainedFrom-snoc 1 none x es e h (omega arith) back

-- A new trace has a chain of three events.
pub new_events-IsChained :
    (fx : Effects) (s : CaseSubmission) (d : DecisionDraft) → IsChained (new_events fx s d)
unfolding build_events
new_events-IsChained fx s d = (refl, refl, (refl, refl, (refl, refl, tt)))

-- The event of a control continues the chain.
pub control_event-IsChained :
    (fx : Effects) (rq : ControlRequest) (fingerprint : String) (stored : StoredTrace)
    (planned : PlannedControlEvent)
    → IsReplayable stored
    → IsChained stored.events
    → IsChained (stored.events ++ control_event fx rq fingerprint stored planned ∷ [])
unfolding control_event
control_event-IsChained fx rq fingerprint stored planned r h =
    let sorted = sort_by-IsAscending row_sequence stored.events (IsReplayable-IsAscending r) in
    IsChained-snoc stored.events (control_event fx rq fingerprint stored planned) h
      (rw (sorted) refl) (rw (sorted) refl)
