-- ===== src/Domain/Control/Order.antt =====
-- The reducer of backend/app/domain/control.py does not depend on the order in which a query gives the
-- events.
use mathlib.Core.List.{Permᴰ}
use organization_ai.Base.{List, ◌≡◌, ap}
use organization_ai.Base.Sort.Order.{IsDistinct, sort_by-Permᴰ}
use organization_ai.Domain.Enums.{DecisionOutcome}
use organization_ai.Domain.Control.Vocabulary.{StoredAuditEvent}
use organization_ai.Domain.Control.Reduce.{initial_projection, reduce_events, reduce_control_state}
use organization_ai.Domain.Control.History.{sequence}

-- Events with distinct sequence numbers replay to the same projection, or to the same error, in
-- whatever order they are passed.
pub reduce_control_state-Permᴰ :
    (o : DecisionOutcome) {es es' : List StoredAuditEvent}
    → Permᴰ es es'
    → IsDistinct sequence es
    → reduce_control_state o es ≡ reduce_control_state o es'
unfolding reduce_control_state
reduce_control_state-Permᴰ o p distinct =
    ap (reduce_events (initial_projection o)) (sort_by-Permᴰ sequence p distinct)
