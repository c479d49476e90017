-- ===== src/Examples/Runs.antt =====
-- Runs of the services: a case is submitted, and then paused.
use organization_ai.Base.{refl}
use organization_ai.Persistence.Rows.{Database}
use organization_ai.Persistence.Repository.{find_trace}
use organization_ai.Persistence.Engine.Checked.{checked_engine}
use organization_ai.Application.History.{submit_trace}
use organization_ai.Application.ControlDeck.{submit_control}
use organization_ai.Application.Runs.{start, trace_call, control_call, IsKept, Runs-IsKept}
use organization_ai.Application.Chain.{HasChains}
use organization_ai.Application.Runs.Chained.{Runs-HasChains}
use organization_ai.Application.Runs.Extends.{KeepsTrace, Runs-KeepsTrace}
use organization_ai.Examples.Services.{
  effects, alone, submission, empty, empty-IsConsistent, empty-IsSound, stored, stored_once,
  stored_once-IsConsistent, stored_once-IsSound, stored_found,
}
use organization_ai.Examples.Controls.{digest, hold}

abbrev after_submit : Database
after_submit = (submit_trace checked_engine (effects 100) alone submission empty).1

Runs-IsKept_example :
    IsKept (submit_control checked_engine digest (effects 200) alone hold after_submit).1
Runs-IsKept_example =
    Runs-IsKept
      (control_call checked_engine digest (effects 200) alone hold
        (trace_call checked_engine (effects 100) alone submission (start empty) (start empty))
        (start after_submit) refl)
      (empty-IsConsistent, empty-IsSound)

empty-HasChains : HasChains empty
unfolding find_trace
empty-HasChains t stored found = absurd (cc)

Runs-HasChains_example :
    HasChains (submit_control checked_engine digest (effects 200) alone hold after_submit).1
Runs-HasChains_example =
    Runs-HasChains
      (control_call checked_engine digest (effects 200) alone hold
        (trace_call checked_engine (effects 100) alone submission (start empty) (start empty))
        (start after_submit) refl)
      (empty-IsConsistent, empty-IsSound) empty-HasChains

Runs-KeepsTrace_example :
    KeepsTrace 100 stored
      (submit_control checked_engine digest (effects 200) alone hold stored_once).1
Runs-KeepsTrace_example =
    Runs-KeepsTrace 100 stored
      (control_call checked_engine digest (effects 200) alone hold (start stored_once)
        (start stored_once) refl)
      (stored_once-IsConsistent, stored_once-IsSound) stored_found
