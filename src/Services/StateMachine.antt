-- ===== src/Services/StateMachine.antt =====
-- app/modules/services/state_machine.py: the states of a service and the check of a transition.
pub mod Graph
use ulov_backend.Prelude.{Bool, true, false, ◌&&◌, ◌||◌, not, Option, List, [], ◌∷◌}
use ulov_backend.Prelude.Tests.{if◌then◌else◌}
use ulov_backend.Prelude.Text.{Text, strip, truthy, truthy?, text_or_empty}
use ulov_backend.Errors.{
  service_state_terminal, service_state_invalid, service_cancel_reason_required,
}
use ulov_backend.Exec.{Result, ok, err}
use ulov_backend.Db.Rows.{Status, waiting, in_progress, paused, completed, cancelled}

abbrev pub same_status : Status → Status → Bool
same_status waiting waiting = true
same_status in_progress in_progress = true
same_status paused paused = true
same_status completed completed = true
same_status cancelled cancelled = true
same_status _ _ = false

abbrev pub mem_status : Status → List Status → Bool
mem_status s [] = false
mem_status s (t ∷ ts) = same_status s t || mem_status s ts

-- `TERMINAL`
abbrev pub terminal : List Status
terminal = completed ∷ cancelled ∷ []

-- `ALLOWED`
abbrev pub allowed : Status → List Status
allowed waiting = in_progress ∷ cancelled ∷ []
allowed in_progress = paused ∷ completed ∷ cancelled ∷ []
allowed paused = in_progress ∷ completed ∷ cancelled ∷ []
allowed completed = []
allowed cancelled = []

-- `reason and reason.strip()`
unfoldable pub has_reason : Option Text → Bool
has_reason reason = truthy? reason && truthy (strip (text_or_empty reason))

unfoldable pub validate : Status → Status → Option Text → Result (Unit {0})
validate from to reason =
    if mem_status from terminal
    then err service_state_terminal
    else if not (mem_status to (allowed from))
    then err service_state_invalid
    else if same_status to cancelled && not (has_reason reason)
    then err service_cancel_reason_required
    else ok tt
