-- ===== src/Services/StateMachine/Graph.antt =====
-- The diagram of app/modules/services/state_machine.py as a relation, and its paths.
use ulov_backend.Prelude.{true, ◌≡◌, refl, ◌↔◌, Option, arith}
use ulov_backend.Prelude.Text.{Text}
use ulov_backend.Exec.{ok}
use ulov_backend.Db.Rows.{Status, waiting, in_progress, paused, completed, cancelled}
use ulov_backend.Services.StateMachine.{has_reason, validate}

-- The arrows of the diagram.
infix 40 ◌⟶◌ ◌⟶*◌
pub data ◌⟶◌ : Status → Status → Type 0 where
  begin_work : waiting ⟶ in_progress
  drop_waiting : waiting ⟶ cancelled
  pause : in_progress ⟶ paused
  complete : in_progress ⟶ completed
  drop_running : in_progress ⟶ cancelled
  resume : paused ⟶ in_progress
  complete_paused : paused ⟶ completed
  drop_paused : paused ⟶ cancelled

pub data ◌⟶*◌ (s : Status) : Status → Type 0 where
  here : s ⟶* s
  next : {t u : Status} → s ⟶* t → t ⟶ u → s ⟶* u

pub ruleset arrows =
    (begin_work, drop_waiting, pause, complete, drop_running, resume, complete_paused, drop_paused)

-- An arrow with the reason that it asks for.
abbrev pub Permitted : Status → Status → Option Text → Type 0
Permitted from to reason = (from ⟶ to) × (to ≡ cancelled → has_reason reason ≡ true)

validate-Permitted :
    (from to : Status) (reason : Option Text)
    → validate from to reason ≡ ok tt
    → Permitted from to reason
unfolding validate
validate-Permitted from to reason h = grind (arith, arrows)

Permitted-validate :
    {from to : Status} (reason : Option Text)
    → (from ⟶ to)
    → (to ≡ cancelled → has_reason reason ≡ true)
    → validate from to reason ≡ ok tt
unfolding validate
Permitted-validate reason begin_work h = ground arith
Permitted-validate reason drop_waiting h = ground (arith, h refl)
Permitted-validate reason pause h = ground arith
Permitted-validate reason complete h = ground arith
Permitted-validate reason drop_running h = ground (arith, h refl)
Permitted-validate reason resume h = ground arith
Permitted-validate reason complete_paused h = ground arith
Permitted-validate reason drop_paused h = ground (arith, h refl)

-- A transition passes the check exactly when it is an arrow of the diagram and, if it cancels,
-- has a reason that is more than blanks.
pub validate_iff :
    (from to : Status) (reason : Option Text)
    → (validate from to reason ≡ ok tt) ↔ Permitted from to reason
validate_iff from to reason =
    (validate-Permitted from to reason, λ p. Permitted-validate reason p.0 p.1)
