-- ===== src/Services/Transition/Timing.antt =====
-- What the times of a service say about its state, and that each change of state keeps it.
use ulov_backend.Prelude.{ℕ, ◌+◌, ◌-◌, ◌/◌, ◌≡◌, ◌≢◌, ◌⊎◌, true, none, some, Option, arith}
use ulov_backend.Prelude.Text.{Text, truthy?}
use ulov_backend.Exec.{ok}
use ulov_backend.Db.Rows.{Service, Status, waiting, in_progress, paused, completed, cancelled}
use ulov_backend.Services.StateMachine.{validate, has_reason}
use ulov_backend.Services.Transition.{fields_of}

-- A service that waits has no times; one that runs has begun and has no open pause; a paused one
-- has one; a completed one has an end and no open pause; a cancelled one has an end and a reason.
pub record IsTimed (s : Service) : Type 0 where
  pub waiting_fresh :
      s.status ≡ waiting → (s.started_at ≡ none) × (s.paused_at ≡ none) × (s.paused_elapsed_s ≡ 0)
  pub running : s.status ≡ in_progress → (s.started_at ≢ none) × (s.paused_at ≡ none)
  pub pausing : s.status ≡ paused → (s.started_at ≢ none) × (s.paused_at ≢ none)
  pub ended :
      s.status ≡ completed → (s.started_at ≢ none) × (s.paused_at ≡ none) × (s.completed_at ≢ none)
  pub dropped : s.status ≡ cancelled → (s.cancelled_at ≢ none) × (truthy? s.cancel_reason ≡ true)

-- A change of state that passes the check keeps the times of a service in order: if they fit the
-- state of the row that was read, those of the written row fit the new state.
pub fields_of-IsTimed :
    (s : Service) (to : Status) (reason : Option Text) (now : ℕ)
    → IsTimed s
    → validate s.status to reason ≡ ok tt
    → IsTimed (fields_of to s reason now s)
unfolding fields_of validate has_reason
fields_of-IsTimed s waiting reason now t v = ground arith
fields_of-IsTimed s in_progress reason now t v = ground arith
fields_of-IsTimed s paused reason now t v = ground arith
fields_of-IsTimed s completed reason now t v = ground arith
fields_of-IsTimed s cancelled reason now t v = ground arith

-- The pause of a paused service, which began at `since`, adds its whole seconds to the paused time
-- when the work goes on or is completed, and is closed; a clock that went back adds nothing.
pub fields_of-pause :
    (s : Service) (to : Status) (reason : Option Text) (now since : ℕ)
    → s.status ≡ paused
    → s.paused_at ≡ some since
    → (to ≡ in_progress) ⊎ (to ≡ completed)
    → let r = fields_of to s reason now s in
      (r.paused_elapsed_s ≡ s.paused_elapsed_s + (now - since) / 1000000) × (r.paused_at ≡ none)
unfolding fields_of
fields_of-pause s in_progress reason now since p q h = ground arith
fields_of-pause s completed reason now since p q h = ground arith
fields_of-pause s waiting reason now since p q h = ground arith
fields_of-pause s paused reason now since p q h = ground arith
fields_of-pause s cancelled reason now since p q h = ground arith
