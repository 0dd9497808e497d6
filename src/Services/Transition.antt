-- ===== src/Services/Transition.antt =====
-- app/modules/services/service.py, `transition`: the columns that a change of state sets, and the
-- whole handler. Times are in microseconds; `now` is `utcnow()`.
pub mod Timing
pub mod Effect
pub mod Outcome
use ulov_backend.Errors.{database_error}
use ulov_backend.Prelude.{ℕ, ◌+◌, ◌-◌, ◌/◌, Option, none, some, [], ◌∷◌, ◌++◌, not, ◌||◌}
use ulov_backend.Prelude.Tests.{ltb, or_else, if◌then◌else◌}
use ulov_backend.Prelude.Text.{Text, strip, truthy?, text_or_empty, nonempty}
use ulov_backend.Exec.{Exec, Result, pure, modify, ◌>>=◌, ◌>>◌, gets, raise_if}
use ulov_backend.Rbac.{CurrentUser, mechanic, has_role}
use ulov_backend.Db.{Db}
use ulov_backend.Db.Rows.{
  Service, ServiceTransition, AuditLog, Payload, of_status, Status, waiting, in_progress, paused,
  completed, cancelled,
}
use ulov_backend.Services.StateMachine.{validate, same_status}
use ulov_backend.Services.Repository as repo
use ulov_backend.Services.Access.{get_or_404, assert_can_mutate}

-- `int((now - since).total_seconds())`, where a negative value counts as 0: it is only added if
-- it is positive.
abbrev pub elapsed_s : ℕ → ℕ → ℕ
elapsed_s now since = (now - since) / 1000000

-- The pause that ends: `s` is the row as it was read, `r` the row that is written.
flush_pause : Service → ℕ → Service → Service
flush_pause s now r = elim (s.paused_at) [
  | none ↦ r
  | some since ↦
      let elapsed = elapsed_s now since in
      record r {
        paused_elapsed_s =
            if ltb 0 elapsed then s.paused_elapsed_s + elapsed else r.paused_elapsed_s;
        paused_at = none;
      }
]

-- `fields`, by the state that is entered.
unfoldable pub fields_of : Status → Service → Option Text → ℕ → Service → Service
unfolding flush_pause
fields_of in_progress s reason now r =
    if same_status s.status waiting
    then record r { status = in_progress; started_at = some (or_else s.started_at now) }
    else if same_status s.status paused
    then flush_pause s now (record r { status = in_progress })
    else record r { status = in_progress }
fields_of paused s reason now r = record r {
  status = paused;
  paused_at = some now;
  pause_reason = nonempty (strip (text_or_empty reason));
}
fields_of completed s reason now r =
    let t =
      if same_status s.status paused
      then flush_pause s now (record r { status = completed })
      else record r { status = completed } in
    record t { completed_at = some now }
fields_of cancelled s reason now r = record r {
  status = cancelled;
  cancelled_at = some now;
  cancel_reason = some (strip (text_or_empty reason));
}
fields_of waiting s reason now r = record r { status = waiting }

-- `audit_svc.record`. It swallows the error of a flush that the foreign key of the actor refuses,
-- but the session is unusable after it: the caller's next step on the session raises, and this is
-- that error.
unfoldable pub record_audit : CurrentUser → ℕ → Payload → Payload → Option Text → Exec Db (Unit {0})
record_audit u entity_id before after reason = do
  known ← gets (λ d. has_role u mechanic || repo.user_exists (some u.id) d)
  raise_if (not known) database_error
  let row : AuditLog = record {
    actor_user_id = if has_role u mechanic then none else some u.id;
    actor_role = u.role;
    entity_id = entity_id;
    before = before;
    after = after;
    meta = if truthy? reason then reason else none;
  }
  modify (λ d. record d { audit = d.audit ++ row ∷ [] })

-- `sm.validate` raises in the session.
abbrev pub check : Result (Unit {0}) → Exec Db (Unit {0})
check r d = (r, d)

-- The writes of `transition`, once it is allowed.
unfoldable pub apply_transition :
    Service → CurrentUser → Status → Option Text → ℕ → Exec Db (Service × ServiceTransition)
unfolding repo.update_fields repo.add_transition record_audit get_or_404
apply_transition s u to_status reason now = do
  repo.update_fields s.id (fields_of to_status s reason now)
  row ← repo.add_transition s.id (some s.status) to_status (some u.id) reason
  record_audit u s.id (of_status s.status) (of_status to_status) reason
  s' ← get_or_404 s.id
  pure (s', row)

unfoldable pub transition :
    ℕ → CurrentUser → Status → Option Text → ℕ → Exec Db (Service × ServiceTransition)
unfolding get_or_404
transition service_id u to_status reason now = do
  s ← get_or_404 service_id
  assert_can_mutate s u
  check (validate s.status to_status reason)
  apply_transition s u to_status reason now
