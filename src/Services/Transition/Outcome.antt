-- ===== src/Services/Transition/Outcome.antt =====
-- Which result a call of `transition` gives.
use ulov_backend.Prelude.{ℕ, ◌≡◌, refl, ◌∙◌, true, false, Option, some, arith}
use ulov_backend.Prelude.Tests.{◌==◌, ==_refl}
use ulov_backend.Prelude.Text.{Text}
use ulov_backend.Prelude.Lists.{find_row, update_rows, find_row-test, find_row-update_rows}
use ulov_backend.Errors.{database_error}
use ulov_backend.Exec.{ok, err}
use ulov_backend.Rbac.{CurrentUser}
use ulov_backend.Db.{Db}
use ulov_backend.Db.Rows.{Service, Status, waiting, in_progress}
use ulov_backend.Services.StateMachine.{validate}
use ulov_backend.Services.Repository.{is_live, user_exists}
use ulov_backend.Services.Access.{assert_can_mutate}
use ulov_backend.Services.Access.Rules.{assert_can_mutate-state}
use ulov_backend.Services.Transition.{fields_of, apply_transition, transition}
use ulov_backend.Services.Transition.Effect.{log_row}

-- A transition leaves the columns by which a service is found.
pub fields_of-id :
    (to : Status) (s : Service) (reason : Option Text) (now : ℕ) (r : Service)
    → (fields_of to s reason now r).id ≡ r.id
unfolding fields_of
fields_of-id waiting s reason now r = refl
fields_of-id in_progress s reason now r = ground arith
fields_of-id _ s reason now r = ground arith

fields_of-deleted_at :
    (to : Status) (s : Service) (reason : Option Text) (now : ℕ) (r : Service)
    → (fields_of to s reason now r).deleted_at ≡ r.deleted_at
unfolding fields_of
fields_of-deleted_at waiting s reason now r = refl
fields_of-deleted_at in_progress s reason now r = ground arith
fields_of-deleted_at _ s reason now r = ground arith

fields_of-is_live :
    (i : ℕ) (to : Status) (s : Service) (reason : Option Text) (now : ℕ) (r : Service)
    → is_live i (fields_of to s reason now r) ≡ is_live i r
fields_of-is_live i to s reason now r =
    rw (fields_of-id to s reason now r, fields_of-deleted_at to s reason now r)

module _ (service_id : ℕ) (u : CurrentUser) (to : Status) (reason : Option Text) (now : ℕ) (d : Db)
    (s : Service) (found : find_row (is_live service_id) d.services ≡ some s) where
  found_id : s.id ≡ service_id
  found_id = ground (arith, find_row-test (is_live service_id) d.services found)

  -- The row that is read again is the row that was read, with its columns set.
  pub reread :
      find_row
        (is_live s.id)
        (update_rows (λ x. x.id == s.id) (fields_of to s reason now) d.services)
      ≡ some (fields_of to s reason now s)
  reread =
      find_row-update_rows (is_live s.id) (λ x. x.id == s.id) (fields_of to s reason now)
        (λ x _. fields_of-is_live s.id to s reason now x) d.services
      ∙ rw (found_id, found) (rw (found_id, ==_refl service_id))

  apply_transition_ok :
      user_exists (some u.id) d ≡ true
      → (apply_transition s u to reason now d).0
        ≡ ok (fields_of to s reason now s, log_row s u to reason d)
  unfolding apply_transition
  apply_transition_ok known = ground (arith, reread)

  module _ (permitted : (assert_can_mutate s u d).0 ≡ ok tt)
      (checked : validate s.status to reason ≡ ok tt) where
    -- A user who has access to the live service with an id, and a row in `users`, and who asks for
    -- a change of state that passes the check, gets it: the answer is the row that was read with
    -- the columns of the new state, and the new row of the log.
    pub transition_ok :
        user_exists (some u.id) d ≡ true
        → (transition service_id u to reason now d).0
          ≡ ok (fields_of to s reason now s, log_row s u to reason d)
    unfolding transition
    transition_ok known =
        ground (arith, found, assert_can_mutate-state d s u, apply_transition_ok known)

    -- A user who has access to the service but no row in `users` gets an integrity error for every
    -- change of state that passes the check.
    pub transition-unknown_user :
        user_exists (some u.id) d ≡ false
        → (transition service_id u to reason now d).0 ≡ err database_error
    unfolding transition apply_transition
    transition-unknown_user unknown = ground (arith, found, assert_can_mutate-state d s u)
