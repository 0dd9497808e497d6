-- ===== src/Realtime/Moves.antt =====
-- The endpoint that moves a service: its answer, the inbox and the events.
use ulov_backend.Realtime.Staff.{told, publications-told}
use ulov_backend.Prelude.{
  ℕ, suc, ◌≡◌, refl, sym, ap, ◌∙◌, true, Option, none, some, List, [], ◌∷◌, ◌++◌, arith,
}
use mathlib.Core.Path.{subst}
use ulov_backend.Prelude.Tests.{◌==◌, if◌then◌else◌}
use ulov_backend.Prelude.Text.{Text, truthy?}
use ulov_backend.Prelude.Lists.{find_row, update_rows, select_rows}
use ulov_backend.Exec.{ok}
use ulov_backend.Rbac.{CurrentUser, mechanic, has_role, get_current_staff}
use ulov_backend.Db.{Db}
use ulov_backend.Db.Rows.{
  Service, Car, moved_service, AuditLog, of_status, Status, waiting, in_progress, paused, completed,
  cancelled,
}
use ulov_backend.Cars.Repository as cars_repo
use ulov_backend.Services.StateMachine.{validate}
use ulov_backend.Services.Repository.{is_live, user_exists}
use ulov_backend.Services.Repository as services_repo
use ulov_backend.Services.Access.{assert_view_access, get_or_404, get_for_user, list_items}
use ulov_backend.Services.Access.Rules.{
  CanMutate, CanView, by_mutate, by_admin, by_mechanic, by_owner, assert_can_mutate_iff,
  assert_view_access_iff, assert_can_mutate-state,
}
use ulov_backend.Services.Transition.{fields_of, transition, apply_transition, record_audit}
use ulov_backend.Services.Transition.Effect.{log_row}
use ulov_backend.Services.Transition.Outcome.{fields_of-id, reread}
use ulov_backend.Realtime.{
  Event, event_of, channels_of, publications, add_note, has_title, notify_customer, move_service,
  serve_staff, transition_service,
}

fields_of-center_id :
    (to : Status) (s : Service) (reason : Option Text) (now : ℕ) (r : Service)
    → (fields_of to s reason now r).center_id ≡ r.center_id
unfolding fields_of
fields_of-center_id waiting s reason now r = refl
fields_of-center_id in_progress s reason now r = ground arith
fields_of-center_id _ s reason now r = ground arith

fields_of-status :
    (to : Status) (s : Service) (reason : Option Text) (now : ℕ) (r : Service)
    → (fields_of to s reason now r).status ≡ to
unfolding fields_of
fields_of-status waiting s reason now r = refl
fields_of-status in_progress s reason now r = ground arith
fields_of-status _ s reason now r = ground arith

fields_of-car_id :
    (to : Status) (s : Service) (reason : Option Text) (now : ℕ) (r : Service)
    → (fields_of to s reason now r).car_id ≡ r.car_id
unfolding fields_of
fields_of-car_id waiting s reason now r = refl
fields_of-car_id in_progress s reason now r = ground arith
fields_of-car_id _ s reason now r = ground arith

-- The audit row of a transition.
abbrev pub audit_row : Service → CurrentUser → Status → Option Text → AuditLog
audit_row s u to reason = record {
  actor_user_id = if has_role u mechanic then none else some u.id;
  actor_role = u.role;
  entity_id = s.id;
  before = of_status s.status;
  after = of_status to;
  meta = if truthy? reason then reason else none;
}

-- What a transition leaves.
abbrev pub moved : Service → CurrentUser → Status → Option Text → ℕ → Db → Db
moved s u to reason now d = record d {
  next_id = suc d.next_id;
  services = update_rows (λ x. x.id == s.id) (fields_of to s reason now) d.services;
  transitions = d.transitions ++ log_row s u to reason d ∷ [];
  audit = d.audit ++ audit_row s u to reason ∷ [];
}

never_waiting : (from : Status) (reason : Option Text) → validate from waiting reason ≡ ok tt → ⊥
unfolding validate
never_waiting waiting reason h = ground (arith, h)
never_waiting in_progress reason h = ground (arith, h)
never_waiting paused reason h = ground (arith, h)
never_waiting completed reason h = ground (arith, h)
never_waiting cancelled reason h = ground (arith, h)

titled :
    (from to : Status) (reason : Option Text)
    → validate from to reason ≡ ok tt
    → has_title to ≡ true
titled from waiting reason h = absurd (never_waiting from reason h)
titled from in_progress reason h = refl
titled from paused reason h = refl
titled from completed reason h = refl
titled from cancelled reason h = refl

CanMutate-get_current_staff :
    (d : Db) (s : Service) (u : CurrentUser) → CanMutate d s u → get_current_staff u ≡ ok u
unfolding get_current_staff
CanMutate-get_current_staff d s u (by_admin r) = ground (arith, r)
CanMutate-get_current_staff d s u (by_mechanic r e) = ground (arith, r)
CanMutate-get_current_staff d s u (by_owner c r f e) = ground (arith, r)

-- Who may change a service may see it in a state with the same centres, whatever else changed.
CanMutate-CanView :
    (d d' : Db) (s s' : Service) (u : CurrentUser)
    → d'.centers ≡ d.centers
    → s'.center_id ≡ s.center_id
    → CanMutate d s u
    → CanView d' s' u
CanMutate-CanView d d' s s' u e k (by_admin r) = by_mutate (by_admin r)
CanMutate-CanView d d' s s' u e k (by_mechanic r f) =
    by_mutate (by_mechanic r (f ∙ ap some (sym k)))
CanMutate-CanView d d' s s' u e k (by_owner c r f h) = by_mutate (by_owner c r (rw (e, k) f) h)

pub assert_view_access-state :
    (d : Db) (s : Service) (u : CurrentUser) → (assert_view_access s u d).1 ≡ d
unfolding assert_view_access
assert_view_access-state d s u = ground arith

-- What a notification of a move leaves.
abbrev pub noted : Car → ℕ → Status → Db → Db
noted c service_id to d = record d {
  next_id = suc d.next_id;
  notifications =
      d.notifications
      ++ record {
        id = d.next_id;
        user_id = c.owner_id;
        about = moved_service service_id to;
        read_at = none;
      }
        ∷ [];
}

-- What the answer of a move and the tables show: `s` and `d` before, `c` the car of the service.
pub record Announced (u : CurrentUser) (to : Status) (reason : Option Text) (d : Db) (s : Service)
    (c : Car) (answer : Service) (after : Db) : Type 0 where
  pub stored : find_row (is_live s.id) after.services ≡ some answer
  pub same_service : answer.id ≡ s.id
  pub same_car : answer.car_id ≡ s.car_id
  pub same_center : answer.center_id ≡ s.center_id
  pub in_state : answer.status ≡ to
  pub logged :
      after.transitions
      ≡ d.transitions
        ++ record {
          id = d.next_id;
          service_id = s.id;
          from_status = some s.status;
          to_status = to;
          by_user_id = some u.id;
          reason = reason;
          at = d.tx_now;
        }
          ∷ []
  pub note :
      after.notifications
      ≡ d.notifications
        ++ record {
          id = suc d.next_id;
          user_id = c.owner_id;
          about = moved_service s.id to;
          read_at = none;
        }
          ∷ []

module _ (i : ℕ) (u : CurrentUser) (to : Status) (reason : Option Text) (now : ℕ) (d : Db)
    (s : Service) (found : find_row (is_live i) d.services ≡ some s) (permitted : CanMutate d s u)
    (checked : validate s.status to reason ≡ ok tt) (known : user_exists (some u.id) d ≡ true) where
  run_transition :
      transition i u to reason now d
      ≡ (ok (fields_of to s reason now s, log_row s u to reason d), moved s u to reason now d)
  unfolding transition apply_transition get_or_404 services_repo.get_by_id
      services_repo.update_fields services_repo.add_transition record_audit
  run_transition = ground (
    arith,
    found,
    (assert_can_mutate_iff d s u).1 permitted,
    assert_can_mutate-state d s u,
    checked,
    known,
    reread i u to reason now d s found,
  )

  module _ (c : Car) (car_found : find_row (λ x. x.id == s.car_id) d.cars ≡ some c) where
    abbrev s' : Service
    s' = fields_of to s reason now s

    abbrev d' : Db
    d' = noted c s'.id to (moved s u to reason now d)

    run_notify : notify_customer s' to (moved s u to reason now d) ≡ (ok tt, d')
    unfolding notify_customer cars_repo.get_by_id add_note
    run_notify =
        let here : find_row (λ x. x.id == s'.car_id) d.cars ≡ some c =
          rw (fields_of-car_id to s reason now s) car_found in
        ground (arith, here, titled s.status to reason checked)

    run_items : list_items s'.id u d' ≡ (ok (select_rows (λ x. x.service_id == s'.id) d.items), d')
    unfolding list_items get_for_user get_or_404 services_repo.get_by_id services_repo.list_items
    run_items =
        let here : find_row (is_live s'.id) (d'.services) ≡ some s' =
          subst (λ k. find_row (is_live k) d'.services ≡ some s')
            (sym (fields_of-id to s reason now s)) (reread i u to reason now d s found) in
        let sees : (assert_view_access s' u d').0 ≡ ok tt =
          (assert_view_access_iff d' s' u).1 (
            CanMutate-CanView d d' s s' u refl (fields_of-center_id to s reason now s) permitted) in
        ground (arith, here, sees, assert_view_access-state d' s' u)

    run_move :
        move_service u i to reason now d
        ≡ (ok (s', select_rows (λ x. x.service_id == s'.id) d.items), d')
    unfolding move_service
    run_move = ground (arith, run_transition, run_notify, run_items)

    run_service :
        (uuid_text : ℕ → Text) (log : List (Text × Event))
        → transition_service uuid_text (ok u) i to reason now (d, log) ≡ (
          ok (s', select_rows (λ x. x.service_id == s'.id) d.items),
          (d', log ++ publications (channels_of uuid_text s' d') (event_of s' (some to))),
        )
    unfolding transition_service serve_staff
    run_service uuid_text log =
        ground (arith, run_move, CanMutate-get_current_staff d s u permitted)

    announced : Announced u to reason d s c s' d'
    announced = record {
      stored = reread i u to reason now d s found;
      same_service = fields_of-id to s reason now s;
      same_car = fields_of-car_id to s reason now s;
      same_center = fields_of-center_id to s reason now s;
      in_state = fields_of-status to s reason now s;
      logged = refl;
      note = rw (fields_of-id to s reason now s) refl;
    }

    -- A member of staff who may change a live service, has a row in `users` and asks for a change of
    -- state that passes the check gets the stored service, in the new state, with its items. The
    -- move is logged, the owner of its car, which exists, has one more inbox row about it, and three
    -- events with the new state are published after those that were before: on the channel of the
    -- service, on that of its centre and on that of the owner of its car.
    pub transition_service_ok :
        (uuid_text : ℕ → Text) (log : List (Text × Event))
        → (answer : Service) × (after : Db) × (transition_service uuid_text
              (ok u)
              i
              to
              reason
              now
              (d, log)
            ≡ (
              ok (answer, select_rows (λ x. x.service_id == s.id) d.items),
              (
                after,
                log
                    ++ told uuid_text s.id s.center_id c.owner_id (record {
                      service_id = s.id;
                      center_id = s.center_id;
                      status = to;
                      to_status = some to;
                    }),
              ),
            ))
          × Announced u to reason d s c answer after
    transition_service_ok uuid_text log =
        let here : find_row (λ x. x.id == s'.car_id) d.cars ≡ some c =
          rw (fields_of-car_id to s reason now s) car_found in
        (
          s',
          d',
          run_service uuid_text log
              ∙ rw
                  (
                    publications-told uuid_text s' d' (some to) c here,
                    fields_of-id to s reason now s,
                    fields_of-center_id to s reason now s,
                    fields_of-status to s reason now s,
                  )
                  refl,
          announced,
        )
