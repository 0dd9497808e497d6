-- ===== src/Services/Invariant/Kept.antt =====
-- Every operation on services keeps the invariant.
use ulov_backend.Prelude.{ℕ, suc, ◌<◌, ◌≡◌, refl, some, Option, [], ◌∷◌, arith}
use ulov_backend.Prelude.Tests.{◌==◌, if◌then◌else◌}
use ulov_backend.Prelude.Text.{Text}
use ulov_backend.Prelude.Keys.{Keyed, Keyed-find_row, Keyed-update_rows, All-update_at}
use ulov_backend.Prelude.Lists.{All, All-append, All-map, All-find_row}
use ulov_backend.Exec.{ok}
use ulov_backend.Rbac.{CurrentUser}
use ulov_backend.Db.{Db}
use ulov_backend.Db.Rows.{Service, ServiceTransition, Status, waiting, in_progress}
use ulov_backend.Services.StateMachine.Graph.{validate_iff}
use ulov_backend.Services.Repository.{is_live}
use ulov_backend.Services.History.{IsWalk, onward, replay, unknown, replay-append, IsWalk-append}
use ulov_backend.Services.Transition.{fields_of, transition}
use ulov_backend.Services.Transition.Timing.{IsTimed, fields_of-IsTimed}
use ulov_backend.Services.Transition.Effect.{Done, log_row, transition-Done}
use ulov_backend.Services.Transition.Outcome.{fields_of-id}
use ulov_backend.Services.Invariant.{IsValid}

fields_of-status :
    (to : Status) (s : Service) (reason : Option Text) (now : ℕ) (r : Service)
    → (fields_of to s reason now r).status ≡ to
unfolding fields_of
fields_of-status waiting s reason now r = refl
fields_of-status in_progress s reason now r = ground arith
fields_of-status _ s reason now r = ground arith

module _ (service_id : ℕ) (u : CurrentUser) (to : Status) (reason : Option Text) (now : ℕ)
    (d d' : Db) (s : Service) (done : Done service_id u to reason now d d' s) (v : IsValid d) where
  only : All (λ (x : Service). x.id ≡ s.id → x ≡ s) d.services
  only = Keyed-find_row (λ (x : Service). x.id) (is_live service_id) d.services s v.keyed done.found

  replay_at :
      (i : ℕ)
      → replay unknown d'.transitions i
        ≡ (if s.id == i then some to else replay unknown d.transitions i)
  replay_at i = rw done.logged (replay-append unknown d.transitions (log_row s u to reason d) i)

  s_traced : replay unknown d.transitions s.id ≡ some s.status
  s_traced =
      All-find_row (λ s. replay unknown d.transitions s.id ≡ some s.status) (is_live service_id)
        d.services v.traced done.found

  s_below : s.id < d.next_id
  s_below = All-find_row (λ s. s.id < d.next_id) (is_live service_id) d.services v.below done.found

  Done-Keyed : Keyed (λ (s : Service). s.id) d'.services
  Done-Keyed = rw done.services_set (
      Keyed-update_rows (λ (x : Service). x.id) (λ x. x.id == s.id) (fields_of to s reason now)
        (fields_of-id to s reason now) d.services v.keyed)

  Done-below : All (λ s. s.id < d'.next_id) d'.services
  Done-below =
      rw (done.services_set, done.counted)
        (All-update_at (λ (x : Service). x.id) (λ x. x.id < d.next_id) (λ x. x.id < suc d.next_id)
          (fields_of to s reason now) s (λ x _ h. omega arith)
          (omega (arith, s_below, fields_of-id to s reason now s)) d.services only v.below)

  Done-IsTimed : All IsTimed d'.services
  Done-IsTimed = rw done.services_set (
      All-update_at (λ (x : Service). x.id) IsTimed IsTimed (fields_of to s reason now) s
        (λ x _ h. h)
        (fields_of-IsTimed s to reason now
          (All-find_row IsTimed (is_live service_id) d.services v.timed done.found) done.checked)
        d.services only v.timed)

  Done-traced : All (λ s. replay unknown d'.transitions s.id ≡ some s.status) d'.services
  Done-traced = rw done.services_set (
      All-update_at (λ (x : Service). x.id) (λ x. replay unknown d.transitions x.id ≡ some x.status)
        (λ x. replay unknown d'.transitions x.id ≡ some x.status) (fields_of to s reason now) s
        (λ x ne h. ground (arith, replay_at x.id))
        (rw (fields_of-id to s reason now s, fields_of-status to s reason now s)
          (ground (arith, replay_at s.id)))
        d.services only v.traced)

  Done-IsWalk : IsWalk unknown d'.transitions
  Done-IsWalk = rw done.logged (
      IsWalk-append unknown d.transitions (log_row s u to reason d) v.walk
        (onward s.status s_traced refl ((validate_iff s.status to reason).0 done.checked).0))

  Done-named_below : All (λ (t : ServiceTransition). t.service_id < d'.next_id) d'.transitions
  Done-named_below =
      rw (done.logged, done.counted)
        (All-append (λ (t : ServiceTransition). t.service_id < suc d.next_id) d.transitions
          (log_row s u to reason d ∷ []) (All-map (λ t h. omega arith) d.transitions v.named_below)
          (omega (arith, s_below), tt))

  Done-IsValid : IsValid d'
  Done-IsValid = record {
    keyed = Done-Keyed;
    below = Done-below;
    timed = Done-IsTimed;
    traced = Done-traced;
    walk = Done-IsWalk;
    named_below = Done-named_below;
  }

-- A transition that is made keeps the invariant: the times of each service still fit its state,
-- and the log is still a walk in the diagram that ends in the state of each service.
pub transition-IsValid :
    (service_id : ℕ) (u : CurrentUser) (to : Status) (reason : Option Text) (now : ℕ) (d : Db)
    {r : Service × ServiceTransition}
    → IsValid d
    → (transition service_id u to reason now d).0 ≡ ok r
    → IsValid (transition service_id u to reason now d).1
transition-IsValid service_id u to reason now d v h =
    let (s, done) = transition-Done service_id u to reason now d h in
    Done-IsValid service_id u to reason now d (transition service_id u to reason now d).1 s done v
