-- ===== src/Services/Transition/Effect.antt =====
-- What a call of `transition` has done when it succeeds, and when it fails.
use ulov_backend.Prelude.{ℕ, suc, ◌≡◌, Option, some, inl, inr, [], ◌∷◌, ◌++◌, arith}
use ulov_backend.Prelude.Tests.{◌==◌, Option-cases}
use ulov_backend.Prelude.Text.{Text}
use ulov_backend.Prelude.Lists.{find_row, update_rows}
use ulov_backend.Exec.{ok}
use ulov_backend.Rbac.{CurrentUser}
use ulov_backend.Db.{Db}
use ulov_backend.Db.Rows.{Service, ServiceTransition, Status}
use ulov_backend.Services.StateMachine.{validate}
use ulov_backend.Services.Repository.{is_live}
use ulov_backend.Services.Access.{assert_can_mutate}
use ulov_backend.Services.Access.Rules.{assert_can_mutate-state}
use ulov_backend.Services.Transition.{fields_of, apply_transition, transition}

-- The row that a transition adds to the log.
abbrev pub log_row : Service → CurrentUser → Status → Option Text → Db → ServiceTransition
log_row s u to reason d = record {
  id = d.next_id;
  service_id = s.id;
  from_status = some s.status;
  to_status = to;
  by_user_id = some u.id;
  reason = reason;
  at = d.tx_now;
}

-- What a successful call has done: from the row that it read to the tables that it leaves.
pub record Done (service_id : ℕ) (u : CurrentUser) (to : Status) (reason : Option Text) (now : ℕ)
    (d d' : Db) (s : Service) : Type 0 where
  pub found : find_row (is_live service_id) d.services ≡ some s
  pub permitted : (assert_can_mutate s u d).0 ≡ ok tt
  pub checked : validate s.status to reason ≡ ok tt
  pub services_set :
      d'.services ≡ update_rows (λ x. x.id == s.id) (fields_of to s reason now) d.services
  pub logged : d'.transitions ≡ d.transitions ++ log_row s u to reason d ∷ []
  pub counted : d'.next_id ≡ suc d.next_id

-- The writes, whether or not the row can be read again.
pub apply_transition-effect :
    (s : Service) (u : CurrentUser) (to : Status) (reason : Option Text) (now : ℕ) (d : Db)
    {r : Service × ServiceTransition}
    → (apply_transition s u to reason now d).0 ≡ ok r
    → let d' = (apply_transition s u to reason now d).1 in
      (d'.services ≡ update_rows (λ x. x.id == s.id) (fields_of to s reason now) d.services)
      × (d'.transitions ≡ d.transitions ++ log_row s u to reason d ∷ [])
      × (d'.next_id ≡ suc d.next_id)
unfolding apply_transition
apply_transition-effect s u to reason now d h = ground arith

pub transition-Done :
    (service_id : ℕ) (u : CurrentUser) (to : Status) (reason : Option Text) (now : ℕ) (d : Db)
    {r : Service × ServiceTransition}
    → (transition service_id u to reason now d).0 ≡ ok r
    → (s : Service) × Done service_id u to reason now d
        (transition service_id u to reason now d).1
        s
unfolding transition
transition-Done service_id u to reason now d {r} h =
    elim (Option-cases (find_row (is_live service_id) d.services)) [
      | inl missing ↦ absurd (ground arith)
      | inr (s, found) ↦ (
        s,
        ground (
          arith,
          assert_can_mutate-state d s u,
          apply_transition-effect s u to reason now d {r = r},
        ),
      )
    ]
