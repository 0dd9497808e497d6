-- ===== src/Tests/Invariant.antt =====
-- A day of requests: one car is taken in, worked on and handed back, with a request that fails.
use ulov_backend.Prelude.{ℕ, ◌≡◌, refl, none, some, List, [], ◌∷◌, map, arith}
use ulov_backend.Prelude.Text.{codes}
use ulov_backend.Prelude.Lists.{find_row, update_rows}
use ulov_backend.Db.{Db}
use ulov_backend.Db.Rows.{Service, ServiceTransition, waiting, in_progress, completed, cancelled}
use ulov_backend.Services.History.{replay, first, onward}
use ulov_backend.Services.StateMachine.Graph.{drop_waiting}
use ulov_backend.Services.Transition.Timing.{IsTimed}
use ulov_backend.Exec.{request}
use ulov_backend.Services.StateMachine.{validate}
use ulov_backend.Services.Access.{assert_can_mutate}
use ulov_backend.Services.Transition.{fields_of, apply_transition, transition}
use ulov_backend.Services.Requests.{Request, move, serve, handle}
use ulov_backend.Services.Invariant.{IsValid}
use ulov_backend.Services.Invariant.Runs.{serve-IsValid}
use ulov_backend.Services.Invariant.Forever.{row_of, serve-row_of}
use ulov_backend.Tests.Data.{service_row, opening, shop, boss, driver}

abbrev morning : Db
morning = shop (service_row 30 waiting ∷ []) (opening ∷ []) []

abbrev requests : List (ℕ × Request)
requests =
    (8, move 30 boss in_progress none 9000000)
    ∷ (9, move 30 driver completed none 10000000)
    ∷ (10, move 30 boss completed none 20000000)
    ∷ []

waiting-IsTimed : IsTimed (service_row 30 waiting)
waiting-IsTimed = record {
  waiting_fresh = λ _. (refl, refl, refl);
  running = λ e. absurd (ground (arith, e));
  pausing = λ e. absurd (ground (arith, e));
  ended = λ e. absurd (ground (arith, e));
  dropped = λ e. absurd (ground (arith, e));
}

morning-IsValid : IsValid morning
unfolding replay
morning-IsValid = record {
  keyed = (tt, tt);
  below = (ground arith, tt);
  timed = (waiting-IsTimed, tt);
  traced = (refl, tt);
  walk = (first refl refl refl, tt);
  named_below = (ground arith, tt);
}

serve-IsValid_example : IsValid (serve morning requests)
serve-IsValid_example = serve-IsValid requests morning morning-IsValid

abbrev lost : Service
lost = record (service_row 30 cancelled) {
  cancelled_at = some 5;
  cancel_reason = some (codes "no parts");
}

abbrev dropping : ServiceTransition
dropping = record {
  id = 32;
  service_id = 30;
  from_status = some waiting;
  to_status = cancelled;
  by_user_id = some 2;
  reason = some (codes "no parts");
  at = 5;
}

abbrev evening : Db
evening = shop (lost ∷ []) (opening ∷ dropping ∷ []) []

lost-IsTimed : IsTimed lost
lost-IsTimed = record {
  waiting_fresh = λ e. absurd (ground (arith, e));
  running = λ e. absurd (ground (arith, e));
  pausing = λ e. absurd (ground (arith, e));
  ended = λ e. absurd (ground (arith, e));
  dropped = λ _. ground arith;
}

evening-IsValid : IsValid evening
unfolding replay
evening-IsValid = record {
  keyed = (tt, tt);
  below = (ground arith, tt);
  timed = (lost-IsTimed, tt);
  traced = (refl, tt);
  walk = (first refl refl refl, (onward waiting refl refl drop_waiting, tt));
  named_below = (ground arith, (ground arith, tt));
}

evening_row : row_of 30 evening ≡ some lost
unfolding find_row
evening_row = refl

serve-row_of_example : row_of 30 (serve evening requests) ≡ some lost
serve-row_of_example = serve-row_of 30 lost refl requests evening evening-IsValid evening_row

-- The log of a day: the customer's request is refused, the owner's two are done.
requests_log :
    map (λ t. t.to_status) (serve morning requests).transitions
    ≡ waiting ∷ in_progress ∷ completed ∷ []
unfolding serve handle request transition apply_transition fields_of find_row update_rows
    assert_can_mutate validate
requests_log = refl
