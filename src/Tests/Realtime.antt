-- ===== src/Tests/Realtime.antt =====
-- The move of a service that waits, and who hears of it.
use ulov_backend.Realtime.Staff.{told}
use ulov_backend.Prelude.{◌≡◌, refl, true, none, some, [], ◌∷◌, ◌++◌, inl, inr}
use ulov_backend.Prelude.Tests.{◌==◌}
use ulov_backend.Prelude.Text.{codes, text_eq}
use ulov_backend.Prelude.Lists.{find_row, select_rows}
use ulov_backend.Exec.{ok}
use ulov_backend.Db.{Db}
use ulov_backend.Db.Rows.{Service, waiting, in_progress}
use ulov_backend.Services.StateMachine.{validate}
use ulov_backend.Services.Repository.{is_live, user_exists}
use ulov_backend.Services.Access.Rules.{CanMutate, by_owner}
use ulov_backend.Centers.{assert_ops_access}
use ulov_backend.Services.Access.{
  validate_car, validate_mechanic_for_center, by_vin, or_by_plate, lookup_vehicle, list_items,
  assert_can_mutate, assert_view_access, get_for_user,
}
use ulov_backend.Services.Intake.{create, open_service, store_items, snap_mileage}
use ulov_backend.Services.Intake.Effect.{intake_row}
use ulov_backend.Realtime.{
  serve_staff, channels_of, transition_service, Among, Hears, me_door, open_socket, ws_me,
  user_channel,
}
use ulov_backend.Realtime.Moves.{transition_service_ok, Announced}
use ulov_backend.Realtime.Desk.{IntakeIn, intake, form_of, open_found, open_for}
use ulov_backend.Realtime.Intakes.{Opens, intake-Opens}
use ulov_backend.Realtime.Audience.{Entitled, open_socket-Entitled}
use ulov_backend.Tests.Data.{shop, service_row, center, car, boss, driver, opening}
use ulov_backend.Tests.Uploads.{ones, ones-injective}

abbrev row : Service
row = service_row 30 waiting

abbrev db : Db
db = shop (row ∷ []) (opening ∷ []) []

there : find_row (is_live 30) db.services ≡ some row
unfolding find_row
there = refl

center_there : find_row (λ c. c.id == 10) db.centers ≡ some center
unfolding find_row
center_there = refl

car_there : find_row (λ c. c.id == 20) db.cars ≡ some car
unfolding find_row
car_there = refl

boss_known : user_exists (some 2) db ≡ true
unfolding find_row
boss_known = refl

begins : validate waiting in_progress none ≡ ok tt
unfolding validate
begins = refl

boss_may : CanMutate db row boss
boss_may = by_owner center refl center_there refl

transition_service_ok_example :
    (answer : Service) × (after : Db) × (transition_service ones
        (ok boss)
        30
        in_progress
        none
        9
        (db, [])
      ≡ (
        ok (answer, select_rows (λ x. x.service_id == 30) db.items),
        (
          after,
          []
              ++ told ones 30 10 3 (record {
                service_id = 30;
                center_id = 10;
                status = in_progress;
                to_status = some in_progress;
              }),
        ),
      ))
    × Announced boss in_progress none db row car answer after
transition_service_ok_example =
    transition_service_ok 30 boss in_progress none 9 db row there boss_may begins boss_known car
      car_there ones []

goes : Among (user_channel ones 3) (channels_of ones row db)
unfolding channels_of find_row
goes = inr (inr (inl refl))

hears : Hears (open_socket ones me_door (ok driver) db) (user_channel ones 3)
unfolding open_socket ws_me
hears = inl refl

open_socket-Entitled_example : Entitled db row driver
open_socket-Entitled_example =
    open_socket-Entitled ones ones-injective db row driver there me_door (user_channel ones 3) goes
      hears

abbrev by_plate : IntakeIn
by_plate = record {
  vin = none;
  plate = some (codes "01A234BC");
  mileage_at_intake = 6000;
  mechanic_id = none;
  notes = none;
}

-- The owner opens a service for the car by its plate.
answers_by_plate :
    (intake ones (ok boss) 10 by_plate (db, [])).0
    ≡ ok (intake_row 10 (form_of by_plate car) db, [])
unfolding find_row select_rows text_eq by_vin or_by_plate lookup_vehicle open_found open_for intake
    serve_staff assert_ops_access validate_car validate_mechanic_for_center create open_service
    store_items snap_mileage list_items assert_can_mutate assert_view_access get_for_user
answers_by_plate = refl

intake-Opens_example :
    Opens ones boss 10 by_plate (db, []) (intake ones (ok boss) 10 by_plate (db, []))
intake-Opens_example = intake-Opens ones boss 10 by_plate (db, [])
