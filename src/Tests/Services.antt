-- ===== src/Tests/Services.antt =====
-- Runs of the operations on services.
use ulov_backend.Prelude.{◌≡◌, ◌↔◌, refl, true, false, none, some, [], ◌∷◌}
use ulov_backend.Prelude.Text.{codes}
use ulov_backend.Prelude.Lists.{find_row, update_rows, delete_rows}
use ulov_backend.Errors.{database_error}
use ulov_backend.Exec.{ok, err}
use ulov_backend.Db.{Db}
use ulov_backend.Db.Rows.{Service, ItemFields, waiting, in_progress, paused, completed, cancelled}
use ulov_backend.Services.StateMachine.{validate}
use ulov_backend.Services.StateMachine.Graph.{Permitted, validate_iff}
use ulov_backend.Services.Repository as repo
use ulov_backend.Services.Access.{assert_can_mutate, validate_car, validate_mechanic_for_center}
use ulov_backend.Centers
use ulov_backend.Services.Access.Rules.{CanMutate, assert_can_mutate_iff}
use ulov_backend.Services.Transition.{fields_of, transition}
use ulov_backend.Services.Transition.Outcome.{transition-unknown_user}
use ulov_backend.Services.Intake as intake
use ulov_backend.Services.Intake.{IntakeForm}
use ulov_backend.Services.Intake.Effect.{Admitted, create-Admitted}
use ulov_backend.Services.Edit.{PatchForm, patch, check_mechanic, store_items, payload_of}
use ulov_backend.Services.Edit.Effect.{Patched, patch-Patched}
use ulov_backend.Tests.Data.{service_row, opening, shop, boss, worker}

abbrev row : Service
row = service_row 30 waiting

abbrev day : Db
day = shop (row ∷ []) (opening ∷ []) []

abbrev oil : ItemFields
oil = record {
  service_type = codes "oil_change";
  parts = codes "[]";
  notes = none;
  service_price = 100;
  parts_price = 200;
}

validate_iff_example :
    (validate paused cancelled (some (codes "no parts")) ≡ ok tt)
    ↔ Permitted paused cancelled (some (codes "no parts"))
validate_iff_example = validate_iff paused cancelled (some (codes "no parts"))

assert_can_mutate_iff_example :
    ((assert_can_mutate row boss day).0 ≡ ok tt) ↔ CanMutate day row boss
assert_can_mutate_iff_example = assert_can_mutate_iff day row boss

day_found : find_row (repo.is_live 30) day.services ≡ some row
unfolding find_row
day_found = refl

boss_permitted : (assert_can_mutate row boss day).0 ≡ ok tt
unfolding assert_can_mutate find_row
boss_permitted = refl

begin_checked : validate row.status in_progress none ≡ ok tt
unfolding validate
begin_checked = refl

boss_known : repo.user_exists (some 2) day ≡ true
unfolding find_row repo.user_exists
boss_known = refl

worker_permitted : (assert_can_mutate row worker day).0 ≡ ok tt
unfolding assert_can_mutate
worker_permitted = refl

worker_unknown : repo.user_exists (some 5) day ≡ false
unfolding find_row repo.user_exists
worker_unknown = refl

transition-unknown_user_example :
    (transition 30 worker in_progress none 9000000 day).0 ≡ err database_error
transition-unknown_user_example =
    transition-unknown_user 30 worker in_progress none 9000000 day row day_found worker_permitted
      begin_checked worker_unknown

abbrev intake_form : IntakeForm
intake_form = record {
  car_id = 20;
  mileage_at_intake = 6000;
  mechanic_id = none;
  next_recommended_mileage = none;
  notes = none;
  items = oil ∷ [];
}

abbrev taken_in : Service
taken_in = record (service_row 100 waiting) { mileage_at_intake = 6000; created_at = 7 }

create_runs : (intake.create 10 boss intake_form day).0 ≡ ok taken_in
unfolding intake.create intake.open_service intake.store_items intake.snap_mileage find_row
    update_rows delete_rows validate_car validate_mechanic_for_center Centers.assert_ops_access
    repo.replace_items repo.add_item
create_runs = refl

create-Admitted_example : Admitted 10 boss intake_form day (intake.create 10 boss intake_form day).1
create-Admitted_example = create-Admitted 10 boss intake_form day create_runs

abbrev patch_form : PatchForm
patch_form = record {
  mechanic_id = some none;
  next_recommended_mileage = some 15000;
  notes = none;
  items = some (oil ∷ []);
}

patch_runs :
    (patch 30 boss patch_form day).0 ≡ ok (record row { next_recommended_mileage = some 15000 })
unfolding patch find_row update_rows delete_rows assert_can_mutate check_mechanic store_items
    validate_mechanic_for_center payload_of repo.replace_items repo.add_item
patch_runs = refl

patch-Patched_example : Patched 30 boss patch_form day (patch 30 boss patch_form day).1
patch-Patched_example = patch-Patched 30 boss patch_form day patch_runs

abbrev resting : Service
resting = record (service_row 30 paused) {
  started_at = some 1000000;
  paused_at = some 4000000;
  paused_elapsed_s = 2;
}

-- A whole pause of five seconds.
pause_counted : (fields_of completed resting none 9000000 resting).paused_elapsed_s ≡ 7
unfolding fields_of
pause_counted = refl
