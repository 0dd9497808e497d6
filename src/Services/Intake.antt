-- ===== src/Services/Intake.antt =====
-- app/modules/services/service.py, `create`: a car is taken in.
pub mod Effect
use ulov_backend.Prelude.{ℕ, true, false, Option, none, some, List, [], ◌∷◌}
use ulov_backend.Prelude.Tests.{ltb}
use ulov_backend.Prelude.Text.{Text}
use ulov_backend.Errors.{service_mileage_regression}
use ulov_backend.Exec.{Exec, pure, raise_if, ◌>>=◌, ◌>>◌}
use ulov_backend.Rbac.{CurrentUser}
use ulov_backend.Db.{Db}
use ulov_backend.Db.Rows.{Service, ItemFields, Car, waiting, service}
use ulov_backend.Centers
use ulov_backend.Cars.Repository as cars_repo
use ulov_backend.Services.Repository as repo
use ulov_backend.Services.Access.{validate_car, validate_mechanic_for_center}

-- The keywords of `create`; `items` is never missing in the request.
pub record IntakeForm : Type 0 where
  pub car_id : ℕ
  pub mileage_at_intake : ℕ
  pub mechanic_id : Option ℕ
  pub next_recommended_mileage : Option ℕ
  pub notes : Option Text
  pub items : List ItemFields

-- `if items: replace_items(...)`
unfoldable pub store_items : ℕ → List ItemFields → Exec Db (Unit {0})
unfolding repo.replace_items
store_items service_id [] = pure tt
store_items service_id (f ∷ fs) = do _ ← repo.replace_items service_id (f ∷ fs); pure tt

-- The mileage is put on the car, and in its history, if it is above the recorded one.
unfoldable pub snap_mileage : Car → ℕ → Exec Db (Unit {0})
unfolding cars_repo.update_fields cars_repo.append_mileage_reading
snap_mileage car mileage = elim (ltb car.mileage mileage) [
  | true ↦ do
    _ ← cars_repo.update_fields car.id (λ c. record c { mileage = mileage })
    _ ← cars_repo.append_mileage_reading car.id mileage service
    pure tt
  | false ↦ pure tt
]

-- The writes of `create`, once it is allowed.
unfoldable pub open_service : Car → ℕ → CurrentUser → IntakeForm → Exec Db Service
unfolding repo.create repo.add_transition
open_service car center_id u form = do
  s ← repo.create (record {
    car_id = form.car_id;
    center_id = center_id;
    mechanic_id = form.mechanic_id;
    status = waiting;
    mileage_at_intake = form.mileage_at_intake;
    next_recommended_mileage = form.next_recommended_mileage;
    notes = form.notes;
  })
  store_items s.id form.items
  _ ← repo.add_transition s.id none waiting (some u.id) none
  snap_mileage car form.mileage_at_intake
  pure s

unfoldable pub create : ℕ → CurrentUser → IntakeForm → Exec Db Service
create center_id u form = do
  _ ← Centers.assert_ops_access center_id u
  car ← validate_car form.car_id
  raise_if (ltb form.mileage_at_intake car.mileage) service_mileage_regression
  validate_mechanic_for_center center_id form.mechanic_id
  open_service car center_id u form
