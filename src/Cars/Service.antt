-- ===== src/Cars/Service.antt =====
-- app/modules/cars/service.py. The forms are those of app/modules/cars/schemas.py after their
-- validators: a plate is canonical, and a VIN is canonical or missing.
pub mod Mileage
pub mod Uniqueness
pub mod Patching
use ulov_backend.Prelude.{
  ℕ, ◌<◌, Bool, true, false, not, ◌&&◌, Option, none, some, List, [], ◌∷◌, ◌++◌,
}
use ulov_backend.Prelude.Tests.{ltb, ◌==◌, pos, or_else, holds_id, if◌then◌else◌}
use ulov_backend.Prelude.Text.{Text, text_eq, text_or_empty, truthy, truthy?}
use ulov_backend.Errors.{
  car_not_found, car_not_owner, car_plate_duplicate, car_vin_duplicate, car_mileage_decrease,
  assertion_error, value_error,
}
use ulov_backend.Exec.{Exec, pure, raise, or_raise, raise_if, when, ◌>>=◌, ◌>>◌}
use ulov_backend.Db.{Db}
use ulov_backend.Db.Rows.{Car, PlateType, user}
use ulov_backend.Plate.{accepted, rejected, detect_plate_type}
use ulov_backend.Cars.Recommendations.{Item, compute}
use ulov_backend.Cars.Repository as repo
use ulov_backend.Cars.Repository.{same_vin}

pub record CreateForm : Type 0 where
  pub brand : Text
  pub model : Text
  pub year : ℕ
  pub color : Option Text
  pub plate : Text
  pub plate_type : Option PlateType
  pub mileage : Option ℕ
  pub vin : Option Text
  pub tech_passport : Option Text
  pub insurance_from : Option ℕ
  pub insurance_to : Option ℕ
  pub insurance_company : Option Text
  pub tint_from : Option ℕ
  pub tint_to : Option ℕ
  pub photo_url : Option Text

-- A column that is missing or `None` is left as it is.
pub record PatchForm : Type 0 where
  pub brand : Option Text
  pub model : Option Text
  pub year : Option ℕ
  pub color : Option Text
  pub plate : Option Text
  pub plate_type : Option PlateType
  pub mileage : Option ℕ
  pub vin : Option Text
  pub tech_passport : Option Text
  pub insurance_from : Option ℕ
  pub insurance_to : Option ℕ
  pub insurance_company : Option Text
  pub tint_from : Option ℕ
  pub tint_to : Option ℕ
  pub photo_url : Option Text

-- `existing and (ignore_id is None or existing.id != ignore_id)`
abbrev pub other_row : Option ℕ → Option Car → Bool
other_row ignore_id none = false
other_row ignore_id (some existing) = not (holds_id ignore_id existing.id)

unfoldable pub check_unique_plate : Text → Option ℕ → Exec Db (Unit {0})
unfolding repo.get_by_plate
check_unique_plate plate ignore_id = do
  existing ← repo.get_by_plate plate
  raise_if (other_row ignore_id existing) car_plate_duplicate

unfoldable pub check_unique_vin : Option Text → Option ℕ → Exec Db (Unit {0})
unfolding repo.get_by_vin
check_unique_vin vin ignore_id = if not (truthy? vin) then pure tt else (do
  existing ← repo.get_by_vin (text_or_empty vin)
  raise_if (other_row ignore_id existing) car_vin_duplicate)

unfoldable pub list_mine : ℕ → Exec Db (List Car)
unfolding repo.list_by_owner
list_mine owner_id = repo.list_by_owner owner_id

unfoldable pub get_owned : ℕ → ℕ → Exec Db Car
unfolding repo.get_by_id
get_owned car_id owner_id = do
  found ← repo.get_by_id car_id
  car ← or_raise found car_not_found
  raise_if (not (car.owner_id == owner_id)) car_not_owner
  pure car

-- The row of a form; `detect_plate_type` gives none for a plate that is not accepted.
abbrev pub new_car : ℕ → CreateForm → PlateType → ℕ → Car
new_car owner_id form plate_type i = record {
  id = i;
  owner_id = owner_id;
  brand = form.brand;
  model = form.model;
  year = form.year;
  color = form.color;
  plate = form.plate;
  plate_type = plate_type;
  mileage = or_else form.mileage 0;
  vin = form.vin;
  tech_passport = form.tech_passport;
  insurance_from = form.insurance_from;
  insurance_to = form.insurance_to;
  insurance_company = form.insurance_company;
  tint_from = form.tint_from;
  tint_to = form.tint_to;
  photo_url = form.photo_url;
}

-- `data.get("plate_type") or detect_plate_type(plate)`
type_of : CreateForm → Exec Db PlateType
type_of form = elim (form.plate_type) [
  | some t ↦ pure t
  | none ↦ elim (detect_plate_type (some form.plate)) [
    | accepted t ↦ pure t
    | rejected e ↦ raise value_error
  ]
]

-- The reading that begins the history of a car.
seed_history : Car → Exec Db (Unit {0})
unfolding repo.append_mileage_reading
seed_history car = elim (ltb 0 car.mileage) [
  | true ↦ do _ ← repo.append_mileage_reading car.id car.mileage user; pure tt
  | false ↦ pure tt
]

unfoldable pub create : ℕ → CreateForm → Exec Db Car
unfolding type_of repo.create seed_history
create owner_id form = do
  plate_type ← type_of form
  check_unique_plate form.plate none
  check_unique_vin form.vin none
  car ← repo.create (new_car owner_id form plate_type)
  seed_history car
  pure car

-- `value` if it is given.
abbrev given {ℓ} : {A : Type ℓ} → Option A → Option A → Option A
given none old = old
given (some v) old = some v

unfoldable pub columns_of : PatchForm → Car → Car
columns_of form c = record c {
  brand = or_else form.brand c.brand;
  model = or_else form.model c.model;
  year = or_else form.year c.year;
  color = given form.color c.color;
  plate = or_else form.plate c.plate;
  plate_type = or_else form.plate_type c.plate_type;
  mileage = or_else form.mileage c.mileage;
  vin = given form.vin c.vin;
  tech_passport = given form.tech_passport c.tech_passport;
  insurance_from = given form.insurance_from c.insurance_from;
  insurance_to = given form.insurance_to c.insurance_to;
  insurance_company = given form.insurance_company c.insurance_company;
  tint_from = given form.tint_from c.tint_from;
  tint_to = given form.tint_to c.tint_to;
  photo_url = given form.photo_url c.photo_url;
}

-- `new_plate is not None and new_plate != car.plate`, and the same for a VIN.
check_plate : Option Text → Car → Exec Db (Unit {0})
check_plate none car = pure tt
check_plate (some plate) car =
    if text_eq plate car.plate then pure tt else check_unique_plate plate (some car.id)

check_vin : Option Text → Car → Exec Db (Unit {0})
check_vin none car = pure tt
check_vin (some vin) car =
    if same_vin vin car then pure tt else check_unique_vin (some vin) (some car.id)

-- `new_mileage is not None and new_mileage < car.mileage`
abbrev pub lowers : Option ℕ → ℕ → Bool
lowers none current = false
lowers (some m) current = ltb m current

-- The reading after an update: `seen` is what `car.mileage` gives then.
note_mileage : Option ℕ → ℕ → ℕ → Exec Db (Unit {0})
unfolding repo.append_mileage_reading
note_mileage none car_id seen = pure tt
note_mileage (some m) car_id seen = elim (m == seen) [
  | true ↦ pure tt
  | false ↦ do _ ← repo.append_mileage_reading car_id m user; pure tt
]

-- `synced` says whether a row that the session holds shows an update that is executed after it was
-- read; SQLAlchemy does so unless `synchronize_session` is off.
unfoldable pub patch : Bool → ℕ → ℕ → PatchForm → Exec Db Car
unfolding get_owned check_plate check_vin note_mileage repo.update_unique
patch synced car_id owner_id form = do
  car ← get_owned car_id owner_id
  check_plate form.plate car
  check_vin form.vin car
  raise_if (lowers form.mileage car.mileage) car_mileage_decrease
  found ← repo.update_unique car (columns_of form)
  updated ← or_raise found assertion_error
  note_mileage form.mileage car.id (if synced then updated.mileage else car.mileage)
  pure updated

unfoldable pub delete : (ℕ → Bool) → ℕ → ℕ → Exec Db (Unit {0})
unfolding get_owned repo.remove
delete insured car_id owner_id = do car ← get_owned car_id owner_id; repo.remove insured car.id

-- The writes of `record_mileage`.
raise_mileage : Car → ℕ → Exec Db Car
unfolding repo.update_fields repo.append_mileage_reading
raise_mileage car value = do
  found ← repo.update_fields car.id (λ c. record c { mileage = value })
  updated ← or_raise found assertion_error
  _ ← repo.append_mileage_reading car.id value user
  pure updated

unfoldable pub record_mileage : ℕ → ℕ → ℕ → Exec Db Car
unfolding get_owned raise_mileage
record_mileage car_id owner_id value = do
  car ← get_owned car_id owner_id
  raise_if (ltb value car.mileage) car_mileage_decrease
  elim (value == car.mileage) [ true ↦ pure car | false ↦ raise_mileage car value ]

unfoldable pub recommendations_for : ℕ → ℕ → Exec Db (ℕ × (ℕ × List Item))
unfolding get_owned compute
recommendations_for car_id owner_id = do
  car ← get_owned car_id owner_id
  pure (car.id, (car.mileage, compute (some (pos car.mileage))))
