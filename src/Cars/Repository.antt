-- ===== src/Cars/Repository.antt =====
-- app/modules/cars/repository.py: the tables `cars` and `mileage_readings`. `plate` and `vin` are
-- unique columns: an insert or an update that breaks this is an `IntegrityError`.
use ulov_backend.Prelude.{ℕ, Bool, false, not, ◌&&◌, ◌||◌, Option, none, some, List, [], ◌∷◌, ◌++◌}
use mathlib.Core.List.{reverse}
use ulov_backend.Prelude.Tests.{◌==◌, is_some}
use ulov_backend.Prelude.Text.{Text, text_eq}
use ulov_backend.Prelude.Lists.{find_row, select_rows, update_rows, delete_rows}
use ulov_backend.Errors.{database_error}
use ulov_backend.Exec.{Exec, raise_if, gets, modify, pure, ◌>>=◌, ◌>>◌}
use ulov_backend.Db.{Db, fresh_id}
use ulov_backend.Db.Rows.{Car, MileageSource, MileageReading}

unfoldable pub list_by_owner : ℕ → Exec Db (List Car)
list_by_owner owner_id = gets (λ d. select_rows (λ c. c.owner_id == owner_id) d.cars)

unfoldable pub get_by_id : ℕ → Exec Db (Option Car)
get_by_id car_id = gets (λ d. find_row (λ c. c.id == car_id) d.cars)

unfoldable pub get_by_plate : Text → Exec Db (Option Car)
get_by_plate plate = gets (λ d. find_row (λ c. text_eq c.plate plate) d.cars)

-- `Car.vin == vin`; a missing VIN equals none.
abbrev pub same_vin : Text → Car → Bool
same_vin vin c = elim (c.vin) [ none ↦ false | some v ↦ text_eq v vin ]

unfoldable pub get_by_vin : Text → Exec Db (Option Car)
get_by_vin vin = gets (λ d. find_row (same_vin vin) d.cars)

-- The `fields` are the columns that they set, which leave `id` alone.
unfoldable pub update_fields : ℕ → (Car → Car) → Exec Db (Option Car)
unfolding get_by_id
update_fields car_id fields = do
  modify (λ d. record d { cars = update_rows (λ c. c.id == car_id) fields d.cars })
  get_by_id car_id

-- Another car has the plate or the VIN of a row.
abbrev pub clashes : Car → Db → Bool
clashes c d = is_some (
    find_row
      (λ x.
        not (x.id == c.id)
        && (text_eq x.plate c.plate || elim (c.vin) [ none ↦ false | some v ↦ same_vin v x ]))
      d.cars)

-- The owner of a row is a row of `users`.
abbrev pub known_user : ℕ → Db → Bool
known_user owner_id d = is_some (find_row (λ u. u.id == owner_id) d.users)

-- `create`: `fields` gives the row for its id. The owner must be a row of `users`.
unfoldable pub create : (ℕ → Car) → Exec Db Car
create fields = do
  i ← fresh_id
  let car = fields i
  clash ← gets (clashes car)
  known ← gets (known_user car.owner_id)
  raise_if (clash || not known) database_error
  modify (λ d. record d { cars = d.cars ++ car ∷ [] })
  pure car

-- `update_fields` with columns that are unique: `c` is the row with the id.
unfoldable pub update_unique : Car → (Car → Car) → Exec Db (Option Car)
unfolding update_fields
update_unique c fields = do
  clash ← gets (clashes (fields c))
  raise_if clash database_error
  update_fields c.id fields

-- A service of the car forbids it (`ondelete="RESTRICT"`); its mileage readings go with it. A
-- policy of the car forbids it too: `insured` says which cars have one, since the policies are no
-- table here. What becomes of its trips is in Trips.
unfoldable pub remove : (ℕ → Bool) → ℕ → Exec Db (Unit {0})
remove insured car_id = do
  used ← gets (λ d. is_some (find_row (λ s. s.car_id == car_id) d.services))
  raise_if (used || insured car_id) database_error
  modify (λ d. record d {
    cars = delete_rows (λ c. c.id == car_id) d.cars;
    readings = delete_rows (λ r. r.car_id == car_id) d.readings;
  })

-- `recorded_at` is the clock of the process; it is taken to be the time of the transaction.
unfoldable pub append_mileage_reading : ℕ → ℕ → MileageSource → Exec Db MileageReading
append_mileage_reading car_id value source = do
  i ← fresh_id
  now ← gets (λ d. d.tx_now)
  let r : MileageReading = record {
    id = i;
    car_id = car_id;
    value = value;
    source = source;
    recorded_at = now;
  }
  modify (λ d. record d { readings = d.readings ++ r ∷ [] })
  pure r

-- `last_mileage`: the newest reading; the table is in the order of `recorded_at`.
unfoldable pub last_mileage : ℕ → Exec Db (Option ℕ)
last_mileage car_id = do
  rows ← gets (λ d. reverse (select_rows (λ r. r.car_id == car_id) d.readings))
  elim rows [ [] ↦ pure none | r ∷ _ ↦ pure (some r.value) ]
