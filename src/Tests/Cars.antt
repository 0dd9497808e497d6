-- ===== src/Tests/Cars.antt =====
-- A customer's cars: one is there, a second is added, and its mileage changes.
use ulov_backend.Prelude.{◌<◌, ◌≡◌, ◌≢◌, refl, true, none, some, [], ◌∷◌, ◌++◌, arith}
use ulov_backend.Prelude.Text.{Text, text_eq, codes}
use ulov_backend.Prelude.Lists.{find_row, update_rows}
use ulov_backend.Errors.{car_mileage_decrease, car_plate_duplicate}
use ulov_backend.Exec.{ok, err}
use ulov_backend.Db.{Db}
use ulov_backend.Db.Rows.{standard}
use ulov_backend.Cars.Repository as repo
use ulov_backend.Cars.Service.{
  CreateForm, PatchForm, new_car, columns_of, get_owned, check_unique_plate, check_unique_vin,
  create, patch, record_mileage,
}
use ulov_backend.Cars.Service.Mileage.{car_of, reading_row, record_mileage_outcome}
use ulov_backend.Cars.Service.Uniqueness.{UniquePlates}
use ulov_backend.Tests.Data.{car, shop}

abbrev garage : Db
garage = shop [] [] []

garage_found : car_of 20 garage ≡ some car
unfolding find_row
garage_found = refl

record_mileage_outcome_example :
    (5500 < 5000 → record_mileage 20 3 5500 garage ≡ (err car_mileage_decrease, garage))
    × (5500 ≡ car.mileage → record_mileage 20 3 5500 garage ≡ (ok car, garage))
    × (5000 < 5500
        → let d' = (record_mileage 20 3 5500 garage).1 in
          ((record_mileage 20 3 5500 garage).0 ≡ ok (record car { mileage = 5500 }))
          × (car_of 20 d' ≡ some (record car { mileage = 5500 }))
          × (d'.readings ≡ garage.readings ++ reading_row 20 5500 garage ∷ []))
record_mileage_outcome_example = record_mileage_outcome 20 3 5500 garage car garage_found refl

abbrev form : Text → CreateForm
form plate = record {
  brand = codes "Kia";
  model = codes "K5";
  year = 2022;
  color = none;
  plate = plate;
  plate_type = some standard;
  mileage = some 10;
  vin = none;
  tech_passport = none;
  insurance_from = none;
  insurance_to = none;
  insurance_company = none;
  tint_from = none;
  tint_to = none;
  photo_url = none;
}

garage-UniquePlates : UniquePlates garage
garage-UniquePlates = (tt, tt)

create_runs :
    (create 3 (form (codes "10B777CC")) garage).0
    ≡ ok (new_car 3 (form (codes "10B777CC")) standard 100)
unfolding create check_unique_plate check_unique_vin repo.create find_row text_eq
create_runs = refl

owner_known : repo.known_user 3 garage ≡ true
unfolding find_row
owner_known = refl

no_vin : (form (codes "01A234BC")).vin ≢ some []
no_vin e = ground (arith, e)

-- The plate of the first car is refused.
plate_refused : (create 3 (form (codes "01A234BC")) garage).0 ≡ err car_plate_duplicate
unfolding create check_unique_plate find_row text_eq
plate_refused = refl

abbrev edit : PatchForm
edit = record {
  brand = none;
  model = none;
  year = none;
  color = some (codes "white");
  plate = none;
  plate_type = none;
  mileage = some 7000;
  vin = none;
  tech_passport = none;
  insurance_from = none;
  insurance_to = none;
  insurance_company = none;
  tint_from = none;
  tint_to = none;
  photo_url = none;
}

patch_runs : (patch true 20 3 edit garage).0 ≡ ok (columns_of edit car)
unfolding patch columns_of get_owned repo.update_unique find_row update_rows
patch_runs = refl

-- The edit sets a higher mileage.
mileage_set : (columns_of edit car).mileage ≡ 7000
unfolding columns_of
mileage_set = refl
