-- ===== src/Cars/Service/Mileage.antt =====
-- What the operations on cars do to a mileage and its history.
use ulov_backend.Prelude.{ℕ, ◌<◌, ◌≡◌, refl, ◌∙◌, true, Option, some, [], ◌∷◌, ◌++◌, arith}
use ulov_backend.Prelude.Tests.{◌==◌, ==_iff}
use ulov_backend.Prelude.Lists.{find_row, update_rows, find_row-test, find_row-update_rows}
use ulov_backend.Errors.{car_mileage_decrease}
use ulov_backend.Exec.{ok, err}
use ulov_backend.Db.{Db}
use ulov_backend.Db.Rows.{Car, MileageReading, user}
use ulov_backend.Cars.Service.{get_owned, raise_mileage, record_mileage}

abbrev pub car_of : ℕ → Db → Option Car
car_of i d = find_row (λ c. c.id == i) d.cars

-- The reading that a higher mileage adds.
abbrev pub reading_row : ℕ → ℕ → Db → MileageReading
reading_row car_id value d = record {
  id = d.next_id;
  car_id = car_id;
  value = value;
  source = user;
  recorded_at = d.tx_now;
}

module _ (i owner_id value : ℕ) (d : Db) (c : Car) (found : car_of i d ≡ some c) where
  raised_row :
      find_row
        (λ x. x.id == i)
        (update_rows (λ x. x.id == c.id) (λ x. record x { mileage = value }) d.cars)
      ≡ some (record c { mileage = value })
  raised_row =
      let c_id : (c.id == i) ≡ true = find_row-test (λ x. x.id == i) d.cars found in
      find_row-update_rows (λ x. x.id == i) (λ x. x.id == c.id) (λ x. record x { mileage = value })
        (λ x _. refl) d.cars
      ∙ ground (arith, found, c_id)

  -- For an existing car of the caller: a lower mileage is refused and the recorded one changes
  -- nothing; a higher one is answered, is stored on the car, and adds one reading.
  pub record_mileage_outcome :
      c.owner_id ≡ owner_id
      → (value < c.mileage → record_mileage i owner_id value d ≡ (err car_mileage_decrease, d))
        × (value ≡ c.mileage → record_mileage i owner_id value d ≡ (ok c, d))
        × (c.mileage < value
            → let d' = (record_mileage i owner_id value d).1 in
              ((record_mileage i owner_id value d).0 ≡ ok (record c { mileage = value }))
              × (car_of i d' ≡ some (record c { mileage = value }))
              × (d'.readings ≡ d.readings ++ reading_row c.id value d ∷ []))
  unfolding record_mileage get_owned raise_mileage
  record_mileage_outcome owns =
      let c_id : c.id ≡ i = (==_iff c.id i).0 (find_row-test (λ x. x.id == i) d.cars found) in
      (
        (λ low. ground (arith, found, owns, low)),
        (λ same. ground (arith, found, owns, same)),
        λ high. (
          ground (arith, found, owns, high, raised_row, c_id),
          ground (arith, found, owns, high, raised_row, c_id),
          ground (arith, found, owns, high, raised_row, c_id),
        ),
      )
