-- ===== src/Cars/Service/Uniqueness.antt =====
-- No two cars have one plate.
use ulov_backend.Prelude.{
  ℕ, suc, Option, ◌≡◌, ◌≢◌, refl, sym, ap, ◌∙◌, true, false, not, ◌&&◌, ◌||◌, none, some, inl, inr,
  List, [], ◌∷◌, ◌++◌, arith,
}
use mathlib.Core.Path.{subst}
use ulov_backend.Prelude.Tests.{is_some, ltb, ◌==◌, ==_iff, Option-cases, Bool-cases}
use ulov_backend.Prelude.Text.{Text, text_eq, text_eq_iff}
use ulov_backend.Prelude.Keys.{All-update_at, Keyed, Keyed-append_new}
use ulov_backend.Prelude.Lists.{
  All, All-always, All-map, All-map_both, All-update_rows, find_row, find_row-All, none-find_row,
  update_rows,
}
use ulov_backend.Errors.{Code, value_error, car_vin_duplicate, database_error}
use ulov_backend.Exec.{ok, err, Result-cases}
use ulov_backend.Db.{Db}
use ulov_backend.Db.Rows.{Car, PlateType}
use ulov_backend.Cars.Repository as repo
use ulov_backend.Cars.Repository.{clashes}
use ulov_backend.Cars.Service.{
  CreateForm, new_car, type_of, check_unique_plate, check_unique_vin, seed_history, create,
}

abbrev pub UniquePlates : Db → Type 0
UniquePlates d = Keyed (λ (c : Car). c.plate) d.cars

-- A row that clashes with none has a plate that no other row has.
pub no_clash :
    (c : Car) (d : Db) → clashes c d ≡ false → All (λ x. x.id ≢ c.id → x.plate ≢ c.plate) d.cars
no_clash c d free =
    All-map {Q = λ (x : Car). x.id ≢ c.id → x.plate ≢ c.plate}
      (λ (x : Car) fails ne same.
        absurd (ground (arith, fails, ne, (text_eq_iff x.plate c.plate).1 same)))
      d.cars
      (find_row-All
        (λ x.
          not (x.id == c.id)
          && (text_eq x.plate c.plate
              || elim (c.vin) [ none ↦ false | some v ↦ repo.same_vin v x ]))
        d.cars (ground (arith, free)))

-- The row of `c` takes a plate that no other row has.
module _ (c : Car) (f : Car → Car) where
  pub update-UniquePlates :
      (xs : List Car)
      → Keyed (λ (x : Car). x.id) xs
      → Keyed (λ (x : Car). x.plate) xs
      → All (λ x. x.id ≡ c.id → x ≡ c) xs
      → All (λ x. x.id ≢ c.id → x.plate ≢ (f c).plate) xs
      → Keyed (λ (x : Car). x.plate) (update_rows (λ x. x.id == c.id) f xs)
  unfolding update_rows
  update-UniquePlates [] ids plates only new = tt
  update-UniquePlates (x ∷ xs) ids plates only new =
      let rest = update-UniquePlates xs ids.1 plates.1 only.1 new.1 in
      elim (Bool-cases (x.id == c.id)) [
        | inl e ↦
            let x_id : x.id ≡ c.id = (==_iff x.id c.id).0 e in
            let same : x ≡ c = only.0 x_id in
            rw e (
              subst
                  (λ (y : Car).
                    All (λ (z : Car). z.plate ≢ (f y).plate) (update_rows (λ z. z.id == c.id) f xs))
                  (sym same)
                  (untouched xs (
                    All-map_both
                      (λ (y : Car) ne free.
                        ((λ eq. ne (eq ∙ sym x_id)), free (λ eq. ne (eq ∙ sym x_id))))
                      xs ids.0 new.1)),
              rest,
            )
        | inr e ↦
            let ne : x.id ≢ c.id = λ eq. ground (arith, e, eq) in
            rw e (
              All-update_at (λ (y : Car). y.id) (λ (y : Car). y.plate ≢ x.plate)
                  (λ (y : Car). y.plate ≢ x.plate) f c (λ y _ p. p) (λ eq. new.0 ne (sym eq)) xs
                  only.1 plates.0,
              rest,
            )
      ]
    where
      untouched :
          (xs : List Car)
          → All (λ (y : Car). (y.id ≢ c.id) × (y.plate ≢ (f c).plate)) xs
          → All (λ (y : Car). y.plate ≢ (f c).plate) (update_rows (λ z. z.id == c.id) f xs)
      untouched xs h =
          All-map (λ (y : Car) p. p.1) (update_rows (λ z. z.id == c.id) f xs)
            (All-update_rows (λ (y : Car). (y.id ≢ c.id) × (y.plate ≢ (f c).plate))
              (λ z. z.id == c.id) f (λ y t p. absurd (p.0 ((==_iff y.id c.id).0 t))) xs h)

type_of-state : (form : CreateForm) (d : Db) → (type_of form d).1 ≡ d
unfolding type_of
type_of-state form d = ground arith

check_unique_vin-state :
    (vin : Option Text) (ignore_id : Option ℕ) (d : Db) → (check_unique_vin vin ignore_id d).1 ≡ d
unfolding check_unique_vin
check_unique_vin-state vin ignore_id d = ground arith

type_of-value_error :
    (form : CreateForm) (d : Db) {e : Code} → (type_of form d).0 ≡ err e → e ≡ value_error
unfolding type_of
type_of-value_error form d h = ground (arith, h)

check_unique_vin-duplicate :
    (vin : Option Text) (ignore_id : Option ℕ) (d : Db) {e : Code}
    → (check_unique_vin vin ignore_id d).0 ≡ err e
    → e ≡ car_vin_duplicate
unfolding check_unique_vin
check_unique_vin-duplicate vin ignore_id d h = ground (arith, h)

seed_history-cars :
    (car : Car) (d : Db) → ((seed_history car d).0 ≡ ok tt) × ((seed_history car d).1.cars ≡ d.cars)
unfolding seed_history
seed_history-cars car d = elim (Bool-cases (ltb 0 car.mileage)) [
  | inl e ↦ ground (arith, e)
  | inr e ↦ ground (arith, e)
]

module _ (owner_id : ℕ) (form : CreateForm) (d : Db) where
  abbrev row : PlateType → Car
  row t = new_car owner_id form t d.next_id

  abbrev added : PlateType → Db
  added t = record d { next_id = suc d.next_id; cars = d.cars ++ row t ∷ [] }

  create-passes :
      {q : Car}
      → (create owner_id form d).0 ≡ ok q
      → (t : PlateType) × (find_row (λ c. text_eq c.plate form.plate) d.cars ≡ none)
        × ((create owner_id form d).1.cars ≡ d.cars ++ row t ∷ [])
        × (q ≡ row t)
  unfolding create check_unique_plate
  create-passes h = elim (Result-cases (type_of form d).0) [
    | inl (e, refused) ↦ absurd (ground (arith, refused))
    | inr (t, typed) ↦ (
      t,
      ground (arith, typed, type_of-state form d),
      ground (
        arith,
        typed,
        type_of-state form d,
        check_unique_vin-state form.vin none d,
        seed_history-cars (row t) (added t),
      ),
      ground (
        arith,
        typed,
        type_of-state form d,
        check_unique_vin-state form.vin none d,
        seed_history-cars (row t) (added t),
      ),
    )
  ]

  -- A new car has a plate that no car had: where no two cars have one plate, none do afterwards.
  pub create-UniquePlates :
      {q : Car}
      → UniquePlates d
      → (create owner_id form d).0 ≡ ok q
      → UniquePlates (create owner_id form d).1
  create-UniquePlates unique h =
      let (t, free, cars, same) = create-passes h in
      rw cars (
        Keyed-append_new (λ (c : Car). c.plate) d.cars (row t)
          (All-map {Q = λ (x : Car). x.plate ≢ form.plate}
            (λ (x : Car) fails eq.
              absurd (ground (arith, fails, (text_eq_iff x.plate form.plate).1 eq)))
            d.cars (find_row-All (λ c. text_eq c.plate form.plate) d.cars free))
          unique)

  -- What the two checks of `create` have found.
  vin_free :
      (vin : Option Text)
      → vin ≢ some []
      → (check_unique_vin vin none d).0 ≡ ok tt
      → All (λ x. elim vin [ none ↦ false | some v ↦ repo.same_vin v x ] ≡ false) d.cars
  unfolding check_unique_vin
  vin_free none set h = All-always (λ x. refl) d.cars
  vin_free (some []) set h = absurd (set refl)
  vin_free (some (v ∷ vs)) set h = find_row-All (repo.same_vin (v ∷ vs)) d.cars (ground (arith, h))

  checked-clashes :
      (t : PlateType)
      → find_row (λ c. text_eq c.plate form.plate) d.cars ≡ none
      → form.vin ≢ some []
      → (check_unique_vin form.vin none d).0 ≡ ok tt
      → clashes (row t) d ≡ false
  checked-clashes t free set vin_ok = ap is_some (
      none-find_row
        (λ x.
          not (x.id == d.next_id)
          && (text_eq x.plate form.plate
              || elim (form.vin) [ none ↦ false | some v ↦ repo.same_vin v x ]))
        d.cars
        (All-map_both (λ (x : Car) a b. ground (arith, a, b)) d.cars
          (find_row-All (λ c. text_eq c.plate form.plate) d.cars free)
          (vin_free form.vin set vin_ok)))

  -- For an owner who is a user, and a VIN that is missing or not empty, the checks of `create`
  -- come before the constraints of the table: it never ends in an integrity error.
  pub create-database_error :
      repo.known_user owner_id d ≡ true
      → form.vin ≢ some []
      → (create owner_id form d).0 ≢ err database_error
  unfolding create check_unique_plate
  create-database_error known set h = elim (Result-cases (type_of form d).0) [
    | inl (e, refused) ↦ ground (arith, h, refused, type_of-value_error form d refused)
    | inr (t, typed) ↦ elim (Option-cases (find_row (λ c. text_eq c.plate form.plate) d.cars)) [
      | inr (c, taken) ↦ ground (arith, typed, taken, type_of-state form d)
      | inl free ↦ elim (Result-cases (check_unique_vin form.vin none d).0) [
        | inl (e, refused) ↦ ground (
          arith,
          h,
          typed,
          free,
          refused,
          type_of-state form d,
          check_unique_vin-duplicate form.vin none d refused,
        )
        | inr (u, vin_ok) ↦ ground (
          arith,
          typed,
          free,
          vin_ok,
          type_of-state form d,
          check_unique_vin-state form.vin none d,
          checked-clashes t free set vin_ok,
          seed_history-cars (row t) (added t),
        )
      ]
    ]
  ]
