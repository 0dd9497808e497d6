-- ===== src/Services/Intake/Effect.antt =====
-- What an intake has done when it succeeds.
use ulov_backend.Prelude.{
  ℕ, suc, ◌≤◌, ◌<◌, ◌≡◌, refl, ◌∙◌, true, false, Option, none, some, inl, inr, List, [], ◌∷◌, ◌++◌,
  arith,
}
use ulov_backend.Prelude.Tests.{◌==◌, Option-cases, Bool-cases, ltb, if◌then◌else◌}
use ulov_backend.Prelude.Lists.{find_row, update_rows}
use ulov_backend.Exec.{ok, Result-cases}
use ulov_backend.Rbac.{CurrentUser}
use ulov_backend.Db.{Db}
use ulov_backend.Db.Rows.{Service, ServiceTransition, ServiceCenter, ItemFields, Car, waiting}
use ulov_backend.Centers
use ulov_backend.Services.Repository.{new_row}
use ulov_backend.Services.Repository.Items.{Spares, replace_items-Spares, replace_items_ok}
use ulov_backend.Services.Access.{validate_car, validate_mechanic_for_center}
use ulov_backend.Services.Intake.{IntakeForm, store_items, snap_mileage, open_service, create}

-- The row that an intake adds.
abbrev pub intake_row : ℕ → IntakeForm → Db → Service
intake_row center_id form d =
    new_row
      (record {
        car_id = form.car_id;
        center_id = center_id;
        mechanic_id = form.mechanic_id;
        status = waiting;
        mileage_at_intake = form.mileage_at_intake;
        next_recommended_mileage = form.next_recommended_mileage;
        notes = form.notes;
      })
      d.next_id d.tx_now

store_items-Spares :
    (service_id : ℕ) (fs : List ItemFields) (d : Db) → Spares d (store_items service_id fs d).1
unfolding store_items
store_items-Spares service_id [] d = ground arith
store_items-Spares service_id (f ∷ fs) d =
    ground (
      arith,
      replace_items-Spares service_id (f ∷ fs) d,
      (replace_items_ok service_id (f ∷ fs) d).1,
    )

store_items_ok :
    (service_id : ℕ) (fs : List ItemFields) (d : Db) → (store_items service_id fs d).0 ≡ ok tt
unfolding store_items
store_items_ok service_id [] d = refl
store_items_ok service_id (f ∷ fs) d = ground (arith, (replace_items_ok service_id (f ∷ fs) d).1)

-- The mileage of the car is raised to the one of the intake, and never lowered.
abbrev pub snapped : Car → ℕ → List Car → List Car
snapped car mileage cars =
    if ltb car.mileage mileage
    then update_rows (λ c. c.id == car.id) (λ c. record c { mileage = mileage }) cars
    else cars

pub record Snapped (car : Car) (mileage : ℕ) (d d' : Db) : Type 0 where
  pub cars_set : d'.cars ≡ snapped car mileage d.cars
  pub services_kept : d'.services ≡ d.services
  pub transitions_kept : d'.transitions ≡ d.transitions
  pub later : d.next_id ≤ d'.next_id

snap_mileage-Snapped :
    (car : Car) (mileage : ℕ) (d : Db)
    → Snapped car mileage d (snap_mileage car mileage d).1
      × ((snap_mileage car mileage d).0 ≡ ok tt)
unfolding snap_mileage
snap_mileage-Snapped car mileage d = elim (Bool-cases (ltb car.mileage mileage)) [
  | inl e ↦ ground (arith, e)
  | inr e ↦ ground (arith, e)
]

pub record Opened (car : Car) (center_id : ℕ) (u : CurrentUser) (form : IntakeForm) (d d' : Db)
    : Type 0 where
  pub row_added : d'.services ≡ d.services ++ intake_row center_id form d ∷ []
  pub cars_set : d'.cars ≡ snapped car form.mileage_at_intake d.cars
  pub entry : ServiceTransition
  pub entry_service : entry.service_id ≡ d.next_id
  pub entry_from : entry.from_status ≡ none
  pub entry_to : entry.to_status ≡ waiting
  pub logged : d'.transitions ≡ d.transitions ++ entry ∷ []
  pub later : d.next_id < d'.next_id

module _ (car : Car) (center_id : ℕ) (u : CurrentUser) (form : IntakeForm) (d : Db) where
  -- After the row is added, and after its items are.
  abbrev created : Db
  created = record d {
    next_id = suc d.next_id;
    services = d.services ++ intake_row center_id form d ∷ [];
  }

  abbrev stored : Db
  stored = (store_items d.next_id form.items created).1

  abbrev entry_row : ServiceTransition
  entry_row = record {
    id = stored.next_id;
    service_id = d.next_id;
    from_status = none;
    to_status = waiting;
    by_user_id = some u.id;
    reason = none;
    at = stored.tx_now;
  }

  abbrev entered : Db
  entered = record stored {
    next_id = suc stored.next_id;
    transitions = stored.transitions ++ entry_row ∷ [];
  }

  -- The state after an intake that succeeds.
  open_service-state :
      {s : Service}
      → (open_service car center_id u form d).0 ≡ ok s
      → (open_service car center_id u form d).1
        ≡ (snap_mileage car form.mileage_at_intake entered).1
  unfolding open_service
  open_service-state h = ground (
    arith,
    store_items_ok d.next_id form.items created,
    (snap_mileage-Snapped car form.mileage_at_intake entered).1,
  )

  open_service-intake_row :
      {s : Service}
      → (open_service car center_id u form d).0 ≡ ok s
      → s ≡ intake_row center_id form d
  unfolding open_service
  open_service-intake_row h = ground (
    arith,
    store_items_ok d.next_id form.items created,
    (snap_mileage-Snapped car form.mileage_at_intake entered).1,
  )

  pub open_service-Opened :
      {s : Service}
      → (open_service car center_id u form d).0 ≡ ok s
      → Opened car center_id u form d (open_service car center_id u form d).1
  open_service-Opened h = rw (open_service-state h) (record {
    row_added = snapped_to.services_kept ∙ spared.services_kept;
    cars_set = snapped_to.cars_set ∙ rw spared.cars_kept refl;
    entry = entry_row;
    entry_service = refl;
    entry_from = refl;
    entry_to = refl;
    logged = snapped_to.transitions_kept ∙ rw spared.transitions_kept refl;
    later = omega (arith, snapped_to.later, spared.later);
  })
    where
      snapped_to :
          Snapped car form.mileage_at_intake entered
            (snap_mileage car form.mileage_at_intake entered).1
      snapped_to = (snap_mileage-Snapped car form.mileage_at_intake entered).0

      spared : Spares created stored
      spared = store_items-Spares d.next_id form.items created

assert_ops_access-state :
    (center_id : ℕ) (u : CurrentUser) (d : Db) → (Centers.assert_ops_access center_id u d).1 ≡ d
unfolding Centers.assert_ops_access
assert_ops_access-state center_id u d = ground arith

validate_mechanic-state :
    (center_id : ℕ) (m : Option ℕ) (d : Db) → (validate_mechanic_for_center center_id m d).1 ≡ d
unfolding validate_mechanic_for_center
validate_mechanic-state center_id none d = refl
validate_mechanic-state center_id (some m) d = ground arith

-- What a successful intake has read: the centre, which the user may work for, and the car, with a
-- mileage that is not above the one at the intake.
pub record Admitted (center_id : ℕ) (u : CurrentUser) (form : IntakeForm) (d d' : Db) : Type 0 where
  pub center : ServiceCenter
  pub center_found : find_row (λ c. c.id == center_id) d.centers ≡ some center
  pub center_allowed : Centers.can_view_center_ops center u ≡ true
  pub car : Car
  pub car_found : find_row (λ c. c.id == form.car_id) d.cars ≡ some car
  pub not_below : car.mileage ≤ form.mileage_at_intake
  pub opened : Opened car center_id u form d d'

ops_access-center :
    (center_id : ℕ) (u : CurrentUser) (d : Db) {c : ServiceCenter}
    → (Centers.assert_ops_access center_id u d).0 ≡ ok c
    → (find_row (λ c. c.id == center_id) d.centers ≡ some c)
      × (Centers.can_view_center_ops c u ≡ true)
unfolding Centers.assert_ops_access
ops_access-center center_id u d h = ground arith

-- The checks of `create` pass, and what is left is the writes.
create-passes :
    (center_id : ℕ) (u : CurrentUser) (form : IntakeForm) (d : Db) {s : Service}
    → (create center_id u form d).0 ≡ ok s
    → (c : ServiceCenter) × (car : Car) × ((Centers.assert_ops_access center_id u d).0 ≡ ok c)
      × (find_row (λ c. c.id == form.car_id) d.cars ≡ some car)
      × (ltb form.mileage_at_intake car.mileage ≡ false)
      × ((open_service car center_id u form d).0 ≡ ok s)
      × ((create center_id u form d).1 ≡ (open_service car center_id u form d).1)
unfolding create validate_car
create-passes center_id u form d h =
    elim (Result-cases (Centers.assert_ops_access center_id u d).0) [
      | inl (e, refused) ↦ absurd (ground (arith, refused))
      | inr (c, passed) ↦ elim (Option-cases (find_row (λ c. c.id == form.car_id) d.cars)) [
        | inl missing ↦
            absurd (ground (arith, missing, passed, assert_ops_access-state center_id u d))
        | inr (car, found) ↦
            let L1 = assert_ops_access-state center_id u d in
            let L2 = validate_mechanic-state center_id form.mechanic_id d in
            (
              c,
              car,
              passed,
              found,
              ground (arith, passed, found, L1, L2),
              ground (arith, passed, found, L1, L2),
              ground (arith, passed, found, L1, L2),
            )
      ]
    ]

-- A successful intake was asked by someone who may work for an existing centre, for an existing car
-- whose mileage is not above the one at the intake. It has added one waiting service and one log
-- entry, and has raised the car's mileage to the one at the intake and never lowered it.
pub create-Admitted :
    (center_id : ℕ) (u : CurrentUser) (form : IntakeForm) (d : Db) {s : Service}
    → (create center_id u form d).0 ≡ ok s
    → Admitted center_id u form d (create center_id u form d).1
create-Admitted center_id u form d h =
    let (c, car, e, found, above, opened, state) = create-passes center_id u form d h in
    let (center_found, center_allowed) = ops_access-center center_id u d e in
    record {
      center = c;
      center_found = center_found;
      center_allowed = center_allowed;
      car = car;
      car_found = found;
      not_below = ground (arith, above);
      opened = rw state (open_service-Opened car center_id u form d opened);
    }

-- The answer of a successful intake is the row that it added.
pub create-intake_row :
    (center_id : ℕ) (u : CurrentUser) (form : IntakeForm) (d : Db) {s : Service}
    → (create center_id u form d).0 ≡ ok s
    → s ≡ intake_row center_id form d
create-intake_row center_id u form d h =
    let (c, car, e, found, above, opened, state) = create-passes center_id u form d h in
    open_service-intake_row car center_id u form d opened
