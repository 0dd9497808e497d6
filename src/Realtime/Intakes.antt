-- ===== src/Realtime/Intakes.antt =====
-- What an intake by VIN or plate does.
use ulov_backend.Prelude.Pages.{find_key-update_rows}
use ulov_backend.Prelude.{
  ℕ, ◌≡◌, ◌⊎◌, refl, sym, ap, ◌∙◌, true, not, ◌&&◌, Option, none, some, List, ◌++◌, inl, inr, arith,
  [],
}
use mathlib.Core.Path.{subst}
use ulov_backend.Prelude.Tests.{Option-cases, Bool-cases, ltb, ◌==◌}
use ulov_backend.Prelude.Text.{Text, text_eq, truthy?, text_or_empty}
use ulov_backend.Prelude.Lists.{find_row, find_row-test}
use ulov_backend.Exec.{Result, ok, err, Result-cases}
use ulov_backend.Rbac.{CurrentUser, is_staff}
use ulov_backend.Db.{Db}
use ulov_backend.Db.Rows.{Service, ServiceItem, Car, waiting}
use ulov_backend.Cars.Repository as cars_repo
use ulov_backend.Cars.Repository.{same_vin}
use ulov_backend.Services.Repository as services_repo
use ulov_backend.Services.Access.{
  by_vin, or_by_plate, lookup_vehicle, get_or_404, get_for_user, list_items, assert_view_access,
}
use ulov_backend.Services.Intake.{create, IntakeForm}
use ulov_backend.Services.Intake.Effect.{
  Admitted, create-Admitted, intake_row, create-intake_row, snapped,
}
use ulov_backend.Realtime.{World}
use ulov_backend.Realtime.Desk.{IntakeIn, form_of, open_for, open_found, intake}
use ulov_backend.Realtime.Moves.{assert_view_access-state}
use ulov_backend.Realtime.Staff.{serve_staff_failed, serve_staff_ok, told, publications-told}

-- The car has the VIN or the plate that was asked for.
abbrev pub IsNamed : Option Text → Option Text → Car → Type 0
IsNamed vin plate c =
    ((truthy? vin ≡ true) × (same_vin (text_or_empty vin) c ≡ true))
    ⊎ ((truthy? plate ≡ true) × (text_eq c.plate (text_or_empty plate) ≡ true))

or_by_plate-IsNamed :
    (plate : Option Text) (d : Db) (c : Car)
    → (or_by_plate plate none d).0 ≡ ok (some c)
    → (truthy? plate ≡ true) × (text_eq c.plate (text_or_empty plate) ≡ true)
unfolding or_by_plate cars_repo.get_by_plate
or_by_plate-IsNamed plate d c h = elim (Bool-cases (truthy? plate)) [
  | inr missing ↦ absurd (ground (arith, missing, h))
  | inl given ↦
      let found : find_row (λ x. text_eq x.plate (text_or_empty plate)) d.cars ≡ some c =
        ground (arith, given, h) in
      (given, find_row-test (λ x. text_eq x.plate (text_or_empty plate)) d.cars found)
]

by_vin-IsNamed :
    (vin : Option Text) (d : Db) (c : Car)
    → (by_vin vin d).0 ≡ ok (some c)
    → (truthy? vin ≡ true) × (same_vin (text_or_empty vin) c ≡ true)
unfolding by_vin cars_repo.get_by_vin
by_vin-IsNamed vin d c h = elim (Bool-cases (truthy? vin)) [
  | inr missing ↦ absurd (ground (arith, missing, h))
  | inl given ↦
      let found : find_row (same_vin (text_or_empty vin)) d.cars ≡ some c =
        ground (arith, given, h) in
      (given, find_row-test (same_vin (text_or_empty vin)) d.cars found)
]

by_vin-reads : (vin : Option Text) (d : Db) → (o : Option Car) × (by_vin vin d ≡ (ok o, d))
unfolding by_vin cars_repo.get_by_vin
by_vin-reads vin d = elim (Bool-cases (truthy? vin)) [
  | inl given ↦ (find_row (same_vin (text_or_empty vin)) d.cars, ground (arith, given))
  | inr missing ↦ (none, ground (arith, missing))
]

or_by_plate-reads :
    (plate : Option Text) (o : Option Car) (d : Db)
    → (o' : Option Car) × (or_by_plate plate o d ≡ (ok o', d))
unfolding or_by_plate cars_repo.get_by_plate
or_by_plate-reads plate (some c) d = (some c, refl)
or_by_plate-reads plate none d = elim (Bool-cases (truthy? plate)) [
  | inl given ↦
      (find_row (λ x. text_eq x.plate (text_or_empty plate)) d.cars, ground (arith, given))
  | inr missing ↦ (none, ground (arith, missing))
]

or_by_plate_found :
    (vin plate : Option Text) (d : Db) (c : Car) (o : Option Car)
    → by_vin vin d ≡ (ok o, d)
    → (or_by_plate plate o d).0 ≡ ok (some c)
    → IsNamed vin plate c
unfolding or_by_plate
or_by_plate_found vin plate d c none e h = inr (or_by_plate-IsNamed plate d c h)
or_by_plate_found vin plate d c (some x) e h = inl (by_vin-IsNamed vin d c (ground (arith, e, h)))

-- A vehicle that the lookup finds has the VIN or the plate, and the lookup only reads.
lookup_vehicle_ok :
    (u : CurrentUser) (vin plate : Option Text) (d : Db) (c : Car)
    → (lookup_vehicle u vin plate d).0 ≡ ok c
    → IsNamed vin plate c × ((lookup_vehicle u vin plate d).1 ≡ d)
unfolding lookup_vehicle
lookup_vehicle_ok u vin plate d c h =
    let (o, e) = by_vin-reads vin d in
    let (o', e') = or_by_plate-reads plate o d in
    elim (Bool-cases (not (truthy? vin) && not (truthy? plate))) [
      | inl nothing ↦ absurd (ground (arith, nothing, h))
      | inr something ↦ elim (Bool-cases (is_staff u)) [
        | inr guest ↦ absurd (ground (arith, something, guest, h))
        | inl member ↦ elim (Option-cases o') [
          | inl q ↦ absurd (ground (arith, something, member, e, e', q, h))
          | inr (x, q) ↦
              let same : x ≡ c = ground (arith, something, member, e, e', q, h) in
              (
                or_by_plate_found vin plate d c o e (ground (arith, e', q, same)),
                ground (arith, something, member, e, e', q),
              )
        ]
      ]
    ]

list_items-reads : (i : ℕ) (u : CurrentUser) (d : Db) → (list_items i u d).1 ≡ d
unfolding list_items get_for_user get_or_404 services_repo.get_by_id services_repo.list_items
list_items-reads i u d = elim (Option-cases (find_row (services_repo.is_live i) d.services)) [
  | inl e ↦ ground (arith, e)
  | inr (s, e) ↦ elim (Result-cases (assert_view_access s u d).0) [
    | inl (c, q) ↦ ground (arith, e, q, assert_view_access-state d s u)
    | inr (v, q) ↦ ground (arith, e, q, assert_view_access-state d s u)
  ]
]

-- A vehicle is found, and the intake of its car succeeds.
open_found_ok :
    (u : CurrentUser) (center_id : ℕ) (body : IntakeIn) (d : Db) (s : Service)
    (items : List ServiceItem)
    → (open_found u center_id body d).0 ≡ ok (s, items)
    → (car : Car) × IsNamed body.vin body.plate car
      × (s ≡ intake_row center_id (form_of body car) d)
      × Admitted center_id u (form_of body car) d (open_found u center_id body d).1
unfolding open_found open_for
open_found_ok u center_id body d s items h =
    elim (Result-cases (lookup_vehicle u body.vin body.plate d).0) [
      | inl (c, e) ↦ absurd (ground (arith, e, h))
      | inr (car, e) ↦
          let (named, kept) = lookup_vehicle_ok u body.vin body.plate d car e in
          let form = form_of body car in
          elim (Result-cases (create center_id u form d).0) [
            | inl (c, f) ↦ absurd (ground (arith, e, kept, f, h))
            | inr (s', f) ↦
                let d' = (create center_id u form d).1 in
                let reads = list_items-reads s'.id u d' in
                elim (Result-cases (list_items s'.id u d').0) [
                  | inl (c, g) ↦ absurd (ground (arith, e, kept, f, g, reads, h))
                  | inr (xs, g) ↦
                      let same : s' ≡ s = ground (arith, e, kept, f, g, reads, h) in
                      let state : (open_found u center_id body d).1 ≡ d' =
                        ground (arith, e, kept, f, g, reads) in
                      (
                        car,
                        named,
                        sym same ∙ create-intake_row center_id u form d f,
                        subst (Admitted center_id u form d) (sym state)
                            (create-Admitted center_id u form d f),
                      )
                ]
          ]
    ]

-- The form of a service that a body asks for.
abbrev pub asked : IntakeIn → Car → IntakeForm
asked body car = record {
  car_id = car.id;
  mileage_at_intake = body.mileage_at_intake;
  mechanic_id = body.mechanic_id;
  next_recommended_mileage = none;
  notes = body.notes;
  items = [];
}

-- The service waits in the centre, for the car, with what was sent.
pub record OpenedFor (center_id : ℕ) (body : IntakeIn) (car : Car) (s : Service) : Type 0 where
  pub in_center : s.center_id ≡ center_id
  pub for_car : s.car_id ≡ car.id
  pub waits : s.status ≡ waiting
  pub mileage : s.mileage_at_intake ≡ body.mileage_at_intake
  pub by_mechanic : s.mechanic_id ≡ body.mechanic_id
  pub with_notes : s.notes ≡ body.notes

intake_row-OpenedFor :
    (center_id : ℕ) (body : IntakeIn) (car : Car) (d : Db) (s : Service)
    → s ≡ intake_row center_id (asked body car) d
    → OpenedFor center_id body car s
intake_row-OpenedFor center_id body car d s e =
    subst (OpenedFor center_id body car) (sym e) (record {
      in_center = refl;
      for_car = refl;
      waits = refl;
      mileage = refl;
      by_mechanic = refl;
      with_notes = refl;
    })

-- The mileage of an intake leaves the owners of the cars.
snapped_owner :
    (car : Car) (mileage k : ℕ) (cars : List Car) (c : Car)
    → find_row (λ x. x.id == k) cars ≡ some c
    → (c' : Car) × (find_row (λ x. x.id == k) (snapped car mileage cars) ≡ some c')
      × (c'.owner_id ≡ c.owner_id)
snapped_owner car mileage k cars c e =
    let set : Car → Car = λ x. record x { mileage = mileage } in
    let moved = find_key-update_rows (λ x. x.id) car.id k set (λ _. refl) cars in
    elim (Bool-cases (ltb car.mileage mileage)) [
      | inr low ↦ (c, ground (arith, low, e), refl)
      | inl high ↦ elim (Bool-cases (k == car.id)) [
        | inl here ↦ (set c, ground (arith, high, moved, e, here), refl)
        | inr other ↦ (c, ground (arith, high, moved, e, other), refl)
      ]
    ]

module _ (uuid_text : ℕ → Text) (u : CurrentUser) (center_id : ℕ) (body : IntakeIn)
    (w : World) where
  -- What a request for an intake comes to.
  abbrev pub Opens : Result (Service × List ServiceItem) × World → Type 0
  Opens (err e, w') = w' ≡ w
  Opens (ok (s, items), w') =
      (car owned : Car) × IsNamed body.vin body.plate car
      × (find_row (λ c. c.id == car.id) w.0.cars ≡ some owned)
      × OpenedFor center_id body car s
      × Admitted center_id u (asked body car) w.0 w'.0
      × (w'.1
          ≡ w.1
            ++ told uuid_text s.id center_id owned.owner_id (record {
              service_id = s.id;
              center_id = center_id;
              status = waiting;
              to_status = none;
            }))

  intake_from :
      (r : Result (Service × List ServiceItem) × World)
      → intake uuid_text (ok u) center_id body w ≡ r
      → Opens r
  unfolding intake
  intake_from (err e, w') h =
      sym (ap (λ r. r.1) h)
      ∙ serve_staff_failed uuid_text (ok u) none (λ v. open_found v center_id body) w e
          (ap (λ r. r.0) h)
  intake_from (ok (s, items), w') h =
      let (ran, state) =
        serve_staff_ok uuid_text u none (λ v. open_found v center_id body) w s items
          (ap (λ r. r.0) h) in
      let d' = (open_found u center_id body w.0).1 in
      let (car, named, row, admitted) = open_found_ok u center_id body w.0 s items ran in
      let opened = intake_row-OpenedFor center_id body car w.0 s row in
      let (c, there, owner) =
        snapped_owner admitted.car body.mileage_at_intake car.id w.0.cars admitted.car
          admitted.car_found in
      let seen : find_row (λ x. x.id == s.car_id) d'.cars ≡ some c =
        rw (opened.for_car, admitted.opened.cars_set) there in
      let heard = publications-told uuid_text s d' none c seen in
      subst (λ v. Opens (ok (s, items), v)) (sym state ∙ ap (λ r. r.1) h)
        (
          car,
          admitted.car,
          named,
          admitted.car_found,
          opened,
          admitted,
          rw (heard, owner, opened.in_center, opened.waits) refl,
        )

  -- An intake by VIN or plate that fails, wherever it does, leaves the database as it was and
  -- publishes nothing. One that succeeds has found a car with the VIN or the plate that was sent,
  -- answers a waiting service in the centre for that car with what was sent, which it has opened
  -- under the rules of an intake, and publishes three events about it: on the channel of the
  -- service, on that of the centre and on that of the owner of the car.
  pub intake-Opens : Opens (intake uuid_text (ok u) center_id body w)
  intake-Opens = intake_from (intake uuid_text (ok u) center_id body w) refl
