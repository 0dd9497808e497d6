-- ===== src/Trips.antt =====
-- app/modules/trips/service.py: trips and their GPS points, in a store of their own beside the
-- database. Floating-point numbers and fixed decimals are `Floats`, as Python's `math` and `decimal`
-- give them; times are in microseconds.
pub mod Requests
pub mod Finished
use ulov_backend.Prelude.{
  ℕ, zero, suc, ◌-◌, ◌/◌, Bool, true, false, not, ◌&&◌, ◌||◌, Option, none, some, List, [], ◌∷◌,
  ◌++◌, map,
}
use mathlib.Core.List.{reverse}
use ulov_backend.Prelude.Tests.{◌==◌, leb, is_some, or_else, if◌then◌else◌, ℤ, pos, negsuc}
use ulov_backend.Prelude.Lists.{find_row, select_rows, update_rows, length}
use ulov_backend.Prelude.Pages.{take}
use ulov_backend.Prelude.Groups.{order_by}
use ulov_backend.Errors.{trip_not_found, trip_not_owner, trip_finished, database_error}
use ulov_backend.Exec.{Exec, pure, gets, modify, or_raise, raise_if, ◌>>=◌, ◌>>◌, Result, ok, err}
use ulov_backend.Db.{Db}
use ulov_backend.Cars.Service as cars

-- The operations on floats that `_haversine_km` and `finish` use; `dec3` and `dec2` are
-- `Decimal(f"{x:.3f}")` and `Decimal(f"{x:.2f}")`.
pub record Floats (F D : Type 0) : Type 0 where
  pub zero_f : F
  pub two : F
  pub radius_km : F
  pub seconds_per_hour : F
  pub litres_per_km : F
  pub of_int : ℤ → F
  pub radians : F → F
  pub sin : F → F
  pub cos : F → F
  pub asin : F → F
  pub sqrt : F → F
  pub add : F → F → F
  pub sub : F → F → F
  pub mul : F → F → F
  pub div : F → F → F
  pub dec3 : F → D
  pub dec2 : F → D
  pub dec_zero : D

pub record Trip (D : Type 0) : Type 0 where
  pub id : ℕ
  pub user_id : ℕ
  pub car_id : Option ℕ
  pub started_at : ℕ
  pub finished_at : Option ℕ
  pub distance_km : D
  pub duration_s : ℤ
  pub avg_speed : D
  pub fuel_l_est : D

-- What a client sends of a point; `ts` is set below where it is missing.
pub record PointIn (F : Type 0) : Type 0 where
  pub lat : F
  pub lng : F
  pub speed : Option F
  pub heading : Option F
  pub ts : Option ℕ

pub record TripPoint (F : Type 0) : Type 0 where
  pub trip_id : ℕ
  pub lat : F
  pub lng : F
  pub speed : Option F
  pub heading : Option F
  pub ts : ℕ

pub record Store (F D : Type 0) : Type 0 where
  pub db : Db
  pub next_trip : ℕ
  pub trips : List (Trip D)
  pub points : List (TripPoint F)

-- `int((finished - started).total_seconds())`, which cuts off towards zero.
abbrev pub seconds_between : ℕ → ℕ → ℤ
seconds_between started finished =
    if leb started finished
    then pos ((finished - started) / 1000000)
    else elim ((started - finished) / 1000000) [ zero ↦ pos 0 | suc n ↦ negsuc n ]

-- `duration > 0`
abbrev pub positive : ℤ → Bool
positive (pos zero) = false
positive (pos (suc n)) = true
positive (negsuc n) = false

-- The user, and the car where there is one, must be rows of their tables.
abbrev pub unknown_ref : ℕ → Option ℕ → Db → Bool
unknown_ref user_id car_id d =
    not (is_some (find_row (λ u. u.id == user_id) d.users))
    || elim car_id [ none ↦ false | some i ↦ not (is_some (find_row (λ c. c.id == i) d.cars)) ]

-- A reference whose row is deleted, under `ondelete="SET NULL"`.
abbrev pub set_null : ℕ → Option ℕ → Option ℕ
set_null i none = none
set_null i (some j) = if j == i then none else some j

module _ {F D : Type 0} (fl : Floats F D) where
  abbrev square : F → F
  square x = fl.mul x x

  -- `_haversine_km`
  unfoldable pub haversine_km : F → F → F → F → F
  haversine_km lat1 lng1 lat2 lng2 =
      let p1 = fl.radians lat1 in
      let p2 = fl.radians lat2 in
      let dp = fl.radians (fl.sub lat2 lat1) in
      let dl = fl.radians (fl.sub lng2 lng1) in
      let a =
        fl.add (square (fl.sin (fl.div dp fl.two)))
          (fl.mul (fl.mul (fl.cos p1) (fl.cos p2)) (square (fl.sin (fl.div dl fl.two)))) in
      fl.mul (fl.mul fl.two fl.radius_km) (fl.asin (fl.sqrt a))

  -- `for a, b in zip(pts, pts[1:]): distance += ...`
  unfoldable pub path_km : F → TripPoint F → List (TripPoint F) → F
  unfolding haversine_km
  path_km distance a [] = distance
  path_km distance a (b ∷ rest) =
      path_km (fl.add distance (haversine_km a.lat a.lng b.lat b.lng)) b rest

  unfoldable pub distance_of : List (TripPoint F) → F
  unfolding path_km
  distance_of [] = fl.zero_f
  distance_of (a ∷ rest) = path_km fl.zero_f a rest

  -- `_get_owned`
  unfoldable pub get_owned : ℕ → ℕ → Exec (Store F D) (Trip D)
  get_owned trip_id user_id = do
    found ← gets (λ w. find_row (λ t. t.id == trip_id) w.trips)
    trip ← or_raise found trip_not_found
    raise_if (not (trip.user_id == user_id)) trip_not_owner
    pure trip

  abbrev pub new_trip : ℕ → ℕ → ℕ → Option ℕ → Trip D
  new_trip i now user_id car_id = record {
    id = i;
    user_id = user_id;
    car_id = car_id;
    started_at = now;
    finished_at = none;
    distance_km = fl.dec_zero;
    duration_s = pos 0;
    avg_speed = fl.dec_zero;
    fuel_l_est = fl.dec_zero;
  }

  -- `started_at` is the time of the transaction.
  unfoldable pub start : ℕ → Option ℕ → Exec (Store F D) (Trip D)
  start user_id car_id = do
    bad ← gets (λ w. unknown_ref user_id car_id w.db)
    raise_if bad database_error
    trip ← gets (λ w. new_trip w.next_trip w.db.tx_now user_id car_id)
    modify (λ w. record w { next_trip = suc w.next_trip; trips = w.trips ++ trip ∷ [] })
    pure trip

  abbrev pub point_of : ℕ → ℕ → PointIn F → TripPoint F
  point_of trip_id now p = record {
    trip_id = trip_id;
    lat = p.lat;
    lng = p.lng;
    speed = p.speed;
    heading = p.heading;
    ts = or_else p.ts now;
  }

  -- One clock reading stands for those of all points without a time.
  unfoldable pub append_points : ℕ → ℕ → ℕ → List (PointIn F) → Exec (Store F D) ℕ
  unfolding get_owned
  append_points now trip_id user_id points = do
    trip ← get_owned trip_id user_id
    raise_if (is_some trip.finished_at) trip_finished
    modify (λ w. record w { points = w.points ++ map (point_of trip.id now) points })
    pure (length points)

  -- The columns that `finish` sets.
  unfoldable pub finished_trip : ℕ → F → Trip D → Trip D
  finished_trip now distance trip =
      let duration = seconds_between trip.started_at now in
      let avg_speed =
        if positive duration
        then fl.div distance (fl.div (fl.of_int duration) fl.seconds_per_hour)
        else fl.zero_f in
      record trip {
        finished_at = some now;
        distance_km = fl.dec3 distance;
        duration_s = duration;
        avg_speed = fl.dec2 avg_speed;
        fuel_l_est = fl.dec3 (fl.mul distance fl.litres_per_km);
      }

  abbrev pub points_of : ℕ → Store F D → List (TripPoint F)
  points_of trip_id w =
      order_by (λ a b. leb a.ts b.ts) (select_rows (λ p. p.trip_id == trip_id) w.points)

  unfoldable pub finish : ℕ → ℕ → ℕ → Exec (Store F D) (Trip D)
  unfolding get_owned distance_of finished_trip
  finish now trip_id user_id = do
    trip ← get_owned trip_id user_id
    if is_some trip.finished_at then pure trip else (do
      pts ← gets (points_of trip.id)
      let set = finished_trip now (distance_of pts)
      modify (λ w. record w { trips = update_rows (λ t. t.id == trip.id) set w.trips })
      pure (set trip))

  -- The deletion of a car, app/modules/cars/service.py: the foreign key of trips is SET NULL.
  abbrev pub forget_car : ℕ → Trip D → Trip D
  forget_car car_id t = record t { car_id = set_null car_id t.car_id }

  abbrev pub without_car : ℕ → Store F D → Result (Unit {0}) × Db → Result (Unit {0}) × Store F D
  without_car car_id w (err e, d) = (err e, record w { db = d })
  without_car car_id w (ok _, d) =
      (ok tt, record w { db = d; trips = map (forget_car car_id) w.trips })

  unfoldable pub delete_car : (ℕ → Bool) → ℕ → ℕ → Exec (Store F D) (Unit {0})
  unfolding cars.delete
  delete_car insured car_id owner_id w =
      without_car car_id w (cars.delete insured car_id owner_id w.db)

  -- `order_by(Trip.started_at.desc()).limit(50)`; the table is in the order of `started_at`.
  unfoldable pub list_for_user : ℕ → Exec (Store F D) (List (Trip D))
  list_for_user user_id =
      gets (λ w. take 50 (reverse (select_rows (λ t. t.user_id == user_id) w.trips)))
