-- ===== src/Services/Access.antt =====
-- app/modules/services/service.py, the access helpers and the reads.
pub mod Rules
use ulov_backend.Prelude.{ℕ, Bool, true, false, ◌&&◌, not, Option, none, some, List}
use ulov_backend.Prelude.Tests.{◌==◌, holds_id, if◌then◌else◌}
use ulov_backend.Prelude.Text.{Text, truthy?, text_or_empty}
use ulov_backend.Errors.{
  car_not_found, lookup_requires_vin_or_plate, lookup_staff_only, service_forbidden,
  service_mechanic_invalid, service_not_found, vehicle_not_found,
}
use ulov_backend.Exec.{Exec, pure, raise, or_raise, raise_if, ◌>>=◌, ◌>>◌}
use ulov_backend.Rbac.{CurrentUser, customer, mechanic, owner, admin, has_role, is_staff}
use ulov_backend.Db.{Db}
use ulov_backend.Db.Rows.{Service, ServiceItem, ServiceTransition, Car}
use ulov_backend.Centers
use ulov_backend.Mechanics
use ulov_backend.Cars.Repository as cars_repo
use ulov_backend.Services.Repository as repo

-- `_can_view`
unfoldable pub can_view : Service → CurrentUser → ℕ → Bool
can_view s u car_owner_id =
    if has_role u admin
    then true
    else if has_role u owner
    then true
    else if has_role u mechanic
    then holds_id u.center_id s.center_id
    else if has_role u customer
    then car_owner_id == u.id
    else false

-- `user.role == "mechanic"` of the service's own centre.
abbrev pub is_center_mechanic : CurrentUser → Service → Bool
is_center_mechanic u s = has_role u mechanic && holds_id u.center_id s.center_id

-- The end of `_assert_can_mutate` and `assert_view_access`.
abbrev pub forbidden_service : Exec Db (Unit {0})
forbidden_service = raise service_forbidden

-- `_assert_can_mutate`
unfoldable pub assert_can_mutate : Service → CurrentUser → Exec Db (Unit {0})
unfolding Centers.get_or_404
assert_can_mutate s u =
    if has_role u admin
    then pure tt
    else if is_center_mechanic u s
    then pure tt
    else if has_role u owner
    then (do
      center ← Centers.get_or_404 s.center_id
      raise_if (not (center.owner_user_id == u.id)) service_forbidden)
    else forbidden_service

-- The customer's part of `assert_view_access`.
owns_car : CurrentUser → Option Car → Bool
owns_car u none = false
owns_car u (some car) = car.owner_id == u.id

unfoldable pub assert_view_access : Service → CurrentUser → Exec Db (Unit {0})
unfolding Centers.get_or_404 cars_repo.get_by_id owns_car
assert_view_access s u =
    if has_role u admin
    then pure tt
    else if is_center_mechanic u s
    then pure tt
    else if has_role u owner
    then (do
      center ← Centers.get_or_404 s.center_id
      raise_if (not (center.owner_user_id == u.id)) service_forbidden)
    else if has_role u customer
    then (do car ← cars_repo.get_by_id s.car_id; raise_if (not (owns_car u car)) service_forbidden)
    else forbidden_service

-- `_get_or_404`
unfoldable pub get_or_404 : ℕ → Exec Db Service
unfolding repo.get_by_id
get_or_404 service_id = do found ← repo.get_by_id service_id; or_raise found service_not_found

unfoldable pub get_for_user : ℕ → CurrentUser → Exec Db Service
unfolding get_or_404 assert_view_access
get_for_user service_id u = do s ← get_or_404 service_id; assert_view_access s u; pure s

unfoldable pub list_items : ℕ → CurrentUser → Exec Db (List ServiceItem)
unfolding get_for_user repo.list_items
list_items service_id u = do s ← get_for_user service_id u; repo.list_items s.id

unfoldable pub list_timeline : ℕ → CurrentUser → Exec Db (List ServiceTransition)
unfolding get_for_user repo.list_transitions
list_timeline service_id u = do s ← get_for_user service_id u; repo.list_transitions s.id

-- `_validate_mechanic_for_center`
unfoldable pub validate_mechanic_for_center : ℕ → Option ℕ → Exec Db (Unit {0})
unfolding Mechanics.get_by_id
validate_mechanic_for_center center_id none = pure tt
validate_mechanic_for_center center_id (some mechanic_id) = do
  m ← Mechanics.get_by_id mechanic_id
  raise_if (elim m [ none ↦ true | some row ↦ not (row.center_id == center_id) ])
      service_mechanic_invalid

-- `_validate_car`
unfoldable pub validate_car : ℕ → Exec Db Car
unfolding cars_repo.get_by_id
validate_car car_id = do found ← cars_repo.get_by_id car_id; or_raise found car_not_found

-- The search by VIN, if one is given.
unfoldable pub by_vin : Option Text → Exec Db (Option Car)
unfolding cars_repo.get_by_vin
by_vin vin = if truthy? vin then cars_repo.get_by_vin (text_or_empty vin) else pure none

-- The search by plate, if none was found and a plate is given.
unfoldable pub or_by_plate : Option Text → Option Car → Exec Db (Option Car)
unfolding cars_repo.get_by_plate
or_by_plate plate (some car) = pure (some car)
or_by_plate plate none =
    if truthy? plate then cars_repo.get_by_plate (text_or_empty plate) else pure none

unfoldable pub lookup_vehicle : CurrentUser → Option Text → Option Text → Exec Db Car
unfolding by_vin or_by_plate
lookup_vehicle u vin plate = do
  raise_if (not (truthy? vin) && not (truthy? plate)) lookup_requires_vin_or_plate
  raise_if (not (is_staff u)) lookup_staff_only
  found ← by_vin vin
  car ← or_by_plate plate found
  or_raise car vehicle_not_found
