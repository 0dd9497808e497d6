-- ===== src/Services/Lists.antt =====
-- app/modules/services/service.py and repository.py, the lists, and the endpoints of router.py that
-- answer each service with its items.
pub mod Views
use ulov_backend.Prelude.{ℕ, Bool, true, false, ◌&&◌, ◌||◌, not, Option, none, some, List, [], ◌∷◌}
use mathlib.Core.List.{reverse}
use ulov_backend.Prelude.Tests.{◌==◌, leb, is_some, if◌then◌else◌}
use ulov_backend.Prelude.Lists.{find_row, select_rows}
use ulov_backend.Prelude.Pages.{take, drop}
use ulov_backend.Errors.{car_history_forbidden}
use ulov_backend.Exec.{Exec, pure, gets, raise_if, ◌>>=◌, ◌>>◌}
use ulov_backend.Rbac.{CurrentUser, customer, has_role, is_staff, get_current_staff}
use ulov_backend.Db.{Db}
use ulov_backend.Db.Rows.{Service, ServiceItem, Car, Status}
use ulov_backend.Centers
use ulov_backend.Services.StateMachine.{mem_status}
use ulov_backend.Services.Access.{validate_car, list_items}

-- `.order_by(created_at.desc()).limit(limit).offset(offset)` of the rows that are not deleted; the
-- table is in the order of `created_at`.
abbrev pub page : (Service → Bool) → ℕ → ℕ → Db → List Service
page p limit offset d =
    take limit
      (drop offset (reverse (select_rows (λ s. not (is_some s.deleted_at) && p s) d.services)))

-- The filters of a centre's queue; an empty list of states is no filter.
pub record Filter : Type 0 where
  pub statuses : List Status
  pub date_from : Option ℕ
  pub date_to : Option ℕ

has_status : List Status → Status → Bool
has_status [] s = true
has_status (t ∷ ts) s = mem_status s (t ∷ ts)

from_date : Option ℕ → ℕ → Bool
from_date none at = true
from_date (some t) at = leb t at

to_date : Option ℕ → ℕ → Bool
to_date none at = true
to_date (some t) at = leb at t

unfoldable pub passes : Filter → Service → Bool
unfolding has_status from_date to_date
passes f s =
    has_status f.statuses s.status
    && from_date f.date_from s.created_at
    && to_date f.date_to s.created_at

unfoldable pub list_for_center : ℕ → CurrentUser → Filter → ℕ → ℕ → Exec Db (List Service)
unfolding Centers.assert_ops_access passes
list_for_center center_id u f limit offset = do
  _ ← Centers.assert_ops_access center_id u
  gets (page (λ s. (s.center_id == center_id) && passes f s) limit offset)

unfoldable pub list_for_car : ℕ → CurrentUser → ℕ → ℕ → Exec Db (List Service)
unfolding validate_car
list_for_car car_id u limit offset = do
  car ← validate_car car_id
  raise_if (not (is_staff u) && not (car.owner_id == u.id)) car_history_forbidden
  gets (page (λ s. s.car_id == car_id) limit offset)

-- A service whose car is one of the user's.
abbrev pub is_for_user : Db → ℕ → Service → Bool
is_for_user d user_id s =
    is_some (find_row (λ (c : Car). (c.id == s.car_id) && (c.owner_id == user_id)) d.cars)

unfoldable pub list_mine : CurrentUser → ℕ → ℕ → Exec Db (List Service)
list_mine u limit offset =
    if not (has_role u customer)
    then pure []
    else gets (λ d. page (is_for_user d u.id) limit offset d)

-- The loop of the endpoints: each service with its items.
unfoldable pub with_items : CurrentUser → List Service → Exec Db (List (Service × List ServiceItem))
unfolding list_items
with_items u [] = pure []
with_items u (s ∷ ss) = do
  items ← list_items s.id u
  rest ← with_items u ss
  pure ((s, items) ∷ rest)

unfoldable pub list_vehicle_history :
    ℕ → ℕ → ℕ → CurrentUser → Exec Db (List (Service × List ServiceItem))
unfolding list_for_car with_items
list_vehicle_history car_id limit offset u = do
  services ← list_for_car car_id u limit offset
  with_items u services

-- `Depends(get_current_staff)`
abbrev pub staff_gate : CurrentUser → Exec Db CurrentUser
staff_gate u d = (get_current_staff u, d)

unfoldable pub list_center_services :
    ℕ → Filter → ℕ → ℕ → CurrentUser → Exec Db (List (Service × List ServiceItem))
unfolding get_current_staff list_for_center with_items
list_center_services center_id f limit offset caller = do
  u ← staff_gate caller
  services ← list_for_center center_id u f limit offset
  with_items u services

unfoldable pub list_my_services : ℕ → ℕ → CurrentUser → Exec Db (List (Service × List ServiceItem))
unfolding list_mine with_items
list_my_services limit offset u = do services ← list_mine u limit offset; with_items u services
