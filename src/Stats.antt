-- ===== src/Stats.antt =====
-- app/modules/stats/service.py: the aggregates of a centre's dashboard. Times are in microseconds
-- since the epoch and days are counted from it; the texts of dates are left out.
pub mod Overview
pub mod Earnings
pub mod Load
use ulov_backend.Prelude.{
  ℕ, ◌+◌, ◌-◌, ◌*◌, ◌/◌, Bool, true, false, not, ◌&&◌, Option, none, some, List, [], ◌∷◌, ◌++◌, map,
}
use ulov_backend.Prelude.Tests.{◌==◌, ltb, leb, is_some, or_else, if◌then◌else◌}
use ulov_backend.Prelude.Text.{Text, text_eq}
use ulov_backend.Prelude.Lists.{find_row, select_rows, length}
use ulov_backend.Prelude.Pages.{take}
use ulov_backend.Prelude.Groups.{sum_of, group_by, order_by}
use ulov_backend.Exec.{Exec, pure, gets, ◌>>=◌}
use ulov_backend.Rbac.{CurrentUser}
use ulov_backend.Db.{Db}
use ulov_backend.Db.Rows.{
  Service, ServiceItem, Car, Status, waiting, in_progress, paused, completed,
}
use ulov_backend.Centers.{assert_ops_access}
use ulov_backend.Services.StateMachine.{same_status}

abbrev pub day_us : ℕ
day_us = 86400000000

-- `_utc_today()`, from the clock
abbrev pub utc_today : ℕ → ℕ
utc_today now = now / day_us

-- `Service.center_id == center_id` of the rows that are not deleted
abbrev pub is_live_of : ℕ → Service → Bool
is_live_of center_id s = (s.center_id == center_id) && not (is_some s.deleted_at)

-- `overview`: the keys of `by_status` are the states.
pub record Kpis : Type 0 where
  pub by_status : Status → ℕ
  pub queue : ℕ
  pub today_intakes : ℕ

-- `for status, count in rows: by_status[status] = count`
unfoldable pub fill : List (Status × ℕ) → (Status → ℕ) → Status → ℕ
fill [] by = by
fill (row ∷ rows) by = fill rows (λ s. if same_status row.0 s then row.1 else by s)

-- `select(Service.status, func.count()) ... group_by(Service.status)`
abbrev pub status_counts : List Service → List (Status × ℕ)
status_counts rows = map (λ g. (g.0, length g.1)) (group_by same_status (λ s. s.status) rows)

unfoldable pub overview : ℕ → ℕ → CurrentUser → Exec Db Kpis
unfolding assert_ops_access
overview now center_id u = do
  _ ← assert_ops_access center_id u
  rows ← gets (λ d. status_counts (select_rows (is_live_of center_id) d.services))
  let by_status = fill rows (λ _. 0)
  let today_start = utc_today now * day_us
  today_intakes ← gets (λ d.
      length (select_rows (λ s. is_live_of center_id s && leb today_start s.created_at) d.services))
  pure (record {
    by_status = by_status;
    queue = by_status waiting + by_status in_progress + by_status paused;
    today_intakes = today_intakes;
  })

-- `ServiceItem.service_price + ServiceItem.parts_price`
abbrev pub price : ServiceItem → ℕ
price i = i.fields.service_price + i.fields.parts_price

-- `.join(Service, Service.id == ServiceItem.service_id)`
unfoldable pub join_services : List Service → List ServiceItem → List (ServiceItem × Service)
join_services services [] = []
join_services services (i ∷ items) =
    let rest = join_services services items in
    elim (find_row (λ s. s.id == i.service_id) services) [ none ↦ rest | some s ↦ (i, s) ∷ rest ]

-- `.join(Service, Service.car_id == Car.id)`
unfoldable pub join_cars : List Car → List Service → List (Car × Service)
join_cars cars [] = []
join_cars cars (s ∷ services) =
    let rest = join_cars cars services in
    elim (find_row (λ c. c.id == s.car_id) cars) [ none ↦ rest | some c ↦ (c, s) ∷ rest ]

-- A comparison with a missing time is not true.
abbrev pub within : ℕ → ℕ → Option ℕ → Bool
within start end none = false
within start end (some t) = leb start t && leb t end

-- The `where` that the four queries of `revenue` share.
abbrev pub is_earned : ℕ → ℕ → ℕ → Service → Bool
is_earned center_id start end s =
    (s.center_id == center_id) && same_status s.status completed && within start end s.completed_at

-- `func.date_trunc("day", Service.completed_at)`
abbrev pub day_of : Service → Option ℕ
day_of s = elim (s.completed_at) [ none ↦ none | some t ↦ some (t / day_us) ]

abbrev pub same_opt : Option ℕ → Option ℕ → Bool
same_opt none none = true
same_opt (some a) (some b) = a == b
same_opt _ _ = false

pub record Daily : Type 0 where
  pub day : Option ℕ
  pub amount : ℕ
  pub services : ℕ

abbrev pub daily_row : Option ℕ × List (ServiceItem × Service) → Daily
daily_row g = record {
  day = g.0;
  amount = sum_of (λ r. price r.0) g.1;
  services = length (group_by ◌==◌ (λ r. r.1.id) g.1);
}

-- `ORDER BY day`; PostgreSQL puts a missing value last.
abbrev pub by_day : Daily → Daily → Bool
by_day a b = elim (a.day) [
  | none ↦ false
  | some x ↦ elim (b.day) [ none ↦ true | some y ↦ leb x y ]
]

-- `count DESC` with `limit(10)`; the order of equal counts is the database's choice.
abbrev pub top_ten : List (Text × ℕ) → List (Text × ℕ)
top_ten rows = take 10 (order_by (λ a b. leb b.1 a.1) rows)

pub record Revenue : Type 0 where
  pub from_day : ℕ
  pub to_day : ℕ
  pub total : ℕ
  pub daily : List Daily
  pub top_services : List (Text × ℕ)
  pub top_brands : List (Text × ℕ)

-- The answer, from the rows of the two joins.
abbrev pub report : ℕ → ℕ → List (ServiceItem × Service) → List (Car × Service) → Revenue
report from_day to_day sold done_cars = record {
  from_day = from_day;
  to_day = to_day;
  total = sum_of (λ r. price r.0) sold;
  daily = order_by by_day (map daily_row (group_by same_opt (λ r. day_of r.1) sold));
  top_services =
      top_ten (map (λ g. (g.0, length g.1)) (group_by text_eq (λ r. r.0.fields.service_type) sold));
  top_brands = top_ten (map (λ g. (g.0, length g.1)) (group_by text_eq (λ r. r.0.brand) done_cars));
}

-- `revenue`, once the access check has passed.
unfoldable pub revenue_of : ℕ → ℕ → Option ℕ → Option ℕ → Exec Db Revenue
unfolding join_services join_cars
revenue_of now center_id date_from date_to = do
  let from_day = or_else date_from (utc_today now - 30)
  let to_day = or_else date_to (utc_today now)
  let earned = is_earned center_id (from_day * day_us) (to_day * day_us + (day_us - 1))
  sold ← gets (λ d. select_rows (λ r. earned r.1) (join_services d.services d.items))
  done_cars ← gets (λ d. select_rows (λ r. earned r.1) (join_cars d.cars d.services))
  pure (report from_day to_day sold done_cars)

unfoldable pub revenue : ℕ → ℕ → CurrentUser → Option ℕ → Option ℕ → Exec Db Revenue
unfolding assert_ops_access revenue_of
revenue now center_id u date_from date_to = do
  _ ← assert_ops_access center_id u
  revenue_of now center_id date_from date_to

-- `.join(ServiceItem, ServiceItem.service_id == Service.id, isouter=True)`
abbrev pub item_rows : Service → List ServiceItem → List (Service × Option ServiceItem)
item_rows s [] = (s, none) ∷ []
item_rows s (i ∷ items) = (s, some i) ∷ map (λ j. (s, some j)) items

unfoldable pub outer_join : List ServiceItem → List Service → List (Service × Option ServiceItem)
outer_join items [] = []
outer_join items (s ∷ services) =
    item_rows s (select_rows (λ i. i.service_id == s.id) items) ++ outer_join items services

abbrev pub joined_price : Service × Option ServiceItem → ℕ
joined_price r = elim (r.1) [ none ↦ 0 | some i ↦ price i ]

pub record MechanicLoad : Type 0 where
  pub mechanic_id : Option ℕ
  pub services : ℕ
  pub revenue : ℕ

abbrev pub load_row : Option ℕ × List (Service × Option ServiceItem) → MechanicLoad
load_row g = record { mechanic_id = g.0; services = length g.1; revenue = sum_of joined_price g.1 }

unfoldable pub mechanic_load : ℕ → CurrentUser → Exec Db (List MechanicLoad)
unfolding assert_ops_access outer_join
mechanic_load center_id u = do
  _ ← assert_ops_access center_id u
  gets (λ d. map load_row (
      group_by same_opt (λ r. r.0.mechanic_id)
        (outer_join d.items (select_rows (is_live_of center_id) d.services))))
