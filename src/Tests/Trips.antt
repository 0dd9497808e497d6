-- ===== src/Tests/Trips.antt =====
-- A trip with two points, policies, and the digits of a window. Floats are taken to be whole numbers.
use ulov_backend.Db.Rows.{paid}
use ulov_backend.Prelude.{
  ℕ, ◌+◌, ◌-◌, ◌*◌, ◌/◌, ◌≡◌, refl, ◌&&◌, true, none, some, List, [], ◌∷◌, arith, false,
}
use ulov_backend.Prelude.Tests.{◌==◌, ℤ, pos, negsuc}
use ulov_backend.Prelude.Text.{codes, text_eq}
use ulov_backend.Prelude.Lists.{find_row, select_rows}
use ulov_backend.Errors.{insurance_car_not_owned}
use ulov_backend.Exec.{ok, err}
use ulov_backend.Rbac.{admin}
use ulov_backend.Trips as trips
use ulov_backend.Trips.{
  Floats, Trip, TripPoint, PointIn, finish, finished_trip, distance_of, points_of,
}
use ulov_backend.Trips.Requests.{Request, send_points, finish_trip, serve, drop_car}
use ulov_backend.Trips.Finished.{serve-Stays, Stays}
use ulov_backend.Insurance.{
  Rates, Company, Tariff, Store, BuyPolisIn, create_policy, buy_mock, Policy,
}
use ulov_backend.Insurance.Owners.{buy_mock_other}
use ulov_backend.Tests.Data.{shop, car, account}

abbrev whole : ℤ → ℕ
whole (pos n) = n
whole (negsuc n) = 0

abbrev floats : Floats ℕ ℕ
floats = record {
  zero_f = 0;
  two = 2;
  radius_km = 6371;
  seconds_per_hour = 3600;
  litres_per_km = 1;
  of_int = whole;
  radians = λ x. x;
  sin = λ x. x;
  cos = λ x. x;
  asin = λ x. x;
  sqrt = λ x. x;
  add = λ x y. x + y;
  sub = λ x y. x - y;
  mul = λ x y. x * y;
  div = λ x y. x / y;
  dec3 = λ x. x * 1000;
  dec2 = λ x. x * 100;
  dec_zero = 0;
}

abbrev going : Trip ℕ
going = record {
  id = 1;
  user_id = 3;
  car_id = some 20;
  started_at = 0;
  finished_at = none;
  distance_km = 0;
  duration_s = pos 0;
  avg_speed = 0;
  fuel_l_est = 0;
}

abbrev point : ℕ → TripPoint ℕ
point at = record { trip_id = 1; lat = at; lng = 0; speed = none; heading = none; ts = at }

abbrev road : trips.Store ℕ ℕ
road = record {
  db = shop [] [] [];
  next_trip = 2;
  trips = going ∷ [];
  points = point 9 ∷ point 5 ∷ [];
}

going_there : find_row (λ y. y.id == 1) road.trips ≡ some going
unfolding find_row
going_there = refl

abbrev over : Trip ℕ
over = record going { finished_at = some 7 }

abbrev home : trips.Store ℕ ℕ
home = record road { trips = over ∷ [] }

over_there : find_row (λ y. y.id == 1) home.trips ≡ some over
unfolding find_row
over_there = refl

abbrev tries : List (ℕ × Request ℕ)
tries =
    (9, send_points 1 3 (record { lat = 1; lng = 1; speed = none; heading = none; ts = none } ∷ []))
    ∷ (10, finish_trip 1 3)
    ∷ (11, drop_car (λ _. false) 20 3)
    ∷ []

serve-Stays_example :
    Stays floats 1 (select_rows (λ p. p.trip_id == 1) home.points) over (serve floats tries home)
serve-Stays_example =
    serve-Stays floats 1 (select_rows (λ p. p.trip_id == 1) home.points) tries over 7 home refl
      over_there refl

abbrev rates : Rates ℕ
rates = record {
  one = 1;
  vip = 2;
  of_int = λ n. n;
  mul = λ x y. x * y;
  round_int = λ x. x;
  trunc_int = λ x. x;
}

abbrev tariff : Tariff ℕ
tariff = record {
  id = 90;
  code = codes "osago";
  base_price = 1000;
  brand = [];
  year_band = (codes "2020+", some 3) ∷ [];
  active = true;
}

abbrev company : Company
company = record { id = 80; base_price = 5000 }

abbrev desk : Store ℕ
desk = record {
  db = shop [] [] [];
  next_id = 1;
  companies = company ∷ [];
  tariffs = tariff ∷ [];
  policies = [];
}

abbrev order : BuyPolisIn
order = record {
  company_id = 80;
  car_id = 20;
  period_months = pos 6;
  payment_method = codes "payme";
  passport_series = codes "AA";
  passport_number = codes "1";
}

car_there : find_row (λ c. c.id == 20) desk.db.cars ≡ some car
unfolding find_row
car_there = refl

company_there : find_row (λ c. c.id == 80) desk.companies ≡ some company
unfolding find_row
company_there = refl

tariff_there : find_row (λ t. text_eq t.code (codes "osago") && t.active) desk.tariffs ≡ some tariff
unfolding find_row text_eq
tariff_there = refl

buyer_there : find_row (λ u. u.id == 4) desk.db.users ≡ some (account 4 admin)
unfolding find_row
buyer_there = refl

buy_mock_other_example :
    ((create_policy rates 4 (codes "osago") 20 1 2 desk).0 ≡ err insurance_car_not_owned)
    × (p : Policy) × ((buy_mock rates 5 99 4 order desk).0 ≡ ok p)
    × (p.car_id ≡ 20)
    × (p.user_id ≡ 4)
    × (p.payment_status ≡ paid)
    × (p.valid_from ≡ 5)
    × (p.valid_to ≡ 5 + 30 * 6)
buy_mock_other_example =
    buy_mock_other rates 4 5 99 1 2 6 (codes "osago") order car company tariff tariff []
      (account 4 admin) desk car_there (λ e. ground (arith, e)) company_there refl tariff_there
      buyer_there (omega arith) refl (omega arith) (omega arith) (omega arith) (omega arith)
