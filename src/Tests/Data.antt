-- ===== src/Tests/Data.antt =====
-- A small database: a centre with its owner, a mechanic, a customer's car, one service that waits
-- and its first log entry, a plan and two payments.
use ulov_backend.Prelude.{ℕ, true, Option, none, some, List, [], ◌∷◌}
use ulov_backend.Prelude.Text.{Text, codes}
use ulov_backend.Rbac.{CurrentUser, customer, owner, mechanic, admin, Role}
use ulov_backend.Db.{Db}
use ulov_backend.Db.Rows.{
  User, ServiceCenter, Car, Service, ServiceTransition, SubscriptionPlan, Payment, Status, waiting,
  PaymentStatus, standard, subscription, payme,
}

abbrev pub account : ℕ → Role → User
account i r = record {
  id = i;
  phone = codes "+998901234567";
  password_hash = codes "hash";
  full_name = none;
  email = none;
  city = none;
  avatar_url = none;
  role = r;
  center_id = none;
  is_active = true;
}

abbrev pub center : ServiceCenter
center = record {
  id = 10;
  owner_user_id = 2;
  name = codes "Center";
  phone = codes "+998901112233";
  address = codes "Tashkent";
  description = none;
  location = none;
  schedule = codes "{}";
  services = [];
  avatar_url = none;
  subscription_plan_id = none;
  subscription_until = none;
}

abbrev pub car : Car
car = record {
  id = 20;
  owner_id = 3;
  brand = codes "Chevrolet";
  model = codes "Cobalt";
  year = 2020;
  color = none;
  plate = codes "01A234BC";
  plate_type = standard;
  mileage = 5000;
  vin = none;
  tech_passport = none;
  insurance_from = none;
  insurance_to = none;
  insurance_company = none;
  tint_from = none;
  tint_to = none;
  photo_url = none;
}

abbrev pub service_row : ℕ → Status → Service
service_row i s = record {
  id = i;
  car_id = 20;
  center_id = 10;
  mechanic_id = none;
  status = s;
  mileage_at_intake = 5000;
  next_recommended_mileage = none;
  notes = none;
  created_at = 1;
  started_at = none;
  paused_at = none;
  paused_elapsed_s = 0;
  completed_at = none;
  cancelled_at = none;
  cancel_reason = none;
  pause_reason = none;
  deleted_at = none;
}

abbrev pub opening : ServiceTransition
opening = record {
  id = 31;
  service_id = 30;
  from_status = none;
  to_status = waiting;
  by_user_id = some 2;
  reason = none;
  at = 1;
}

abbrev pub plan : SubscriptionPlan
plan = record {
  id = 40;
  code = codes "pro";
  monthly_price = 90000;
  duration_days = 30;
  active = true;
}

abbrev pub bill : ℕ → PaymentStatus → Option Text → Payment
bill i status ref = record {
  id = i;
  user_id = 2;
  kind = subscription;
  target_id = some 10;
  plan_id = some 40;
  amount = 90000;
  provider = payme;
  status = status;
  external_ref = ref;
  created_at = 1;
  paid_at = none;
}

abbrev pub shop : List Service → List ServiceTransition → List Payment → Db
shop services transitions payments = record {
  next_id = 100;
  tx_now = 7;
  users = account 2 owner ∷ account 3 customer ∷ account 4 admin ∷ [];
  refresh_tokens = [];
  centers = center ∷ [];
  mechanics = [];
  cars = car ∷ [];
  readings = [];
  services = services;
  items = [];
  transitions = transitions;
  images = [];
  audit = [];
  plans = plan ∷ [];
  payments = payments;
  notifications = [];
  devices = [];
}

abbrev pub boss : CurrentUser
boss = record { id = 2; role = some owner; center_id = none }

abbrev pub worker : CurrentUser
worker = record { id = 5; role = some mechanic; center_id = some 10 }

abbrev pub driver : CurrentUser
driver = record { id = 3; role = some customer; center_id = none }
