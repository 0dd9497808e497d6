-- ===== src/Insurance.antt =====
-- app/modules/insurance/service.py: quotes and policies, in a store of their own beside the database.
-- The floats of the price are `Rates`. Dates are the numbers that `date.toordinal` gives.
pub mod Owners
use ulov_backend.Prelude.{
  ℕ, suc, ◌+◌, ◌*◌, Bool, true, false, not, ◌&&◌, ◌||◌, Option, none, some, List, [], ◌∷◌, ◌++◌,
  ◌-◌,
}
use ulov_backend.Prelude.Tests.{◌==◌, ltb, leb, is_some, if◌then◌else◌, ℤ, pos, negsuc, is_nat}
use ulov_backend.Prelude.Text.{Text, text_eq, codes, fits?}
use ulov_backend.Prelude.Lists.{find_row}
use ulov_backend.Errors.{
  car_not_found, insurance_company_not_found, insurance_tariff_not_found, insurance_car_not_owned,
  insurance_date_range_invalid, database_error, overflow_error,
}
use ulov_backend.Exec.{Exec, pure, gets, modify, or_raise, raise_if, ◌>>=◌, ◌>>◌}
use ulov_backend.Db.{Db}
use ulov_backend.Db.Rows.{Car, PaymentStatus, pending, paid}

-- `round_int` is `int(round(x))` and `trunc_int` is `int(x)`.
pub record Rates (F : Type 0) : Type 0 where
  pub one : F
  pub vip : F
  pub of_int : ℕ → F
  pub mul : F → F → F
  pub round_int : F → ℕ
  pub trunc_int : F → ℕ

pub record Company : Type 0 where
  pub id : ℕ
  pub base_price : ℕ

-- `none` for a coefficient that `float` refuses.
pub record Tariff (F : Type 0) : Type 0 where
  pub id : ℕ
  pub code : Text
  pub base_price : ℕ
  pub brand : List (Text × Option F)
  pub year_band : List (Text × Option F)
  pub active : Bool

pub record Policy : Type 0 where
  pub id : ℕ
  pub user_id : ℕ
  pub car_id : ℕ
  pub tariff_id : ℕ
  pub company_id : Option ℕ
  pub price : ℕ
  pub valid_from : ℕ
  pub valid_to : ℕ
  pub payment_status : PaymentStatus
  pub payment_provider : Option Text
  pub external_ref : Option Text

pub record Store (F : Type 0) : Type 0 where
  pub db : Db
  pub next_id : ℕ
  pub companies : List Company
  pub tariffs : List (Tariff F)
  pub policies : List Policy

pub record BuyPolisIn : Type 0 where
  pub company_id : ℕ
  pub car_id : ℕ
  pub period_months : ℤ
  pub payment_method : Text
  pub passport_series : Text
  pub passport_number : Text

-- `today + timedelta(days=30 * months)`; `none` where it leaves the years 1 to 9999.
abbrev pub end_of : ℕ → ℤ → Option ℕ
end_of today (pos n) = if leb (today + 30 * n) 3652059 then some (today + 30 * n) else none
end_of today (negsuc n) = if ltb (30 * suc n) today then some (today - 30 * suc n) else none

-- `_year_band`
unfoldable pub year_band : ℕ → Text
year_band year =
    if leb 2020 year
    then codes "2020+"
    else if leb 2015 year
    then codes "2015-2019"
    else if leb 2010 year
    then codes "2010-2014"
    else codes "pre-2010"

module _ {F : Type 0} (rates : Rates F) where
  -- `_coef`
  unfoldable pub coef : List (Text × Option F) → Text → F
  coef table key = elim (find_row (λ row. text_eq row.0 key) table) [
    | none ↦ rates.one
    | some row ↦ elim (row.1) [ none ↦ rates.one | some v ↦ v ]
  ]

  -- The price of a quote.
  unfoldable pub price_of : Tariff F → Car → ℕ
  unfolding coef year_band
  price_of tariff car = rates.round_int (
      rates.mul (rates.mul (rates.of_int tariff.base_price) (coef tariff.brand car.brand))
        (coef tariff.year_band (year_band car.year)))

  -- `_get_tariff`
  unfoldable pub get_tariff : Text → Exec (Store F) (Tariff F)
  get_tariff code = do
    found ← gets (λ w. find_row (λ t. text_eq t.code code && t.active) w.tariffs)
    or_raise found insurance_tariff_not_found

  -- `quote`, without the breakdown
  unfoldable pub quote : Text → ℕ → ℕ → Exec (Store F) (Tariff F × ℕ)
  unfolding get_tariff price_of
  quote tariff_code car_id owner_id = do
    tariff ← get_tariff tariff_code
    found ← gets (λ w. find_row (λ c. c.id == car_id) w.db.cars)
    car ← or_raise found car_not_found
    raise_if (not (car.owner_id == owner_id)) insurance_car_not_owned
    pure (tariff, price_of tariff car)

  -- `db.add(policy)`: the user must be a row of `users`, as the other references are; the texts must
  -- fit into their columns, and the price into a BigInteger.
  abbrev pub refused : Policy → Store F → Bool
  refused policy w =
      not (is_some (find_row (λ u. u.id == policy.user_id) w.db.users))
      || not (fits? 32 policy.payment_provider)
      || not (fits? 255 policy.external_ref)
      || leb 9223372036854775808 policy.price

  unfoldable pub add_policy : (ℕ → Policy) → Exec (Store F) Policy
  add_policy row = do
    policy ← gets (λ w. row w.next_id)
    bad ← gets (refused policy)
    raise_if bad database_error
    modify (λ w. record w { next_id = suc w.next_id; policies = w.policies ++ policy ∷ [] })
    pure policy

  abbrev pub pending_policy : ℕ → ℕ → ℕ → ℕ → Tariff F → ℕ → ℕ → Policy
  pending_policy user_id car_id valid_from valid_to tariff price i = record {
    id = i;
    user_id = user_id;
    car_id = car_id;
    tariff_id = tariff.id;
    company_id = none;
    price = price;
    valid_from = valid_from;
    valid_to = valid_to;
    payment_status = pending;
    payment_provider = none;
    external_ref = none;
  }

  unfoldable pub create_policy : ℕ → Text → ℕ → ℕ → ℕ → Exec (Store F) Policy
  unfolding quote add_policy
  create_policy user_id tariff_code car_id valid_from valid_to = do
    raise_if (ltb valid_to valid_from) insurance_date_range_invalid
    quoted ← quote tariff_code car_id user_id
    add_policy (pending_policy user_id car_id valid_from valid_to quoted.0 quoted.1)

  -- The fixed id 00000000-0000-4000-a000-000000000001 is an argument.
  abbrev pub default_tariff : ℕ → Tariff F
  default_tariff i = record {
    id = i;
    code = codes "default";
    base_price = 100000;
    brand = [];
    year_band = [];
    active = true;
  }

  -- The first tariff, or the default one, which is added.
  unfoldable pub any_tariff : ℕ → Exec (Store F) (Tariff F)
  any_tariff default_id = do
    rows ← gets (λ w. w.tariffs)
    elim rows [
      | t ∷ _ ↦ pure t
      | [] ↦ (do
        modify (λ w. record w { tariffs = default_tariff default_id ∷ [] })
        pure (default_tariff default_id))
    ]

  abbrev pub mock_price : Company → ℤ → ℕ
  mock_price company months =
      if is_nat months 12
      then rates.trunc_int (rates.mul (rates.of_int company.base_price) rates.vip)
      else company.base_price

  abbrev pub paid_policy : ℕ → ℕ → ℕ → BuyPolisIn → Company → Tariff F → ℕ → Policy
  paid_policy today valid_to user_id body company tariff i = record {
    id = i;
    user_id = user_id;
    car_id = body.car_id;
    tariff_id = tariff.id;
    company_id = some body.company_id;
    price = mock_price company body.period_months;
    valid_from = today;
    valid_to = valid_to;
    payment_status = paid;
    payment_provider = some body.payment_method;
    external_ref = some (codes "MOCK-" ++ body.passport_series ++ body.passport_number);
  }

  unfoldable pub buy_mock : ℕ → ℕ → ℕ → BuyPolisIn → Exec (Store F) Policy
  unfolding any_tariff add_policy
  buy_mock today default_id user_id body = do
    company? ← gets (λ w. find_row (λ c. c.id == body.company_id) w.companies)
    company ← or_raise company? insurance_company_not_found
    car? ← gets (λ w. find_row (λ c. c.id == body.car_id) w.db.cars)
    _ ← or_raise car? car_not_found
    tariff ← any_tariff default_id
    valid_to ← or_raise (end_of today body.period_months) overflow_error
    add_policy (paid_policy today valid_to user_id body company tariff)
