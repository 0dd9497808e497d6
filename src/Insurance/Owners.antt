-- ===== src/Insurance/Owners.antt =====
-- Whose car a policy is for.
use ulov_backend.Prelude.{
  ℕ, ◌≤◌, ◌≡◌, ◌≢◌, false, ◌&&◌, some, List, [], ◌∷◌, ◌++◌, inl, inr, arith, ◌+◌, ◌*◌, ◌<◌, sym,
  refl,
}
use ulov_backend.Prelude.Tests.{◌==◌, ==_iff, ltb, Bool-cases, Option-cases, pos}
use ulov_backend.Prelude.Text.{Text, text_eq, codes}
use ulov_backend.Prelude.Lists.{find_row, length, find_row-test}
use ulov_backend.Errors.{insurance_car_not_owned}
use ulov_backend.Exec.{ok, err}
use ulov_backend.Db.Rows.{User, Car, paid}
use ulov_backend.Insurance.{
  Rates, Company, Tariff, Policy, Store, BuyPolisIn, price_of, get_tariff, quote, add_policy,
  pending_policy, create_policy, any_tariff, paid_policy, buy_mock, refused, end_of, mock_price,
}

module _ {F : Type 0} (rates : Rates F) (user_id : ℕ) (code : Text) (first last : ℕ) (car : Car)
    (w : Store F) (there : find_row (λ c. c.id == car.id) w.db.cars ≡ some car) where
  -- A policy that was created is for the caller's own car, over a range of days, by an active tariff
  -- of the code that was named, at its quoted price, and is not paid; it is added to the others, and a
  -- call that fails adds none.
  pub create_policy_ok :
      (p : Policy)
      → (create_policy rates user_id code car.id first last w).0 ≡ ok p
      → (car.owner_id ≡ user_id)
        × (first ≤ last)
        × ((t : Tariff F) × (find_row (λ t. text_eq t.code code && t.active) w.tariffs ≡ some t)
            × (p
                ≡ pending_policy rates user_id car.id first last t
                    (price_of rates t car)
                    w.next_id))
        × ((create_policy rates user_id code car.id first last w).1.policies ≡ w.policies ++ p ∷ [])
  unfolding create_policy quote get_tariff add_policy
  create_policy_ok p h = elim (Bool-cases (ltb last first)) [
    | inl bad ↦ absurd (ground (arith, bad, h))
    | inr good ↦ elim (Option-cases (find_row (λ t. text_eq t.code code && t.active) w.tariffs)) [
      | inl e ↦ absurd (ground (arith, good, e, h))
      | inr (t, e) ↦ elim (Bool-cases (car.owner_id == user_id)) [
        | inr other ↦ absurd (ground (arith, good, e, there, other, h))
        | inl own ↦
            elim (Bool-cases (
              refused rates
                (pending_policy rates user_id car.id first last t (price_of rates t car) w.next_id)
                w)) [
                  | inl unknown ↦ absurd (ground (arith, good, e, there, own, unknown, h))
                  | inr known ↦
                      let same : p
                          ≡ pending_policy rates user_id car.id first last t (price_of rates t car)
                              w.next_id =
                        ground (arith, good, e, there, own, known, h) in
                      (
                        (==_iff car.owner_id user_id).0 own,
                        ground (arith, good),
                        (t, e, same),
                        ground (arith, good, e, there, own, known, same),
                      )
                ]
      ]
    ]
  ]

-- For a car of somebody else, a user who exists gets no policy by `create_policy` with an active
-- tariff and a range of days, but buys one from any company that exists, marked as paid and for the
-- asked number of months from today, where its last day is in the calendar, and the way of payment,
-- the reference and the price fit into their columns.
pub buy_mock_other :
    {F : Type 0} (rates : Rates F) (user_id today default_id first last months : ℕ) (code : Text)
    (body : BuyPolisIn) (car : Car) (company : Company) (t named : Tariff F) (ts : List (Tariff F))
    (user : User) (w : Store F)
    → find_row (λ c. c.id == body.car_id) w.db.cars ≡ some car
    → car.owner_id ≢ user_id
    → find_row (λ c. c.id == body.company_id) w.companies ≡ some company
    → w.tariffs ≡ t ∷ ts
    → find_row (λ t. text_eq t.code code && t.active) w.tariffs ≡ some named
    → find_row (λ u. u.id == user_id) w.db.users ≡ some user
    → first ≤ last
    → body.period_months ≡ pos months
    → today + 30 * months ≤ 3652059
    → length body.payment_method ≤ 32
    → length (codes "MOCK-" ++ body.passport_series ++ body.passport_number) ≤ 255
    → mock_price rates company body.period_months < 9223372036854775808
    → ((create_policy rates user_id code body.car_id first last w).0 ≡ err insurance_car_not_owned)
      × (p : Policy) × ((buy_mock rates today default_id user_id body w).0 ≡ ok p)
      × (p.car_id ≡ car.id)
      × (p.user_id ≡ user_id)
      × (p.payment_status ≡ paid)
      × (p.valid_from ≡ today)
      × (p.valid_to ≡ today + 30 * months)
unfolding create_policy quote get_tariff buy_mock any_tariff add_policy
buy_mock_other rates user_id today default_id first last months code body car company t named ts
      user w there other found rows tariff known range period calendar method reference price =
    let someone : (car.owner_id == user_id) ≡ false = ground (arith, other) in
    let order : ltb last first ≡ false = ground (arith, range) in
    let until = today + 30 * months in
    let p : Policy = paid_policy rates today until user_id body company t w.next_id in
    let ends : end_of today body.period_months ≡ some until =
      rw period (ground (arith, calendar)) in
    let good : refused rates p w ≡ false = ground (arith, known, method, reference, price) in
    let same : body.car_id ≡ car.id =
      sym (
        (==_iff car.id body.car_id).0 (find_row-test (λ c. c.id == body.car_id) w.db.cars there)) in
    (
      ground (arith, order, tariff, there, someone),
      p,
      ground (arith, found, there, rows, ends, good),
      same,
      refl,
      refl,
      refl,
      refl,
    )
