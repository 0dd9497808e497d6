-- ===== src/Tests/Billing.antt =====
-- Webhooks for two payments.
use ulov_backend.Prelude.{◌≡◌, refl, none, some, [], ◌∷◌, arith}
use ulov_backend.Prelude.Text.{text_eq, codes}
use ulov_backend.Prelude.Lists.{find_row, update_rows}
use ulov_backend.Exec.{ok}
use ulov_backend.Db.{Db}
use ulov_backend.Db.Rows.{Payment, pending, paid, failed}
use ulov_backend.Billing.{
  settled, apply_webhook, settle, flush_payment, extend_subscription, notify_paid,
}
use ulov_backend.Billing.Webhook.{payment_of}
use ulov_backend.Billing.Outcome.{◌⇒◌, report_paid, apply_webhook_along, apply_webhook_again}
use ulov_backend.Billing.Refs.{UniqueRefs}
use ulov_backend.Billing.Subscription.{center_of, subscribed, apply_webhook-subscribed}
use ulov_backend.Tests.Data.{bill, shop, center}

abbrev first_bill : Payment
first_bill = bill 50 pending none

abbrev second_bill : Payment
second_bill = bill 51 failed (some (codes "b"))

abbrev till : Db
till = shop [] [] (first_bill ∷ second_bill ∷ [])

abbrev paid_bill : Payment
paid_bill = settled first_bill (codes "a") paid 1000

till_found : payment_of 50 till ≡ some first_bill
unfolding find_row
till_found = refl

webhook_runs : (apply_webhook 50 (codes "a") paid 1000 till).0 ≡ ok paid_bill
unfolding apply_webhook settle flush_payment extend_subscription notify_paid find_row update_rows
    text_eq
webhook_runs = refl

apply_webhook_along_example : pending ⇒ paid
apply_webhook_along_example =
    apply_webhook_along 50 (codes "a") 1000 till first_bill paid_bill report_paid till_found
      webhook_runs

apply_webhook_again_example :
    let d' = (apply_webhook 50 (codes "a") paid 1000 till).1 in
    apply_webhook 50 (codes "a") paid 2000 d' ≡ (ok paid_bill, d')
apply_webhook_again_example =
    apply_webhook_again 50 (codes "a") 1000 2000 till paid_bill report_paid webhook_runs

till_center : center_of 10 till ≡ some center
unfolding find_row
till_center = refl

apply_webhook-subscribed_example :
    center_of 10 (apply_webhook 50 (codes "a") paid 1000 till).1
    ≡ some (subscribed center 40 1000 till)
apply_webhook-subscribed_example =
    apply_webhook-subscribed 10 40 1000 center 50 (codes "a") till first_bill till_found refl refl
      refl refl till_center webhook_runs

-- A payment of the till has one of its two ids, and only the second has a reference.
till-UniqueRefs : UniqueRefs till
unfolding find_row
till-UniqueRefs i j p q ref hp hq ep eq = ground (arith, hp, hq, ep, eq)

-- Thirty days from the webhook.
until_set : (subscribed center 40 1000 till).subscription_until ≡ some 2592000001000
unfolding find_row
until_set = refl
