-- ===== src/Billing/Subscription.antt =====
-- What a paid subscription does to the centre that it is for.
use ulov_backend.Prelude.{ℕ, true, ◌+◌, ◌≡◌, refl, some, Option, arith, none, ◌*◌}
use ulov_backend.Prelude.Tests.{◌==◌}
use ulov_backend.Prelude.Text.{Text}
use ulov_backend.Prelude.Lists.{find_row, find_row-test, find_row-update_rows}
use ulov_backend.Exec.{ok}
use ulov_backend.Db.{Db}
use ulov_backend.Db.Rows.{Payment, ServiceCenter, subscription, paid, pending}
use ulov_backend.Billing.{
  settled, duration_of, days_us, extend_subscription, settle, apply_webhook, notify_paid,
}
use ulov_backend.Billing.Webhook.{payment_of, flushed}

abbrev pub center_of : ℕ → Db → Option ServiceCenter
center_of i d = find_row (λ c. c.id == i) d.centers

-- The days that a plan lasts, 30 where it is gone.
abbrev pub plan_days : ℕ → Db → ℕ
plan_days plan_id d = elim (find_row (λ p. p.id == plan_id) d.plans) [
  | none ↦ 30
  | some plan ↦ plan.duration_days
]

-- The centre after a plan was paid at `now`, in microseconds.
abbrev pub subscribed : ServiceCenter → ℕ → ℕ → Db → ServiceCenter
subscribed c plan_id now d = record c {
  subscription_plan_id = some plan_id;
  subscription_until = some (now + plan_days plan_id d * 86400000000);
}

module _ (i plan_id now : ℕ) (c : ServiceCenter) where
  extend_subscription-center :
      (p : Payment) (d : Db)
      → p.target_id ≡ some i
      → p.plan_id ≡ some plan_id
      → center_of i d ≡ some c
      → ((extend_subscription p now d).0 ≡ ok tt)
        × (center_of i (extend_subscription p now d).1 ≡ some (subscribed c plan_id now d))
  unfolding extend_subscription
  extend_subscription-center p d target plan found =
      let c_id : (c.id == i) ≡ true = find_row-test (λ c. c.id == i) d.centers found in
      ground (
        arith,
        target,
        plan,
        found,
        c_id,
        find_row-update_rows (λ c. c.id == i) (λ r. r.id == c.id)
            (λ r. record r {
              subscription_plan_id = some plan_id;
              subscription_until =
                  some (now + days_us (duration_of (find_row (λ p. p.id == plan_id) d.plans)));
            })
            (λ x _. refl) d.centers,
      )

  -- A successful webhook that pays a pending payment for a subscription gives the payment's centre
  -- the plan, until the plan's days (30 for a plan that is gone) from the moment of the webhook:
  -- what was left of an earlier subscription is not added.
  pub apply_webhook-subscribed :
      (j : ℕ) (ref : Text) (d : Db) (p : Payment) {q : Payment}
      → payment_of j d ≡ some p
      → p.status ≡ pending
      → p.kind ≡ subscription
      → p.target_id ≡ some i
      → p.plan_id ≡ some plan_id
      → center_of i d ≡ some c
      → (apply_webhook j ref paid now d).0 ≡ ok q
      → center_of i (apply_webhook j ref paid now d).1 ≡ some (subscribed c plan_id now d)
  unfolding apply_webhook settle notify_paid
  apply_webhook-subscribed j ref d p found status kind target plan center h = ground (
    arith,
    found,
    status,
    kind,
    extend_subscription-center (settled p ref paid now) (flushed (settled p ref paid now) d) target
        plan center,
  )
