-- ===== src/Billing.antt =====
-- app/modules/billing/service.py: the checkout of a subscription, and the outcome of a payment as
-- a provider reports it. Times are in microseconds; `now` is `_utcnow()`.
pub mod Webhook
pub mod Outcome
pub mod Refs
pub mod Subscription
use ulov_backend.Prelude.{
  ℕ, ◌+◌, ◌*◌, Bool, true, false, ◌&&◌, ◌||◌, not, Option, none, some, List, [], ◌∷◌, ◌++◌,
}
use ulov_backend.Prelude.Tests.{◌==◌, is_some, or_else}
use ulov_backend.Prelude.Text.{Text, text_eq, truthy?, text_or_empty}
use ulov_backend.Prelude.Lists.{find_row, update_rows}
use ulov_backend.Errors.{
  billing_payment_not_found, billing_plan_not_found, billing_ref_mismatch, center_not_found,
  center_not_owner, database_error,
}
use ulov_backend.Exec.{Exec, pure, gets, modify, or_raise, raise_if, when, ◌>>=◌, ◌>>◌}
use ulov_backend.Rbac.{CurrentUser, admin, has_role}
use ulov_backend.Db.{Db, fresh_id}
use ulov_backend.Db.Rows.{
  Payment, PaymentStatus, PaymentKind, Provider, SubscriptionPlan, ServiceCenter, Notification,
  paid_bill, pending, paid, failed, refunded, subscription,
}
use ulov_backend.Centers

-- `_get_plan`: the active plan with a code.
unfoldable pub get_plan : Text → Exec Db SubscriptionPlan
get_plan code = do
  found ← gets (λ d. find_row (λ p. text_eq p.code code && p.active) d.plans)
  or_raise found billing_plan_not_found

unfoldable pub checkout_subscription : CurrentUser → Text → ℕ → Provider → Exec Db Payment
unfolding get_plan Centers.get_by_id
checkout_subscription u plan_code center_id provider = do
  found ← Centers.get_by_id center_id
  center ← or_raise found center_not_found
  raise_if (not (has_role u admin) && not (center.owner_user_id == u.id)) center_not_owner
  plan ← get_plan plan_code
  i ← fresh_id
  now ← gets (λ d. d.tx_now)
  let payment : Payment = record {
    id = i;
    user_id = u.id;
    kind = subscription;
    target_id = some center.id;
    plan_id = some plan.id;
    amount = plan.monthly_price;
    provider = provider;
    status = pending;
    external_ref = none;
    created_at = now;
    paid_at = none;
  }
  modify (λ d. record d { payments = d.payments ++ payment ∷ [] })
  pure payment

unfoldable pub get_payment : ℕ → Exec Db (Option Payment)
get_payment payment_id = gets (λ d. find_row (λ p. p.id == payment_id) d.payments)

-- `Payment.external_ref == ref`; a missing one equals nothing.
abbrev pub has_ref : Text → Payment → Bool
has_ref ref p = elim (p.external_ref) [ none ↦ false | some r ↦ text_eq r ref ]

-- Another payment has the reference, which the column does not allow.
abbrev pub ref_taken : Payment → Text → Db → Bool
ref_taken p ref d = is_some (find_row (λ q. has_ref ref q && not (q.id == p.id)) d.payments)

-- The flush of a payment object that was changed.
unfoldable pub flush_payment : Payment → Exec Db (Unit {0})
flush_payment p = do
  taken ← gets (ref_taken p (text_or_empty p.external_ref))
  raise_if (is_some p.external_ref && taken) database_error
  modify (λ d. record d { payments = update_rows (λ q. q.id == p.id) (λ _. p) d.payments })

abbrev pub same_payment_status : PaymentStatus → PaymentStatus → Bool
same_payment_status pending pending = true
same_payment_status paid paid = true
same_payment_status failed failed = true
same_payment_status refunded refunded = true
same_payment_status _ _ = false

abbrev pub is_subscription : PaymentKind → Bool
is_subscription subscription = true
is_subscription _ = false

-- The columns that a webhook sets.
abbrev pub settled : Payment → Text → PaymentStatus → ℕ → Payment
settled p ref status now = record p {
  status = status;
  external_ref = some ref;
  paid_at = elim status [ paid ↦ some now | _ ↦ p.paid_at ];
}

-- `timedelta(days=n)`
abbrev pub days_us : ℕ → ℕ
days_us n = n * 86400000000

abbrev pub duration_of : Option SubscriptionPlan → ℕ
duration_of none = 30
duration_of (some plan) = plan.duration_days

-- The centre that a subscription is for, if the payment names one.
target_center : Option ℕ → Exec Db (Option ServiceCenter)
unfolding Centers.get_by_id
target_center none = pure none
target_center (some i) = Centers.get_by_id i

-- The centre's subscription, from now for the plan's days.
set_until : Option ServiceCenter → Option ℕ → ℕ → Exec Db (Unit {0})
unfolding Centers.set_subscription
set_until none plan_id now = pure tt
set_until (some center) none now = pure tt
set_until (some center) (some plan_id) now = do
  plan ← gets (λ d. find_row (λ p. p.id == plan_id) d.plans)
  Centers.set_subscription center.id (some plan_id) (some (now + days_us (duration_of plan)))

unfoldable pub extend_subscription : Payment → ℕ → Exec Db (Unit {0})
unfolding target_center set_until
extend_subscription p now = do center ← target_center p.target_id; set_until center p.plan_id now

-- `notifs.create_notification` for a paid bill: the row of the inbox. The push never raises.
unfoldable pub notify_paid : Payment → Exec Db (Unit {0})
notify_paid p = do
  i ← fresh_id
  let n : Notification = record {
    id = i;
    user_id = p.user_id;
    about = paid_bill p.id p.amount p.kind;
    read_at = none;
  }
  modify (λ d. record d { notifications = d.notifications ++ n ∷ [] })

-- The row already has its outcome.
abbrev pub finalised : Payment → PaymentStatus → Bool
finalised p status =
    same_payment_status p.status paid
    || same_payment_status p.status refunded
    || (same_payment_status p.status failed && same_payment_status status failed)

-- The rest of `apply_webhook`, for a payment that is not finalised.
unfoldable pub settle : Payment → Text → PaymentStatus → ℕ → Exec Db Payment
unfolding flush_payment
settle p ref status now = do
  raise_if (truthy? p.external_ref && not (text_eq (text_or_empty p.external_ref) ref))
      billing_ref_mismatch
  let p' = settled p ref status now
  flush_payment p'
  when (same_payment_status status paid && is_subscription p.kind) (extend_subscription p' now)
  when (same_payment_status status paid) (notify_paid p')
  pure p'

unfoldable pub apply_webhook : ℕ → Text → PaymentStatus → ℕ → Exec Db Payment
unfolding get_payment
apply_webhook payment_id ref status now = do
  found ← get_payment payment_id
  p ← or_raise found billing_payment_not_found
  elim (finalised p status) [ true ↦ pure p | false ↦ settle p ref status now ]
