-- ===== src/Billing/Webhook.antt =====
-- What a webhook does to a payment.
use ulov_backend.Prelude.{
  ℕ, ◌≡◌, refl, ◌∙◌, inl, inr, true, false, ◌&&◌, not, Option, none, some, arith,
}
use ulov_backend.Prelude.Tests.{◌==◌, ==_iff, if◌then◌else◌, Bool-cases}
use ulov_backend.Prelude.Text.{Text, text_eq, truthy?, text_or_empty}
use ulov_backend.Prelude.Lists.{find_row, update_rows, find_row-test, find_row-update_rows}
use mathlib.Core.Option
use mathlib.Core.Path.{subst}
use ulov_backend.Exec.{ok}
use ulov_backend.Db.{Db}
use ulov_backend.Db.Rows.{Payment, PaymentStatus}
use ulov_backend.Billing.{settled, ref_taken, extend_subscription, notify_paid, settle}

-- The payment with an id.
abbrev pub payment_of : ℕ → Db → Option Payment
payment_of i d = find_row (λ p. p.id == i) d.payments

extend_subscription_ok :
    (p : Payment) (now : ℕ) (d : Db)
    → ((extend_subscription p now d).0 ≡ ok tt)
      × ((extend_subscription p now d).1.payments ≡ d.payments)
unfolding extend_subscription
extend_subscription_ok p now d = ground arith

notify_paid_ok :
    (p : Payment) (d : Db)
    → ((notify_paid p d).0 ≡ ok tt) × ((notify_paid p d).1.payments ≡ d.payments)
unfolding notify_paid
notify_paid_ok p d = ground arith

-- After the flush of a payment.
abbrev pub flushed : Payment → Db → Db
flushed p d = record d { payments = update_rows (λ q. q.id == p.id) (λ _. p) d.payments }

-- The reference that a payment has, if it has one that counts, is the one that comes in.
abbrev pub AcceptsRef : Payment → Text → Type 0
AcceptsRef p ref =
    (truthy? p.external_ref && not (text_eq (text_or_empty p.external_ref) ref)) ≡ false

module _ (p : Payment) (ref : Text) (status : PaymentStatus) (now : ℕ) (d : Db) where
  abbrev p' : Payment
  p' = settled p ref status now

  pub settle-payments :
      {q : Payment}
      → (settle p ref status now d).0 ≡ ok q
      → (q ≡ settled p ref status now)
        × ((settle p ref status now d).1.payments ≡ (flushed (settled p ref status now) d).payments)
        × AcceptsRef p ref
        × (ref_taken (settled p ref status now) ref d ≡ false)
  unfolding settle
  settle-payments h = ground (
    arith,
    extend_subscription_ok p' now (flushed p' d),
    notify_paid_ok p' (flushed p' d),
    notify_paid_ok p' (extend_subscription p' now (flushed p' d)).1,
  )

  pub settle_ok :
      AcceptsRef p ref
      → ref_taken (settled p ref status now) ref d ≡ false
      → (settle p ref status now d).0 ≡ ok (settled p ref status now)
  unfolding settle
  settle_ok accepts free = ground (
    arith,
    extend_subscription_ok p' now (flushed p' d),
    notify_paid_ok p' (flushed p' d),
    notify_paid_ok p' (extend_subscription p' now (flushed p' d)).1,
  )

-- After a payment is written, it is what its id finds, and every other id finds what it found.
pub payment_of-flushed :
    (i : ℕ) (p q : Payment) (d : Db)
    → payment_of p.id d ≡ some q
    → payment_of i (flushed p d) ≡ (if p.id == i then some p else payment_of i d)
payment_of-flushed i p q d found =
    find_row-update_rows (λ r. r.id == i) (λ r. r.id == p.id) (λ _. p) (λ x e. ground (arith, e))
      d.payments
    ∙ elim (Bool-cases (p.id == i)) [
      | inl e ↦
          let here : payment_of i d ≡ some q =
            subst (λ k. payment_of k d ≡ some q) ((==_iff p.id i).0 e) found in
          let q_id : (q.id == i) ≡ true = find_row-test (λ r. r.id == i) d.payments here in
          rw (e, here) (ground (arith, e, q_id))
      | inr e ↦
          rw e (other (payment_of i d) e (λ a. find_row-test (λ r. r.id == i) d.payments {a = a}))
    ]
  where
    other :
        (o : Option Payment)
        → (p.id == i) ≡ false
        → ((a : Payment) → o ≡ some a → (a.id == i) ≡ true)
        → Option.map (λ x. if x.id == p.id then p else x) o ≡ o
    other none e t = refl
    other (some a) e t = ground (arith, e, t a refl)
