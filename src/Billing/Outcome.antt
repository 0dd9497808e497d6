-- ===== src/Billing/Outcome.antt =====
-- The life of a payment under webhooks.
use ulov_backend.Prelude.{ℕ, ◌≡◌, refl, sym, ap, ◌∙◌, inl, inr, true, false, some, arith}
use ulov_backend.Prelude.Tests.{◌==◌, Option-cases, Bool-cases}
use ulov_backend.Prelude.Text.{Text}
use ulov_backend.Prelude.Lists.{find_row, find_row-test}
use mathlib.Core.Path.{subst}
use mathlib.Core.Option.{some-injective}
use ulov_backend.Exec.{ok}
use ulov_backend.Db.{Db}
use ulov_backend.Db.Rows.{Payment, PaymentStatus, pending, paid, failed, refunded}
use ulov_backend.Billing.{settled, finalised, ref_taken, settle, apply_webhook}
use ulov_backend.Billing.Webhook.{
  payment_of, flushed, AcceptsRef, settle-payments, payment_of-flushed,
}

-- What a successful webhook has done to the payments.
pub data Handled (p : Payment) (ref : Text) (status : PaymentStatus) (now : ℕ) (d d' : Db)
    (q : Payment) : Type 0 where
  already : finalised p status ≡ true → q ≡ p → d' ≡ d → Handled p ref status now d d' q
  changed :
      finalised p status ≡ false
      → q ≡ settled p ref status now
      → d'.payments ≡ (flushed (settled p ref status now) d).payments
      → AcceptsRef p ref
      → ref_taken (settled p ref status now) ref d ≡ false
      → Handled p ref status now d d' q

module _ (i : ℕ) (ref : Text) (status : PaymentStatus) (now : ℕ) (d : Db) where
  pub apply_webhook-Handled :
      {q : Payment}
      → (apply_webhook i ref status now d).0 ≡ ok q
      → (p : Payment) × (payment_of i d ≡ some p)
        × Handled p ref status now d (apply_webhook i ref status now d).1 q
  unfolding apply_webhook
  apply_webhook-Handled {q} h = elim (Option-cases (payment_of i d)) [
    | inl missing ↦ absurd (ground (arith, missing))
    | inr (p, found) ↦ elim (Bool-cases (finalised p status)) [
      | inl over ↦
          (p, found, already over (ground (arith, found, over)) (ground (arith, found, over)))
      | inr more ↦
          let written : (settle p ref status now d).0 ≡ ok q = ground (arith, found, more) in
          let state : (apply_webhook i ref status now d).1 ≡ (settle p ref status now d).1 =
            ground (arith, found, more) in
          let (same, payments, accepts, free) = settle-payments p ref status now d written in
          (p, found, changed more same (ap (λ (x : Db). x.payments) state ∙ payments) accepts free)
    ]
  ]

  -- A payment that is finalised for a status answers it as it is, and nothing is written.
  pub apply_webhook-finalised :
      (p : Payment)
      → payment_of i d ≡ some p
      → finalised p status ≡ true
      → apply_webhook i ref status now d ≡ (ok p, d)
  unfolding apply_webhook
  apply_webhook-finalised p found over = ground (arith, found, over)

  -- The payment that a successful webhook answers is the one that is stored.
  pub apply_webhook-payment_of :
      {q : Payment}
      → (apply_webhook i ref status now d).0 ≡ ok q
      → payment_of i (apply_webhook i ref status now d).1 ≡ some q
  apply_webhook-payment_of h =
      let (p, found, handled) = apply_webhook-Handled h in stored p found handled
    where
      stored :
          (p : Payment)
          → payment_of i d ≡ some p
          → {q : Payment} → Handled p ref status now d (apply_webhook i ref status now d).1 q
          → payment_of i (apply_webhook i ref status now d).1 ≡ some q
      stored p found (already over same state) = rw (state, same) found
      stored p found (changed more same payments accepts free) =
          let p_id : p.id ≡ i = ground (arith, find_row-test (λ r. r.id == i) d.payments found) in
          ap (find_row (λ r. r.id == i)) payments
          ∙ payment_of-flushed i (settled p ref status now) p d
              (subst (λ k. payment_of k d ≡ some p) (sym p_id) found)
          ∙ ground (arith, p_id, same)

-- What a webhook can make of a payment's state.
infix 40 ◌⇒◌
pub data ◌⇒◌ : PaymentStatus → PaymentStatus → Type 0 where
  pay : pending ⇒ paid
  fail : pending ⇒ failed
  pay_late : failed ⇒ paid
  stay : {s : PaymentStatus} → s ⇒ s

-- The states that providers report.
pub data IsReport : PaymentStatus → Type 0 where
  report_paid : IsReport paid
  report_failed : IsReport failed

finalised_along :
    (p : Payment) {status : PaymentStatus}
    → IsReport status
    → finalised p status ≡ false
    → p.status ⇒ status
finalised_along p report_paid live = by_status p.status refl
  where
    by_status : (s : PaymentStatus) → p.status ≡ s → p.status ⇒ paid
    by_status pending e = rw e pay
    by_status paid e = rw e stay
    by_status failed e = rw e pay_late
    by_status refunded e = absurd (ground (arith, e))
finalised_along p report_failed live = by_status p.status refl
  where
    by_status : (s : PaymentStatus) → p.status ≡ s → p.status ⇒ failed
    by_status pending e = rw e fail
    by_status paid e = absurd (ground (arith, e))
    by_status failed e = rw e stay
    by_status refunded e = absurd (ground (arith, e))

-- A successful webhook that reports paid or failed moves the payment along an arrow: a paid or
-- refunded one stays as it is, a failed one may still be paid, and none goes back to pending.
pub apply_webhook_along :
    (i : ℕ) (ref : Text) {status : PaymentStatus} (now : ℕ) (d : Db) (p q : Payment)
    → IsReport status
    → payment_of i d ≡ some p
    → (apply_webhook i ref status now d).0 ≡ ok q
    → p.status ⇒ q.status
apply_webhook_along i ref {status} now d p q r found h =
    let (p', found', handled) = apply_webhook-Handled i ref status now d h in
    moved p' (some-injective _ _ (sym found' ∙ found)) handled
  where
    moved :
        (p' : Payment)
        → p' ≡ p
        → Handled p' ref status now d (apply_webhook i ref status now d).1 q
        → p.status ⇒ q.status
    moved p' e (already over same state) = rw (same, e) stay
    moved p' e (changed more same payments accepts free) =
        rw same (subst (λ (x : Payment). x.status ⇒ status) e (finalised_along p' r more))

-- A webhook that reported paid or failed and succeeded, delivered again at any later time, gives
-- the same answer and changes nothing.
pub apply_webhook_again :
    (i : ℕ) (ref : Text) {status : PaymentStatus} (now later : ℕ) (d : Db) (q : Payment)
    → IsReport status
    → (apply_webhook i ref status now d).0 ≡ ok q
    → let d' = (apply_webhook i ref status now d).1 in
      apply_webhook i ref status later d' ≡ (ok q, d')
apply_webhook_again i ref {status} now later d q r h =
    let (p, found, handled) = apply_webhook-Handled i ref status now d h in
    apply_webhook-finalised i ref status later (apply_webhook i ref status now d).1 q
      (apply_webhook-payment_of i ref status now d h) (over r handled)
  where
    over :
        {s : PaymentStatus}
        → IsReport s
        → {p : Payment} → Handled p ref s now d (apply_webhook i ref status now d).1 q
        → finalised q s ≡ true
    over r (already fin same state) = rw same fin
    over report_paid (changed more same payments accepts free) = rw same refl
    over report_failed (changed more same payments accepts free) = rw same refl
