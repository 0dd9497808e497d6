-- ===== src/Click/Callbacks.antt =====
-- What Click's two callbacks do.
use ulov_backend.Prelude.{ℕ, ◌/◌, ◌≡◌, ◌≢◌, ◌⊎◌, ◌↔◌, inl, inr, false, some, arith}
use ulov_backend.Prelude.Tests.{pos, negsuc, ◌==◌, ==_iff}
use ulov_backend.Prelude.Text.{Text, codes, text_eq_iff, text_or_empty}
use ulov_backend.Prelude.Lists.{find_row-test}
use ulov_backend.Config.{Settings, Codecs}
use ulov_backend.Exec.{ok}
use ulov_backend.Db.{Db}
use ulov_backend.Db.Rows.{Payment, pending, paid, failed, refunded}
use ulov_backend.Billing.{settled, finalised, ref_taken, apply_webhook}
use ulov_backend.Billing.Webhook.{payment_of, AcceptsRef, settle_ok}
use ulov_backend.Billing.Outcome.{apply_webhook-finalised, apply_webhook-payment_of}
use ulov_backend.Click.{
  Form, err_ok, trans_cancelled, action_text, verify_signature, prepare, complete, handle,
}

module _ (cfg : Settings) (codecs : Codecs) where
  prepare-state : (form : Form) (d : Db) → (prepare cfg codecs form d).1 ≡ d
  unfolding prepare
  prepare-state form d = ground arith

  -- Only a form with the right signature and the action 1 can write.
  pub handle-reads :
      (form : Form) (now : ℕ) (d : Db)
      → (verify_signature cfg codecs form ≡ false) ⊎ (action_text form ≢ codes "1")
      → (handle cfg codecs form now d).1 ≡ d
  unfolding handle
  handle-reads form now d (inl forged) = ground (arith, forged)
  handle-reads form now d (inr other) =
      ground (arith, prepare-state form d, text_eq_iff (action_text form) (codes "1"))

  -- The merchant's id in a form names a payment.
  abbrev pub Names : Form → ℕ → Type 0
  Names form i = codecs.to_uuid (text_or_empty form.merchant_trans_id) ≡ some i

  module _ (form : Form) (i : ℕ) (d : Db) (p : Payment) (names : Names form i)
      (found : payment_of i d ≡ some p) where
    -- For a form that names a stored payment and whose amount is a number that is not negative, a
    -- prepare is answered with success exactly if the payment is pending and the number is its
    -- amount in soum.
    pub prepare_ok :
        (n : ℕ) {s : Text}
        → form.amount ≡ some s
        → codecs.to_int s ≡ some (pos n)
        → ((prepare cfg codecs form d).0 ≡ ok (record { code = err_ok; payment = some p.id }))
          ↔ ((n ≡ p.amount / 100) × (p.status ≡ pending))
    unfolding prepare
    prepare_ok n amount parsed = (
      (λ h. (
        ground (arith, names, found, amount, parsed, h),
        ground (arith, names, found, amount, parsed, h),
      )),
      λ h. ground (arith, names, found, amount, parsed, h.0, h.1),
    )

    -- A complete with error 0 for a stored payment that is pending or failed, under a reference
    -- that fits the one it may have and that no other payment has, is answered with success, and
    -- the payment is stored as paid.
    pub complete-paid :
        (now : ℕ) {s : Text}
        → form.error ≡ some s
        → codecs.to_int s ≡ some (pos 0)
        → finalised p paid ≡ false
        → AcceptsRef p (text_or_empty form.click_trans_id)
        → ref_taken p (text_or_empty form.click_trans_id) d ≡ false
        → ((complete cfg codecs form now d).0 ≡ ok (record { code = err_ok; payment = some p.id }))
          × (payment_of i (complete cfg codecs form now d).1
              ≡ some (settled p (text_or_empty form.click_trans_id) paid now))
    unfolding complete
    complete-paid now error parsed live accepts free =
        let ref : Text = text_or_empty form.click_trans_id in
        let p_id : p.id ≡ i = (==_iff p.id i).0 (find_row-test (λ r. r.id == i) d.payments found) in
        let done : (apply_webhook i ref paid now d).0 ≡ ok (settled p ref paid now) =
          (unfold apply_webhook in
            ground (arith, found, live, settle_ok p ref paid now d accepts free)) in
        let stored : payment_of i (apply_webhook i ref paid now d).1
            ≡ some (settled p ref paid now) =
          apply_webhook-payment_of i ref paid now d done in
        (
          ground (arith, names, found, error, parsed, p_id, done),
          ground (arith, names, found, error, parsed, p_id, done, stored),
        )

    -- A complete with a negative error for a stored payment that is paid or refunded is answered as
    -- cancelled, and changes nothing.
    pub complete-cancelled_paid :
        (now n : ℕ) {s : Text}
        → form.error ≡ some s
        → codecs.to_int s ≡ some (negsuc n)
        → (p.status ≡ paid) ⊎ (p.status ≡ refunded)
        → complete cfg codecs form now d
          ≡ (ok (record { code = trans_cancelled; payment = some p.id }), d)
    unfolding complete
    complete-cancelled_paid now n error parsed over =
        let ref : Text = text_or_empty form.click_trans_id in
        let p_id : p.id ≡ i = (==_iff p.id i).0 (find_row-test (λ r. r.id == i) d.payments found) in
        let kept : apply_webhook i ref failed now d ≡ (ok p, d) =
          apply_webhook-finalised i ref failed now d p found (ground (arith, over)) in
        ground (arith, names, found, error, parsed, p_id, kept)
