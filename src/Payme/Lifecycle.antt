-- ===== src/Payme/Lifecycle.antt =====
-- The life of a Payme transaction: created, performed, looked up and cancelled.
use ulov_backend.Prelude.{ℕ, ◌≡◌, refl, ap, ◌∙◌, true, false, Option, none, some, arith}
use ulov_backend.Prelude.Tests.{◌==◌, ==_refl}
use ulov_backend.Prelude.Text.{Text, text_eq_refl, truthy}
use ulov_backend.Prelude.Keys.{Keyed, Keyed-find_row, Keyed-find_key, find_row-replace}
use ulov_backend.Prelude.Lists.{All, find_row, find_row-test}
use ulov_backend.Exec.{ok}
use ulov_backend.Db.{Db}
use ulov_backend.Db.Rows.{Payment, paid, failed}
use ulov_backend.Billing.{has_ref, ref_taken, settled, finalised, apply_webhook, settle}
use ulov_backend.Billing.Webhook.{payment_of, flushed, AcceptsRef, settle-payments, settle_ok}
use ulov_backend.Billing.Outcome.{apply_webhook-finalised}
use ulov_backend.Payme.{
  Params, result, performed, cancelled, payme_id, time_of, state_of, handle_perform, handle_cancel,
  handle_check,
}

-- The ids of payments differ.
abbrev pub KeyedPayments : Db → Type 0
KeyedPayments d = Keyed (λ (p : Payment). p.id) d.payments

-- The payment that a transaction id is attached to.
abbrev pub attached : Text → Db → Option Payment
attached ref d = find_row (has_ref ref) d.payments

-- A lookup by an attached id.
check_attached :
    (params : Params) (p : Payment) (d : Db)
    → attached (payme_id params) d ≡ some p
    → handle_check params d ≡ (ok (result p.id (state_of p.status) none), d)
unfolding handle_check
check_attached params p d found = ground (arith, found)

-- A payment accepts the reference that it has.
ref_accepted : (p : Payment) (ref : Text) → has_ref ref p ≡ true → AcceptsRef p ref
ref_accepted p ref h = ground (arith, h)

module _ (params : Params) (d : Db) (p : Payment) (keyed : KeyedPayments d)
    (found : attached (payme_id params) d ≡ some p) where
  only : All (λ (x : Payment). x.id ≡ p.id → x ≡ p) d.payments
  only = Keyed-find_row (λ (x : Payment). x.id) (has_ref (payme_id params)) d.payments p keyed found

  by_id : payment_of p.id d ≡ some p
  by_id = Keyed-find_key (λ (x : Payment). x.id) (has_ref (payme_id params)) d.payments p only found

  -- Where the ids of payments differ, to cancel the transaction of a payment that is paid answers
  -- that it is cancelled and changes nothing: a lookup afterwards still answers that it is
  -- performed.
  pub handle_cancel-paid :
      (now : ℕ)
      → p.status ≡ paid
      → (handle_cancel params now d ≡ (ok (result p.id cancelled (some (time_of params))), d))
        × (handle_check params (handle_cancel params now d).1
            ≡ (ok (result p.id performed none), (handle_cancel params now d).1))
  unfolding handle_cancel
  handle_cancel-paid now status =
      let kept : apply_webhook p.id (payme_id params) failed now d ≡ (ok p, d) =
        apply_webhook-finalised p.id (payme_id params) failed now d p by_id
          (ground (arith, status)) in
      let same : handle_cancel params now d
          ≡ (ok (result p.id cancelled (some (time_of params))), d) =
        ground (arith, found, kept) in
      (same, rw same (check_attached params p d found ∙ rw status refl))

  -- Where the ids of payments differ, to perform a transaction that is attached to a pending or
  -- failed payment, under an id that is not empty and that no other payment has, pays it: the
  -- answer says so, the payment is stored as paid at that time, and a lookup afterwards says so
  -- too.
  pub handle_perform-paid :
      (now : ℕ)
      → truthy (payme_id params) ≡ true
      → finalised p paid ≡ false
      → ref_taken p (payme_id params) d ≡ false
      → let d' = (handle_perform params now d).1 in
        ((handle_perform params now d).0 ≡ ok (result p.id performed (some (time_of params))))
        × (payment_of p.id d'
            ≡ some (record p {
              status = paid;
              external_ref = some (payme_id params);
              paid_at = some now;
            }))
        × (handle_check params d' ≡ (ok (result p.id performed none), d'))
  unfolding handle_perform apply_webhook
  handle_perform-paid now named live free =
      let p' : Payment = settled p (payme_id params) paid now in
      let p_ref : has_ref (payme_id params) p ≡ true =
        find_row-test (has_ref (payme_id params)) d.payments found in
      let written : (settle p (payme_id params) paid now d).0 ≡ ok p' =
        settle_ok p (payme_id params) paid now d (ref_accepted p (payme_id params) p_ref) free in
      let after : (settle p (payme_id params) paid now d).1.payments ≡ (flushed p' d).payments =
        (settle-payments p (payme_id params) paid now d written).1 in
      let state : (handle_perform params now d).1 ≡ (settle p (payme_id params) paid now d).1 =
        ground (arith, found, named, by_id, live, written) in
      let attached' : attached (payme_id params) (settle p (payme_id params) paid now d).1
          ≡ some p' =
        ap (find_row (has_ref (payme_id params))) after
        ∙ find_row-replace (λ (x : Payment). x.id) (has_ref (payme_id params)) p' d.payments p
            (text_eq_refl (payme_id params)) only found in
      let stored : payment_of p.id (settle p (payme_id params) paid now d).1 ≡ some p' =
        ap (find_row (λ x. x.id == p.id)) after
        ∙ find_row-replace (λ (x : Payment). x.id) (λ x. x.id == p.id) p' d.payments p
            (==_refl p.id) only by_id in
      (
        ground (arith, found, named, by_id, live, written),
        rw state stored,
        rw state (check_attached params p' (settle p (payme_id params) paid now d).1 attached'),
      )
