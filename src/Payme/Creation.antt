-- ===== src/Payme/Creation.antt =====
-- Payme's `CreateTransaction`: a transaction id is attached to a payment once.
use ulov_backend.Prelude.{ℕ, ◌≡◌, ◌≢◌, refl, sym, ap, ◌∙◌, true, false, some, arith}
use mathlib.Core.Path.{subst}
use ulov_backend.Prelude.Tests.{◌==◌, ==_iff}
use ulov_backend.Prelude.Text.{Text, text_eq_refl, text_eq_iff, truthy, truthy?}
use ulov_backend.Prelude.Lists.{find_row-test}
use ulov_backend.Exec.{ok}
use ulov_backend.Db.{Db}
use ulov_backend.Db.Rows.{Payment}
use ulov_backend.Billing.{ref_taken}
use ulov_backend.Billing.Webhook.{payment_of, flushed, payment_of-flushed}
use ulov_backend.Payme.{
  Params, result, error, created, invalid_account, payme_id, time_of, amount_of,
  payment_id_from_account, handle_create,
}

abbrev pub with_ref : Payment → Text → Payment
with_ref p ref = record p { external_ref = some ref }

-- A transaction id that comes again, for a payment that has it, is answered as before and writes
-- nothing, whatever has become of the payment in the meantime.
pub handle_create_again :
    (params : Params) (d : Db) (i : ℕ) (p : Payment)
    → payment_id_from_account params ≡ some i
    → payment_of i d ≡ some p
    → amount_of params ≡ p.amount
    → truthy (payme_id params) ≡ true
    → p.external_ref ≡ some (payme_id params)
    → handle_create params d ≡ (ok (result p.id created (some (time_of params))), d)
unfolding handle_create
handle_create_again params d i p account found amount named has =
    ground (arith, account, found, amount, named, has, text_eq_refl (payme_id params))

-- The first transaction for a payment, with its amount and an id that is not empty and that no
-- other payment has, attaches the id to the payment and answers that it is created; the same call
-- again has the same answer and writes nothing.
pub handle_create_first :
    (params : Params) (d : Db) (i : ℕ) (p : Payment)
    → payment_id_from_account params ≡ some i
    → payment_of i d ≡ some p
    → amount_of params ≡ p.amount
    → truthy (payme_id params) ≡ true
    → truthy? p.external_ref ≡ false
    → ref_taken p (payme_id params) d ≡ false
    → let d' = (handle_create params d).1 in
      ((handle_create params d).0 ≡ ok (result p.id created (some (time_of params))))
      × (payment_of i d' ≡ some (with_ref p (payme_id params)))
      × (handle_create params d' ≡ (ok (result p.id created (some (time_of params))), d'))
unfolding handle_create
handle_create_first params d i p account found amount named bare free =
    let p_id : p.id ≡ i = (==_iff p.id i).0 (find_row-test (λ r. r.id == i) d.payments found) in
    let state : handle_create params d ≡ (
      ok (result p.id created (some (time_of params))),
      flushed (with_ref p (payme_id params)) d,
    ) =
      ground (arith, account, found, amount, named, bare, free) in
    let stored : payment_of i (flushed (with_ref p (payme_id params)) d)
        ≡ some (with_ref p (payme_id params)) =
      payment_of-flushed i (with_ref p (payme_id params)) p d
        (subst (λ k. payment_of k d ≡ some p) (sym p_id) found)
      ∙ ground (arith, p_id) in
    (
      ap (λ r. r.0) state,
      rw state stored,
      rw state (
          handle_create_again params (flushed (with_ref p (payme_id params)) d) i
            (with_ref p (payme_id params)) account stored amount named refl),
    )

-- A payment that has a transaction id takes no other: a call with its amount and another id that is
-- not empty is refused and writes nothing.
pub handle_create_other :
    (params : Params) (d : Db) (i : ℕ) (p : Payment) (ref : Text)
    → payment_id_from_account params ≡ some i
    → payment_of i d ≡ some p
    → amount_of params ≡ p.amount
    → truthy (payme_id params) ≡ true
    → p.external_ref ≡ some ref
    → truthy ref ≡ true
    → ref ≢ payme_id params
    → handle_create params d ≡ (ok (error invalid_account), d)
unfolding handle_create
handle_create_other params d i p ref account found amount named has set ne =
    ground (arith, account, found, amount, named, has, set, text_eq_iff ref (payme_id params))
