-- ===== src/Click.antt =====
-- app/integrations/click.py: Click's two callbacks. A form is taken by its fields, each a text that
-- may be missing; `int` of a text and `UUID` of a text are `Codecs`. Answers carry no notes.
pub mod Callbacks
use ulov_backend.Prelude.{
  ℕ, ◌/◌, Bool, true, false, ◌&&◌, ◌||◌, not, Option, none, some, [], ◌∷◌, ◌++◌,
}
use ulov_backend.Prelude.Tests.{◌==◌, ℤ, pos, is_nat, if◌then◌else◌}
use ulov_backend.Prelude.Text.{Text, codes, text_eq, truthy, truthy?, text_or_empty}
use ulov_backend.Prelude.Lists.{find_row}
use ulov_backend.Config.{Settings, Codecs}
use ulov_backend.Errors.{value_error}
use ulov_backend.Exec.{Exec, pure, raise, gets, or_raise, ◌>>=◌}
use ulov_backend.Db.{Db}
use ulov_backend.Db.Rows.{Payment, PaymentStatus, pending, paid, failed}
use ulov_backend.Billing.{same_payment_status, get_payment, apply_webhook}

pub record Form : Type 0 where
  pub click_trans_id : Option Text
  pub service_id : Option Text
  pub merchant_trans_id : Option Text
  pub merchant_prepare_id : Option Text
  pub amount : Option Text
  pub action : Option Text
  pub sign_time : Option Text
  pub sign_string : Option Text
  pub error : Option Text

-- The codes 0, -1, -2, -3, -4, -5 and -9.
pub data ErrorCode : Type 0 where
  err_ok sign_check_failed incorrect_amount action_not_found already_paid user_not_found : ErrorCode
  trans_cancelled : ErrorCode

-- The code of the answer, and the payment that it names.
pub record Reply : Type 0 where
  pub code : ErrorCode
  pub payment : Option ℕ

-- `str(form.get("action"))`, where a missing field gives "None".
abbrev pub action_text : Form → Text
action_text form = elim (form.action) [ none ↦ codes "None" | some a ↦ a ]

-- `_load_payment`
load_payment : Option ℕ → Exec Db (Option Payment)
unfolding get_payment
load_payment none = pure none
load_payment (some i) = get_payment i

-- `int(form.get(k, 0))`
abbrev int_field : Codecs → Option Text → Option ℤ
int_field codecs none = some (pos 0)
int_field codecs (some s) = codecs.to_int s

prepare_loaded : Option Payment → ℤ → Reply
prepare_loaded none amount = record { code = user_not_found; payment = none }
prepare_loaded (some p) amount =
    if not (is_nat amount (p.amount / 100))
    then record { code = incorrect_amount; payment = some p.id }
    else if not (same_payment_status p.status pending)
    then record { code = already_paid; payment = some p.id }
    else record { code = err_ok; payment = some p.id }

-- The payment is looked up first: a missing one is answered whatever the amount is.
prepare_checked : Codecs → Form → Option Payment → Exec Db Reply
unfolding prepare_loaded
prepare_checked codecs form none = pure (prepare_loaded none (pos 0))
prepare_checked codecs form (some p) = do
  amount ← or_raise (int_field codecs form.amount) value_error
  pure (prepare_loaded (some p) amount)

-- `"paid" if incoming_error == 0 else "failed"`
abbrev pub status_of : ℤ → PaymentStatus
status_of e = if is_nat e 0 then paid else failed

complete_checked : Codecs → Form → ℕ → Option Payment → Exec Db Reply
complete_checked codecs form now none = pure (record { code = user_not_found; payment = none })
complete_checked codecs form now (some p) = do
  incoming ← or_raise (int_field codecs form.error) value_error
  _ ← apply_webhook p.id (text_or_empty form.click_trans_id) (status_of incoming) now
  pure
      (record { code = if is_nat incoming 0 then err_ok else trans_cancelled; payment = some p.id })

module _ (cfg : Settings) (codecs : Codecs) where
  -- What the signature is the hash of.
  unfoldable pub signed_text : Form → Text
  signed_text form =
      text_or_empty form.click_trans_id
      ++ text_or_empty form.service_id
      ++ cfg.click_secret_key
      ++ text_or_empty form.merchant_trans_id
      ++ (if text_eq (action_text form) (codes "1")
          then text_or_empty form.merchant_prepare_id
          else [])
      ++ text_or_empty form.amount
      ++ text_or_empty form.action
      ++ text_or_empty form.sign_time

  unfoldable pub verify_signature : Form → Bool
  unfolding signed_text
  verify_signature form =
      if not (truthy? form.sign_string) || not (truthy cfg.click_secret_key)
      then false
      else text_eq (codecs.md5 (signed_text form)) (text_or_empty form.sign_string)

  unfoldable pub prepare : Form → Exec Db Reply
  unfolding load_payment prepare_checked
  prepare form = do
    found ← load_payment (codecs.to_uuid (text_or_empty form.merchant_trans_id))
    prepare_checked codecs form found

  unfoldable pub complete : Form → ℕ → Exec Db Reply
  unfolding load_payment complete_checked
  complete form now = do
    found ← load_payment (codecs.to_uuid (text_or_empty form.merchant_trans_id))
    complete_checked codecs form now found

  unfoldable pub handle : Form → ℕ → Exec Db Reply
  handle form now =
      if not (verify_signature form)
      then pure (record { code = sign_check_failed; payment = none })
      else if text_eq (action_text form) (codes "0")
      then prepare form
      else if text_eq (action_text form) (codes "1")
      then complete form now
      else pure (record { code = action_not_found; payment = none })
