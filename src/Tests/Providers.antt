-- ===== src/Tests/Providers.antt =====
-- Calls of Payme and forms of Click, with stand-ins for base64, MD5 and the parsers of ids.
use ulov_backend.Prelude.{◌≡◌, refl, true, false, Option, none, some, [], ◌∷◌}
use ulov_backend.Prelude.Tests.{ℤ, pos, negsuc, if◌then◌else◌}
use ulov_backend.Prelude.Text.{Text, text_eq, codes}
use ulov_backend.Prelude.Lists.{find_row}
use ulov_backend.Config.{Settings, Codecs}
use ulov_backend.Exec.{ok}
use ulov_backend.Db.{Db}
use ulov_backend.Db.Rows.{Payment, pending, paid, failed}
use ulov_backend.Billing.{settled}
use ulov_backend.Billing.Webhook.{payment_of}
use ulov_backend.Payme.{
  Params, uuid, payment_id_from_account, performed, cancelled, result, handle_perform,
  handle_cancel, handle_check, verify_basic_auth, parse_basic, split_once, starts_with,
}
use ulov_backend.Payme.Lifecycle.{attached, handle_cancel-paid, handle_perform-paid}
use ulov_backend.Click as click
use ulov_backend.Click.{Form, err_ok, trans_cancelled, verify_signature, prepare, complete}
use ulov_backend.Tests.Data.{bill, shop}

abbrev cfg : Settings
cfg = record {
  payme_merchant_id = codes "m1";
  payme_secret = codes "k";
  payme_test_mode = true;
  click_secret_key = codes "s";
  otp_ttl_seconds = 120;
  otp_max_attempts = 5;
  otp_lock_seconds = 600;
  jwt_access_ttl_seconds = 900;
  jwt_refresh_ttl_seconds = 2592000;
  s3_max_upload_bytes = 10485760;
  s3_bucket = codes "ulov";
  s3_endpoint_url = none;
  s3_public_url = some (codes "https://cdn/");
  s3_presign_expires_seconds = 600;
}

-- Numbers that the forms below use.
abbrev to_int : Text → Option ℤ
to_int s =
    if text_eq s (codes "900")
    then some (pos 900)
    else if text_eq s (codes "0")
    then some (pos 0)
    else if text_eq s (codes "-1")
    then some (negsuc 0)
    else none

abbrev codecs : Codecs
codecs = record {
  b64_text = λ s. some s;
  md5 = λ s. s;
  to_int = to_int;
  to_uuid = λ s. if text_eq s (codes "50") then some 50 else none;
}

abbrev params : Params
params = record {
  payment_id = some (uuid 50);
  order_id = none;
  amount = some 90000;
  id = some (codes "tx1");
  time = some 123;
}

abbrev fresh : Payment
fresh = bill 50 pending none

abbrev fresh_till : Db
fresh_till = shop [] [] (fresh ∷ bill 51 failed (some (codes "b")) ∷ [])

fresh_found : payment_of 50 fresh_till ≡ some fresh
unfolding find_row
fresh_found = refl

params_name : payment_id_from_account params ≡ some 50
unfolding payment_id_from_account
params_name = refl

abbrev taken : Payment
taken = bill 50 pending (some (codes "tx0"))

abbrev taken_till : Db
taken_till = shop [] [] (taken ∷ [])

taken_found : payment_of 50 taken_till ≡ some taken
unfolding find_row
taken_found = refl

abbrev attached_bill : Payment
attached_bill = bill 50 pending (some (codes "tx1"))

abbrev attached_till : Db
attached_till = shop [] [] (attached_bill ∷ [])

attached_found : attached (codes "tx1") attached_till ≡ some attached_bill
unfolding find_row text_eq
attached_found = refl

handle_perform-paid_example :
    let d' = (handle_perform params 1000 attached_till).1 in
    ((handle_perform params 1000 attached_till).0 ≡ ok (result 50 performed (some 123)))
    × (payment_of 50 d'
        ≡ some (record attached_bill {
          status = paid;
          external_ref = some (codes "tx1");
          paid_at = some 1000;
        }))
    × (handle_check params d' ≡ (ok (result 50 performed none), d'))
unfolding find_row text_eq
handle_perform-paid_example =
    handle_perform-paid params attached_till attached_bill (tt, tt) attached_found 1000 refl refl
      refl

abbrev paid_bill : Payment
paid_bill = settled attached_bill (codes "tx1") paid 1000

abbrev paid_till : Db
paid_till = shop [] [] (paid_bill ∷ [])

paid_found : attached (codes "tx1") paid_till ≡ some paid_bill
unfolding find_row text_eq
paid_found = refl

handle_cancel-paid_example :
    (handle_cancel params 2000 paid_till ≡ (ok (result 50 cancelled (some 123)), paid_till))
    × (handle_check params (handle_cancel params 2000 paid_till).1
        ≡ (ok (result 50 performed none), (handle_cancel params 2000 paid_till).1))
handle_cancel-paid_example =
    handle_cancel-paid params paid_till paid_bill (tt, tt) paid_found 2000 refl

-- The right credentials are accepted.
accepts_merchant : verify_basic_auth cfg codecs (some (codes "Basic m1:k")) ≡ true
unfolding verify_basic_auth parse_basic starts_with split_once text_eq
accepts_merchant = refl

abbrev form : Text → Text → Form
form action err = record {
  click_trans_id = some (codes "tx1");
  service_id = some (codes "7");
  merchant_trans_id = some (codes "50");
  merchant_prepare_id = some (codes "50");
  amount = some (codes "900");
  action = some action;
  sign_time = some (codes "t");
  sign_string = some (codes "forged");
  error = some err;
}

forged : verify_signature cfg codecs (form (codes "1") (codes "0")) ≡ false
unfolding verify_signature click.signed_text text_eq
forged = refl

paid_by_id : payment_of 50 paid_till ≡ some paid_bill
unfolding find_row
paid_by_id = refl
