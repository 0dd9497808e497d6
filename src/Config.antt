-- ===== src/Config.antt =====
-- The settings of app/config.py that the modelled code reads, and the conversions of Python's
-- standard library whose text formats the model does not go into.
use ulov_backend.Prelude.{ℕ, Bool, Option}
use ulov_backend.Prelude.Tests.{ℤ}
use ulov_backend.Prelude.Text.{Text}

pub record Settings : Type 0 where
  pub payme_merchant_id : Text
  pub payme_secret : Text
  pub payme_test_mode : Bool
  pub click_secret_key : Text
  pub otp_ttl_seconds : ℕ
  pub otp_max_attempts : ℕ
  pub otp_lock_seconds : ℕ
  pub jwt_access_ttl_seconds : ℕ
  pub jwt_refresh_ttl_seconds : ℕ
  pub s3_max_upload_bytes : ℕ
  pub s3_bucket : Text
  pub s3_endpoint_url : Option Text
  pub s3_public_url : Option Text
  pub s3_presign_expires_seconds : ℕ

-- `none` stands for the exception that the code catches, or for `int` that it does not catch.
pub record Codecs : Type 0 where
  -- `base64.b64decode(s).decode("utf-8")`
  pub b64_text : Text → Option Text
  -- `hashlib.md5(s.encode("utf-8")).hexdigest()`
  pub md5 : Text → Text
  -- `int(s)`
  pub to_int : Text → Option ℤ
  -- `UUID(s)`
  pub to_uuid : Text → Option ℕ
