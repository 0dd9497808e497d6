-- ===== src/Errors.antt =====
-- app/core/errors.py: the error codes that the modelled operations raise, with the HTTP status of
-- the class that raises them. `database_error` is what SQLAlchemy raises where a constraint or the
-- length of a column is broken: an IntegrityError, a DataError, or the error of a session that one
-- of these has left unusable.
use ulov_backend.Prelude.{ℕ}

-- `code` of an `AppError`. The last three are no `AppError`: a unique constraint of the database, a
-- failed assertion, and a conversion that raises `ValueError`; they end in the 500 handler.
pub data Code : Type 0 where
  service_forbidden service_not_found car_history_forbidden lookup_requires_vin_or_plate : Code
  lookup_staff_only vehicle_not_found service_mechanic_invalid car_not_found : Code
  service_mileage_regression service_terminal_locked service_state_terminal : Code
  service_state_invalid service_cancel_reason_required center_not_found center_forbidden : Code
  center_not_owner car_not_owner car_plate_duplicate car_vin_duplicate car_mileage_decrease : Code
  billing_plan_not_found billing_payment_not_found billing_ref_mismatch : Code
  auth_phone_taken auth_invalid_credentials auth_disabled auth_refresh_invalid : Code
  auth_otp_locked auth_otp_expired auth_otp_invalid auth_missing auth_invalid_scheme : Code
  auth_not_customer auth_not_staff auth_not_owner auth_forbidden rate_limited : Code
  upload_entity_required upload_staff_only upload_content_type_invalid upload_too_large : Code
  notification_not_found auth_invalid_token auth_user_not_found auth_refresh_missing : Code
  user_not_found mechanic_not_found mechanic_login_duplicate center_requires_owner : Code
  admin_role_invalid ws_token_missing trip_not_found trip_not_owner trip_finished : Code
  insurance_company_not_found insurance_tariff_not_found insurance_car_not_owned : Code
  insurance_date_range_invalid : Code
  database_error assertion_error value_error overflow_error : Code

-- The subclasses of `AppError`; `unhandled` is any other exception.
pub data ErrorClass : Type 0 where
  validation not_found conflict unauthorized forbidden too_many unhandled : ErrorClass

-- `status_code` of each class, and 500 of `_handle_unhandled`.
pub status_code : ErrorClass → ℕ
status_code validation = 422
status_code not_found = 404
status_code conflict = 409
status_code unauthorized = 401
status_code forbidden = 403
status_code too_many = 429
status_code unhandled = 500

-- The class that each code is raised with.
pub error_class : Code → ErrorClass
error_class Code.service_forbidden = forbidden
error_class Code.service_not_found = not_found
error_class Code.car_history_forbidden = forbidden
error_class Code.lookup_requires_vin_or_plate = validation
error_class Code.lookup_staff_only = forbidden
error_class Code.vehicle_not_found = not_found
error_class Code.service_mechanic_invalid = validation
error_class Code.car_not_found = not_found
error_class Code.service_mileage_regression = validation
error_class Code.service_terminal_locked = conflict
error_class Code.service_state_terminal = conflict
error_class Code.service_state_invalid = conflict
error_class Code.service_cancel_reason_required = validation
error_class Code.center_not_found = not_found
error_class Code.center_forbidden = forbidden
error_class Code.center_not_owner = forbidden
error_class Code.car_not_owner = forbidden
error_class Code.car_plate_duplicate = conflict
error_class Code.car_vin_duplicate = conflict
error_class Code.car_mileage_decrease = validation
error_class Code.billing_plan_not_found = not_found
error_class Code.billing_payment_not_found = not_found
error_class Code.billing_ref_mismatch = conflict
error_class Code.auth_phone_taken = conflict
error_class Code.auth_invalid_credentials = unauthorized
error_class Code.auth_disabled = unauthorized
error_class Code.auth_refresh_invalid = unauthorized
error_class Code.auth_otp_locked = unauthorized
error_class Code.auth_otp_expired = unauthorized
error_class Code.auth_otp_invalid = unauthorized
error_class Code.auth_missing = unauthorized
error_class Code.auth_invalid_scheme = unauthorized
error_class Code.auth_not_customer = unauthorized
error_class Code.auth_not_staff = unauthorized
error_class Code.auth_not_owner = unauthorized
error_class Code.auth_forbidden = forbidden
error_class Code.rate_limited = too_many
error_class Code.upload_entity_required = validation
error_class Code.upload_staff_only = forbidden
error_class Code.upload_content_type_invalid = validation
error_class Code.upload_too_large = validation
error_class Code.notification_not_found = not_found
error_class Code.auth_invalid_token = unauthorized
error_class Code.auth_user_not_found = not_found
error_class Code.auth_refresh_missing = unauthorized
error_class Code.user_not_found = not_found
error_class Code.mechanic_not_found = not_found
error_class Code.mechanic_login_duplicate = conflict
error_class Code.center_requires_owner = forbidden
error_class Code.admin_role_invalid = validation
error_class Code.ws_token_missing = unauthorized
error_class Code.trip_not_found = not_found
error_class Code.trip_not_owner = forbidden
error_class Code.trip_finished = conflict
error_class Code.insurance_company_not_found = not_found
error_class Code.insurance_tariff_not_found = not_found
error_class Code.insurance_car_not_owned = validation
error_class Code.insurance_date_range_invalid = validation
error_class Code.database_error = unhandled
error_class Code.overflow_error = unhandled
error_class Code.assertion_error = unhandled
error_class Code.value_error = unhandled
