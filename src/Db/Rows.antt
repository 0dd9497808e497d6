-- ===== src/Db/Rows.antt =====
-- The rows of the tables that the modelled operations read and write: app/modules/*/models.py.
-- A UUID and a time in microseconds are numbers; prices are in tiyin and never negative.
use ulov_backend.Prelude.{ℕ, Bool, Option, List}
use ulov_backend.Prelude.Text.{Text}
use ulov_backend.Rbac.{Role}

-- users/models.py
pub record User : Type 0 where
  pub id : ℕ
  pub phone : Text
  pub password_hash : Text
  pub full_name : Option Text
  pub email : Option Text
  pub city : Option Text
  pub avatar_url : Option Text
  pub role : Role
  pub center_id : Option ℕ
  pub is_active : Bool

-- auth/models.py
pub record RefreshToken : Type 0 where
  pub id : ℕ
  pub user_id : ℕ
  pub token_hash : Text
  pub user_agent : Option Text
  pub ip : Option Text
  pub expires_at : ℕ
  pub revoked_at : Option ℕ
  pub created_at : ℕ

-- service_centers/models.py; `location` and `schedule` are JSON texts that are only stored
pub record ServiceCenter : Type 0 where
  pub id : ℕ
  pub owner_user_id : ℕ
  pub name : Text
  pub phone : Text
  pub address : Text
  pub description : Option Text
  pub location : Option Text
  pub schedule : Text
  pub services : List Text
  pub avatar_url : Option Text
  pub subscription_plan_id : Option ℕ
  pub subscription_until : Option ℕ

-- mechanics/models.py
pub record Mechanic : Type 0 where
  pub id : ℕ
  pub center_id : ℕ
  pub full_name : Text
  pub login : Text
  pub password_hash : Text
  pub service_types : List Text
  pub deleted_at : Option ℕ
  pub created_at : ℕ

pub data PlateType : Type 0 where
  standard legal other : PlateType

-- cars/models.py
pub record Car : Type 0 where
  pub id : ℕ
  pub owner_id : ℕ
  pub brand : Text
  pub model : Text
  pub year : ℕ
  pub color : Option Text
  pub plate : Text
  pub plate_type : PlateType
  pub mileage : ℕ
  pub vin : Option Text
  pub tech_passport : Option Text
  pub insurance_from : Option ℕ
  pub insurance_to : Option ℕ
  pub insurance_company : Option Text
  pub tint_from : Option ℕ
  pub tint_to : Option ℕ
  pub photo_url : Option Text

pub data MileageSource : Type 0 where
  user service : MileageSource

pub record MileageReading : Type 0 where
  pub id : ℕ
  pub car_id : ℕ
  pub value : ℕ
  pub source : MileageSource
  pub recorded_at : ℕ

-- services/models.py, `SERVICE_STATUS_VALUES`
pub data Status : Type 0 where
  waiting in_progress paused completed cancelled : Status

-- services/models.py; `created_at` is set by the database
pub record Service : Type 0 where
  pub id : ℕ
  pub car_id : ℕ
  pub center_id : ℕ
  pub mechanic_id : Option ℕ
  pub status : Status
  pub mileage_at_intake : ℕ
  pub next_recommended_mileage : Option ℕ
  pub notes : Option Text
  pub created_at : ℕ
  pub started_at : Option ℕ
  pub paused_at : Option ℕ
  pub paused_elapsed_s : ℕ
  pub completed_at : Option ℕ
  pub cancelled_at : Option ℕ
  pub cancel_reason : Option Text
  pub pause_reason : Option Text
  pub deleted_at : Option ℕ

-- `ServiceItemIn.dict()`; `parts` is JSON that is only stored.
pub record ItemFields : Type 0 where
  pub service_type : Text
  pub parts : Text
  pub notes : Option Text
  pub service_price : ℕ
  pub parts_price : ℕ

pub record ServiceItem : Type 0 where
  pub id : ℕ
  pub service_id : ℕ
  pub fields : ItemFields
  pub created_at : ℕ

pub record ServiceTransition : Type 0 where
  pub id : ℕ
  pub service_id : ℕ
  pub from_status : Option Status
  pub to_status : Status
  pub by_user_id : Option ℕ
  pub reason : Option Text
  pub at : ℕ

pub data Stage : Type 0 where
  before during after : Stage

pub record ConditionImage : Type 0 where
  pub id : ℕ
  pub service_id : ℕ
  pub url : Text
  pub stage : Stage
  pub uploaded_by : Option ℕ
  pub at : ℕ

-- The payloads of the audit rows that are written: of a service's transition, and of an admin's
-- change of a user. `action` and `entity_type` go with the kind of the payload.
pub data Payload : Type 0 where
  of_status : Status → Payload
  of_role : Role → Payload
  of_active : Bool → Payload

-- audit/models.py
pub record AuditLog : Type 0 where
  pub actor_user_id : Option ℕ
  pub actor_role : Option Role
  pub entity_id : ℕ
  pub before : Payload
  pub after : Payload
  pub meta : Option Text

-- billing/models.py
pub data PaymentStatus : Type 0 where
  pending paid failed refunded : PaymentStatus

pub data PaymentKind : Type 0 where
  subscription insurance service_payment : PaymentKind

pub data Provider : Type 0 where
  payme click stripe manual : Provider

pub record SubscriptionPlan : Type 0 where
  pub id : ℕ
  pub code : Text
  pub monthly_price : ℕ
  pub duration_days : ℕ
  pub active : Bool

pub record Payment : Type 0 where
  pub id : ℕ
  pub user_id : ℕ
  pub kind : PaymentKind
  pub target_id : Option ℕ
  pub plan_id : Option ℕ
  pub amount : ℕ
  pub provider : Provider
  pub status : PaymentStatus
  pub external_ref : Option Text
  pub created_at : ℕ
  pub paid_at : Option ℕ

-- What an inbox row is about, which gives its kind, title, body and payload: a bill that was paid
-- (its id, its amount and kind), or a service that changed its state.
pub data About : Type 0 where
  paid_bill : ℕ → ℕ → PaymentKind → About
  moved_service : ℕ → Status → About

-- notifications/models.py
pub record Notification : Type 0 where
  pub id : ℕ
  pub user_id : ℕ
  pub about : About
  pub read_at : Option ℕ

-- notifications/models.py
pub data Platform : Type 0 where
  ios android web : Platform

pub record Device : Type 0 where
  pub id : ℕ
  pub user_id : ℕ
  pub token : Text
  pub platform : Platform
