-- ===== src/Db.antt =====
-- The database that a session works on: one list for each table, oldest row first, the number that
-- the next row takes for its id, and the time of the transaction (`func.now()`).
pub mod Rows
use ulov_backend.Prelude.{ℕ, suc, List}
use ulov_backend.Exec.{Exec, ok}
use Rows.{
  User, RefreshToken, ServiceCenter, Mechanic, Car, MileageReading, Service, ServiceItem,
  ServiceTransition, ConditionImage, AuditLog, SubscriptionPlan, Payment, Notification, Device,
}

pub record Db : Type 0 where
  pub next_id : ℕ
  pub tx_now : ℕ
  pub users : List User
  pub refresh_tokens : List RefreshToken
  pub centers : List ServiceCenter
  pub mechanics : List Mechanic
  pub cars : List Car
  pub readings : List MileageReading
  pub services : List Service
  pub items : List ServiceItem
  pub transitions : List ServiceTransition
  pub images : List ConditionImage
  pub audit : List AuditLog
  pub plans : List SubscriptionPlan
  pub payments : List Payment
  pub notifications : List Notification
  pub devices : List Device

-- The id of a new row (`default=uuid.uuid4`), never given before.
abbrev pub fresh_id : Exec Db ℕ
fresh_id d = (ok d.next_id, record d { next_id = suc d.next_id })
