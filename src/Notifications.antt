-- ===== src/Notifications.antt =====
-- app/modules/notifications/repository.py and service.py: the inbox and the devices. Writing a
-- notification is in Billing and Realtime; the push to the devices does not touch the database.
pub mod Inbox
use ulov_backend.Prelude.{
  ℕ, zero, suc, Bool, ◌&&◌, ◌||◌, not, Option, none, some, List, [], ◌∷◌, ◌++◌,
}
use mathlib.Core.List.{reverse}
use ulov_backend.Prelude.Tests.{◌==◌, is_some, if◌then◌else◌}
use ulov_backend.Prelude.Text.{Text, text_eq}
use ulov_backend.Prelude.Lists.{find_row, select_rows, update_rows, count_rows}
use ulov_backend.Prelude.Pages.{take, drop}
use ulov_backend.Errors.{notification_not_found, database_error}
use ulov_backend.Exec.{Exec, pure, gets, modify, raise_if, ◌>>=◌, ◌>>◌}
use ulov_backend.Db.{Db, fresh_id}
use ulov_backend.Db.Rows.{Notification, Device, Platform}

abbrev pub is_of : ℕ → ℕ → Notification → Bool
is_of notification_id user_id n = (n.id == notification_id) && (n.user_id == user_id)

abbrev pub is_unread : ℕ → Notification → Bool
is_unread user_id n = (n.user_id == user_id) && not (is_some n.read_at)

-- `list_inbox`, newest first; the table is in the order of `created_at`.
unfoldable pub list_inbox : ℕ → Bool → ℕ → ℕ → Exec Db (List Notification × ℕ)
list_inbox user_id unread_only limit offset = do
  items ← gets (λ d. take limit (
      drop offset (
        reverse (
          select_rows (λ n. (n.user_id == user_id) && (not unread_only || not (is_some n.read_at)))
            d.notifications))))
  unread ← gets (λ d. count_rows (is_unread user_id) d.notifications)
  pure (items, unread)

-- `repo.mark_read`, with its row count
unfoldable pub set_read : ℕ → ℕ → ℕ → Exec Db ℕ
set_read now notification_id user_id = do
  affected ← gets (λ d.
      count_rows (λ n. is_of notification_id user_id n && not (is_some n.read_at)) d.notifications)
  modify (λ d. record d {
    notifications =
        update_rows (λ n. is_of notification_id user_id n && not (is_some n.read_at))
          (λ n. record n { read_at = some now }) d.notifications;
  })
  pure affected

-- `repo.get_for_user`
unfoldable pub get_for_user : ℕ → ℕ → Exec Db (Option Notification)
get_for_user notification_id user_id =
    gets (λ d. find_row (is_of notification_id user_id) d.notifications)

unfoldable pub mark_read : ℕ → ℕ → ℕ → Exec Db (Unit {0})
unfolding set_read get_for_user
mark_read now notification_id user_id = do
  affected ← set_read now notification_id user_id
  if affected == 0
      then (do
        existing ← get_for_user notification_id user_id
        raise_if (not (is_some existing)) notification_not_found)
      else pure tt

abbrev pub is_device : ℕ → Text → Device → Bool
is_device user_id token v = (v.user_id == user_id) && text_eq v.token token

-- `register_device` through `repo.upsert_device`; the pair of user and token is unique, and the
-- user must be a row of `users`.
unfoldable pub register_device : ℕ → Text → Platform → Exec Db Device
register_device user_id token platform = do
  existing ← gets (λ d. find_row (is_device user_id token) d.devices)
  elim existing [
    | some v ↦ do
      modify (λ d. record d {
        devices = update_rows (λ w. w.id == v.id) (λ w. record w { platform = platform }) d.devices;
      })
      pure (record v { platform = platform })
    | none ↦ do
      i ← fresh_id
      known ← gets (λ d. is_some (find_row (λ u. u.id == user_id) d.users))
      raise_if (not known) database_error
      modify (λ d. record d {
        devices =
            d.devices
            ++ (record { id = i; user_id = user_id; token = token; platform = platform }) ∷ [];
      })
      pure (record { id = i; user_id = user_id; token = token; platform = platform })
  ]
