-- ===== src/Services/Repository.antt =====
-- app/modules/services/repository.py. The id of a user in a row must be a row of `users` (the
-- foreign keys of app/modules/services/models.py); what breaks one is an `IntegrityError`.
pub mod Items
use ulov_backend.Prelude.{ℕ, ◌&&◌, Bool, true, not, Option, none, some, List, [], ◌∷◌, ◌++◌}
use ulov_backend.Prelude.Tests.{◌==◌, is_some}
use ulov_backend.Prelude.Text.{Text}
use ulov_backend.Prelude.Lists.{find_row, select_rows, update_rows, delete_rows}
use ulov_backend.Errors.{database_error}
use ulov_backend.Exec.{Exec, pure, gets, modify, raise_if, ◌>>=◌, ◌>>◌}
use ulov_backend.Db.{Db, fresh_id}
use ulov_backend.Db.Rows.{
  Service, ServiceItem, ItemFields, ServiceTransition, ConditionImage, Stage, Status,
}

-- The keywords of `repo.create`; the other columns take their defaults.
pub record NewService : Type 0 where
  pub car_id : ℕ
  pub center_id : ℕ
  pub mechanic_id : Option ℕ
  pub status : Status
  pub mileage_at_intake : ℕ
  pub next_recommended_mileage : Option ℕ
  pub notes : Option Text

abbrev pub new_row : NewService → ℕ → ℕ → Service
new_row f i now = record {
  id = i;
  car_id = f.car_id;
  center_id = f.center_id;
  mechanic_id = f.mechanic_id;
  status = f.status;
  mileage_at_intake = f.mileage_at_intake;
  next_recommended_mileage = f.next_recommended_mileage;
  notes = f.notes;
  created_at = now;
  started_at = none;
  paused_at = none;
  paused_elapsed_s = 0;
  completed_at = none;
  cancelled_at = none;
  cancel_reason = none;
  pause_reason = none;
  deleted_at = none;
}

unfoldable pub create : NewService → Exec Db Service
create f = do
  i ← fresh_id
  now ← gets (λ d. d.tx_now)
  let s = new_row f i now
  modify (λ d. record d { services = d.services ++ s ∷ [] })
  pure s

-- The test of `get_by_id` with `include_deleted=False`.
abbrev pub is_live : ℕ → Service → Bool
is_live service_id s = (s.id == service_id) && not (is_some s.deleted_at)

unfoldable pub get_by_id : ℕ → Exec Db (Option Service)
get_by_id service_id = gets (λ d. find_row (is_live service_id) d.services)

-- The `fields` are the columns that they set.
unfoldable pub update_fields : ℕ → (Service → Service) → Exec Db (Unit {0})
update_fields service_id fields =
    modify (λ d. record d { services = update_rows (λ s. s.id == service_id) fields d.services })

unfoldable pub list_items : ℕ → Exec Db (List ServiceItem)
list_items service_id = gets (λ d. select_rows (λ i. i.service_id == service_id) d.items)

unfoldable pub add_item : ℕ → ItemFields → Exec Db ServiceItem
add_item service_id fields = do
  i ← fresh_id
  now ← gets (λ d. d.tx_now)
  let item : ServiceItem = record {
    id = i;
    service_id = service_id;
    fields = fields;
    created_at = now;
  }
  modify (λ d. record d { items = d.items ++ item ∷ [] })
  pure item

-- The loop of `replace_items`.
add_items : ℕ → List ItemFields → Exec Db (List ServiceItem)
add_items service_id [] = pure []
add_items service_id (f ∷ fs) = do
  item ← add_item service_id f
  out ← add_items service_id fs
  pure (item ∷ out)

unfoldable pub replace_items : ℕ → List ItemFields → Exec Db (List ServiceItem)
unfolding add_items
replace_items service_id fs = do
  modify (λ d. record d { items = delete_rows (λ i. i.service_id == service_id) d.items })
  add_items service_id fs

-- A reference to a user that may be missing.
abbrev pub user_exists : Option ℕ → Db → Bool
user_exists none d = true
user_exists (some u) d = is_some (find_row (λ r. r.id == u) d.users)

unfoldable pub add_transition :
    ℕ → Option Status → Status → Option ℕ → Option Text → Exec Db ServiceTransition
add_transition service_id from_status to_status by_user_id reason = do
  i ← fresh_id
  now ← gets (λ d. d.tx_now)
  known ← gets (user_exists by_user_id)
  raise_if (not known) database_error
  let t : ServiceTransition = record {
    id = i;
    service_id = service_id;
    from_status = from_status;
    to_status = to_status;
    by_user_id = by_user_id;
    reason = reason;
    at = now;
  }
  modify (λ d. record d { transitions = d.transitions ++ t ∷ [] })
  pure t

-- `list_transitions`, in the order of insertion.
unfoldable pub list_transitions : ℕ → Exec Db (List ServiceTransition)
list_transitions service_id =
    gets (λ d. select_rows (λ t. t.service_id == service_id) d.transitions)

unfoldable pub add_condition_image : ℕ → Text → Stage → Option ℕ → Exec Db ConditionImage
add_condition_image service_id url stage uploaded_by = do
  i ← fresh_id
  now ← gets (λ d. d.tx_now)
  known ← gets (user_exists uploaded_by)
  raise_if (not known) database_error
  let img : ConditionImage = record {
    id = i;
    service_id = service_id;
    url = url;
    stage = stage;
    uploaded_by = uploaded_by;
    at = now;
  }
  modify (λ d. record d { images = d.images ++ img ∷ [] })
  pure img
