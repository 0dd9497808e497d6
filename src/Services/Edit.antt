-- ===== src/Services/Edit.antt =====
-- app/modules/services/service.py, `patch` and `add_condition_photo`.
pub mod Effect
use ulov_backend.Prelude.{ℕ, Option, none, some, List}
use ulov_backend.Prelude.Text.{Text}
use ulov_backend.Errors.{service_terminal_locked}
use ulov_backend.Exec.{Exec, pure, raise_if, ◌>>=◌, ◌>>◌}
use ulov_backend.Rbac.{CurrentUser}
use ulov_backend.Db.{Db}
use ulov_backend.Db.Rows.{Service, ItemFields, ConditionImage, Stage}
use ulov_backend.Services.StateMachine.{mem_status, terminal}
use ulov_backend.Services.Repository as repo
use ulov_backend.Services.Access.{get_or_404, assert_can_mutate, validate_mechanic_for_center}

-- `data`: the fields that the request sets. `mechanic_id` may be set to `None`; the others count
-- only with a value.
pub record PatchForm : Type 0 where
  pub mechanic_id : Option (Option ℕ)
  pub next_recommended_mileage : Option ℕ
  pub notes : Option Text
  pub items : Option (List ItemFields)

-- The check of `data["mechanic_id"]`, if it is there.
unfoldable pub check_mechanic : ℕ → Option (Option ℕ) → Exec Db (Unit {0})
unfolding validate_mechanic_for_center
check_mechanic center_id none = pure tt
check_mechanic center_id (some mechanic_id) = validate_mechanic_for_center center_id mechanic_id

-- `value` if the request sets it, else what the column has.
abbrev set_or : Option (Option ℕ) → Option ℕ → Option ℕ
set_or none old = old
set_or (some v) old = v

abbrev value_or {ℓ} : {A : Type ℓ} → Option A → Option A → Option A
value_or none old = old
value_or (some v) old = some v

-- `payload`; an empty one writes nothing, which is to write each row as it is.
unfoldable pub payload_of : PatchForm → Service → Service
payload_of form r = record r {
  mechanic_id = set_or form.mechanic_id r.mechanic_id;
  next_recommended_mileage = value_or form.next_recommended_mileage r.next_recommended_mileage;
  notes = value_or form.notes r.notes;
}

unfoldable pub store_items : ℕ → Option (List ItemFields) → Exec Db (Unit {0})
unfolding repo.replace_items
store_items service_id none = pure tt
store_items service_id (some fs) = do _ ← repo.replace_items service_id fs; pure tt

unfoldable pub patch : ℕ → CurrentUser → PatchForm → Exec Db Service
unfolding get_or_404 repo.update_fields
patch service_id u form = do
  s ← get_or_404 service_id
  assert_can_mutate s u
  raise_if (mem_status s.status terminal) service_terminal_locked
  check_mechanic s.center_id form.mechanic_id
  repo.update_fields s.id (payload_of form)
  store_items s.id form.items
  get_or_404 s.id

unfoldable pub add_condition_photo : ℕ → CurrentUser → Text → Stage → Exec Db ConditionImage
unfolding get_or_404 repo.add_condition_image
add_condition_photo service_id u url stage = do
  s ← get_or_404 service_id
  assert_can_mutate s u
  repo.add_condition_image s.id url stage (some u.id)
