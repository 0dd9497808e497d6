-- ===== src/Realtime/Desk.antt =====
-- app/modules/services/router.py: the endpoints of a centre's desk, beside the one that moves a
-- service. Bodies of answers carry the rows; the names that they add of cars, centres and mechanics
-- are left out.
use ulov_backend.Prelude.{ℕ, not, ◌&&◌, Option, none, List, []}
use ulov_backend.Prelude.Tests.{◌==◌, if◌then◌else◌}
use ulov_backend.Prelude.Text.{Text, truthy?, text_or_empty}
use ulov_backend.Prelude.Lists.{select_rows}
use ulov_backend.Config.{Settings}
use ulov_backend.Exec.{Exec, Result, pure, gets, ◌>>=◌}
use ulov_backend.Rbac.{CurrentUser, get_current_staff}
use ulov_backend.Db.{Db}
use ulov_backend.Db.Rows.{Service, ServiceItem, Car, ConditionImage, Stage}
use ulov_backend.Services.Access.{get_for_user, list_items, lookup_vehicle}
use ulov_backend.Services.Intake.{IntakeForm, create}
use ulov_backend.Services.Edit.{PatchForm, patch}
use ulov_backend.Services.Edit as edit
use ulov_backend.Services.Lists.{staff_gate}
use ulov_backend.Uploads.{public_url_for}
use ulov_backend.Realtime.{World, serve_staff}

-- A service with its items, as each endpoint answers it.
unfoldable pub open_for : CurrentUser → ℕ → IntakeForm → Exec Db (Service × List ServiceItem)
unfolding create list_items
open_for u center_id form = do
  s ← create center_id u form
  items ← list_items s.id u
  pure (s, items)

unfoldable pub create_service :
    (ℕ → Text) → Result CurrentUser → ℕ → IntakeForm → Exec World (Service × List ServiceItem)
unfolding serve_staff open_for
create_service uuid_text caller center_id form =
    serve_staff uuid_text caller none (λ u. open_for u center_id form)

pub record IntakeIn : Type 0 where
  pub vin : Option Text
  pub plate : Option Text
  pub mileage_at_intake : ℕ
  pub mechanic_id : Option ℕ
  pub notes : Option Text

-- What `intake` gives to `create`.
abbrev pub form_of : IntakeIn → Car → IntakeForm
form_of body car = record {
  car_id = car.id;
  mileage_at_intake = body.mileage_at_intake;
  mechanic_id = body.mechanic_id;
  next_recommended_mileage = none;
  notes = body.notes;
  items = [];
}

unfoldable pub open_found : CurrentUser → ℕ → IntakeIn → Exec Db (Service × List ServiceItem)
unfolding lookup_vehicle open_for
open_found u center_id body = do
  car ← lookup_vehicle u body.vin body.plate
  open_for u center_id (form_of body car)

unfoldable pub intake :
    (ℕ → Text) → Result CurrentUser → ℕ → IntakeIn → Exec World (Service × List ServiceItem)
unfolding serve_staff open_found
intake uuid_text caller center_id body =
    serve_staff uuid_text caller none (λ u. open_found u center_id body)

unfoldable pub get_service : CurrentUser → ℕ → Exec Db (Service × List ServiceItem)
unfolding get_for_user list_items
get_service u service_id = do
  s ← get_for_user service_id u
  items ← list_items s.id u
  pure (s, items)

unfoldable pub patch_service : CurrentUser → ℕ → PatchForm → Exec Db (Service × List ServiceItem)
unfolding get_current_staff patch list_items
patch_service caller service_id body = do
  u ← staff_gate caller
  s ← patch service_id u body
  items ← list_items s.id u
  pure (s, items)

-- The URL of a photo: that of the key where a key is sent and no URL.
abbrev pub photo_url : Settings → Option Text → Option Text → Text
photo_url cfg url key =
    if truthy? key && not (truthy? url)
    then public_url_for cfg (text_or_empty key)
    else text_or_empty url

unfoldable pub add_condition_photo :
    Settings → CurrentUser → ℕ → Option Text → Option Text → Stage → Exec Db ConditionImage
unfolding get_current_staff edit.add_condition_photo public_url_for
add_condition_photo cfg caller service_id url key stage = do
  u ← staff_gate caller
  edit.add_condition_photo service_id u (photo_url cfg url key) stage

-- `repo.list_condition_images`, in the order of insertion
unfoldable pub list_condition_images : ℕ → Exec Db (List ConditionImage)
list_condition_images service_id =
    gets (λ d. select_rows (λ p. p.service_id == service_id) d.images)

unfoldable pub list_condition_photos : CurrentUser → ℕ → Exec Db (List ConditionImage)
unfolding get_for_user list_condition_images
list_condition_photos u service_id = do s ← get_for_user service_id u; list_condition_images s.id
