-- ===== src/Services/Requests.antt =====
-- A run of requests on services, one session for each: app/modules/services/router.py calls these
-- operations under `get_db`. The environment chooses the requests, who makes them and the times.
use ulov_backend.Prelude.{ℕ, Option, List, [], ◌∷◌}
use ulov_backend.Prelude.Text.{Text}
use ulov_backend.Exec.{Exec, pure, request, ◌>>=◌}
use ulov_backend.Rbac.{CurrentUser}
use ulov_backend.Db.{Db}
use ulov_backend.Db.Rows.{Status, Stage}
use ulov_backend.Services.Intake as intake
use ulov_backend.Services.Intake.{IntakeForm}
use ulov_backend.Services.Edit.{PatchForm, patch, add_condition_photo}
use ulov_backend.Services.Transition.{transition}

pub data Request : Type 0 where
  open_service : ℕ → CurrentUser → IntakeForm → Request
  edit : ℕ → CurrentUser → PatchForm → Request
  move : ℕ → CurrentUser → Status → Option Text → ℕ → Request
  photo : ℕ → CurrentUser → Text → Stage → Request

-- The answer's body is dropped.
abbrev pub forget : {A : Type 0} → Exec Db A → Exec Db (Unit {0})
forget m = do _ ← m; pure tt

unfoldable pub handle : Request → Exec Db (Unit {0})
handle (open_service center_id u form) = forget (intake.create center_id u form)
handle (edit service_id u form) = forget (patch service_id u form)
handle (move service_id u to reason now) = forget (transition service_id u to reason now)
handle (photo service_id u url stage) = forget (add_condition_photo service_id u url stage)

-- Each request comes with the time of its transaction.
unfoldable pub serve : Db → List (ℕ × Request) → Db
serve d [] = d
serve d ((at, r) ∷ rs) = serve (request (handle r) (record d { tx_now = at })).1 rs
