-- ===== src/Admin.antt =====
-- app/modules/admin/router.py: the endpoints of the platform's staff. Each runs behind
-- `require_role(Role.ADMIN)`. The lists of users and centres are left out.
pub mod Accounts
use ulov_backend.Prelude.{ℕ, Bool, true, not, ◌&&◌, Option, none, some, List, [], ◌∷◌, map}
use ulov_backend.Prelude.Tests.{◌==◌, is_some, or_else}
use ulov_backend.Prelude.Lists.{find_row, select_rows, update_rows, length}
use ulov_backend.Prelude.Groups.{group_by}
use ulov_backend.Errors.{user_not_found, admin_role_invalid}
use ulov_backend.Exec.{Exec, Result, pure, gets, modify, or_raise, ◌>>=◌, ◌>>◌}
use ulov_backend.Rbac.{Role, CurrentUser, admin, same_role, require_role}
use ulov_backend.Db.{Db}
use ulov_backend.Db.Rows.{User, Service, of_role, of_active, waiting, in_progress, paused}
use ulov_backend.Services.StateMachine.{mem_status}
use ulov_backend.Services.Transition.{check, record_audit}

-- `Depends(require_role(Role.ADMIN))`
abbrev pub guard : CurrentUser → Exec Db CurrentUser
guard u d = (require_role (admin ∷ []) u, d)

pub record PlatformKpis : Type 0 where
  pub users : ℕ
  pub by_role : List (Role × ℕ)
  pub centres : ℕ
  pub cars : ℕ
  pub services : ℕ
  pub active_services : ℕ

abbrev pub is_live : Service → Bool
is_live s = not (is_some s.deleted_at)

unfoldable pub overview : CurrentUser → Exec Db PlatformKpis
unfolding require_role
overview u = do
  _ ← guard u
  gets (λ d. record {
    users = length d.users;
    by_role = map (λ g. (g.0, length g.1)) (group_by same_role (λ x. x.role) d.users);
    centres = length d.centers;
    cars = length d.cars;
    services = length (select_rows is_live d.services);
    active_services = length (
        select_rows (λ s. is_live s && mem_status s.status (waiting ∷ in_progress ∷ paused ∷ []))
          d.services);
  })

abbrev pub set_user : ℕ → (User → User) → Db → Db
set_user user_id f d = record d { users = update_rows (λ x. x.id == user_id) f d.users }

-- The body's role: `none` where it is missing or no role.
unfoldable pub change_role : CurrentUser → ℕ → Option Role → Exec Db Role
unfolding require_role record_audit
change_role u user_id body = do
  actor ← guard u
  new_role ← or_raise body admin_role_invalid
  found ← gets (λ d. find_row (λ x. x.id == user_id) d.users)
  row ← or_raise found user_not_found
  modify (set_user user_id (λ x. record x { role = new_role }))
  record_audit actor row.id (of_role row.role) (of_role new_role) none
  pure new_role

-- `body.get("is_active", True)`
unfoldable pub set_active : CurrentUser → ℕ → Option Bool → Exec Db Bool
unfolding require_role record_audit
set_active u user_id body = do
  actor ← guard u
  let is_active = or_else body true
  found ← gets (λ d. find_row (λ x. x.id == user_id) d.users)
  row ← or_raise found user_not_found
  modify (set_user user_id (λ x. record x { is_active = is_active }))
  record_audit actor row.id (of_active row.is_active) (of_active is_active) none
  pure is_active
