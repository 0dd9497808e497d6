-- ===== src/Mechanics/Service.antt =====
-- app/modules/mechanics/service.py and router.py: the roster of a centre. `salt` is what Argon2
-- draws.
use ulov_backend.Prelude.{ℕ, ◌||◌, not, Option, none, some, List}
use ulov_backend.Prelude.Tests.{◌==◌, is_some, if◌then◌else◌}
use ulov_backend.Prelude.Text.{Text, truthy?, text_or_empty}
use ulov_backend.Errors.{
  center_not_owner, mechanic_not_found, mechanic_login_duplicate, assertion_error,
}
use ulov_backend.Exec.{Exec, pure, or_raise, raise_if, ◌>>=◌, ◌>>◌}
use ulov_backend.Rbac.{CurrentUser, admin, has_role}
use ulov_backend.Db.{Db}
use ulov_backend.Db.Rows.{Mechanic}
use ulov_backend.Security.{Hasher}
use ulov_backend.Centers.{get_or_404, assert_ops_access}
use ulov_backend.Mechanics as repo

pub record MechanicCreateIn : Type 0 where
  pub full_name : Text
  pub login : Text
  pub password : Text
  pub service_types : List Text

-- The body of a patch; `none` where a field is missing.
pub record MechanicPatchIn : Type 0 where
  pub full_name : Option Text
  pub password : Option Text
  pub service_types : Option (List Text)

-- `_assert_center_admin`
unfoldable pub assert_center_admin : ℕ → CurrentUser → Exec Db (Unit {0})
unfolding get_or_404
assert_center_admin center_id u = do
  c ← get_or_404 center_id
  raise_if (not (has_role u admin || (c.owner_user_id == u.id))) center_not_owner

-- `_get_owned`
unfoldable pub get_owned : ℕ → CurrentUser → Exec Db Mechanic
unfolding repo.get_by_id
get_owned mechanic_id u = do
  found ← repo.get_by_id mechanic_id
  m ← or_raise found mechanic_not_found
  assert_center_admin m.center_id u
  pure m

unfoldable pub list_for_center : ℕ → CurrentUser → Exec Db (List Mechanic)
unfolding assert_ops_access repo.list_by_center
list_for_center center_id u = do _ ← assert_ops_access center_id u; repo.list_by_center center_id

module _ (hasher : Hasher) where
  unfoldable pub create : ℕ → ℕ → CurrentUser → MechanicCreateIn → Exec Db Mechanic
  unfolding repo.get_by_login repo.create
  create salt center_id u body = do
    assert_center_admin center_id u
    found ← repo.get_by_login body.login
    raise_if (is_some found) mechanic_login_duplicate
    repo.create (record {
      center_id = center_id;
      full_name = body.full_name;
      login = body.login;
      password_hash = hasher.hash salt body.password;
      service_types = body.service_types;
    })

  -- The columns that a patch sets.
  abbrev pub fields_of : ℕ → MechanicPatchIn → repo.Fields
  fields_of salt body = record {
    full_name = body.full_name;
    service_types = body.service_types;
    password_hash =
        if truthy? body.password
        then some (hasher.hash salt (text_or_empty body.password))
        else none;
  }

  unfoldable pub patch : ℕ → ℕ → CurrentUser → MechanicPatchIn → Exec Db Mechanic
  unfolding repo.update_fields
  patch salt mechanic_id u body = do
    _ ← get_owned mechanic_id u
    updated ← repo.update_fields mechanic_id (fields_of salt body)
    or_raise updated assertion_error

unfoldable pub delete : ℕ → ℕ → CurrentUser → Exec Db (Unit {0})
unfolding repo.soft_delete
delete now mechanic_id u = do _ ← get_owned mechanic_id u; repo.soft_delete now mechanic_id
