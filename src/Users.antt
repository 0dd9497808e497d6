-- ===== src/Users.antt =====
-- app/modules/users/repository.py, service.py and router.py: the caller's own profile.
pub mod Profile
use ulov_backend.Prelude.{ℕ, Bool, true, not, Option, none, some}
use ulov_backend.Prelude.Tests.{◌==◌, is_some, if◌then◌else◌}
use ulov_backend.Prelude.Text.{Text, fits?}
use ulov_backend.Prelude.Lists.{find_row, update_rows}
use ulov_backend.Errors.{user_not_found, mechanic_not_found, database_error}
use ulov_backend.Exec.{Exec, pure, gets, modify, or_raise, ◌>>=◌, ◌>>◌, raise_if}
use ulov_backend.Rbac.{Role, CurrentUser, mechanic, has_role}
use ulov_backend.Db.{Db}
use ulov_backend.Db.Rows.{User, Mechanic}

-- `repo.get_by_id`
unfoldable pub get_by_id : ℕ → Exec Db (Option User)
get_by_id user_id = gets (λ d. find_row (λ u. u.id == user_id) d.users)

-- The keywords of `repo.update_fields`; `None` leaves a column alone.
pub record Fields : Type 0 where
  pub full_name : Option Text
  pub email : Option Text
  pub city : Option Text
  pub avatar_url : Option Text

abbrev pub or_keep : Option Text → Option Text → Option Text
or_keep none old = old
or_keep (some new) old = some new

abbrev pub with_fields : Fields → User → User
with_fields f u = record u {
  full_name = or_keep f.full_name u.full_name;
  email = or_keep f.email u.email;
  city = or_keep f.city u.city;
  avatar_url = or_keep f.avatar_url u.avatar_url;
}

-- `repo.update_fields`; a URL that is too long for its column is refused, and the forms keep the
-- other texts within theirs. Without values the code skips the update, which would change nothing.
unfoldable pub update_fields : ℕ → Fields → Exec Db (Option User)
unfolding get_by_id
update_fields user_id f = do
  raise_if (not (fits? 500 f.avatar_url)) database_error
  modify (λ d. record d { users = update_rows (λ u. u.id == user_id) (with_fields f) d.users })
  get_by_id user_id

-- `svc.get_me`
unfoldable pub get_user : ℕ → Exec Db User
unfolding get_by_id
get_user user_id = do found ← get_by_id user_id; or_raise found user_not_found

-- `svc.patch_me`
unfoldable pub patch_me : ℕ → Option Text → Option Text → Option Text → Exec Db User
unfolding update_fields
patch_me user_id full_name email city = do
  updated ←
      update_fields user_id
        (record { full_name = full_name; email = email; city = city; avatar_url = none })
  or_raise updated user_not_found

abbrev pub with_avatar : Option Text → User → User
with_avatar url u = record u { avatar_url = url }

-- `svc.set_avatar`: `None` clears the column.
unfoldable pub set_avatar : ℕ → Option Text → Exec Db User
unfolding get_user get_by_id
set_avatar user_id avatar_url = do
  u ← get_user user_id
  modify (λ d. record d {
    users = update_rows (λ x. x.id == user_id) (with_avatar avatar_url) d.users;
  })
  pure (with_avatar avatar_url u)

-- `MeOut`, without the times; the role of a mechanic is the word "mechanic".
pub record MeOut : Type 0 where
  pub id : ℕ
  pub phone : Text
  pub full_name : Option Text
  pub email : Option Text
  pub city : Option Text
  pub avatar_url : Option Text
  pub role : Role
  pub center_id : Option ℕ
  pub is_active : Bool

-- `MeOut.from_orm`
abbrev pub me_of_user : User → MeOut
me_of_user u = record {
  id = u.id;
  phone = u.phone;
  full_name = u.full_name;
  email = u.email;
  city = u.city;
  avatar_url = u.avatar_url;
  role = u.role;
  center_id = u.center_id;
  is_active = u.is_active;
}

abbrev pub me_of_mechanic : Mechanic → MeOut
me_of_mechanic m = record {
  id = m.id;
  phone = m.login;
  full_name = some m.full_name;
  email = none;
  city = none;
  avatar_url = none;
  role = mechanic;
  center_id = some m.center_id;
  is_active = not (is_some m.deleted_at);
}

-- `router.get_me`
unfoldable pub get_me : CurrentUser → Exec Db MeOut
unfolding get_user
get_me u =
    if has_role u mechanic
    then (do
      found ← gets (λ d. find_row (λ m. m.id == u.id) d.mechanics)
      m ← or_raise found mechanic_not_found
      pure (me_of_mechanic m))
    else (do row ← get_user u.id; pure (me_of_user row))
