-- ===== src/Centers/Profile.antt =====
-- app/modules/service_centers/repository.py and service.py: creating, changing, listing and deleting
-- a centre. The search by distance is left out.
use ulov_backend.Prelude.{ℕ, ◌&&◌, not, Option, none, some, List, [], ◌∷◌, ◌++◌}
use mathlib.Core.List.{reverse}
use ulov_backend.Prelude.Tests.{◌==◌, is_some, or_else, if◌then◌else◌}
use ulov_backend.Prelude.Text.{Text}
use ulov_backend.Prelude.Lists.{find_row, select_rows, update_rows, delete_rows}
use ulov_backend.Prelude.Pages.{take}
use ulov_backend.Errors.{center_not_owner, center_requires_owner, assertion_error, database_error}
use ulov_backend.Exec.{Exec, pure, gets, modify, or_raise, raise_if, ◌>>=◌, ◌>>◌}
use ulov_backend.Rbac.{CurrentUser, admin, has_role, is_owner}
use ulov_backend.Db.{Db, fresh_id}
use ulov_backend.Db.Rows.{ServiceCenter}
use ulov_backend.Centers.{get_by_id, get_or_404}

-- The keywords of `repo.create`, with the defaults of the columns filled in.
pub record NewCenter : Type 0 where
  pub owner_user_id : ℕ
  pub name : Text
  pub phone : Text
  pub address : Text
  pub description : Option Text
  pub location : Option Text
  pub schedule : Text
  pub services : List Text
  pub avatar_url : Option Text

abbrev pub new_center : NewCenter → ℕ → ServiceCenter
new_center f i = record {
  id = i;
  owner_user_id = f.owner_user_id;
  name = f.name;
  phone = f.phone;
  address = f.address;
  description = f.description;
  location = f.location;
  schedule = f.schedule;
  services = f.services;
  avatar_url = f.avatar_url;
  subscription_plan_id = none;
  subscription_until = none;
}

-- `repo.create`; the owner must be a row of `users`.
unfoldable pub insert : NewCenter → Exec Db ServiceCenter
insert f = do
  i ← fresh_id
  known ← gets (λ d. is_some (find_row (λ u. u.id == f.owner_user_id) d.users))
  raise_if (not known) database_error
  modify (λ d. record d { centers = d.centers ++ new_center f i ∷ [] })
  pure (new_center f i)

-- `repo.update_fields`: a column keeps its value where the keyword is `None`, but for `location`,
-- which is set wherever it is passed.
pub record Fields : Type 0 where
  pub name : Option Text
  pub phone : Option Text
  pub address : Option Text
  pub description : Option Text
  pub avatar_url : Option Text
  pub schedule : Option Text
  pub services : Option (List Text)
  pub location : Option (Option Text)

abbrev pub with_fields : Fields → ServiceCenter → ServiceCenter
with_fields f c = record c {
  name = or_else f.name c.name;
  phone = or_else f.phone c.phone;
  address = or_else f.address c.address;
  description = elim (f.description) [ none ↦ c.description | some x ↦ some x ];
  avatar_url = elim (f.avatar_url) [ none ↦ c.avatar_url | some x ↦ some x ];
  schedule = or_else f.schedule c.schedule;
  services = or_else f.services c.services;
  location = or_else f.location c.location;
}

unfoldable pub update_fields : ℕ → Fields → Exec Db (Option ServiceCenter)
unfolding get_by_id
update_fields center_id f = do
  modify
      (λ d. record d { centers = update_rows (λ c. c.id == center_id) (with_fields f) d.centers })
  get_by_id center_id

-- `repo.remove`: the centre's mechanics go with it, and a service of it keeps it there.
unfoldable pub remove : ℕ → Exec Db (Unit {0})
remove center_id = do
  kept ← gets (λ d.
      is_some (find_row (λ s. s.center_id == center_id) d.services)
      && is_some (find_row (λ c. c.id == center_id) d.centers))
  raise_if kept database_error
  modify (λ d. record d {
    centers = delete_rows (λ c. c.id == center_id) d.centers;
    mechanics =
        if is_some (find_row (λ c. c.id == center_id) d.centers)
        then delete_rows (λ m. m.center_id == center_id) d.mechanics
        else d.mechanics;
  })

-- `_assert_can_mutate`
unfoldable pub assert_can_mutate : ServiceCenter → CurrentUser → Exec Db (Unit {0})
assert_can_mutate c u =
    if is_owner u && has_role u admin
    then pure tt
    else raise_if (not (c.owner_user_id == u.id)) center_not_owner

-- The body of a creation; `schedule` and `services` are empty where they are missing.
pub record ServiceCenterCreateIn : Type 0 where
  pub name : Text
  pub phone : Text
  pub address : Text
  pub description : Option Text
  pub location : Option Text
  pub schedule : Text
  pub services : List Text
  pub avatar_url : Option Text

unfoldable pub create : CurrentUser → ServiceCenterCreateIn → Exec Db ServiceCenter
unfolding insert
create u body = do
  raise_if (not (is_owner u)) center_requires_owner
  insert (record {
    owner_user_id = u.id;
    name = body.name;
    phone = body.phone;
    address = body.address;
    description = body.description;
    location = body.location;
    schedule = body.schedule;
    services = body.services;
    avatar_url = body.avatar_url;
  })

-- `data` of a patch is the body's fields that were sent; a `None` among them counts only for
-- `location`.
unfoldable pub patch : ℕ → CurrentUser → Fields → Exec Db ServiceCenter
unfolding get_or_404 assert_can_mutate update_fields
patch center_id u sent = do
  c ← get_or_404 center_id
  assert_can_mutate c u
  updated ← update_fields center_id sent
  or_raise updated assertion_error

unfoldable pub delete : ℕ → CurrentUser → Exec Db (Unit {0})
unfolding get_or_404 assert_can_mutate remove
delete center_id u = do c ← get_or_404 center_id; assert_can_mutate c u; remove center_id

-- The centres are in the order of `created_at`.
unfoldable pub list_mine : CurrentUser → Exec Db (List ServiceCenter)
list_mine u =
    if has_role u admin
    then gets (λ d. take 100 (reverse d.centers))
    else gets (λ d. select_rows (λ c. c.owner_user_id == u.id) d.centers)
