-- ===== src/Mechanics.antt =====
-- app/modules/mechanics/repository.py. `login` is a unique column, which the deleted rows take part
-- in, and a mechanic's centre must be a row of `service_centers`.
pub mod Service
pub mod Logins
use ulov_backend.Prelude.{ℕ, Bool, ◌&&◌, ◌||◌, not, Option, none, some, List, [], ◌∷◌, ◌++◌}
use ulov_backend.Prelude.Tests.{◌==◌, is_some, or_else}
use ulov_backend.Prelude.Text.{Text, text_eq, all_fit}
use ulov_backend.Prelude.Lists.{find_row, select_rows, update_rows}
use ulov_backend.Errors.{database_error}
use ulov_backend.Exec.{Exec, pure, gets, modify, raise_if, ◌>>=◌, ◌>>◌}
use ulov_backend.Db.{Db, fresh_id}
use ulov_backend.Db.Rows.{Mechanic}

-- The keywords of `create`.
pub record NewMechanic : Type 0 where
  pub center_id : ℕ
  pub full_name : Text
  pub login : Text
  pub password_hash : Text
  pub service_types : List Text

abbrev pub new_mechanic : NewMechanic → ℕ → ℕ → Mechanic
new_mechanic f i at = record {
  id = i;
  center_id = f.center_id;
  full_name = f.full_name;
  login = f.login;
  password_hash = f.password_hash;
  service_types = f.service_types;
  deleted_at = none;
  created_at = at;
}

abbrev pub has_login : Text → Mechanic → Bool
has_login login m = text_eq m.login login

-- The row breaks a constraint.
abbrev pub refused : NewMechanic → Db → Bool
refused f d =
    is_some (find_row (has_login f.login) d.mechanics)
    || not (is_some (find_row (λ c. c.id == f.center_id) d.centers))
    || not (all_fit 64 f.service_types)

unfoldable pub create : NewMechanic → Exec Db Mechanic
create f = do
  i ← fresh_id
  at ← gets (λ d. d.tx_now)
  bad ← gets (refused f)
  raise_if bad database_error
  modify (λ d. record d { mechanics = d.mechanics ++ new_mechanic f i at ∷ [] })
  pure (new_mechanic f i at)

-- `get_by_id` without the deleted rows.
unfoldable pub get_by_id : ℕ → Exec Db (Option Mechanic)
get_by_id mechanic_id =
    gets (λ d. find_row (λ m. (m.id == mechanic_id) && not (is_some m.deleted_at)) d.mechanics)

unfoldable pub get_by_login : Text → Exec Db (Option Mechanic)
get_by_login login =
    gets (λ d. find_row (λ m. has_login login m && not (is_some m.deleted_at)) d.mechanics)

-- Without the deleted rows; the table is in the order of `created_at`.
unfoldable pub list_by_center : ℕ → Exec Db (List Mechanic)
list_by_center center_id =
    gets
      (λ d. select_rows (λ m. (m.center_id == center_id) && not (is_some m.deleted_at)) d.mechanics)

-- The keywords of `update_fields`; `none` where the value is `None`.
pub record Fields : Type 0 where
  pub full_name : Option Text
  pub service_types : Option (List Text)
  pub password_hash : Option Text

abbrev pub with_fields : Fields → Mechanic → Mechanic
with_fields f m = record m {
  full_name = or_else f.full_name m.full_name;
  service_types = or_else f.service_types m.service_types;
  password_hash = or_else f.password_hash m.password_hash;
}

unfoldable pub update_fields : ℕ → Fields → Exec Db (Option Mechanic)
update_fields mechanic_id f = do
  raise_if (not (all_fit 64 (or_else f.service_types []))) database_error
  modify (λ d. record d {
    mechanics = update_rows (λ m. m.id == mechanic_id) (with_fields f) d.mechanics;
  })
  gets (λ d. find_row (λ m. m.id == mechanic_id) d.mechanics)

unfoldable pub soft_delete : ℕ → ℕ → Exec Db (Unit {0})
soft_delete now mechanic_id = modify λ d. record d {
  mechanics =
      update_rows (λ m. (m.id == mechanic_id) && not (is_some m.deleted_at))
        (λ m. record m { deleted_at = some now }) d.mechanics;
}
