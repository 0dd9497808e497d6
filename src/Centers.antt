-- ===== src/Centers.antt =====
-- app/modules/service_centers/service.py and repository.py: the lookups and the access rule that
-- the other components call. The rest of both is in Centers/Profile.
pub mod Profile
pub mod Removal
use ulov_backend.Prelude.{ℕ, Bool, ◌&&◌, ◌||◌, Option}
use ulov_backend.Prelude.Tests.{◌==◌, holds_id}
use ulov_backend.Prelude.Lists.{find_row, update_rows}
use ulov_backend.Errors.{center_not_found, center_forbidden}
use ulov_backend.Exec.{Exec, pure, gets, modify, or_raise, raise_if, ◌>>=◌, ◌>>◌}
use ulov_backend.Rbac.{CurrentUser, mechanic, admin, has_role}
use ulov_backend.Db.{Db}
use ulov_backend.Db.Rows.{ServiceCenter}
use mathlib.Core.Bool.{not}

-- `repo.get_by_id`
unfoldable pub get_by_id : ℕ → Exec Db (Option ServiceCenter)
get_by_id center_id = gets (λ d. find_row (λ c. c.id == center_id) d.centers)

unfoldable pub get_or_404 : ℕ → Exec Db ServiceCenter
unfolding get_by_id
get_or_404 center_id = do found ← get_by_id center_id; or_raise found center_not_found

-- `_can_view_center_ops`
unfoldable pub can_view_center_ops : ServiceCenter → CurrentUser → Bool
can_view_center_ops c u =
    has_role u admin
    || (c.owner_user_id == u.id)
    || (has_role u mechanic && holds_id u.center_id c.id)

unfoldable pub assert_ops_access : ℕ → CurrentUser → Exec Db ServiceCenter
unfolding get_or_404 can_view_center_ops
assert_ops_access center_id u = do
  c ← get_or_404 center_id
  raise_if (not (can_view_center_ops c u)) center_forbidden
  pure c

-- `repo.update_fields` with the two subscription columns.
unfoldable pub set_subscription : ℕ → Option ℕ → Option ℕ → Exec Db (Unit {0})
set_subscription center_id plan_id until = modify λ d. record d {
  centers =
      update_rows (λ c. c.id == center_id)
        (λ c. record c { subscription_plan_id = plan_id; subscription_until = until }) d.centers;
}
