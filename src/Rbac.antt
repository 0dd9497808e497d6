-- ===== src/Rbac.antt =====
-- app/core/rbac.py and the authenticated user of app/deps.py. A role text that no `Role` has is
-- `none`, so a user carries an `Option Role`.
use ulov_backend.Prelude.{ℕ, Bool, true, false, Option, none, some, List, [], ◌∷◌, ◌||◌}
use ulov_backend.Prelude.Tests.{if◌then◌else◌}
use ulov_backend.Errors.{
  auth_forbidden, auth_not_customer, auth_not_owner, auth_not_staff, value_error,
}
use ulov_backend.Exec.{Result, ok, err}

pub data Role : Type 0 where
  customer mechanic owner admin : Role

-- `CurrentUser`; `id` is the claim `sub`, `center_id` the optional claim.
pub record CurrentUser : Type 0 where
  pub id : ℕ
  pub role : Option Role
  pub center_id : Option ℕ

abbrev pub same_role : Role → Role → Bool
same_role customer customer = true
same_role mechanic mechanic = true
same_role owner owner = true
same_role admin admin = true
same_role _ _ = false

-- `user.role == r`
abbrev pub has_role : CurrentUser → Role → Bool
has_role u r = elim (u.role) [ none ↦ false | some s ↦ same_role s r ]

abbrev pub is_customer : CurrentUser → Bool
is_customer u = has_role u customer

abbrev pub is_staff : CurrentUser → Bool
is_staff u = has_role u mechanic || has_role u owner || has_role u admin

abbrev pub is_owner : CurrentUser → Bool
is_owner u = has_role u owner || has_role u admin

abbrev pub mem_role : Role → List Role → Bool
mem_role r [] = false
mem_role r (s ∷ rs) = same_role r s || mem_role r rs

abbrev pub staff_roles : List Role
staff_roles = mechanic ∷ owner ∷ admin ∷ []

abbrev pub any_role : List Role
any_role = customer ∷ mechanic ∷ owner ∷ admin ∷ []

-- `frozenset(roles) or ANY_ROLE`
allowed_of : List Role → List Role
allowed_of [] = any_role
allowed_of (r ∷ rs) = r ∷ rs

-- `Role(user.role)` raises `ValueError` where the text is no role.
unfoldable pub require_role : List Role → CurrentUser → Result CurrentUser
unfolding allowed_of
require_role roles u = elim (u.role) [
  | none ↦ err value_error
  | some r ↦ if mem_role r (allowed_of roles) then ok u else err auth_forbidden
]

unfoldable pub allow_roles : List Role → Option Role → Bool
allow_roles roles none = false
allow_roles roles (some r) = mem_role r roles

-- `user_role` may be missing, or be a text that is no role.
unfoldable pub has_any_role : Option (Option Role) → List Role → Bool
unfolding allow_roles
has_any_role none roles = false
has_any_role (some r) roles = allow_roles roles r

unfoldable pub get_current_customer : CurrentUser → Result CurrentUser
get_current_customer u = if is_customer u then ok u else err auth_not_customer

unfoldable pub get_current_staff : CurrentUser → Result CurrentUser
get_current_staff u = if is_staff u then ok u else err auth_not_staff

unfoldable pub get_current_owner : CurrentUser → Result CurrentUser
get_current_owner u = if is_owner u then ok u else err auth_not_owner
