-- ===== src/Tests/Routes.antt =====
-- Requests to the endpoints of auth.
use ulov_backend.Prelude.{ℕ, ◌≡◌, refl, ◌&&◌, false, none, some, [], ◌∷◌}
use ulov_backend.Prelude.Tests.{◌==◌}
use ulov_backend.Prelude.Text.{Text, text_eq, codes}
use ulov_backend.Prelude.Lists.{find_row, update_rows}
use ulov_backend.Errors.{auth_refresh_invalid}
use ulov_backend.Exec.{ok, err}
use ulov_backend.Rbac.{customer, owner}
use ulov_backend.Db.{Db}
use ulov_backend.Db.Rows.{User, ServiceCenter, RefreshToken}
use ulov_backend.Mechanics.Service.{assert_center_admin}
use ulov_backend.Auth.Otp.{six_digits}
use ulov_backend.Auth.Repository as repo
use ulov_backend.Auth.Repository.{is_active}
use ulov_backend.Auth.Service as svc
use ulov_backend.Auth.Service.{
  RegisterCenterIn, pair_of, holder_of, issue_tokens, rotate_refresh, authenticate, register_center,
}
use ulov_backend.Auth.Routes.{Client, renew, leave, run_all, refresh_tokens, password_reset_confirm}
use ulov_backend.Auth.Routes.Once.{refresh_tokens_once}
use ulov_backend.Auth.Routes.Passwords.{password_reset_confirm_outcome}
use ulov_backend.Auth.Routes.Owners.{register_center_outcome}
use ulov_backend.Centers.Profile.{insert, new_center}
use ulov_backend.Tests.Data.{account, shop}
use ulov_backend.Tests.Redis.{store, empty}
use ulov_backend.Tests.Auth.{cfg, hasher, hasher_laws, jwt, phone, sent, sent_accepted}

abbrev sha256 : Text → Text
sha256 s = s

abbrev client : Client
client = record { user_agent = none; ip = none }

abbrev token : RefreshToken
token = record {
  id = 60;
  user_id = 3;
  token_hash = codes "r1";
  user_agent = none;
  ip = none;
  expires_at = 9000000;
  revoked_at = none;
  created_at = 1;
}

abbrev home : Db
home = record (shop [] [] []) { refresh_tokens = token ∷ [] }

renewed :
    (refresh_tokens cfg jwt sha256 hasher 5000000 (some (codes "r1")) (codes "r2") client home).0
    ≡ ok (
      pair_of cfg jwt sha256 5000000 (codes "r2") (holder_of (account 3 customer) none none),
      account 3 customer,
    )
unfolding refresh_tokens rotate_refresh repo.get_active_refresh repo.get_user_by_id repo.revoke
    issue_tokens repo.save_refresh find_row update_rows text_eq
renewed = refl

refresh_tokens_once_example :
    (refresh_tokens cfg jwt sha256 hasher 7000000
      (some (codes "r1"))
      (codes "r3")
      client
      (run_all cfg jwt sha256 hasher store
        (renew 5000000 (some (codes "r1")) (codes "r2") client
          ∷ (leave 6000000 (some (codes "r2")) ∷ []))
        (empty, home)).1).0
    ≡ err auth_refresh_invalid
refresh_tokens_once_example =
    refresh_tokens_once cfg jwt sha256 hasher store 5000000 (codes "r1") (codes "r2") client
      (empty, home)
      (
        pair_of cfg jwt sha256 5000000 (codes "r2") (holder_of (account 3 customer) none none),
        account 3 customer,
      )
      renewed (leave 6000000 (some (codes "r2")) ∷ []) 7000000 (codes "r3") client

-- The user of a phone, with a password.
abbrev user : User
user = record (account 3 customer) { phone = phone; password_hash = 9 ∷ codes "secret" }

abbrev off : User
off = record user { is_active = false }

abbrev with_user : User → Db
with_user u = record (shop [] [] []) { users = u ∷ [] }

user_found : find_row (λ u. text_eq u.phone phone) (with_user user).users ≡ some user
unfolding find_row text_eq
user_found = refl

password_reset_confirm_outcome_example :
    let (r, s') =
      password_reset_confirm cfg jwt sha256 hasher store 5000000 4 phone
        (six_digits 7)
        (codes "fresh")
        (sent, with_user user) in
    (r ≡ ok tt)
    × ((authenticate hasher phone (codes "fresh") s'.1).0
        ≡ ok (record user { password_hash = 4 ∷ codes "fresh" }))
    × ((later : ℕ)
        → find_row (λ t. (t.user_id == 3) && is_active later t) s'.1.refresh_tokens ≡ none)
password_reset_confirm_outcome_example =
    password_reset_confirm_outcome hasher hasher_laws cfg jwt sha256 store 5000000 4 phone
      (six_digits 7) (codes "fresh") (sent, with_user user) user user_found refl sent_accepted

abbrev opening : RegisterCenterIn
opening = record {
  phone = codes "+998970000000";
  password = codes "secret";
  full_name = codes "Owner";
  center_name = codes "Moy";
  center_phone = codes "+998970000001";
  center_address = codes "Tashkent";
  center_services = [];
}

abbrev opened_user : User
opened_user = record (repo.new_user (svc.owner_keywords hasher 4 opening) 100) {
  center_id = some 101;
}

abbrev opened_center : ServiceCenter
opened_center = new_center (svc.center_keywords hasher 100 opening) 101

opened : (register_center hasher 4 opening (shop [] [] [])).0 ≡ ok (opened_user, opened_center)
unfolding register_center repo.get_user_by_phone repo.create_user insert find_row text_eq
opened = refl

no_center : find_row (λ c. c.id == 101) (shop [] [] []).centers ≡ none
unfolding find_row
no_center = refl

register_center_outcome_example :
    let d' = (register_center hasher 4 opening (shop [] [] [])).1 in
    (opened_user.role ≡ owner)
    × (opened_user.center_id ≡ some opened_center.id)
    × ((authenticate hasher opening.phone opening.password d').0 ≡ ok opened_user)
    × ((assert_center_admin opened_center.id
          (record {
            id = opened_user.id;
            role = some opened_user.role;
            center_id = opened_user.center_id;
          })
          d').0
        ≡ ok tt)
register_center_outcome_example =
    register_center_outcome hasher 4 opening (shop [] [] []) opened_user opened_center hasher_laws
      no_center opened

abbrev newcomer : User
newcomer =
    repo.new_user
      (record {
        phone = codes "+998970000000";
        password_hash = 4 ∷ codes "secret";
        full_name = none;
        email = none;
        city = none;
        role = customer;
      })
      100

joined :
    (svc.register hasher 4
      (codes "+998970000000")
      (codes "secret")
      none
      none
      none
      (shop [] [] [])).0
    ≡ ok newcomer
unfolding svc.register repo.get_user_by_phone repo.create_user find_row text_eq
joined = refl
