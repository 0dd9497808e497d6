-- ===== src/Auth/Routes.antt =====
-- app/modules/auth/router.py: each endpoint on Redis and the database. The answer is the pair of
-- tokens and their user; cookies, the SMS and the echo of a code are left out. `now` is the time in
-- microseconds. A request that fails is rolled back in the database, and not in Redis.
pub mod Issued
pub mod Once
pub mod Disabled
pub mod Passwords
pub mod Owners
use ulov_backend.Prelude.{ℕ, Bool, not, Option, none, some, List, [], ◌∷◌}
use ulov_backend.Prelude.Tests.{is_some, if◌then◌else◌}
use ulov_backend.Prelude.Text.{Text, truthy?, text_or_empty}
use ulov_backend.Config.{Settings}
use ulov_backend.Errors.{auth_user_not_found, auth_refresh_missing, auth_otp_invalid}
use ulov_backend.Exec.{Exec, Result, ok, err, pure, or_raise, raise_if, ◌>>=◌, ◌>>◌}
use ulov_backend.Rbac.{Role, mechanic}
use ulov_backend.Db.{Db}
use ulov_backend.Db.Rows.{User, Mechanic}
use ulov_backend.Redis.{Redis}
use ulov_backend.Security.{Hasher, Jwt, seconds}
use ulov_backend.Auth.Otp.{request_otp, verify_otp}
use ulov_backend.Auth.Repository as repo
use ulov_backend.Auth.Service as svc
use ulov_backend.Auth.Service.{Pair, Holder, holder_of, issue_tokens, rotate_refresh}

-- The client of a request: its user agent and its address.
pub record Client : Type 0 where
  pub user_agent : Option Text
  pub ip : Option Text

pub record RegisterIn : Type 0 where
  pub phone : Text
  pub password : Text
  pub full_name : Option Text
  pub email : Option Text
  pub city : Option Text

-- What a client may send, with what is drawn for it.
pub data Route : Type 0 where
  ask_otp : ℕ → Text → ℕ → Route
  enter_otp : ℕ → Text → Text → Text → Client → Route
  sign_up : ℕ → ℕ → Text → RegisterIn → Client → Route
  sign_up_center : ℕ → ℕ → Text → svc.RegisterCenterIn → Client → Route
  enter : ℕ → Text → Text → Text → Client → Route
  enter_mechanic : ℕ → Text → Text → Text → Client → Route
  renew : ℕ → Option Text → Text → Client → Route
  leave : ℕ → Option Text → Route
  ask_reset : ℕ → Text → ℕ → Route
  reset : ℕ → ℕ → Text → Text → Text → Route

-- Work on one half of the state.
abbrev pub on_redis : {R A : Type 0} → Exec R A → Exec (R × Db) A
on_redis m s = let (a, r) = m s.0 in (a, (r, s.1))

abbrev pub on_db : {R A : Type 0} → Exec Db A → Exec (R × Db) A
on_db m s = let (a, d) = m s.1 in (a, (s.0, d))

-- The session of a request on both.
unfoldable pub finish : {R A : Type 0} → Exec (R × Db) A → R × Db → R × Db
finish m s = let (a, s') = m s in elim a [ ok _ ↦ s' | err _ ↦ (s'.0, s.1) ]

module _ (cfg : Settings) (jwt : Jwt) (sha256 : Text → Text) (hasher : Hasher) where
  unfoldable pub register_user : ℕ → ℕ → Text → RegisterIn → Client → Exec Db (Pair × User)
  unfolding svc.register
  register_user now salt raw body client = do
    user ← svc.register hasher salt body.phone body.password body.full_name body.email body.city
    pair ← issue_tokens cfg jwt sha256 now raw (holder_of user client.user_agent client.ip)
    pure (pair, user)

  unfoldable pub register_center :
      ℕ → ℕ → Text → svc.RegisterCenterIn → Client → Exec Db (Pair × User)
  unfolding svc.register_center
  register_center now salt raw body client = do
    made ← svc.register_center hasher salt body
    pair ← issue_tokens cfg jwt sha256 now raw (holder_of made.0 client.user_agent client.ip)
    pure (pair, made.0)

  unfoldable pub login : ℕ → Text → Text → Text → Client → Exec Db (Pair × User)
  unfolding svc.authenticate
  login now raw phone password client = do
    user ← svc.authenticate hasher phone password
    pair ← issue_tokens cfg jwt sha256 now raw (holder_of user client.user_agent client.ip)
    pure (pair, user)

  unfoldable pub mechanic_login : ℕ → Text → Text → Text → Client → Exec Db (Pair × Mechanic)
  unfolding svc.authenticate_mechanic
  mechanic_login now raw login password client = do
    m ← svc.authenticate_mechanic hasher login password
    pair ← issue_tokens cfg jwt sha256 now raw (record {
      sub = m.id;
      role = some mechanic;
      center_id = some m.center_id;
      user_agent = client.user_agent;
      ip = client.ip;
    })
    pure (pair, m)

  unfoldable pub refresh_tokens : ℕ → Option Text → Text → Client → Exec Db (Pair × User)
  refresh_tokens now cookie raw client = do
    raise_if (not (truthy? cookie)) auth_refresh_missing
    rotate_refresh cfg jwt sha256 now (text_or_empty cookie) raw client.user_agent client.ip

  module _ {R : Type 0} (redis : Redis R) where
    unfoldable pub otp_verify : ℕ → Text → Text → Text → Client → Exec (R × Db) (Pair × User)
    unfolding repo.get_user_by_phone
    otp_verify now raw phone code client = do
      on_redis (verify_otp redis cfg (seconds now) phone code)
      found ← on_db (repo.get_user_by_phone phone)
      user ← or_raise found auth_user_not_found
      pair ←
          on_db (issue_tokens cfg jwt sha256 now raw (holder_of user client.user_agent client.ip))
      pure (pair, user)

    -- `none` where no code was drawn, for a phone that no user has.
    unfoldable pub password_reset_request : ℕ → Text → ℕ → Exec (R × Db) (Option (Text × ℕ))
    unfolding repo.get_user_by_phone
    password_reset_request now phone drawn = do
      found ← on_db (repo.get_user_by_phone phone)
      elim found [
        | none ↦ pure none
        | some _ ↦ do
          sent ← on_redis (request_otp redis cfg (seconds now) phone drawn)
          pure (some sent)
      ]

    unfoldable pub password_reset_confirm : ℕ → ℕ → Text → Text → Text → Exec (R × Db) (Unit {0})
    unfolding repo.get_user_by_phone
    password_reset_confirm now salt phone code new_password = do
      found ← on_db (repo.get_user_by_phone phone)
      user ← or_raise found auth_otp_invalid
      on_redis (verify_otp redis cfg (seconds now) phone code)
      on_db (svc.reset_password hasher salt now user new_password)

    unfoldable pub run : Route → R × Db → R × Db
    run (ask_otp now phone drawn) =
        finish (on_redis (request_otp redis cfg (seconds now) phone drawn))
    run (enter_otp now raw phone code client) = finish (otp_verify now raw phone code client)
    run (sign_up now salt raw body client) = finish (on_db (register_user now salt raw body client))
    run (sign_up_center now salt raw body client) =
        finish (on_db (register_center now salt raw body client))
    run (enter now raw phone password client) = finish (on_db (login now raw phone password client))
    run (enter_mechanic now raw name password client) =
        finish (on_db (mechanic_login now raw name password client))
    run (renew now cookie raw client) = finish (on_db (refresh_tokens now cookie raw client))
    run (leave now cookie) = finish (on_db (svc.logout cfg jwt sha256 now cookie))
    run (ask_reset now phone drawn) = finish (password_reset_request now phone drawn)
    run (reset now salt phone code new_password) =
        finish (password_reset_confirm now salt phone code new_password)

    unfoldable pub run_all : List Route → R × Db → R × Db
    run_all [] s = s
    run_all (a ∷ rest) s = run_all rest (run a s)
