-- ===== src/Auth/Service.antt =====
-- app/modules/auth/service.py, without the one-time passwords. `now` is the time of the request,
-- `salt` what Argon2 draws, and `raw` what `generate_refresh_token` draws; `sha256` is the hash of
-- a refresh token.
use ulov_backend.Prelude.{ℕ, ◌+◌, ◌*◌, not, Option, none, some, List}
use mathlib.Core.Option
use ulov_backend.Prelude.Tests.{◌==◌, is_some, if◌then◌else◌}
use ulov_backend.Prelude.Text.{Text, codes, truthy?, text_or_empty}
use ulov_backend.Prelude.Lists.{find_row, update_rows}
use ulov_backend.Config.{Settings}
use ulov_backend.Errors.{
  auth_phone_taken, auth_invalid_credentials, auth_disabled, auth_refresh_invalid,
}
use ulov_backend.Exec.{Exec, pure, gets, modify, or_raise, raise, raise_if, when, ◌>>=◌, ◌>>◌}
use ulov_backend.Rbac.{Role, customer, owner}
use ulov_backend.Db.{Db}
use ulov_backend.Db.Rows.{User, Mechanic, ServiceCenter}
use ulov_backend.Security.{Hasher, Jwt, create_access_token}
use ulov_backend.Mechanics
use ulov_backend.Centers.Profile.{NewCenter, insert}
use ulov_backend.Auth.Repository as repo
use ulov_backend.Auth.Repository.{is_active}

-- The keywords of `register_center`; no services are `[]`.
pub record RegisterCenterIn : Type 0 where
  pub phone : Text
  pub password : Text
  pub full_name : Text
  pub center_name : Text
  pub center_phone : Text
  pub center_address : Text
  pub center_services : List Text

-- What `authenticate` does with the row that it finds.
unfoldable pub check_password : Hasher → Text → Option Text → Exec Db (Unit {0})
check_password hasher password none = raise auth_invalid_credentials
check_password hasher password (some stored) =
    raise_if (not (hasher.verify stored password)) auth_invalid_credentials

module _ (hasher : Hasher) where
  unfoldable pub register : ℕ → Text → Text → Option Text → Option Text → Option Text → Exec Db User
  unfolding repo.get_user_by_phone repo.create_user
  register salt phone password full_name email city = do
    found ← repo.get_user_by_phone phone
    raise_if (is_some found) auth_phone_taken
    repo.create_user (record {
      phone = phone;
      password_hash = hasher.hash salt password;
      full_name = full_name;
      email = email;
      city = city;
      role = customer;
    })

  abbrev pub owner_keywords : ℕ → RegisterCenterIn → repo.NewUser
  owner_keywords salt body = record {
    phone = body.phone;
    password_hash = hasher.hash salt body.password;
    full_name = some body.full_name;
    email = none;
    city = none;
    role = owner;
  }

  abbrev pub center_keywords : ℕ → RegisterCenterIn → NewCenter
  center_keywords owner_user_id body = record {
    owner_user_id = owner_user_id;
    name = body.center_name;
    phone = body.center_phone;
    address = body.center_address;
    description = none;
    location = none;
    schedule = codes "{}";
    services = body.center_services;
    avatar_url = none;
  }

  -- The new user and the new centre; the user's row comes back with its centre.
  unfoldable pub register_center : ℕ → RegisterCenterIn → Exec Db (User × ServiceCenter)
  unfolding repo.get_user_by_phone repo.create_user insert
  register_center salt body = do
    found ← repo.get_user_by_phone body.phone
    raise_if (is_some found) auth_phone_taken
    user ← repo.create_user (owner_keywords salt body)
    center ← insert (center_keywords user.id body)
    modify (λ d. record d {
      users =
          update_rows (λ u. u.id == user.id) (λ u. record u { center_id = some center.id }) d.users;
    })
    pure (record user { center_id = some center.id }, center)

  unfoldable pub authenticate : Text → Text → Exec Db User
  unfolding repo.get_user_by_phone check_password
  authenticate phone password = do
    found ← repo.get_user_by_phone phone
    check_password hasher password (Option.map (λ u. u.password_hash) found)
    user ← or_raise found auth_invalid_credentials
    raise_if (not user.is_active) auth_disabled
    pure user

  unfoldable pub authenticate_mechanic : Text → Text → Exec Db Mechanic
  unfolding Mechanics.get_by_login check_password
  authenticate_mechanic login password = do
    found ← Mechanics.get_by_login login
    check_password hasher password (Option.map (λ m. m.password_hash) found)
    or_raise found auth_invalid_credentials

-- Who gets tokens, and from where.
pub record Holder : Type 0 where
  pub sub : ℕ
  pub role : Option Role
  pub center_id : Option ℕ
  pub user_agent : Option Text
  pub ip : Option Text

-- The pair of tokens and the lifetime of the first.
pub record Pair : Type 0 where
  pub access : Text
  pub refresh : Text
  pub ttl : ℕ

abbrev pub holder_of : User → Option Text → Option Text → Holder
holder_of u user_agent ip = record {
  sub = u.id;
  role = some u.role;
  center_id = u.center_id;
  user_agent = user_agent;
  ip = ip;
}

module _ (cfg : Settings) (jwt : Jwt) (sha256 : Text → Text) where
  -- The row of a new refresh token.
  abbrev pub token_of : ℕ → Text → Holder → repo.NewToken
  token_of now raw h = record {
    user_id = h.sub;
    token_hash = sha256 raw;
    expires_at = now + cfg.jwt_refresh_ttl_seconds * 1000000;
    user_agent = h.user_agent;
    ip = h.ip;
  }

  -- What a holder gets.
  abbrev pub pair_of : ℕ → Text → Holder → Pair
  pair_of now raw h = record {
    access = create_access_token cfg jwt now h.sub h.role h.center_id;
    refresh = raw;
    ttl = cfg.jwt_access_ttl_seconds;
  }

  -- Only a user's refresh token is stored.
  unfoldable pub issue_tokens : ℕ → Text → Holder → Exec Db Pair
  unfolding repo.save_refresh
  issue_tokens now raw h = do
    user_exists ← gets (λ d. is_some (find_row (λ u. u.id == h.sub) d.users))
    when user_exists (do _ ← repo.save_refresh (token_of now raw h); pure tt)
    pure (pair_of now raw h)

  -- `old` comes in, `raw` is drawn.
  unfoldable pub rotate_refresh :
      ℕ → Text → Text → Option Text → Option Text → Exec Db (Pair × User)
  unfolding repo.get_active_refresh repo.get_user_by_id repo.revoke
  rotate_refresh now old raw user_agent ip = do
    found ← repo.get_active_refresh now (sha256 old)
    token ← or_raise found auth_refresh_invalid
    user? ← repo.get_user_by_id token.user_id
    user ← or_raise user? auth_disabled
    raise_if (not user.is_active) auth_disabled
    repo.revoke_refresh now (sha256 old)
    pair ← issue_tokens now raw (holder_of user user_agent ip)
    pure (pair, user)

  unfoldable pub logout : ℕ → Option Text → Exec Db (Unit {0})
  unfolding repo.revoke
  logout now raw =
      if not (truthy? raw) then pure tt else repo.revoke_refresh now (sha256 (text_or_empty raw))

unfoldable pub reset_password : Hasher → ℕ → ℕ → User → Text → Exec Db (Unit {0})
unfolding repo.update_password repo.revoke
reset_password hasher salt now user new_password = do
  repo.update_password user.id (hasher.hash salt new_password)
  repo.revoke_all_user_refresh now user.id
