-- ===== src/Auth/Repository.antt =====
-- app/modules/auth/repository.py. `phone` and `token_hash` are unique columns, and a token's user
-- must be a row of `users`. `now` is the time of the request, in microseconds.
use ulov_backend.Prelude.{ℕ, Bool, true, not, ◌&&◌, ◌||◌, Option, none, some, [], ◌∷◌, ◌++◌}
use ulov_backend.Prelude.Tests.{ltb, ◌==◌, is_some}
use ulov_backend.Prelude.Text.{Text, text_eq, fits?}
use ulov_backend.Prelude.Lists.{find_row, update_rows}
use ulov_backend.Errors.{database_error}
use ulov_backend.Exec.{Exec, pure, gets, modify, raise_if, ◌>>=◌, ◌>>◌}
use ulov_backend.Rbac.{Role}
use ulov_backend.Db.{Db, fresh_id}
use ulov_backend.Db.Rows.{User, RefreshToken}

unfoldable pub get_user_by_phone : Text → Exec Db (Option User)
get_user_by_phone phone = gets (λ d. find_row (λ u. text_eq u.phone phone) d.users)

unfoldable pub get_user_by_id : ℕ → Exec Db (Option User)
get_user_by_id user_id = gets (λ d. find_row (λ u. u.id == user_id) d.users)

-- The keywords of `create_user`.
pub record NewUser : Type 0 where
  pub phone : Text
  pub password_hash : Text
  pub full_name : Option Text
  pub email : Option Text
  pub city : Option Text
  pub role : Role

abbrev pub new_user : NewUser → ℕ → User
new_user f i = record {
  id = i;
  phone = f.phone;
  password_hash = f.password_hash;
  full_name = f.full_name;
  email = f.email;
  city = f.city;
  avatar_url = none;
  role = f.role;
  center_id = none;
  is_active = true;
}

unfoldable pub create_user : NewUser → Exec Db User
create_user f = do
  i ← fresh_id
  taken ← gets (λ d. is_some (find_row (λ u. text_eq u.phone f.phone) d.users))
  raise_if taken database_error
  modify (λ d. record d { users = d.users ++ new_user f i ∷ [] })
  pure (new_user f i)

unfoldable pub update_password : ℕ → Text → Exec Db (Unit {0})
update_password user_id password_hash = modify λ d. record d {
  users =
      update_rows (λ u. u.id == user_id) (λ u. record u { password_hash = password_hash }) d.users;
}

-- The keywords of `save_refresh`.
pub record NewToken : Type 0 where
  pub user_id : ℕ
  pub token_hash : Text
  pub expires_at : ℕ
  pub user_agent : Option Text
  pub ip : Option Text

abbrev pub new_token : NewToken → ℕ → ℕ → RefreshToken
new_token f i at = record {
  id = i;
  user_id = f.user_id;
  token_hash = f.token_hash;
  user_agent = f.user_agent;
  ip = f.ip;
  expires_at = f.expires_at;
  revoked_at = none;
  created_at = at;
}

abbrev pub has_hash : Text → RefreshToken → Bool
has_hash token_hash t = text_eq t.token_hash token_hash

-- The row is refused: its hash is there, its user is not, or its address is too long for its column.
-- The user agent that comes here is at most 500 characters.
abbrev pub refused : NewToken → Db → Bool
refused f d =
    is_some (find_row (has_hash f.token_hash) d.refresh_tokens)
    || not (is_some (find_row (λ u. u.id == f.user_id) d.users))
    || not (fits? 45 f.ip)

unfoldable pub save_refresh : NewToken → Exec Db RefreshToken
save_refresh f = do
  i ← fresh_id
  at ← gets (λ d. d.tx_now)
  bad ← gets (refused f)
  raise_if bad database_error
  modify (λ d. record d { refresh_tokens = d.refresh_tokens ++ new_token f i at ∷ [] })
  pure (new_token f i at)

-- Neither revoked nor expired.
abbrev pub is_active : ℕ → RefreshToken → Bool
is_active now t = not (is_some t.revoked_at) && ltb now t.expires_at

unfoldable pub get_active_refresh : ℕ → Text → Exec Db (Option RefreshToken)
get_active_refresh now token_hash =
    gets (λ d. find_row (λ t. has_hash token_hash t && is_active now t) d.refresh_tokens)

-- The rows that pass a test and are not revoked become so; the number of rows is only logged.
unfoldable pub revoke : ℕ → (RefreshToken → Bool) → Exec Db (Unit {0})
revoke now p = modify λ d. record d {
  refresh_tokens =
      update_rows (λ t. p t && not (is_some t.revoked_at)) (λ t. record t { revoked_at = some now })
        d.refresh_tokens;
}

abbrev pub revoke_refresh : ℕ → Text → Exec Db (Unit {0})
revoke_refresh now token_hash = revoke now (has_hash token_hash)

abbrev pub revoke_all_user_refresh : ℕ → ℕ → Exec Db (Unit {0})
revoke_all_user_refresh now user_id = revoke now (λ t. t.user_id == user_id)
