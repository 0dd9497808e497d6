-- ===== src/Auth/Routes/Once.antt =====
-- A refresh token is worth one refresh.
use ulov_backend.Prelude.{ℕ, ◌≡◌, sym, true, Option, some, inl, inr, ◌⊎◌, List, [], ◌∷◌, arith}
use mathlib.Core.Path.{subst}
use ulov_backend.Prelude.Tests.{Bool-cases, Option-cases}
use ulov_backend.Prelude.Text.{truthy, Text, text_eq, truthy?, text_or_empty}
use ulov_backend.Prelude.Lists.{find_row}
use ulov_backend.Config.{Settings}
use ulov_backend.Errors.{auth_refresh_invalid}
use ulov_backend.Exec.{Result-cases, ok, err}
use ulov_backend.Db.{Db}
use ulov_backend.Db.Rows.{User}
use ulov_backend.Redis.{Redis}
use ulov_backend.Security.{Hasher, Jwt, seconds}
use ulov_backend.Auth.Otp.{request_otp, verify_otp}
use ulov_backend.Auth.Repository as repo
use ulov_backend.Auth.Repository.{has_hash, is_active}
use ulov_backend.Auth.Service as svc
use ulov_backend.Auth.Service.{check_password, Holder, holder_of, issue_tokens, rotate_refresh}
use ulov_backend.Auth.Tokens.{IsDead}
use ulov_backend.Auth.Tokens.Kept.{
  rotate_refresh-IsDead, logout-IsDead, reset_password-IsDead, register-IsDead,
  register_center-IsDead, rotate_refresh_kills, IsDead-rotate_refresh,
}
use ulov_backend.Auth.Routes.{
  Client, on_redis, on_db, finish, register_user, register_center, sign_up_center, login,
  mechanic_login, refresh_tokens, otp_verify, password_reset_request, password_reset_confirm, Route,
  ask_otp, enter_otp, sign_up, enter, enter_mechanic, renew, leave, ask_reset, reset, run, run_all,
}
use ulov_backend.Auth.Routes.Issued.{
  finish_keeps, login-IsIssued, mechanic_login-IsIssued, otp_verify-IsIssued,
  register_user-IsIssued, register_center-IsIssued, IsIssued-IsDead,
}

module _ (h : Text) (cfg : Settings) (jwt : Jwt) (sha256 : Text → Text) (hasher : Hasher) where
  refresh_tokens-IsDead :
      (now : ℕ) (cookie : Option Text) (raw : Text) (client : Client) (d : Db)
      → IsDead h d
      → IsDead h (refresh_tokens cfg jwt sha256 hasher now cookie raw client d).1
  unfolding refresh_tokens
  refresh_tokens-IsDead now cookie raw client d dead = elim (Bool-cases (truthy? cookie)) [
    | inl e ↦ rw e (
        rotate_refresh-IsDead h cfg jwt sha256 now (text_or_empty cookie) raw client.user_agent
          client.ip d dead)
    | inr e ↦ rw e dead
  ]

  module _ {R : Type 0} (redis : Redis R) where
    password_reset_confirm_db :
        (now salt : ℕ) (phone code new_password : Text) (s : R × Db)
        → let d =
            (password_reset_confirm cfg jwt sha256 hasher redis now salt phone code new_password
              s).1.1 in
          (d ≡ s.1) ⊎ ((u : User) × (d ≡ (svc.reset_password hasher salt now u new_password s.1).1))
    unfolding password_reset_confirm repo.get_user_by_phone
    password_reset_confirm_db now salt phone code new_password s =
        elim (Option-cases (find_row (λ u. text_eq u.phone phone) s.1.users)) [
          | inl e ↦ inl (ground (arith, e))
          | inr (u, e) ↦ elim (Result-cases (verify_otp redis cfg (seconds now) phone code s.0).0) [
            | inl (_, v) ↦ inl (ground (arith, e, v))
            | inr (_, v) ↦ inr (u, ground (arith, e, v))
          ]
        ]

    reset-IsDead :
        (now salt : ℕ) (phone code new_password : Text) (s : R × Db)
        → IsDead h s.1
        → IsDead h
            (password_reset_confirm cfg jwt sha256 hasher redis now salt phone code new_password
              s).1.1
    reset-IsDead now salt phone code new_password s dead =
        elim (password_reset_confirm_db now salt phone code new_password s) [
          | inl e ↦ subst (IsDead h) (sym e) dead
          | inr (u, e) ↦
              subst (IsDead h) (sym e)
                (reset_password-IsDead h hasher salt now u new_password s.1 dead)
        ]

    password_reset_request_db :
        (now : ℕ) (phone : Text) (drawn : ℕ) (s : R × Db)
        → (password_reset_request cfg jwt sha256 hasher redis now phone drawn s).1.1 ≡ s.1
    unfolding password_reset_request repo.get_user_by_phone
    password_reset_request_db now phone drawn s =
        elim (Option-cases (find_row (λ u. text_eq u.phone phone) s.1.users)) [
          | inl e ↦ ground (arith, e)
          | inr (u, e) ↦
              elim (Result-cases (request_otp redis cfg (seconds now) phone drawn s.0).0) [
                | inl (_, v) ↦ ground (arith, e, v)
                | inr (_, v) ↦ ground (arith, e, v)
              ]
        ]

    run-IsDead :
        (a : Route) (s : R × Db) → IsDead h s.1 → IsDead h (run cfg jwt sha256 hasher redis a s).1
    unfolding run
    run-IsDead (ask_otp now phone drawn) s dead =
        finish_keeps (IsDead h) (on_redis (request_otp redis cfg (seconds now) phone drawn)) s dead
          dead
    run-IsDead (enter_otp now raw phone code client) s dead =
        finish_keeps (IsDead h) (otp_verify cfg jwt sha256 hasher redis now raw phone code client) s
          dead
          (IsIssued-IsDead h cfg jwt sha256 hasher now raw _ _
            (otp_verify-IsIssued h cfg jwt sha256 hasher redis now raw phone code client s) dead)
    run-IsDead (sign_up now salt raw body client) s dead =
        finish_keeps (IsDead h)
          (on_db (register_user cfg jwt sha256 hasher now salt raw body client)) s dead
          (IsIssued-IsDead h cfg jwt sha256 hasher now raw _ _
            (register_user-IsIssued h cfg jwt sha256 hasher now salt raw body client s.1)
            (register-IsDead h hasher salt body.phone body.password body.full_name body.email
              body.city s.1 dead))
    run-IsDead (sign_up_center now salt raw body client) s dead =
        finish_keeps (IsDead h)
          (on_db (register_center cfg jwt sha256 hasher now salt raw body client)) s dead
          (IsIssued-IsDead h cfg jwt sha256 hasher now raw _ _
            (register_center-IsIssued h cfg jwt sha256 hasher now salt raw body client s.1)
            (register_center-IsDead h hasher salt body s.1 dead))
    run-IsDead (enter now raw phone password client) s dead =
        finish_keeps (IsDead h) (on_db (login cfg jwt sha256 hasher now raw phone password client))
          s dead
          (IsIssued-IsDead h cfg jwt sha256 hasher now raw _ _
            (login-IsIssued h cfg jwt sha256 hasher now raw phone password client s.1) dead)
    run-IsDead (enter_mechanic now raw name password client) s dead =
        finish_keeps (IsDead h)
          (on_db (mechanic_login cfg jwt sha256 hasher now raw name password client)) s dead
          (IsIssued-IsDead h cfg jwt sha256 hasher now raw _ _
            (mechanic_login-IsIssued h cfg jwt sha256 hasher now raw name password client s.1) dead)
    run-IsDead (renew now cookie raw client) s dead =
        finish_keeps (IsDead h) (on_db (refresh_tokens cfg jwt sha256 hasher now cookie raw client))
          s dead (refresh_tokens-IsDead now cookie raw client s.1 dead)
    run-IsDead (leave now cookie) s dead =
        finish_keeps (IsDead h) (on_db (svc.logout cfg jwt sha256 now cookie)) s dead
          (logout-IsDead h cfg jwt sha256 now cookie s.1 dead)
    run-IsDead (ask_reset now phone drawn) s dead =
        finish_keeps (IsDead h) (password_reset_request cfg jwt sha256 hasher redis now phone drawn)
          s dead (subst (IsDead h) (sym (password_reset_request_db now phone drawn s)) dead)
    run-IsDead (reset now salt phone code new_password) s dead =
        finish_keeps (IsDead h)
          (password_reset_confirm cfg jwt sha256 hasher redis now salt phone code new_password) s
          dead (reset-IsDead now salt phone code new_password s dead)

    run_all-IsDead :
        (routes : List Route) (s : R × Db)
        → IsDead h s.1
        → IsDead h (run_all cfg jwt sha256 hasher redis routes s).1
    unfolding run_all
    run_all-IsDead [] s dead = dead
    run_all-IsDead (a ∷ rest) s dead = run_all-IsDead rest _ (run-IsDead a s dead)

module _ (cfg : Settings) (jwt : Jwt) (sha256 : Text → Text) (hasher : Hasher) where
  -- A cookie that was refreshed is not empty, and its hash is dead.
  refresh_tokens_kills :
      (now : ℕ) (cookie raw : Text) (client : Client) (d : Db) (a : svc.Pair × User)
      → (refresh_tokens cfg jwt sha256 hasher now (some cookie) raw client d).0 ≡ ok a
      → (truthy cookie ≡ true)
        × IsDead
            (sha256 cookie)
            (refresh_tokens cfg jwt sha256 hasher now (some cookie) raw client d).1
  unfolding refresh_tokens
  refresh_tokens_kills now cookie raw client d a done = elim (Bool-cases (truthy cookie)) [
    | inr e ↦ cc (rw e at done)
    | inl e ↦ (
      e,
      rw e (
          rotate_refresh_kills cfg jwt sha256 now cookie raw client.user_agent client.ip d a
            (rw e at done)),
    )
  ]

  IsDead-refresh_tokens :
      (now : ℕ) (cookie raw : Text) (client : Client) (d : Db)
      → truthy cookie ≡ true
      → IsDead (sha256 cookie) d
      → (refresh_tokens cfg jwt sha256 hasher now (some cookie) raw client d).0
        ≡ err auth_refresh_invalid
  unfolding refresh_tokens
  IsDead-refresh_tokens now cookie raw client d e dead =
      rw e (IsDead-rotate_refresh cfg jwt sha256 now cookie raw client.user_agent client.ip d dead)

  -- When a refresh with a cookie has succeeded, then whatever requests are served after it, a
  -- refresh with the same cookie, at any time, is answered AUTH_REFRESH_INVALID.
  pub refresh_tokens_once :
      {R : Type 0} (redis : Redis R) (now : ℕ) (cookie raw : Text) (client : Client) (s : R × Db)
      (a : svc.Pair × User)
      → (refresh_tokens cfg jwt sha256 hasher now (some cookie) raw client s.1).0 ≡ ok a
      → (routes : List Route) (later : ℕ) (raw' : Text) (client' : Client)
      → let s' =
          run_all cfg jwt sha256 hasher redis (renew now (some cookie) raw client ∷ routes) s in
        (refresh_tokens cfg jwt sha256 hasher later (some cookie) raw' client' s'.1).0
        ≡ err auth_refresh_invalid
  unfolding run_all run finish
  refresh_tokens_once redis now cookie raw client s a done routes later raw' client' =
      let (full, dead) = refresh_tokens_kills now cookie raw client s.1 a done in
      IsDead-refresh_tokens later cookie raw' client' _ full (
        run_all-IsDead (sha256 cookie) cfg jwt sha256 hasher redis routes _
          (rw (run, finish, done) dead))
