-- ===== src/Auth/Routes/Issued.antt =====
-- Which requests only read the tables and then give tokens out.
use ulov_backend.Prelude.{ℕ, ◌≡◌, sym, not, ◌&&◌, some, inl, inr, ◌⊎◌, arith}
use mathlib.Core.Path.{subst}
use ulov_backend.Prelude.Tests.{is_some, Bool-cases, Option-cases}
use ulov_backend.Prelude.Text.{Text, text_eq}
use ulov_backend.Prelude.Lists.{find_row}
use ulov_backend.Config.{Settings}
use ulov_backend.Exec.{Exec, Result, Result-cases}
use ulov_backend.Db.{Db}
use ulov_backend.Db.Rows.{User, ServiceCenter}
use ulov_backend.Rbac.{mechanic}
use ulov_backend.Redis.{Redis}
use ulov_backend.Security.{Hasher, Jwt, seconds}
use ulov_backend.Mechanics
use ulov_backend.Auth.Otp.{verify_otp}
use ulov_backend.Auth.Repository as repo
use ulov_backend.Auth.Repository.{has_hash, is_active}
use ulov_backend.Auth.Service as svc
use ulov_backend.Auth.Service.{check_password, Holder, holder_of, issue_tokens, rotate_refresh}
use ulov_backend.Auth.Tokens.{IsDead}
use ulov_backend.Auth.Tokens.Kept.{issue_tokens-IsDead}
use ulov_backend.Auth.Routes.{
  Client, RegisterIn, finish, register_user, register_center, login, mechanic_login, otp_verify,
}

-- A database after an action that only reads, and then gives tokens out.
abbrev pub IsIssued : Settings → Jwt → (Text → Text) → ℕ → Text → Db → Db → Type 0
IsIssued cfg jwt sha256 now raw d d' =
    (d' ≡ d) ⊎ ((who : Holder) × (d' ≡ (issue_tokens cfg jwt sha256 now raw who d).1))

-- A request leaves the database as it was, or as its work does.
pub finish_keeps :
    {R A : Type 0} (P : Db → Type 0) (m : Exec (R × Db) A) (s : R × Db)
    → P s.1
    → P (m s).1.1
    → P (finish m s).1
unfolding finish
finish_keeps P m s before after = elim (Result-cases (m s).0) [
  | inl (_, e) ↦ rw (finish, e) before
  | inr (_, e) ↦ rw (finish, e) after
]

module _ (h : Text) (cfg : Settings) (jwt : Jwt) (sha256 : Text → Text) (hasher : Hasher) where
  pub IsIssued-IsDead :
      (now : ℕ) (raw : Text) (d d' : Db)
      → IsIssued cfg jwt sha256 now raw d d'
      → IsDead h d
      → IsDead h d'
  IsIssued-IsDead now raw d d' way dead = elim way [
    | inl e ↦ subst (IsDead h) (sym e) dead
    | inr (who, e) ↦
        subst (IsDead h) (sym e) (issue_tokens-IsDead h cfg jwt sha256 now raw who d dead)
  ]

  pub login-IsIssued :
      (now : ℕ) (raw phone password : Text) (client : Client) (d : Db)
      → IsIssued cfg jwt sha256 now raw d
          (login cfg jwt sha256 hasher now raw phone password client d).1
  unfolding login svc.authenticate repo.get_user_by_phone check_password
  login-IsIssued now raw phone password client d =
      elim (Option-cases (find_row (λ u. text_eq u.phone phone) d.users)) [
        | inl e ↦ inl (ground (arith, e))
        | inr (u, e) ↦ elim (Bool-cases (hasher.verify u.password_hash password)) [
          | inr v ↦ inl (ground (arith, e, v))
          | inl v ↦ elim (Bool-cases u.is_active) [
            | inr a ↦ inl (ground (arith, e, v, a))
            | inl a ↦
                let who : Holder = holder_of u client.user_agent client.ip in
                elim (Result-cases (issue_tokens cfg jwt sha256 now raw who d).0) [
                  | inl (_, r) ↦ inr (who, ground (arith, e, v, a, r))
                  | inr (_, r) ↦ inr (who, ground (arith, e, v, a, r))
                ]
          ]
        ]
      ]

  pub mechanic_login-IsIssued :
      (now : ℕ) (raw name password : Text) (client : Client) (d : Db)
      → IsIssued cfg jwt sha256 now raw d
          (mechanic_login cfg jwt sha256 hasher now raw name password client d).1
  unfolding mechanic_login svc.authenticate_mechanic check_password Mechanics.get_by_login
  mechanic_login-IsIssued now raw name password client d =
      elim (Option-cases
        (find_row (λ m. text_eq m.login name && not (is_some m.deleted_at)) d.mechanics)) [
          | inl e ↦ inl (ground (arith, e))
          | inr (m, e) ↦ elim (Bool-cases (hasher.verify m.password_hash password)) [
            | inr v ↦ inl (ground (arith, e, v))
            | inl v ↦
                let who : Holder = record {
                  sub = m.id;
                  role = some mechanic;
                  center_id = some m.center_id;
                  user_agent = client.user_agent;
                  ip = client.ip;
                } in
                elim (Result-cases (issue_tokens cfg jwt sha256 now raw who d).0) [
                  | inl (_, r) ↦ inr (who, ground (arith, e, v, r))
                  | inr (_, r) ↦ inr (who, ground (arith, e, v, r))
                ]
          ]
        ]

  pub otp_verify-IsIssued :
      {R : Type 0} (redis : Redis R) (now : ℕ) (raw phone code : Text) (client : Client)
      (s : R × Db)
      → IsIssued cfg jwt sha256 now raw s.1
          (otp_verify cfg jwt sha256 hasher redis now raw phone code client s).1.1
  unfolding otp_verify repo.get_user_by_phone
  otp_verify-IsIssued redis now raw phone code client s =
      let d : Db = s.1 in
      elim (Result-cases (verify_otp redis cfg (seconds now) phone code s.0).0) [
        | inl (_, v) ↦ inl (ground (arith, v))
        | inr (_, v) ↦ elim (Option-cases (find_row (λ u. text_eq u.phone phone) s.1.users)) [
          | inl e ↦ inl (ground (arith, v, e))
          | inr (u, e) ↦
              let who : Holder = holder_of u client.user_agent client.ip in
              elim (Result-cases (issue_tokens cfg jwt sha256 now raw who s.1).0) [
                | inl (_, r) ↦ inr (who, ground (arith, e, v, r))
                | inr (_, r) ↦ inr (who, ground (arith, e, v, r))
              ]
        ]
      ]

  pub register_user-IsIssued :
      (now salt : ℕ) (raw : Text) (body : RegisterIn) (client : Client) (d : Db)
      → IsIssued cfg jwt sha256 now raw
          (svc.register hasher salt body.phone body.password body.full_name body.email body.city
            d).1
          (register_user cfg jwt sha256 hasher now salt raw body client d).1
  unfolding register_user
  register_user-IsIssued now salt raw body client d =
      let after : Result User × Db =
        svc.register hasher salt body.phone body.password body.full_name body.email body.city d in
      elim (Result-cases after.0) [
        | inl (_, e) ↦ inl (ground (arith, e))
        | inr (u, e) ↦
            let who : Holder = holder_of u client.user_agent client.ip in
            elim (Result-cases (issue_tokens cfg jwt sha256 now raw who after.1).0) [
              | inl (_, r) ↦ inr (who, ground (arith, e, r))
              | inr (_, r) ↦ inr (who, ground (arith, e, r))
            ]
      ]

  pub register_center-IsIssued :
      (now salt : ℕ) (raw : Text) (body : svc.RegisterCenterIn) (client : Client) (d : Db)
      → IsIssued cfg jwt sha256 now raw
          (svc.register_center hasher salt body d).1
          (register_center cfg jwt sha256 hasher now salt raw body client d).1
  unfolding register_center
  register_center-IsIssued now salt raw body client d =
      let after : Result (User × ServiceCenter) × Db = svc.register_center hasher salt body d in
      elim (Result-cases after.0) [
        | inl (_, e) ↦ inl (ground (arith, e))
        | inr ((u, _), e) ↦
            let who : Holder = holder_of u client.user_agent client.ip in
            elim (Result-cases (issue_tokens cfg jwt sha256 now raw who after.1).0) [
              | inl (_, r) ↦ inr (who, ground (arith, e, r))
              | inr (_, r) ↦ inr (who, ground (arith, e, r))
            ]
      ]
