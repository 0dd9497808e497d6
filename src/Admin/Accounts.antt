-- ===== src/Admin/Accounts.antt =====
-- What an admin's change of an account means for the logins that follow.
use ulov_backend.Services.Repository.{user_exists}
use ulov_backend.Prelude.{
  ℕ, ◌≡◌, ◌≢◌, refl, ap, ◌∙◌, Bool, true, false, ◌&&◌, Option, none, some, inl, inr, arith,
}
use mathlib.Core.Option
use mathlib.Core.Path.{subst}
use ulov_backend.Prelude.Tests.{◌==◌, or_else, if◌then◌else◌, Bool-cases, Option-cases}
use ulov_backend.Prelude.Text.{Text, text_eq}
use ulov_backend.Prelude.Lists.{find_row, update_rows, All, All-find_row}
use ulov_backend.Prelude.Pages.{update_rows-All, find_key-update_rows}
use ulov_backend.Config.{Settings}
use ulov_backend.Errors.{Code, value_error, auth_forbidden}
use ulov_backend.Exec.{Result, ok, err, Result-cases}
use ulov_backend.Rbac.{CurrentUser, Role, customer, mechanic, owner, admin, require_role}
use ulov_backend.Db.{Db}
use ulov_backend.Db.Rows.{User, RefreshToken}
use ulov_backend.Security.{Hasher, Jwt}
use ulov_backend.Services.Transition.{record_audit}
use ulov_backend.Auth.Repository as repo
use ulov_backend.Auth.Service.{
  Pair, check_password, authenticate, rotate_refresh, issue_tokens, holder_of,
}
use ulov_backend.Admin.{guard, change_role, set_active, overview}

refused_guard :
    (u : CurrentUser) (d : Db) (r : Option Role)
    → u.role ≡ r
    → r ≢ some admin
    → (e : Code) × (guard u d ≡ (err e, d))
unfolding require_role
refused_guard u d none e h = (value_error, ground (arith, e))
refused_guard u d (some customer) e h = (auth_forbidden, ground (arith, e))
refused_guard u d (some mechanic) e h = (auth_forbidden, ground (arith, e))
refused_guard u d (some owner) e h = (auth_forbidden, ground (arith, e))
refused_guard u d (some admin) e h = absurd (h refl)

-- For a caller who is no admin, each endpoint of the platform's staff fails and changes nothing.
pub admin_only :
    (u : CurrentUser) (i : ℕ) (role : Option Role) (active : Option Bool) (d : Db)
    → u.role ≢ some admin
    → (e : Code) × (change_role u i role d ≡ (err e, d))
      × (set_active u i active d ≡ (err e, d))
      × (overview u d ≡ (err e, d))
unfolding change_role set_active overview
admin_only u i role active d h =
    let (e, g) = refused_guard u d u.role refl h in
    (e, ground (arith, g), ground (arith, g), ground (arith, g))

module _ (hasher : Hasher) where
  -- Whom a password lets in is active.
  authenticate-active :
      (phone password : Text) (d : Db) (x : User)
      → (authenticate hasher phone password d).0 ≡ ok x
      → (find_row (λ u. text_eq u.phone phone) d.users ≡ some x) × (x.is_active ≡ true)
  unfolding authenticate repo.get_user_by_phone check_password
  authenticate-active phone password d x h =
      elim (Option-cases (find_row (λ u. text_eq u.phone phone) d.users)) [
        | inl e ↦ absurd (ground (arith, e, h))
        | inr (y, e) ↦ elim (Bool-cases (hasher.verify y.password_hash password)) [
          | inl v ↦ elim (Bool-cases (y.is_active)) [
            | inl a ↦
                let same : y ≡ x = ground (arith, e, h, v, a) in
                subst
                  (λ z.
                    (find_row (λ u. text_eq u.phone phone) d.users ≡ some z) × (z.is_active ≡ true))
                  same (e, a)
            | inr a ↦ absurd (ground (arith, e, h, v, a))
          ]
          | inr v ↦ absurd (ground (arith, e, h, v))
        ]
      ]

module _ (cfg : Settings) (jwt : Jwt) (sha256 : Text → Text) where
  -- Whom a refresh token lets in is active.
  rotate_refresh-active :
      (now : ℕ) (old raw : Text) (user_agent ip : Option Text) (d : Db) (p : Pair) (x : User)
      → (rotate_refresh cfg jwt sha256 now old raw user_agent ip d).0 ≡ ok (p, x)
      → (token : RefreshToken) × (find_row (λ u. u.id == token.user_id) d.users ≡ some x)
        × (x.is_active ≡ true)
  unfolding rotate_refresh repo.get_active_refresh repo.get_user_by_id repo.revoke
  rotate_refresh-active now old raw user_agent ip d p x h =
      elim (Option-cases
        (find_row (λ t. repo.has_hash (sha256 old) t && repo.is_active now t) d.refresh_tokens)) [
          | inl e ↦ absurd (ground (arith, e, h))
          | inr (t, e) ↦ elim (Option-cases (find_row (λ u. u.id == t.user_id) d.users)) [
            | inl f ↦ absurd (ground (arith, e, f, h))
            | inr (y, f) ↦ elim (Bool-cases (y.is_active)) [
              | inl a ↦
                  let issued : Result Pair =
                    (issue_tokens cfg jwt sha256 now raw (holder_of y user_agent ip)
                      (repo.revoke_refresh now (sha256 old) d).1).0 in
                  elim (Result-cases issued) [
                    | inl (c, q) ↦ absurd (ground (arith, e, f, a, q, h))
                    | inr (pair, q) ↦
                        let same : y ≡ x = ground (arith, e, f, a, q, h) in
                        (
                          t,
                          subst (λ z. find_row (λ u. u.id == t.user_id) d.users ≡ some z) same f,
                          subst (λ z. z.is_active ≡ true) same a,
                        )
                  ]
              | inr a ↦ absurd (ground (arith, e, f, a, h))
            ]
          ]
        ]

-- No active account has the id.
abbrev IsLocked : ℕ → Db → Type 0
IsLocked i d = All (λ x. x.id ≡ i → x.is_active ≡ false) d.users

set_active_state :
    (u : CurrentUser) (i : ℕ) (body : Option Bool) (d : Db) (row : User)
    → u.role ≡ some admin
    → user_exists (some u.id) d ≡ true
    → find_row (λ x. x.id == i) d.users ≡ some row
    → ((set_active u i body d).0 ≡ ok (or_else body true))
      × ((set_active u i body d).1.users
          ≡ update_rows (λ x. x.id == i) (λ x. record x { is_active = or_else body true }) d.users)
unfolding set_active record_audit require_role
set_active_state u i body d row a known e =
    let still : user_exists (some u.id) (record d {
      users =
          update_rows (λ x. x.id == i) (λ x. record x { is_active = or_else body true }) d.users;
    })
        ≡ true =
      elim (Option-cases (find_row (λ x. x.id == u.id) d.users)) [
        | inl missing ↦ absurd (ground (arith, missing, known))
        | inr (x, there) ↦ ground (
          arith,
          there,
          find_key-update_rows (λ x. x.id) i u.id (λ x. record x { is_active = or_else body true })
              (λ _. refl) d.users,
        )
      ] in
    (ground (arith, a, still, e), ground (arith, a, still, e))

set_active-IsLocked :
    (u : CurrentUser) (i : ℕ) (d : Db) (row : User)
    → u.role ≡ some admin
    → user_exists (some u.id) d ≡ true
    → find_row (λ x. x.id == i) d.users ≡ some row
    → IsLocked i (set_active u i (some false) d).1
set_active-IsLocked u i d row a known e =
    rw ((set_active_state u i (some false) d row a known e).1) (
      update_rows-All (λ x. x.id ≡ i → x.is_active ≡ false) (λ x. x.id == i)
        (λ x. record x { is_active = false }) (λ x _ _. refl)
        (λ x off same. absurd (ground (arith, off, same))) d.users)

unmoved :
    (i j : ℕ)
    → j ≢ i
    → (o : Option User)
    → Option.map (λ x. if j == i then record x { is_active = false } else x) o ≡ o
unmoved i j ne none = refl
unmoved i j ne (some x) = ground (arith, ne)

module _ (cfg : Settings) (jwt : Jwt) (sha256 : Text → Text) (hasher : Hasher) where
  -- After an admin with a row in `users` has deactivated an account that exists, no password and no refresh token lets
  -- that account in, and each account with another id is as it was.
  pub set_active-locks :
      (u : CurrentUser) (i : ℕ) (d : Db) (row : User)
      → u.role ≡ some admin
      → user_exists (some u.id) d ≡ true
      → find_row (λ x. x.id == i) d.users ≡ some row
      → let (r, d') = set_active u i (some false) d in
        (r ≡ ok false)
        × ((phone password : Text) (x : User)
            → (authenticate hasher phone password d').0 ≡ ok x
            → x.id ≢ i)
        × ((now : ℕ) (old raw : Text) (user_agent ip : Option Text) (p : Pair) (x : User)
            → (rotate_refresh cfg jwt sha256 now old raw user_agent ip d').0 ≡ ok (p, x)
            → x.id ≢ i)
        × ((j : ℕ) → j ≢ i → find_row (λ x. x.id == j) d'.users ≡ find_row (λ x. x.id == j) d.users)
  set_active-locks u i d row a known e =
      let d' = (set_active u i (some false) d).1 in
      let locked = set_active-IsLocked u i d row a known e in
      (
        (set_active_state u i (some false) d row a known e).0,
        (λ phone password x h same.
            let who = authenticate-active hasher phone password d' x h in
            absurd (
              cc (
                All-find_row (λ y. y.id ≡ i → y.is_active ≡ false) (λ y. text_eq y.phone phone)
                    d'.users locked who.0 same,
                who.1,
              ))),
        (λ now old raw user_agent ip p x h same.
            let (t, found, on) =
              rotate_refresh-active cfg jwt sha256 now old raw user_agent ip d' p x h in
            absurd (
              cc (
                All-find_row (λ y. y.id ≡ i → y.is_active ≡ false) (λ y. y.id == t.user_id) d'.users
                    locked found same,
                on,
              ))),
        (λ j ne.
            ap (find_row (λ x. x.id == j)) (set_active_state u i (some false) d row a known e).1
            ∙ find_key-update_rows (λ x. x.id) i j (λ x. record x { is_active = false }) (λ _. refl)
                d.users
            ∙ unmoved i j ne (find_row (λ x. x.id == j) d.users)),
      )
