-- ===== src/Auth/Routes/Passwords.antt =====
-- Passwords: the one that was set is the one that lets in.
use ulov_backend.Prelude.{
  ℕ, ◌≡◌, refl, ◌∙◌, true, false, not, ◌&&◌, Option, none, some, inl, inr, [], ◌∷◌, ◌++◌, arith,
}
use ulov_backend.Prelude.Tests.{◌==◌, ==_refl, is_some, Option-cases}
use ulov_backend.Prelude.Text.{Text, text_eq, text_eq_refl}
use ulov_backend.Prelude.Lists.{
  find_row, update_rows, find_row-update_rows, find_row-append, none-find_row,
}
use ulov_backend.Prelude.Pages.{update_rows-All}
use ulov_backend.Config.{Settings}
use ulov_backend.Exec.{ok}
use ulov_backend.Rbac.{customer}
use ulov_backend.Db.{Db}
use ulov_backend.Db.Rows.{User}
use ulov_backend.Redis.{Redis}
use ulov_backend.Security.{Hasher, IsHasher, Jwt, seconds}
use ulov_backend.Auth.Otp.{verify_otp}
use ulov_backend.Auth.Repository as repo
use ulov_backend.Auth.Repository.{is_active}
use ulov_backend.Auth.Service as svc
use ulov_backend.Auth.Service.{check_password, authenticate}
use ulov_backend.Auth.Routes.{password_reset_confirm}

module _ (hasher : Hasher) (laws : IsHasher hasher) where
  -- A user who registered is let in by the password that was given, as the same row; and the row is
  -- an active customer's, without a centre.
  pub authenticate-register :
      (salt : ℕ) (phone password : Text) (full_name email city : Option Text) (d : Db) (u : User)
      → (svc.register hasher salt phone password full_name email city d).0 ≡ ok u
      → ((authenticate hasher phone password
            (svc.register hasher salt phone password full_name email city d).1).0
          ≡ ok u)
        × (u.role ≡ customer)
        × (u.is_active ≡ true)
        × (u.center_id ≡ none)
  unfolding svc.register repo.get_user_by_phone repo.create_user authenticate check_password
      find_row
  authenticate-register salt phone password full_name email city d u done =
      elim (Option-cases (find_row (λ u'. text_eq u'.phone phone) d.users)) [
        | inr (_, e) ↦ cc (rw e at done)
        | inl e ↦
            let new : User =
              repo.new_user
                (record {
                  phone = phone;
                  password_hash = hasher.hash salt password;
                  full_name = full_name;
                  email = email;
                  city = city;
                  role = customer;
                })
                d.next_id in
            let row : find_row (λ u'. text_eq u'.phone phone) (d.users ++ new ∷ []) ≡ some new =
              find_row-append (λ u'. text_eq u'.phone phone) d.users (new ∷ [])
              ∙ rw (e, text_eq_refl phone) refl in
            let right : hasher.verify new.password_hash password ≡ true =
              laws.verify_hash salt password in
            let same : new ≡ u = ground (arith, e, done) in
            (ground (arith, e, row, right, same), rw⁻¹ same refl, rw⁻¹ same refl, rw⁻¹ same refl)
      ]

  module _ {R : Type 0} (cfg : Settings) (jwt : Jwt) (sha256 : Text → Text) (redis : Redis R) where
    -- When a password reset for the phone of an active user is confirmed by a one-time password
    -- that is accepted, it succeeds, the new password lets the user in, and no refresh token of the
    -- user is active, at any time.
    pub password_reset_confirm_outcome :
        (now salt : ℕ) (phone code new_password : Text) (s : R × Db) (u : User)
        → find_row (λ u'. text_eq u'.phone phone) s.1.users ≡ some u
        → u.is_active ≡ true
        → (verify_otp redis cfg (seconds now) phone code s.0).0 ≡ ok tt
        → let (r, s') =
            password_reset_confirm cfg jwt sha256 hasher redis now salt phone code new_password s in
          (r ≡ ok tt)
          × ((authenticate hasher phone new_password s'.1).0
              ≡ ok (record u { password_hash = hasher.hash salt new_password }))
          × ((later : ℕ)
              → find_row (λ t. (t.user_id == u.id) && is_active later t) s'.1.refresh_tokens ≡ none)
    unfolding password_reset_confirm repo.get_user_by_phone svc.reset_password repo.update_password
        repo.revoke authenticate check_password
    password_reset_confirm_outcome now salt phone code new_password s u found active accepted =
        let set : User → User = λ u'. record u' { password_hash = hasher.hash salt new_password } in
        let row : find_row (λ u'. text_eq u'.phone phone)
              (update_rows (λ u'. u'.id == u.id) set s.1.users)
            ≡ some (set u) =
          find_row-update_rows (λ u'. text_eq u'.phone phone) (λ u'. u'.id == u.id) set
            (λ u' _. refl) s.1.users
          ∙ rw (found, ==_refl u.id) refl in
        let db : (password_reset_confirm cfg jwt sha256 hasher redis now salt phone code
              new_password s).1.1.refresh_tokens
            ≡ update_rows (λ t. (t.user_id == u.id) && not (is_some t.revoked_at))
                (λ t. record t { revoked_at = some now }) s.1.refresh_tokens =
          ground (arith, found, accepted) in
        (
          ground (arith, found, accepted),
          ground (arith, found, accepted, row, active, laws.verify_hash salt new_password),
          λ later. rw db (
              none-find_row (λ t. (t.user_id == u.id) && is_active later t) _
                (update_rows-All (λ t. ((t.user_id == u.id) && is_active later t) ≡ false)
                  (λ t. (t.user_id == u.id) && not (is_some t.revoked_at))
                  (λ t. record t { revoked_at = some now }) (λ t e. ground arith)
                  (λ t e. ground (arith, e)) s.1.refresh_tokens)),
        )
