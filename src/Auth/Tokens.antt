-- ===== src/Auth/Tokens.antt =====
-- The life of refresh tokens.
pub mod Kept
use ulov_backend.Prelude.{
  ℕ, ◌≡◌, refl, sym, ap, ◌∙◌, Bool, true, false, not, ◌&&◌, Option, none, some, inl, inr, ◌⊎◌, [],
  ◌∷◌, ◌++◌, arith,
}
use mathlib.Core.Path.{subst}
use ulov_backend.Prelude.Tests.{◌==◌, is_some, if◌then◌else◌, Bool-cases, Option-cases}
use ulov_backend.Prelude.Text.{Text, text_eq, text_eq_iff, truthy?, text_or_empty}
use ulov_backend.Prelude.Lists.{
  All, All-map, All-append, All-update_rows, find_row, find_row-update_rows, find_row-append,
  none-find_row, find_row-none, find_row-test,
}
use ulov_backend.Prelude.Pages.{update_rows-All}
use ulov_backend.Config.{Settings}
use ulov_backend.Errors.{Code, auth_refresh_invalid, auth_disabled}
use ulov_backend.Exec.{Result-cases, ok, err}
use ulov_backend.Db.{Db}
use ulov_backend.Db.Rows.{User, RefreshToken}
use ulov_backend.Security.{Hasher, Jwt}
use ulov_backend.Auth.Repository as repo
use ulov_backend.Auth.Repository.{has_hash, is_active, refused, new_token, NewToken}
use ulov_backend.Centers.Profile.{insert}
use ulov_backend.Auth.Service.{
  RegisterCenterIn, owner_keywords, register_center, Holder, Pair, pair_of, holder_of, token_of,
  issue_tokens, rotate_refresh, logout, reset_password, register,
}

-- Every row with the hash is revoked, and there is one.
pub record IsDead (h : Text) (d : Db) : Type 0 where
  pub revoked : All (λ t. has_hash h t ≡ true → is_some t.revoked_at ≡ true) d.refresh_tokens
  pub known : is_some (find_row (has_hash h) d.refresh_tokens) ≡ true

-- A dead hash gives no active token, at any time.
pub IsDead-get_active_refresh :
    (h : Text) (d : Db) (now : ℕ)
    → IsDead h d
    → find_row (λ t. has_hash h t && is_active now t) d.refresh_tokens ≡ none
IsDead-get_active_refresh h d now dead =
    none-find_row (λ t. has_hash h t && is_active now t) d.refresh_tokens
      (All-map {Q = λ t. (has_hash h t && is_active now t) ≡ false}
        (λ (t : RefreshToken) r. elim (Bool-cases (has_hash h t)) [
          | inl e ↦ ground (arith, e, r e)
          | inr e ↦ ground (arith, e)
        ])
        d.refresh_tokens dead.revoked)

module _ (h : Text) where
  -- No other table matters.
  same-IsDead : (d d' : Db) → d'.refresh_tokens ≡ d.refresh_tokens → IsDead h d → IsDead h d'
  same-IsDead d d' e dead = record { revoked = rw e dead.revoked; known = rw e dead.known }

  revoke-IsDead :
      (now : ℕ) (p : RefreshToken → Bool) (d : Db) → IsDead h d → IsDead h (repo.revoke now p d).1
  unfolding repo.revoke
  revoke-IsDead now p d dead = record {
    revoked =
        All-update_rows (λ t. has_hash h t ≡ true → is_some t.revoked_at ≡ true)
          (λ t. p t && not (is_some t.revoked_at)) (λ t. record t { revoked_at = some now })
          (λ t _ _ _. refl) d.refresh_tokens dead.revoked;
    known =
        ap is_some (
          find_row-update_rows (has_hash h) (λ t. p t && not (is_some t.revoked_at))
            (λ t. record t { revoked_at = some now }) (λ t _. refl) d.refresh_tokens)
        ∙ elim (Option-cases (find_row (has_hash h) d.refresh_tokens)) [
          | inl e ↦ ground (arith, e, dead.known)
          | inr (t, e) ↦ rw e refl
        ];
  }

  -- A new row has another hash.
  added-IsDead :
      (f : NewToken) (i at : ℕ) (d d' : Db)
      → refused f d ≡ false
      → d'.refresh_tokens ≡ d.refresh_tokens ++ new_token f i at ∷ []
      → IsDead h d
      → IsDead h d'
  added-IsDead f i at d d' free e dead =
      let other : has_hash h (new_token f i at) ≡ false =
        elim (Bool-cases (text_eq f.token_hash h)) [
          | inl same ↦
              let s : f.token_hash ≡ h = (text_eq_iff f.token_hash h).0 same in
              absurd (ground (arith, dead.known, rw s at free))
          | inr ne ↦ ne
        ] in
      record {
        revoked = rw e (
            All-append (λ t. has_hash h t ≡ true → is_some t.revoked_at ≡ true) d.refresh_tokens
              (new_token f i at ∷ []) dead.revoked ((λ t. ground (arith, t, other)), tt));
        known = rw e (
            ap is_some (find_row-append (has_hash h) d.refresh_tokens (new_token f i at ∷ []))
            ∙ elim (Option-cases (find_row (has_hash h) d.refresh_tokens)) [
              | inl n ↦ ground (arith, n, dead.known)
              | inr (t, n) ↦ rw n refl
            ]);
      }
