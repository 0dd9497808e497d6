-- ===== src/Auth/Tokens/Kept.antt =====
-- Each action on tokens and users keeps a dead token dead, and a refresh makes its token dead.
use ulov_backend.Prelude.{
  ℕ, ◌≡◌, refl, sym, ap, ◌∙◌, Bool, true, false, not, ◌&&◌, Option, some, inl, inr, ◌⊎◌, [], ◌∷◌,
  ◌++◌, arith,
}
use mathlib.Core.Path.{subst}
use ulov_backend.Prelude.Tests.{◌==◌, is_some, if◌then◌else◌, Bool-cases, Option-cases}
use ulov_backend.Prelude.Text.{Text, text_eq, truthy?, text_or_empty}
use ulov_backend.Prelude.Lists.{find_row, find_row-update_rows, find_row-none, find_row-test}
use ulov_backend.Prelude.Pages.{update_rows-All}
use ulov_backend.Config.{Settings}
use ulov_backend.Errors.{Code, auth_refresh_invalid, auth_disabled}
use ulov_backend.Exec.{Result-cases, ok, err}
use ulov_backend.Db.{Db}
use ulov_backend.Db.Rows.{User, RefreshToken}
use ulov_backend.Security.{Hasher, Jwt}
use ulov_backend.Auth.Repository as repo
use ulov_backend.Auth.Repository.{has_hash, is_active, refused, new_token, NewToken}
use ulov_backend.Centers.Profile.{insert}
use ulov_backend.Auth.Service.{
  RegisterCenterIn, owner_keywords, register_center, Holder, Pair, pair_of, holder_of, token_of,
  issue_tokens, rotate_refresh, logout, reset_password, register,
}
use ulov_backend.Auth.Tokens.{
  IsDead, IsDead-get_active_refresh, same-IsDead, revoke-IsDead, added-IsDead,
}

module _ (h : Text) where
  -- Each action on tokens and users keeps it.
  pub create_user-IsDead :
      (f : repo.NewUser) (d : Db) → IsDead h d → IsDead h (repo.create_user f d).1
  unfolding repo.create_user
  create_user-IsDead f d dead =
      elim (Bool-cases (is_some (find_row (λ u. text_eq u.phone f.phone) d.users))) [
        | inl e ↦ rw e (same-IsDead h d _ refl dead)
        | inr e ↦ rw e (same-IsDead h d _ refl dead)
      ]

  save_refresh-IsDead : (f : NewToken) (d : Db) → IsDead h d → IsDead h (repo.save_refresh f d).1
  unfolding repo.save_refresh
  save_refresh-IsDead f d dead = elim (Bool-cases (refused f d)) [
    | inl e ↦ rw e (same-IsDead h d _ refl dead)
    | inr e ↦ rw e (added-IsDead h f d.next_id d.tx_now d _ e refl dead)
  ]

  module _ (cfg : Settings) (jwt : Jwt) (sha256 : Text → Text) where
    issue_tokens_state :
        (now : ℕ) (raw : Text) (who : Holder) (d : Db)
        → (issue_tokens cfg jwt sha256 now raw who d).1 ≡ (
            if is_some (find_row (λ u. u.id == who.sub) d.users)
            then (repo.save_refresh (token_of cfg jwt sha256 now raw who) d).1
            else d)
    unfolding issue_tokens
    issue_tokens_state now raw who d =
        let f : NewToken = token_of cfg jwt sha256 now raw who in
        elim (Bool-cases (is_some (find_row (λ u. u.id == who.sub) d.users))) [
          | inl e ↦ elim (Result-cases (repo.save_refresh f d).0) [
            | inl (_, q) ↦ ground (arith, e, q)
            | inr (_, q) ↦ ground (arith, e, q)
          ]
          | inr e ↦ ground (arith, e)
        ]

    -- A refresh fails and changes nothing, or it revokes an active token and issues another.
    rotate_refresh_state :
        (now : ℕ) (old raw : Text) (ua ip : Option Text) (d : Db)
        → let (r, d') = rotate_refresh cfg jwt sha256 now old raw ua ip d in
          ((d' ≡ d) × ((e : Code) × (r ≡ err e)))
          ⊎ ((u : User) × ((t : RefreshToken) × (find_row
                    (λ t'. has_hash (sha256 old) t' && is_active now t')
                    d.refresh_tokens
                  ≡ some t)
                × (d'
                    ≡ (issue_tokens cfg jwt sha256 now raw
                        (holder_of u ua ip)
                        (repo.revoke_refresh now (sha256 old) d).1).1)))
    unfolding rotate_refresh repo.get_active_refresh repo.get_user_by_id
    rotate_refresh_state now old raw ua ip d =
        elim (Option-cases
          (find_row (λ t. has_hash (sha256 old) t && is_active now t) d.refresh_tokens)) [
            | inl e ↦ inl (ground (arith, e), (auth_refresh_invalid, ground (arith, e)))
            | inr (t, e) ↦ elim (Option-cases (find_row (λ u. u.id == t.user_id) d.users)) [
              | inl n ↦ inl (ground (arith, e, n), (auth_disabled, ground (arith, e, n)))
              | inr (u, n) ↦ elim (Bool-cases u.is_active) [
                | inr q ↦ inl (ground (arith, e, n, q), (auth_disabled, ground (arith, e, n, q)))
                | inl q ↦
                    elim (Result-cases
                      (issue_tokens cfg jwt sha256 now raw (holder_of u ua ip)
                        (repo.revoke_refresh now (sha256 old) d).1).0) [
                          | inl (_, r) ↦ inr (u, (t, e, ground (arith, e, n, q, r)))
                          | inr (_, r) ↦ inr (u, (t, e, ground (arith, e, n, q, r)))
                        ]
              ]
            ]
          ]

    pub issue_tokens-IsDead :
        (now : ℕ) (raw : Text) (who : Holder) (d : Db)
        → IsDead h d
        → IsDead h (issue_tokens cfg jwt sha256 now raw who d).1
    issue_tokens-IsDead now raw who d dead =
        subst (IsDead h) (sym (issue_tokens_state now raw who d))
          (elim (Bool-cases (is_some (find_row (λ u. u.id == who.sub) d.users))) [
            | inl e ↦ rw e (save_refresh-IsDead (token_of cfg jwt sha256 now raw who) d dead)
            | inr e ↦ rw e dead
          ])

    pub rotate_refresh-IsDead :
        (now : ℕ) (old raw : Text) (ua ip : Option Text) (d : Db)
        → IsDead h d
        → IsDead h (rotate_refresh cfg jwt sha256 now old raw ua ip d).1
    rotate_refresh-IsDead now old raw ua ip d dead =
        elim (rotate_refresh_state now old raw ua ip d) [
          | inl (e, _) ↦ subst (IsDead h) (sym e) dead
          | inr (u, (_, _, e)) ↦ subst (IsDead h) (sym e) (
              issue_tokens-IsDead now raw (holder_of u ua ip) _
                (revoke-IsDead h now (has_hash (sha256 old)) d dead))
        ]

    pub logout-IsDead :
        (now : ℕ) (raw : Option Text) (d : Db)
        → IsDead h d
        → IsDead h (logout cfg jwt sha256 now raw d).1
    unfolding logout
    logout-IsDead now raw d dead = elim (Bool-cases (truthy? raw)) [
      | inl e ↦ rw e (revoke-IsDead h now (has_hash (sha256 (text_or_empty raw))) d dead)
      | inr e ↦ rw e dead
    ]

  pub reset_password-IsDead :
      (hasher : Hasher) (salt now : ℕ) (u : User) (new_password : Text) (d : Db)
      → IsDead h d
      → IsDead h (reset_password hasher salt now u new_password d).1
  unfolding reset_password repo.update_password
  reset_password-IsDead hasher salt now u new_password d dead =
      revoke-IsDead h _ _ _ (same-IsDead h d _ refl dead)

  pub register-IsDead :
      (hasher : Hasher) (salt : ℕ) (phone password : Text) (full_name email city : Option Text)
      (d : Db)
      → IsDead h d
      → IsDead h (register hasher salt phone password full_name email city d).1
  unfolding register repo.get_user_by_phone
  register-IsDead hasher salt phone password full_name email city d dead =
      elim (Bool-cases (is_some (find_row (λ u. text_eq u.phone phone) d.users))) [
        | inl e ↦ rw e dead
        | inr e ↦ rw e (create_user-IsDead _ d dead)
      ]

register_center_tokens :
    (hasher : Hasher) (salt : ℕ) (body : RegisterCenterIn) (d : Db)
    → (register_center hasher salt body d).1.refresh_tokens ≡ d.refresh_tokens
unfolding register_center repo.get_user_by_phone repo.create_user insert
register_center_tokens hasher salt body d =
    elim (Option-cases (find_row (λ u. text_eq u.phone body.phone) d.users)) [
      | inr (_, e) ↦ ground (arith, e)
      | inl e ↦
          elim (Bool-cases (
            is_some (
              find_row (λ u. u.id == d.next_id)
                (d.users ++ repo.new_user (owner_keywords hasher salt body) d.next_id ∷ [])))) [
                  | inl q ↦ ground (arith, e, q)
                  | inr q ↦ ground (arith, e, q)
                ]
    ]

pub register_center-IsDead :
    (h : Text) (hasher : Hasher) (salt : ℕ) (body : RegisterCenterIn) (d : Db)
    → IsDead h d
    → IsDead h (register_center hasher salt body d).1
register_center-IsDead h hasher salt body d dead =
    same-IsDead h d _ (register_center_tokens hasher salt body d) dead

-- A hash that is there is dead once it is revoked.
pub revoke_refresh-IsDead :
    (h : Text) (now : ℕ) (d : Db) (t : RefreshToken)
    → find_row (λ t'. has_hash h t' && is_active now t') d.refresh_tokens ≡ some t
    → IsDead h (repo.revoke_refresh now h d).1
unfolding repo.revoke
revoke_refresh-IsDead h now d t found =
    let q : RefreshToken → Bool = λ t'. has_hash h t' && not (is_some t'.revoked_at) in
    let f : RefreshToken → RefreshToken = λ t'. record t' { revoked_at = some now } in
    let both : RefreshToken → Bool = λ t'. has_hash h t' && is_active now t' in
    record {
      revoked =
          update_rows-All (λ t'. has_hash h t' ≡ true → is_some t'.revoked_at ≡ true) q f
            (λ t' _ _. refl) (λ t' no same. ground (arith, no, same)) d.refresh_tokens;
      known =
          ap is_some (find_row-update_rows (has_hash h) q f (λ t' _. refl) d.refresh_tokens)
          ∙ elim (Option-cases (find_row (has_hash h) d.refresh_tokens)) [
            | inl e ↦ absurd (
                ground (
                  arith,
                  find_row-none (has_hash h) both d.refresh_tokens t e found,
                  find_row-test both d.refresh_tokens {a = t} found,
                ))
            | inr (_, e) ↦ rw e refl
          ];
    }

-- A refresh that succeeds makes its token dead.
pub rotate_refresh_kills :
    (cfg : Settings) (jwt : Jwt) (sha256 : Text → Text) (now : ℕ) (old raw : Text)
    (ua ip : Option Text) (d : Db) (a : Pair × User)
    → (rotate_refresh cfg jwt sha256 now old raw ua ip d).0 ≡ ok a
    → IsDead (sha256 old) (rotate_refresh cfg jwt sha256 now old raw ua ip d).1
rotate_refresh_kills cfg jwt sha256 now old raw ua ip d a done =
    elim (rotate_refresh_state (sha256 old) cfg jwt sha256 now old raw ua ip d) [
      | inl (_, (_, e)) ↦ cc
      | inr (u, (t, found, e)) ↦ subst (IsDead (sha256 old)) (sym e) (
          issue_tokens-IsDead (sha256 old) cfg jwt sha256 now raw (holder_of u ua ip) _
            (revoke_refresh-IsDead (sha256 old) now d t found))
    ]

-- A dead token cannot be refreshed.
pub IsDead-rotate_refresh :
    (cfg : Settings) (jwt : Jwt) (sha256 : Text → Text) (now : ℕ) (old raw : Text)
    (ua ip : Option Text) (d : Db)
    → IsDead (sha256 old) d
    → (rotate_refresh cfg jwt sha256 now old raw ua ip d).0 ≡ err auth_refresh_invalid
unfolding rotate_refresh repo.get_active_refresh
IsDead-rotate_refresh cfg jwt sha256 now old raw ua ip d dead =
    ground (arith, IsDead-get_active_refresh (sha256 old) d now dead)

-- Tokens are given out, unless the drawn one is there already.
pub issue_tokens_ok :
    (cfg : Settings) (jwt : Jwt) (sha256 : Text → Text) (now : ℕ) (raw : Text) (who : Holder)
    (d : Db)
    → refused (token_of cfg jwt sha256 now raw who) d ≡ false
    → (issue_tokens cfg jwt sha256 now raw who d).0 ≡ ok (pair_of cfg jwt sha256 now raw who)
unfolding issue_tokens repo.save_refresh
issue_tokens_ok cfg jwt sha256 now raw who d free =
    elim (Bool-cases (is_some (find_row (λ u. u.id == who.sub) d.users))) [
      | inl e ↦ ground (arith, e, free)
      | inr e ↦ ground (arith, e)
    ]
