-- ===== src/Security.antt =====
-- app/core/security.py. Argon2 and JOSE are packages: their calls are interfaces, with what their
-- documentation promises. A token's claims are taken as values; `sub` is an id.
use ulov_backend.Prelude.{ℕ, ◌+◌, ◌*◌, ◌/◌, ◌<◌, ◌≡◌, Bool, true, Option, none, some}
use ulov_backend.Prelude.Text.{Text, truthy}
use ulov_backend.Config.{Settings}
use ulov_backend.Errors.{auth_invalid_token}
use ulov_backend.Exec.{Result, ok, err}
use ulov_backend.Rbac.{Role}

-- `PasswordHasher`: `hash` draws a salt, and `verify` is false where the package raises.
pub record Hasher : Type 0 where
  pub hash : ℕ → Text → Text
  pub verify : Text → Text → Bool

pub record IsHasher (hasher : Hasher) : Type 0 where
  pub verify_hash :
      (salt : ℕ) (password : Text) → hasher.verify (hasher.hash salt password) password ≡ true

-- The claims of an access token. A role that no `Role` has is `some none`.
pub record Claims : Type 0 where
  pub sub : Option ℕ
  pub role : Option (Option Role)
  pub center_id : Option ℕ
  pub iat : ℕ
  pub exp : ℕ

-- `jwt.encode` and `jwt.decode` with the configured secret; `decode` is none where it raises. Its
-- clock is in seconds.
pub record Jwt : Type 0 where
  pub encode : Claims → Text
  pub decode : ℕ → Text → Option Claims

pub record IsJwt (jwt : Jwt) : Type 0 where
  pub decode_encode : (now : ℕ) (c : Claims) → now < c.exp → jwt.decode now (jwt.encode c) ≡ some c
  pub encode_full : (c : Claims) → truthy (jwt.encode c) ≡ true

-- Seconds of a time in microseconds.
abbrev pub seconds : ℕ → ℕ
seconds now = now / 1000000

module _ (cfg : Settings) (jwt : Jwt) where
  -- without `extra`, and with the configured lifetime
  unfoldable pub create_access_token : ℕ → ℕ → Option Role → Option ℕ → Text
  create_access_token now subject role center_id = jwt.encode (record {
    sub = some subject;
    role = some role;
    center_id = center_id;
    iat = seconds now;
    exp = seconds (now + cfg.jwt_access_ttl_seconds * 1000000);
  })

-- The claims that are accepted have a `sub`.
has_sub : Option Claims → Result Claims
has_sub none = err auth_invalid_token
has_sub (some c) = elim (c.sub) [ none ↦ err auth_invalid_token | some _ ↦ ok c ]

unfoldable pub decode_access_token : Jwt → ℕ → Text → Result Claims
unfolding has_sub
decode_access_token jwt now token = has_sub (jwt.decode (seconds now) token)
