-- ===== src/Auth/Otp.antt =====
-- app/modules/auth/service.py, the one-time passwords, which live in Redis alone.
pub mod Machine
pub mod Refine
pub mod Promise
use ulov_backend.Prelude.{
  ℕ, ◌+◌, ◌/◌, ◌%◌, Bool, true, false, Option, none, some, List, [], ◌∷◌, ◌++◌,
}
use ulov_backend.Prelude.Tests.{leb, if◌then◌else◌}
use ulov_backend.Prelude.Text.{Text, text_eq, codes}
use ulov_backend.Config.{Settings}
use ulov_backend.Errors.{auth_otp_locked, auth_otp_expired, auth_otp_invalid}
use ulov_backend.Exec.{Exec, ok, pure, raise, raise_if, gets, modify, ◌>>=◌, ◌>>◌}
use ulov_backend.Redis.{Redis}

-- `_otp_key` and `_otp_lock_key`
abbrev pub otp_key : Text → Text
otp_key phone = codes "otp:" ++ phone

abbrev pub otp_lock_key : Text → Text
otp_lock_key phone = codes "otp:lock:" ++ phone

-- `f"{n:06d}"` of a number below a million
abbrev pub six_digits : ℕ → Text
six_digits n =
    (48 + n / 100000 % 10)
    ∷ (48 + n / 10000 % 10)
    ∷ (48 + n / 1000 % 10)
    ∷ (48 + n / 100 % 10)
    ∷ (48 + n / 10 % 10)
    ∷ (48 + n % 10)
    ∷ []

module _ {R : Type 0} (redis : Redis R) (cfg : Settings) where
  -- `drawn` is `secrets.randbelow(1_000_000)`.
  unfoldable pub request_otp : ℕ → Text → ℕ → Exec R (Text × ℕ)
  request_otp now phone drawn = do
    locked ← gets (redis.exists now (otp_lock_key phone))
    raise_if locked auth_otp_locked
    let code = six_digits drawn
    modify (redis.delete (otp_key phone))
    modify (redis.hset (otp_key phone) code 0)
    modify (redis.expire now (otp_key phone) cfg.otp_ttl_seconds)
    pure (code, cfg.otp_ttl_seconds)

  -- After a wrong code.
  wrong_code : ℕ → Text → Exec R (Unit {0})
  wrong_code now phone = do
    attempts ← (λ r. let (n, r') = redis.hincrby now (otp_key phone) r in (ok n, r'))
    if leb cfg.otp_max_attempts attempts
        then (do
          modify (redis.delete (otp_key phone))
          modify (redis.setex now (otp_lock_key phone) cfg.otp_lock_seconds (codes "1"))
          raise auth_otp_locked)
        else raise auth_otp_invalid

  unfoldable pub verify_otp : ℕ → Text → Text → Exec R (Unit {0})
  unfolding wrong_code
  verify_otp now phone code = do
    stored ← gets (redis.hgetall now (otp_key phone))
    elim stored [
      | none ↦ raise auth_otp_expired
      | some (right, _) ↦
          if text_eq right code then modify (redis.delete (otp_key phone)) else wrong_code now phone
    ]
