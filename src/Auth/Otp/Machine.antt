-- ===== src/Auth/Otp/Machine.antt =====
-- What the one-time passwords promise for one phone, without keys and entries.
use ulov_backend.Prelude.{ℕ, suc, ◌+◌, Bool, false, Option, none, some}
use ulov_backend.Prelude.Tests.{leb, ltb, if◌then◌else◌}
use ulov_backend.Prelude.Text.{Text, text_eq}
use ulov_backend.Config.{Settings}
use ulov_backend.Errors.{auth_otp_locked, auth_otp_expired, auth_otp_invalid}
use ulov_backend.Exec.{Result, ok, err}
use ulov_backend.Auth.Otp.{six_digits}

-- A code that was sent, the wrong tries so far, and when it dies.
pub record Issued : Type 0 where
  pub code : Text
  pub tries : ℕ
  pub dies_at : ℕ

-- One phone: its code, and the end of its lock.
pub record Phone : Type 0 where
  pub issued : Option Issued
  pub locked_until : Option ℕ

abbrev pub is_locked : ℕ → Phone → Bool
is_locked now p = elim (p.locked_until) [ none ↦ false | some t ↦ ltb now t ]

-- The code that still counts.
unfoldable pub current : ℕ → Phone → Option Issued
current now p = elim (p.issued) [
  | none ↦ none
  | some c ↦ if ltb now c.dies_at then some c else none
]

module _ (cfg : Settings) where
  unfoldable pub request : ℕ → ℕ → Phone → Result (Text × ℕ) × Phone
  request now drawn p = if is_locked now p then (err auth_otp_locked, p) else (
    ok (six_digits drawn, cfg.otp_ttl_seconds),
    record p {
      issued =
          some (record { code = six_digits drawn; tries = 0; dies_at = now + cfg.otp_ttl_seconds });
    },
  )

  -- One more wrong try.
  unfoldable pub miss : ℕ → Issued → Phone → Result (Unit {0}) × Phone
  miss now c p =
      if leb cfg.otp_max_attempts (suc c.tries)
      then (
        err auth_otp_locked,
        record { issued = none; locked_until = some (now + cfg.otp_lock_seconds) },
      )
      else (err auth_otp_invalid, record p { issued = some (record c { tries = suc c.tries }) })

  unfoldable pub verify : ℕ → Text → Phone → Result (Unit {0}) × Phone
  unfolding miss
  verify now code p = elim (current now p) [
    | none ↦ (err auth_otp_expired, p)
    | some c ↦ if text_eq c.code code then (ok tt, record p { issued = none }) else miss now c p
  ]
