-- ===== src/Auth/Otp/Promise.antt =====
-- What a run of tries leads to.
use ulov_backend.Prelude.{
  ℕ, suc, ◌+◌, ◌<◌, ◌≡◌, ◌≢◌, refl, ap, ◌∙◌, true, false, none, some, inl, inr, List, [], ◌∷◌,
  arith,
}
use mathlib.Core.Path.{subst}
use ulov_backend.Prelude.Tests.{ltb, if◌then◌else◌, Bool-cases}
use ulov_backend.Prelude.Text.{Text, text_eq, text_eq_iff, text_eq_refl}
use ulov_backend.Prelude.Lists.{All, length}
use ulov_backend.Config.{Settings}
use ulov_backend.Errors.{auth_otp_locked, auth_otp_expired}
use ulov_backend.Exec.{ok, err}
use ulov_backend.Redis.{Redis, IsRedis}
use ulov_backend.Auth.Otp.{six_digits, request_otp, verify_otp}
use ulov_backend.Auth.Otp.Machine.{Issued, Phone, is_locked, current, request, miss, verify}
use ulov_backend.Auth.Otp.Refine.{IsPhone, Shows, request_otp_refines, verify_otp_refines}

-- A try: when, and which code.
abbrev pub Try : Type 0
Try = ℕ × Text

abbrev pub last_time : ℕ → List Try → ℕ
last_time t [] = t
last_time t ((u, _) ∷ gs) = last_time u gs

-- Every try is wrong, and made while the code is alive.
abbrev pub AllWrong : Issued → List Try → Type 0
AllWrong c = All (λ g. (g.0 < c.dies_at) × (g.1 ≢ c.code))

module _ {R : Type 0} (redis : Redis R) (cfg : Settings) (phone : Text) where
  -- The state after a run of tries, whatever each answers.
  unfoldable pub try_all : List Try → R → R
  try_all [] r = r
  try_all ((t, code) ∷ gs) r = try_all gs (verify_otp redis cfg t phone code r).1

  module _ (laws : IsRedis redis) (is_phone : IsPhone phone) where
    step :
        (r : R) (p : Phone) (t : ℕ) (code : Text) (p' : Phone)
        → Shows redis laws cfg r phone p
        → (verify cfg t code p).1 ≡ p'
        → Shows redis laws cfg (verify_otp redis cfg t phone code r).1 phone p'
    step r p t code p' shows e =
        subst (Shows redis laws cfg (verify_otp redis cfg t phone code r).1 phone) e
          (verify_otp_refines redis laws cfg r phone p is_phone shows t code).1

    -- One wrong try.
    verify-miss :
        (t : ℕ) (code : Text) (p : Phone) (c : Issued)
        → p.issued ≡ some c
        → t < c.dies_at
        → code ≢ c.code
        → verify cfg t code p ≡ miss cfg t c p
    unfolding verify current
    verify-miss t code p c e alive wrong =
        let w : text_eq c.code code ≡ false = ground (arith, text_eq_iff c.code code, wrong) in
        ground (arith, e, alive, w)

    -- The last try that is left, and any try before it.
    miss-last :
        (t : ℕ) (c : Issued) (p : Phone)
        → c.tries + 1 ≡ cfg.otp_max_attempts
        → (miss cfg t c p).1
          ≡ record { issued = none; locked_until = some (t + cfg.otp_lock_seconds) }
    unfolding miss
    miss-last t c p count = ground (arith, count)

    miss-more :
        (t : ℕ) (c : Issued) (p : Phone)
        → suc c.tries < cfg.otp_max_attempts
        → (miss cfg t c p).1 ≡ record p { issued = some (record c { tries = suc c.tries }) }
    unfolding miss
    miss-more t c p left = ground (arith, left)

    try_all-Shows :
        (t₀ : ℕ) (gs : List Try) (r : R) (p : Phone) (c : Issued)
        → Shows redis laws cfg r phone p
        → p.issued ≡ some c
        → AllWrong c gs
        → c.tries < cfg.otp_max_attempts
        → c.tries + length gs ≡ cfg.otp_max_attempts
        → Shows redis laws cfg
            (try_all gs r)
            phone
            (record { issued = none; locked_until = some (last_time t₀ gs + cfg.otp_lock_seconds) })
    unfolding try_all
    try_all-Shows t₀ [] r p c shows e wrong left count = absurd (omega (arith, left, count))
    try_all-Shows t₀ ((t, g) ∷ []) r p c shows e wrong left count = step r p t g _ shows (
        ap (λ o. o.1) (verify-miss t g p c e wrong.0.0 wrong.0.1)
        ∙ miss-last t c p (omega (arith, count)))
    try_all-Shows t₀ ((t, g) ∷ (x ∷ gs)) r p c shows e wrong left count =
        try_all-Shows t (x ∷ gs) (verify_otp redis cfg t phone g r).1
          (record p { issued = some (record c { tries = suc c.tries }) })
          (record c { tries = suc c.tries })
          (step r p t g _ shows (
            ap (λ o. o.1) (verify-miss t g p c e wrong.0.0 wrong.0.1)
            ∙ miss-more t c p (omega (arith, count))))
          refl wrong.1 (omega (arith, count)) (omega (arith, count))

    -- A phone with a new code, and as many wrong tries as are allowed: the phone is locked from the
    -- last of them. Until the lock ends every request for a code is refused, and from then on every
    -- request is answered with a new code.
    pub try_all-request_otp :
        (gs : List Try) (r : R) (p : Phone) (c : Issued) (now drawn : ℕ)
        → Shows redis laws cfg r phone p
        → p.issued ≡ some c
        → c.tries ≡ 0
        → AllWrong c gs
        → 0 < cfg.otp_max_attempts
        → length gs ≡ cfg.otp_max_attempts
        → (request_otp redis cfg now phone drawn (try_all gs r)).0 ≡ (
            if ltb now (last_time 0 gs + cfg.otp_lock_seconds)
            then err auth_otp_locked
            else ok (six_digits drawn, cfg.otp_ttl_seconds))
    unfolding request
    try_all-request_otp gs r p c now drawn shows e fresh wrong some_left count =
        (request_otp_refines redis laws cfg (try_all gs r) phone
          (record { issued = none; locked_until = some (last_time 0 gs + cfg.otp_lock_seconds) })
          is_phone
          (try_all-Shows 0 gs r p c shows e wrong (omega (arith, fresh, some_left))
            (omega (arith, fresh, count)))
          now drawn).0
        ∙ elim (Bool-cases (ltb now (last_time 0 gs + cfg.otp_lock_seconds))) [
          | inl x ↦ rw x refl
          | inr x ↦ rw x refl
        ]

    promised :
        (p : Phone) (now drawn t u : ℕ)
        → is_locked now p ≡ false
        → t < now + cfg.otp_ttl_seconds
        → let p₁ = (request cfg now drawn p).1 in
          ((request cfg now drawn p).0 ≡ ok (six_digits drawn, cfg.otp_ttl_seconds))
          × ((verify cfg t (six_digits drawn) p₁).0 ≡ ok tt)
          × ((verify cfg u (six_digits drawn) (verify cfg t (six_digits drawn) p₁).1).0
              ≡ err auth_otp_expired)
    unfolding request verify current
    promised p now drawn t u free alive =
        let same : text_eq (six_digits drawn) (six_digits drawn) ≡ true =
          text_eq_refl (six_digits drawn) in
        (ground (arith, free), ground (arith, free, alive, same), ground (arith, free, alive, same))

    -- A phone that is not locked asks for a code: while the code lives it is accepted, and once
    -- only: the same code is then refused at any time.
    pub request_otp-verify_otp :
        (r : R) (p : Phone) (now drawn t u : ℕ)
        → Shows redis laws cfg r phone p
        → is_locked now p ≡ false
        → t < now + cfg.otp_ttl_seconds
        → let r₁ = (request_otp redis cfg now phone drawn r).1 in
          let r₂ = (verify_otp redis cfg t phone (six_digits drawn) r₁).1 in
          ((request_otp redis cfg now phone drawn r).0 ≡ ok (six_digits drawn, cfg.otp_ttl_seconds))
          × ((verify_otp redis cfg t phone (six_digits drawn) r₁).0 ≡ ok tt)
          × ((verify_otp redis cfg u phone (six_digits drawn) r₂).0 ≡ err auth_otp_expired)
    request_otp-verify_otp r p now drawn t u shows free alive =
        let (answer, shows₁) =
          request_otp_refines redis laws cfg r phone p is_phone shows now drawn in
        let (accepted, shows₂) =
          verify_otp_refines redis laws cfg (request_otp redis cfg now phone drawn r).1 phone
            (request cfg now drawn p).1 is_phone shows₁ t (six_digits drawn) in
        let (refused, _) =
          verify_otp_refines redis laws cfg
            (verify_otp redis cfg t phone (six_digits drawn)
              (request_otp redis cfg now phone drawn r).1).1
            phone (verify cfg t (six_digits drawn) (request cfg now drawn p).1).1 is_phone shows₂ u
            (six_digits drawn) in
        let (a, b, c) = promised p now drawn t u free alive in
        (answer ∙ a, accepted ∙ b, refused ∙ c)
