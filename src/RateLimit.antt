-- ===== src/RateLimit.antt =====
-- app/core/rate_limit.py, without the key builders of requests. `now` is the time in seconds; the
-- window is not of length 0.
pub mod Digits
pub mod Window
use ulov_backend.Prelude.{ℕ, zero, suc, ◌+◌, ◌/◌, ◌%◌, Option, none, some, List, [], ◌∷◌, ◌++◌}
use ulov_backend.Prelude.Tests.{ltb}
use ulov_backend.Prelude.Text.{Text, codes}
use ulov_backend.Errors.{rate_limited}
use ulov_backend.Exec.{Exec, ok, modify, raise_if, ◌>>=◌, ◌>>◌}
use ulov_backend.Redis.{Redis}

-- `str` of a number: its digits before `acc`. One unit of fuel for each digit.
decimal_from : ℕ → ℕ → Text → Text
decimal_from zero n acc = acc
decimal_from (suc f) n acc = elim (n / 10) [
  | zero ↦ (48 + n % 10) ∷ acc
  | suc q ↦ decimal_from f (suc q) ((48 + n % 10) ∷ acc)
]

-- A number has at most as many digits as itself, or one.
unfoldable pub decimal : ℕ → Text
unfolding decimal_from
decimal n = decimal_from (suc n) n []

abbrev pub full_key : Text → ℕ → ℕ → Text
full_key key window_seconds now = codes "rl:" ++ key ++ codes ":" ++ decimal (now / window_seconds)

unfoldable pub check_rate_limit : {R : Type 0} → Redis R → Text → ℕ → ℕ → ℕ → Exec R (Unit {0})
check_rate_limit redis key limit window_seconds now = do
  value ← (λ r. let (n, r') = redis.incr now (full_key key window_seconds now) r in (ok n, r'))
  modify (redis.expire now (full_key key window_seconds now) window_seconds)
  raise_if (ltb limit value) rate_limited
