-- ===== src/Stats/Earnings.antt =====
-- What the revenue of a centre adds up.
use ulov_backend.Prelude.{ℕ, ◌+◌, ◌-◌, ◌*◌, ◌≤◌, ◌≡◌, Bool, Option, some, List}
use ulov_backend.Prelude.Tests.{◌==◌, if◌then◌else◌}
use ulov_backend.Prelude.Lists.{All}
use ulov_backend.Prelude.Groups.{sum_of}
use ulov_backend.Exec.{Result, ok, err}
use ulov_backend.Rbac.{CurrentUser}
use ulov_backend.Db.{Db}
use ulov_backend.Db.Rows.{ServiceCenter, Service, ServiceItem}
use ulov_backend.Stats.{Revenue, day_us, is_earned, revenue, price}
use ulov_backend.Stats.Load.{earned_by}

-- What the services that pass a test have earned.
abbrev pub earned_sum : (Service → Bool) → List ServiceItem → List Service → ℕ
earned_sum e items services = sum_of (λ s. if e s then earned_by items s else 0) services

module _ (e : Service → Bool) where
  -- What one item adds to the services of a list.
  share : ServiceItem → Service → ℕ
  share i s = if i.service_id == s.id then (if e s then price i else 0) else 0

-- A day between two others.
abbrev pub Between : ℕ → ℕ → Option ℕ → Type 0
Between from_day to_day day = (x : ℕ) × (day ≡ some x) × (from_day ≤ x) × (x ≤ to_day)

abbrev pub window : ℕ → ℕ → ℕ → Service → Bool
window center_id from_day to_day =
    is_earned center_id (from_day * day_us) (to_day * day_us + (day_us - 1))

-- What the services of a centre that were completed between two days have earned.
abbrev pub takings : ℕ → ℕ → ℕ → Db → ℕ
takings center_id from_day to_day d =
    earned_sum (window center_id from_day to_day) d.items d.services

-- An answer that agrees with the rows, by how the access check ended.
abbrev pub Adds : ℕ → ℕ → CurrentUser → Option ℕ → Option ℕ → Db → Result ServiceCenter → Type 0
Adds now center_id u date_from date_to d (err e) =
    revenue now center_id u date_from date_to d ≡ (err e, d)
Adds now center_id u date_from date_to d (ok _) =
    (r : Revenue) × (revenue now center_id u date_from date_to d ≡ (ok r, d))
    × (r.total ≡ takings center_id r.from_day r.to_day d)
    × (r.total ≡ sum_of (λ row. row.amount) r.daily)
    × All (λ row. Between r.from_day r.to_day row.day) r.daily
