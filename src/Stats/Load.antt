-- ===== src/Stats/Load.antt =====
-- What the load of the mechanics counts.
use ulov_backend.Prelude.{ℕ, max, ◌≡◌, ◌↔◌, Bool, true, Option, List, arith}
use ulov_backend.Prelude.Tests.{◌==◌}
use ulov_backend.Prelude.Lists.{select_rows, length, All}
use ulov_backend.Prelude.Keys.{Keyed}
use ulov_backend.Prelude.Groups.{sum_of}
use ulov_backend.Exec.{Result, ok, err}
use ulov_backend.Rbac.{CurrentUser}
use ulov_backend.Db.{Db}
use ulov_backend.Db.Rows.{ServiceCenter, Service, ServiceItem}
use ulov_backend.Stats.{MechanicLoad, mechanic_load, price, same_opt}
use ulov_backend.Stats.Overview.{live_of}

pub same_opt_iff : (a b : Option ℕ) → (same_opt a b ≡ true) ↔ (a ≡ b)
same_opt_iff a b = ground arith

-- The rows of a service in the join, and its items.
abbrev pub items_of : List ServiceItem → Service → List ServiceItem
items_of items s = select_rows (λ i. i.service_id == s.id) items

module _ (m : Option ℕ) where
  abbrev pub of_mechanic : Service → Bool
  of_mechanic s = same_opt s.mechanic_id m

  abbrev joined_of : Service × Option ServiceItem → Bool
  joined_of r = of_mechanic r.0

-- What a service adds to the count and to the revenue of its mechanic.
abbrev pub weight : List ServiceItem → Service → ℕ
weight items s = max 1 (length (items_of items s))

abbrev pub earned_by : List ServiceItem → Service → ℕ
earned_by items s = sum_of price (items_of items s)

-- A row agrees with the live services of its mechanic.
abbrev pub Weighs : ℕ → Db → MechanicLoad → Type 0
Weighs center_id d r =
    let mine = select_rows (of_mechanic r.mechanic_id) (live_of center_id d) in
    (r.services ≡ sum_of (weight d.items) mine) × (r.revenue ≡ sum_of (earned_by d.items) mine)

-- An answer that agrees with the rows, by how the access check ended.
abbrev pub Loads : ℕ → CurrentUser → Db → Result ServiceCenter → Type 0
Loads center_id u d (err e) = mechanic_load center_id u d ≡ (err e, d)
Loads center_id u d (ok _) =
    (rows : List MechanicLoad) × (mechanic_load center_id u d ≡ (ok rows, d))
    × Keyed (λ r. r.mechanic_id) rows
    × All (Weighs center_id d) rows
    × (sum_of (λ r. r.revenue) rows ≡ sum_of (earned_by d.items) (live_of center_id d))
