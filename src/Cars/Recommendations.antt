-- ===== src/Cars/Recommendations.antt =====
-- app/modules/cars/recommendations.py: what a car is due for at a mileage.
pub mod Buckets
use ulov_backend.Prelude.{
  ℕ, ◌+◌, ◌-◌, ◌*◌, ◌/◌, Bool, true, false, ◌&&◌, ◌||◌, Option, none, some, List, [], ◌∷◌, map,
}
use ulov_backend.Prelude.Tests.{leb, ◌==◌, ℤ, pos, negsuc, if◌then◌else◌}
use ulov_backend.Prelude.Text.{Text, codes}

pub record Interval : Type 0 where
  pub service_type : Text
  pub interval_km : ℕ
  pub reason_due : Text
  pub reason_upcoming : Text

abbrev interval : Text → ℕ → Text → Text → Interval
interval t k due upcoming = record {
  service_type = t;
  interval_km = k;
  reason_due = due;
  reason_upcoming = upcoming;
}

-- `INTERVALS`
unfoldable pub intervals : List Interval
intervals =
    interval (codes "oil_change") 10000 (codes "Oil change is overdue")
      (codes "Oil change is approaching")
    ∷ interval (codes "air_filter") 20000 (codes "Air filter replacement is due")
        (codes "Air filter soon")
    ∷ interval (codes "cabin_filter") 20000 (codes "Cabin filter is due")
        (codes "Cabin filter soon")
    ∷ interval (codes "fuel_filter") 30000 (codes "Fuel filter replacement is due")
        (codes "Fuel filter soon")
    ∷ interval (codes "brake_pads") 30000 (codes "Brake pads inspection is due")
        (codes "Brake pad inspection soon")
    ∷ interval (codes "spark_plugs") 40000 (codes "Spark plugs should be replaced")
        (codes "Spark plugs approaching")
    ∷ interval (codes "transmission") 60000 (codes "Transmission service is due")
        (codes "Transmission service soon")
    ∷ interval (codes "timing_belt") 90000 (codes "Timing belt replacement is due")
        (codes "Timing belt approaching")
    ∷ interval (codes "coolant") 60000 (codes "Coolant flush is due") (codes "Coolant flush soon")
    ∷ interval (codes "wheel_alignment") 15000 (codes "Wheel alignment is due")
        (codes "Wheel alignment soon")
    ∷ []

abbrev pub upcoming_window_km : ℕ
upcoming_window_km = 1500

pub data Priority : Type 0 where
  due upcoming optional : Priority

-- `next_at` is the text that names the service and the mileage.
pub data Reason : Type 0 where
  stated : Text → Reason
  next_at : Text → ℕ → Reason

pub record Item : Type 0 where
  pub service_type : Text
  pub reason : Reason
  pub priority : Priority
  pub interval_km : ℕ
  pub next_due_km : ℕ

-- `max(0, int(mileage or 0))`
abbrev pub clamp_mileage : Option ℤ → ℕ
clamp_mileage none = 0
clamp_mileage (some (pos n)) = n
clamp_mileage (some (negsuc n)) = 0

-- `out.append` of one item.
abbrev pub item_of : Interval → ℕ → Priority → Reason → Item
item_of itv next_due p r = record {
  service_type = itv.service_type;
  reason = r;
  priority = p;
  interval_km = itv.interval_km;
  next_due_km = next_due;
}

-- The body of the loop, in the order of its tests.
unfoldable pub recommend : ℕ → Interval → Item
recommend m itv =
    let elapsed = m / itv.interval_km in
    let next_due = (elapsed + 1) * itv.interval_km in
    let delta = next_due - m in
    if leb itv.interval_km m && (m - elapsed * itv.interval_km == 0)
    then item_of itv next_due due (stated itv.reason_due)
    else if delta == 0
    then item_of itv next_due due (stated itv.reason_due)
    else if leb delta upcoming_window_km
    then item_of itv next_due upcoming (stated itv.reason_upcoming)
    else item_of itv next_due optional (next_at itv.service_type next_due)

-- `order`
abbrev pub order : Priority → ℕ
order due = 0
order upcoming = 1
order optional = 2

-- `out.sort`, which keeps the order of equal keys: an item goes before those with its key that
-- stood behind it.
unfoldable pub insert_by_order : Item → List Item → List Item
insert_by_order r [] = r ∷ []
insert_by_order r (x ∷ xs) =
    if leb (order r.priority) (order x.priority) then r ∷ x ∷ xs else x ∷ insert_by_order r xs

unfoldable pub sort_by_order : List Item → List Item
sort_by_order [] = []
sort_by_order (x ∷ xs) = insert_by_order x (sort_by_order xs)

unfoldable pub compute : Option ℤ → List Item
unfolding intervals recommend sort_by_order insert_by_order
compute mileage = sort_by_order (map (recommend (clamp_mileage mileage)) intervals)
